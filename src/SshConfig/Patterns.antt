-- ===== src/SshConfig/Patterns.antt =====
-- Which hosts the patterns of a block mean.
use paramiko.Base.{
  ◌≡◌, ◌∙◌, inl, inr, Bool, true, false, not, ◌&&◌, ◌||◌, List, [], ◌∷◌, Bytes, drop, Bool-cases,
  arith,
}
use paramiko.SshConfig.State.{System}
use paramiko.SshConfig.Matching.{is_negated, match_patterns, pattern_matches}

module _ (system : System) (target : Bytes) where
  -- Some pattern is that of the target; some negated one is.
  unfoldable pub is_meant : List Bytes → Bool
  is_meant [] = false
  is_meant (p ∷ patterns) = system.fnmatch target p || is_meant patterns

  unfoldable pub is_ruled_out : List Bytes → Bool
  is_ruled_out [] = false
  is_ruled_out (p ∷ patterns) =
      is_negated p && system.fnmatch target (drop 1 p) || is_ruled_out patterns

  match_patterns_result :
      (match : Bool) (patterns : List Bytes)
      → match_patterns system match patterns target
        ≡ ((match || is_meant patterns) && not (is_ruled_out patterns))
  unfolding match_patterns is_meant is_ruled_out
  match_patterns_result match [] = ground arith
  match_patterns_result match (p ∷ patterns) =
      let flagged = match_patterns_result true patterns in
      let further = match_patterns_result match patterns in
      elim (Bool-cases (is_negated p && system.fnmatch target (drop 1 p))) [
        | inl n ↦ rw n ground arith
        | inr n ↦ elim (Bool-cases (system.fnmatch target p)) [
          | inl m ↦ rw (n, m) (flagged ∙ ground arith)
          | inr m ↦ rw (n, m) further
        ]
      ]

  -- However the patterns stand in their order, a target is matched when some pattern matches it and no
  -- negated one does.
  pub pattern_matches-is_meant :
      (patterns : List Bytes)
      → pattern_matches system patterns target ≡ (is_meant patterns && not (is_ruled_out patterns))
  unfolding pattern_matches
  pattern_matches-is_meant patterns = match_patterns_result false patterns
