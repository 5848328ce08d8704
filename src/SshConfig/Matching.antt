-- ===== src/SshConfig/Matching.antt =====
-- `_pattern_matches` and `_does_match`.
use paramiko.Base.{
  Bool, true, false, not, ◌&&◌, List, [], ◌∷◌, Bytes, drop, if◌then◌else◌, Option, none, some,
  Result, ok, ◌>>=◌, eq_bytes, starts_with, codes,
}
use paramiko.Message.{split_commas}
use paramiko.SshConfig.State.{Value, text, Options, Criterion, System, get}
use paramiko.SshConfig.Tokens.{tokenize}

-- The text of an option, if it has one that counts as true.
abbrev pub or_text : Option Value → Bytes → Bytes
or_text (some (text (c ∷ s))) other = c ∷ s
or_text _ other = other

abbrev pub is_negated : Bytes → Bool
is_negated pattern = starts_with (33 ∷ []) pattern

-- `_should_fail`
abbrev pub should_fail : Bool → Criterion → Bool
should_fail would_pass c = if c.negate then would_pass else not would_pass

module _ (system : System) where
  -- The loop of `_pattern_matches`; `match` is what is flagged so far.
  unfoldable pub match_patterns : Bool → List Bytes → Bytes → Bool
  match_patterns match [] target = match
  match_patterns match (pattern ∷ patterns) target =
      let flagged = match_patterns true patterns target in
      let further = match_patterns match patterns target in
      if is_negated pattern && system.fnmatch target (drop 1 pattern)
      then false
      else if system.fnmatch target pattern
      then flagged
      else further

  -- `_pattern_matches`, of a list.
  unfoldable pub pattern_matches : List Bytes → Bytes → Bool
  pattern_matches patterns target = match_patterns false patterns target

  -- The patterns of a test, behind each other with commas.
  abbrev pub param_matches : Bytes → Bytes → Bool
  param_matches param target = pattern_matches (split_commas [] param) target

  -- Whether a test passes; nothing if nothing was tested.
  unfoldable pub passes : Criterion → Bytes → Bool → Options → Result (Option Bool)
  passes c target_hostname final options =
      let is = λ (name : Bytes). eq_bytes c.keyword name in
      let host = or_text (get (codes "hostname") options) target_hostname in
      let user = or_text (get (codes "user") options) system.local_username in
      if is (codes "final")
      then ok (some final)
      else if is (codes "host")
      then ok (some (param_matches c.param host))
      else if is (codes "originalhost")
      then ok (some (param_matches c.param target_hostname))
      else if is (codes "user")
      then ok (some (param_matches c.param user))
      else if is (codes "localuser")
      then ok (some (param_matches c.param system.local_username))
      else if is (codes "exec")
      then (system.run (tokenize system options target_hostname (codes "match-exec") c.param)
          >>= λ success. ok (some success))
      else ok none

  abbrev pub fails : Option Bool → Criterion → Bool
  fails none c = false
  fails (some passed) c = should_fail passed c

  -- `_does_match`; `matched` is whether a test has passed before.
  unfoldable pub does_match : Bool → List Criterion → Bytes → Bool → Bool → Options → Result Bool
  does_match matched [] target_hostname canonical final options = ok matched
  does_match matched (c ∷ candidates) target_hostname canonical final options =
      let further = does_match true candidates target_hostname canonical final options in
      if eq_bytes c.keyword (codes "canonical") && should_fail canonical c
      then ok false
      else if eq_bytes c.keyword (codes "all")
      then ok true
      else passes c target_hostname final options >>= λ passed.
          if fails passed c then ok false else further
