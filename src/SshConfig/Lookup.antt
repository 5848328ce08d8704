-- ===== src/SshConfig/Lookup.antt =====
-- `_lookup`, `canonicalize` and `lookup`.
use paramiko.Base.{
  ℕ, zero, suc, ℤ, pos, negsuc, Bool, true, false, not, ◌==◌, leb, length, filter, contains, ◌&&◌,
  ◌||◌, List, [], ◌∷◌, ◌++◌, Bytes, if◌then◌else◌, Option, none, some, key_error,
  could_not_canonicalize, Result, ok, err, ◌>>=◌, eq_bytes, codes,
}
use paramiko.SshConfig.State.{
  Value, text, texts, Options, Context, System, has_option, get, put, add_new, identityfile,
}
use paramiko.HostKeys.Entry.{split_by, is_space}
use paramiko.SshConfig.Parsing.{lower}
use paramiko.SshConfig.Tokens.{text_or, expand_variables}
use paramiko.SshConfig.Matching.{pattern_matches, does_match}

abbrev pub or_empty {ℓ} : {A : Type ℓ} → Option (List A) → List A
or_empty none = []
or_empty (some l) = l

-- More identity files, each once.
abbrev pub extended : Option Value → Value → Value
extended (some (texts old)) (texts l) = texts (add_new old l)
extended (some old) value = old
extended none value = value

-- One keyword of a block that applies.
unfoldable pub apply_option : Bytes → Value → Options → Options
apply_option key value options =
    if has_option key options
    then if eq_bytes key identityfile
      then put key (extended (get key options) value) options
      else options
    else put key value options

unfoldable pub apply_options : Options → Options → Options
apply_options [] options = options
apply_options ((key, value) ∷ config) options =
    apply_options config (apply_option key value options)

-- Goes on with the options as they are, or with those that a block has changed.
abbrev pub chosen : Result Bool → Result Options → Result Options → Result Options
chosen (err e) skipped applied = err e
chosen (ok b) skipped applied = if b then applied else skipped

-- `s.count(c)`, `n <= m`, and `s.split()`.
unfoldable pub count : ℕ → Bytes → ℕ
count c [] = zero
count c (b ∷ s) = let rest = count c s in if b == c then suc rest else rest

abbrev pub at_most : ℕ → ℤ → Bool
at_most n (pos m) = leb n m
at_most n (negsuc m) = false

unfoldable pub words : Bytes → List Bytes
words s = filter (λ (w : Bytes). not (length w == 0)) (split_by is_space [] s)

-- `get_hostnames`, as the list of the names that the set has.
unfoldable pub get_hostnames : List Context → Result (List Bytes)
get_hostnames [] = ok []
get_hostnames (entry ∷ contexts) =
    let rest = get_hostnames contexts in
    elim entry.host [
      | none ↦ err key_error
      | some hosts ↦ rest >>= λ others. ok (add_new hosts others)
    ]

module _ (system : System) where
  -- Whether a block applies; the tests of a `Match` line are made only if the patterns of a host do
  -- not match.
  unfoldable pub applies : Context → Bytes → Bool → Bool → Options → Result Bool
  applies context hostname canonical final options =
      if pattern_matches system (or_empty context.host) hostname
      then ok true
      else does_match system false (or_empty context.matches) hostname canonical final options

  -- The loop of `_lookup` over the blocks.
  unfoldable pub lookup_in : List Context → Bytes → Bool → Bool → Options → Result Options
  lookup_in [] hostname canonical final options = ok options
  lookup_in (context ∷ contexts) hostname canonical final options =
      chosen (applies context hostname canonical final options)
        (lookup_in contexts hostname canonical final options)
        (lookup_in contexts hostname canonical final (apply_options context.config options))

  -- `_lookup`
  unfoldable pub lookup_options : List Context → Bytes → Bool → Bool → Options → Result Options
  lookup_options contexts hostname canonical final options =
      lookup_in contexts hostname canonical final options >>= λ options.
      ok (if final then expand_variables system options hostname else options)

  -- `_addressfamily_host_lookup`, and the lookup that follows it when that finds nothing.
  unfoldable pub is_found : Bytes → Options → Bool
  is_found candidate options =
      let address_family = lower (text_or (get (codes "addressfamily") options) (codes "any")) in
      not (eq_bytes address_family (codes "any"))
        && system.resolves_in (not (eq_bytes address_family (codes "inet"))) candidate
      || system.resolves candidate

  -- `canonicalize`
  unfoldable pub canonicalize : Bytes → Options → List Bytes → Result Bytes
  canonicalize hostname options [] =
      if eq_bytes (text_or (get (codes "canonicalizefallbacklocal") options) (codes "yes"))
        (codes "yes")
      then ok hostname
      else err could_not_canonicalize
  canonicalize hostname options (domain ∷ domains) =
      let candidate = hostname ++ (46 ∷ domain) in
      let further = canonicalize hostname options domains in
      if is_found candidate options then ok candidate else further

  -- `int(options.get("canonicalizemaxdots", 1))`
  unfoldable pub max_dots : Options → Result ℤ
  max_dots options = elim (get (codes "canonicalizemaxdots") options) [
    | none ↦ ok (pos 1)
    | some v ↦ system.int (text_or (some v) [])
  ]

  unfoldable pub domains_of : Options → Result (List Bytes)
  domains_of options = elim (get (codes "canonicaldomains") options) [
    | none ↦ err key_error
    | some v ↦ ok (words (text_or (some v) []))
  ]

  -- The second pass of `lookup`.
  unfoldable pub second_pass : List Context → Bytes → Options → Result Options
  second_pass contexts hostname options =
      let canon =
        contains (codes "yes" ∷ codes "always" ∷ [])
          (text_or (get (codes "canonicalizehostname") options) []) in
      max_dots options >>= λ maxdots.
      if canon && at_most (count 46 hostname) maxdots
      then (domains_of options >>= λ domains. canonicalize hostname options domains >>= λ canonical.
          lookup_options contexts canonical true true
            (put (codes "hostname") (text canonical) options))
      else lookup_options contexts hostname false true options

  -- `lookup`: the host name is an option after the first pass, if none was set.
  unfoldable pub lookup : List Context → Bytes → Result Options
  lookup contexts hostname = lookup_options contexts hostname false false [] >>= λ options.
      second_pass contexts hostname (
        if has_option (codes "hostname") options
        then options
        else put (codes "hostname") (text hostname) options)
