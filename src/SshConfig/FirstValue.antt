-- ===== src/SshConfig/FirstValue.antt =====
-- Which value is found for a keyword.
use mathlib.Core.Path.{subst}
use paramiko.Base.{
  ◌≡◌, refl, sym, ap, ◌∙◌, inl, inr, Bool, true, false, List, [], ◌∷◌, Bytes, All, if◌then◌else◌,
  Bool-cases, if_cases, Option, none, some, Result, ok, err, eq_bytes, eq_bytes→≡, eq_bytes_same,
}
use paramiko.SshConfig.State.{
  Value, Options, Context, System, get, is_some, has_option, put, identityfile,
}
use paramiko.SshConfig.Matching.{pattern_matches, does_match}
use paramiko.SshConfig.Lookup.{
  or_empty, extended, apply_option, apply_options, chosen, applies, lookup_in,
}

get_apart :
    (key name k : Bytes) (v w : Value) (options : Options)
    → eq_bytes k name ≡ false
    → (if eq_bytes k key then some w else (if eq_bytes name key then some v else get key options))
      ≡ (if eq_bytes name key then some v else (if eq_bytes k key then some w else get key options))
get_apart key name k v w options apart =
    let same = eq_bytes→≡ k key in
    let other = eq_bytes→≡ name key in
    elim (Bool-cases (eq_bytes k key)) [
      | inl x ↦ elim (Bool-cases (eq_bytes name key)) [
        | inl y ↦
            let equal : k ≡ name = same x ∙ sym (other y) in
            let itself : eq_bytes k name ≡ true =
              ap (λ b. eq_bytes b name) equal ∙ eq_bytes_same name in
            absurd (let z = apart in cc)
        | inr y ↦ rw (x, y) refl
      ]
      | inr x ↦ rw x refl
    ]

get-put :
    (key name : Bytes) (v : Value) (options : Options)
    → get key (put name v options) ≡ (if eq_bytes name key then some v else get key options)
unfolding get put
get-put key name v [] = refl
get-put key name v ((k, w) ∷ options) =
    let later = get-put key name v options in
    let same = eq_bytes→≡ k name in
    elim (Bool-cases (eq_bytes k name)) [
      | inl e ↦
          rw (same e, eq_bytes_same name)
            (elim (Bool-cases (eq_bytes name key)) [ inl x ↦ rw x refl | inr x ↦ rw x refl ])
      | inr e ↦ rw (e, later) (get_apart key name k v w options e)
    ]

abbrev pub or_else : Option Value → Option Value → Option Value
or_else none other = other
or_else (some v) other = some v

or_else_assoc : (a b c : Option Value) → or_else (or_else a b) c ≡ or_else a (or_else b c)
or_else_assoc none b c = refl
or_else_assoc (some v) b c = refl

or_else-none : (a : Option Value) → or_else a none ≡ a
or_else-none none = refl
or_else-none (some v) = refl

-- One keyword of a block.
apply_option_got :
    (key k : Bytes) (v : Value) (options : Options)
    → eq_bytes key identityfile ≡ false
    → get key (apply_option k v options)
      ≡ or_else (get key options) (if eq_bytes k key then some v else none)
unfolding apply_option
apply_option_got key k v options plain =
    let same = eq_bytes→≡ k key in
    elim (Bool-cases (eq_bytes k key)) [
      | inl e ↦
          let not_file = ap (λ b. eq_bytes b identityfile) (same e) ∙ plain in
          let here : get k options ≡ get key options = ap (λ b. get b options) (same e) in
          rw (e, not_file)
            (elim (get k options)
                as (λ o.
                  get k options ≡ o
                  → get key (if is_some o then options else put k v options)
                    ≡ or_else (get key options) (some v)) [
                      | none ↦ λ gone.
                          let empty : get key options ≡ none = sym here ∙ gone in
                          get-put key k v options ∙ rw (e, empty) refl
                      | some old ↦ λ there.
                          let full : get key options ≡ some old = sym here ∙ there in rw full refl
                    ]
              refl)
      | inr e ↦
          let kept : (w : Value) → get key (put k w options) ≡ get key options =
            λ w. get-put key k w options ∙ rw e refl in
          let Kept = λ (o : Options). get key o ≡ get key options in
          if_cases Kept (has_option k options) _ _
            (λ _.
              if_cases Kept (eq_bytes k identityfile) _ _ (λ _. kept (extended (get k options) v))
                (λ _. refl))
            (λ _. kept v)
          ∙ sym (rw e (or_else-none (get key options)))
    ]

apply_options_got :
    (key : Bytes) (config options : Options)
    → eq_bytes key identityfile ≡ false
    → get key (apply_options config options) ≡ or_else (get key options) (get key config)
unfolding apply_options get
apply_options_got key [] options plain = sym (or_else-none (get key options))
apply_options_got key ((k, v) ∷ config) options plain =
    let later = apply_options_got key config (apply_option k v options) plain in
    let first = apply_option_got key k v options plain in
    later
    ∙ ap (λ o. or_else o (get key config)) first
    ∙ or_else_assoc (get key options) (if eq_bytes k key then some v else none) (get key config)
    ∙ ap (or_else (get key options))
        (elim (Bool-cases (eq_bytes k key)) [ inl x ↦ rw x refl | inr x ↦ rw x refl ])

module _ (system : System) where
  -- The value of the first block that names the host and has the keyword.
  unfoldable pub first_value : Bytes → Bytes → List Context → Option Value
  first_value key hostname [] = none
  first_value key hostname (context ∷ contexts) =
      let rest = first_value key hostname contexts in
      if pattern_matches system (or_empty context.host) hostname
      then or_else (get key context.config) rest
      else rest

  applies_host :
      (context : Context) (hostname : Bytes) (canonical final : Bool) (options : Options)
      → context.matches ≡ none
      → applies system context hostname canonical final options
        ≡ ok (pattern_matches system (or_empty context.host) hostname)
  unfolding applies does_match
  applies_host context hostname canonical final options plain =
      elim (Bool-cases (pattern_matches system (or_empty context.host) hostname)) [
        | inl x ↦ rw x refl
        | inr x ↦ rw (x, plain) refl
      ]

  -- The options that are found, where those of before go first.
  abbrev pub IsFirst : Bytes → Option Value → Result Options → Type 0
  IsFirst key value (err e) = ⊥
  IsFirst key value (ok options) = get key options ≡ value

  IsFirst-same :
      (key : Bytes) (v w : Option Value) (r : Result Options)
      → v ≡ w
      → IsFirst key v r
      → IsFirst key w r
  IsFirst-same key v w (err e) same h = h
  IsFirst-same key v w (ok options) same h = h ∙ same

  IsFirst-chosen :
      (key : Bytes) (v : Option Value) (r : Result Bool) (b : Bool)
      (skipped applied : Result Options)
      → r ≡ ok b
      → (b ≡ true → IsFirst key v applied)
      → (b ≡ false → IsFirst key v skipped)
      → IsFirst key v (chosen r skipped applied)
  IsFirst-chosen key v r b skipped applied same yes_case no_case =
      subst (λ r. IsFirst key v (chosen r skipped applied)) (sym same)
        (if_cases (IsFirst key v) b applied skipped yes_case no_case)

  -- In a configuration of `Host` blocks, a pass over them does not fail, and the value that it finds
  -- for a keyword other than `identityfile` is the one that was there before; or else that of the
  -- first block, in the order of the file, whose patterns match the host and which has the keyword.
  pub lookup_in-IsFirst :
      (key : Bytes) (contexts : List Context) (hostname : Bytes) (canonical final : Bool)
      (options : Options)
      → eq_bytes key identityfile ≡ false
      → All (λ (c : Context). c.matches ≡ none) contexts
      → IsFirst key
          (or_else (get key options) (first_value key hostname contexts))
          (lookup_in system contexts hostname canonical final options)
  unfolding lookup_in first_value
  lookup_in-IsFirst key [] hostname canonical final options plain hosts =
      sym (or_else-none (get key options))
  lookup_in-IsFirst key (context ∷ contexts) hostname canonical final options plain (here, hosts) =
      let skipped = lookup_in-IsFirst key contexts hostname canonical final options plain hosts in
      let config = context.config in
      let applied =
        lookup_in-IsFirst key contexts hostname canonical final (apply_options config options) plain
          hosts in
      let rest = first_value key hostname contexts in
      let same =
        ap (λ o. or_else o rest) (apply_options_got key config options plain)
        ∙ or_else_assoc (get key options) (get key config) rest in
      let both = or_else (get key options) in
      let b = pattern_matches system (or_empty context.host) hostname in
      IsFirst-chosen key (both (first_value key hostname (context ∷ contexts))) _ b _ _
        (applies_host context hostname canonical final options here)
        (λ x.
          let chosen_value : or_else (get key config) rest
              ≡ first_value key hostname (context ∷ contexts) =
            rw x refl in
          IsFirst-same key _ _ _ (same ∙ ap both chosen_value) applied)
        λ x.
          let chosen_value : rest ≡ first_value key hostname (context ∷ contexts) = rw x refl in
          IsFirst-same key _ _ _ (ap both chosen_value) skipped
