-- ===== src/HostKeys/Added.antt =====
-- What an added key changes.
use paramiko.Base.{
  ◌≡◌, refl, sym, ap, ◌∙◌, inl, inr, true, false, not, ◌&&◌, List, [], ◌∷◌, Bytes, All,
  if◌then◌else◌, Bool-cases, if_cases, Option, none, some, attribute_error, Result, ok, err, ◌>>=◌,
  eq_bytes, eq_bytes→≡, contains, arith,
}
use paramiko.HostKeys.Entry.{Library, HostKeyEntry, new_entry}
use paramiko.HostKeys.Table.{is_same_key, check, add}
use paramiko.HostKeys.Listed.{IsUnhashed, IsPlain, listed_key, check-listed_key}

module _ {Key : Type 0} where
  -- No entry lists both names, unless they are one.
  abbrev pub IsApart : Bytes → Bytes → HostKeyEntry Key → Type 0
  IsApart hostname h e =
      (contains e.hostnames hostname && (contains e.hostnames h && not (eq_bytes hostname h)))
      ≡ false

  -- In such an entry, one name stands for the other only if they are one.
  listed_apart :
      (hostname h : Bytes) (e : HostKeyEntry Key)
      → contains e.hostnames hostname ≡ true
      → IsApart hostname h e
      → contains e.hostnames h ≡ eq_bytes hostname h
  listed_apart hostname h e listed apart =
      let same = eq_bytes→≡ hostname h in
      elim (Bool-cases (eq_bytes hostname h)) [
        | inl x ↦ ap (contains e.hostnames) (sym (same x)) ∙ listed ∙ sym x
        | inr x ↦ ground arith
      ]

module _ {Key : Type 0} (library : Library Key) (hostname : Bytes) (key : Key) (h n : Bytes) where
  -- The key that is listed for a name and a kind, once a key has been added.
  abbrev after : Option Key → Option Key
  after before =
      if eq_bytes hostname h && eq_bytes (library.get_name key) n then some key else before

  abbrev Adds : List (HostKeyEntry Key) → Result (List (HostKeyEntry Key)) → Type 0
  Adds entries (err e) = ⊥
  Adds entries (ok entries') =
      All IsPlain entries'
      × (listed_key library h n entries' ≡ after (listed_key library h n entries))

  -- The entry whose key is replaced.
  Adds-here :
      (e : HostKeyEntry Key) (k : Key) (entries : List (HostKeyEntry Key))
      → e.key ≡ some k
      → contains e.hostnames hostname ≡ true
      → library.get_name k ≡ library.get_name key
      → IsApart hostname h e
      → listed_key library h n (record e { key = some key } ∷ entries)
        ≡ after (listed_key library h n (e ∷ entries))
  unfolding listed_key
  Adds-here e k entries ek listed same_kind apart =
      let which = listed_apart hostname h e listed apart in
      rw (which, ek, same_kind)
        (elim (Bool-cases (eq_bytes hostname h)) [
          | inl x ↦ elim (Bool-cases (eq_bytes (library.get_name key) n)) [
            | inl y ↦ rw (x, y) refl
            | inr y ↦ rw (x, y) refl
          ]
          | inr x ↦ rw x refl
        ])

  -- The entries before it.
  Adds-further :
      (e : HostKeyEntry Key) (k : Key) (entries entries' : List (HostKeyEntry Key))
      → e.key ≡ some k
      → (contains e.hostnames hostname && eq_bytes (library.get_name k) (library.get_name key))
        ≡ false
      → listed_key library h n entries' ≡ after (listed_key library h n entries)
      → listed_key library h n (e ∷ entries') ≡ after (listed_key library h n (e ∷ entries))
  unfolding listed_key
  Adds-further e k entries entries' ek other later =
      let same_host = eq_bytes→≡ hostname h in
      let same_kind = eq_bytes→≡ (library.get_name key) n in
      rw (ek, later)
        (elim (Bool-cases (eq_bytes hostname h)) [
          | inl x ↦ elim (Bool-cases (eq_bytes (library.get_name key) n)) [
            | inl y ↦
                let other' : (contains e.hostnames h && eq_bytes (library.get_name k) n) ≡ false =
                  ap (λ v. contains e.hostnames v && eq_bytes (library.get_name k) n)
                    (sym (same_host x))
                  ∙ ap (λ v. contains e.hostnames hostname && eq_bytes (library.get_name k) v)
                      (sym (same_kind y))
                  ∙ other in
                elim (Bool-cases (contains e.hostnames h)) [
                  | inl c ↦
                      let not_kind : eq_bytes (library.get_name k) n ≡ false = ground arith in
                      rw (c, not_kind, x, y) refl
                  | inr c ↦ rw (c, x, y) refl
                ]
            | inr y ↦ rw (x, y) refl
          ]
          | inr x ↦ rw x refl
        ])

  Adds-next :
      (e : HostKeyEntry Key) (k : Key) (entries : List (HostKeyEntry Key))
      (r : Result (List (HostKeyEntry Key)))
      → IsPlain e
      → e.key ≡ some k
      → (contains e.hostnames hostname && eq_bytes (library.get_name k) (library.get_name key))
        ≡ false
      → Adds entries r
      → Adds (e ∷ entries) (r >>= λ others. ok (e ∷ others))
  Adds-next e k entries (err x) plain ek other h = h
  Adds-next e k entries (ok entries') plain ek other (all_plain, later) =
      ((plain, all_plain), Adds-further e k entries entries' ek other later)

  Adds-new : IsUnhashed hostname → Adds [] (ok (new_entry (hostname ∷ []) (some key) ∷ []))
  unfolding listed_key new_entry contains
  Adds-new unhashed = (
    ((tt, (unhashed, tt)), tt),
    elim (Bool-cases (eq_bytes hostname h)) [ inl x ↦ rw x refl | inr x ↦ rw x refl ],
  )

  add-Adds :
      (entries : List (HostKeyEntry Key))
      → IsUnhashed hostname
      → All IsPlain entries
      → All (IsApart hostname h) entries
      → Adds entries (add library hostname (library.get_name key) key entries)
  unfolding add
  add-Adds [] unhashed plain apart = Adds-new unhashed
  add-Adds (e ∷ entries) unhashed ((some_key, names), plain) (apart, others) =
      let before = add-Adds entries unhashed plain others in
      let keytype = library.get_name key in
      let rest = add library hostname keytype key entries in
      let next = λ (k : Key). Adds-next e k entries rest (some_key, names) in
      elim e.key
          as (λ o.
            e.key ≡ o
            → Adds (e ∷ entries) (
                if contains e.hostnames hostname
                then elim o [
                  | none ↦ err attribute_error
                  | some k ↦
                      if eq_bytes (library.get_name k) keytype
                      then ok (record e { key = some key } ∷ entries)
                      else (rest >>= λ l. ok (e ∷ l))
                ]
                else (rest >>= λ l. ok (e ∷ l)))) [
                  | none ↦ λ no_key. absurd (rw no_key at some_key)
                  | some k ↦ λ ek.
                      if_cases (Adds (e ∷ entries)) (contains e.hostnames hostname) _ _
                        (λ listed.
                          if_cases (Adds (e ∷ entries)) (eq_bytes (library.get_name k) keytype)
                            (ok (record e { key = some key } ∷ entries)) (rest >>= λ l. ok (e ∷ l))
                            (λ same. (
                              ((tt, names), plain),
                              Adds-here e k entries ek listed
                                  (eq_bytes→≡ (library.get_name k) keytype same) apart,
                            ))
                            λ other. next k ek (rw (listed, other) refl) before)
                        λ unlisted. next k ek (rw unlisted refl) before
                ]
        refl

module _ {Key : Type 0} (library : Library Key) (hostname : Bytes) (key : Key) (h : Bytes) where
  -- The checks of a name and a key, before and after one was added.
  abbrev pub IsCheckedAfter :
      Key → List (HostKeyEntry Key) → Result (List (HostKeyEntry Key)) → Type 0
  IsCheckedAfter k entries (err e) = ⊥
  IsCheckedAfter k entries (ok entries') = check library h k entries' ≡ (
      if eq_bytes hostname h && eq_bytes (library.get_name key) (library.get_name k)
      then ok (eq_bytes (library.asbytes key) (library.asbytes k))
      else check library h k entries)

-- When no name in the table is hashed and every entry has a key, `add`, of a key under its own kind and
-- a plain name, does not fail. A check of that name and a key of that kind then compares that key with
-- the new one, whatever was there before; a check of any other name, or of a key of another kind, comes
-- out as before, if no entry lists that name and the added one both.
pub add-check :
    {Key : Type 0} (library : Library Key) (hostname : Bytes) (key : Key) (h : Bytes) (k : Key)
    (entries : List (HostKeyEntry Key))
    → IsUnhashed hostname
    → All IsPlain entries
    → All (IsApart hostname h) entries
    → IsCheckedAfter library hostname key h k entries
        (add library hostname (library.get_name key) key entries)
add-check library hostname key h k entries unhashed plain apart =
    let n = library.get_name k in
    let before = check-listed_key library h k entries plain in
    elim (add library hostname (library.get_name key) key entries)
        as (λ r.
          Adds library hostname key h n entries r
          → IsCheckedAfter library hostname key h k entries r) [
            | err e ↦ λ a. a
            | ok entries' ↦ λ (all_plain, listed).
                check-listed_key library h k entries' all_plain
                ∙ ap (λ o. ok (is_same_key library k o)) listed
                ∙ (elim (Bool-cases (eq_bytes hostname h && eq_bytes (library.get_name key) n)) [
                  | inl x ↦ rw x refl
                  | inr x ↦ rw x (sym before)
                ])
          ]
      (add-Adds library hostname key h n entries unhashed plain apart)
