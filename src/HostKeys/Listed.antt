-- ===== src/HostKeys/Listed.antt =====
-- The entries as a map from names and kinds of keys to keys, when no name in them is hashed.
use paramiko.Base.{
  ◌≡◌, refl, ap, inl, inr, false, List, [], ◌∷◌, Bytes, All, if◌then◌else◌, Bool-cases, Option,
  none, some, attribute_error, Result, ok, err, ok-injective, ◌>>=◌, eq_bytes, starts_with,
  contains,
}
use paramiko.HostKeys.Entry.{Library, HostKeyEntry, hash_mark}
use paramiko.HostKeys.Table.{
  hostname_matches, matching, or_none, lookup, sub_get, without_key_error, sub_get_or_none,
  is_same_key, check,
}

abbrev pub IsUnhashed : Bytes → Type 0
IsUnhashed h = starts_with hash_mark h ≡ false

abbrev pub HasSome {ℓ} : {A : Type ℓ} → Option A → Type 0
HasSome none = ⊥
HasSome (some a) = Unit

module _ {Key : Type 0} where
  -- An entry with a key and without hashed names.
  abbrev pub IsPlain : HostKeyEntry Key → Type 0
  IsPlain e = HasSome e.key × All IsUnhashed e.hostnames

module _ {Key : Type 0} (library : Library Key) where
  -- The key of the first entry that lists the name and has a key of this kind.
  abbrev pub or_further : Bytes → Option Key → Option Key → Option Key
  or_further name none further = further
  or_further name (some k) further = if eq_bytes (library.get_name k) name then some k else further

  unfoldable pub listed_key : Bytes → Bytes → List (HostKeyEntry Key) → Option Key
  listed_key hostname name [] = none
  listed_key hostname name (e ∷ entries) =
      let further = listed_key hostname name entries in
      if contains e.hostnames hostname then or_further name e.key further else further

  -- Without hashed names a host matches what lists it.
  hostname_matches-contains :
      (hostname : Bytes) (hostnames : List Bytes)
      → All IsUnhashed hostnames
      → hostname_matches library hostname hostnames ≡ ok (contains hostnames hostname)
  unfolding hostname_matches contains
  hostname_matches-contains hostname [] plain = refl
  hostname_matches-contains hostname (h ∷ hostnames) (unhashed, others) =
      let later = hostname_matches-contains hostname hostnames others in
      elim (Bool-cases (eq_bytes h hostname)) [ inl e ↦ rw e refl | inr e ↦ rw (e, unhashed) later ]

  -- The key that a lookup leads to.
  abbrev found_key : Bytes → List (HostKeyEntry Key) → Result (Option Key)
  found_key name entries = sub_get_or_none library name entries

  sub_get-front :
      (name : Bytes) (e : HostKeyEntry Key) (entries : List (HostKeyEntry Key))
      (further : Option Key)
      → HasSome e.key
      → found_key name entries ≡ ok further
      → found_key name (e ∷ entries) ≡ ok (or_further name e.key further)
  unfolding without_key_error sub_get
  sub_get-front name e entries further some_key h =
      elim e.key
          as (λ o.
            HasSome o
            → without_key_error (elim o [
              | none ↦ err attribute_error
              | some k ↦
                  if eq_bytes (library.get_name k) name then ok k else sub_get library name entries
            ])
              ≡ ok (or_further name o further)) [
                | none ↦ λ no_key. absurd no_key
                | some k ↦ λ _. elim (Bool-cases (eq_bytes (library.get_name k) name)) [
                  | inl e ↦ rw e refl
                  | inr e ↦ rw e h
                ]
              ]
        some_key

  -- What is found for a name has the key that is listed for it.
  abbrev Finds : Bytes → Bytes → List (HostKeyEntry Key) → Result (List (HostKeyEntry Key)) → Type 0
  Finds hostname name entries (err e) = ⊥
  Finds hostname name entries (ok found) =
      found_key name found ≡ ok (listed_key hostname name entries)

  matching-Finds :
      (hostname name : Bytes) (entries : List (HostKeyEntry Key))
      → All IsPlain entries
      → Finds hostname name entries (matching library hostname entries)
  unfolding matching listed_key without_key_error sub_get
  matching-Finds hostname name [] plain = refl
  matching-Finds hostname name (e ∷ entries) ((some_key, unhashed), others) =
      let later = matching-Finds hostname name entries others in
      let listed = contains e.hostnames hostname in
      rw (hostname_matches-contains hostname e.hostnames unhashed) (
        elim (matching library hostname entries)
            as (λ r.
              Finds hostname name entries r
              → Finds hostname name (e ∷ entries)
                  (r >>= λ found. ok (if listed then e ∷ found else found))) [
                    | err x ↦ λ h. h
                    | ok found ↦ λ h. elim (Bool-cases listed) [
                      | inl e' ↦
                          rw e' (
                            sub_get-front name e found (listed_key hostname name entries) some_key
                              h)
                      | inr e' ↦ rw e' h
                    ]
                  ]
          later)

  check-Finds :
      (hostname : Bytes) (key : Key) (entries : List (HostKeyEntry Key))
      → Finds hostname (library.get_name key) entries (matching library hostname entries)
      → check library hostname key entries
        ≡ ok (is_same_key library key (listed_key hostname (library.get_name key) entries))
  unfolding check lookup without_key_error sub_get
  check-Finds hostname key entries finds =
      let name = library.get_name key in
      let listed = listed_key hostname name entries in
      elim (matching library hostname entries)
          as (λ r.
            Finds hostname name entries r
            → ((r >>= λ found. ok (or_none found)) >>= λ k. elim k [
              | none ↦ ok false
              | some found ↦ sub_get_or_none library name found >>= λ host_key.
                  ok (is_same_key library key host_key)
            ])
              ≡ ok (is_same_key library key listed)) [
                | err x ↦ λ h. absurd h
                | ok [] ↦ λ h. ap (λ o. ok (is_same_key library key o)) (ok-injective h)
                | ok (e ∷ found) ↦ λ h. rw h refl
              ]
        finds

  -- A check goes by the key that is listed first.
  pub check-listed_key :
      (hostname : Bytes) (key : Key) (entries : List (HostKeyEntry Key))
      → All IsPlain entries
      → check library hostname key entries
        ≡ ok (is_same_key library key (listed_key hostname (library.get_name key) entries))
  check-listed_key hostname key entries plain =
      check-Finds hostname key entries
        (matching-Finds hostname (library.get_name key) entries plain)
