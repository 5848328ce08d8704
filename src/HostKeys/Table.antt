-- ===== src/HostKeys/Table.antt =====
-- `HostKeys`: the entries in their order, their lookup, and changes to them.
use paramiko.Base.{
  ℕ, zero, suc, Bool, true, false, not, ◌&&◌, ◌||◌, List, [], ◌∷◌, ◌++◌, Bytes, length, ◌==◌,
  if◌then◌else◌, Option, none, some, Error, key_error, ssh_exception, attribute_error, Result, ok,
  err, ◌>>=◌, eq_bytes, starts_with, contains,
}
use paramiko.HostKeys.Entry.{
  Library, HostKeyEntry, new_entry, strip, hash_mark, hash_host, from_line, to_line,
}

-- `l.remove(x)`, of the first that is equal.
unfoldable pub remove : Bytes → List Bytes → List Bytes
remove x [] = []
remove x (y ∷ l) = let rest = remove x l in if eq_bytes y x then l else y ∷ rest

-- `l[i]`, while there is one.
unfoldable pub nth : List Bytes → ℕ → Option Bytes
nth [] i = none
nth (x ∷ l) zero = some x
nth (x ∷ l) (suc i) = nth l i

-- `keys`: every name once.
unfoldable pub add_names : List Bytes → List Bytes → List Bytes
add_names ret [] = ret
add_names ret (h ∷ hostnames) =
    let seen = add_names ret hostnames in
    let added = add_names (ret ++ (h ∷ [])) hostnames in if contains ret h then seen else added

module _ {Key : Type 0} where
  unfoldable pub keys_from : List Bytes → List (HostKeyEntry Key) → List Bytes
  keys_from ret [] = ret
  keys_from ret (e ∷ entries) = keys_from (add_names ret e.hostnames) entries

  unfoldable pub keys : List (HostKeyEntry Key) → List Bytes
  keys entries = keys_from [] entries

abbrev pub or_none : {A : Type 0} → List A → Option (List A)
or_none [] = none
or_none (a ∷ l) = some (a ∷ l)

-- A missing key is nothing.
unfoldable pub without_key_error : {A : Type 0} → Result A → Result (Option A)
without_key_error (ok k) = ok (some k)
without_key_error (err key_error) = ok none
without_key_error (err e) = err e

module _ {Key : Type 0} (library : Library Key) where
  -- `_hostname_matches`
  unfoldable pub hostname_matches : Bytes → List Bytes → Result Bool
  hostname_matches hostname [] = ok false
  hostname_matches hostname (h ∷ hostnames) =
      let rest = hostname_matches hostname hostnames in
      if eq_bytes h hostname
      then ok true
      else if starts_with hash_mark h && not (starts_with hash_mark hostname)
      then (hash_host library [] hostname (some h) >>= λ hashed.
          if eq_bytes hashed h then ok true else rest)
      else rest

  -- The entries that `lookup` finds, and `lookup`.
  unfoldable pub matching : Bytes → List (HostKeyEntry Key) → Result (List (HostKeyEntry Key))
  matching hostname [] = ok []
  matching hostname (e ∷ entries) =
      let rest = matching hostname entries in
      hostname_matches hostname e.hostnames >>= λ matches.
      rest >>= λ found. ok (if matches then e ∷ found else found)

  unfoldable pub lookup :
      Bytes → List (HostKeyEntry Key) → Result (Option (List (HostKeyEntry Key)))
  lookup hostname entries = matching hostname entries >>= λ found. ok (or_none found)

  -- `SubDict.__getitem__`, and `get` with `None` for a key that is not there.
  unfoldable pub sub_get : Bytes → List (HostKeyEntry Key) → Result Key
  sub_get name [] = err key_error
  sub_get name (e ∷ entries) =
      let rest = sub_get name entries in
      elim e.key [
        | none ↦ err attribute_error
        | some k ↦ if eq_bytes (library.get_name k) name then ok k else rest
      ]

  abbrev pub sub_get_or_none : Bytes → List (HostKeyEntry Key) → Result (Option Key)
  sub_get_or_none name entries = without_key_error (sub_get name entries)

  -- What `check` makes of the key that it found.
  abbrev pub is_same_key : Key → Option Key → Bool
  is_same_key key none = false
  is_same_key key (some hk) = eq_bytes (library.asbytes hk) (library.asbytes key)

  -- `check`
  unfoldable pub check : Bytes → Key → List (HostKeyEntry Key) → Result Bool
  check hostname key entries = lookup hostname entries >>= λ k. elim k [
    | none ↦ ok false
    | some found ↦
        sub_get_or_none (library.get_name key) found >>= λ host_key. ok (is_same_key key host_key)
  ]

  -- `__getitem__` and `__delitem__`
  unfoldable pub getitem : Bytes → List (HostKeyEntry Key) → Result (List (HostKeyEntry Key))
  getitem hostname entries =
      lookup hostname entries >>= λ ret. elim ret [ none ↦ err key_error | some found ↦ ok found ]

  unfoldable pub delitem : Bytes → List (HostKeyEntry Key) → Result (List (HostKeyEntry Key))
  delitem hostname [] = err key_error
  delitem hostname (e ∷ entries) =
      let rest = delitem hostname entries in
      hostname_matches hostname e.hostnames >>= λ matches.
      if matches then ok entries else (rest >>= λ others. ok (e ∷ others))

  -- `add`
  unfoldable pub add :
      Bytes → Bytes → Key → List (HostKeyEntry Key) → Result (List (HostKeyEntry Key))
  add hostname keytype key [] = ok (new_entry (hostname ∷ []) (some key) ∷ [])
  add hostname keytype key (e ∷ entries) =
      let further = add hostname keytype key entries >>= λ others. ok (e ∷ others) in
      if contains e.hostnames hostname
      then elim e.key [
        | none ↦ err attribute_error
        | some k ↦
            if eq_bytes (library.get_name k) keytype
            then ok (record e { key = some key } ∷ entries)
            else further
      ]
      else further

  -- The loop of `load` over the names of an entry, from the `i`-th on: names are taken out of the
  -- list while it is walked through. The fuel is their number.
  unfoldable pub drop_known :
      ℕ → Option Key → List (HostKeyEntry Key) → ℕ → List Bytes → Result (List Bytes)
  drop_known zero key entries i names = ok names
  drop_known (suc fuel) key entries i names =
      let further = drop_known fuel key entries (suc i) in
      elim (nth names i) [
        | none ↦ ok names
        | some h ↦
            (elim key [ none ↦ err attribute_error | some k ↦ check h k entries ]) >>= λ known.
            if known then further (remove h names) else further names
      ]

  -- One entry of a file, as far as it is new.
  unfoldable pub load_entry :
      HostKeyEntry Key → List (HostKeyEntry Key) → Result (List (HostKeyEntry Key))
  load_entry e entries =
      drop_known (length e.hostnames) e.key entries 0 e.hostnames >>= λ hostnames. ok (
        if length hostnames == 0
        then entries
        else entries ++ (record e { hostnames = hostnames } ∷ []))

  unfoldable pub load_line : Bytes → List (HostKeyEntry Key) → Result (List (HostKeyEntry Key))
  load_line line entries =
      if length line == 0 || starts_with (35 ∷ []) line
      then ok entries
      else elim (from_line library line) [
        | err ssh_exception ↦ ok entries
        | err e ↦ err e
        | ok none ↦ ok entries
        | ok (some entry) ↦ load_entry entry entries
      ]

  -- `load`, from the lines of the file: the entries, and the exception that ended it, if any.
  unfoldable pub load :
      List Bytes → List (HostKeyEntry Key) → List (HostKeyEntry Key) × Option Error
  load [] entries = (entries, none)
  load (line ∷ lines) entries = elim (load_line (strip line) entries) [
    | err e ↦ (entries, some e)
    | ok entries' ↦ load lines entries'
  ]

  -- What `save` writes.
  unfoldable pub save : List (HostKeyEntry Key) → Result Bytes
  save [] = ok []
  save (e ∷ entries) =
      let rest = save entries in
      to_line library e >>= λ line.
      rest >>= λ others. ok (elim line [ none ↦ others | some l ↦ l ++ others ])

  unfoldable pub values :
      List Bytes → List (HostKeyEntry Key) → Result (List (Option (List (HostKeyEntry Key))))
  values [] entries = ok []
  values (k ∷ ks) entries =
      let rest = values ks entries in
      lookup k entries >>= λ found. rest >>= λ others. ok (found ∷ others)
