-- ===== src/HostKeys/Entry.antt =====
-- `HostKeyEntry`, one line of a known hosts file, and the hashing of host names.
use paramiko.Base.{
  ℕ, Bool, true, false, not, ◌&&◌, ◌||◌, List, [], ◌∷◌, ◌++◌, Bytes, length, leb, ◌==◌,
  if◌then◌else◌, Option, none, some, index_error, assertion_error, binascii_error, attribute_error,
  invalid_host_key, Result, ok, err, ◌>>=◌, filter, starts_with,
}
use paramiko.Message.{split_commas, join_commas}

-- What is called of keys and of other packages: the methods of a key, `PKey.from_type_string`, where
-- nothing stands for an `UnknownKeyType`, base64 and HMAC with SHA-1.
pub record Library (Key : Type 0) : Type 0 where
  pub get_name : Key → Bytes
  pub asbytes : Key → Bytes
  pub get_base64 : Key → Bytes
  pub from_type_string : Bytes → Bytes → Result (Option Key)
  pub decodebytes : Bytes → Result Bytes
  pub encodebytes : Bytes → Bytes
  pub hmac : Bytes → Bytes → Bytes

pub record HostKeyEntry (Key : Type 0) : Type 0 where
  pub valid : Bool
  pub hostnames : List Bytes
  pub key : Option Key

abbrev has_key {ℓ} : {Key : Type ℓ} → Option Key → Bool
has_key none = false
has_key (some k) = true

-- `HostKeyEntry(hostnames, key)`
unfoldable pub new_entry : {Key : Type 0} → List Bytes → Option Key → HostKeyEntry Key
new_entry hostnames key = record { valid = has_key key; hostnames = hostnames; key = key }

-- `s.split(c)`, and `re.split(" |\t", s)`; `piece` is what has been passed since the last cut.
unfoldable pub split_by : (ℕ → Bool) → Bytes → Bytes → List Bytes
split_by cuts piece [] = piece ∷ []
split_by cuts piece (c ∷ s) =
    let behind = split_by cuts [] s in
    let further = split_by cuts (piece ++ (c ∷ [])) s in if cuts c then piece ∷ behind else further

abbrev pub is_blank : ℕ → Bool
is_blank c = c == 32 || c == 9

-- `s.strip()`, on ASCII text.
abbrev pub is_space : ℕ → Bool
is_space c = c == 32 || (leb 9 c && leb c 13) || (leb 28 c && leb c 31)

unfoldable pub lstrip : Bytes → Bytes
lstrip [] = []
lstrip (c ∷ s) = let rest = lstrip s in if is_space c then rest else c ∷ s

abbrev pub end_before : ℕ → Bytes → Bytes
end_before c [] = if is_space c then [] else c ∷ []
end_before c (d ∷ s) = c ∷ d ∷ s

unfoldable pub rstrip : Bytes → Bytes
rstrip [] = []
rstrip (c ∷ s) = end_before c (rstrip s)

abbrev pub strip : Bytes → Bytes
strip s = rstrip (lstrip s)

-- `|1|`, before a hashed name.
abbrev pub hash_mark : Bytes
hash_mark = 124 ∷ 49 ∷ 124 ∷ []

abbrev third : List Bytes → Result Bytes
third (a ∷ b ∷ c ∷ rest) = ok c
third _ = err index_error

-- `except binascii.Error`, and `HostKeyEntry(names, key)` unless the kind of the key is unknown.
unfoldable pub as_invalid : {A : Type 0} → Result A → Result A
as_invalid (ok a) = ok a
as_invalid (err binascii_error) = err invalid_host_key
as_invalid (err e) = err e

abbrev pub named_entry : {Key : Type 0} → List Bytes → Option Key → Option (HostKeyEntry Key)
named_entry names none = none
named_entry names (some k) = some (new_entry names (some k))

module _ {Key : Type 0} (library : Library Key) where
  -- The salt of `hash_host`: random bytes, or those of a hashed name.
  unfoldable pub salt_of : Bytes → Option Bytes → Result Bytes
  salt_of random none = ok random
  salt_of random (some salt) =
      (if starts_with hash_mark salt then third (split_by (λ c. c == 124) [] salt) else ok salt)
      >>= library.decodebytes

  -- `hash_host`
  unfoldable pub hash_host : Bytes → Bytes → Option Bytes → Result Bytes
  hash_host random hostname salt = salt_of random salt >>= λ salt.
      if length salt == 20
      then ok (
          filter (λ c. not (c == 10))
            (hash_mark
              ++ (library.encodebytes salt
                  ++ (124 ∷ library.encodebytes (library.hmac salt hostname)))))
      else err assertion_error

  -- What `from_line` makes of its three fields.
  unfoldable pub entry_of : Bytes → Bytes → Bytes → Result (Option (HostKeyEntry Key))
  entry_of names key_type key = as_invalid (library.decodebytes key) >>= λ key_bytes.
      library.from_type_string key_type key_bytes >>= λ made.
      ok (named_entry (split_commas [] names) made)

  abbrev pub three_fields : List Bytes → Result (Option (HostKeyEntry Key))
  three_fields (names ∷ key_type ∷ key ∷ others) = entry_of names key_type key
  three_fields _ = ok none

  -- `from_line`
  unfoldable pub from_line : Bytes → Result (Option (HostKeyEntry Key))
  from_line line = three_fields (split_by is_blank [] line)

  -- `to_line`
  unfoldable pub to_line : HostKeyEntry Key → Result (Option Bytes)
  to_line e =
      if e.valid
      then elim e.key [
        | none ↦ err attribute_error
        | some key ↦ ok (
            some (
              join_commas e.hostnames
              ++ (32 ∷ library.get_name key ++ (32 ∷ library.get_base64 key ++ (10 ∷ [])))))
      ]
      else ok none
