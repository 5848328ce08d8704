-- ===== src/SshConfig/State.antt =====
-- The blocks of a configuration, and the options of a host.
use paramiko.Base.{
  ℤ, Bool, true, false, List, [], ◌∷◌, ◌++◌, Bytes, if◌then◌else◌, Option, none, some, Result,
  eq_bytes, contains, codes,
}

-- A value: `None`, for a proxy command that is none, a text, or the list of texts of a keyword that
-- may be given more than once.
pub data Value : Type 0 where
  nothing : Value
  text : Bytes → Value
  texts : List Bytes → Value

-- A dictionary in the order of its insertions.
abbrev pub Options : Type 0
Options = List (Bytes × Value)

-- One test of a `Match` line; `param` is empty for a keyword without one.
pub record Criterion : Type 0 where
  pub keyword : Bytes
  pub param : Bytes
  pub negate : Bool

-- A block: the patterns of its `Host` line, or the tests of its `Match` line, and its keywords.
pub record Context : Type 0 where
  pub host : Option (List Bytes)
  pub matches : Option (List Criterion)
  pub config : Options

-- What is asked of the system and of other code: `fnmatch.fnmatch`, of a target and a pattern,
-- `shlex.split`, where a `ValueError` is an error, `int` of a text, the name of the local user, the home
-- directory, the host's own name and its full name, the SHA-1 digest behind `%C`, of the host, the port
-- and the user, whether a command succeeds, and whether a name resolves, at all (`gethostbyname`) and in
-- IPv6 or in IPv4 (`getaddrinfo`).
pub record System : Type 0 where
  pub fnmatch : Bytes → Bytes → Bool
  pub shlex_split : Bytes → Result (List Bytes)
  pub int : Bytes → Result ℤ
  pub local_username : Bytes
  pub homedir : Bytes
  pub local_hostname : Bytes
  pub local_fqdn : Options → Bytes
  pub connection_hash : Bytes → Option Value → Bytes → Bytes
  pub run : Bytes → Result Bool
  pub resolves : Bytes → Bool
  pub resolves_in : Bool → Bytes → Bool

unfoldable pub get : Bytes → Options → Option Value
get key [] = none
get key ((k, v) ∷ options) = let rest = get key options in if eq_bytes k key then some v else rest

abbrev pub is_some {ℓ} : {A : Type ℓ} → Option A → Bool
is_some none = false
is_some (some a) = true

abbrev pub has_option : Bytes → Options → Bool
has_option key options = is_some (get key options)

-- `options[key] = value`
unfoldable pub put : Bytes → Value → Options → Options
put key value [] = (key, value) ∷ []
put key value ((k, v) ∷ options) =
    let rest = put key value options in
    if eq_bytes k key then (k, value) ∷ options else (k, v) ∷ rest

-- Texts that are not there yet, at the end.
unfoldable pub add_new : List Bytes → List Bytes → List Bytes
add_new old [] = old
add_new old (x ∷ l) =
    let without = add_new old l in
    let added = add_new (old ++ (x ∷ [])) l in if contains old x then without else added

abbrev pub identityfile : Bytes
identityfile = codes "identityfile"

-- The keywords that may be given more than once.
abbrev pub many : List Bytes
many = identityfile ∷ codes "localforward" ∷ codes "remoteforward" ∷ []
