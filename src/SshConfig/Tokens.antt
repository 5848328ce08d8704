-- ===== src/SshConfig/Tokens.antt =====
-- `_tokenize` and `_expand_variables`.
use paramiko.Base.{
  ℕ, ◌-◌, ◌==◌, not, List, [], ◌∷◌, ◌++◌, Bytes, length, if◌then◌else◌, Option, none, some,
  eq_bytes, starts_with, contains, codes, map,
}
use paramiko.SshConfig.State.{Value, nothing, text, texts, Options, System, get, put}

-- `TOKENS_BY_CONFIG_KEY`
abbrev pub token_table : List (Bytes × List Bytes)
token_table =
    (
      codes "controlpath",
      codes "%C"
          ∷ codes "%h"
          ∷ codes "%l"
          ∷ codes "%L"
          ∷ codes "%n"
          ∷ codes "%p"
          ∷ codes "%r"
          ∷ codes "%u"
          ∷ [],
    )
    ∷ (codes "hostname", codes "%h" ∷ [])
    ∷ (
      codes "identityfile",
      codes "%C" ∷ codes "~" ∷ codes "%d" ∷ codes "%h" ∷ codes "%l" ∷ codes "%u" ∷ codes "%r" ∷ [],
    )
    ∷ (codes "proxycommand", codes "~" ∷ codes "%h" ∷ codes "%p" ∷ codes "%r" ∷ [])
    ∷ (codes "proxyjump", codes "%h" ∷ codes "%p" ∷ codes "%r" ∷ [])
    ∷ (
      codes "match-exec",
      codes "%C"
          ∷ codes "%d"
          ∷ codes "%h"
          ∷ codes "%L"
          ∷ codes "%l"
          ∷ codes "%n"
          ∷ codes "%p"
          ∷ codes "%r"
          ∷ codes "%u"
          ∷ [],
    )
    ∷ []

unfoldable pub allowed_in : Bytes → List (Bytes × List Bytes) → List Bytes
allowed_in key [] = []
allowed_in key ((k, tokens) ∷ table) =
    let rest = allowed_in key table in if eq_bytes k key then tokens else rest

-- `_allowed_tokens`
unfoldable pub allowed_tokens : Bytes → List Bytes
allowed_tokens key = allowed_in key token_table

-- `s.replace(find, new)`, for a token that is not empty; `skip` is how much of one is still passed.
unfoldable pub replace : Bytes → Bytes → ℕ → Bytes → Bytes
replace find new skip [] = []
replace find new skip (c ∷ s) =
    let inside = replace find new (skip - 1) s in
    let behind = replace find new (length find - 1) s in
    let further = replace find new 0 s in
    if not (skip == 0)
    then inside
    else if starts_with find (c ∷ s)
    then new ++ behind
    else c ∷ further

-- The text of an option that is there.
abbrev pub text_or : Option Value → Bytes → Bytes
text_or (some (text s)) other = s
text_or _ other = other

module _ (system : System) where
  -- The replacements, in their order.
  unfoldable pub replacements : Options → Bytes → Bytes → List (Bytes × Bytes)
  replacements config target_hostname key =
      let hostname = get (codes "hostname") config in
      let configured_hostname =
        if eq_bytes key (codes "hostname")
        then target_hostname
        else text_or hostname target_hostname in
      let port = get (codes "port") config in
      let remoteuser = text_or (get (codes "user") config) system.local_username in
      (codes "%C", system.connection_hash target_hostname port remoteuser)
      ∷ (codes "%d", system.homedir)
      ∷ (codes "%h", configured_hostname)
      ∷ (codes "%L", system.local_hostname)
      ∷ (codes "%l", system.local_fqdn config)
      ∷ (codes "%n", target_hostname)
      ∷ (codes "%p", text_or port (codes "22"))
      ∷ (codes "%r", remoteuser)
      ∷ (codes "%u", system.local_username)
      ∷ (codes "~", system.homedir)
      ∷ []

  unfoldable pub replace_each : List Bytes → List (Bytes × Bytes) → Bytes → Bytes
  replace_each allowed [] tokenized = tokenized
  replace_each allowed ((find, new) ∷ others) tokenized =
      replace_each allowed others
        (if contains allowed find then replace find new 0 tokenized else tokenized)

  -- `_tokenize`
  unfoldable pub tokenize : Options → Bytes → Bytes → Bytes → Bytes
  tokenize config target_hostname key value =
      replace_each (allowed_tokens key) (replacements config target_hostname key) value

  -- One key of `_expand_variables`: the others are read as they are by then.
  unfoldable pub expand_texts : Options → Bytes → Bytes → List Bytes → List Bytes → Options
  expand_texts config target_hostname key before [] = config
  expand_texts config target_hostname key before (value ∷ others) =
      let done = before ++ (tokenize config target_hostname key value ∷ []) in
      expand_texts (put key (texts (done ++ others)) config) target_hostname key done others

  unfoldable pub expand_key : Options → Bytes → Bytes → Options
  expand_key config target_hostname key = elim (get key config) [
    | none ↦ config
    | some nothing ↦ config
    | some (text value) ↦ put key (text (tokenize config target_hostname key value)) config
    | some (texts values) ↦ expand_texts config target_hostname key [] values
  ]

  unfoldable pub expand_keys : List Bytes → Options → Bytes → Options
  expand_keys [] config target_hostname = config
  expand_keys (k ∷ keys) config target_hostname =
      expand_keys keys (expand_key config target_hostname k) target_hostname

  -- `_expand_variables`
  unfoldable pub expand_variables : Options → Bytes → Options
  expand_variables config target_hostname =
      expand_keys (map (λ (item : Bytes × Value). item.0) config) config target_hostname
