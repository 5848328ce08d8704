-- ===== src/SshConfig/Parsing.antt =====
-- `parse`, `_get_hosts` and `_get_matches`.
use paramiko.Base.{
  ℕ, zero, suc, ◌+◌, ◌-◌, Bool, false, not, ◌&&◌, ◌||◌, List, [], ◌∷◌, ◌++◌, Bytes, length, take,
  drop, ltb, leb, ◌==◌, if◌then◌else◌, map, Option, none, some, config_parse_error, value_error,
  Result, ok, err, ◌>>=◌, eq_bytes, starts_with, contains, codes,
}
use paramiko.HostKeys.Entry.{is_space, lstrip, strip}
use paramiko.SshConfig.State.{
  Value, nothing, text, texts, Options, Criterion, Context, System, get, put, has_option, many,
}

-- `s.lower()`, on ASCII text.
abbrev pub lower : Bytes → Bytes
lower = map (λ c. if leb 65 c && leb c 90 then c + 32 else c)

-- `\w`, on ASCII text, and the word at the front.
abbrev pub is_word : ℕ → Bool
is_word c = leb 48 c && leb c 57 || (leb 65 c && leb c 90 || (c == 95 || leb 97 c && leb c 122))

abbrev before_word : ℕ → Bytes × Bytes → Bytes × Bytes
before_word c (word, rest) = (c ∷ word, rest)

unfoldable pub front_word : Bytes → Bytes × Bytes
front_word [] = ([], [])
front_word (c ∷ s) =
    let further = front_word s in if is_word c then before_word c further else ([], c ∷ s)

-- The rest of `SETTINGS_REGEX` behind the word: an equals sign, with space around it, or space; then
-- something. An equals sign that ends the line is the value, if there is space before it.
abbrev behind_space : Bytes → Option Bytes
behind_space [] = none
behind_space (c ∷ s) = if is_space c then some (lstrip s) else none

abbrev behind_equals : Bytes → Bytes → Option Bytes
behind_equals s [] = none
behind_equals s (c ∷ rest) =
    if c == 61 && not (length (lstrip rest) == 0) then some (lstrip rest) else behind_space s

unfoldable pub setting : Bytes → Option (Bytes × Bytes)
setting line =
    let (key, s) = front_word line in
    if length key == 0
    then none
    else elim (behind_equals s (lstrip s)) [ none ↦ none | some value ↦ some (key, value) ]

abbrev pub quote : Bytes
quote = 34 ∷ []

unfoldable pub ends_with_quote : Bytes → Bool
ends_with_quote [] = false
ends_with_quote (c ∷ []) = c == 34
ends_with_quote (c ∷ d ∷ s) = ends_with_quote (d ∷ s)

-- `value[1:-1]`, if it is quoted.
unfoldable pub unquoted : Bytes → Bytes
unquoted value =
    if starts_with quote value && ends_with_quote value
    then take (length value - 2) (drop 1 value)
    else value

abbrev pub appended : Option Value → Bytes → Value
appended (some (texts l)) value = texts (l ++ (value ∷ []))
appended _ value = texts (value ∷ [])

-- One keyword of a block.
unfoldable pub store : Bytes → Bytes → Options → Options
store key value config =
    let v = unquoted value in
    if eq_bytes key (codes "proxycommand") && eq_bytes (lower value) (codes "none")
    then put key nothing config
    else if contains many key
    then put key (appended (get key config) v) config
    else if has_option key config
    then config
    else put key (text v) config

abbrev pub has_no_param : Bytes → Bool
has_no_param = contains (codes "all" ∷ codes "canonical" ∷ codes "final" ∷ [])

abbrev keyword_of : Bytes → Bytes
keyword_of [] = []
keyword_of (c ∷ t) = if c == 33 then t else c ∷ t

abbrev criterion : Bytes → Bytes → Criterion
criterion t param = record {
  keyword = keyword_of t;
  param = param;
  negate = starts_with (33 ∷ []) t;
}

-- The loop of `_get_matches`, on fuel that is the number of tokens.
unfoldable pub criteria : ℕ → List Bytes → Result (List Criterion)
criteria fuel [] = ok []
criteria zero (t ∷ tokens) = ok []
criteria (suc fuel) (t ∷ []) =
    if has_no_param (keyword_of t) then ok (criterion t [] ∷ []) else err config_parse_error
criteria (suc fuel) (t ∷ param ∷ tokens) =
    let without = criteria fuel (param ∷ tokens) in
    let further = criteria fuel tokens in
    if has_no_param (keyword_of t)
    then (without >>= λ l. ok (criterion t [] ∷ l))
    else (further >>= λ l. ok (criterion t param ∷ l))

-- `l.index(x)`, or the length.
unfoldable pub index : Bytes → List Bytes → ℕ
index x [] = zero
index x (y ∷ l) = let rest = index x l in if eq_bytes y x then zero else suc rest

-- `any(bad)`: a keyword beside `all` and `canonical` that is not empty.
unfoldable pub any_bad : List Bytes → Bool
any_bad [] = false
any_bad (k ∷ l) =
    not (contains (codes "all" ∷ codes "canonical" ∷ []) k) && not (length k == 0) || any_bad l

unfoldable pub allowed : List Bytes → Bool
allowed keywords =
    not (contains keywords (codes "all"))
    || not (any_bad keywords)
      && not (
          contains keywords (codes "canonical")
          && ltb (index (codes "all") keywords) (index (codes "canonical") keywords))

module _ (system : System) where
  -- `_get_hosts`
  unfoldable pub get_hosts : Bytes → Result (List Bytes)
  get_hosts host = elim (system.shlex_split host) [
    | ok l ↦ ok l
    | err value_error ↦ err config_parse_error
    | err e ↦ err e
  ]

  -- `_get_matches`
  unfoldable pub get_matches : Bytes → Result (List Criterion)
  get_matches line = system.shlex_split line >>= λ tokens. criteria (length tokens) tokens >>= λ l.
      if allowed (map (λ (c : Criterion). c.keyword) l) then ok l else err config_parse_error

  -- A line: the blocks that are complete, and the one that is open.
  unfoldable pub parse_setting :
      Bytes → Bytes → List Context → Context → Result (List Context × Context)
  parse_setting key value done context =
      if eq_bytes key (codes "host")
      then (get_hosts value >>= λ hosts.
          ok (done ++ (context ∷ []), record { host = some hosts; matches = none; config = [] }))
      else if eq_bytes key (codes "match")
      then (get_matches value >>= λ l.
          ok (done ++ (context ∷ []), record { host = none; matches = some l; config = [] }))
      else ok (done, record context { config = store key value context.config })

  unfoldable pub parse_line : Bytes → List Context → Context → Result (List Context × Context)
  parse_line line done context =
      if length line == 0 || starts_with (35 ∷ []) line
      then ok (done, context)
      else elim (setting line) [
        | none ↦ err config_parse_error
        | some (key, value) ↦ parse_setting (lower key) value done context
      ]

  unfoldable pub parse_lines : List Bytes → List Context → Context → Result (List Context)
  parse_lines [] done context = ok (done ++ (context ∷ []))
  parse_lines (line ∷ lines) done context = elim (parse_line (strip line) done context) [
    | err e ↦ err e
    | ok (done', context') ↦ parse_lines lines done' context'
  ]

  -- `parse`, of an empty object.
  unfoldable pub parse : List Bytes → Result (List Context)
  parse lines =
      parse_lines lines [] (record { host = some ((42 ∷ []) ∷ []); matches = none; config = [] })
