-- ===== src/Transport/Fresh.antt =====
-- `_next_channel` finds a free number.
use paramiko.Base.{
  ℕ, zero, suc, ◌+◌, ◌<◌, ◌≤◌, ◌≡◌, ◌≢◌, refl, sym, ap, ◌∙◌, inl, inr, true, false, List, [], ◌∷◌,
  length, Option, none, some, Bool-cases, if_cases, ◌==◌, arith, ◌%◌, ◌^◌,
}
use paramiko.Transport.Loop.{Entry, Loop, get_channel, delete_channel, is_taken, next_id, next_free}
use paramiko.Transport.Channels.{next_channel}

-- Deleting a number leaves the others.
is_taken-delete_channel :
    (chanid other : ℕ) (es : List Entry)
    → chanid ≢ other
    → is_taken other (delete_channel chanid es) ≡ is_taken other es
unfolding is_taken delete_channel
is_taken-delete_channel chanid other [] apart = refl
is_taken-delete_channel chanid other ((i, c) ∷ es) apart =
    let rest = is_taken-delete_channel chanid other es apart in
    elim (Bool-cases (i == chanid)) [ inl same ↦ ground arith | inr differs ↦ ground arith ]

length-delete_channel :
    (chanid : ℕ) (es : List Entry) → length (delete_channel chanid es) ≤ length es
unfolding delete_channel
length-delete_channel chanid [] = omega arith
length-delete_channel chanid ((i, c) ∷ es) =
    let rest = length-delete_channel chanid es in
    if_cases (λ (k : List Entry). length k ≤ suc (length es)) (i == chanid)
      (delete_channel chanid es) ((i, c) ∷ delete_channel chanid es) (λ _. omega (arith, rest))
      (λ _. omega (arith, rest))

-- A number that is taken makes the map longer.
taken-length :
    (chanid : ℕ) (es : List Entry)
    → is_taken chanid es ≡ true
    → length (delete_channel chanid es) < length es
unfolding delete_channel is_taken
taken-length chanid [] taken = absurd (let z = taken in cc)
taken-length chanid ((i, c) ∷ es) taken =
    let short = length-delete_channel chanid es in
    let rest = taken-length chanid es in
    elim (Bool-cases (i == chanid)) [
      | inl same ↦ rw same (omega (arith, short))
      | inr differs ↦
          let still : is_taken chanid es ≡ true = ground arith in
          rw differs (omega (arith, rest still))
    ]

next_id_add : (start j : ℕ) → (next_id start + j) % 16777216 ≡ (start + suc j) % 16777216
next_id_add start j = omega arith

-- The search does not see a number that it does not come to.
next_free-delete_channel :
    (fuel chanid start : ℕ) (es : List Entry)
    → ((j : ℕ) → j < fuel → (start + j) % 16777216 ≢ chanid)
    → start < 16777216
    → next_free fuel (delete_channel chanid es) start ≡ next_free fuel es start
unfolding next_free
next_free-delete_channel zero chanid start es apart low = refl
next_free-delete_channel (suc fuel) chanid start es apart low =
    let rest =
      next_free-delete_channel fuel chanid (next_id start) es
        (λ j less e. apart (suc j) (omega arith) (sym (next_id_add start j) ∙ e)) (omega arith) in
    let same =
      is_taken-delete_channel chanid start es
        (λ e. apart 0 (omega arith) (omega (arith, e, low))) in
    rw (same, rest)

-- What the search finds is a number that is free, of three bytes.
next_free-is_free :
    (fuel start chanid : ℕ) (es : List Entry)
    → next_free fuel es start ≡ some chanid
    → start < 16777216
    → (is_taken chanid es ≡ false) × (chanid < 16777216)
unfolding next_free
next_free-is_free zero start chanid es found low = absurd (let z = found in cc)
next_free-is_free (suc fuel) start chanid es found low =
    let later = next_free-is_free fuel (next_id start) chanid es in
    elim (Bool-cases (is_taken start es)) [
      | inl taken ↦ let h = rw taken at found in later h (omega arith)
      | inr free ↦
          let h = rw free at found in let same : start ≡ chanid = cc in rw (sym same) (free, low)
    ]

-- There is one within as many steps as there are channels, and one more.
next_free-finds :
    (fuel start : ℕ) (es : List Entry)
    → length es < fuel
    → fuel ≤ 16777216
    → start < 16777216
    → (chanid : ℕ) × (next_free fuel es start ≡ some chanid)
unfolding next_free
next_free-finds zero start es enough few low = absurd (omega arith)
next_free-finds (suc fuel) start es enough few low = elim (Bool-cases (is_taken start es)) [
  | inl taken ↦
      let (chanid, found) =
        next_free-finds fuel (next_id start) (delete_channel start es)
          (omega (arith, taken-length start es taken)) (omega arith) (omega arith) in
      let same =
        next_free-delete_channel fuel start (next_id start) es
          (λ j less e. omega (arith, e, less, few, low)) (omega arith) in
      (chanid, rw taken (sym same ∙ found))
  | inr free ↦ (start, rw free)
]

get_channel_free :
    (chanid : ℕ) (es : List Entry) → is_taken chanid es ≡ false → get_channel chanid es ≡ none
unfolding get_channel is_taken
get_channel_free chanid [] free = refl
get_channel_free chanid ((i, c) ∷ es) free =
    let rest = get_channel_free chanid es in
    elim (Bool-cases (i == chanid)) [
      | inl same ↦ absurd (ground arith)
      | inr differs ↦ rw differs (rest (ground arith))
    ]

-- With fewer than 2 ^ 24 - 1 channels open, a new channel gets a number that no open channel has.
pub next_channel-fresh :
    (l : Loop)
    → l.channel_counter < 2 ^ 24
    → length l.channels + 1 < 2 ^ 24
    → (chanid : ℕ) × (next_channel l ≡ some (chanid, record l { channel_counter = next_id chanid }))
      × (get_channel chanid l.channels ≡ none)
      × (chanid < 2 ^ 24)
unfolding next_channel
next_channel-fresh l low few =
    let (chanid, found) =
      next_free-finds (suc (length l.channels)) l.channel_counter l.channels (omega arith)
        (omega arith) low in
    let (free, small) = next_free-is_free _ _ chanid l.channels found low in
    let drawn =
      ap
        (λ (o : Option ℕ). elim o [
          | none ↦ none
          | some n ↦ some (n, record l { channel_counter = next_id n })
        ])
        found in
    (chanid, drawn, get_channel_free chanid l.channels free, small)
