-- ===== src/Transport/Strict.antt =====
-- Strict key exchange: whether the two ends take it to be agreed.
use paramiko.Base.{
  ℕ, suc, ◌+◌, All, length, ◌≡◌, refl, ap, ◌∙◌, Bool, true, false, not, ◌&&◌, List, [], ◌∷◌, ◌++◌,
  Bytes, codes, starts_with, if◌then◌else◌, eq_bytes, arith,
}
use paramiko.Transport.State.{Transport, preferred_kex, is_ext_info, is_kex_strict, kex_strict}
use paramiko.Transport.Negotiation.{
  as_read, signals, send_kex_init, Noted, start_noting, note_algorithm, note_algorithms,
}

strict-note_algorithm :
    (t : Transport) (i : ℕ) (x : Bytes) (n : Noted)
    → is_kex_strict x ≡ false
    → (note_algorithm t i x n).strict ≡ n.strict
unfolding note_algorithm
strict-note_algorithm t i x n h = ground arith

-- What the peer's entries for strict mode, the last ones of its list, leave in the flag.
signalled :
    (t : Transport) (i : ℕ) (n : Noted) (server_mode advertise : Bool)
    → t.server_mode ≡ not server_mode
    → (note_algorithms t i
        ((if server_mode then [] else codes "ext-info-c" ∷ [])
          ++ (if advertise then kex_strict server_mode ∷ [] else []))
        n).strict
      ≡ (if advertise then t.advertise_strict_kex else n.strict)
unfolding note_algorithms note_algorithm is_ext_info is_kex_strict kex_strict starts_with eq_bytes
signalled t i n true true h =
    ap (λ m. eq_bytes (kex_strict true) (kex_strict (not m)) && t.advertise_strict_kex) h
signalled t i n true false h = refl
signalled t i n false true h =
    ap (λ m. eq_bytes (kex_strict false) (kex_strict (not m)) && t.advertise_strict_kex) h
signalled t i n false false h = refl

-- Names that are no entries for strict mode leave the flag to the ones behind them.
strict-note_algorithms :
    (t : Transport) (i : ℕ) (xs : List Bytes) (n : Noted)
    → All (λ x. is_kex_strict x ≡ false) xs
    → (note_algorithms t i xs n).strict ≡ n.strict
unfolding note_algorithms
strict-note_algorithms t i [] n h = refl
strict-note_algorithms t i (x ∷ xs) n h =
    strict-note_algorithms t (i + 1) xs (note_algorithm t i x n) h.1
    ∙ strict-note_algorithm t i x n h.0

note_algorithms-append :
    (t : Transport) (i : ℕ) (xs ys : List Bytes) (n : Noted)
    → note_algorithms t i (xs ++ ys) n
      ≡ note_algorithms t (i + length xs) ys (note_algorithms t i xs n)
unfolding note_algorithms
note_algorithms-append t i [] ys n = ap (λ j. note_algorithms t j ys n) (omega arith)
note_algorithms-append t i (x ∷ xs) ys n =
    let same : i + 1 + length xs ≡ i + suc (length xs) = omega arith in
    note_algorithms-append t (i + 1) xs ys (note_algorithm t i x n)
    ∙ ap (λ j. note_algorithms t j ys (note_algorithms t (i + 1) xs (note_algorithm t i x n))) same

-- An empty list reads as an empty name, which changes nothing.
strict-as_read :
    (t : Transport) (xs : List Bytes) (n : Noted)
    → (note_algorithms t 0 (as_read xs) n).strict ≡ (note_algorithms t 0 xs n).strict
unfolding as_read note_algorithms note_algorithm is_ext_info is_kex_strict starts_with
strict-as_read t [] n = refl
strict-as_read t (x ∷ xs) n = refl

strict_half :
    (t peer : Transport)
    → t.server_mode ≡ not peer.server_mode
    → t.agreed_on_strict_kex ≡ false
    → All (λ x. is_kex_strict x ≡ false) (preferred_kex peer)
    → (note_algorithms t 0 (send_kex_init peer).1.kex_algo_list (start_noting t)).strict
      ≡ t.advertise_strict_kex && peer.advertise_strict_kex
unfolding send_kex_init signals
strict_half t peer opposite fresh plain =
    let names = preferred_kex peer in
    let start = start_noting t in
    let before = note_algorithms t 0 names start in
    let flag = strict-note_algorithms t 0 names start plain ∙ fresh in
    strict-as_read t (names ++ signals peer) start
    ∙ ap (λ n. n.strict) (note_algorithms-append t 0 names (signals peer) start)
    ∙ signalled t (0 + length names) before peer.server_mode peer.advertise_strict_kex opposite
    ∙ ap (λ b. if peer.advertise_strict_kex then t.advertise_strict_kex else b) flag
    ∙ and_comm peer.advertise_strict_kex t.advertise_strict_kex
  where
    and_comm : (a b : Bool) → (if a then b else false) ≡ b && a
    and_comm a b = ground arith

-- Of a client and a server that have not agreed on strict key exchange before, each takes it to be
-- agreed after the other's KEXINIT exactly when both advertise it, if neither prefers a key exchange
-- algorithm that is named like an entry for strict mode.
pub strict_kex_agreed :
    (c s : Transport)
    → c.server_mode ≡ not s.server_mode
    → c.agreed_on_strict_kex ≡ false
    → s.agreed_on_strict_kex ≡ false
    → All (λ x. is_kex_strict x ≡ false) (preferred_kex c)
    → All (λ x. is_kex_strict x ≡ false) (preferred_kex s)
    → ((note_algorithms c 0 (send_kex_init s).1.kex_algo_list (start_noting c)).strict
        ≡ c.advertise_strict_kex && s.advertise_strict_kex)
      × ((note_algorithms s 0 (send_kex_init c).1.kex_algo_list (start_noting s)).strict
          ≡ s.advertise_strict_kex && c.advertise_strict_kex)
strict_kex_agreed c s opposite fc fs pc ps = (
  strict_half c s opposite fc ps,
  strict_half s c (flip c.server_mode s.server_mode opposite) fs pc,
)
  where
    flip : (a b : Bool) → a ≡ not b → b ≡ not a
    flip a b h = ground arith
