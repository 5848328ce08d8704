-- ===== src/LongInt/Inflate.antt =====
-- `inflate_long` reads a byte string of any length as a two's complement number: its loop over
-- words of four bytes, the filler and the final subtraction together are the plain definition.
use paramiko.Base.{
  ℕ, zero, suc, ◌+◌, ◌-◌, ◌*◌, ◌/◌, ◌%◌, ◌^◌, ◌≡◌, refl, ◌∙◌, Bool, true, false, inl, inr, [], ◌∷◌,
  ◌++◌, Bytes, length, length-append, length-replicate, replicate, Bool-cases, ◌==◌, ℤ, pos, sub_ℕ,
  if◌then◌else◌, arith,
}
use paramiko.Wire.{be_value}
use paramiko.Wire.Laws.{be_value-append, be_value-cons}
use paramiko.LongInt.{top_bit, inflate_words, fill, inflate_long}
use native.Mathlib.Nat.{pow-suc}
use native.Mathlib.Numerals.{towards_suc}

-- The two's complement number that a byte string stands for.
unfoldable pub signed_value : Bytes → ℤ
unfolding top_bit
signed_value s = if top_bit s then sub_ℕ (be_value s) (256 ^ length s) else pos (be_value s)

word_value :
    (a b c d : ℕ) (s : Bytes)
    → be_value (a ∷ b ∷ c ∷ d ∷ s) ≡ be_value (a ∷ b ∷ c ∷ d ∷ []) * 256 ^ length s + be_value s
word_value a b c d s = be_value-append (a ∷ b ∷ c ∷ d ∷ []) s

pub pow_word : (k : ℕ) → 256 ^ suc (suc (suc (suc k))) ≡ 2 ^ 32 * 256 ^ k
pow_word k = omega (
  arith,
  pow-suc 256 k,
  pow-suc 256 (suc k),
  pow-suc 256 (suc (suc k)),
  pow-suc 256 (suc (suc (suc k))),
)

pub inflate_words_lem :
    (out : ℕ) (s : Bytes) (q : ℕ)
    → length s ≡ q * 4
    → inflate_words out s ≡ out * 256 ^ length s + be_value s
unfolding inflate_words
inflate_words_lem out [] q h = unfold be_value in omega arith
inflate_words_lem out (a ∷ b ∷ c ∷ d ∷ s) zero h = absurd (omega arith)
inflate_words_lem out (a ∷ b ∷ c ∷ d ∷ s) (suc q) h =
    let v : ℕ = be_value (a ∷ b ∷ c ∷ d ∷ []) in
    rw
      (
        inflate_words_lem (out * 2 ^ 32 + v) s q (omega arith),
        word_value a b c d s,
        pow_word (length s),
      )
      (omega arith)
inflate_words_lem out (a ∷ []) q h = absurd (omega arith)
inflate_words_lem out (a ∷ b ∷ []) q h = absurd (omega arith)
inflate_words_lem out (a ∷ b ∷ c ∷ []) q h = absurd (omega arith)

value_zeros : (k : ℕ) (s : Bytes) → be_value (replicate k 0 ++ s) ≡ be_value s
value_zeros zero s = refl
value_zeros (suc k) s = rw be_value-cons (omega (arith, value_zeros k s))

value_ones :
    (k : ℕ) (s : Bytes)
    → be_value (replicate k 0xff ++ s) + 256 ^ length s
      ≡ 256 ^ length (replicate k 0xff ++ s) + be_value s
value_ones zero s = omega arith
value_ones (suc k) s = rw (be_value-cons, pow-suc) (omega (arith, value_ones k s))

pow_eight : (k : ℕ) → 2 ^ (k + 8) ≡ 256 * 2 ^ k
pow_eight k = simp towards_suc (omega arith)

pow_bits : (k : ℕ) → 2 ^ (8 * k) ≡ 256 ^ k
pow_bits zero = refl
pow_bits (suc k) =
    let e : 8 * suc k ≡ 8 * k + 8 = omega arith in
    rw (e, pow_eight (8 * k), pow_bits k, pow-suc) (omega arith)

-- The filler makes the length a multiple of four, and keeps the value up to the sign bits.
abbrev quarters : Bool → Bytes → ℕ
quarters negative s = length (fill negative s) / 4

length-fill : (negative : Bool) (s : Bytes) → length (fill negative s) ≡ quarters negative s * 4
unfolding fill
length-fill negative s = elim (Bool-cases (length s % 4 == 0)) [
  | inl e ↦ rw e (ground arith)
  | inr e ↦ rw (e, length-append, length-replicate) (ground arith)
]

value-fill : (s : Bytes) → be_value (fill false s) ≡ be_value s
unfolding fill
value-fill s = elim (Bool-cases (length s % 4 == 0)) [
  | inl e ↦ rw e
  | inr e ↦ rw e (value_zeros (4 - length s % 4) s)
]

value-fill_ones :
    (s : Bytes) → be_value (fill true s) + 256 ^ length s ≡ 256 ^ length (fill true s) + be_value s
unfolding fill
value-fill_ones s = elim (Bool-cases (length s % 4 == 0)) [
  | inl e ↦ rw e (omega arith)
  | inr e ↦ rw e (value_ones (4 - length s % 4) s)
]

words-fill :
    (negative : Bool) (s : Bytes) → inflate_words 0 (fill negative s) ≡ be_value (fill negative s)
words-fill negative s =
    inflate_words_lem 0 (fill negative s) (quarters negative s) (length-fill negative s)
    ∙ omega arith

sub_same : (a b c d : ℕ) → a + d ≡ b + c → sub_ℕ a b ≡ sub_ℕ c d
sub_same a b c d h = ground arith

signed_case : (s : Bytes) → inflate_long s false ≡ signed_value s
unfolding inflate_long signed_value
signed_case s = elim (Bool-cases (top_bit s)) [
  | inl e ↦
      rw (e, words-fill true s, pow_bits (length (fill true s)))
        (sub_same _ _ _ _ (value-fill_ones s))
  | inr e ↦ rw (e, words-fill false s, value-fill s)
]

positive_case : (s : Bytes) → inflate_long s true ≡ pos (be_value s)
unfolding inflate_long
positive_case s = rw (words-fill false s, value-fill s)

-- On every byte string the result is the two's complement value, and the plain big-endian value
-- where the caller asks for a number that is always positive.
pub inflate_long-signed_value :
    (s : Bytes) → (inflate_long s false ≡ signed_value s) × (inflate_long s true ≡ pos (be_value s))
inflate_long-signed_value s = (signed_case s, positive_case s)
