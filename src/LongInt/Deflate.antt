-- ===== src/LongInt/Deflate.antt =====
-- `deflate_long` writes a two's complement number that `inflate_long` reads back, in as few bytes
-- as can hold it.
use paramiko.Base.{
  ℕ, zero, suc, ◌+◌, ◌*◌, ◌/◌, ◌%◌, ◌^◌, ◌≤◌, ◌<◌, ◌≡◌, refl, ap, ◌∙◌, true, false, ◌||◌, ◌≢◌,
  ==_iff, inl, inr, [], ◌∷◌, ◌++◌, Bytes, length, length-append, All, All-append, Bool-cases, ◌==◌,
  ℤ, pos, negsuc, sub_ℕ, if◌then◌else◌, arith, Option, some, none, ltb, leb,
}
use paramiko.Wire.{be_value, be_bytes, IsByte}
use paramiko.Wire.Laws.{
  be_value-append, be_value-cons, be_value-be_bytes, length-be_bytes, be_bytes-IsByte,
}
use paramiko.LongInt.{
  top_bit, inflate_long, shift_word, low_word, is_zero, is_minus_one, deflate_words, strip_sign,
  pad_sign, or_degenerate, magnitude, deflate_long,
}
use paramiko.LongInt.Inflate.{signed_value, inflate_long-signed_value, pow_word}
use native.Mathlib.Nat.{pow-suc, div-add-mod'}

-- `n` is what is left of a number of magnitude `t`, in front of the bytes `s`.
abbrev pub Splits : ℤ → ℕ → Bytes → Type 0
Splits (pos n) t s = n * 256 ^ length s + be_value s ≡ t
Splits (negsuc n) t s = be_value s + t + 1 ≡ n * 256 ^ length s + 256 ^ length s

-- The sign alone: 0 or -1.
abbrev pub sign : ℤ → ℤ
sign (pos _) = pos 0
sign (negsuc _) = negsuc 0

word_prefix :
    (w : ℕ) (s : Bytes)
    → w < 2 ^ 32
    → be_value (be_bytes 4 w ++ s) ≡ w * 256 ^ length s + be_value s
word_prefix w s h = rw (be_value-append, be_value-be_bytes 4 w h)

word_length : (w : ℕ) (s : Bytes) → 256 ^ length (be_bytes 4 w ++ s) ≡ 256 ^ length s * 2 ^ 32
word_length w s =
    let e : 4 + length s ≡ suc (suc (suc (suc (length s)))) = omega arith in
    rw (length-append, length-be_bytes 4 w, e, pow_word (length s)) (omega arith)

carry_pos : (q r p v : ℕ) → q * (p * 2 ^ 32) + (r * p + v) ≡ (q * 2 ^ 32 + r) * p + v
carry_pos q r p v = omega arith

carry_neg :
    (q r c p v t : ℕ)
    → c + r + 1 ≡ 2 ^ 32
    → v + t + 1 ≡ (q * 2 ^ 32 + r) * p + p
    → c * p + v + t + 1 ≡ q * (p * 2 ^ 32) + p * 2 ^ 32
carry_neg q r c p v t h e = omega (arith, ap (λ (k : ℕ). k * p) h)

Splits-shift_word :
    (n : ℤ) (t : ℕ) (s : Bytes)
    → Splits n t s
    → Splits (shift_word n) t (be_bytes 4 (low_word n) ++ s)
Splits-shift_word (pos n) t s e =
    rw (word_length (low_word (pos n)) s, word_prefix (low_word (pos n)) s (omega arith))
      (carry_pos (n / 2 ^ 32) (n % 2 ^ 32) (256 ^ length s) (be_value s)
        ∙ rw (div-add-mod' n (2 ^ 32)) e)
Splits-shift_word (negsuc n) t s e =
    rw (word_length (low_word (negsuc n)) s, word_prefix (low_word (negsuc n)) s (omega arith))
      (carry_neg (n / 2 ^ 32) (n % 2 ^ 32) _ (256 ^ length s) (be_value s) t (omega arith)
        (rw (div-add-mod' n (2 ^ 32)) e))

word_is_bytes : (w : ℕ) (s : Bytes) → All IsByte s → All IsByte (be_bytes 4 w ++ s)
word_is_bytes w s h = All-append IsByte (be_bytes 4 w) s (be_bytes-IsByte 4 w) h

-- What the loop ends with: only the sign is left, and the bytes are bytes.
abbrev pub Ended : ℤ → ℕ → Bytes × ℤ → Type 0
Ended n t (s, n') = (n' ≡ sign n) × Splits (sign n) t s × All IsByte s

stop_early :
    (n : ℤ) (t : ℕ) (s : Bytes) → magnitude n ≡ 0 → Splits n t s → All IsByte s → Ended n t (s, n)
stop_early (pos n) t s z e h = (ap pos z, rw z at e, h)
stop_early (negsuc n) t s z e h = (ap negsuc z, rw z at e, h)

shift_sign : (n : ℤ) → sign (shift_word n) ≡ sign n
shift_sign (pos n) = refl
shift_sign (negsuc n) = refl

at_end : (n : ℤ) → (is_zero n || is_minus_one n) ≡ true → magnitude n ≡ 0
at_end (pos n) h = ground arith
at_end (negsuc n) h = ground arith

shift_shrinks :
    (n : ℤ) (fuel : ℕ)
    → (is_zero n || is_minus_one n) ≡ false
    → magnitude n ≤ suc fuel
    → magnitude (shift_word n) ≤ fuel
shift_shrinks (pos n) fuel h l = ground arith
shift_shrinks (negsuc n) fuel h l = ground arith

deflate_words-Ended :
    (fuel : ℕ) (n : ℤ) (t : ℕ) (s : Bytes)
    → magnitude n ≤ fuel
    → Splits n t s
    → All IsByte s
    → Ended n t (deflate_words fuel n s)
unfolding deflate_words
deflate_words-Ended zero n t s l e h = stop_early n t s (omega arith) e h
deflate_words-Ended (suc fuel) n t s l e h = elim (Bool-cases (is_zero n || is_minus_one n)) [
  | inl done ↦ rw done (stop_early n t s (at_end n done) e h)
  | inr more ↦ rw more (
      let step =
        deflate_words-Ended fuel (shift_word n) t (be_bytes 4 (low_word n) ++ s)
          (shift_shrinks n fuel more l) (Splits-shift_word n t s e)
          (word_is_bytes (low_word n) s h) in
      rw (shift_sign n) at step)
]

-- What stripping and padding give.
abbrev with_sign : ℤ → ℕ → ℤ
with_sign (pos _) t = pos t
with_sign (negsuc _) t = negsuc t

abbrev pub filler : ℤ → ℕ
filler (pos _) = 0
filler (negsuc _) = 0xff

-- The first byte says more than the sign does.
abbrev pub Leads : ℤ → Bytes → Type 0
Leads n [] = ⊥
Leads n (b ∷ bs) = b ≢ filler n

abbrev pub Stripped : ℤ → ℕ → Option Bytes → Type 0
Stripped n t none = t ≡ 0
Stripped n t (some s) = Splits (sign n) t s × All IsByte s × Leads n s

Splits-cons_filler :
    (n : ℤ) (t : ℕ) (s : Bytes) → Splits (sign n) t (filler n ∷ s) → Splits (sign n) t s
Splits-cons_filler (pos n) t s e = let e' = rw be_value-cons at e in omega arith
Splits-cons_filler (negsuc n) t s e =
    let e' = rw (be_value-cons, pow-suc 256 (length s)) at e in omega arith

strip_step :
    (n : ℤ) (b : ℕ) (bs : Bytes)
    → strip_sign (sign n) (b ∷ bs)
      ≡ (if b == filler n then strip_sign (sign n) bs else some (b ∷ bs))
unfolding strip_sign
strip_step (pos n) b bs = ground arith
strip_step (negsuc n) b bs = ground arith

clash : (a b : ℕ) → (a == b) ≡ false → a ≢ b
clash a b h e = ground arith

empty-Splits : (n : ℤ) (t : ℕ) → Splits (sign n) t [] → t ≡ 0
empty-Splits (pos n) t e = unfold be_value in omega arith
empty-Splits (negsuc n) t e = unfold be_value in omega arith

strip_sign-Stripped :
    (n : ℤ) (t : ℕ) (s : Bytes)
    → Splits (sign n) t s
    → All IsByte s
    → Stripped n t (strip_sign (sign n) s)
strip_sign-Stripped n t [] e h = unfold strip_sign in empty-Splits n t e
strip_sign-Stripped n t (b ∷ bs) e h = elim (Bool-cases (b == filler n)) [
  | inl same ↦
      rw (strip_step n b bs, same)
        (strip_sign-Stripped n t bs
          (Splits-cons_filler n t bs (rw ((==_iff b (filler n)).0 same) at e)) h.1)
  | inr other ↦ rw (strip_step n b bs, other) (e, h, λ same. clash b (filler n) other same)
]

-- The sign bit of the first byte decides the sign, and the rest is the magnitude.
signed_pos :
    (t b : ℕ) (bs : Bytes)
    → leb 0x80 b ≡ false
    → be_value (b ∷ bs) ≡ t
    → signed_value (b ∷ bs) ≡ pos t
unfolding signed_value top_bit
signed_pos t b bs h e = rw (h, e)

sub_negsuc : (v t p : ℕ) → v + t + 1 ≡ p → sub_ℕ v p ≡ negsuc t
sub_negsuc v t p h = ground arith

signed_neg :
    (t b : ℕ) (bs : Bytes)
    → leb 0x80 b ≡ true
    → be_value (b ∷ bs) + t + 1 ≡ 256 ^ length (b ∷ bs)
    → signed_value (b ∷ bs) ≡ negsuc t
unfolding signed_value top_bit
signed_neg t b bs h e = rw h (sub_negsuc _ t _ e)

pad_sign_pos :
    (t b : ℕ) (bs : Bytes)
    → be_value (b ∷ bs) ≡ t
    → signed_value (pad_sign (pos 0) (b ∷ bs)) ≡ pos t
unfolding pad_sign
pad_sign_pos t b bs e = elim (Bool-cases (leb 0x80 b)) [
  | inl h ↦ rw h (signed_pos t 0 (b ∷ bs) refl (rw be_value-cons (omega arith)))
  | inr h ↦ rw h (signed_pos t b bs h e)
]

-- One more byte of ones.
ones_value :
    (t b : ℕ) (bs : Bytes)
    → be_value (b ∷ bs) + t + 1 ≡ 256 ^ length (b ∷ bs)
    → be_value (0xff ∷ b ∷ bs) + t + 1 ≡ 256 ^ length (0xff ∷ b ∷ bs)
ones_value t b bs e = rw (be_value-cons 0xff (b ∷ bs), pow-suc 256 (length (b ∷ bs))) (omega arith)

pad_sign_neg :
    (t b : ℕ) (bs : Bytes)
    → be_value (b ∷ bs) + t + 1 ≡ 256 ^ length (b ∷ bs)
    → signed_value (pad_sign (negsuc 0) (b ∷ bs)) ≡ negsuc t
unfolding pad_sign
pad_sign_neg t b bs e = elim (Bool-cases (ltb b 0x80)) [
  | inl h ↦ rw h (signed_neg t 0xff (b ∷ bs) refl (ones_value t b bs e))
  | inr h ↦ rw h (signed_neg t b bs (ground arith) e)
]

pad_value :
    (n : ℤ) (t : ℕ) (o : Option Bytes)
    → Stripped n t o
    → signed_value (pad_sign (sign n) (or_degenerate (sign n) o)) ≡ with_sign n t
unfolding be_value
pad_value (pos n) t none h = rw h (pad_sign_pos 0 0 [] refl)
pad_value (negsuc n) t none h = rw h (pad_sign_neg 0 0xff [] refl)
pad_value n t (some []) h = absurd h.2
pad_value (pos n) t (some (b ∷ bs)) h = pad_sign_pos t b bs (omega arith)
pad_value (negsuc n) t (some (b ∷ bs)) h = pad_sign_neg t b bs (omega arith)

magnitude-Splits : (n : ℤ) → Splits n (magnitude n) []
magnitude-Splits (pos n) = unfold be_value in omega arith
magnitude-Splits (negsuc n) = unfold be_value in omega arith

with_sign-magnitude : (n : ℤ) → with_sign n (magnitude n) ≡ n
with_sign-magnitude (pos n) = refl
with_sign-magnitude (negsuc n) = refl

-- The pieces of `deflate_long` in terms of the sign and the loop's bytes.
unfoldable pub loop_bytes : ℤ → Bytes
loop_bytes n = (deflate_words (magnitude n) n []).0

pub loop_Ended : (n : ℤ) → Ended n (magnitude n) (deflate_words (magnitude n) n [])
loop_Ended n =
    deflate_words-Ended (magnitude n) n (magnitude n) [] (omega arith) (magnitude-Splits n) tt

pub Stripped-bytes : (n : ℤ) → Stripped n (magnitude n) (strip_sign (sign n) (loop_bytes n))
unfolding loop_bytes
Stripped-bytes n =
    let e = loop_Ended n in strip_sign-Stripped n (magnitude n) (loop_bytes n) e.1 e.2

pub deflate_padded :
    (n : ℤ)
    → deflate_long n true
      ≡ pad_sign (sign n) (or_degenerate (sign n) (strip_sign (sign n) (loop_bytes n)))
unfolding deflate_long loop_bytes
deflate_padded n = rw (loop_Ended n).0

-- Every integer is read back from the bytes written for it.
pub inflate_long-deflate_long : (n : ℤ) → inflate_long (deflate_long n true) false ≡ n
inflate_long-deflate_long n =
    (inflate_long-signed_value (deflate_long n true)).0
    ∙ ap signed_value (deflate_padded n)
    ∙ pad_value n (magnitude n) _ (Stripped-bytes n)
    ∙ with_sign-magnitude n
