-- ===== src/LongInt/Shortest.antt =====
-- `deflate_long` writes no byte that only repeats the sign, as RFC 4251 section 5 asks of an
-- mpint, and its result without sign padding is the plain big-endian number.
use paramiko.Base.{
  ℕ, ◌≤◌, ◌<◌, ◌≡◌, ap, ◌∙◌, Bool, true, false, inl, inr, [], ◌∷◌, Bytes, All, Bool-cases, ltb, leb,
  ℤ, pos, negsuc, arith, Option, some, none,
}
use paramiko.Wire.{be_value, IsByte}
use paramiko.Wire.Laws.{be_value-cons}
use paramiko.LongInt.{inflate_long, strip_sign, pad_sign, or_degenerate, deflate_long, magnitude}
use paramiko.LongInt.Inflate.{inflate_long-signed_value}
use paramiko.LongInt.Deflate.{
  sign, Leads, Stripped, loop_bytes, loop_Ended, Stripped-bytes, deflate_padded,
}

-- No first byte that the sign bit of the second would stand for.
abbrev pub IsShortest : Bytes → Type 0
IsShortest [] = ⊥
IsShortest (b ∷ []) = Unit
IsShortest (b ∷ c ∷ s) = (b ≡ 0 → 0x80 ≤ c) × (b ≡ 0xff → c < 0x80)

IsShortest-head : (b : ℕ) (bs : Bytes) → (b ≡ 0 → ⊥) → (b ≡ 0xff → ⊥) → IsShortest (b ∷ bs)
IsShortest-head b [] z o = tt
IsShortest-head b (c ∷ bs) z o = (λ e. absurd (z e), λ e. absurd (o e))

pad_sign-IsShortest :
    (n : ℤ) (b : ℕ) (bs : Bytes)
    → Leads n (b ∷ bs)
    → All IsByte (b ∷ bs)
    → IsShortest (pad_sign (sign n) (b ∷ bs)) × All IsByte (pad_sign (sign n) (b ∷ bs))
unfolding pad_sign
pad_sign-IsShortest (pos n) b bs l h = elim (Bool-cases (leb 0x80 b)) [
  | inl e ↦ rw e ((λ _. ground arith, λ z. absurd (omega arith)), (omega arith, h))
  | inr e ↦ rw e (IsShortest-head b bs l (λ o. ground arith), h)
]
pad_sign-IsShortest (negsuc n) b bs l h = elim (Bool-cases (ltb b 0x80)) [
  | inl e ↦ rw e ((λ z. absurd (omega arith), λ _. ground arith), (omega arith, h))
  | inr e ↦ rw e (IsShortest-head b bs (λ z. ground arith) l, h)
]

padded-IsShortest :
    (n : ℤ) (t : ℕ) (o : Option Bytes)
    → Stripped n t o
    → IsShortest (pad_sign (sign n) (or_degenerate (sign n) o))
      × All IsByte (pad_sign (sign n) (or_degenerate (sign n) o))
unfolding pad_sign
padded-IsShortest (pos n) t none h = (tt, omega arith)
padded-IsShortest (negsuc n) t none h = (tt, omega arith)
padded-IsShortest n t (some []) h = absurd h.2
padded-IsShortest n t (some (b ∷ bs)) h = pad_sign-IsShortest n b bs h.2 h.1

-- The bytes written for an integer are bytes, there is at least one, and no first byte is one that
-- the sign bit of the second byte already stands for.
pub deflate_long-IsShortest :
    (n : ℤ) → IsShortest (deflate_long n true) × All IsByte (deflate_long n true)
deflate_long-IsShortest n =
    rw (deflate_padded n) (padded-IsShortest n (magnitude n) _ (Stripped-bytes n))

unsigned_value :
    (n t : ℕ) (o : Option Bytes)
    → Stripped (pos n) t o
    → (be_value (or_degenerate (pos 0) o) ≡ t)
      × (be_value (pad_sign (pos 0) (or_degenerate (pos 0) o)) ≡ t)
unfolding pad_sign
unsigned_value n t none h = unfold be_value in (omega arith, omega arith)
unsigned_value n t (some []) h = absurd h.2
unsigned_value n t (some (b ∷ bs)) h = (omega arith, ground (arith, be_value-cons 0 (b ∷ bs)))

deflate_unpadded :
    (n : ℕ)
    → deflate_long (pos n) false ≡ or_degenerate (pos 0) (strip_sign (pos 0) (loop_bytes (pos n)))
unfolding deflate_long loop_bytes
deflate_unpadded n = rw (loop_Ended (pos n)).0

-- A number that is not negative is read back with `always_positive`, with sign padding or without.
pub inflate_long-deflate_long_positive :
    (n : ℕ) (add_sign_padding : Bool)
    → inflate_long (deflate_long (pos n) add_sign_padding) true ≡ pos n
inflate_long-deflate_long_positive n true =
    (inflate_long-signed_value _).1
    ∙ ap pos
        (ap be_value (deflate_padded (pos n)) ∙ (unsigned_value n n _ (Stripped-bytes (pos n))).1)
inflate_long-deflate_long_positive n false =
    (inflate_long-signed_value _).1
    ∙ ap pos (ap be_value (deflate_unpadded n) ∙ (unsigned_value n n _ (Stripped-bytes (pos n))).0)
