-- ===== src/Wire/Laws.antt =====
-- Packing and unpacking are inverse, at every width.
use paramiko.Base.{
  ℕ, zero, suc, ◌+◌, ◌*◌, ◌/◌, ◌%◌, ◌^◌, ◌<◌, ◌≡◌, refl, ◌∙◌, [], ◌∷◌, ◌++◌, Bytes, length, All,
  All-append, length-append, lt→ltb, ok, arith,
}
use paramiko.Wire.{IsByte, be_bytes, be_value_from, be_value, pack}
use native.Mathlib.Nat.{pow-suc}

pub length-be_bytes : (w n : ℕ) → length (be_bytes w n) ≡ w
unfolding be_bytes
length-be_bytes zero n = refl
length-be_bytes (suc w) n = rw length-append (omega (arith, length-be_bytes w (n / 256)))

pub be_bytes-IsByte : (w n : ℕ) → All IsByte (be_bytes w n)
unfolding be_bytes
be_bytes-IsByte zero n = tt
be_bytes-IsByte (suc w) n =
    All-append IsByte (be_bytes w (n / 256)) _ (be_bytes-IsByte w (n / 256)) (omega arith)

pub be_value_from-append :
    (acc : ℕ) (xs ys : Bytes)
    → be_value_from acc (xs ++ ys) ≡ be_value_from (be_value_from acc xs) ys
unfolding be_value_from
be_value_from-append acc [] ys = refl
be_value_from-append acc (x ∷ xs) ys = be_value_from-append (acc * 256 + x) xs ys

horner : (p a x : ℕ) → (a * 256 + x) * p ≡ a * (p * 256) + x * p
horner p a x = omega arith

pub be_value_from_lem :
    (acc : ℕ) (xs : Bytes) → be_value_from acc xs ≡ acc * 256 ^ length xs + be_value xs
unfolding be_value
be_value_from_lem acc [] = omega arith
be_value_from_lem acc (x ∷ xs) =
    let p : ℕ = 256 ^ length xs in
    let e : 256 ^ suc (length xs) ≡ p * 256 = pow-suc 256 (length xs) in
    rw (e, be_value_from_lem (acc * 256 + x) xs, be_value_from_lem (0 * 256 + x) xs)
      (omega (arith, horner p acc x, horner p 0 x))

pub be_value-append :
    (xs ys : Bytes) → be_value (xs ++ ys) ≡ be_value xs * 256 ^ length ys + be_value ys
be_value-append xs ys =
    unfold be_value in be_value_from-append 0 xs ys ∙ be_value_from_lem (be_value_from 0 xs) ys

pub be_value-cons : (x : ℕ) (xs : Bytes) → be_value (x ∷ xs) ≡ x * 256 ^ length xs + be_value xs
be_value-cons x xs = unfold be_value in omega (arith, be_value_from_lem (0 * 256 + x) xs)

below_next : (p x v : ℕ) → x < 256 → v < p → x * p + v < p * 256
below_next p x v hx hv = grind arith

pub be_value-lt : (xs : Bytes) → All IsByte xs → be_value xs < 256 ^ length xs
be_value-lt [] h = unfold be_value in omega arith
be_value-lt (x ∷ xs) h =
    rw (be_value-cons, pow-suc 256 (length xs))
      (below_next (256 ^ length xs) x (be_value xs) h.0 (be_value-lt xs h.1))

snoc_value : (xs : Bytes) (n : ℕ) → be_value xs ≡ n / 256 → be_value (xs ++ (n % 256 ∷ [])) ≡ n
snoc_value xs n e = rw (be_value-append, e) (unfold be_value in omega arith)

pub be_value-be_bytes : (w n : ℕ) → n < 256 ^ w → be_value (be_bytes w n) ≡ n
unfolding be_bytes
be_value-be_bytes zero n h = unfold be_value in omega arith
be_value-be_bytes (suc w) n h =
    snoc_value (be_bytes w (n / 256)) n (be_value-be_bytes w (n / 256) (omega arith))

-- A number that fits packs.
pub pack_fits : (w n : ℕ) → n < 256 ^ w → pack w n ≡ ok (be_bytes w n)
unfolding pack
pack_fits w n h = rw (lt→ltb n (256 ^ w) h)
