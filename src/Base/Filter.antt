-- ===== src/Base/Filter.antt =====
-- What `filter` and `pop` leave, and membership by the Boolean test.
use Prim.Native.Nat.{ℕ, zero, suc}
use mathlib.Core.Path.{◌≡◌, refl, sym, ap, ◌∙◌}
use mathlib.Core.Logic.{inl, inr}
use mathlib.Core.Bool.{Bool, true, false}
use mathlib.Core.List.{List, [], ◌∷◌, ◌++◌}
use native.Mathlib.Omega.{arith}
use paramiko.Base.Tests.{Bool-cases}
use paramiko.Base.Lists.{Bytes, length, filter, pop}
use paramiko.Base.Names.{eq_bytes, contains, eq_bytes→≡}

module _ {ℓ} {A : Type ℓ} where
  pub pop-middle :
      (i : ℕ) (ys : List A) (x : A) (zs : List A)
      → i ≡ length ys
      → pop i (ys ++ (x ∷ zs)) ≡ ys ++ zs
  unfolding pop
  pop-middle zero [] x zs h = refl
  pop-middle (suc i) [] x zs h = absurd (omega arith)
  pop-middle zero (y ∷ ys) x zs h = absurd (omega arith)
  pop-middle (suc i) (y ∷ ys) x zs h = ap (◌∷◌ y) (pop-middle i ys x zs (omega arith))

module _ {ℓ} {A : Type ℓ} (p : A → Bool) where
  pub filter_keeps : (x : A) (xs : List A) → p x ≡ true → filter p (x ∷ xs) ≡ x ∷ filter p xs
  unfolding filter
  filter_keeps x xs h = rw h

  pub filter_drops : (x : A) (xs : List A) → p x ≡ false → filter p (x ∷ xs) ≡ filter p xs
  unfolding filter
  filter_drops x xs h = rw h

  pub filter-append : (xs ys : List A) → filter p (xs ++ ys) ≡ filter p xs ++ filter p ys
  unfolding filter
  filter-append [] ys = refl
  filter-append (x ∷ xs) ys =
      let more = filter-append xs ys in
      elim (Bool-cases (p x)) [ inl e ↦ rw (e, more) | inr e ↦ rw (e, more) ]

-- Filters by tests that agree.
pub filter_congr {ℓ} :
    {A : Type ℓ} (p q : A → Bool)
    → ((x : A) → p x ≡ q x)
    → (xs : List A) → filter p xs ≡ filter q xs
unfolding filter
filter_congr p q h [] = refl
filter_congr p q h (x ∷ xs) = rw (h x, filter_congr p q h xs)

module _ (p : Bytes → Bool) where
  pub contains-filter :
      (xs : List Bytes) (x : Bytes)
      → contains (filter p xs) x ≡ true
      → (p x ≡ true) × (contains xs x ≡ true)
  unfolding filter contains
  contains-filter [] x h = absurd (ground arith)
  contains-filter (y ∷ ys) x h =
      let more = contains-filter ys x in
      let same = eq_bytes→≡ y x in
      elim (Bool-cases (eq_bytes y x)) [
        | inl e ↦ elim (Bool-cases (p y)) [
          | inl k ↦ (ap p (sym (same e)) ∙ k, rw e refl)
          | inr k ↦ ((more (rw k at h)).0, rw e refl)
        ]
        | inr e ↦ elim (Bool-cases (p y)) [
          | inl k ↦ rw e (more (rw (k, e) at h))
          | inr k ↦ rw e (more (rw k at h))
        ]
      ]

  pub contains-filter_drops :
      (xs : List Bytes) (x : Bytes) → p x ≡ false → contains (filter p xs) x ≡ false
  contains-filter_drops xs x h =
      let kept = contains-filter xs x in
      elim (Bool-cases (contains (filter p xs) x)) [
        | inl e ↦ absurd (let k = (kept e).0 in cc)
        | inr e ↦ e
      ]

  pub contains-filter_keeps :
      (xs : List Bytes) (x : Bytes) → p x ≡ true → contains (filter p xs) x ≡ contains xs x
  unfolding filter contains
  contains-filter_keeps [] x h = refl
  contains-filter_keeps (y ∷ ys) x h =
      let more = contains-filter_keeps ys x h in
      let same = eq_bytes→≡ y x in
      elim (Bool-cases (p y)) [
        | inl k ↦ rw (k, more)
        | inr k ↦ elim (Bool-cases (eq_bytes y x)) [
          | inl e ↦ absurd (let q = ap p (same e) in cc)
          | inr e ↦ rw (k, e, more)
        ]
      ]
