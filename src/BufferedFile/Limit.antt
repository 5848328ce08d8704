-- ===== src/BufferedFile/Limit.antt =====
-- What a limit on the size leaves of the first line.
use paramiko.Base.{
  ℕ, zero, suc, ◌-◌, ◌≤◌, ◌<◌, ◌≡◌, refl, sym, ap, ◌∙◌, true, [], ◌∷◌, ◌++◌, Bytes, length, take,
  take_all, ◌==◌, if_cases, Option, none, some, arith,
}
use paramiko.BufferedFile.State.{has}
use paramiko.BufferedFile.Exact.{upto}
use paramiko.BufferedFile.FirstLine.{first_line, first_line-append}

pub length-first_line : (b : Bytes) → length (first_line b) ≤ length b
unfolding first_line
length-first_line [] = omega arith
length-first_line (b ∷ s) =
    let later = length-first_line s in
    let rest = first_line s in
    if_cases (λ (l : Bytes). length l ≤ suc (length s)) (b == 10) (b ∷ []) (b ∷ rest)
      (λ _. omega arith) (λ _. omega (arith, later))

-- What has been scanned has not reached the limit.
abbrev pub Fits : Option ℕ → Bytes → Type 0
Fits none line = Unit
Fits (some k) line = length line < k

take_past :
    (k : ℕ) (line rest : Bytes)
    → length line ≤ k
    → take k (line ++ rest) ≡ line ++ take (k - length line) rest
take_past k [] rest h = let same : k ≡ k - 0 = omega arith in ap (λ n. take n rest) same
take_past zero (b ∷ line) rest h = absurd (omega arith)
take_past (suc k) (b ∷ line) rest h =
    let past = take_past k line rest (omega (arith, h)) in
    let less : suc k - length (b ∷ line) ≡ k - length line = omega arith in
    ap (λ l. b ∷ l) past ∙ ap (λ n. b ∷ line ++ take n rest) (sym less)

pub upto_longer :
    (size : Option ℕ) (line rest : Bytes)
    → Fits size line
    → has 10 line ≡ true
    → first_line (upto size (line ++ rest)) ≡ first_line line
upto_longer none line rest fits h = first_line-append line rest h
upto_longer (some k) line rest fits h =
    let past = take_past k line rest (omega (arith, fits)) in
    ap first_line past ∙ first_line-append line (take (k - length line) rest) h

pub upto_whole : (size : Option ℕ) (line : Bytes) → Fits size line → upto size line ≡ line
upto_whole none line fits = refl
upto_whole (some k) line fits = take_all k line (omega (arith, fits))
