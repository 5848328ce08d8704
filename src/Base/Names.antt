-- ===== src/Base/Names.antt =====
-- Python's ASCII strings as their codes, and the tests that the modelled code makes on them.
use Prim.Native.Char.{code}
use Prim.Native.String.{String}
use mathlib.Core.Path.{◌≡◌, refl}
use mathlib.Core.Bool.{Bool, true, false, ◌&&◌, ◌||◌}
use mathlib.Core.List.{List, [], ◌∷◌}
use native.Mathlib.Omega.{arith}
use paramiko.Base.Tests.{◌==◌}
use paramiko.Base.Lists.{Bytes}

abbrev pub codes : String → Bytes
codes String.[] = []
codes (String.◌∷◌ c s) = code c ∷ codes s

unfoldable pub eq_bytes : Bytes → Bytes → Bool
eq_bytes [] [] = true
eq_bytes (x ∷ xs) (y ∷ ys) = x == y && eq_bytes xs ys
eq_bytes _ _ = false

-- `s.startswith(prefix)`
unfoldable pub starts_with : Bytes → Bytes → Bool
starts_with [] s = true
starts_with (p ∷ ps) [] = false
starts_with (p ∷ ps) (x ∷ xs) = p == x && starts_with ps xs

-- `name in names`, also spelled `names.__contains__(name)`.
unfoldable pub contains : List Bytes → Bytes → Bool
contains [] name = false
contains (n ∷ ns) name = eq_bytes n name || contains ns name

-- Equal by the test is equal.
pub eq_bytes→≡ : (xs ys : Bytes) → eq_bytes xs ys ≡ true → xs ≡ ys
unfolding eq_bytes
eq_bytes→≡ [] [] h = refl
eq_bytes→≡ [] (y ∷ ys) h = absurd (ground arith)
eq_bytes→≡ (x ∷ xs) [] h = absurd (ground arith)
eq_bytes→≡ (x ∷ xs) (y ∷ ys) h =
    let heads : x ≡ y = ground arith in let tails = eq_bytes→≡ xs ys (ground arith) in cc

pub eq_bytes_same : (b : Bytes) → eq_bytes b b ≡ true
unfolding eq_bytes
eq_bytes_same [] = refl
eq_bytes_same (x ∷ b) = let later = eq_bytes_same b in ground arith
