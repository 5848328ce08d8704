-- ===== src/LongInt.antt =====
-- `inflate_long` and `deflate_long` of paramiko/util.py: Python integers of any size as byte
-- strings in two's complement, the payload of an SSH mpint.
pub mod Inflate
pub mod Deflate
pub mod Shortest
use paramiko.Base.{
  ℕ, zero, suc, ◌+◌, ◌-◌, ◌*◌, ◌/◌, ◌%◌, ◌^◌, Bool, true, false, not, ◌&&◌, ◌||◌, [], ◌∷◌, ◌++◌,
  Bytes, length, replicate, Option, none, some, ltb, leb, ◌==◌, if◌then◌else◌, ℤ, pos, negsuc,
  sub_ℕ,
}
use paramiko.Wire.{be_bytes, be_value}

-- `len(s) > 0 and byte_ord(s[0]) >= 0x80`
unfoldable pub top_bit : Bytes → Bool
top_bit [] = false
top_bit (b ∷ bs) = leb 0x80 b

-- `for i in range(0, len(s), 4): out = (out << 32) + struct.unpack(">I", s[i:i+4])[0]`. The bytes
-- left over, which would be too short to unpack, are none after the filler.
unfoldable pub inflate_words : ℕ → Bytes → ℕ
inflate_words out (a ∷ b ∷ c ∷ d ∷ s) =
    inflate_words (out * 2 ^ 32 + be_value (a ∷ b ∷ c ∷ d ∷ [])) s
inflate_words out _ = out

unfoldable pub fill : Bool → Bytes → Bytes
fill negative s =
    if not (length s % 4 == 0)
    then replicate (4 - length s % 4) (if negative then 0xff else 0) ++ s
    else s

unfoldable pub inflate_long : Bytes → Bool → ℤ
inflate_long s always_positive =
    let negative = not always_positive && top_bit s in
    let filled = fill negative s in
    let out = inflate_words 0 filled in
    if negative then sub_ℕ out (2 ^ (8 * length filled)) else pos out

-- `n >> 32`, which rounds down.
abbrev pub shift_word : ℤ → ℤ
shift_word (pos n) = pos (n / 2 ^ 32)
shift_word (negsuc n) = negsuc (n / 2 ^ 32)

-- `n & xffffffff`
abbrev pub low_word : ℤ → ℕ
low_word (pos n) = n % 2 ^ 32
low_word (negsuc n) = 2 ^ 32 - 1 - n % 2 ^ 32

abbrev pub is_zero : ℤ → Bool
is_zero (pos n) = n == 0
is_zero (negsuc n) = false

abbrev pub is_minus_one : ℤ → Bool
is_minus_one (pos n) = false
is_minus_one (negsuc n) = n == 0

-- `while (n != 0) and (n != -1)`, on fuel; the result has the bytes and the last `n`.
unfoldable pub deflate_words : ℕ → ℤ → Bytes → Bytes × ℤ
deflate_words zero n s = (s, n)
deflate_words (suc fuel) n s =
    let rest = deflate_words fuel (shift_word n) (be_bytes 4 (low_word n) ++ s) in
    if is_zero n || is_minus_one n then (s, n) else rest

-- The loop that strips leading zeros or FFs; `none` is its `else`.
unfoldable pub strip_sign : ℤ → Bytes → Option Bytes
strip_sign n [] = none
strip_sign n (b ∷ bs) =
    if is_zero n && not (b == 0) || is_minus_one n && not (b == 0xff)
    then some (b ∷ bs)
    else strip_sign n bs

-- `s` is never empty here.
unfoldable pub pad_sign : ℤ → Bytes → Bytes
pad_sign n [] = []
pad_sign n (b ∷ bs) =
    if is_zero n && leb 0x80 b
    then 0 ∷ b ∷ bs
    else if is_minus_one n && ltb b 0x80
    then 0xff ∷ b ∷ bs
    else b ∷ bs

abbrev pub or_degenerate : ℤ → Option Bytes → Bytes
or_degenerate n none = if is_zero n then 0 ∷ [] else 0xff ∷ []
or_degenerate n (some s) = s

abbrev pub magnitude : ℤ → ℕ
magnitude (pos n) = n
magnitude (negsuc n) = n

-- Each round divides the magnitude by 2 ^ 32, so as many rounds as the magnitude are enough.
unfoldable pub deflate_long : ℤ → Bool → Bytes
deflate_long n add_sign_padding =
    let (s, n') = deflate_words (magnitude n) n [] in
    let stripped = or_degenerate n' (strip_sign n' s) in
    if add_sign_padding then pad_sign n' stripped else stripped
