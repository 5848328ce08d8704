-- ===== src/Wire.antt =====
-- Big-endian numbers in byte strings: `struct.pack` and `struct.unpack` with the formats `>I`
-- (four bytes) and `>Q` (eight), as paramiko/message.py, paramiko/packet.py and paramiko/util.py
-- call them.
pub mod Laws
use paramiko.Base.{
  ℕ, zero, suc, ◌+◌, ◌*◌, ◌/◌, ◌%◌, ◌^◌, ◌<◌, List, [], ◌∷◌, ◌++◌, Bytes, ltb, if◌then◌else◌,
  Result, ok, err, struct_error,
}

abbrev pub IsByte : ℕ → Type 0
IsByte b = b < 256

-- The low `w` bytes of `n`, the most significant first.
unfoldable pub be_bytes : ℕ → ℕ → Bytes
be_bytes zero n = []
be_bytes (suc w) n = be_bytes w (n / 256) ++ (n % 256 ∷ [])

unfoldable pub be_value_from : ℕ → Bytes → ℕ
be_value_from acc [] = acc
be_value_from acc (b ∷ bs) = be_value_from (acc * 256 + b) bs

unfoldable pub be_value : Bytes → ℕ
unfolding be_value_from
be_value bs = be_value_from 0 bs

-- `struct.pack`: a number that does not fit raises `struct.error`.
unfoldable pub pack : ℕ → ℕ → Result Bytes
pack w n = if ltb n (256 ^ w) then ok (be_bytes w n) else err struct_error
