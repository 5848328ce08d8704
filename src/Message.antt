-- ===== src/Message.antt =====
-- `Message` of paramiko/message.py: the fields of an SSH packet, written to and read from a byte
-- stream. The stream is a `BytesIO`: its bytes and the position of the next read or write.
pub mod Stream
pub mod Fields
pub mod RoundTrip
use paramiko.Base.{
  ℕ, ◌+◌, ◌-◌, ◌^◌, Bool, true, false, not, ◌&&◌, List, [], ◌∷◌, ◌++◌, Bytes, length, take, drop,
  replicate, ltb, leb, ◌==◌, if◌then◌else◌, ℤ, pos, negsuc, Result, ok, err, ◌>>=◌, struct_error,
}
use paramiko.Wire.{pack, be_value}
use paramiko.LongInt.{inflate_long, deflate_long}

pub record Message : Type 0 where
  pub packet : Bytes
  pub position : ℕ

-- `Message(content)` and `Message()`.
abbrev pub of_content : Bytes → Message
of_content content = record { packet = content; position = 0 }

abbrev pub empty : Message
empty = of_content []

-- `BytesIO.read(n)` and `BytesIO.write(b)`; a write past the end fills the gap with zeros.
unfoldable pub read : ℕ → Message → Bytes × Message
read n m =
    let b = take n (drop m.position m.packet) in (b, record m { position = m.position + length b })

unfoldable pub write : Bytes → Message → Message
write b m = record {
  packet =
      take m.position m.packet
      ++ (replicate (m.position - length m.packet) 0
          ++ (b ++ drop (m.position + length b) m.packet));
  position = m.position + length b;
}

abbrev pub asbytes : Message → Bytes
asbytes m = m.packet

abbrev pub rewind : Message → Message
rewind m = record m { position = 0 }

unfoldable pub get_remainder : Message → Bytes × Message
get_remainder m = (drop m.position m.packet, m)

unfoldable pub get_so_far : Message → Bytes × Message
get_so_far m = read m.position (rewind m)

abbrev pub max_pad_size : ℕ
max_pad_size = 2 ^ 20

unfoldable pub get_bytes : ℕ → Message → Bytes × Message
get_bytes n m =
    let (b, m') = read n m in
    if ltb (length b) n && ltb n max_pad_size
    then (b ++ replicate (n - length b) 0, m')
    else (b, m')

unfoldable pub get_byte : Message → Bytes × Message
get_byte m = get_bytes 1 m

-- `b != zero_byte`, on byte strings.
abbrev is_zero_byte : Bytes → Bool
is_zero_byte (b ∷ []) = b == 0
is_zero_byte _ = false

abbrev is_max_byte : Bytes → Bool
is_max_byte (b ∷ []) = b == 0xff
is_max_byte _ = false

unfoldable pub get_boolean : Message → Bool × Message
get_boolean m = let (b, m') = get_bytes 1 m in (not (is_zero_byte b), m')

-- `struct.unpack` gets as many bytes as it wants: `get_bytes` pads.
unfoldable pub get_int : Message → ℕ × Message
get_int m = let (b, m') = get_bytes 4 m in (be_value b, m')

unfoldable pub get_int64 : Message → ℕ × Message
get_int64 m = let (b, m') = get_bytes 8 m in (be_value b, m')

unfoldable pub get_string : Message → Bytes × Message
get_string m = let (n, m') = get_int m in get_bytes n m'

unfoldable pub get_binary : Message → Bytes × Message
get_binary m = let (n, m') = get_int m in get_bytes n m'

-- Text stays in its encoding: the bytes of the string.
abbrev pub get_text : Message → Bytes × Message
get_text m = get_string m

-- `s.split(",")`, with the piece that has been read so far.
unfoldable pub split_commas : Bytes → Bytes → List Bytes
split_commas piece [] = piece ∷ []
split_commas piece (c ∷ s) =
    let behind = split_commas [] s in
    let further = split_commas (piece ++ (c ∷ [])) s in if c == 44 then piece ∷ behind else further

unfoldable pub get_list : Message → List Bytes × Message
get_list m = let (s, m') = get_text m in (split_commas [] s, m')

unfoldable pub get_mpint : Message → ℤ × Message
get_mpint m = let (s, m') = get_binary m in (inflate_long s false, m')

unfoldable pub get_adaptive_int : Message → ℤ × Message
get_adaptive_int m =
    let (byte, m') = get_bytes 1 m in
    let (s, after_binary) = get_binary m' in
    let (more, after_word) = get_bytes 3 m' in
    if is_max_byte byte
    then (inflate_long s false, after_binary)
    else (pos (be_value (byte ++ more)), after_word)

abbrev pub add_bytes : Bytes → Message → Message
add_bytes b m = write b m

abbrev pub add_byte : Bytes → Message → Message
add_byte b m = write b m

unfoldable pub add_boolean : Bool → Message → Message
add_boolean b m = if b then write (1 ∷ []) m else write (0 ∷ []) m

unfoldable pub add_int : ℕ → Message → Result Message
add_int n m = do b ← pack 4 n; ok (write b m)

unfoldable pub add_int64 : ℕ → Message → Result Message
add_int64 n m = do b ← pack 8 n; ok (write b m)

unfoldable pub add_string : Bytes → Message → Result Message
add_string s m = do m' ← add_int (length s) m; ok (write s m')

unfoldable pub add_mpint : ℤ → Message → Result Message
add_mpint z m = add_string (deflate_long z true) m

abbrev pub big_int : ℕ
big_int = 0xff000000

-- `struct.pack(">I", n)` raises for a negative number too.
unfoldable pub add_adaptive_int : ℤ → Message → Result Message
add_adaptive_int (pos n) m =
    if leb big_int n
    then add_string (deflate_long (pos n) true) (write (0xff ∷ []) m)
    else add_int n m
add_adaptive_int (negsuc n) m = err struct_error

-- `",".join(l)`
unfoldable pub join_commas : List Bytes → Bytes
join_commas [] = []
join_commas (n ∷ []) = n
join_commas (n ∷ k ∷ ns) = let rest = join_commas (k ∷ ns) in n ++ (44 ∷ rest)

unfoldable pub add_list : List Bytes → Message → Result Message
add_list l m = add_string (join_commas l) m
