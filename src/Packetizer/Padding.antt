-- ===== src/Packetizer/Padding.antt =====
-- The layout of a packet that `_build_packet` makes.
use paramiko.Base.{
  ℕ, ◌+◌, ◌-◌, ◌*◌, ◌/◌, ◌%◌, ◌^◌, ◌≤◌, ◌<◌, ◌≡◌, refl, sym, ap, ◌∙◌, Bool, true, false, ◌||◌, ◌++◌,
  Bytes, length, take, drop, replicate, length-append, length-replicate, take-append_left,
  drop-append_left, append_assoc, if◌then◌else◌, ok, arith,
}
use native.Mathlib.Nat.{mul-mod_left, div-add-mod', mod-lt}
use paramiko.Wire.{be_bytes, be_value}
use paramiko.Wire.Laws.{length-be_bytes, be_value-be_bytes, pack_fits}
use paramiko.Packetizer.State.{Packetizer}
use paramiko.Packetizer.Sending.{Crypto, is_none, padding_size, build_packet}

-- Filling up to the next multiple of the block size, by at least one byte.
fills_block : (n b : ℕ) → 0 < b → (n + (b - n % b)) % b ≡ 0
fills_block n b h =
    let whole = div-add-mod' n b in
    let small = mod-lt n h in
    let blocks : n + (b - n % b) ≡ (n / b + 1) * b = omega arith in
    rw blocks (mul-mod_left (n / b + 1) b)

-- The bounds of the padding, and what it fills.
pub padding_size_lem :
    (b addlen len : ℕ)
    → 0 < b
    → (4 ≤ padding_size b addlen len)
      × (padding_size b addlen len ≤ b + 3)
      × ((len + addlen + (padding_size b addlen len - 3)) % b ≡ 0)
unfolding padding_size
padding_size_lem b addlen len h =
    let small = mod-lt (len + addlen) h in
    let same : 3 + b - (len + addlen) % b - 3 ≡ b - (len + addlen) % b = omega arith in
    (omega arith, omega arith, rw same (fills_block (len + addlen) b h))

-- A packet as RFC 4253, section 6, lays it out: a length that counts what follows it, the length of
-- the padding, at least 4, the payload, and a size that the cipher's blocks divide. `clear` is how
-- much of the front is not encrypted.
pub record IsFramed (payload : Bytes) (bsize clear : ℕ) (packet : Bytes) : Type 0 where
  pub counted : be_value (take 4 packet) + 4 ≡ length packet
  pub padded : 4 ≤ be_value (take 1 (drop 4 packet))
  pub carried :
      take (be_value (take 4 packet) - 1 - be_value (take 1 (drop 4 packet))) (drop 5 packet)
      ≡ payload
  pub blocked : (length packet - clear) % bsize ≡ 0

-- The parts of a packet, read back.
framed :
    (payload filler : Bytes) (n bsize clear : ℕ)
    → length filler ≡ n
    → length payload + n + 1 < 2 ^ 32
    → 4 ≤ n
    → n < 256
    → (5 + length payload + n - clear) % bsize ≡ 0
    → IsFramed payload bsize clear
        ((be_bytes 4 (length payload + n + 1) ++ be_bytes 1 n) ++ (payload ++ filler))
framed payload filler n bsize clear same fits four byte whole =
    let size = be_bytes 4 (length payload + n + 1) in
    let count = be_bytes 1 n in
    let rest = payload ++ filler in
    let ls = length-be_bytes 4 (length payload + n + 1) in
    let lc = length-be_bytes 1 n in
    let vs = be_value-be_bytes 4 (length payload + n + 1) fits in
    let vc = be_value-be_bytes 1 n byte in
    let assoc = append_assoc size count rest in
    let first = ap (take 4) assoc ∙ take-append_left size (count ++ rest) 4 (sym ls) in
    let second =
      ap (λ l. take 1 (drop 4 l)) assoc
      ∙ ap (take 1) (drop-append_left size (count ++ rest) 4 (sym ls))
      ∙ take-append_left count rest 1 (sym lc) in
    let behind =
      drop-append_left (size ++ count) rest 5 (rw (length-append size count, ls, lc) refl) in
    let total : length ((size ++ count) ++ rest) ≡ 5 + length payload + n =
      rw
        (
          length-append (size ++ count) rest,
          length-append size count,
          length-append payload filler,
          ls,
          lc,
          same,
        )
        (omega arith) in
    record {
      counted = rw (first, vs, total) (omega arith);
      padded = rw (second, vc) four;
      carried =
          rw (first, second, vs, vc, behind) (take-append_left payload filler _ (omega arith));
      blocked = rw total whole;
    }

length-filler :
    (zeros : Bool) (n : ℕ) (random : Bytes)
    → length random ≡ n
    → length (if zeros then replicate n 0 else random) ≡ n
length-filler true n random h = length-replicate n 0
length-filler false n random h = h

whole_blocks :
    (clear : Bool) (len b : ℕ)
    → 0 < b
    → (5 + len + padding_size b (if clear then 4 else 8) len - (if clear then 4 else 0)) % b ≡ 0
whole_blocks true len b h =
    let (four, _, whole) = padding_size_lem b 4 len h in
    let same : 5 + len + padding_size b 4 len - 4 ≡ len + 4 + (padding_size b 4 len - 3) =
      omega arith in
    rw same whole
whole_blocks false len b h =
    let (four, _, whole) = padding_size_lem b 8 len h in
    let same : 5 + len + padding_size b 8 len - 0 ≡ len + 8 + (padding_size b 8 len - 3) =
      omega arith in
    rw same whole

module _ {E D C : Type 0} (crypto : Crypto E D C) where
  -- `_build_packet` succeeds for every payload shorter than 2 ^ 31 bytes, and makes a packet in the
  -- layout of RFC 4253, section 6. The cipher's blocks divide all of it, or all but the length where
  -- the length is not encrypted (encrypt-then-MAC and AES-GCM). The block size is between 1 and 252,
  -- and `urandom` gives as many bytes as it is asked for.
  pub build_packet-IsFramed :
      (payload : Bytes) (p : Packetizer E D C)
      → ((n : ℕ) → length (crypto.urandom n) ≡ n)
      → 0 < p.block_size_out
      → p.block_size_out ≤ 252
      → length payload < 2 ^ 31
      → (packet : Bytes) × (build_packet crypto payload p ≡ ok packet)
        × IsFramed payload p.block_size_out (if p.etm_out || p.aead_out then 4 else 0) packet
  unfolding build_packet
  build_packet-IsFramed payload p random positive small short =
      let clear = p.etm_out || p.aead_out in
      let addlen = if clear then 4 else 8 in
      let n = padding_size p.block_size_out addlen (length payload) in
      let (four, bounded, _) = padding_size_lem p.block_size_out addlen (length payload) positive in
      let zeros = p.sdctr_out || is_none p.block_engine_out in
      let filler = if zeros then replicate n 0 else crypto.urandom n in
      let counted : length payload + n + 1 < 2 ^ 32 = omega arith in
      let byte : n < 256 = omega arith in
      (
        (be_bytes 4 (length payload + n + 1) ++ be_bytes 1 n) ++ (payload ++ filler),
        rw (pack_fits 4 (length payload + n + 1) counted, pack_fits 1 n byte) refl,
        framed payload filler n p.block_size_out (if clear then 4 else 0)
            (length-filler zeros n (crypto.urandom n) (random n)) counted four byte
            (whole_blocks clear (length payload) p.block_size_out positive),
      )
