-- ===== src/Packetizer/Receiving.antt =====
-- `read_message`, over any way to read bytes.
use paramiko.Base.{
  ℕ, ◌+◌, ◌-◌, ◌%◌, ◌^◌, Bool, true, false, not, ◌||◌, ◌++◌, Bytes, length, take, drop, leb, ltb,
  ◌==◌, if◌then◌else◌, Option, none, some, eq_bytes, eof_error, mismatched_mac, invalid_blocking,
  rekey_ignored, attribute_error, Result, ok, err, ◌>>=◌,
}
use paramiko.Wire.{pack, be_value}
use paramiko.Message.{Message, of_content}
use paramiko.Packetizer.State.{Packetizer, trigger_rekey}
use paramiko.Packetizer.Sending.{first_byte, inc_iv_counter, next_seqno, rekey_packets, rekey_bytes}

-- The operations of the inbound engines. `decrypt` takes the vector, the data and the associated
-- data, and raises for a wrong tag.
pub record Decoder (E D C : Type 0) : Type 0 where
  pub update : Bytes → E → Bytes × E
  pub decrypt : E → Bytes → Bytes → Bytes → Result Bytes
  pub compute_hmac : Bytes → Bytes → Option D → Bytes
  pub decompress : Bytes → C → Bytes × C

abbrev pub rekey_packets_overflow_max : ℕ
rekey_packets_overflow_max = 2 ^ 29

abbrev pub rekey_bytes_overflow_max : ℕ
rekey_bytes_overflow_max = 2 ^ 29

-- `packet[1 : end]` where `end` is `packet_size - padding`; an end below zero counts from behind.
unfoldable pub slice_payload : Bytes → ℕ → ℕ → Bytes
slice_payload packet packet_size padding = drop 1 (
    take
      (if leb padding packet_size
        then packet_size - padding
        else length packet - (padding - packet_size))
      packet)

-- A reader of a stream that is all there.
unfoldable pub exact : Bool → ℕ → Bytes → Result (Bytes × Bytes)
exact check_rekey n stream =
    if leb n (length stream) then ok (take n stream, drop n stream) else err eof_error

-- What the reading keeps: `size` is `packet_size`, `content` is `header` or `packet`.
pub record Step (E D C S : Type 0) : Type 0 where
  pub size : ℕ
  pub content : Bytes
  pub state : Packetizer E D C
  pub input : S

module _ {E D C : Type 0} where
  -- The counters, and the request for new keys, or the end of the patience with one.
  unfoldable pub count_received : ℕ → Packetizer E D C → Result (Packetizer E D C)
  count_received raw_packet_size p =
      let p' = record p {
        received_bytes = p.received_bytes + raw_packet_size;
        received_packets = p.received_packets + 1;
      } in
      let bytes_over = p.received_bytes_overflow + raw_packet_size in
      let packets_over = p.received_packets_overflow + 1 in
      if p.need_rekey
      then if leb rekey_packets_overflow_max packets_over || leb rekey_bytes_overflow_max bytes_over
        then err rekey_ignored
        else ok (record p' {
          received_bytes_overflow = bytes_over;
          received_packets_overflow = packets_over;
        })
      else if leb rekey_packets p'.received_packets || leb rekey_bytes p'.received_bytes
      then ok
          (trigger_rekey (record p' { received_bytes_overflow = 0; received_packets_overflow = 0 }))
      else ok p'

module _ {E D C S : Type 0} (decoder : Decoder E D C)
    (read_all : Bool → ℕ → S → Result (Bytes × S)) where
  -- The packet, if its MAC is right; `constant_time_bytes_eq` is the equality of the bytes.
  unfoldable pub verify_mac : Bytes → ℕ → Bytes → Packetizer E D C → Result Bytes
  verify_mac mac packet_size packet p = do
    number ← pack 4 p.sequence_number_in
    size ← pack 4 packet_size
    (if eq_bytes
          (take p.mac_size_in
            (decoder.compute_hmac p.mac_key_in ((number ++ size) ++ packet) p.mac_engine_in))
          mac
        then ok packet
        else err mismatched_mac)

  -- Encrypt-then-MAC: the rest of the packet and its MAC, before anything is decrypted. A number of
  -- bytes below zero reads nothing.
  unfoldable pub read_etm : Step E D C S → Result (Step E D C S)
  read_etm s =
      let p = s.state in
      let packet_size = be_value (take 4 s.content) in
      (do
        rest ← read_all false (packet_size + 4 - p.block_size_in) s.input
        mac ← read_all false p.mac_size_in rest.1
        packet ← verify_mac mac.0 packet_size (drop 4 s.content ++ rest.0) p
        ok (record { size = packet_size; content = packet; state = p; input = mac.1 }))

  -- AES-GCM: the length is the associated data.
  unfoldable pub open_gcm : E → Step E D C S → Result (Step E D C S)
  open_gcm e s =
      let p = s.state in
      let packet_size = be_value (take 4 s.content) in
      (do
        rest ← read_all false (packet_size + 4 + p.mac_size_in - p.block_size_in) s.input
        header ← decoder.decrypt e p.iv_in (drop 4 s.content ++ rest.0) (take 4 s.content)
        iv ← inc_iv_counter p.iv_in
        ok (record {
          size = packet_size;
          content = header;
          state = record p { iv_in = iv };
          input = rest.1;
        }))

  -- The engine's stream cipher, on the bytes at hand.
  unfoldable pub decipher : Bytes → Packetizer E D C → Bytes × Packetizer E D C
  decipher s p = elim p.block_engine_in [
    | none ↦ (s, p)
    | some e ↦ let (out, e') = decoder.update s e in (out, record p { block_engine_in = some e' })
  ]

  -- Otherwise: the rest of the packet, whose first block is `content`, and its MAC. A length that does
  -- not reach the end of the first block never fills whole blocks.
  unfoldable pub read_rest : Step E D C S → Result (Step E D C S)
  read_rest s =
      let p = s.state in
      let packet_size = be_value (take 4 s.content) in
      let leftover = drop 4 s.content in
      let behind = packet_size - length leftover in
      if ltb packet_size (length leftover) || not (behind % p.block_size_in == 0)
      then err invalid_blocking
      else (do
        buf ← read_all false (packet_size + p.mac_size_in - length leftover) s.input
        (let (out, p') = decipher (take behind buf.0) p in
            (do
              packet ←
                  if ltb 0 p.mac_size_in
                  then verify_mac (take p.mac_size_in (drop behind buf.0)) packet_size
                      (leftover ++ out) p'
                  else ok (leftover ++ out)
              ok (record { size = packet_size; content = packet; state = p'; input = buf.1 }))))

  unfoldable pub decrypted : Step E D C S → Result (Step E D C S)
  decrypted s =
      let p = s.state in
      if p.aead_in
      then elim p.block_engine_in [ none ↦ err attribute_error | some e ↦ open_gcm e s ]
      else (let (out, p') = decipher s.content p in ok (record s { content = out; state = p' }))

  unfoldable pub decompressed : Option C → Bytes → Packetizer E D C → Bytes × Packetizer E D C
  decompressed none payload p = (payload, p)
  decompressed (some c) payload p =
      let (out, c') = decoder.decompress payload c in
      (out, record p { compress_engine_in = some c' })

  -- From the payload to the message, with its number.
  unfoldable pub accept_payload :
      ℕ → Bytes × Packetizer E D C → S → Result (((ℕ × Message) × ℕ) × (Packetizer E D C × S))
  accept_payload packet_size (payload, p) input = do
    next ← next_seqno p.initial_kex_done p.sequence_number_in
    p' ← count_received (packet_size + p.mac_size_in + 4) (record p { sequence_number_in = next })
    cmd ← first_byte payload
    ok (((cmd, of_content (drop 1 payload)), p.sequence_number_in), (p', input))

  unfoldable pub accept_packet :
      Step E D C S → Result (((ℕ × Message) × ℕ) × (Packetizer E D C × S))
  accept_packet s = do
    padding ← first_byte s.content
    accept_payload s.size
        (decompressed s.state.compress_engine_in (slice_payload s.content s.size padding) s.state)
        s.input

  -- `read_message`: the type, the message, its `seqno`, and what is kept.
  unfoldable pub read_message :
      Packetizer E D C → S → Result (((ℕ × Message) × ℕ) × (Packetizer E D C × S))
  read_message p input = do
    header ← read_all true p.block_size_in input
    (let first : Step E D C S = record {
      size = 0;
      content = header.0;
      state = p;
      input = header.1;
    } in
        (do
          checked ← if p.etm_in then read_etm first else ok first
          plain ← decrypted checked
          packet ← if p.etm_in || p.aead_in then ok plain else read_rest plain
          accept_packet packet))
