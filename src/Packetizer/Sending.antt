-- ===== src/Packetizer/Sending.antt =====
-- `_build_packet`, `_inc_iv_counter` and `send_message`.
use paramiko.Base.{
  ℕ, ◌+◌, ◌-◌, ◌%◌, ◌^◌, Bool, true, false, not, ◌&&◌, ◌||◌, [], ◌∷◌, ◌++◌, Bytes, length, take,
  drop, replicate, leb, ltb, ◌==◌, if◌then◌else◌, Option, none, some, Error, overflow_error,
  index_error, seqno_rollover, Result, ok, err, ◌>>=◌,
}
use paramiko.Wire.{pack, be_bytes, be_value}
use paramiko.Packetizer.State.{Packetizer, trigger_rekey}

-- `3 + bsize - ((len(payload) + addlen) % bsize)`
unfoldable pub padding_size : ℕ → ℕ → ℕ → ℕ
padding_size bsize addlen len = 3 + bsize - (len + addlen) % bsize

abbrev pub is_none {ℓ} : {A : Type ℓ} → Option A → Bool
is_none none = true
is_none (some _) = false

-- `(int.from_bytes(iv[4:], "big") + 1).to_bytes(8, "big")`, behind the first four bytes.
unfoldable pub inc_iv_counter : Bytes → Result Bytes
inc_iv_counter iv =
    let next = be_value (drop 4 iv) + 1 in
    if ltb next (256 ^ 8) then ok (take 4 iv ++ be_bytes 8 next) else err overflow_error

abbrev pub rekey_packets : ℕ
rekey_packets = 2 ^ 29

abbrev pub rekey_bytes : ℕ
rekey_bytes = 2 ^ 29

-- `byte_ord(s[0])`
unfoldable pub first_byte : Bytes → Result ℕ
first_byte [] = err index_error
first_byte (b ∷ s) = ok b

-- The operations that other packages provide. `encrypt` takes the vector, the data and the
-- associated data; `urandom` gives random bytes.
pub record Crypto (E D C : Type 0) : Type 0 where
  pub update : Bytes → E → Bytes × E
  pub encrypt : E → Bytes → Bytes → Bytes → Bytes
  pub compute_hmac : Bytes → Bytes → Option D → Bytes
  pub compress : Bytes → C → Bytes × C
  pub urandom : ℕ → Bytes

-- `next_seq`, unless it rolls over during the initial key exchange.
unfoldable pub next_seqno : Bool → ℕ → Result ℕ
next_seqno done n =
    let next = (n + 1) % 2 ^ 32 in if next == 0 && not done then err seqno_rollover else ok next

module _ {E D C : Type 0} where
  -- The counters after `write_all`, and the request for new keys.
  unfoldable pub count_sent : ℕ → Packetizer E D C → Packetizer E D C
  count_sent n p =
      let p' = record p { sent_bytes = p.sent_bytes + n; sent_packets = p.sent_packets + 1 } in
      let sent_too_much = leb rekey_packets p'.sent_packets || leb rekey_bytes p'.sent_bytes in
      if sent_too_much && not p'.need_rekey
      then trigger_rekey (record p' { received_bytes_overflow = 0; received_packets_overflow = 0 })
      else p'

module _ {E D C : Type 0} (crypto : Crypto E D C) where
  unfoldable pub build_packet : Bytes → Packetizer E D C → Result Bytes
  build_packet payload p =
      let addlen = if p.etm_out || p.aead_out then 4 else 8 in
      let padding = padding_size p.block_size_out addlen (length payload) in
      let filler =
        if p.sdctr_out || is_none p.block_engine_out
        then replicate padding 0
        else crypto.urandom padding in
      (do
        size ← pack 4 (length payload + padding + 1)
        count ← pack 1 padding
        ok ((size ++ count) ++ (payload ++ filler)))

  -- The compressed payload, and the compressor after it.
  unfoldable pub compress_by : Option C → Bytes → Packetizer E D C → Bytes × Packetizer E D C
  compress_by none content p = (content, p)
  compress_by (some c) content p =
      let (out, c') = crypto.compress content c in (out, record p { compress_engine_out = some c' })

  -- What goes out for the packet before the MAC, and the engine or the vector after it: for
  -- encrypt-then-MAC, for AES-GCM, and otherwise.
  unfoldable pub encrypt_with :
      E → Bool → Bool → Bytes → Packetizer E D C → Result (Bytes × Packetizer E D C)
  encrypt_with e true aead packet p =
      let (rest, e') = crypto.update (drop 4 packet) e in
      ok (take 4 packet ++ rest, record p { block_engine_out = some e' })
  encrypt_with e false true packet p = do
    iv ← inc_iv_counter p.iv_out
    ok (
      take 4 packet ++ crypto.encrypt e p.iv_out (drop 4 packet) (take 4 packet),
      record p { iv_out = iv },
    )
  encrypt_with e false false packet p =
      let (out, e') = crypto.update packet e in ok (out, record p { block_engine_out = some e' })

  unfoldable pub encrypted : Option E → Bytes → Packetizer E D C → Result (Bytes × Packetizer E D C)
  encrypted none packet p = ok (packet, p)
  encrypted (some e) packet p = encrypt_with e p.etm_out p.aead_out packet p

  -- The MAC behind it, except under AES-GCM.
  unfoldable pub authenticated : Bytes → Bytes → Packetizer E D C → Result Bytes
  authenticated packet out p =
      let payload = if p.etm_out then out else packet in
      let signed = (do
        packed ← pack 4 p.sequence_number_out
        ok (
            out
            ++ take p.mac_size_out
                (crypto.compute_hmac p.mac_key_out (packed ++ payload) p.mac_engine_out))) in
      if not (is_none p.block_engine_out) && not p.aead_out then signed else ok out

  -- `send_message` behind the lock, up to the write: the bytes for the socket, or the exception. The
  -- state after an exception is not described.
  unfoldable pub pack_message : Bytes → Packetizer E D C → Result (Bytes × Packetizer E D C)
  pack_message content p =
      let (payload, p1) = compress_by p.compress_engine_out content p in
      (do
        packet ← build_packet payload p1
        written ← encrypted p1.block_engine_out packet p1
        out ← authenticated packet written.0 written.1
        next ← next_seqno written.1.initial_kex_done written.1.sequence_number_out
        ok (out, record (written.1) { sequence_number_out = next }))

  -- The same from the start: the type of the message is only logged, but an empty message has none.
  unfoldable pub prepare : Bytes → Packetizer E D C → Result (Bytes × Packetizer E D C)
  prepare content p = first_byte content >>= λ cmd. pack_message content p

  -- `send_message`: `write_all` is the socket, which takes the bytes or raises.
  unfoldable pub send_message :
      (Bytes → Option Error) → Bytes → Packetizer E D C → Result (Packetizer E D C)
  send_message write_all content p = do
    ready ← prepare content p
    elim (write_all ready.0) [ none ↦ ok (count_sent (length ready.0) ready.1) | some e ↦ err e ]
