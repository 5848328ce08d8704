-- ===== src/Packetizer/Sequence.antt =====
-- The sequence numbers of the packets that are sent.
use paramiko.Base.{
  ℕ, ◌+◌, ◌%◌, ◌^◌, ◌≤◌, ◌<◌, ◌≡◌, refl, sym, ap, ◌∙◌, ◌⊎◌, inl, inr, Bool, true, false, not, ◌&&◌,
  ◌++◌, Bytes, lt→ltb, length, drop, Option, none, some, Bool-cases, if◌then◌else◌, Result, ok, err,
  ◌>>=◌, seqno_rollover, index_error, [], ◌∷◌, arith, ◌==◌, take,
}
use paramiko.Wire.{be_value, be_bytes}
use paramiko.Wire.Laws.{pack_fits}
use paramiko.Packetizer.State.{Packetizer}
use paramiko.Packetizer.Sending.{
  Crypto, is_none, inc_iv_counter, compress_by, encrypt_with, encrypted, authenticated, next_seqno,
  first_byte, pack_message, prepare,
}
use paramiko.Packetizer.Padding.{build_packet-IsFramed}

-- The counter of the vector has a next value.
abbrev pub HasNextIv : Bytes → Type 0
HasNextIv iv = be_value (drop 4 iv) + 1 < 256 ^ 8

module _ {E D C : Type 0} (crypto : Crypto E D C) where
  -- What the steps before the sequence number keep.
  abbrev pub Keeps : Packetizer E D C → Packetizer E D C → Type 0
  Keeps p q =
      (q.sequence_number_out ≡ p.sequence_number_out)
      × (q.initial_kex_done ≡ p.initial_kex_done)
      × (q.block_size_out ≡ p.block_size_out)
      × (q.iv_out ≡ p.iv_out)

  compress_by-Keeps :
      (c : Option C) (content : Bytes) (p : Packetizer E D C)
      → Keeps p (compress_by crypto c content p).1
  unfolding compress_by
  compress_by-Keeps none content p = (refl, refl, refl, refl)
  compress_by-Keeps (some c) content p = (refl, refl, refl, refl)

  abbrev Encrypts : Packetizer E D C → Result (Bytes × Packetizer E D C) → Type 0
  Encrypts p r =
      (out : Bytes) × (q : Packetizer E D C) × (r ≡ ok (out, q))
      × (q.sequence_number_out ≡ p.sequence_number_out)
      × (q.initial_kex_done ≡ p.initial_kex_done)

  inc_iv_counter_fits : (iv : Bytes) → HasNextIv iv → (next : Bytes) × (inc_iv_counter iv ≡ ok next)
  unfolding inc_iv_counter
  inc_iv_counter_fits iv h = (
    take 4 iv ++ be_bytes 8 (be_value (drop 4 iv) + 1),
    rw (lt→ltb (be_value (drop 4 iv) + 1) (256 ^ 8) h) refl,
  )

  encrypt_with-Encrypts :
      (e : E) (etm aead : Bool) (packet : Bytes) (p : Packetizer E D C)
      → HasNextIv p.iv_out
      → Encrypts p (encrypt_with crypto e etm aead packet p)
  unfolding encrypt_with
  encrypt_with-Encrypts e true aead packet p h = (_, _, refl, refl, refl)
  encrypt_with-Encrypts e false true packet p h =
      let (next, fits) = inc_iv_counter_fits p.iv_out h in
      (
        take 4 packet ++ crypto.encrypt e p.iv_out (drop 4 packet) (take 4 packet),
        record p { iv_out = next },
        rw fits refl,
        refl,
        refl,
      )
  encrypt_with-Encrypts e false false packet p h = (_, _, refl, refl, refl)

  encrypted-Encrypts :
      (e : Option E) (packet : Bytes) (p : Packetizer E D C)
      → HasNextIv p.iv_out
      → Encrypts p (encrypted crypto e packet p)
  unfolding encrypted
  encrypted-Encrypts none packet p h = (packet, p, refl, refl, refl)
  encrypted-Encrypts (some e) packet p h = encrypt_with-Encrypts e p.etm_out p.aead_out packet p h

  authenticated_ok :
      (packet out : Bytes) (p : Packetizer E D C)
      → p.sequence_number_out < 2 ^ 32
      → (all : Bytes) × (authenticated crypto packet out p ≡ ok all)
  unfolding authenticated
  authenticated_ok packet out p h =
      let packed = pack_fits 4 p.sequence_number_out h in
      elim (Bool-cases (not (is_none p.block_engine_out) && not p.aead_out)) [
        | inl e ↦
            let payload = if p.etm_out then out else packet in
            let signed = be_bytes 4 p.sequence_number_out ++ payload in
            (
              out
                  ++ take p.mac_size_out
                      (crypto.compute_hmac p.mac_key_out signed p.mac_engine_out),
              rw (e, packed) refl,
            )
        | inr e ↦ (out, rw e refl)
      ]

-- The number after `n`, or the refusal.
next_seqno_lem :
    (done : Bool) (n : ℕ)
    → n < 2 ^ 32
    → ((n + 1 ≡ 2 ^ 32) × (done ≡ false) × (next_seqno done n ≡ err seqno_rollover))
      ⊎ ((next_seqno done n ≡ ok ((n + 1) % 2 ^ 32)) × (done ≡ false → (n + 1) % 2 ^ 32 ≡ n + 1))
unfolding next_seqno
next_seqno_lem true n h = inr (ground arith, λ never. absurd (ground arith))
next_seqno_lem false n h = elim (Bool-cases ((n + 1) % 2 ^ 32 == 0)) [
  | inl e ↦ inl (ground arith, refl, rw e refl)
  | inr e ↦ inr (rw e refl, λ _. ground arith)
]

module _ {E D C : Type 0} (crypto : Crypto E D C) where
  -- The outcome of a send from that of its last step.
  abbrev Numbered : Packetizer E D C → Result (Bytes × Packetizer E D C) → Type 0
  Numbered p r =
      ((p.sequence_number_out + 1 ≡ 2 ^ 32)
        × (p.initial_kex_done ≡ false)
        × (r ≡ err seqno_rollover))
      ⊎ ((out : Bytes) × (q : Packetizer E D C) × (r ≡ ok (out, q))
          × (q.sequence_number_out ≡ (p.sequence_number_out + 1) % 2 ^ 32)
          × (p.initial_kex_done ≡ false → q.sequence_number_out ≡ p.sequence_number_out + 1))

  finish :
      (r : Result (Bytes × Packetizer E D C)) (all : Bytes) (p q : Packetizer E D C)
      → q.sequence_number_out ≡ p.sequence_number_out
      → q.initial_kex_done ≡ p.initial_kex_done
      → p.sequence_number_out < 2 ^ 32
      → r ≡ (do
        next ← next_seqno q.initial_kex_done q.sequence_number_out
        ok (all, record q { sequence_number_out = next }))
      → Numbered p r
  finish r all p q seq done fits same =
      elim (next_seqno_lem q.initial_kex_done q.sequence_number_out (rw seq fits)) [
        | inl (last, early, refused) ↦
            inl (ap (λ n. n + 1) (sym seq) ∙ last, sym done ∙ early, same ∙ rw refused refl)
        | inr (next, exact) ↦ inr (
          all,
          record q { sequence_number_out = (q.sequence_number_out + 1) % 2 ^ 32 },
          same ∙ rw next refl,
          ap (λ n. (n + 1) % 2 ^ 32) seq,
          λ h. exact (done ∙ h) ∙ ap (λ n. n + 1) seq,
        )
      ]

  pack_message_lem :
      (content : Bytes) (p : Packetizer E D C)
      → ((n : ℕ) → length (crypto.urandom n) ≡ n)
      → p.sequence_number_out < 2 ^ 32
      → HasNextIv p.iv_out
      → 0 < p.block_size_out
      → p.block_size_out ≤ 252
      → length (compress_by crypto p.compress_engine_out content p).0 < 2 ^ 31
      → ((p.sequence_number_out + 1 ≡ 2 ^ 32)
          × (p.initial_kex_done ≡ false)
          × (pack_message crypto content p ≡ err seqno_rollover))
        ⊎ ((out : Bytes) × (q : Packetizer E D C) × (pack_message crypto content p ≡ ok (out, q))
            × (q.sequence_number_out ≡ (p.sequence_number_out + 1) % 2 ^ 32)
            × (p.initial_kex_done ≡ false → q.sequence_number_out ≡ p.sequence_number_out + 1))
  unfolding pack_message
  pack_message_lem content p random fits fresh positive small short =
      let (payload, p1) = compress_by crypto p.compress_engine_out content p in
      let (seq, done, size, vector) = compress_by-Keeps crypto p.compress_engine_out content p in
      let (packet, built, _) =
        build_packet-IsFramed crypto payload p1 random (rw size positive) (rw size small) short in
      let (body, p2, sealed, seq', done') =
        encrypted-Encrypts crypto p1.block_engine_out packet p1 (rw vector fresh) in
      let (all, signed) = authenticated_ok crypto packet body p2 (rw (seq', seq) fits) in
      finish (pack_message crypto content p) all p p2 (seq' ∙ seq) (done' ∙ done) fits
        (rw (built, sealed, signed) refl)

  -- Whatever the packetizer encrypts and compresses with, a message that is not empty is packed for
  -- the socket, and the sequence number goes on by one; only the last number of the initial key
  -- exchange is refused with an exception, so that within the initial key exchange no number is used
  -- twice. An empty message raises an IndexError, whatever the number. The number fits in 32 bits, the
  -- vector's counter has a next value, the block size is between 1 and 252, the compressed message is
  -- shorter than 2 ^ 31 bytes, and `urandom` gives what it is asked for.
  pub prepare_lem :
      (content : Bytes) (p : Packetizer E D C)
      → ((n : ℕ) → length (crypto.urandom n) ≡ n)
      → p.sequence_number_out < 2 ^ 32
      → HasNextIv p.iv_out
      → 0 < p.block_size_out
      → p.block_size_out ≤ 252
      → length (compress_by crypto p.compress_engine_out content p).0 < 2 ^ 31
      → ((content ≡ []) × (prepare crypto content p ≡ err index_error))
        ⊎ ((0 < length content)
            × (((p.sequence_number_out + 1 ≡ 2 ^ 32)
                  × (p.initial_kex_done ≡ false)
                  × (prepare crypto content p ≡ err seqno_rollover))
                ⊎ ((out : Bytes) × (q : Packetizer E D C) × (prepare crypto content p ≡ ok (out, q))
                    × (q.sequence_number_out ≡ (p.sequence_number_out + 1) % 2 ^ 32)
                    × (p.initial_kex_done ≡ false
                        → q.sequence_number_out ≡ p.sequence_number_out + 1))))
  unfolding prepare first_byte
  prepare_lem [] p random fits fresh positive small short = inl (refl, refl)
  prepare_lem (cmd ∷ body) p random fits fresh positive small short =
      inr (omega arith, pack_message_lem (cmd ∷ body) p random fits fresh positive small short)
