-- ===== src/Packetizer/Delivered.antt =====
-- What one end sends before the first keys, the other end reads.
use mathlib.Core.Path.{subst}
use paramiko.Base.{
  ℕ, ◌+◌, ◌^◌, ◌≤◌, ◌<◌, ◌≡◌, sym, ap, ◌∙◌, false, not, ◌&&◌, ◌||◌, ◌∷◌, ◌++◌, Bytes, length, none,
  ok, ◌>>=◌, arith,
}
use paramiko.Message.{of_content}
use paramiko.Packetizer.State.{Packetizer}
use paramiko.Packetizer.Sending.{
  Crypto, is_none, next_seqno, build_packet, compress_by, encrypted, authenticated, first_byte,
  pack_message, prepare,
}
use paramiko.Packetizer.Padding.{IsFramed, build_packet-IsFramed}
use paramiko.Packetizer.Receiving.{Decoder, exact, read_message}
use paramiko.Packetizer.Unpacked.{next_seqno_fits}
use paramiko.Packetizer.Unencrypted.{otherwise, neither, read_message-none}

module _ {E D C : Type 0} (crypto : Crypto E D C) where
  compress_by-none :
      (content : Bytes) (p : Packetizer E D C)
      → p.compress_engine_out ≡ none
      → compress_by crypto p.compress_engine_out content p ≡ (content, p)
  unfolding compress_by
  compress_by-none content p plain = ap (λ o. compress_by crypto o content p) plain

  encrypted-none :
      (packet : Bytes) (p : Packetizer E D C)
      → p.block_engine_out ≡ none
      → encrypted crypto p.block_engine_out packet p ≡ ok (packet, p)
  unfolding encrypted
  encrypted-none packet p engine = ap (λ o. encrypted crypto o packet p) engine

  authenticated_none :
      (packet out : Bytes) (p : Packetizer E D C)
      → p.block_engine_out ≡ none
      → authenticated crypto packet out p ≡ ok out
  unfolding authenticated
  authenticated_none packet out p engine =
      otherwise _ _ _ (ap (λ o. not (is_none o) && not p.aead_out) engine)

  -- Before the first keys, a message goes out as its packet.
  pack_message-none :
      (content packet : Bytes) (p : Packetizer E D C)
      → build_packet crypto content p ≡ ok packet
      → p.block_engine_out ≡ none
      → p.compress_engine_out ≡ none
      → p.sequence_number_out + 1 < 2 ^ 32
      → pack_message crypto content p
        ≡ ok (packet, record p { sequence_number_out = p.sequence_number_out + 1 })
  unfolding pack_message
  pack_message-none content packet p built engine plain fits =
      let number = λ (out : Bytes) (p' : Packetizer E D C).
        next_seqno p'.initial_kex_done p'.sequence_number_out
        >>= (λ next. ok (out, record p' { sequence_number_out = next })) in
      let sign = λ (packet : Bytes) (written : Bytes × Packetizer E D C).
        authenticated crypto packet written.0 written.1 >>= (λ out. number out written.1) in
      let encrypt = λ (packet : Bytes) (p' : Packetizer E D C).
        encrypted crypto p'.block_engine_out packet p' >>= sign packet in
      ap
        (λ (z : Bytes × Packetizer E D C).
          build_packet crypto z.0 z.1 >>= (λ packet. encrypt packet z.1))
        (compress_by-none content p plain)
      ∙ ap (λ r. r >>= (λ packet. encrypt packet p)) built
      ∙ ap (λ r. r >>= sign packet) (encrypted-none packet p engine)
      ∙ ap (λ r. r >>= (λ out. number out p)) (authenticated_none packet packet p engine)
      ∙ ap (λ r. r >>= (λ next. ok (packet, record p { sequence_number_out = next })))
          (next_seqno_fits p.initial_kex_done p.sequence_number_out fits)

  -- Before the first keys, with no cipher, no MAC and no compression at either end, what one end
  -- sends the other end reads: the packet of a message that is shorter than 2 ^ 31 bytes, at the
  -- front of the stream, gives back its type, its bytes and its number, takes no byte of what
  -- follows, and leaves the two ends at the same number. The block size, between 4 and 252, and the
  -- number are those of both ends, no new keys are asked for, the numbers do not wrap around, and
  -- `urandom` gives as many bytes as it is asked for.
  pub read_message-prepare :
      (decoder : Decoder E D C) (p q : Packetizer E D C) (cmd : ℕ) (body rest : Bytes)
      → ((n : ℕ) → length (crypto.urandom n) ≡ n)
      → 4 ≤ p.block_size_out
      → p.block_size_out ≤ 252
      → length body + 1 < 2 ^ 31
      → p.block_engine_out ≡ none
      → p.etm_out ≡ false
      → p.aead_out ≡ false
      → p.compress_engine_out ≡ none
      → q.block_engine_in ≡ none
      → q.etm_in ≡ false
      → q.aead_in ≡ false
      → q.mac_size_in ≡ 0
      → q.compress_engine_in ≡ none
      → q.need_rekey ≡ false
      → q.block_size_in ≡ p.block_size_out
      → q.sequence_number_in ≡ p.sequence_number_out
      → p.sequence_number_out + 1 < 2 ^ 32
      → (out : Bytes) × (p' : Packetizer E D C) × (q' : Packetizer E D C) × (prepare crypto
            (cmd ∷ body)
            p
          ≡ ok (out, p'))
        × (read_message decoder exact q (out ++ rest)
            ≡ ok (((cmd, of_content body), p.sequence_number_out), (q', rest)))
        × (q'.sequence_number_in ≡ p'.sequence_number_out)
  unfolding prepare first_byte
  read_message-prepare decoder p q cmd body rest random wide small short engine etm aead plain
        engine_in etm_in aead_in no_mac plain_in quiet same_size same_number fits =
      let (packet, built, framed) =
        build_packet-IsFramed crypto (cmd ∷ body) p random (omega arith) small (omega arith) in
      let clear = otherwise (p.etm_out || p.aead_out) 4 0 (neither p.etm_out p.aead_out etm aead) in
      let framed' : IsFramed (cmd ∷ body) q.block_size_in 0 packet =
        subst (λ b. IsFramed (cmd ∷ body) b 0 packet) (sym same_size)
          (subst (λ c. IsFramed (cmd ∷ body) p.block_size_out c packet) clear framed) in
      let (q', read, number) =
        read_message-none decoder cmd body packet rest q framed' (omega arith) engine_in etm_in
          aead_in no_mac plain_in quiet (omega arith) in
      (
        packet,
        _,
        q',
        pack_message-none (cmd ∷ body) packet p built engine plain fits,
        read ∙ ap (λ k. ok (((cmd, of_content body), k), (q', rest))) same_number,
        number ∙ ap (λ k. k + 1) same_number,
      )
