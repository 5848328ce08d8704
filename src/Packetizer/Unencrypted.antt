-- ===== src/Packetizer/Unencrypted.antt =====
-- `read_message` without a cipher, on a packet in its layout.
use paramiko.Base.{
  take_front, drop_front, ℕ, ◌+◌, ◌-◌, ◌%◌, ◌^◌, ◌≤◌, ◌<◌, ◌≡◌, refl, sym, ap, ◌∙◌, Bool-cases, inl,
  inr, ltb→lt, Bool, true, false, ◌||◌, ◌∷◌, ◌++◌, Bytes, length, take, drop, take_all, length-take,
  length-drop, length-append, take-append-drop, ltb, if◌then◌else◌, Option, none, some, ok, ◌>>=◌,
  arith,
}
use native.Mathlib.Nat.{mod-eq_of_lt, mod-eq-sub-mod}
use paramiko.Wire.{be_value}
use paramiko.Message.{of_content}
use paramiko.Packetizer.State.{Packetizer}
use paramiko.Packetizer.Padding.{IsFramed}
use paramiko.Packetizer.Sending.{first_byte}
use paramiko.Packetizer.Receiving.{
  Decoder, Step, exact, slice_payload, decipher, decrypted, read_etm, read_rest, accept_packet,
  read_message,
}
use paramiko.Packetizer.Unpacked.{exact_front, exact_all, framed_payload, accept_packet_lem}

pub otherwise {ℓ} : {A : Type ℓ} (b : Bool) (x y : A) → b ≡ false → (if b then x else y) ≡ y
otherwise true x y h = absurd (let z = h in cc)
otherwise false x y h = refl

pub neither : (a b : Bool) → a ≡ false → b ≡ false → (a || b) ≡ false
neither true b ha hb = ha
neither false b ha hb = hb

-- Whole blocks, at least one, and what is behind the first.
one_block : (n b : ℕ) → 0 < n → 0 < b → n % b ≡ 0 → b ≤ n
one_block n b some_ positive whole = elim (Bool-cases (ltb n b)) [
  | inl less ↦ absurd (omega (arith, mod-eq_of_lt (ltb→lt n b less), whole, some_))
  | inr enough ↦ ground arith
]

behind_block : (n b : ℕ) → b ≤ n → 0 < b → n % b ≡ 0 → (n - b) % b ≡ 0
behind_block n b small positive whole = sym (mod-eq-sub-mod small) ∙ whole

module _ {E D C : Type 0} (decoder : Decoder E D C) where
  decipher-none :
      (s : Bytes) (p : Packetizer E D C)
      → p.block_engine_in ≡ none
      → decipher decoder exact s p ≡ (s, p)
  unfolding decipher
  decipher-none s p engine =
      ap
        (λ (o : Option E). elim o [
          | none ↦ (s, p)
          | some e ↦
              let (out, e') = decoder.update s e in (out, record p { block_engine_in = some e' })
        ])
        engine

  decrypted-none :
      (s : Step E D C Bytes)
      → s.state.aead_in ≡ false
      → s.state.block_engine_in ≡ none
      → decrypted decoder exact s ≡ ok s
  unfolding decrypted
  decrypted-none s aead engine =
      otherwise s.state.aead_in _ _ aead
      ∙ (ap (λ (z : Bytes × Packetizer E D C). ok (record s { content = z.0; state = z.1 }))
          (decipher-none s.content s.state engine))

  -- The rest of a packet whose first block is there, without a cipher and a MAC.
  read_rest-none :
      (n : ℕ) (first behind rest : Bytes) (p : Packetizer E D C)
      → p.block_engine_in ≡ none
      → p.mac_size_in ≡ 0
      → n ≡ length (drop 4 first) + length behind
      → be_value (take 4 first) ≡ n
      → length behind % p.block_size_in ≡ 0
      → read_rest decoder exact
          (record { size = 0; content = first; state = p; input = behind ++ rest })
        ≡ ok (record { size = n; content = drop 4 first ++ behind; state = p; input = rest })
  unfolding read_rest
  read_rest-none n first behind rest p engine no_mac counted size blocked =
      let left : n - length (drop 4 first) ≡ length behind = omega arith in
      let enough : ltb n (length (drop 4 first)) ≡ false = ground arith in
      let want : n + 0 - length (drop 4 first) ≡ length behind = omega arith in
      rw
        (
          size,
          no_mac,
          left,
          enough,
          blocked,
          want,
          exact_all false (length behind) behind rest refl,
        )
        (ap
          (λ (z : Bytes × Packetizer E D C).
            ok (record { size = n; content = drop 4 first ++ z.0; state = z.1; input = rest }))
          (ap (λ l. decipher decoder exact l (record p { mac_size_in = 0 }))
              (take_all (length behind) behind (omega arith))
            ∙ decipher-none behind (record p { mac_size_in = 0 }) engine))

  -- Without a cipher: a packet in its layout, at the front of the stream, is read as its message.
  pub read_message-none :
      (cmd : ℕ) (body w rest : Bytes) (q : Packetizer E D C)
      → IsFramed (cmd ∷ body) q.block_size_in 0 w
      → 4 ≤ q.block_size_in
      → q.block_engine_in ≡ none
      → q.etm_in ≡ false
      → q.aead_in ≡ false
      → q.mac_size_in ≡ 0
      → q.compress_engine_in ≡ none
      → q.need_rekey ≡ false
      → q.sequence_number_in + 1 < 2 ^ 32
      → (q' : Packetizer E D C) × (read_message decoder exact q (w ++ rest)
          ≡ ok (((cmd, of_content body), q.sequence_number_in), (q', rest)))
        × (q'.sequence_number_in ≡ q.sequence_number_in + 1)
  unfolding read_message
  read_message-none cmd body w rest q framed wide engine etm aead no_mac plain quiet fits =
      let b = q.block_size_in in
      let n = be_value (take 4 w) in
      let blocked : length w % b ≡ 0 = ap (λ k. k % b) (omega arith) ∙ framed.blocked in
      let long = one_block (length w) b (omega (arith, framed.counted)) (omega arith) blocked in
      let front = take b w in
      let behind = drop b w in
      let front_size = length-take b w in
      let whole : drop 4 front ++ behind ≡ drop 4 w =
        sym (drop_front 4 front behind (omega (arith, front_size, long)))
        ∙ ap (drop 4) (take-append-drop b w) in
      let size : be_value (take 4 front) ≡ n = ap be_value (
        sym (take_front 4 front behind (omega (arith, front_size, long)))
        ∙ ap (take 4) (take-append-drop b w)) in
      let first : Step E D C Bytes = record {
        size = 0;
        content = front;
        state = q;
        input = behind ++ rest;
      } in
      let last : Step E D C Bytes = record {
        size = n;
        content = drop 4 front ++ behind;
        state = q;
        input = rest;
      } in
      let (padding, byte, payload) = framed_payload cmd b 0 body w framed in
      let (q', accepted, number) =
        accept_packet_lem decoder exact last padding cmd body (ap first_byte whole ∙ byte)
          (ap (λ l. slice_payload l n padding) whole ∙ payload) plain quiet fits in
      let to_rest = λ (s : Step E D C Bytes).
        (if q.etm_in || q.aead_in then ok s else read_rest decoder exact s)
        >>= accept_packet decoder exact in
      let go = λ (header : Bytes × Bytes).
        let first : Step E D C Bytes = record {
          size = 0;
          content = header.0;
          state = q;
          input = header.1;
        } in
        (if q.etm_in then read_etm decoder exact first else ok first)
        >>= (λ s. decrypted decoder exact s >>= to_rest) in
      let blocks = behind_block (length w) b long (omega arith) blocked in
      let reading =
        otherwise (q.etm_in || q.aead_in) (ok first) (read_rest decoder exact first)
          (neither q.etm_in q.aead_in etm aead)
        ∙ read_rest-none n front behind rest q engine no_mac
            (omega (
              arith,
              framed.counted,
              ap length whole,
              length-append (drop 4 front) behind,
              length-drop 4 w,
            ))
            size (ap (λ k. k % b) (length-drop b w) ∙ blocks) in
      (
        q',
        ap (λ r. r >>= go) (exact_front true b w rest long)
            ∙ ap (λ r. r >>= (λ s. decrypted decoder exact s >>= to_rest))
                (otherwise q.etm_in (read_etm decoder exact first) (ok first) etm)
            ∙ ap (λ r. r >>= to_rest) (decrypted-none first aead engine)
            ∙ ap (λ r. r >>= accept_packet decoder exact) reading
            ∙ accepted,
        number,
      )
