-- ===== src/Packetizer/Unpacked.antt =====
-- From a packet in its layout back to the message.
use paramiko.Base.{
  take_front, drop_front, ℕ, suc, zero, ◌+◌, ◌-◌, ◌*◌, ◌%◌, ◌^◌, ◌≤◌, ◌<◌, ◌≡◌, refl, sym, ap, ◌∙◌,
  Bool, true, false, ◌||◌, [], ◌∷◌, ◌++◌, Bytes, length, take, drop, take_all, drop_all, if_cases,
  length-take, length-append, leb, ◌==◌, Option, none, some, Result, ok, ◌>>=◌, arith,
}
use paramiko.Wire.{be_value, be_value_from}
use paramiko.Message.{of_content}
use paramiko.Packetizer.State.{Packetizer, trigger_rekey}
use paramiko.Packetizer.Sending.{next_seqno, rekey_packets, rekey_bytes}
use paramiko.Packetizer.Padding.{IsFramed}
use paramiko.Packetizer.Sending.{first_byte}
use paramiko.Packetizer.Receiving.{
  Decoder, Step, slice_payload, exact, count_received, decompressed, accept_payload, accept_packet,
}

drop-suc : (n : ℕ) (s : Bytes) → drop (suc n) s ≡ drop 1 (drop n s)
drop-suc zero s = refl
drop-suc (suc n) [] = refl
drop-suc (suc n) (b ∷ s) = drop-suc n s

le→leb : (a b : ℕ) → a ≤ b → leb a b ≡ true
le→leb a b h = ground arith

-- The reader's calls, on what it is given whole.
pub exact_front :
    (check_rekey : Bool) (n : ℕ) (s rest : Bytes)
    → n ≤ length s
    → exact check_rekey n (s ++ rest) ≡ ok (take n s, drop n s ++ rest)
unfolding exact
exact_front check_rekey n s rest h = rw (
  le→leb n (length (s ++ rest)) (omega (arith, length-append s rest)),
  take_front n s rest h,
  drop_front n s rest h,
)

pub exact_all :
    (check_rekey : Bool) (n : ℕ) (s rest : Bytes)
    → n ≡ length s
    → exact check_rekey n (s ++ rest) ≡ ok (s, rest)
exact_all check_rekey n s rest h =
    exact_front check_rekey n s rest (omega arith)
    ∙ ap (λ l. ok (l, drop n s ++ rest)) (take_all n s (omega arith))
    ∙ ap (λ l. ok (s, l ++ rest)) (drop_all n s (omega arith))

slice_inside : (x n : ℕ) (s : Bytes) → x < n → slice_payload (x ∷ s) n x ≡ take (n - 1 - x) s
unfolding slice_payload
slice_inside x n s h =
    let inside : leb x n ≡ true = ground arith in
    let size : n - x ≡ suc (n - 1 - x) = omega arith in rw (inside, size)

payload_behind :
    (n cmd : ℕ) (body t : Bytes)
    → 4 ≤ be_value (take 1 t)
    → take (n - 1 - be_value (take 1 t)) (drop 1 t) ≡ cmd ∷ body
    → (padding : ℕ) × (first_byte t ≡ ok padding) × (slice_payload t n padding ≡ cmd ∷ body)
unfolding first_byte be_value be_value_from
payload_behind n cmd body [] padded carried = absurd (omega arith)
payload_behind n cmd body (x ∷ s) padded carried =
    let same : 0 * 256 + x ≡ x = omega arith in
    let held : take (n - 1 - x) s ≡ cmd ∷ body =
      ap (λ k. take (n - 1 - k) s) (sym same) ∙ carried in
    let size = ap length held in
    let counted = length-take (n - 1 - x) s in (x, refl, slice_inside x n s (omega arith) ∙ held)

-- The bytes of a packet behind its length begin with the length of the padding, and hold the
-- payload.
pub framed_payload :
    (cmd bsize clear : ℕ) (body packet : Bytes)
    → IsFramed (cmd ∷ body) bsize clear packet
    → (padding : ℕ) × (first_byte (drop 4 packet) ≡ ok padding)
      × (slice_payload (drop 4 packet) (be_value (take 4 packet)) padding ≡ cmd ∷ body)
framed_payload cmd bsize clear body packet framed =
    let k = be_value (take 4 packet) - 1 - be_value (take 1 (drop 4 packet)) in
    payload_behind (be_value (take 4 packet)) cmd body (drop 4 packet) framed.padded
      (ap (take k) (sym (drop-suc 4 packet)) ∙ framed.carried)

-- What the counters become.
abbrev pub Counted : {E D C : Type 0} → Packetizer E D C → Result (Packetizer E D C) → Type 0
Counted {E} {D} {C} p r =
    (q : Packetizer E D C) × (r ≡ ok q) × (q.sequence_number_in ≡ p.sequence_number_in)

pub count_received_lem :
    {E D C : Type 0} (n : ℕ) (p : Packetizer E D C)
    → p.need_rekey ≡ false
    → Counted p (count_received n p)
unfolding count_received trigger_rekey
count_received_lem n p quiet =
    if_cases (Counted p) p.need_rekey _ _ (λ asked. absurd (let z = asked in cc))
      λ _.
        if_cases (Counted p)
          (leb rekey_packets (p.received_packets + 1) || leb rekey_bytes (p.received_bytes + n)) _ _
          (λ _. (_, refl, refl)) (λ _. (_, refl, refl))

pub next_seqno_fits : (done : Bool) (n : ℕ) → n + 1 < 2 ^ 32 → next_seqno done n ≡ ok (n + 1)
unfolding next_seqno
next_seqno_fits done n h =
    let same : (n + 1) % 4294967296 ≡ n + 1 = omega arith in
    let more : (n + 1 == 0) ≡ false = ground arith in rw (same, more)

module _ {E D C S : Type 0} (decoder : Decoder E D C)
    (read_all : Bool → ℕ → S → Result (Bytes × S)) where
  accept_payload_lem :
      (size cmd : ℕ) (body : Bytes) (p : Packetizer E D C) (input : S)
      → p.need_rekey ≡ false
      → p.sequence_number_in + 1 < 2 ^ 32
      → (q : Packetizer E D C) × (accept_payload decoder read_all size (cmd ∷ body, p) input
          ≡ ok (((cmd, of_content body), p.sequence_number_in), (q, input)))
        × (q.sequence_number_in ≡ p.sequence_number_in + 1)
  unfolding accept_payload first_byte
  accept_payload_lem size cmd body p input quiet fits =
      let p' = record p { sequence_number_in = p.sequence_number_in + 1 } in
      let (q, counted, number) = count_received_lem (size + p.mac_size_in + 4) p' quiet in
      let next = next_seqno_fits p.initial_kex_done p.sequence_number_in fits in
      (q, rw (next, counted), number)

  decompressed-none :
      (o : Option C) (payload : Bytes) (p : Packetizer E D C)
      → o ≡ none
      → decompressed decoder read_all o payload p ≡ (payload, p)
  unfolding decompressed
  decompressed-none none payload p same = refl
  decompressed-none (some c) payload p same = absurd (let z = same in cc)

  -- A packet that holds a payload becomes its message, without compression, when no new keys are
  -- asked for and the numbers do not wrap around.
  pub accept_packet_lem :
      (s : Step E D C S) (padding cmd : ℕ) (body : Bytes)
      → first_byte s.content ≡ ok padding
      → slice_payload s.content s.size padding ≡ cmd ∷ body
      → s.state.compress_engine_in ≡ none
      → s.state.need_rekey ≡ false
      → s.state.sequence_number_in + 1 < 2 ^ 32
      → (q : Packetizer E D C) × (accept_packet decoder read_all s
          ≡ ok (((cmd, of_content body), s.state.sequence_number_in), (q, s.input)))
        × (q.sequence_number_in ≡ s.state.sequence_number_in + 1)
  unfolding accept_packet
  accept_packet_lem s padding cmd body first payload plain quiet fits =
      let (q, accepted, number) = accept_payload_lem s.size cmd body s.state s.input quiet fits in
      let go = λ (padding : ℕ).
        accept_payload decoder read_all s.size
          (decompressed decoder read_all s.state.compress_engine_in
            (slice_payload s.content s.size padding) s.state)
          s.input in
      (
        q,
        ap (λ r. r >>= go) first
            ∙ ap (λ z. accept_payload decoder read_all s.size z s.input)
                (decompressed-none s.state.compress_engine_in _ s.state plain
                  ∙ ap (λ l. (l, s.state)) payload)
            ∙ accepted,
        number,
      )
