-- ===== src/Examples/Packets.antt =====
-- Packets of a packetizer with a toy cipher, and its switches.
use paramiko.Base.{
  ℕ, ◌≡◌, refl, true, false, List, [], ◌∷◌, Bytes, ◌++◌, length, replicate, length-replicate, none,
  some, ok, err, seqno_rollover, index_error, ◌<◌, arith, ◌^◌, ◌-◌, ◌+◌, ◌%◌, ◌⊎◌,
}
use paramiko.Wire.{pack, be_bytes, be_value, be_value_from}
use paramiko.Packetizer.State.{Packetizer, init}
use paramiko.Packetizer.Sending.{
  Crypto, padding_size, build_packet, inc_iv_counter, encrypted, encrypt_with, authenticated,
  compress_by, next_seqno, count_sent, first_byte, pack_message, prepare, send_message,
}
use paramiko.Packetizer.Padding.{IsFramed, build_packet-IsFramed}
use paramiko.Packetizer.Sequence.{prepare_lem}
use paramiko.Message.{of_content}
use paramiko.Packetizer.Reading.{Event, gives, times_out, got, after_timeout, read_on, read_all}
use paramiko.Packetizer.Stream.{IsExact, read_all-IsExact, read_all_returns}
use paramiko.Packetizer.Receiving.{Decoder, exact, read_message}
use paramiko.Packetizer.Delivered.{read_message-prepare}
use paramiko.Packetizer.Rekey.{Switch, outbound, inbound}

-- A cipher that changes nothing, a digest of two bytes, no compression.
abbrev toy : Crypto ℕ ℕ ℕ
toy = record {
  update = λ s e. (s, e);
  encrypt = λ e iv s aad. s;
  compute_hmac = λ key s d. 7 ∷ 9 ∷ [];
  compress = λ s c. (s, c);
  urandom = λ n. replicate n 1;
}

abbrev plain : Packetizer ℕ ℕ ℕ
plain = init

-- A payload of six bytes takes a padding of five: two blocks of eight in all.
build_packet_runs :
    build_packet toy (1 ∷ 2 ∷ 3 ∷ 4 ∷ 5 ∷ 6 ∷ []) plain
    ≡ ok (0 ∷ 0 ∷ 0 ∷ 12 ∷ 5 ∷ 1 ∷ 2 ∷ 3 ∷ 4 ∷ 5 ∷ 6 ∷ replicate 5 0)
unfolding build_packet padding_size pack be_bytes init
build_packet_runs = refl

build_packet-IsFramed_example :
    (packet : Bytes) × (build_packet toy (1 ∷ 2 ∷ 3 ∷ []) plain ≡ ok packet)
    × IsFramed (1 ∷ 2 ∷ 3 ∷ []) 8 0 packet
unfolding init
build_packet-IsFramed_example =
    build_packet-IsFramed toy (1 ∷ 2 ∷ 3 ∷ []) plain (λ n. length-replicate n 1) (omega arith)
      (omega arith) (omega arith)

abbrev asked : Packetizer ℕ ℕ ℕ
asked = record plain { need_rekey = true }

abbrev both : List (Switch ℕ ℕ)
both =
    outbound 0 16 (some 1) 2 [] true false false []
    ∷ outbound 0 16 (some 1) 2 [] true false false []
    ∷ inbound 0 16 (some 1) 2 [] false false []
    ∷ []

-- The sequence number wraps around after the first key exchange, and raises before.
last_number_runs :
    (next_seqno true (2 ^ 32 - 1) ≡ ok 0) × (next_seqno false (2 ^ 32 - 1) ≡ err seqno_rollover)
unfolding next_seqno
last_number_runs = (refl, refl)

-- Under AES-GCM, with the last number of the initial key exchange.
abbrev last_packet : Packetizer ℕ ℕ ℕ
last_packet = record plain {
  block_engine_out = some 0;
  aead_out = true;
  iv_out = replicate 12 0;
  sequence_number_out = 2 ^ 32 - 1;
}

abbrev three : Bytes
three = 1 ∷ 2 ∷ 3 ∷ []

prepare_lem_example :
    ((three ≡ []) × (prepare toy three last_packet ≡ err index_error))
    ⊎ ((0 < length three)
        × (((2 ^ 32 - 1 + 1 ≡ 2 ^ 32)
              × (false ≡ false)
              × (prepare toy three last_packet ≡ err seqno_rollover))
            ⊎ ((out : Bytes) × (q : Packetizer ℕ ℕ ℕ) × (prepare toy three last_packet
                  ≡ ok (out, q))
                × (q.sequence_number_out ≡ (2 ^ 32 - 1 + 1) % 2 ^ 32)
                × (false ≡ false → q.sequence_number_out ≡ 2 ^ 32 - 1 + 1))))
unfolding init be_value be_value_from compress_by
prepare_lem_example =
    prepare_lem toy three last_packet (λ n. length-replicate n 1) (omega arith) (omega arith)
      (omega arith) (omega arith) (omega arith)

send_message_runs :
    (prepare toy (1 ∷ 2 ∷ 3 ∷ []) last_packet ≡ err seqno_rollover)
    × (send_message toy (λ s. none) (1 ∷ 2 ∷ 3 ∷ []) plain
        ≡ ok (record plain { sequence_number_out = 1; sent_bytes = 16; sent_packets = 1 }))
unfolding init be_value be_value_from compress_by prepare pack_message first_byte send_message
    build_packet padding_size pack be_bytes encrypted encrypt_with inc_iv_counter authenticated
    next_seqno count_sent
send_message_runs = (refl, refl)

abbrev toy_decoder : Decoder ℕ ℕ ℕ
toy_decoder = record {
  update = λ s e. (s, e);
  decrypt = λ e iv s aad. ok s;
  compute_hmac = λ key s d. 7 ∷ 9 ∷ [];
  decompress = λ s c. (s, c);
}

-- The second of three packets is on its way, and the next bytes are there already.
abbrev third : Packetizer ℕ ℕ ℕ
third = record plain { sequence_number_out = 2; sequence_number_in = 2 }

read_message-prepare_example :
    (out : Bytes) × (p : Packetizer ℕ ℕ ℕ) × (q : Packetizer ℕ ℕ ℕ) × (prepare toy
        (20 ∷ 1 ∷ 2 ∷ [])
        third
      ≡ ok (out, p))
    × (read_message toy_decoder exact third (out ++ (0 ∷ 0 ∷ []))
        ≡ ok (((20, of_content (1 ∷ 2 ∷ [])), 2), (q, 0 ∷ 0 ∷ [])))
    × (q.sequence_number_in ≡ p.sequence_number_out)
unfolding init
read_message-prepare_example =
    read_message-prepare toy toy_decoder third third 20 (1 ∷ 2 ∷ []) (0 ∷ 0 ∷ [])
      (λ n. length-replicate n 1) (omega arith) (omega arith) (omega arith) refl refl refl refl refl
      refl refl refl refl refl refl refl (omega arith)

abbrev gift : ℕ → Event
gift k = record { recv = gives k; handshake_timed_out = false; closed = false; need_rekey = true }

-- A byte, nothing for a while, and then the rest; the first byte is from the banner's line.
abbrev arrivals : List Event
arrivals = gift 0 ∷ record (gift 0) { recv = times_out } ∷ gift 9 ∷ []

read_all-IsExact_example :
    let (r, left) = read_all true 4 (1 ∷ []) (2 ∷ 3 ∷ 4 ∷ 5 ∷ []) arrivals in
    IsExact true 3 (1 ∷ []) (2 ∷ 3 ∷ 4 ∷ 5 ∷ []) r × ((1 ∷ []) ++ left ≡ 1 ∷ [])
read_all-IsExact_example = read_all-IsExact true 4 (1 ∷ []) (2 ∷ 3 ∷ 4 ∷ 5 ∷ []) arrivals

arrivals_run :
    read_all true 4 (1 ∷ []) (2 ∷ 3 ∷ 4 ∷ 5 ∷ []) arrivals
    ≡ (got (1 ∷ 2 ∷ 3 ∷ 4 ∷ []) (5 ∷ []) [], [])
unfolding read_all read_on after_timeout
arrivals_run = refl

read_all_returns_example :
    (rest : Bytes) × (later : List Event) × ((read_all false 3
        (1 ∷ [])
        (2 ∷ 3 ∷ 4 ∷ [])
        (gift 0 ∷ gift 0 ∷ gift 7 ∷ [])).0
      ≡ got (1 ∷ 2 ∷ 3 ∷ []) rest later)
read_all_returns_example =
    read_all_returns false 3 (1 ∷ []) (2 ∷ 3 ∷ 4 ∷ []) (gift 0 ∷ gift 0 ∷ gift 7 ∷ [])
      ((refl, (0, refl)), ((refl, (0, refl)), ((refl, (7, refl)), tt))) (omega arith) (omega arith)
