-- ===== src/Packetizer/State.antt =====
-- The state of a packetizer, the switch of ciphers, and the timer of the handshake.
use paramiko.Base.{
  ℕ, ◌+◌, ◌/◌, ◌%◌, Bool, true, false, not, [], Bytes, ◌==◌, if◌then◌else◌, Option, none, some,
}

-- The engines are objects of other packages: `E` is the state of a cipher, `D` a digest, `C` the
-- state of a compressor. `timer` says whether a timer was started.
pub record Packetizer (E D C : Type 0) : Type 0 where
  pub need_rekey : Bool
  pub init_count : ℕ
  pub initial_kex_done : Bool
  pub sent_bytes : ℕ
  pub sent_packets : ℕ
  pub received_bytes : ℕ
  pub received_packets : ℕ
  pub received_bytes_overflow : ℕ
  pub received_packets_overflow : ℕ
  pub block_size_out : ℕ
  pub block_size_in : ℕ
  pub mac_size_out : ℕ
  pub mac_size_in : ℕ
  pub block_engine_out : Option E
  pub block_engine_in : Option E
  pub sdctr_out : Bool
  pub mac_engine_out : Option D
  pub mac_engine_in : Option D
  pub mac_key_out : Bytes
  pub mac_key_in : Bytes
  pub compress_engine_out : Option C
  pub compress_engine_in : Option C
  pub sequence_number_out : ℕ
  pub sequence_number_in : ℕ
  pub etm_out : Bool
  pub etm_in : Bool
  pub aead_out : Bool
  pub aead_in : Bool
  pub iv_out : Bytes
  pub iv_in : Bytes
  pub timer : Bool
  pub handshake_complete : Bool
  pub timer_expired : Bool

-- `n | 1` and `n | 2`
abbrev pub or_one : ℕ → ℕ
or_one n = if n % 2 == 0 then n + 1 else n

abbrev pub or_two : ℕ → ℕ
or_two n = if n / 2 % 2 == 0 then n + 2 else n

module _ {E D C : Type 0} where
  -- `Packetizer.__init__`; an initialization vector that is `None` is empty.
  unfoldable pub init : Packetizer E D C
  init = record {
    need_rekey = false;
    init_count = 0;
    initial_kex_done = false;
    sent_bytes = 0;
    sent_packets = 0;
    received_bytes = 0;
    received_packets = 0;
    received_bytes_overflow = 0;
    received_packets_overflow = 0;
    block_size_out = 8;
    block_size_in = 8;
    mac_size_out = 0;
    mac_size_in = 0;
    block_engine_out = none;
    block_engine_in = none;
    sdctr_out = false;
    mac_engine_out = none;
    mac_engine_in = none;
    mac_key_out = [];
    mac_key_in = [];
    compress_engine_out = none;
    compress_engine_in = none;
    sequence_number_out = 0;
    sequence_number_in = 0;
    etm_out = false;
    etm_in = false;
    aead_out = false;
    aead_in = false;
    iv_out = [];
    iv_in = [];
    timer = false;
    handshake_complete = false;
    timer_expired = false;
  }

  abbrev pub reset_seqno_out : Packetizer E D C → Packetizer E D C
  reset_seqno_out p = record p { sequence_number_out = 0 }

  abbrev pub reset_seqno_in : Packetizer E D C → Packetizer E D C
  reset_seqno_in p = record p { sequence_number_in = 0 }

  -- The end of both switches: the flag is cleared when the reset has happened in both directions.
  unfoldable pub count_switch : ℕ → Packetizer E D C → Packetizer E D C
  count_switch count p =
      if count == 3
      then record p { init_count = 0; need_rekey = false }
      else record p { init_count = count }

  unfoldable pub set_outbound_cipher :
      E
      → ℕ
      → Option D
      → ℕ
      → Bytes
      → Bool
      → Bool
      → Bool
      → Bytes
      → Packetizer E D C
      → Packetizer E D C
  set_outbound_cipher block_engine block_size mac_engine mac_size mac_key sdctr etm aead iv p =
      count_switch (or_one p.init_count) (record p {
        block_engine_out = some block_engine;
        sdctr_out = sdctr;
        block_size_out = block_size;
        mac_engine_out = mac_engine;
        mac_size_out = mac_size;
        mac_key_out = mac_key;
        sent_bytes = 0;
        sent_packets = 0;
        etm_out = etm;
        aead_out = aead;
        iv_out = iv;
      })

  unfoldable pub set_inbound_cipher :
      E → ℕ → Option D → ℕ → Bytes → Bool → Bool → Bytes → Packetizer E D C → Packetizer E D C
  set_inbound_cipher block_engine block_size mac_engine mac_size mac_key etm aead iv p =
      count_switch (or_two p.init_count) (record p {
        block_engine_in = some block_engine;
        block_size_in = block_size;
        mac_engine_in = mac_engine;
        mac_size_in = mac_size;
        mac_key_in = mac_key;
        received_bytes = 0;
        received_packets = 0;
        received_bytes_overflow = 0;
        received_packets_overflow = 0;
        etm_in = etm;
        aead_in = aead;
        iv_in = iv;
      })

  -- `_trigger_rekey`
  unfoldable pub trigger_rekey : Packetizer E D C → Packetizer E D C
  trigger_rekey p = record p { need_rekey = true }

  -- `read_timer`, which the timer calls when its time is up.
  unfoldable pub read_timer : Packetizer E D C → Packetizer E D C
  read_timer p = record p { timer_expired = true }

  unfoldable pub start_handshake : Packetizer E D C → Packetizer E D C
  start_handshake p = if not p.timer then record p { timer = true } else p

  unfoldable pub handshake_timed_out : Packetizer E D C → Bool
  handshake_timed_out p =
      if not p.timer then false else if p.handshake_complete then false else p.timer_expired

  unfoldable pub complete_handshake : Packetizer E D C → Packetizer E D C
  complete_handshake p =
      if p.timer then record p { timer_expired = false; handshake_complete = true } else p
