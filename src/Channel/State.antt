-- ===== src/Channel/State.antt =====
-- The state of a channel, what it asks of the transport, and the set-up calls.
use paramiko.Base.{
  ℕ, ◌-◌, ◌/◌, ◌^◌, Bool, true, false, Bytes, ltb, if◌then◌else◌, Option, some, none,
}
use paramiko.BufferedPipe
use paramiko.BufferedPipe.{BufferedPipe}

-- `None`, `0.0` and a positive number of seconds.
pub data Timeout : Type 0 where
  forever no_wait limited : Timeout

-- The messages for `transport._send_user_message`, by their fields, each with the remote channel's
-- number first, and `transport._unlink_channel`.
pub data Effect : Type 0 where
  window_adjust : ℕ → ℕ → Effect
  channel_data : ℕ → Bytes → Effect
  extended_data : ℕ → ℕ → Bytes → Effect
  channel_eof : ℕ → Effect
  channel_close : ℕ → Effect
  channel_success : ℕ → Effect
  channel_failure : ℕ → Effect
  unlink_channel : ℕ → Effect

pub record Channel : Type 0 where
  pub chanid : ℕ
  pub remote_chanid : ℕ
  pub active : Bool
  pub eof_received : Bool
  pub eof_sent : Bool
  pub in_buffer : BufferedPipe
  pub in_stderr_buffer : BufferedPipe
  pub timeout : Timeout
  pub closed : Bool
  pub in_window_size : ℕ
  pub out_window_size : ℕ
  pub in_max_packet_size : ℕ
  pub out_max_packet_size : ℕ
  pub in_window_threshold : ℕ
  pub in_window_sofar : ℕ
  pub status_event : Bool
  pub event : Bool
  pub event_ready : Bool
  pub combine_stderr : Bool
  pub exit_status : Option ℕ

-- `Channel.__init__`; an exit status of -1 is `none`.
unfoldable pub init : ℕ → Channel
init chanid = record {
  chanid = chanid;
  remote_chanid = 0;
  active = false;
  eof_received = false;
  eof_sent = false;
  in_buffer = BufferedPipe.new;
  in_stderr_buffer = BufferedPipe.new;
  timeout = Timeout.forever;
  closed = false;
  in_window_size = 0;
  out_window_size = 0;
  in_max_packet_size = 0;
  out_max_packet_size = 0;
  in_window_threshold = 0;
  in_window_sofar = 0;
  status_event = false;
  event = false;
  event_ready = false;
  combine_stderr = false;
  exit_status = none;
}

-- `clamp_value` of paramiko/util.py, and the bounds of paramiko/common.py.
unfoldable pub clamp_value : ℕ → ℕ → ℕ → ℕ
clamp_value minimum val maximum =
    let low = if ltb maximum val then maximum else val in if ltb low minimum then minimum else low

abbrev pub min_window_size : ℕ
min_window_size = 2 ^ 15

abbrev pub min_packet_size : ℕ
min_packet_size = 2 ^ 12

abbrev pub max_window_size : ℕ
max_window_size = 2 ^ 32 - 1

-- `Transport._sanitize_window_size` and `Transport._sanitize_packet_size`; a size that is `None` is
-- the transport's default.
unfoldable pub sanitize_window_size : ℕ → Option ℕ → ℕ
unfolding clamp_value
sanitize_window_size default_size none = clamp_value min_window_size default_size max_window_size
sanitize_window_size default_size (some size) = clamp_value min_window_size size max_window_size

unfoldable pub sanitize_packet_size : ℕ → Option ℕ → ℕ
unfolding clamp_value
sanitize_packet_size default_size none = clamp_value min_packet_size default_size max_window_size
sanitize_packet_size default_size (some size) = clamp_value min_packet_size size max_window_size

-- `_set_window`
unfoldable pub set_window : ℕ → ℕ → Channel → Channel
set_window window_size max_packet_size c = record c {
  in_window_size = window_size;
  in_max_packet_size = max_packet_size;
  in_window_threshold = window_size / 10;
  in_window_sofar = 0;
}

-- `_set_remote_channel`; the size that the peer names is never `None`.
unfoldable pub set_remote_channel : ℕ → ℕ → ℕ → Channel → Channel
set_remote_channel chanid window_size max_packet_size c = record c {
  remote_chanid = chanid;
  out_window_size = window_size;
  out_max_packet_size = sanitize_packet_size 0 (some max_packet_size);
  active = true;
}

unfoldable pub settimeout : Timeout → Channel → Channel
settimeout timeout c = record c { timeout = timeout }

-- `setblocking`
unfoldable pub setblocking : Bool → Channel → Channel
setblocking blocking c =
    if blocking
    then record c { timeout = Timeout.forever }
    else record c { timeout = Timeout.no_wait }
