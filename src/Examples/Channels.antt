-- ===== src/Examples/Channels.antt =====
-- Channels at concrete inputs.
use paramiko.Base.{◌+◌, ◌≡◌, refl, true, false, List, [], ◌∷◌, Bytes, none}
use paramiko.BufferedPipe
use paramiko.Message.{of_content}
use paramiko.Channel.State.{
  Channel, Effect, channel_data, channel_eof, channel_close, init, set_window, set_remote_channel,
}
use paramiko.Channel.Sending.{stdout}
use paramiko.Channel.Run.{Action, sending, adjusting, closing, run, data_bytes, adjustments}
use paramiko.Channel.Conserved.{run_conserved}
use paramiko.Channel.Order.{InOrder}
use paramiko.Channel.Order.Steps.{run-InOrder}
use paramiko.Channel.SendAll.{Wakeup, sendall, running}
use paramiko.Channel.SendAll.Progress.{sendall_spins}

-- An open channel with a window of five bytes.
abbrev small : Channel
small = record {
  chanid = 1;
  remote_chanid = 4;
  active = true;
  eof_received = false;
  eof_sent = false;
  in_buffer = BufferedPipe.new;
  in_stderr_buffer = BufferedPipe.new;
  timeout = paramiko.Channel.State.Timeout.forever;
  closed = false;
  in_window_size = 32768;
  out_window_size = 5;
  in_max_packet_size = 32768;
  out_max_packet_size = 4096;
  in_window_threshold = 3276;
  in_window_sofar = 0;
  status_event = false;
  event = false;
  event_ready = false;
  combine_stderr = false;
  exit_status = none;
}

abbrev text : Bytes
text = 1 ∷ 2 ∷ 3 ∷ 4 ∷ 5 ∷ 6 ∷ 7 ∷ []

abbrev actions : List Action
actions =
    sending stdout text
    ∷ adjusting (of_content (0 ∷ 0 ∷ 0 ∷ 9 ∷ []))
    ∷ sending stdout text
    ∷ closing
    ∷ sending stdout text
    ∷ []

run_conserved_example :
    data_bytes (run actions small).1 + (run actions small).0.out_window_size
    ≡ 5 + adjustments actions
run_conserved_example = run_conserved actions small

run-InOrder_example : InOrder false false (run actions small).1
run-InOrder_example = run-InOrder actions small

-- Another sender takes three bytes of the window first; one byte more comes while `text` waits, and
-- then the channel is closed.
abbrev turns : List (List Action)
turns = (sending stdout (7 ∷ 7 ∷ 7 ∷ []) ∷ []) ∷ [] ∷ []

abbrev wakeups : List Wakeup
wakeups =
    record { others = adjusting (of_content (0 ∷ 0 ∷ 0 ∷ 1 ∷ [])) ∷ []; expired = false }
    ∷ record { others = closing ∷ []; expired = false }
    ∷ []

abbrev shut_down : Channel
shut_down = record small { eof_sent = true }

sendall_spins_example : sendall 1000 [] [] stdout text shut_down ≡ (running, shut_down, [])
sendall_spins_example = sendall_spins 1000 [] stdout text shut_down refl refl (λ e. cc)
