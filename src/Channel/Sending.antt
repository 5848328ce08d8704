-- ===== src/Channel/Sending.antt =====
-- `send`, `send_stderr`, `sendall` and the window that the peer grants.
use paramiko.Base.{
  ℕ, zero, suc, ◌+◌, ◌-◌, Bool, true, false, ◌&&◌, ◌||◌, List, [], ◌∷◌, Bytes, length, take, ltb,
  ◌==◌, if◌then◌else◌, Error, socket_error, socket_timeout,
}
use paramiko.Message.{Message, get_int}
use paramiko.Channel.State.{Timeout, forever, no_wait, Effect, channel_data, extended_data, Channel}

-- What `_wait_for_send_window` returns, raises or waits for.
pub data Grant : Type 0 where
  granted : ℕ → Grant
  no_time blocked : Grant

-- How much of `size` goes out: no more than the window and the peer's packet size, less a header,
-- allow. The packet size is never below 4096 once it is set, so the subtraction stays positive.
unfoldable pub claim_size : ℕ → ℕ → ℕ → ℕ
claim_size size out_window_size out_max_packet_size =
    let in_window = if ltb out_window_size size then out_window_size else size in
    if ltb (out_max_packet_size - 64) in_window then out_max_packet_size - 64 else in_window

-- The end of `_wait_for_send_window`, with some window to squeeze into.
unfoldable pub claim_window : ℕ → Channel → Grant × Channel
claim_window size c =
    if c.closed || c.eof_sent
    then (granted 0, c)
    else (let n = claim_size size c.out_window_size c.out_max_packet_size in
        (granted n, record c { out_window_size = c.out_window_size - n }))

abbrev pub is_no_wait : Timeout → Bool
is_no_wait no_wait = true
is_no_wait _ = false

abbrev pub is_forever : Timeout → Bool
is_forever forever = true
is_forever _ = false

-- `_wait_for_send_window`, up to the first wait.
unfoldable pub wait_for_send_window : ℕ → Channel → Grant × Channel
wait_for_send_window size c =
    if c.closed || c.eof_sent
    then (granted 0, c)
    else if c.out_window_size == 0
    then (if is_no_wait c.timeout then (no_time, c) else (blocked, c))
    else claim_window size c

-- The rest of its loop, when a wait ends; `expired` says that the time of a limited wait is over.
unfoldable pub send_window_woken : Bool → ℕ → Channel → Grant × Channel
send_window_woken expired size c =
    if expired && (if is_forever c.timeout then false else true)
    then (no_time, c)
    else if c.out_window_size == 0
    then (if c.closed || c.eof_sent then (granted 0, c) else (blocked, c))
    else claim_window size c

pub data SendResult : Type 0 where
  sent : ℕ → SendResult
  raised : Error → SendResult
  waiting : SendResult

-- The two kinds of data message that `_send` completes with the granted part of `s`.
pub data Stream : Type 0 where
  stdout stderr : Stream

abbrev pub data_message : Stream → ℕ → Bytes → Effect
data_message stdout chan s = channel_data chan s
data_message stderr chan s = extended_data chan 1 s

-- What `_send` does with the answer of the window.
unfoldable pub send_granted : Stream → Bytes → Grant × Channel → SendResult × Channel × List Effect
send_granted stream s (granted zero, c) = (sent 0, c, [])
send_granted stream s (granted (suc n), c) =
    (sent (suc n), c, data_message stream c.remote_chanid (take (suc n) s) ∷ [])
send_granted stream s (no_time, c) = (raised socket_timeout, c, [])
send_granted stream s (blocked, c) = (waiting, c, [])

-- `send` and `send_stderr`, which is `_send` with the one message or the other.
unfoldable pub send : Stream → Bytes → Channel → SendResult × Channel × List Effect
send stream s c =
    if c.closed
    then (raised socket_error, c, [])
    else send_granted stream s (wait_for_send_window (length s) c)

unfoldable pub send_woken : Stream → Bool → Bytes → Channel → SendResult × Channel × List Effect
send_woken stream expired s c = send_granted stream s (send_window_woken expired (length s) c)

unfoldable pub send_ready : Channel → Bool
send_ready c = if c.closed || c.eof_sent then true else ltb 0 c.out_window_size

-- `_window_adjust`
unfoldable pub window_adjusted : ℕ → Channel → Channel
window_adjusted nbytes c = record c { out_window_size = c.out_window_size + nbytes }

unfoldable pub handle_window_adjust : Message → Channel → Channel
handle_window_adjust m c = window_adjusted (get_int m).0 c
