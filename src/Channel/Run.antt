-- ===== src/Channel/Run.antt =====
-- Sequences of calls on one channel, in the order in which they take its lock, from the user's
-- threads and from the transport's.
use paramiko.Base.{ℕ, ◌+◌, Bool, List, [], ◌∷◌, ◌++◌, Bytes, length, Option}
use paramiko.Message.{Message, get_int}
use paramiko.Channel.State.{Timeout, Effect, channel_data, extended_data, Channel, settimeout}
use paramiko.Channel.Sending.{Stream, send, send_woken, handle_window_adjust}
use paramiko.Channel.Receiving.{recv, recv_woken, feed, feed_extended, set_combine_stderr}
use paramiko.Channel.Closing.{
  close, handle_eof, handle_close, request_success, request_failed, shutdown, unlink, event_pending,
  Request, handle_request,
}

pub data Action : Type 0 where
  sending : Stream → Bytes → Action
  send_wakes : Stream → Bool → Bytes → Action
  receiving : Stream → ℕ → Action
  recv_wakes : Stream → Bool → ℕ → Action
  adjusting fed fed_extended : Message → Action
  combining : Bool → Action
  timing : Timeout → Action
  closing eof_arrives close_arrives success_arrives failure_arrives : Action
  shutting_down : ℕ → Action
  unlinking pending : Action
  requested : Option (Request → Bool) → Message → Action

unfoldable pub step : Action → Channel → Channel × List Effect
step (sending stream s) c = let (_, c', out) = send stream s c in (c', out)
step (send_wakes stream expired s) c = let (_, c', out) = send_woken stream expired s c in (c', out)
step (receiving stream n) c = let (_, c', out) = recv stream n c in (c', out)
step (recv_wakes stream expired n) c = let (_, c', out) = recv_woken stream expired n c in (c', out)
step (adjusting m) c = (handle_window_adjust m c, [])
step (fed m) c = (feed m c, [])
step (fed_extended m) c = (feed_extended m c, [])
step (combining combine) c = let (_, c') = set_combine_stderr combine c in (c', [])
step (timing t) c = (settimeout t c, [])
step closing c = close c
step eof_arrives c = (handle_eof c, [])
step close_arrives c = handle_close c
step success_arrives c = (request_success c, [])
step failure_arrives c = request_failed c
step (shutting_down how) c = shutdown how c
step unlinking c = unlink c
step pending c = (event_pending c, [])
step (requested server m) c = handle_request server m c

unfoldable pub run : List Action → Channel → Channel × List Effect
run [] c = (c, [])
run (a ∷ as_) c = let (c', out) = step a c in let (c'', more) = run as_ c' in (c'', out ++ more)

-- The bytes that the data messages carry.
abbrev pub effect_bytes : Effect → ℕ
effect_bytes (channel_data chan s) = length s
effect_bytes (extended_data chan code s) = length s
effect_bytes _ = 0

abbrev pub data_bytes : List Effect → ℕ
data_bytes [] = 0
data_bytes (e ∷ es) = effect_bytes e + data_bytes es

-- The window that the peer adds.
abbrev pub adjustment : Action → ℕ
adjustment (adjusting m) = (get_int m).0
adjustment _ = 0

abbrev pub adjustments : List Action → ℕ
adjustments [] = 0
adjustments (a ∷ as_) = adjustment a + adjustments as_
