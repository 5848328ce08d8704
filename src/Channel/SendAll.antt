-- ===== src/Channel/SendAll.antt =====
-- `sendall` and `sendall_stderr`, against any calls of other threads on the channel while they wait, and
-- between two rounds of the loop.
mod Kept
mod Answered
pub mod Progress
use paramiko.Base.{
  ℕ, zero, suc, ◌≡◌, refl, sym, Bool, List, [], ◌∷◌, ◌++◌, append_assoc, Bytes, drop, Error,
}
use paramiko.Channel.State.{Effect, channel_data, extended_data, Channel}
use paramiko.Channel.Sending.{Stream, SendResult, sent, raised, waiting, send, send_woken}
use paramiko.Channel.Run.{Action, run}

-- How a wait ends: what other threads, the transport's too, have done on the channel by then, in
-- the order in which they took its lock, and whether the time of a limited wait is over. Calls on
-- the channel that wake nobody (or another sender that took the window) are among them.
pub record Wakeup : Type 0 where
  pub others : List Action
  pub expired : Bool

-- A `send` that does not wait is over; one that waits goes on with what happens later.
unfoldable pub settle :
    SendResult × Channel × List Effect
    → List Wakeup
    → SendResult × Channel × List Effect × List Wakeup
    → SendResult × Channel × List Effect × List Wakeup
settle (sent k, d, out) events later = (sent k, d, out, events)
settle (raised e, d, out) events later = (raised e, d, out, events)
settle (waiting, d, out) events later = later

-- The waits of one `send`, one for each event until it has an answer: a part of the window, none of
-- it because the channel was closed or its end of file sent meanwhile, or a timeout. The events that
-- are left are returned. The timeout is the one that is set when the wait ends.
unfoldable pub wake_until_sent :
    List Wakeup → Stream → Bytes → Channel → SendResult × Channel × List Effect × List Wakeup
wake_until_sent [] stream s c = (waiting, c, [], [])
wake_until_sent (e ∷ events) stream s c =
    let r = send_woken stream e.expired s (run e.others c).0 in
    settle r events (wake_until_sent events stream s r.1)

unfoldable pub send_waiting :
    List Wakeup → Stream → Bytes → Channel → SendResult × Channel × List Effect × List Wakeup
send_waiting events stream s c =
    let r = send stream s c in settle r events (wake_until_sent events stream s r.1)

-- How the loop ends: `starved` still waits after the last event, `running` is out of fuel.
pub data SendAll : Type 0 where
  done starved running : SendAll
  failed : Error → SendAll

-- What follows one `send` in the loop: the rest of the loop, or its end.
unfoldable pub after_send :
    SendResult × Channel × List Effect × List Wakeup
    → (ℕ → List Wakeup → Channel → SendAll × Channel × List Effect)
    → SendAll × Channel × List Effect
after_send (sent n, d, out, left) rest =
    let (end, d', more) = rest n left d in (end, d', out ++ more)
after_send (raised e, d, out, left) rest = (failed e, d, out)
after_send (waiting, d, out, left) rest = (starved, d, out)

-- What other threads do on the channel before a round of the loop; nothing, when none is given.
unfoldable pub take_turn : List (List Action) → Channel → Channel × List (List Action)
take_turn [] c = (c, [])
take_turn (others ∷ turns) c = ((run others c).0, turns)

-- `while s: sent = self.send(s); s = s[sent:]`. Other threads come in before each `send`, by `turns`,
-- and where one waits, by `events`; their own messages are not among those that are returned.
unfoldable pub sendall :
    ℕ
    → List (List Action)
    → List Wakeup
    → Stream
    → Bytes
    → Channel
    → SendAll × Channel × List Effect
sendall fuel turns events stream [] c = (done, c, [])
sendall zero turns events stream (b ∷ bs) c = (running, c, [])
sendall (suc fuel) turns events stream (b ∷ bs) c =
    let (c', turns') = take_turn turns c in
    after_send (send_waiting events stream (b ∷ bs) c')
      (λ n left d. sendall fuel turns' left stream (drop n (b ∷ bs)) d)

-- The data that the messages carry, in order.
abbrev pub payload : List Effect → Bytes
payload [] = []
payload (channel_data chan s ∷ es) = s ++ payload es
payload (extended_data chan code s ∷ es) = s ++ payload es
payload (_ ∷ es) = payload es

pub payload-append : (xs ys : List Effect) → payload (xs ++ ys) ≡ payload xs ++ payload ys
payload-append [] ys = refl
payload-append (channel_data chan s ∷ es) ys =
    rw (payload-append es ys) (sym (append_assoc s (payload es) (payload ys)))
payload-append (extended_data chan code s ∷ es) ys =
    rw (payload-append es ys) (sym (append_assoc s (payload es) (payload ys)))
payload-append (Effect.window_adjust _ _ ∷ es) ys = payload-append es ys
payload-append (Effect.channel_eof _ ∷ es) ys = payload-append es ys
payload-append (Effect.channel_close _ ∷ es) ys = payload-append es ys
payload-append (Effect.channel_success _ ∷ es) ys = payload-append es ys
payload-append (Effect.channel_failure _ ∷ es) ys = payload-append es ys
payload-append (Effect.unlink_channel _ ∷ es) ys = payload-append es ys
