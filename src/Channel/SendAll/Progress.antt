-- ===== src/Channel/SendAll/Progress.antt =====
-- `sendall` ends, and sends everything in order; and where it does not end.
use paramiko.Base.{
  ℕ, zero, suc, ◌<◌, ◌≡◌, ◌≢◌, refl, ◌⊎◌, true, false, List, [], ◌∷◌, ◌++◌, Bytes, length, drop,
  arith,
}
use paramiko.Channel.State.{Effect, Channel}
use paramiko.Channel.Sending.{Stream, send_granted, sent, send, wait_for_send_window}
use paramiko.Channel.Window.{is_shut}
use paramiko.Channel.SendAll.{
  Wakeup, settle, send_waiting, SendAll, done, starved, running, failed, after_send, take_turn,
  sendall, payload,
}
use paramiko.Channel.SendAll.Answered.{Kept, Waits, Raises}

-- The messages carry a prefix of the data.
abbrev pub IsPrefix : Bytes → List Effect → Type 0
IsPrefix s out = (rest : Bytes) × (payload out ++ rest ≡ s)

-- How a call of `sendall` for `s` may end. It is `running` only where an end of file has been sent on
-- a channel that is not closed, it waits only at an empty window of a channel that may send, and it
-- raises only where the channel is closed or has a timeout.
abbrev pub Ends : Bytes → SendAll × Channel × List Effect → Type 0
Ends s (done, d, out) = payload out ≡ s
Ends s (starved, d, out) = Waits d × IsPrefix s out
Ends s (failed e, d, out) = Raises d × IsPrefix s out
Ends s (running, d, out) = (d.eof_sent ≡ true) × (d.closed ≡ false) × IsPrefix s out

-- What the rest of the loop needs: there are rounds enough for the bytes that are left, where a
-- `send` that sends nothing has found the channel shut.
abbrev Left : ℕ → ℕ → Bytes → Channel → Type 0
Left fuel n s d =
    ((0 < n) × (64 < d.out_max_packet_size) × (length (drop n s) < fuel))
    ⊎ ((n ≡ 0) × (is_shut d ≡ true) × (0 < fuel))

send_shut :
    (stream : Stream) (s : Bytes) (c : Channel)
    → c.closed ≡ false
    → c.eof_sent ≡ true
    → send stream s c ≡ (sent 0, c, [])
unfolding send wait_for_send_window send_granted
send_shut stream s c o e = ground arith

send_waiting_shut :
    (events : List Wakeup) (stream : Stream) (s : Bytes) (c : Channel)
    → c.closed ≡ false
    → c.eof_sent ≡ true
    → send_waiting events stream s c ≡ (sent 0, c, [], events)
unfolding send_waiting settle
send_waiting_shut events stream s c o e = rw (send_shut stream s c o e)

no_progress :
    (events : List Wakeup) (c d : Channel)
    (rest : ℕ → List Wakeup → Channel → SendAll × Channel × List Effect)
    → rest 0 events c ≡ (running, d, [])
    → after_send (sent 0, c, [], events) rest ≡ (running, d, [])
unfolding after_send
no_progress events c d rest e = rw e

-- On a channel that has sent an end of file and is not closed, with some data, and with no call of
-- another thread between the rounds, `send` returns 0 for ever, so the loop never ends: no number of
-- rounds is enough, and nothing is sent.
pub sendall_spins :
    (fuel : ℕ) (events : List Wakeup) (stream : Stream) (s : Bytes) (c : Channel)
    → c.closed ≡ false
    → c.eof_sent ≡ true
    → s ≢ []
    → sendall fuel [] events stream s c ≡ (running, c, [])
unfolding sendall take_turn
sendall_spins fuel events stream [] c o e h = absurd (h refl)
sendall_spins zero events stream (b ∷ bs) c o e h = refl
sendall_spins (suc fuel) events stream (b ∷ bs) c o e h =
    rw (send_waiting_shut events stream (b ∷ bs) c o e)
      (no_progress events c c _ (sendall_spins fuel events stream (b ∷ bs) c o e h))

-- A channel that was closed, with a round left, or that was not, but has sent its end of file.
abbrev HasShut : ℕ → Channel → Type 0
HasShut fuel c = ((c.closed ≡ true) × (0 < fuel)) ⊎ ((c.closed ≡ false) × (c.eof_sent ≡ true))
