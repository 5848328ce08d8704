-- ===== src/Channel/SendAll/Kept.antt =====
-- No call on a channel changes the size of the peer's packets, or opens a channel that is shut.
use paramiko.BufferedPipe.{ReadResult}
use paramiko.Base.{
  ℕ, zero, suc, ◌≡◌, refl, ◌∙◌, Bool, true, false, not, ◌||◌, if_cases, List, [], ◌∷◌, Bytes,
  length, arith,
}
use paramiko.Channel.State.{Channel, Effect, settimeout}
use paramiko.Channel.Sending.{
  Grant, granted, no_time, blocked, Stream, stdout, stderr, send_granted, send, send_woken,
  handle_window_adjust, window_adjusted, wait_for_send_window, send_window_woken, claim_window,
}
use paramiko.Channel.Receiving.{
  recv, recv_woken, recv_read, check_add_window, feed, feed_bytes, feed_extended,
  set_combine_stderr,
}
use paramiko.Channel.Closing.{
  close, handle_eof, handle_close, request_success, request_failed, shutdown, unlink, event_pending,
  handle_request, close_internal, send_eof, set_closed,
}
use paramiko.Channel.Run.{Action, step, run}

abbrev pub Same : Channel → Channel → Type 0
Same c d = d.out_max_packet_size ≡ c.out_max_packet_size

send_granted-Same :
    (stream : Stream) (s : Bytes) (c : Channel) (g : Grant × Channel)
    → Same c g.1
    → Same c (send_granted stream s g).1
unfolding send_granted
send_granted-Same stream s c (granted zero, d) h = h
send_granted-Same stdout s c (granted (suc n), d) h = h
send_granted-Same stderr s c (granted (suc n), d) h = h
send_granted-Same stream s c (no_time, d) h = h
send_granted-Same stream s c (blocked, d) h = h

window-Same :
    (expired : Bool) (n : ℕ) (c : Channel)
    → Same c (wait_for_send_window n c).1 × Same c (send_window_woken expired n c).1
unfolding wait_for_send_window send_window_woken claim_window
window-Same expired n c = ground arith

send-Same :
    (stream : Stream) (expired : Bool) (s : Bytes) (c : Channel)
    → Same c (send stream s c).1 × Same c (send_woken stream expired s c).1
unfolding send send_woken
send-Same stream expired s c =
    let (first, later) = window-Same expired (length s) c in
    (
      ground (arith, send_granted-Same stream s c (wait_for_send_window (length s) c) first),
      send_granted-Same stream s c _ later,
    )

recv_read-Same : (r : ReadResult) (c : Channel) → Same c (recv_read r c).1
unfolding recv_read check_add_window
recv_read-Same r c = ground arith

recv-Same :
    (stream : Stream) (expired : Bool) (n : ℕ) (c : Channel)
    → Same c (recv stream n c).1 × Same c (recv_woken stream expired n c).1
unfolding recv recv_woken
recv-Same stdout expired n c = (recv_read-Same _ _, recv_read-Same _ _)
recv-Same stderr expired n c = (recv_read-Same _ _, recv_read-Same _ _)

close_internal-Same : (c : Channel) → Same c (close_internal c).0
unfolding close_internal send_eof set_closed
close_internal-Same c = ground arith

step-Same : (a : Action) (c : Channel) → Same c (step a c).0
unfolding step
step-Same (Action.sending stream s) c = (send-Same stream false s c).0
step-Same (Action.send_wakes stream expired s) c = (send-Same stream expired s c).1
step-Same (Action.receiving stream n) c = (recv-Same stream false n c).0
step-Same (Action.recv_wakes stream expired n) c = (recv-Same stream expired n c).1
step-Same (Action.adjusting m) c = unfold handle_window_adjust window_adjusted in refl
step-Same (Action.fed m) c = unfold feed feed_bytes in refl
step-Same (Action.fed_extended m) c = unfold feed_extended feed_bytes in ground arith
step-Same (Action.combining combine) c = unfold set_combine_stderr feed_bytes in ground arith
step-Same (Action.timing t) c = unfold settimeout in refl
step-Same Action.closing c = unfold close in ground (arith, close_internal-Same c)
step-Same Action.eof_arrives c = unfold handle_eof in ground arith
step-Same Action.close_arrives c = unfold handle_close in close_internal-Same c
step-Same Action.success_arrives c = unfold request_success in refl
step-Same Action.failure_arrives c = unfold request_failed in close_internal-Same c
step-Same (Action.shutting_down how) c = unfold shutdown send_eof in ground arith
step-Same Action.unlinking c = unfold unlink set_closed in ground arith
step-Same Action.pending c = unfold event_pending in refl
step-Same (Action.requested server m) c = unfold handle_request in ground arith

pub run_packet_size : (as_ : List Action) (c : Channel) → Same c (run as_ c).0
unfolding run
run_packet_size [] c = refl
run_packet_size (a ∷ as_) c = run_packet_size as_ (step a c).0 ∙ step-Same a c

-- Whether a channel is closed, and whether its end of file was sent, is not taken back.
pub record Shut (c d : Channel) : Type 0 where
  pub closes : c.closed ≡ true → d.closed ≡ true
  pub ends : c.eof_sent ≡ true → d.eof_sent ≡ true

flags : (c d : Channel) → d.closed ≡ c.closed → d.eof_sent ≡ c.eof_sent → Shut c d
flags c d closed eof = record { closes = λ h. closed ∙ h; ends = λ h. eof ∙ h }

send_granted-flags :
    (stream : Stream) (s : Bytes) (g : Grant × Channel)
    → ((send_granted stream s g).1.closed ≡ g.1.closed)
      × ((send_granted stream s g).1.eof_sent ≡ g.1.eof_sent)
unfolding send_granted
send_granted-flags stream s (granted zero, d) = (refl, refl)
send_granted-flags stdout s (granted (suc n), d) = (refl, refl)
send_granted-flags stderr s (granted (suc n), d) = (refl, refl)
send_granted-flags stream s (no_time, d) = (refl, refl)
send_granted-flags stream s (blocked, d) = (refl, refl)

-- The two flags are those of before.
abbrev Flags : Channel → Channel → Type 0
Flags c d = (d.closed ≡ c.closed) × (d.eof_sent ≡ c.eof_sent)

window-Flags :
    (expired : Bool) (n : ℕ) (c : Channel)
    → Flags c (wait_for_send_window n c).1 × Flags c (send_window_woken expired n c).1
unfolding wait_for_send_window send_window_woken claim_window
window-Flags expired n c = ground arith

send-Flags :
    (stream : Stream) (expired : Bool) (s : Bytes) (c : Channel)
    → Flags c (send stream s c).1 × Flags c (send_woken stream expired s c).1
unfolding send send_woken
send-Flags stream expired s c =
    let (first, later) = window-Flags expired (length s) c in
    let asked = send_granted-flags stream s (wait_for_send_window (length s) c) in
    let woken = send_granted-flags stream s (send_window_woken expired (length s) c) in
    (ground (arith, asked, first), (woken.0 ∙ later.0, woken.1 ∙ later.1))

recv_read-Flags : (r : ReadResult) (c : Channel) → Flags c (recv_read r c).1
unfolding recv_read check_add_window
recv_read-Flags r c = ground arith

recv-Flags :
    (stream : Stream) (expired : Bool) (n : ℕ) (c : Channel)
    → Flags c (recv stream n c).1 × Flags c (recv_woken stream expired n c).1
unfolding recv recv_woken
recv-Flags stdout expired n c = (recv_read-Flags _ _, recv_read-Flags _ _)
recv-Flags stderr expired n c = (recv_read-Flags _ _, recv_read-Flags _ _)

close_internal-Shut : (c : Channel) → Shut c (close_internal c).0
unfolding close_internal send_eof set_closed
close_internal-Shut c = record { closes = ground arith; ends = ground arith }

both : (c d : Channel) → Flags c d → Shut c d
both c d (closed, eof) = flags c d closed eof

step-Shut : (a : Action) (c : Channel) → Shut c (step a c).0
unfolding step
step-Shut (Action.sending stream s) c = both c _ (send-Flags stream false s c).0
step-Shut (Action.send_wakes stream expired s) c = both c _ (send-Flags stream expired s c).1
step-Shut (Action.receiving stream n) c = both c _ (recv-Flags stream false n c).0
step-Shut (Action.recv_wakes stream expired n) c = both c _ (recv-Flags stream expired n c).1
step-Shut (Action.adjusting m) c =
    unfold handle_window_adjust window_adjusted in flags c _ refl refl
step-Shut (Action.fed m) c = unfold feed feed_bytes in flags c _ refl refl
step-Shut (Action.fed_extended m) c = unfold feed_extended feed_bytes in both c _ (ground arith)
step-Shut (Action.combining combine) c =
    unfold set_combine_stderr feed_bytes in both c _ (ground arith)
step-Shut (Action.timing t) c = unfold settimeout in flags c _ refl refl
step-Shut Action.closing c =
    unfold close in
    if_cases (λ (r : Channel × List Effect). Shut c r.0) (not c.active || c.closed) _ _
      (λ _. flags c c refl refl) (λ _. close_internal-Shut c)
step-Shut Action.eof_arrives c = unfold handle_eof in both c _ (ground arith)
step-Shut Action.close_arrives c = unfold handle_close in close_internal-Shut c
step-Shut Action.success_arrives c = unfold request_success in flags c _ refl refl
step-Shut Action.failure_arrives c = unfold request_failed in close_internal-Shut c
step-Shut (Action.shutting_down how) c =
    unfold shutdown send_eof in record { closes = ground arith; ends = ground arith }
step-Shut Action.unlinking c =
    unfold unlink set_closed in record { closes = ground arith; ends = ground arith }
step-Shut Action.pending c = unfold event_pending in flags c _ refl refl
step-Shut (Action.requested server m) c = unfold handle_request in both c _ (ground arith)

pub run-Shut : (as_ : List Action) (c : Channel) → Shut c (run as_ c).0
unfolding run
run-Shut [] c = flags c c refl refl
run-Shut (a ∷ as_) c =
    let first = step-Shut a c in
    let later = run-Shut as_ (step a c).0 in
    record { closes = λ h. later.closes (first.closes h); ends = λ h. later.ends (first.ends h) }
