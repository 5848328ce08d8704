-- ===== src/Channel/Conserved.antt =====
-- Flow control: what a channel sends never exceeds what the peer granted.
use paramiko.BufferedPipe.{ReadResult}
use paramiko.Base.{
  ℕ, zero, suc, ◌+◌, ◌≡◌, Bool, false, List, [], ◌∷◌, ◌++◌, Bytes, length, length-take, arith,
}
use paramiko.Channel.State.{Effect, Channel, settimeout}
use paramiko.Channel.Sending.{
  Grant, granted, no_time, blocked, Stream, stdout, stderr, send_granted, send, send_woken,
  handle_window_adjust, window_adjusted, wait_for_send_window,
}
use paramiko.Channel.Window.{GrantSpec, wait_for_send_window-GrantSpec}
use paramiko.Channel.Receiving.{
  recv, recv_woken, recv_read, check_add_window, feed, feed_bytes, feed_extended,
  set_combine_stderr,
}
use paramiko.Channel.Closing.{
  close, handle_eof, handle_close, request_success, request_failed, shutdown, unlink, event_pending,
  handle_request, close_internal, send_eof, set_closed,
}
use paramiko.Channel.Run.{Action, step, run, data_bytes, adjustment, adjustments}

send_granted-Conserved :
    (stream : Stream) (s : Bytes) (c : Channel) (g : Grant × Channel)
    → GrantSpec (length s) c g
    → data_bytes (send_granted stream s g).2 + (send_granted stream s g).1.out_window_size
      ≡ c.out_window_size + 0
unfolding send_granted
send_granted-Conserved stream s c (granted zero, d) h = omega arith
send_granted-Conserved stdout s c (granted (suc n), d) h = omega (arith, length-take (suc n) s)
send_granted-Conserved stderr s c (granted (suc n), d) h = omega (arith, length-take (suc n) s)
send_granted-Conserved stream s c (no_time, d) h = rw h.0 (omega arith)
send_granted-Conserved stream s c (blocked, d) h = rw h.0 (omega arith)

recv_read_window :
    (r : ReadResult) (c : Channel)
    → data_bytes (recv_read r c).2 + (recv_read r c).1.out_window_size ≡ c.out_window_size
unfolding recv_read check_add_window
recv_read_window r c = ground arith

recv_Conserved :
    (stream : Stream) (expired : Bool) (n : ℕ) (c : Channel)
    → (data_bytes (recv stream n c).2 + (recv stream n c).1.out_window_size ≡ c.out_window_size + 0)
      × (data_bytes (recv_woken stream expired n c).2
            + (recv_woken stream expired n c).1.out_window_size
          ≡ c.out_window_size + 0)
unfolding recv recv_woken
recv_Conserved stdout expired n c =
    (omega (arith, recv_read_window), omega (arith, recv_read_window))
recv_Conserved stderr expired n c =
    (omega (arith, recv_read_window), omega (arith, recv_read_window))

send_Conserved :
    (stream : Stream) (expired : Bool) (s : Bytes) (c : Channel)
    → (data_bytes (send stream s c).2 + (send stream s c).1.out_window_size ≡ c.out_window_size + 0)
      × (data_bytes (send_woken stream expired s c).2
            + (send_woken stream expired s c).1.out_window_size
          ≡ c.out_window_size + 0)
unfolding send send_woken
send_Conserved stream expired s c =
    let (first, later) = wait_for_send_window-GrantSpec expired (length s) c in
    (
      ground (arith, send_granted-Conserved stream s c (wait_for_send_window (length s) c) first),
      send_granted-Conserved stream s c _ later,
    )

close_internal_window :
    (c : Channel)
    → data_bytes (close_internal c).1 + (close_internal c).0.out_window_size ≡ c.out_window_size + 0
unfolding close_internal send_eof set_closed
close_internal_window c = ground arith

step_conserved :
    (a : Action) (c : Channel)
    → data_bytes (step a c).1 + (step a c).0.out_window_size ≡ c.out_window_size + adjustment a
unfolding step
step_conserved (Action.sending stream s) c = (send_Conserved stream false s c).0
step_conserved (Action.send_wakes stream expired s) c = (send_Conserved stream expired s c).1
step_conserved (Action.receiving stream n) c = (recv_Conserved stream false n c).0
step_conserved (Action.recv_wakes stream expired n) c = (recv_Conserved stream expired n c).1
step_conserved (Action.adjusting m) c = unfold handle_window_adjust window_adjusted in omega arith
step_conserved (Action.fed m) c = unfold feed feed_bytes in omega arith
step_conserved (Action.fed_extended m) c = unfold feed_extended feed_bytes in ground arith
step_conserved (Action.combining combine) c = unfold set_combine_stderr feed_bytes in ground arith
step_conserved (Action.timing t) c = unfold settimeout in omega arith
step_conserved Action.closing c = unfold close in ground (arith, close_internal_window c)
step_conserved Action.eof_arrives c = unfold handle_eof in ground arith
step_conserved Action.close_arrives c =
    unfold handle_close in ground (arith, close_internal_window c)
step_conserved Action.success_arrives c = unfold request_success in omega arith
step_conserved Action.failure_arrives c = unfold request_failed in close_internal_window c
step_conserved (Action.shutting_down how) c = unfold shutdown send_eof in ground arith
step_conserved Action.unlinking c = unfold unlink set_closed in ground arith
step_conserved Action.pending c = unfold event_pending in omega arith
step_conserved (Action.requested server m) c = unfold handle_request in ground arith

data_bytes-append : (xs ys : List Effect) → data_bytes (xs ++ ys) ≡ data_bytes xs + data_bytes ys
data_bytes-append [] ys = omega arith
data_bytes-append (x ∷ xs) ys = omega (arith, data_bytes-append xs ys)

-- Over any sequence of calls, the bytes that the data messages carry and the window that is left
-- make up the window at the start and the adjustments of the peer. So a channel never sends more
-- than the peer granted, and loses none of the grant.
pub run_conserved :
    (as_ : List Action) (c : Channel)
    → data_bytes (run as_ c).1 + (run as_ c).0.out_window_size ≡ c.out_window_size + adjustments as_
unfolding run
run_conserved [] c = omega arith
run_conserved (a ∷ as_) c =
    rw data_bytes-append (omega (arith, step_conserved a c, run_conserved as_ (step a c).0))
