-- ===== src/Channel/Order/Steps.antt =====
-- Every call keeps the messages of a channel in order.
use paramiko.Base.{
  ℕ, zero, suc, ◌≡◌, refl, sym, ◌∙◌, inl, inr, Bool, true, false, ◌&&◌, not, List, [], ◌∷◌, Bytes,
  length, if◌then◌else◌, Bool-cases, arith, socket_error, ltb,
}
use paramiko.BufferedPipe
use paramiko.BufferedPipe.{ReadResult, received, timed_out, blocked as pipe_blocked}
use paramiko.Channel.State.{Channel, settimeout}
use paramiko.Channel.Sending.{
  raised, is_no_wait, is_forever, Grant, granted, no_time, blocked, Stream, stdout, stderr,
  send_granted, send, send_woken, handle_window_adjust, window_adjusted, wait_for_send_window,
  send_window_woken, claim_window,
}
use paramiko.Channel.Window.{GrantSpec, wait_for_send_window-GrantSpec, is_shut}
use paramiko.Channel.Receiving.{
  recv, recv_woken, recv_read, check_add_window, feed, feed_bytes, feed_extended,
  set_combine_stderr,
}
use paramiko.Channel.Closing.{
  close, handle_eof, handle_close, request_success, request_failed, shutdown, unlink, event_pending,
  handle_request, close_internal, send_eof, set_closed,
}
use paramiko.Channel.Run.{Action, step, run}
use paramiko.Channel.Order.{InOrder, StepInOrder, InOrder-append, continue}

claim_keeps :
    (n : ℕ) (c : Channel)
    → ((claim_window n c).1.eof_sent ≡ c.eof_sent) × ((claim_window n c).1.closed ≡ c.closed)
unfolding claim_window
claim_keeps n c = ground arith

waits_keep :
    (expired : Bool) (n : ℕ) (c : Channel)
    → ((wait_for_send_window n c).1.eof_sent ≡ c.eof_sent)
      × ((wait_for_send_window n c).1.closed ≡ c.closed)
      × ((send_window_woken expired n c).1.eof_sent ≡ c.eof_sent)
      × ((send_window_woken expired n c).1.closed ≡ c.closed)
unfolding wait_for_send_window send_window_woken
waits_keep expired n c = ground (arith, claim_keeps n c)

abbrev Flags : Channel → Channel → Type 0
Flags c d = (d.eof_sent ≡ c.eof_sent) × (d.closed ≡ c.closed)

open_flags : (c : Channel) → is_shut c ≡ false → (c.eof_sent ≡ false) × (c.closed ≡ false)
open_flags c h = ground arith

send_granted-InOrder :
    (stream : Stream) (s : Bytes) (c : Channel) (g : Grant × Channel)
    → GrantSpec (length s) c g
    → Flags c g.1
    → StepInOrder c (let (_, d, out) = send_granted stream s g in (d, out))
unfolding send_granted
send_granted-InOrder stream s c (granted zero, d) h f = (tt, sym f.0, λ k. f.1 ∙ k)
send_granted-InOrder stream s c (no_time, d) h f = (tt, sym f.0, λ k. f.1 ∙ k)
send_granted-InOrder stream s c (blocked, d) h f = (tt, sym f.0, λ k. f.1 ∙ k)
send_granted-InOrder stdout s c (granted (suc n), d) h f = elim (Bool-cases (is_shut c)) [
  | inl e ↦ absurd (omega (arith, h.3 e))
  | inr e ↦ (((open_flags c e).0, (open_flags c e).1, tt), sym f.0, λ k. f.1 ∙ k)
]
send_granted-InOrder stderr s c (granted (suc n), d) h f = elim (Bool-cases (is_shut c)) [
  | inl e ↦ absurd (omega (arith, h.3 e))
  | inr e ↦ (((open_flags c e).0, (open_flags c e).1, tt), sym f.0, λ k. f.1 ∙ k)
]

-- A call that sends nothing and keeps the flags, or shuts the channel.
silent :
    (c d : Channel)
    → d.eof_sent ≡ c.eof_sent
    → (c.closed ≡ true → d.closed ≡ true)
    → StepInOrder c (d, [])
silent c d e k = (tt, sym e, k)

send-InOrder :
    (stream : Stream) (s : Bytes) (c : Channel)
    → StepInOrder c (let (_, d, out) = send stream s c in (d, out))
unfolding send
send-InOrder stream s c =
    let k = waits_keep false (length s) c in
    let asked = wait_for_send_window (length s) c in
    elim c.closed
      as (λ b. StepInOrder c (
        let (_, d, out) = if b then (raised socket_error, c, []) else send_granted stream s asked in
        (d, out))) [
          | true ↦ silent c c refl (λ h. h)
          | false ↦
              send_granted-InOrder stream s c asked
                (wait_for_send_window-GrantSpec false (length s) c).0 (k.0, k.1)
        ]

send_woken-InOrder :
    (stream : Stream) (expired : Bool) (s : Bytes) (c : Channel)
    → StepInOrder c (let (_, d, out) = send_woken stream expired s c in (d, out))
unfolding send_woken
send_woken-InOrder stream expired s c =
    let k = waits_keep expired (length s) c in
    send_granted-InOrder stream s c _ (wait_for_send_window-GrantSpec expired (length s) c).1
      (k.2, k.3)

add_window-Flags :
    (n : ℕ) (c : Channel)
    → Flags c (check_add_window n c).1 × (ltb 0 (check_add_window n c).0 ≡ true → c.closed ≡ false)
unfolding check_add_window
add_window-Flags n c = (ground arith, λ h. ground arith)

recv_read-InOrder :
    (r : ReadResult) (c : Channel) → StepInOrder c (let (_, d, out) = recv_read r c in (d, out))
unfolding recv_read
recv_read-InOrder timed_out c = silent c c refl (λ k. k)
recv_read-InOrder pipe_blocked c = silent c c refl (λ k. k)
recv_read-InOrder (received out) c =
    let (kept, acked) = add_window-Flags (length out) c in
    elim (Bool-cases (ltb 0 (check_add_window (length out) c).0)) [
      | inl e ↦ rw e ((acked e, tt), sym kept.0, λ h. kept.1 ∙ h)
      | inr e ↦ rw e (tt, sym kept.0, λ h. kept.1 ∙ h)
    ]

close_internal-InOrder : (c : Channel) → StepInOrder c (close_internal c)
unfolding close_internal send_eof set_closed
close_internal-InOrder c = (ground arith, ground arith, λ h. ground arith)

recv-InOrder :
    (stream : Stream) (n : ℕ) (c : Channel)
    → StepInOrder c (let (_, d, out) = recv stream n c in (d, out))
unfolding recv
recv-InOrder stdout n c =
    let (r, p) = BufferedPipe.read (is_no_wait c.timeout) n c.in_buffer in
    recv_read-InOrder r (record c { in_buffer = p })
recv-InOrder stderr n c =
    let (r, p) = BufferedPipe.read (is_no_wait c.timeout) n c.in_stderr_buffer in
    recv_read-InOrder r (record c { in_stderr_buffer = p })

recv_woken-InOrder :
    (stream : Stream) (expired : Bool) (n : ℕ) (c : Channel)
    → StepInOrder c (let (_, d, out) = recv_woken stream expired n c in (d, out))
unfolding recv_woken
recv_woken-InOrder stdout expired n c =
    let (r, p) = BufferedPipe.read_woken (expired && not (is_forever c.timeout)) n c.in_buffer in
    recv_read-InOrder r (record c { in_buffer = p })
recv_woken-InOrder stderr expired n c =
    let (r, p) =
      BufferedPipe.read_woken (expired && not (is_forever c.timeout)) n c.in_stderr_buffer in
    recv_read-InOrder r (record c { in_stderr_buffer = p })

step-InOrder : (a : Action) (c : Channel) → StepInOrder c (step a c)
unfolding step
step-InOrder (Action.sending stream s) c = send-InOrder stream s c
step-InOrder (Action.send_wakes stream expired s) c = send_woken-InOrder stream expired s c
step-InOrder (Action.receiving stream n) c = recv-InOrder stream n c
step-InOrder (Action.recv_wakes stream expired n) c = recv_woken-InOrder stream expired n c
step-InOrder (Action.adjusting m) c =
    unfold handle_window_adjust window_adjusted in (tt, refl, λ h. h)
step-InOrder (Action.fed m) c = unfold feed feed_bytes in (tt, refl, λ h. h)
step-InOrder (Action.fed_extended m) c =
    unfold feed_extended feed_bytes in (tt, ground arith, λ h. ground arith)
step-InOrder (Action.combining combine) c =
    unfold set_combine_stderr feed_bytes in (tt, ground arith, λ h. ground arith)
step-InOrder (Action.timing t) c = unfold settimeout in (tt, refl, λ h. h)
step-InOrder Action.closing c =
    unfold close in
    (
      ground (arith, (close_internal-InOrder c).0),
      ground (arith, (close_internal-InOrder c).1),
      λ h. ground (arith, (close_internal-InOrder c).2),
    )
step-InOrder Action.eof_arrives c = unfold handle_eof in (tt, ground arith, λ h. ground arith)
step-InOrder Action.close_arrives c = unfold handle_close in close_internal-InOrder c
step-InOrder Action.success_arrives c = unfold request_success in (tt, refl, λ h. h)
step-InOrder Action.failure_arrives c = unfold request_failed in close_internal-InOrder c
step-InOrder (Action.shutting_down how) c =
    unfold shutdown send_eof in (ground arith, ground arith, λ h. ground arith)
step-InOrder Action.unlinking c =
    unfold unlink set_closed in (ground arith, ground arith, λ h. ground arith)
step-InOrder Action.pending c = unfold event_pending in (tt, refl, λ h. h)
step-InOrder (Action.requested server m) c =
    unfold handle_request in (ground arith, ground arith, λ h. ground arith)

-- Whatever calls are made on a channel, from whichever threads, the messages that it decides to
-- send are in order: data only before the end of file and the close, window adjustments only
-- before the close, at most one end of file, and at most one close, with an end of file before it.
pub run-InOrder : (as_ : List Action) (c : Channel) → InOrder c.eof_sent c.closed (run as_ c).1
unfolding run
run-InOrder [] c = tt
run-InOrder (a ∷ as_) c =
    let (now, eof, shut) = step-InOrder a c in
    let (d, out) = step a c in
    InOrder-append c.eof_sent c.closed out (run as_ d).1 now
      (rw eof (continue d.eof_sent _ d.closed (run as_ d).1 shut (run-InOrder as_ d)))
