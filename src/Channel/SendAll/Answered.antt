-- ===== src/Channel/SendAll/Answered.antt =====
-- What one `send` of the loop sends, with its waits.
use paramiko.Base.{
  ℕ, zero, suc, ◌<◌, ◌≡◌, ◌≢◌, ◌⊎◌, inl, inr, refl, sym, ◌∙◌, Bool, true, false, List, [], ◌∷◌,
  append-nil, Bytes, length, take, if◌then◌else◌, arith, socket_error,
}
use paramiko.Channel.State.{Effect, forever, Channel}
use paramiko.Channel.Sending.{
  Grant, granted, no_time, blocked, Stream, stdout, stderr, send_granted, SendResult, sent, raised,
  waiting, send, send_woken, wait_for_send_window, send_window_woken, claim_window,
}
use paramiko.Channel.Window.{GrantSpec, wait_for_send_window-GrantSpec, is_shut}
use paramiko.Channel.Run.{run}
use paramiko.Channel.SendAll.Kept.{run_packet_size}
use paramiko.Channel.SendAll.{Wakeup, settle, wake_until_sent, send_waiting, payload}

-- What stays from one call to the next: the size of a packet.
abbrev pub Kept : Channel → Channel → Type 0
Kept c d = d.out_max_packet_size ≡ c.out_max_packet_size

-- Where a `send` waits, and where it raises.
abbrev pub Waits : Channel → Type 0
Waits d = (d.out_window_size ≡ 0) × (is_shut d ≡ false)

abbrev pub Raises : Channel → Type 0
Raises d = (d.closed ≡ true) ⊎ (d.timeout ≢ forever)

-- What the messages of one `send` carry, and that it makes progress, unless the channel is shut by
-- the time of its answer.
abbrev pub Answer : Bytes → Channel → SendResult × Channel × List Effect → Type 0
Answer s c (sent n, d, out) =
    (payload out ≡ take n s)
    × Kept c d
    × (64 < c.out_max_packet_size → 0 < length s → is_shut d ≡ false → 0 < n)
    × (is_shut d ≡ true → n ≡ 0)
Answer s c (raised e, d, out) = (payload out ≡ []) × Kept c d × Raises d
Answer s c (waiting, d, out) = (payload out ≡ []) × Kept c d × Waits d

-- An answer of the window leaves whether the channel is shut, and the size of a packet.
abbrev Unmoved : Channel → Channel → Type 0
Unmoved c d = (is_shut d ≡ is_shut c) × Kept c d

send_granted-Answer :
    (stream : Stream) (s : Bytes) (c : Channel) (g : Grant × Channel)
    → GrantSpec (length s) c g
    → Unmoved c g.1
    → Answer s c (send_granted stream s g)
unfolding send_granted
send_granted-Answer stream s c (granted zero, d) h k =
    (refl, k.1, λ packet p open_. h.4 (sym k.0 ∙ open_) p packet, λ _. refl)
send_granted-Answer stdout s c (granted (suc n), d) h k =
    (append-nil (take (suc n) s), k.1, λ _ _ _. omega arith, λ shut. h.3 (sym k.0 ∙ shut))
send_granted-Answer stderr s c (granted (suc n), d) h k =
    (append-nil (take (suc n) s), k.1, λ _ _ _. omega arith, λ shut. h.3 (sym k.0 ∙ shut))
send_granted-Answer stream s c (no_time, d) h k = (refl, k.1, inr (rw h.0 h.1))
send_granted-Answer stream s c (blocked, d) h k = (refl, k.1, rw h.0 (h.1, h.2))

claim-Unmoved : (n : ℕ) (c : Channel) → Unmoved c (claim_window n c).1
unfolding claim_window
claim-Unmoved n c = ground arith

waits-Unmoved :
    (expired : Bool) (n : ℕ) (c : Channel)
    → Unmoved c (wait_for_send_window n c).1 × Unmoved c (send_window_woken expired n c).1
unfolding wait_for_send_window send_window_woken
waits-Unmoved expired n c = ground (arith, claim-Unmoved n c)

send-Answer : (stream : Stream) (s : Bytes) (c : Channel) → Answer s c (send stream s c)
unfolding send
send-Answer stream s c =
    let asked = wait_for_send_window (length s) c in
    elim c.closed
        as (λ b.
          c.closed ≡ b
          → Answer s c (if b then (raised socket_error, c, []) else send_granted stream s asked)) [
            | true ↦ λ e. (refl, refl, inl e)
            | false ↦ λ e.
                send_granted-Answer stream s c asked
                  (wait_for_send_window-GrantSpec false (length s) c).0
                  (waits-Unmoved false (length s) c).0
          ]
      refl

send_woken-Answer :
    (stream : Stream) (expired : Bool) (s : Bytes) (c : Channel)
    → Answer s c (send_woken stream expired s c)
unfolding send_woken
send_woken-Answer stream expired s c =
    send_granted-Answer stream s c (send_window_woken expired (length s) c)
      (wait_for_send_window-GrantSpec expired (length s) c).1 (waits-Unmoved expired (length s) c).1

-- The same of a `send` with its waits.
abbrev pub Settled : Bytes → Channel → SendResult × Channel × List Effect × List Wakeup → Type 0
Settled s c (r, d, out, left) = Answer s c (r, d, out)

settle-Settled :
    (s : Bytes) (c : Channel) (r : SendResult × Channel × List Effect) (events : List Wakeup)
    (later : SendResult × Channel × List Effect × List Wakeup)
    → Answer s c r
    → (Kept c r.1 → Waits r.1 → Settled s c later)
    → Settled s c (settle r events later)
unfolding settle
settle-Settled s c (sent k, d, out) events later now then_ = now
settle-Settled s c (raised e, d, out) events later now then_ = now
settle-Settled s c (waiting, d, out) events later now then_ = then_ now.1 now.2

-- What holds from a channel with the same size of a packet holds.
Settled-Kept :
    (s : Bytes) (c d : Channel) (r : SendResult × Channel × List Effect × List Wakeup)
    → Kept c d
    → Settled s d r
    → Settled s c r
Settled-Kept s c d (sent k, e, out, left) kept h =
    (h.0, h.1 ∙ kept, λ packet. h.2 (omega (arith, packet, kept)), h.3)
Settled-Kept s c d (raised x, e, out, left) kept h = (h.0, h.1 ∙ kept, h.2)
Settled-Kept s c d (waiting, e, out, left) kept h = (h.0, h.1 ∙ kept, h.2)

wake_until_sent-Settled :
    (events : List Wakeup) (stream : Stream) (s : Bytes) (c : Channel)
    → Waits c
    → Settled s c (wake_until_sent events stream s c)
unfolding wake_until_sent
wake_until_sent-Settled [] stream s c waits = (refl, refl, waits)
wake_until_sent-Settled (e ∷ events) stream s c waits =
    let c' = (run e.others c).0 in
    let r = send_woken stream e.expired s c' in
    let later = wake_until_sent events stream s r.1 in
    Settled-Kept s c c' (settle r events later) (run_packet_size e.others c) (
      settle-Settled s c' r events later (send_woken-Answer stream e.expired s c') (λ kept w.
        Settled-Kept s c' r.1 later kept (wake_until_sent-Settled events stream s r.1 w)))

pub send_waiting-Settled :
    (events : List Wakeup) (stream : Stream) (s : Bytes) (c : Channel)
    → Settled s c (send_waiting events stream s c)
unfolding send_waiting
send_waiting-Settled events stream s c =
    let r = send stream s c in
    let later = wake_until_sent events stream s r.1 in
    settle-Settled s c r events later (send-Answer stream s c)
      (λ kept w. Settled-Kept s c r.1 later kept (wake_until_sent-Settled events stream s r.1 w))
