-- ===== src/Channel/Window.antt =====
-- The window: what a sender is granted, and what the receiver grants back.
use paramiko.Base.{
  ℕ, ◌+◌, ◌-◌, ◌≤◌, ◌<◌, ◌≡◌, ◌≢◌, refl, inl, inr, Bool, true, false, ◌&&◌, ◌||◌, ◌==◌,
  if◌then◌else◌, Bool-cases, arith,
}
use paramiko.Channel.State.{Timeout, forever, Channel}
use paramiko.Channel.Sending.{
  Grant, granted, no_time, claim_size, is_no_wait, is_forever, blocked, claim_window,
  wait_for_send_window, send_window_woken,
}

claim_size_bounds :
    (size window packet : ℕ)
    → (claim_size size window packet ≤ size)
      × (claim_size size window packet ≤ window)
      × (claim_size size window packet ≤ packet - 64)
      × (0 < size → 0 < window → 64 < packet → 0 < claim_size size window packet)
unfolding claim_size
claim_size_bounds size window packet =
    (ground arith, ground arith, ground arith, λ s w p. ground arith)

-- The channel takes no more data from its user.
abbrev pub is_shut : Channel → Bool
is_shut c = c.closed || c.eof_sent

-- What each answer to a request for `size` bytes says of the channel before (`c`) and after (`d`).
abbrev pub GrantSpec : ℕ → Channel → Grant × Channel → Type 0
GrantSpec size c (granted n, d) =
    (n ≤ size)
    × (n ≤ c.out_max_packet_size - 64)
    × (d.out_window_size + n ≡ c.out_window_size)
    × (is_shut c ≡ true → n ≡ 0)
    × (is_shut c ≡ false → 0 < size → 64 < c.out_max_packet_size → 0 < n)
GrantSpec size c (no_time, d) = (d ≡ c) × (c.timeout ≢ forever)
GrantSpec size c (blocked, d) = (d ≡ c) × (c.out_window_size ≡ 0) × (is_shut c ≡ false)

claim_window-GrantSpec :
    (size : ℕ) (c : Channel) → 0 < c.out_window_size → GrantSpec size c (claim_window size c)
unfolding claim_window
claim_window-GrantSpec size c h =
    let (le_size, le_window, le_packet, grows) =
      claim_size_bounds size c.out_window_size c.out_max_packet_size in
    elim (Bool-cases (is_shut c)) [
      | inl e ↦ rw e (omega arith, omega arith, omega arith, λ _. refl, λ f. cc)
      | inr e ↦ rw e (le_size, le_packet, omega arith, λ f. cc, λ _ s p. grows s h p)
    ]

shut_grant : (size : ℕ) (c : Channel) → is_shut c ≡ true → GrantSpec size c (granted 0, c)
shut_grant size c e = (omega arith, omega arith, omega arith, λ _. refl, λ f. cc)

no_wait-ne-forever : (t : Timeout) → is_no_wait t ≡ true → t ≢ forever
no_wait-ne-forever t h e = ground arith

first_answer : (size : ℕ) (c : Channel) → GrantSpec size c (wait_for_send_window size c)
unfolding wait_for_send_window
first_answer size c = elim (Bool-cases (is_shut c)) [
  | inl e ↦ rw e (shut_grant size c e)
  | inr e ↦ elim (Bool-cases (c.out_window_size == 0)) [
    | inr w ↦ rw (e, w) (claim_window-GrantSpec size c (ground arith))
    | inl w ↦ elim (Bool-cases (is_no_wait c.timeout)) [
      | inl t ↦ rw (e, w, t) (refl, no_wait-ne-forever c.timeout t)
      | inr t ↦ rw (e, w, t) (refl, ground arith, e)
    ]
  ]
]

limited-ne-forever :
    (expired : Bool) (t : Timeout)
    → (expired && (if is_forever t then false else true)) ≡ true
    → t ≢ forever
limited-ne-forever true t h e = ground arith
limited-ne-forever false t h e = cc

later_answer :
    (expired : Bool) (size : ℕ) (c : Channel) → GrantSpec size c (send_window_woken expired size c)
unfolding send_window_woken
later_answer expired size c =
    elim (Bool-cases (expired && (if is_forever c.timeout then false else true))) [
      | inl x ↦ rw x (refl, limited-ne-forever expired c.timeout x)
      | inr x ↦ elim (Bool-cases (c.out_window_size == 0)) [
        | inr w ↦ rw (x, w) (claim_window-GrantSpec size c (ground arith))
        | inl w ↦ elim (Bool-cases (is_shut c)) [
          | inl e ↦ rw (x, w, e) (shut_grant size c e)
          | inr e ↦ rw (x, w, e) (refl, ground arith, e)
        ]
      ]
    ]

pub wait_for_send_window-GrantSpec :
    (expired : Bool) (size : ℕ) (c : Channel)
    → GrantSpec size c (wait_for_send_window size c)
      × GrantSpec size c (send_window_woken expired size c)
wait_for_send_window-GrantSpec expired size c = (first_answer size c, later_answer expired size c)
