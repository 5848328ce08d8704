-- ===== src/Channel/Order.antt =====
-- The order of the messages of one channel: no data after end of file, nothing but replies after
-- the close, and an end of file before every close.
pub mod Steps
use paramiko.Base.{◌≡◌, refl, Bool, true, false, List, [], ◌∷◌, ◌++◌, arith}
use paramiko.Channel.State.{
  Effect, window_adjust, channel_data, extended_data, channel_eof, channel_close, channel_success,
  channel_failure, unlink_channel, Channel,
}

-- The messages may follow one another on a channel that has sent an end of file (`eof`), or that
-- is closed (`shut`). A close wants an end of file before it, so none can follow the close.
abbrev pub InOrder : Bool → Bool → List Effect → Type 0
InOrder eof shut [] = Unit
InOrder eof shut (window_adjust chan n ∷ es) = (shut ≡ false) × InOrder eof shut es
InOrder eof shut (channel_data chan s ∷ es) = (eof ≡ false) × (shut ≡ false) × InOrder eof shut es
InOrder eof shut (extended_data chan code s ∷ es) =
    (eof ≡ false) × (shut ≡ false) × InOrder eof shut es
InOrder eof shut (channel_eof chan ∷ es) = (eof ≡ false) × InOrder true shut es
InOrder eof shut (channel_close chan ∷ es) = (eof ≡ true) × (shut ≡ false) × InOrder eof true es
InOrder eof shut (channel_success chan ∷ es) = InOrder eof shut es
InOrder eof shut (channel_failure chan ∷ es) = InOrder eof shut es
InOrder eof shut (unlink_channel chan ∷ es) = InOrder eof shut es

-- The two flags after the messages.
abbrev pub eof_after : Bool → List Effect → Bool
eof_after eof [] = eof
eof_after eof (channel_eof chan ∷ es) = eof_after true es
eof_after eof (_ ∷ es) = eof_after eof es

abbrev pub shut_after : Bool → List Effect → Bool
shut_after shut [] = shut
shut_after shut (channel_close chan ∷ es) = shut_after true es
shut_after shut (_ ∷ es) = shut_after shut es

-- One call: its messages are in order, and the flags of the channel keep up with them.
abbrev pub StepInOrder : Channel → Channel × List Effect → Type 0
StepInOrder c (d, out) =
    InOrder c.eof_sent c.closed out
    × (eof_after c.eof_sent out ≡ d.eof_sent)
    × (shut_after c.closed out ≡ true → d.closed ≡ true)

-- A channel that is not closed restricts its messages less.
InOrder-open : (eof shut : Bool) (es : List Effect) → InOrder eof shut es → InOrder eof false es
InOrder-open eof false es h = h
InOrder-open eof true [] h = tt
InOrder-open eof true (window_adjust chan n ∷ es) h = absurd (ground arith)
InOrder-open eof true (channel_data chan s ∷ es) h = absurd (ground arith)
InOrder-open eof true (extended_data chan code s ∷ es) h = absurd (ground arith)
InOrder-open eof true (channel_eof chan ∷ es) h = (h.0, InOrder-open true true es h.1)
InOrder-open eof true (channel_close chan ∷ es) h = absurd (ground arith)
InOrder-open eof true (channel_success chan ∷ es) h = InOrder-open eof true es h
InOrder-open eof true (channel_failure chan ∷ es) h = InOrder-open eof true es h
InOrder-open eof true (unlink_channel chan ∷ es) h = InOrder-open eof true es h

pub InOrder-append :
    (eof shut : Bool) (xs ys : List Effect)
    → InOrder eof shut xs
    → InOrder (eof_after eof xs) (shut_after shut xs) ys
    → InOrder eof shut (xs ++ ys)
InOrder-append eof shut [] ys hx hy = hy
InOrder-append eof shut (window_adjust chan n ∷ xs) ys hx hy =
    (hx.0, InOrder-append eof shut xs ys hx.1 hy)
InOrder-append eof shut (channel_data chan s ∷ xs) ys hx hy =
    (hx.0, hx.1, InOrder-append eof shut xs ys hx.2 hy)
InOrder-append eof shut (extended_data chan code s ∷ xs) ys hx hy =
    (hx.0, hx.1, InOrder-append eof shut xs ys hx.2 hy)
InOrder-append eof shut (channel_eof chan ∷ xs) ys hx hy =
    (hx.0, InOrder-append true shut xs ys hx.1 hy)
InOrder-append eof shut (channel_close chan ∷ xs) ys hx hy =
    (hx.0, hx.1, InOrder-append eof true xs ys hx.2 hy)
InOrder-append eof shut (channel_success chan ∷ xs) ys hx hy = InOrder-append eof shut xs ys hx hy
InOrder-append eof shut (channel_failure chan ∷ xs) ys hx hy = InOrder-append eof shut xs ys hx hy
InOrder-append eof shut (unlink_channel chan ∷ xs) ys hx hy = InOrder-append eof shut xs ys hx hy

-- Messages that may follow a channel's flags may follow the flags that the messages before left.
pub continue :
    (eof shut shut' : Bool) (ys : List Effect)
    → (shut ≡ true → shut' ≡ true)
    → InOrder eof shut' ys
    → InOrder eof shut ys
continue eof true shut' ys h k = rw (h refl) at k
continue eof false shut' ys h k = InOrder-open eof shut' ys k
