-- ===== src/BufferedPipe/Laws.antt =====
-- When a read answers, and with what; and what the attached event says.
use paramiko.Base.{
  ℕ, suc, length-drop, ◌≤◌, ◌≡◌, ◌≢◌, inl, inr, refl, Bool, true, false, Bool-cases, sym, ◌||◌, [],
  ◌∷◌, ◌++◌, Bytes, length, take, drop, take_all, drop_all, append-nil, Option, none, some, leb,
  ◌==◌, arith,
}
use paramiko.BufferedPipe.{
  BufferedPipe, set_event, feed, read_ready, ReadResult, received, timed_out, blocked,
  take_buffered, signal, read_woken, read, empty, close,
}

length_zero : (xs : Bytes) → (length xs == 0) ≡ true → xs ≡ []
length_zero [] h = refl
length_zero (x ∷ xs) h = absurd (ground arith)

length_pos : (xs : Bytes) → (length xs == 0) ≡ false → xs ≢ []
length_pos [] h e = cc
length_pos (x ∷ xs) h e = cc

pub take_buffered_lem :
    (n : ℕ) (p : BufferedPipe)
    → ((take_buffered n p).0 ≡ take n p.buffer)
      × ((take_buffered n p).1.buffer ≡ drop n p.buffer)
      × ((take_buffered n p).1.closed ≡ p.closed)
unfolding take_buffered
take_buffered_lem n p = elim (Bool-cases (leb (length p.buffer) n)) [
  | inl e ↦ rw e (
      let all : length p.buffer ≤ n = ground arith in
      (sym (take_all n p.buffer all), sym (drop_all n p.buffer all), refl))
  | inr e ↦ rw e (refl, refl, refl)
]

-- What each answer of a read says of the pipe before (`p`) and after (`q`).
abbrev pub ReadSpec : Bool → ℕ → BufferedPipe → ReadResult × BufferedPipe → Type 0
ReadSpec no_wait n p (received out, q) =
    (out ≡ take n p.buffer)
    × (q.buffer ≡ drop n p.buffer)
    × (q.closed ≡ p.closed)
    × ((p.buffer ≡ []) → (p.closed ≡ true))
ReadSpec no_wait n p (timed_out, q) =
    (q ≡ p) × (no_wait ≡ true) × (p.buffer ≡ []) × (p.closed ≡ false)
ReadSpec no_wait n p (blocked, q) =
    (q ≡ p) × (no_wait ≡ false) × (p.buffer ≡ []) × (p.closed ≡ false)

-- The same of a read that goes on after a wait.
abbrev pub WokenSpec : Bool → ℕ → BufferedPipe → ReadResult × BufferedPipe → Type 0
WokenSpec expired n p (timed_out, q) = (q ≡ p) × (expired ≡ true)
WokenSpec expired n p (received out, q) = (expired ≡ false) × ReadSpec false n p (received out, q)
WokenSpec expired n p (blocked, q) = (expired ≡ false) × ReadSpec false n p (blocked, q)

abbrev pipe : Bytes → Bool → Option Bool → BufferedPipe
pipe b c e = record { buffer = b; closed = c; event = e }

took :
    (no_wait : Bool) (n x : ℕ) (b : Bytes) (c : Bool) (e : Option Bool)
    → ReadSpec no_wait n
        (pipe (x ∷ b) c e)
        (let (out, q) = take_buffered n (pipe (x ∷ b) c e) in (received out, q))
took no_wait n x b c e =
    let (out, rest, closed) = take_buffered_lem n (pipe (x ∷ b) c e) in (out, rest, closed, λ z. cc)

took_end :
    (n : ℕ) (e : Option Bool)
    → ReadSpec false n
        (pipe [] true e)
        (let (out, q) = take_buffered n (pipe [] true e) in (received out, q))
took_end n e =
    let (out, rest, closed) = take_buffered_lem n (pipe [] true e) in (out, rest, closed, λ z. refl)

suc_nonzero : (n : ℕ) → (suc n == 0) ≡ false
suc_nonzero n = ground arith

read_cases :
    (no_wait : Bool) (n : ℕ) (b : Bytes) (c : Bool) (e : Option Bool)
    → ReadSpec no_wait n (pipe b c e) (read no_wait n (pipe b c e))
unfolding read
read_cases no_wait n [] true e =
    (sym (take_all n [] (omega arith)), sym (drop_all n [] (omega arith)), refl, λ _. refl)
read_cases true n [] false e = (refl, refl, refl, refl)
read_cases false n [] false e = (refl, refl, refl, refl)
read_cases no_wait n (x ∷ b) c e = rw (suc_nonzero (length b)) (took no_wait n x b c e)

woken_cases :
    (expired : Bool) (n : ℕ) (b : Bytes) (c : Bool) (e : Option Bool)
    → WokenSpec expired n (pipe b c e) (read_woken expired n (pipe b c e))
unfolding read_woken
woken_cases true n b c e = (refl, refl)
woken_cases false n [] true e = (refl, took_end n e)
woken_cases false n [] false e = (refl, (refl, refl, refl, refl))
woken_cases false n (x ∷ b) c e = rw (suc_nonzero (length b)) (refl, took false n x b c e)

-- A read of a pipe that has bytes, or is closed, gives the front of the buffer and leaves the rest,
-- whether it may wait or not; so it gives nothing at end of file only on a closed pipe. On a pipe that
-- is empty and open it leaves the pipe as it is, and times out at once where it may not wait, and
-- waits where it may. A read that is woken up in time does as one that may wait, and one whose time
-- has run out raises and leaves the pipe as it is.
pub read-ReadSpec :
    (no_wait expired : Bool) (n : ℕ) (p : BufferedPipe)
    → ReadSpec no_wait n p (read no_wait n p) × WokenSpec expired n p (read_woken expired n p)
read-ReadSpec no_wait expired n p = (
  read_cases no_wait n p.buffer p.closed p.event,
  woken_cases expired n p.buffer p.closed p.event,
)

-- The flag of the attached event, where there is one.
abbrev pub Flagged : Option Bool → Bool → Type 0
Flagged none b = Unit
Flagged (some flag) b = flag ≡ b

-- The event is set exactly when a read would answer.
abbrev pub Signals : BufferedPipe → Type 0
Signals p = Flagged p.event (p.closed || read_ready p)

Flagged-signal : (flag b : Bool) (e : Option Bool) → flag ≡ b → Flagged (signal flag e) b
Flagged-signal flag b none h = tt
Flagged-signal flag b (some _) h = h

ready_append : (xs bytes : Bytes) → bytes ≢ [] → (length (xs ++ bytes) == 0) ≡ false
ready_append [] [] h = absurd (h refl)
ready_append [] (b ∷ bytes) h = ground arith
ready_append (x ∷ xs) bytes h = ground arith

feed-Signals : (p : BufferedPipe) (bytes : Bytes) → bytes ≢ [] → Signals (feed bytes p)
unfolding feed read_ready
feed-Signals p bytes h =
    Flagged-signal true _ p.event (rw (ready_append p.buffer bytes h) (ground arith))

close-Signals : (p : BufferedPipe) → Signals (close p)
unfolding close
close-Signals p = Flagged-signal true _ p.event refl

set_event-Signals : (p : BufferedPipe) → Signals (set_event p)
unfolding set_event read_ready
set_event-Signals p = ground arith

take_cases :
    (n : ℕ) (b : Bytes) (c : Bool) (e : Option Bool)
    → Signals (pipe b c e)
    → Signals (take_buffered n (pipe b c e)).1
unfolding take_buffered read_ready
take_cases n b c none s = elim (Bool-cases (leb (length b) n)) [
  | inl e ↦ rw e (elim (Bool-cases c) [ inl h ↦ rw h tt | inr h ↦ rw h tt ])
  | inr e ↦ rw e tt
]
take_cases n b true (some f) s = elim (Bool-cases (leb (length b) n)) [
  | inl e ↦ rw e s
  | inr e ↦ rw e s
]
take_cases n b false (some f) s = elim (Bool-cases (leb (length b) n)) [
  | inl e ↦ rw e refl
  | inr e ↦ rw e (ground (arith, length-drop n b))
]

empty_cases :
    (b : Bytes) (c : Bool) (e : Option Bool) → Signals (pipe b c e) → Signals (empty (pipe b c e)).1
unfolding empty read_ready
empty_cases b true none s = tt
empty_cases b true (some f) s = s
empty_cases b false none s = tt
empty_cases b false (some f) s = refl

read-Signals_cases :
    (no_wait : Bool) (n : ℕ) (b : Bytes) (c : Bool) (e : Option Bool)
    → Signals (pipe b c e)
    → Signals (read no_wait n (pipe b c e)).1
unfolding read
read-Signals_cases no_wait n [] true e s = s
read-Signals_cases true n [] false e s = s
read-Signals_cases false n [] false e s = s
read-Signals_cases no_wait n (x ∷ b) c e s =
    rw (suc_nonzero (length b)) (take_cases n (x ∷ b) c e s)

woken-Signals_cases :
    (expired : Bool) (n : ℕ) (b : Bytes) (c : Bool) (e : Option Bool)
    → Signals (pipe b c e)
    → Signals (read_woken expired n (pipe b c e)).1
unfolding read_woken
woken-Signals_cases true n b c e s = s
woken-Signals_cases false n [] true e s = take_cases n [] true e s
woken-Signals_cases false n [] false e s = s
woken-Signals_cases false n (x ∷ b) c e s = rw (suc_nonzero (length b)) (take_cases n (x ∷ b) c e s)

-- After `set_event` the event is set exactly when a read would answer, and every other method
-- keeps it so, except a `feed` of no bytes.
pub Signals-kept :
    (p : BufferedPipe)
    → Signals (set_event p)
      × Signals (close p)
      × ((bytes : Bytes) → bytes ≢ [] → Signals (feed bytes p))
      × ((no_wait : Bool) (n : ℕ) → Signals p → Signals (read no_wait n p).1)
      × ((expired : Bool) (n : ℕ) → Signals p → Signals (read_woken expired n p).1)
      × (Signals p → Signals (empty p).1)
Signals-kept p = (
  set_event-Signals p,
  close-Signals p,
  feed-Signals p,
  λ no_wait n s. read-Signals_cases no_wait n p.buffer p.closed p.event s,
  λ expired n s. woken-Signals_cases expired n p.buffer p.closed p.event s,
  λ s. empty_cases p.buffer p.closed p.event s,
)

-- A `feed` of no bytes sets the event of an empty open pipe, though a read would still wait.
pub feed_nothing :
    (p : BufferedPipe) {flag : Bool}
    → p.buffer ≡ []
    → p.closed ≡ false
    → p.event ≡ some flag
    → ¬ Signals (feed [] p)
unfolding feed read_ready
feed_nothing p b c e s = ground (arith, append-nil p.buffer)
