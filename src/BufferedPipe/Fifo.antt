-- ===== src/BufferedPipe/Fifo.antt =====
-- The pipe is a first-in first-out queue of bytes, whatever the order of the calls.
use paramiko.Base.{
  ℕ, ◌≡◌, refl, sym, ap, ◌∙◌, Bool, List, [], ◌∷◌, ◌++◌, Bytes, take-append-drop, append_assoc,
  append-nil, false,
}
use paramiko.BufferedPipe.{
  BufferedPipe, set_event, feed, ReadResult, received, timed_out, blocked, read_woken, read, empty,
  close,
}
use paramiko.BufferedPipe.Laws.{ReadSpec, WokenSpec, read-ReadSpec}

-- One call of a method, from whichever thread holds the lock next.
pub data Call : Type 0 where
  set_event_call close_call empty_call : Call
  feed_call : Bytes → Call
  read_call wake_call : Bool → ℕ → Call

abbrev out_bytes : ReadResult → Bytes
out_bytes (received out) = out
out_bytes _ = []

-- The bytes that a call gives to its caller, and the pipe after it.
unfoldable pub call : Call → BufferedPipe → Bytes × BufferedPipe
call set_event_call p = ([], set_event p)
call close_call p = ([], close p)
call empty_call p = empty p
call (feed_call bytes) p = ([], feed bytes p)
call (read_call no_wait n) p = let (r, q) = read no_wait n p in (out_bytes r, q)
call (wake_call expired n) p = let (r, q) = read_woken expired n p in (out_bytes r, q)

unfoldable pub run : List Call → BufferedPipe → Bytes × BufferedPipe
run [] p = ([], p)
run (c ∷ cs) p = let (out, q) = call c p in let (more, r) = run cs q in (out ++ more, r)

abbrev pub added : Call → Bytes
added (feed_call bytes) = bytes
added _ = []

-- All the bytes that the calls feed.
abbrev pub fed : List Call → Bytes
fed [] = []
fed (c ∷ cs) = added c ++ fed cs

ReadSpec-keeps :
    (no_wait : Bool) (n : ℕ) (p : BufferedPipe) (r : ReadResult) (q : BufferedPipe)
    → ReadSpec no_wait n p (r, q)
    → out_bytes r ++ q.buffer ≡ p.buffer
ReadSpec-keeps no_wait n p (received out) q (front, rest, _, _) =
    rw (front, rest) (take-append-drop n p.buffer)
ReadSpec-keeps no_wait n p timed_out q h = ap (λ x. x.buffer) h.0
ReadSpec-keeps no_wait n p blocked q h = ap (λ x. x.buffer) h.0

WokenSpec-keeps :
    (expired : Bool) (n : ℕ) (p : BufferedPipe) (r : ReadResult) (q : BufferedPipe)
    → WokenSpec expired n p (r, q)
    → out_bytes r ++ q.buffer ≡ p.buffer
WokenSpec-keeps expired n p (received out) q h = ReadSpec-keeps false n p (received out) q h.1
WokenSpec-keeps expired n p timed_out q h = ap (λ x. x.buffer) h.0
WokenSpec-keeps expired n p blocked q h = ReadSpec-keeps false n p blocked q h.1

keeps_all :
    (p : BufferedPipe) (out rest : Bytes) → out ++ rest ≡ p.buffer → out ++ rest ≡ p.buffer ++ []
keeps_all p out rest h = h ∙ sym (append-nil p.buffer)

call_keeps :
    (c : Call) (p : BufferedPipe) → (call c p).0 ++ (call c p).1.buffer ≡ p.buffer ++ added c
unfolding call
call_keeps set_event_call p = unfold set_event in keeps_all p [] p.buffer refl
call_keeps close_call p = unfold close in keeps_all p [] p.buffer refl
call_keeps empty_call p = unfold empty in refl
call_keeps (feed_call bytes) p = unfold feed in refl
call_keeps (read_call no_wait n) p =
    let (r, q) = read no_wait n p in
    keeps_all p (out_bytes r) q.buffer
      (ReadSpec-keeps no_wait n p r q (read-ReadSpec no_wait no_wait n p).0)
call_keeps (wake_call expired n) p =
    let (r, q) = read_woken expired n p in
    keeps_all p (out_bytes r) q.buffer
      (WokenSpec-keeps expired n p r q (read-ReadSpec expired expired n p).1)

-- What the readers got, in order, and what is still buffered are the bytes that were buffered
-- before and those that were fed, in order: nothing is lost, repeated or reordered, whatever the
-- sequence of calls.
pub run_fifo :
    (cs : List Call) (p : BufferedPipe) → (run cs p).0 ++ (run cs p).1.buffer ≡ p.buffer ++ fed cs
unfolding run
run_fifo [] p = sym (append-nil p.buffer)
run_fifo (c ∷ cs) p =
    append_assoc (call c p).0 _ _
    ∙ ap (◌++◌ (call c p).0) (run_fifo cs (call c p).1)
    ∙ sym (append_assoc (call c p).0 (call c p).1.buffer (fed cs))
    ∙ ap (λ k. k ++ fed cs) (call_keeps c p)
    ∙ append_assoc p.buffer (added c) (fed cs)
