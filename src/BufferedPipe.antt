-- ===== src/BufferedPipe.antt =====
-- `BufferedPipe` of paramiko/buffered_pipe.py: a byte buffer that one thread feeds and others read.
-- Each method holds the pipe's lock from its first access to its last, but for the wait in `read`,
-- so a method is a function of the state; the wait is a value, `blocked`, and the caller runs
-- `read_woken` when `feed` or `close` has changed the state.
pub mod Laws
pub mod Fifo
use paramiko.Base.{
  ℕ, ◌-◌, Bool, true, false, not, ◌&&◌, ◌||◌, [], ◌∷◌, ◌++◌, Bytes, length, take, drop, Option,
  none, some, ltb, leb, ◌==◌, if◌then◌else◌,
}

-- `event` is the flag of the `threading.Event` or pipe that `set_event` attached, if any.
pub record BufferedPipe : Type 0 where
  pub buffer : Bytes
  pub closed : Bool
  pub event : Option Bool

abbrev pub new : BufferedPipe
new = record { buffer = []; closed = false; event = none }

-- `if self._event is not None: self._event.set()`, and the same for `clear`.
abbrev pub signal : Bool → Option Bool → Option Bool
signal flag none = none
signal flag (some _) = some flag

-- `event` is the attached object itself; its flag before the call does not matter.
unfoldable pub set_event : BufferedPipe → BufferedPipe
set_event p = record p { event = some (p.closed || ltb 0 (length p.buffer)) }

unfoldable pub feed : Bytes → BufferedPipe → BufferedPipe
feed bytes p = record p { event = signal true p.event; buffer = p.buffer ++ bytes }

unfoldable pub read_ready : BufferedPipe → Bool
read_ready p = if length p.buffer == 0 then false else true

-- What a call of `read` ends with, or that it waits on the condition.
pub data ReadResult : Type 0 where
  received : Bytes → ReadResult
  timed_out blocked : ReadResult

-- The part of `read` behind the wait: something is in the buffer, or the pipe is closed.
unfoldable pub take_buffered : ℕ → BufferedPipe → Bytes × BufferedPipe
take_buffered nbytes p =
    if leb (length p.buffer) nbytes
    then (
      p.buffer,
      record p { buffer = []; event = if not p.closed then signal false p.event else p.event },
    )
    else (take nbytes p.buffer, record p { buffer = drop nbytes p.buffer })

-- What `read` does when `self._cv.wait(timeout)` returns: `expired` says that the time left has run
-- out, which raises whatever the buffer holds; then the loop tests again.
unfoldable pub read_woken : Bool → ℕ → BufferedPipe → ReadResult × BufferedPipe
read_woken expired nbytes p =
    if expired
    then (timed_out, p)
    else if length p.buffer == 0 && not p.closed
    then (blocked, p)
    else (let (out, p') = take_buffered nbytes p in (received out, p'))

-- `timeout == 0.0` is the flag `no_wait`. The first test of the loop is known here.
unfoldable pub read : Bool → ℕ → BufferedPipe → ReadResult × BufferedPipe
read no_wait nbytes p =
    if length p.buffer == 0
    then (if p.closed then (received [], p) else if no_wait then (timed_out, p) else (blocked, p))
    else (let (out, p') = take_buffered nbytes p in (received out, p'))

unfoldable pub empty : BufferedPipe → Bytes × BufferedPipe
empty p = (
  p.buffer,
  record p { buffer = []; event = if not p.closed then signal false p.event else p.event },
)

unfoldable pub close : BufferedPipe → BufferedPipe
close p = record p { closed = true; event = signal true p.event }

unfoldable pub len : BufferedPipe → ℕ
len p = length p.buffer
