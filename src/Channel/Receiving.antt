-- ===== src/Channel/Receiving.antt =====
-- `recv`, `recv_stderr`, the data that the transport feeds, and the window granted to the peer.
use paramiko.Base.{
  ℕ, ◌+◌, Bool, not, ◌&&◌, ◌||◌, List, [], ◌∷◌, Bytes, length, leb, ltb, ◌==◌, if◌then◌else◌, Error,
  socket_timeout,
}
use paramiko.BufferedPipe
use paramiko.BufferedPipe.{BufferedPipe, ReadResult}
use paramiko.Message.{Message, get_int, get_binary}
use paramiko.Channel.State.{Effect, window_adjust, Channel}
use paramiko.Channel.Sending.{is_no_wait, is_forever, Stream, stdout, stderr}

-- `_check_add_window`
unfoldable pub check_add_window : ℕ → Channel → ℕ × Channel
check_add_window n c =
    if c.closed || c.eof_received || not c.active
    then (0, c)
    else (let sofar = c.in_window_sofar + n in
        if leb sofar c.in_window_threshold
        then (0, record c { in_window_sofar = sofar })
        else (sofar, record c { in_window_sofar = 0 }))

pub data RecvResult : Type 0 where
  got : Bytes → RecvResult
  recv_raised : Error → RecvResult
  recv_waiting : RecvResult

abbrev pub buffer_of : Stream → Channel → BufferedPipe
buffer_of stdout c = c.in_buffer
buffer_of stderr c = c.in_stderr_buffer

abbrev pub with_buffer : Stream → BufferedPipe → Channel → Channel
with_buffer stdout p c = record c { in_buffer = p }
with_buffer stderr p c = record c { in_stderr_buffer = p }

-- The part of `recv` behind the read from the pipe.
unfoldable pub recv_read : ReadResult → Channel → RecvResult × Channel × List Effect
recv_read ReadResult.timed_out c = (recv_raised socket_timeout, c, [])
recv_read ReadResult.blocked c = (recv_waiting, c, [])
recv_read (ReadResult.received out) c =
    let (ack, c') = check_add_window (length out) c in
    if ltb 0 ack then (got out, c', window_adjust c'.remote_chanid ack ∷ []) else (got out, c', [])

-- `recv` reads from one buffer and `recv_stderr` from the other. The read, under the lock of the
-- pipe, and the check of the window, under that of the channel, are one step here; in the code
-- another thread can come in between, when it finds the data taken and the window not yet counted.
-- The timeout of a read that waits is the one that is set when the wait ends.
unfoldable pub recv : Stream → ℕ → Channel → RecvResult × Channel × List Effect
recv stream nbytes c =
    let (r, p) = BufferedPipe.read (is_no_wait c.timeout) nbytes (buffer_of stream c) in
    recv_read r (with_buffer stream p c)

unfoldable pub recv_woken : Stream → Bool → ℕ → Channel → RecvResult × Channel × List Effect
recv_woken stream expired nbytes c =
    let over = expired && not (is_forever c.timeout) in
    let (r, p) = BufferedPipe.read_woken over nbytes (buffer_of stream c) in
    recv_read r (with_buffer stream p c)

unfoldable pub recv_ready : Stream → Channel → Bool
recv_ready stream c = BufferedPipe.read_ready (buffer_of stream c)

-- `_feed` with bytes, and with a message.
unfoldable pub feed_bytes : Bytes → Channel → Channel
feed_bytes s c = record c { in_buffer = BufferedPipe.feed s c.in_buffer }

unfoldable pub feed : Message → Channel → Channel
feed m c = feed_bytes (get_binary m).0 c

-- `_feed_extended`
unfoldable pub feed_extended : Message → Channel → Channel
feed_extended m c =
    let (code, m') = get_int m in
    let (s, _) = get_binary m' in
    if not (code == 1)
    then c
    else if c.combine_stderr
    then feed_bytes s c
    else record c { in_stderr_buffer = BufferedPipe.feed s c.in_stderr_buffer }

-- `set_combine_stderr`: what is in the second buffer moves to the first, and the old setting is
-- returned.
unfoldable pub set_combine_stderr : Bool → Channel → Bool × Channel
set_combine_stderr combine c =
    if combine && not c.combine_stderr
    then (let (pending, p) = BufferedPipe.empty c.in_stderr_buffer in
        let moved = record c { combine_stderr = combine; in_stderr_buffer = p } in
        (c.combine_stderr, if ltb 0 (length pending) then feed_bytes pending moved else moved))
    else (c.combine_stderr, record c { combine_stderr = combine })
