-- ===== src/Packetizer/Reading.antt =====
-- `read_all`, over what the socket does.
use paramiko.Base.{
  ℕ, suc, zero, ◌-◌, min, Bool, ◌&&◌, List, [], ◌∷◌, ◌++◌, Bytes, length, take, drop, ◌==◌,
  if◌then◌else◌, Error, eof_error, need_rekey_exception, socket_error,
}

-- A call `recv(n)`: it gives up to k + 1 of the bytes that the peer has sent, or none at the end of
-- them; or it times out, as `EAGAIN` does; or it fails.
pub data Recv : Type 0 where
  gives : ℕ → Recv
  times_out fails : Recv

-- A call, and what other threads have made of the flags at that time.
pub record Event : Type 0 where
  pub recv : Recv
  pub handshake_timed_out : Bool
  pub closed : Bool
  pub need_rekey : Bool

-- The end of `read_all`: the bytes, an exception, or a wait for the next event. The bytes of the
-- peer that are not read, and the events after it, are kept.
pub data ReadAll : Type 0 where
  got : Bytes → Bytes → List Event → ReadAll
  raised : Error → Bytes → Bytes → List Event → ReadAll
  waits : Bytes → Bytes → ReadAll

-- After a timeout. The keepalive, which only writes, is left out.
unfoldable pub after_timeout : Bool → Event → Bytes → Bytes → List Event → ReadAll → ReadAll
after_timeout check_rekey e out stream es next =
    if e.closed
    then raised eof_error out stream es
    else if check_rekey && (length out == 0 && e.need_rekey)
    then raised need_rekey_exception out stream es
    else next

-- The loop, with n bytes to go.
unfoldable pub read_on : Bool → ℕ → Bytes → Bytes → List Event → ReadAll
read_on check_rekey zero out stream es = got out stream es
read_on check_rekey (suc n) out stream [] = waits out stream
read_on check_rekey (suc n) out stream (e ∷ es) =
    let again = read_on check_rekey (suc n) out stream es in
    let further = λ (x : Bytes).
      read_on check_rekey (suc n - length x) (out ++ x) (drop (length x) stream) es in
    if e.handshake_timed_out then raised eof_error out stream es else elim e.recv [
      | gives k ↦
          let x = take (min (suc n) (suc k)) stream in
          if length x == 0 then raised eof_error out stream es else further x
      | times_out ↦ after_timeout check_rekey e out stream es again
      | fails ↦ raised (if e.closed then eof_error else socket_error) out stream es
    ]

-- `read_all`: what the reading of the banner has left over comes first. The result has the new
-- remainder.
unfoldable pub read_all : Bool → ℕ → Bytes → Bytes → List Event → ReadAll × Bytes
read_all check_rekey n remainder stream es =
    let out = take n remainder in
    (read_on check_rekey (n - length out) out stream es, drop n remainder)
