-- ===== src/BufferedFile/Reading.antt =====
-- `read`, over the stream of a subclass.
use paramiko.Base.{
  ℕ, zero, suc, ◌+◌, ◌-◌, ◌≤◌, ◌≡◌, max, not, [], ◌++◌, Bytes, length, take, drop, leb, ◌==◌,
  if◌then◌else◌, Option, none, some, Error, io_error,
}
use paramiko.BufferedFile.State.{BufferedFile, default_bufsize}

-- The overrides of a subclass: `_read`, where nothing stands for `None` and for an `EOFError` too,
-- and `_write`, which says how much it took. `remaining` is all that is still to come from the
-- stream, and `sink` all that has gone to it.
pub record Device (S : Type 0) : Type 0 where
  pub read_some : ℕ → S → Bytes × S
  pub write_some : Bytes → S → ℕ × S
  pub remaining : S → Bytes
  pub sink : S → Bytes

-- What a subclass promises of `_read`: bytes in their order, no more than were asked for, and some
-- if there are some.
pub record ReadsInOrder {S : Type 0} (device : Device S) : Type 0 where
  pub in_order :
      (n : ℕ) (s : S)
      → (device.read_some n s).0 ++ device.remaining (device.read_some n s).1 ≡ device.remaining s
  pub within : (n : ℕ) (s : S) → length (device.read_some n s).0 ≤ n
  pub ends : (n : ℕ) (s : S) → length (device.read_some (suc n) s).0 ≡ 0 → device.remaining s ≡ []

-- How a call ends: with a value, with an exception, or not within the fuel.
pub data Outcome (V S : Type 0) : Type 0 where
  returned : V → BufferedFile → S → Outcome V S
  raised : Error → Outcome V S
  unfinished : Outcome V S

module _ {S : Type 0} (device : Device S) where
  -- The loop for all the data that is left, each round of which takes a block.
  unfoldable pub drain : ℕ → Bytes → BufferedFile → S → Outcome Bytes S
  drain zero result f s = unfinished
  drain (suc fuel) result f s =
      let (new_data, s') = device.read_some default_bufsize s in
      let again =
        drain fuel (result ++ new_data)
          (record f {
            realpos = f.realpos + length new_data;
            file_pos = f.file_pos + length new_data;
          })
          s' in
      if length new_data == 0 then returned result f s' else again

  -- The loop until the buffer has what is wanted, or the stream ends.
  unfoldable pub fill : ℕ → ℕ → BufferedFile → S → Option (BufferedFile × S)
  fill zero size f s = if leb size (length f.rbuffer) then some (f, s) else none
  fill (suc fuel) size f s =
      let read_size = size - length f.rbuffer in
      let (new_data, s') =
        device.read_some (if f.flag_buffered then max f.bufsize read_size else read_size) s in
      let again =
        fill fuel size
          (record f { rbuffer = f.rbuffer ++ new_data; realpos = f.realpos + length new_data })
          s' in
      if leb size (length f.rbuffer)
      then some (f, s)
      else if length new_data == 0
      then some (f, s')
      else again

  -- The bytes from the front of the buffer.
  unfoldable pub take_read : ℕ → Option (BufferedFile × S) → Outcome Bytes S
  take_read size none = unfinished
  take_read size (some (f, s)) =
      let result = take size f.rbuffer in
      returned result
        (record f { rbuffer = drop size f.rbuffer; file_pos = f.file_pos + length result }) s

  -- `read`; a negative size is `none`. A sized read never needs more rounds than bytes.
  unfoldable pub read : ℕ → Option ℕ → BufferedFile → S → Outcome Bytes S
  read fuel size f s =
      if f.closed then raised io_error else if not f.flag_read then raised io_error else elim size [
        | none ↦
            drain fuel f.rbuffer
              (record f { rbuffer = []; file_pos = f.file_pos + length f.rbuffer }) s
        | some n ↦ take_read n (fill n n f s)
      ]
