-- ===== src/BufferedFile/Writing.antt =====
-- `write`, `flush` and `close`.
use paramiko.Base.{
  ℕ, zero, suc, ◌+◌, ◌-◌, ◌≤◌, ◌<◌, ◌≡◌, true, not, List, [], ◌∷◌, ◌++◌, Bytes, length, take, drop,
  leb, ◌==◌, if◌then◌else◌, Option, none, some, io_error, Result, ok, err,
}
use paramiko.BufferedFile.State.{BufferedFile}
use paramiko.BufferedFile.Reading.{Device}

-- What a subclass promises of `_write`: it takes some of the bytes, from the front.
pub record WritesSome {S : Type 0} (device : Device S) : Type 0 where
  pub takes_front :
      (b : Bytes) (s : S)
      → device.sink (device.write_some b s).1 ≡ device.sink s ++ take (device.write_some b s).0 b
  pub at_most : (b : Bytes) (s : S) → (device.write_some b s).0 ≤ length b
  pub takes_some : (b : Bytes) (s : S) → 0 < length b → 0 < (device.write_some b s).0

-- The last linefeed among the bytes: what is up to it, and what is behind.
unfoldable pub rfind : ℕ → Bytes → Option ℕ
rfind c [] = none
rfind c (b ∷ s) = elim (rfind c s) [
  | some i ↦ some (suc i)
  | none ↦ if b == c then some 0 else none
]

-- The positions after a partial write.
unfoldable pub count_written : ℕ → BufferedFile → BufferedFile
count_written count f =
    if f.flag_append
    then record f { size = f.size + count; file_pos = f.size + count; realpos = f.size + count }
    else record f { file_pos = f.file_pos + count; realpos = f.realpos + count }

module _ {S : Type 0} (device : Device S) where
  -- `_write_all`: the stream may take a part at a time. `none` is a loop that did not end.
  unfoldable pub write_all : ℕ → Bytes → BufferedFile → S → Option (BufferedFile × S)
  write_all zero b f s = if length b == 0 then some (f, s) else none
  write_all (suc fuel) b f s =
      let (count, s') = device.write_some b s in
      let again = write_all fuel (drop count b) (count_written count f) s' in
      if length b == 0 then some (f, s) else again

  unfoldable pub set_wbuffer : Bytes → Option (BufferedFile × S) → Option (BufferedFile × S)
  set_wbuffer b none = none
  set_wbuffer b (some (f, s)) = some (record f { wbuffer = b }, s)

  -- The fuel of each loop is the number of bytes that it writes.
  unfoldable pub flush : BufferedFile → S → Option (BufferedFile × S)
  flush f s = set_wbuffer [] (write_all (length f.wbuffer) f.wbuffer f s)

  -- Everything up to the last linefeed of the new bytes goes out.
  unfoldable pub write_lines : Option ℕ → Bytes → BufferedFile → S → Option (BufferedFile × S)
  write_lines none b f s = some (f, s)
  write_lines (some last_newline_pos) b f s =
      let end = last_newline_pos + (length f.wbuffer - length b) + 1 in
      let front = take end f.wbuffer in
      set_wbuffer (drop end f.wbuffer) (write_all (length front) front f s)

  unfoldable pub write : Bytes → BufferedFile → S → Result (Option (BufferedFile × S))
  write b f s =
      let f' = record f { wbuffer = f.wbuffer ++ b } in
      if f.closed
      then err io_error
      else if not f.flag_write
      then err io_error
      else if not f.flag_buffered
      then ok (write_all (length b) b f s)
      else if f.flag_line_buffered
      then ok (write_lines (rfind 10 b) b f' s)
      else if leb f.bufsize (length f'.wbuffer)
      then ok (flush f' s)
      else ok (some (f', s))

  unfoldable pub close : BufferedFile → S → Option (BufferedFile × S)
  close f s = elim (flush f s) [
    | none ↦ none
    | some (f', s') ↦ some (record f' { closed = true }, s')
  ]

  -- `writelines`: an exception, or a loop without an end, stops it.
  unfoldable pub writelines : List Bytes → BufferedFile → S → Result (Option (BufferedFile × S))
  writelines [] f s = ok (some (f, s))
  writelines (line ∷ sequence) f s = elim (write line f s) [
    | err e ↦ err e
    | ok none ↦ ok none
    | ok (some (f', s')) ↦ writelines sequence f' s'
  ]
