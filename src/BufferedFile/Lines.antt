-- ===== src/BufferedFile/Lines.antt =====
-- `readline` and `readlines`.
use paramiko.Base.{
  ℕ, zero, suc, ◌+◌, ◌-◌, Bool, true, false, not, ◌&&◌, ◌||◌, List, [], ◌∷◌, ◌++◌, Bytes, length,
  take, drop, leb, ltb, ◌==◌, if◌then◌else◌, Option, none, some, io_error,
}
use paramiko.BufferedFile.State.{BufferedFile, has, find, record_newline}
use paramiko.BufferedFile.Reading.{Device, Outcome, returned, raised, unfinished}

abbrev pub is_cr : Bytes → Bool
is_cr (b ∷ []) = b == 13
is_cr _ = false

-- How the reading of a line ends: with a newline in it, with as many bytes as are allowed, or with
-- the stream.
pub data Scan (S : Type 0) : Type 0 where
  found : Bytes → BufferedFile → S → Scan S
  truncated : Bytes → BufferedFile → S → Scan S
  ended : Bytes → BufferedFile → S → Scan S
  endless : Scan S

-- The linefeed behind a carriage return that ended the last line.
unfoldable pub eat_linefeed : Bytes → BufferedFile → Bytes × BufferedFile
eat_linefeed [] f = ([], f)
eat_linefeed (b ∷ line) f =
    if f.at_trailing_cr && f.flag_universal_newline
    then if b == 10
      then (line, record (record_newline (13 ∷ 10 ∷ []) f) { at_trailing_cr = false })
      else (b ∷ line, record (record_newline (13 ∷ []) f) { at_trailing_cr = false })
    else (b ∷ line, f)

-- Whether a line is complete.
unfoldable pub has_newline : BufferedFile → Bytes → Bool
has_newline f line = has 10 line || f.flag_universal_newline && has 13 line

-- Where its newline is: the first of the two characters that count.
unfoldable pub first_of : Option ℕ → Option ℕ → Option ℕ
first_of none rpos = rpos
first_of (some p) none = some p
first_of (some p) (some r) = some (if ltb r p then r else p)

unfoldable pub newline_pos : BufferedFile → Bytes → Option ℕ
newline_pos f line =
    if f.flag_universal_newline then first_of (find 10 line) (find 13 line) else find 10 line

-- A carriage return takes the linefeed behind it along.
abbrev pub begins_crlf : Bytes → Bool
begins_crlf (a ∷ b ∷ rest) = a == 13 && b == 10
begins_crlf _ = false

unfoldable pub newline_end : Bytes → ℕ → ℕ
newline_end line p = if begins_crlf (drop p line) then p + 2 else p + 1

-- Behind a carriage return at the end of all that is there, a linefeed may follow.
unfoldable pub mark_newline : Bytes → BufferedFile → BufferedFile
mark_newline lf f =
    if length f.rbuffer == 0 && is_cr lf
    then record f { at_trailing_cr = true }
    else record_newline lf f

-- The line up to its newline at `p`, which becomes a linefeed; `kept` is what a truncation has put
-- back.
unfoldable pub cut_line : ℕ → Bytes → Bytes → BufferedFile → Bytes × BufferedFile
cut_line p line kept f =
    let xpos = newline_end line p in
    let cut = take p line ++ (10 ∷ []) in
    let f1 = record f { rbuffer = drop xpos line ++ kept; file_pos = f.file_pos + length cut } in
    (cut, mark_newline (drop p (take xpos line)) f1)

unfoldable pub finish_line : Option ℕ → Bytes → Bytes → BufferedFile → Bytes × BufferedFile
finish_line none line kept f = (line, record f { file_pos = f.file_pos + length line })
finish_line (some p) line kept f = cut_line p line kept f

-- Whether the hint for `readlines` is reached.
abbrev pub is_enough : Option ℕ → ℕ → Bool
is_enough none count = false
is_enough (some sizehint) count = leb sizehint count

module _ {S : Type 0} (device : Device S) where
  -- The loop of `readline`; `size` is none for no limit.
  unfoldable pub scan : ℕ → Option ℕ → Bytes → BufferedFile → S → Scan S
  scan zero size line f s = endless
  scan (suc fuel) size line f s =
      let (line', f') = eat_linefeed line f in
      let again = scan fuel size in
      let more = λ (n : ℕ).
        let (new_data, s') = device.read_some n s in
        if has_newline f' line'
        then found line' f' s
        else if length new_data == 0
        then ended line' (record f' { rbuffer = []; file_pos = f'.file_pos + length line' }) s'
        else again (line' ++ new_data) (record f' { realpos = f'.realpos + length new_data }) s' in
      elim size [
        | none ↦ more f'.bufsize
        | some k ↦
            if leb k (length line')
            then truncated (take k line') (record f' { rbuffer = drop k line' }) s
            else more (k - length line')
      ]

  -- The line, after the loop.
  unfoldable pub read_line : Scan S → Outcome Bytes S
  read_line (found line f s) =
      let (cut, f') = finish_line (newline_pos f line) line [] f in returned cut f' s
  read_line (truncated line f s) =
      let (cut, f') = finish_line (newline_pos f line) line f.rbuffer f in returned cut f' s
  read_line (ended line f s) = returned line f s
  read_line endless = unfinished

  unfoldable pub readline : ℕ → Option ℕ → BufferedFile → S → Outcome Bytes S
  readline fuel size f s =
      if f.closed
      then raised io_error
      else if not f.flag_read
      then raised io_error
      else read_line (scan fuel size f.rbuffer f s)

  -- `readlines`; the fuel counts the lines, and `line_fuel` is that of each of them.
  unfoldable pub readlines_from :
      ℕ → ℕ → Option ℕ → List Bytes → ℕ → BufferedFile → S → Outcome (List Bytes) S
  readlines_from zero line_fuel sizehint lines byte_count f s = unfinished
  readlines_from (suc fuel) line_fuel sizehint lines byte_count f s =
      let further = readlines_from fuel line_fuel sizehint in
      elim (readline line_fuel none f s) [
        | raised e ↦ raised e
        | unfinished ↦ unfinished
        | returned line f' s' ↦
            let lines' = lines ++ (line ∷ []) in
            let count = byte_count + length line in
            let again = further lines' count f' s' in
            if length line == 0
            then returned lines f' s'
            else if is_enough sizehint count
            then returned lines' f' s'
            else again
      ]

  unfoldable pub readlines : ℕ → ℕ → Option ℕ → BufferedFile → S → Outcome (List Bytes) S
  readlines fuel line_fuel sizehint f s = readlines_from fuel line_fuel sizehint [] 0 f s
