-- ===== src/BufferedFile/Lined.antt =====
-- What `readline` takes from the stream, for a file without universal newlines.
use paramiko.Base.{
  ℕ, ◌+◌, ◌≤◌, ◌<◌, ◌≡◌, refl, sym, ap, ◌∙◌, true, false, not, [], ◌++◌, Bytes, length, drop,
  drop_front, length-append, length-drop, drop_all, if_cases, Option, arith,
}
use paramiko.BufferedFile.State.{BufferedFile, find}
use paramiko.BufferedFile.Reading.{Device, ReadsInOrder, Outcome, returned, raised, unfinished}
use paramiko.BufferedFile.Lines.{
  Scan, found, truncated, ended, endless, newline_pos, finish_line, scan, read_line, readline,
}
use paramiko.BufferedFile.Exact.{upto, unread, IsAligned}
use paramiko.BufferedFile.FirstLine.{
  first_line, first_line_whole, reading_modes, IsCut, finish_line-IsCut,
}
use paramiko.BufferedFile.Limit.{length-first_line}
use paramiko.BufferedFile.Scanned.{IsFound, IsScanned, scan-IsScanned}

module _ {S : Type 0} (device : Device S) where
  -- The line that is returned, the rest in its order, and the positions.
  abbrev pub IsLine : Option ℕ → BufferedFile → S → Outcome Bytes S → Type 0
  IsLine size f s (returned x f' s') =
      (x ≡ first_line (upto size (unread device f s)))
      × (unread device f' s' ≡ drop (length x) (unread device f s))
      × (f'.file_pos ≡ f.file_pos + length x)
      × IsAligned device f'
      × (reading_modes f' ≡ reading_modes f)
  IsLine size f s (raised e) = ⊥
  IsLine size f s unfinished = ⊥

  module _ (promise : ReadsInOrder device) where
    newline_pos_binary :
        (f : BufferedFile) (line : Bytes)
        → f.flag_universal_newline ≡ false
        → newline_pos f line ≡ find 10 line
    unfolding newline_pos
    newline_pos_binary f line binary = ground arith

    cut-IsLine :
        (size : Option ℕ) (f : BufferedFile) (s : S) (line kept : Bytes) (f1 : BufferedFile)
        (s' : S) (r : Bytes × BufferedFile)
        → IsFound device size (unread device f s) f line kept f1 s'
        → IsCut line kept f1 r
        → IsLine size f s (returned r.0 r.1 s')
    cut-IsLine size f s line kept f1 s' (cut, f') h (same, c) =
        let n = length cut in
        let inside : n ≤ length line = omega (arith, ap length same, length-first_line line) in
        let rest : f'.rbuffer ≡ drop n (line ++ kept) =
          c.rest ∙ sym (drop_front n line kept inside) in
        let fits : n ≤ length (line ++ kept) = omega (arith, inside, length-append line kept) in
        (
          same ∙ h.first,
          ap (λ b. b ++ device.remaining s') rest
              ∙ sym (drop_front n (line ++ kept) (device.remaining s') fits)
              ∙ ap (drop n) h.parts,
          c.counted ∙ ap (λ p. p + n) h.stays,
          omega (
            arith,
            c.stays,
            c.counted,
            h.ahead,
            h.stays,
            ap length rest,
            inside,
            length-drop n (line ++ kept),
            length-append line kept,
          ),
          c.same ∙ h.same,
        )

    found-IsLine :
        (size : Option ℕ) (f : BufferedFile) (s : S) (line kept : Bytes) (f1 : BufferedFile)
        (s' : S)
        → IsFound device size (unread device f s) f line kept f1 s'
        → IsLine size f s
            (let (cut, f') = finish_line (newline_pos f1 line) line kept f1 in returned cut f' s')
    found-IsLine size f s line kept f1 s' h =
        let position : newline_pos f1 line ≡ find 10 line = newline_pos_binary f1 line h.binary in
        rw position
          (cut-IsLine size f s line kept f1 s' _ h (finish_line-IsCut line kept f1 h.put_back))

    read_line-IsLine :
        (size : Option ℕ) (f : BufferedFile) (s : S) (o : Scan S)
        → IsScanned device size (unread device f s) f o
        → IsLine size f s (read_line device o)
    unfolding read_line
    read_line-IsLine size f s (found line f1 s') h = found-IsLine size f s line [] f1 s' h
    read_line-IsLine size f s (truncated line f1 s') h =
        found-IsLine size f s line f1.rbuffer f1 s' h
    read_line-IsLine size f s (ended line f1 s') h =
        let whole = unread device f s in
        (
          sym (first_line_whole line h.no_newline)
              ∙ ap first_line (sym h.upto_all ∙ ap (upto size) h.all),
          h.exhausted
              ∙ sym
                  (ap (drop (length line)) (sym h.all) ∙ drop_all (length line) line (omega arith)),
          h.counted,
          h.ahead,
          h.same,
        )
    read_line-IsLine size f s endless h = h

    -- Suppose that the file is open and open for reading, without universal newlines, that its block
    -- size is not zero, that the position of the stream (`_realpos`) is ahead of the caller's (`_pos`)
    -- by exactly the bytes in the read buffer (IsAligned), and that the fuel exceeds what is left to
    -- come. An appending write over a filled read buffer leaves a file that is not aligned, and
    -- nothing is said of it. Then, over any stream that keeps its promises, `readline` returns the
    -- bytes up to the first linefeed, and with it, of all that is left, or of as much of it as the
    -- size allows; and all of that when it has no linefeed. What is left comes after them, from the
    -- buffer and then the stream, the caller's position moves by what was returned, the file is
    -- aligned again and the modes stay.
    pub readline-IsLine :
        (fuel : ℕ) (size : Option ℕ) (f : BufferedFile) (s : S)
        → f.closed ≡ false
        → f.flag_read ≡ true
        → f.flag_universal_newline ≡ false
        → 0 < f.bufsize
        → IsAligned device f
        → length (device.remaining s) < fuel
        → IsLine size f s (readline device fuel size f s)
    unfolding readline
    readline-IsLine fuel size f s open_ reading binary blocks a enough =
        let scanned =
          scan-IsScanned device promise fuel size (unread device f s) f f.rbuffer f s enough
            (record {
              parts = refl;
              stays = refl;
              ahead = a;
              binary = binary;
              same = refl;
              blocks = blocks;
            }) in
        if_cases (IsLine size f s) f.closed _ _ (λ e. absurd (let z = open_ in cc))
          λ _.
            if_cases (IsLine size f s) (not f.flag_read) _ _
              (λ e. absurd (let z = reading in ground arith))
              λ _. read_line-IsLine size f s (scan device fuel size f.rbuffer f s) scanned
