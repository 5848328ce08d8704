-- ===== src/BufferedFile/Split.antt =====
-- What `readlines` makes of all that is left, for a file without universal newlines.
use paramiko.Base.{
  ℕ, zero, suc, ◌+◌, ◌<◌, ◌≡◌, refl, sym, ap, ◌∙◌, inl, inr, true, false, List, [], ◌∷◌, ◌++◌,
  Bytes, length, drop, append_assoc, append-nil, length-append, length-drop, drop_all, ◌==◌,
  Bool-cases, if_cases, if◌then◌else◌, none, arith,
}
use paramiko.BufferedFile.State.{BufferedFile}
use paramiko.BufferedFile.Reading.{Device, ReadsInOrder, Outcome, returned, raised, unfinished}
use paramiko.BufferedFile.Lines.{readline, readlines_from, readlines}
use paramiko.BufferedFile.Exact.{unread, IsAligned}
use paramiko.BufferedFile.FirstLine.{first_line, reading_modes}
use paramiko.BufferedFile.Lined.{IsLine, readline-IsLine}

-- All the lines of some bytes: each ends with its linefeed, but perhaps the last.
abbrev at_front : ℕ → List Bytes → List Bytes
at_front b [] = (b ∷ []) ∷ []
at_front b (line ∷ lines) = (b ∷ line) ∷ lines

unfoldable pub split_lines : Bytes → List Bytes
split_lines [] = []
split_lines (b ∷ s) =
    let rest = split_lines s in if b == 10 then (b ∷ []) ∷ rest else at_front b rest

-- The first of them is the first line.
split_lines-first :
    (b : ℕ) (s : Bytes)
    → split_lines (b ∷ s)
      ≡ first_line (b ∷ s) ∷ split_lines (drop (length (first_line (b ∷ s))) (b ∷ s))
unfolding split_lines first_line
split_lines-first b [] = elim (Bool-cases (b == 10)) [ inl e ↦ rw e refl | inr e ↦ rw e refl ]
split_lines-first b (c ∷ s) =
    let later = split_lines-first c s in
    elim (Bool-cases (b == 10)) [ inl e ↦ rw e refl | inr e ↦ rw e (ap (at_front b) later) ]

first_line_some : (b : ℕ) (s : Bytes) → 0 < length (first_line (b ∷ s))
unfolding first_line
first_line_some b s =
    let rest = first_line s in
    if_cases (λ (l : Bytes). 0 < length l) (b == 10) (b ∷ []) (b ∷ rest) (λ _. omega arith)
      (λ _. omega arith)

-- An empty line is the end of all.
no_line : (whole : Bytes) → length (first_line whole) ≡ 0 → (whole ≡ []) × (split_lines whole ≡ [])
unfolding split_lines
no_line [] e = (refl, refl)
no_line (b ∷ s) e = let longer = first_line_some b s in absurd (omega (arith, longer))

-- A line, before the lines of what is behind it.
some_line :
    (whole rest : Bytes)
    → 0 < length (first_line whole)
    → rest ≡ drop (length (first_line whole)) whole
    → (split_lines whole ≡ first_line whole ∷ split_lines rest) × (length rest < length whole)
unfolding first_line
some_line [] rest h e = absurd (omega arith)
some_line (b ∷ s) rest h e =
    let less = length-drop (length (first_line (b ∷ s))) (b ∷ s) in
    (
      split_lines-first b s ∙ ap (λ r. first_line (b ∷ s) ∷ split_lines r) (sym e),
      omega (arith, h, less, ap length e),
    )

module _ {S : Type 0} (device : Device S) where
  record IsReading (f : BufferedFile) : Type 0 where
    pub opened : f.closed ≡ false
    pub readable : f.flag_read ≡ true
    pub binary : f.flag_universal_newline ≡ false
    pub blocks : 0 < f.bufsize
    pub aligned : IsAligned device f

  abbrev pub IsSplit : List Bytes → Bytes → Outcome (List Bytes) S → Type 0
  IsSplit lines whole (returned all f' s') =
      (all ≡ lines ++ split_lines whole) × (unread device f' s' ≡ [])
  IsSplit lines whole (raised e) = ⊥
  IsSplit lines whole unfinished = ⊥

  IsSplit-same :
      (lines lines' : List Bytes) (whole rest : Bytes)
      → lines' ++ split_lines rest ≡ lines ++ split_lines whole
      → (o : Outcome (List Bytes) S) → IsSplit lines' rest o
      → IsSplit lines whole o
  IsSplit-same lines lines' whole rest same (returned all f' s') (h, empty) = (h ∙ same, empty)
  IsSplit-same lines lines' whole rest same (raised e) h = h
  IsSplit-same lines lines' whole rest same unfinished h = h

  module _ (promise : ReadsInOrder device) where
    IsReading-next :
        (f f' : BufferedFile)
        → IsReading f
        → IsAligned device f'
        → reading_modes f' ≡ reading_modes f
        → IsReading f'
    IsReading-next f f' h aligned same = record {
      opened = ap (λ m. m.0) same ∙ h.opened;
      readable = ap (λ m. m.1) same ∙ h.readable;
      binary = ap (λ m. m.2) same ∙ h.binary;
      blocks = omega (arith, h.blocks, ap (λ m. m.3) same);
      aligned = aligned;
    }

    -- One round, when its line has been read.
    line-IsSplit :
        (lines : List Bytes) (f f' : BufferedFile) (s s' : S) (line : Bytes)
        (again : Outcome (List Bytes) S)
        → IsLine device none f s (returned line f' s')
        → (length (unread device f' s') < length (unread device f s)
            → IsSplit (lines ++ (line ∷ [])) (unread device f' s') again)
        → IsSplit lines
            (unread device f s)
            (if length line == 0 then returned lines f' s' else again)
    line-IsSplit lines f f' s s' line again (first, rest, counted, aligned, same) further =
        let whole = unread device f s in
        let rest_of : unread device f' s' ≡ drop (length (first_line whole)) whole =
          rest ∙ ap (λ l. drop (length l) whole) first in
        if_cases (IsSplit lines whole) (length line == 0) (returned lines f' s') again
          (λ e.
            let no_length : length line ≡ 0 = ground arith in
            let (empty, no_lines) = no_line whole (omega (arith, ap length first, no_length)) in
            (
              sym (append-nil lines) ∙ ap (λ l. lines ++ l) (sym no_lines),
              rest ∙ ap (drop (length line)) empty ∙ drop_all (length line) [] (omega arith),
            ))
          λ e.
            let some_length : 0 < length line = ground arith in
            let (split, less) =
              some_line whole (unread device f' s') (omega (arith, some_length, ap length first))
                rest_of in
            let same_lines =
              append_assoc lines (line ∷ []) (split_lines (unread device f' s'))
              ∙ ap (λ l. lines ++ (l ∷ split_lines (unread device f' s'))) first
              ∙ ap (λ l. lines ++ l) (sym split) in
            IsSplit-same lines (lines ++ (line ∷ [])) whole (unread device f' s') same_lines again
              (further less)

    readlines_from-IsSplit :
        (fuel line_fuel : ℕ) (lines : List Bytes) (count : ℕ) (f : BufferedFile) (s : S)
        → length (unread device f s) < fuel
        → length (unread device f s) < line_fuel
        → IsReading f
        → IsSplit lines
            (unread device f s)
            (readlines_from device fuel line_fuel none lines count f s)
    unfolding readlines_from
    readlines_from-IsSplit zero line_fuel lines count f s h hl r = absurd (omega arith)
    readlines_from-IsSplit (suc fuel) line_fuel lines count f s h hl r =
        let later = readlines_from-IsSplit fuel line_fuel in
        let further = readlines_from device fuel line_fuel none in
        let buffered = length-append f.rbuffer (device.remaining s) in
        elim (readline device line_fuel none f s)
            as (λ o.
              IsLine device none f s o
              → IsSplit lines (unread device f s) (elim o [
                | raised e ↦ raised e
                | unfinished ↦ unfinished
                | returned line f' s' ↦
                    if length line == 0
                    then returned lines f' s'
                    else further (lines ++ (line ∷ [])) (count + length line) f' s'
              ])) [
                | raised e ↦ λ line. line
                | unfinished ↦ λ line. line
                | returned line f' s' ↦ λ (first, rest, counted, aligned, same).
                    let again = further (lines ++ (line ∷ [])) (count + length line) f' s' in
                    line-IsSplit lines f f' s s' line again (first, rest, counted, aligned, same)
                      λ less.
                        later (lines ++ (line ∷ [])) (count + length line) f' s'
                          (omega (arith, less)) (omega (arith, less))
                          (IsReading-next f f' r aligned same)
              ]
          (readline-IsLine device promise line_fuel none f s r.opened r.readable r.binary r.blocks
            r.aligned (omega (arith, buffered)))

    -- Suppose that the file is open and open for reading, without universal newlines, that its block
    -- size is not zero, that the position of the stream (`_realpos`) is ahead of the caller's (`_pos`)
    -- by exactly the bytes in the read buffer (IsAligned), and that the fuel of the lines and that of
    -- each line exceed what is left. An appending write over a filled read buffer leaves a file that
    -- is not aligned, and nothing is said of it. Then, over any stream that keeps its promises,
    -- `readlines` without a hint returns all the lines of all that is left, in the buffer and in the
    -- stream: each up to a linefeed, and with it, and the last up to the end; nothing is left then.
    pub readlines-IsSplit :
        (fuel line_fuel : ℕ) (f : BufferedFile) (s : S)
        → f.closed ≡ false
        → f.flag_read ≡ true
        → f.flag_universal_newline ≡ false
        → 0 < f.bufsize
        → IsAligned device f
        → length (unread device f s) < fuel
        → length (unread device f s) < line_fuel
        → IsSplit [] (unread device f s) (readlines device fuel line_fuel none f s)
    unfolding readlines
    readlines-IsSplit fuel line_fuel f s open_ reading binary blocks a h hl =
        readlines_from-IsSplit fuel line_fuel [] 0 f s h hl (record {
          opened = open_;
          readable = reading;
          binary = binary;
          blocks = blocks;
          aligned = a;
        })
