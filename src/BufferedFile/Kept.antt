-- ===== src/BufferedFile/Kept.antt =====
-- What becomes of the bytes of one `write`.
use paramiko.Base.{
  ℕ, zero, suc, ◌+◌, ◌-◌, ◌≤◌, ◌<◌, ◌≡◌, refl, sym, ap, ◌∙◌, true, false, not, [], ◌∷◌, ◌++◌, Bytes,
  length, take, drop, append_assoc, append-nil, length-append, length-drop, take-append-drop, leb,
  ◌==◌, if_cases, Option, none, some, arith, Result, ok, err,
}
use paramiko.BufferedFile.State.{BufferedFile, has}
use paramiko.BufferedFile.Reading.{Device}
use paramiko.BufferedFile.Writing.{
  WritesSome, rfind, count_written, write_all, set_wbuffer, flush, write_lines, write,
}
use paramiko.BufferedFile.Settled.{
  has-append, Last, rfind-Last, drop_past, modes, IsSettled, unbuffered-IsSettled,
  settled_unbuffered, lines-IsSettled, settled_lines, block-IsSettled,
}

count_written-same :
    (n : ℕ) (f : BufferedFile)
    → ((count_written n f).wbuffer ≡ f.wbuffer) × (modes (count_written n f) ≡ modes f)
unfolding count_written
count_written-same n f =
    if_cases (λ (g : BufferedFile). (g.wbuffer ≡ f.wbuffer) × (modes g ≡ modes f)) f.flag_append
      (record f { size = f.size + n; file_pos = f.size + n; realpos = f.size + n })
      (record f { file_pos = f.file_pos + n; realpos = f.realpos + n }) (λ _. (refl, refl))
      (λ _. (refl, refl))

module _ {S : Type 0} (device : Device S) where
  -- All that was written, to the stream and to the buffer.
  abbrev pub written : BufferedFile → S → Bytes
  written f s = device.sink s ++ f.wbuffer

  pub record WroteAll (b : Bytes) (f : BufferedFile) (s : S) (f' : BufferedFile) (s' : S)
      : Type 0 where
    pub sent : device.sink s' ≡ device.sink s ++ b
    pub buffer : f'.wbuffer ≡ f.wbuffer
    pub same : modes f' ≡ modes f

  abbrev pub Writes : Bytes → BufferedFile → S → Option (BufferedFile × S) → Type 0
  Writes b f s none = ⊥
  Writes b f s (some (f', s')) = WroteAll b f s f' s'

  Writes-further :
      (n : ℕ) (b : Bytes) (f g : BufferedFile) (s t : S) (o : Option (BufferedFile × S))
      → device.sink t ≡ device.sink s ++ take n b
      → (g.wbuffer ≡ f.wbuffer) × (modes g ≡ modes f)
      → Writes (drop n b) g t o
      → Writes b f s o
  Writes-further n b f g s t none sent kept h = h
  Writes-further n b f g s t (some (f', s')) sent (buffer, same) h = record {
    sent =
        h.sent
        ∙ ap (λ l. l ++ drop n b) sent
        ∙ append_assoc (device.sink s) (take n b) (drop n b)
        ∙ ap (λ l. device.sink s ++ l) (take-append-drop n b);
    buffer = h.buffer ∙ buffer;
    same = h.same ∙ same;
  }

  -- What a write leaves, in the stream and in the buffer.
  pub record Kept (b : Bytes) (f : BufferedFile) (s : S) (f' : BufferedFile) (s' : S) : Type 0 where
    pub whole : written f' s' ≡ written f s ++ b
    pub settled : IsSettled f'
    pub same : modes f' ≡ modes f

  abbrev pub Keeps : Bytes → BufferedFile → S → Option (BufferedFile × S) → Type 0
  Keeps b f s none = ⊥
  Keeps b f s (some (f', s')) = Kept b f s f' s'

  abbrev pub IsKept : Bytes → BufferedFile → S → Result (Option (BufferedFile × S)) → Type 0
  IsKept b f s (err e) = ⊥
  IsKept b f s (ok o) = Keeps b f s o

  module _ (promise : WritesSome device) where
    nothing_written : (b : Bytes) (f : BufferedFile) (s : S) → length b ≡ 0 → WroteAll b f s f s
    nothing_written [] f s e = record {
      sent = sym (append-nil (device.sink s));
      buffer = refl;
      same = refl;
    }
    nothing_written (x ∷ b) f s e = absurd (omega arith)

    pub write_all-Writes :
        (fuel : ℕ) (b : Bytes) (f : BufferedFile) (s : S)
        → length b ≤ fuel
        → Writes b f s (write_all device fuel b f s)
    unfolding write_all
    write_all-Writes zero b f s h =
        if_cases (Writes b f s) (length b == 0) (some (f, s)) none
          (λ _. nothing_written b f s (omega arith)) λ e. absurd (ground arith)
    write_all-Writes (suc fuel) b f s h =
        let n = (device.write_some b s).0 in
        let s' = (device.write_some b s).1 in
        let f' = count_written n f in
        let later = write_all-Writes fuel (drop n b) f' s' in
        let less = length-drop n b in
        let inside = promise.at_most b s in
        if_cases (Writes b f s) (length b == 0) (some (f, s))
          (write_all device fuel (drop n b) f' s') (λ e. nothing_written b f s (ground arith))
          λ e.
            let some_left : 0 < length b = ground arith in
            let progress = promise.takes_some b s some_left in
            Writes-further n b f f' s s' _ (promise.takes_front b s) (count_written-same n f)
              (later (omega (arith, less, h, progress, inside)))

    set_wbuffer-Writes :
        (front rest b : Bytes) (f g : BufferedFile) (s : S) (o : Option (BufferedFile × S))
        → front ++ rest ≡ f.wbuffer ++ b
        → modes g ≡ modes f
        → ((h : BufferedFile) → modes h ≡ modes f → IsSettled (record h { wbuffer = rest }))
        → Writes front g s o
        → Keeps b f s (set_wbuffer device rest o)
    unfolding set_wbuffer
    set_wbuffer-Writes front rest b f g s none parts same settled h = h
    set_wbuffer-Writes front rest b f g s (some (f', s')) parts same settled h = record {
      whole =
          ap (λ l. l ++ rest) h.sent
          ∙ append_assoc (device.sink s) front rest
          ∙ ap (λ l. device.sink s ++ l) parts
          ∙ sym (append_assoc (device.sink s) f.wbuffer b);
      settled = settled f' (h.same ∙ same);
      same = h.same ∙ same;
    }

    -- The file without a buffer.
    unbuffered-Keeps :
        (b : Bytes) (f : BufferedFile) (s : S) (o : Option (BufferedFile × S))
        → f.flag_buffered ≡ false
        → IsSettled f
        → Writes b f s o
        → Keeps b f s o
    unbuffered-Keeps b f s none e settled h = h
    unbuffered-Keeps b f s (some (f', s')) e settled h =
        let empty = settled_unbuffered f e settled in
        record {
          whole =
              ap (λ l. device.sink s' ++ l) (h.buffer ∙ empty)
              ∙ append-nil (device.sink s')
              ∙ h.sent
              ∙ ap (λ l. l ++ b)
                  (sym (append-nil (device.sink s)) ∙ ap (λ l. device.sink s ++ l) (sym empty));
          settled = unbuffered-IsSettled f' (ap (λ m. m.2) h.same ∙ e) (h.buffer ∙ empty);
          same = h.same;
        }

    write_lines-Keeps :
        (b : Bytes) (f : BufferedFile) (s : S) (o : Option ℕ)
        → f.flag_buffered ≡ true
        → f.flag_line_buffered ≡ true
        → IsSettled f
        → Last b o
        → Keeps b f s (write_lines device o b (record f { wbuffer = f.wbuffer ++ b }) s)
    unfolding write_lines
    write_lines-Keeps b f s none e el settled absent =
        let line = settled_lines f e el settled in
        record {
          whole = sym (append_assoc (device.sink s) f.wbuffer b);
          settled =
              lines-IsSettled (record f { wbuffer = f.wbuffer ++ b }) e el
                (has-append f.wbuffer b line absent);
          same = refl;
        }
    write_lines-Keeps b f s (some i) e el settled (inside, later) =
        let f' = record f { wbuffer = f.wbuffer ++ b } in
        let w = f'.wbuffer in
        let end = i + (length w - length b) + 1 in
        let position : end ≡ length f.wbuffer + suc i = omega (arith, length-append f.wbuffer b) in
        let rest : has 10 (drop end w) ≡ false =
          ap (λ n. has 10 (drop n w)) position
          ∙ ap (has 10) (drop_past (suc i) f.wbuffer b)
          ∙ later in
        set_wbuffer-Writes (take end w) (drop end w) b f f' s _ (take-append-drop end w) refl
          (λ h same.
            lines-IsSettled (record h { wbuffer = drop end w }) (ap (λ m. m.2) same ∙ e)
              (ap (λ m. m.3) same ∙ el) rest)
          (write_all-Writes (length (take end w)) (take end w) f' s (omega arith))

    flush-Keeps :
        (b : Bytes) (f : BufferedFile) (s : S)
        → f.flag_buffered ≡ true
        → f.flag_line_buffered ≡ false
        → 0 < f.bufsize
        → Keeps b f s (flush device (record f { wbuffer = f.wbuffer ++ b }) s)
    unfolding flush
    flush-Keeps b f s e el blocks =
        let f' = record f { wbuffer = f.wbuffer ++ b } in
        set_wbuffer-Writes f'.wbuffer [] b f f' s _ (append-nil f'.wbuffer) refl
          (λ h same.
            block-IsSettled (record h { wbuffer = [] }) (ap (λ m. m.2) same ∙ e)
              (ap (λ m. m.3) same ∙ el) (omega (arith, blocks, ap (λ m. m.4) same)))
          (write_all-Writes (length f'.wbuffer) f'.wbuffer f' s (omega arith))

    -- Suppose that the file is open and open for writing, that its block size is not zero, and that
    -- its write buffer is as its mode leaves it (IsSettled): empty without buffering, with no complete
    -- line under line buffering, and less than a block otherwise. Then, over a stream that takes some
    -- of what it is given, from the front, `write` ends without an exception, in every mode of
    -- buffering: what has gone to the stream and what is in the buffer are together all that they
    -- were before and the new bytes behind it, and the buffer is again as its mode leaves it.
    pub write-IsKept :
        (b : Bytes) (f : BufferedFile) (s : S)
        → f.closed ≡ false
        → f.flag_write ≡ true
        → 0 < f.bufsize
        → IsSettled f
        → IsKept b f s (write device b f s)
    unfolding write
    write-IsKept b f s open_ writing blocks settled =
        let P = IsKept b f s in
        let f' = record f { wbuffer = f.wbuffer ++ b } in
        if_cases P f.closed _ _ (λ e. absurd (let z = open_ in cc))
          λ _.
            if_cases P (not f.flag_write) _ _ (λ e. absurd (let z = writing in ground arith))
              λ _.
                if_cases P (not f.flag_buffered) _ _
                  (λ e.
                    unbuffered-Keeps b f s _ (ground arith) settled
                      (write_all-Writes (length b) b f s (omega arith)))
                  λ e.
                    if_cases P f.flag_line_buffered _ _
                      (λ el.
                        write_lines-Keeps b f s (rfind 10 b) (ground arith) el settled
                          (rfind-Last b))
                      λ el.
                        if_cases P (leb f.bufsize (length f'.wbuffer)) _ _
                          (λ _. flush-Keeps b f s (ground arith) el blocks)
                          λ full. record {
                            whole = sym (append_assoc (device.sink s) f.wbuffer b);
                            settled = block-IsSettled f' (ground arith) el (ground arith);
                            same = refl;
                          }
