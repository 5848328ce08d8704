-- ===== src/BufferedFile/Exact.antt =====
-- What `read` takes from the stream.
use paramiko.Base.{
  ℕ, zero, suc, ◌+◌, ◌-◌, ◌≤◌, ◌<◌, ◌≡◌, refl, sym, ap, ◌∙◌, max, ◌⊎◌, inl, inr, true, false, not,
  [], ◌∷◌, ◌++◌, Bytes, length, take, drop, take_front, drop_front, append_assoc, append-nil,
  length-append, take-append-drop, leb, ◌==◌, if_cases, if◌then◌else◌, Option, none, some, arith,
}
use paramiko.BufferedFile.State.{BufferedFile, default_bufsize}
use paramiko.BufferedFile.Reading.{
  Device, ReadsInOrder, Outcome, returned, raised, unfinished, drain, fill, take_read, read,
}

-- Of all the bytes that are there, those that a call is to return, and those behind them.
abbrev pub upto : Option ℕ → Bytes → Bytes
upto none b = b
upto (some n) b = take n b

abbrev pub behind : Option ℕ → Bytes → Bytes
behind none b = []
behind (some n) b = drop n b

-- A buffer that holds enough, or all there is, is cut where all is cut.
cut_filled :
    (n : ℕ) (b r : Bytes)
    → (n ≤ length b) ⊎ (r ≡ [])
    → (take n (b ++ r) ≡ take n b) × (drop n (b ++ r) ≡ drop n b ++ r)
cut_filled n b r (inl h) = (take_front n b r h, drop_front n b r h)
cut_filled n b r (inr e) =
    rw e (ap (take n) (append-nil b), ap (drop n) (append-nil b) ∙ sym (append-nil (drop n b)))

nothing : (x r : Bytes) → length x ≡ 0 → x ++ r ≡ [] → r ≡ []
nothing [] r none_read e = e
nothing (b ∷ x) r none_read e = absurd (omega arith)

module _ {S : Type 0} (device : Device S) where
  -- All that is still to come, from the buffer and from the stream.
  abbrev pub unread : BufferedFile → S → Bytes
  unread f s = f.rbuffer ++ device.remaining s

  -- The position of the stream is ahead of the caller's by what is in the buffer.
  abbrev pub IsAligned : BufferedFile → Type 0
  IsAligned f = f.realpos ≡ f.file_pos + length f.rbuffer

  -- The bytes that were to be returned, the rest in its order, and the positions.
  abbrev pub IsRead : Option ℕ → BufferedFile → S → Outcome Bytes S → Type 0
  IsRead size f s (returned x f' s') =
      (x ≡ upto size (unread f s))
      × (unread f' s' ≡ behind size (unread f s))
      × (f'.file_pos ≡ f.file_pos + length x)
      × IsAligned f'
  IsRead size f s (raised e) = ⊥
  IsRead size f s unfinished = ⊥

  -- What filling the buffer does.
  record Filled (size : ℕ) (f : BufferedFile) (s : S) (f' : BufferedFile) (s' : S) : Type 0 where
    pub kept : unread f' s' ≡ unread f s
    pub enough : (size ≤ length f'.rbuffer) ⊎ (device.remaining s' ≡ [])
    pub stays : f'.file_pos ≡ f.file_pos
    pub aligned : IsAligned f'

  abbrev Fills : ℕ → BufferedFile → S → Option (BufferedFile × S) → Type 0
  Fills size f s none = ⊥
  Fills size f s (some (f', s')) = Filled size f s f' s'

  Fills-further :
      (size : ℕ) (f g : BufferedFile) (s t : S) (o : Option (BufferedFile × S))
      → unread g t ≡ unread f s
      → g.file_pos ≡ f.file_pos
      → Fills size g t o
      → Fills size f s o
  Fills-further size f g s t none kept stays h = h
  Fills-further size f g s t (some (f', s')) kept stays h = record {
    kept = h.kept ∙ kept;
    enough = h.enough;
    stays = h.stays ∙ stays;
    aligned = h.aligned;
  }

  module _ (promise : ReadsInOrder device) where
    -- A block that was read, at the end of what had been read.
    pub joined :
        (b : Bytes) (n : ℕ) (s : S)
        → (b ++ (device.read_some n s).0) ++ device.remaining (device.read_some n s).1
          ≡ b ++ device.remaining s
    joined b n s =
        append_assoc b (device.read_some n s).0 _ ∙ ap (λ l. b ++ l) (promise.in_order n s)

    pub no_more :
        (n : ℕ) (s : S)
        → 0 < n
        → length (device.read_some n s).0 ≡ 0
        → (device.remaining s ≡ []) × (device.remaining (device.read_some n s).1 ≡ [])
    no_more zero s h e = absurd (omega arith)
    no_more (suc n) s h e =
        let none_left = promise.ends n s e in
        (
          none_left,
          nothing (device.read_some (suc n) s).0 _ e (promise.in_order (suc n) s ∙ none_left),
        )

    fill-Fills :
        (fuel size : ℕ) (f : BufferedFile) (s : S)
        → size ≤ fuel + length f.rbuffer
        → IsAligned f
        → Fills size f s (fill device fuel size f s)
    unfolding fill
    fill-Fills zero size f s h a =
        if_cases (Fills size f s) (leb size (length f.rbuffer)) _ _
          (λ _. record { kept = refl; enough = inl (omega arith); stays = refl; aligned = a })
          (λ e. absurd (ground arith))
    fill-Fills (suc fuel) size f s h a =
        let read_size = size - length f.rbuffer in
        let n = if f.flag_buffered then max f.bufsize read_size else read_size in
        let x = (device.read_some n s).0 in
        let s' = (device.read_some n s).1 in
        let f' = record f { rbuffer = f.rbuffer ++ x; realpos = f.realpos + length x } in
        let longer = length-append f.rbuffer x in
        let again = fill-Fills fuel size f' s' in
        if_cases (Fills size f s) (leb size (length f.rbuffer)) _ _
          (λ e. record { kept = refl; enough = inl (ground arith); stays = refl; aligned = a })
          λ e.
            let wanted : 0 < n =
              if_cases (λ (k : ℕ). 0 < k) f.flag_buffered _ _ (λ _. ground arith)
                (λ _. ground arith) in
            if_cases (Fills size f s) (length x == 0) _ _
              (λ none_read.
                let (left, left') = no_more n s wanted (ground arith) in
                record {
                  kept = ap (λ l. f.rbuffer ++ l) (left' ∙ sym left);
                  enough = inr left';
                  stays = refl;
                  aligned = a;
                })
              λ some_read.
                let some_length : 0 < length x = ground arith in
                Fills-further size f f' s s' _ (joined f.rbuffer n s) refl
                  (again (omega (arith, longer)) (omega (arith, a, longer)))

    -- What is drained: all that has been read, and all the rest.
    drain-IsRead :
        (fuel : ℕ) (result : Bytes) (f g : BufferedFile) (s t : S)
        → length (device.remaining s) < fuel
        → f.rbuffer ≡ []
        → f.realpos ≡ f.file_pos
        → f.file_pos ≡ g.file_pos + length result
        → result ++ device.remaining s ≡ unread g t
        → IsRead none g t (drain device fuel result f s)
    unfolding drain
    drain-IsRead zero result f g s t h empty a counted whole = absurd (omega arith)
    drain-IsRead (suc fuel) result f g s t h empty a counted whole =
        let x = (device.read_some default_bufsize s).0 in
        let s' = (device.read_some default_bufsize s).1 in
        let f' = record f { realpos = f.realpos + length x; file_pos = f.file_pos + length x } in
        let again = drain-IsRead fuel (result ++ x) f' g s' t in
        let longer = length-append result x in
        let left_over : length (device.remaining s) ≡ length x + length (device.remaining s') =
          ap length (sym (promise.in_order default_bufsize s)) ∙ length-append x _ in
        if_cases (IsRead none g t) (length x == 0) _ _
          (λ none_read.
            let (left, left') = no_more default_bufsize s (omega arith) (ground arith) in
            (
              sym (append-nil result) ∙ ap (λ l. result ++ l) (sym left) ∙ whole,
              ap (λ l. f.rbuffer ++ l) left' ∙ append-nil f.rbuffer ∙ empty,
              counted,
              omega (arith, a, ap length empty),
            ))
          λ some_read.
            let some_length : 0 < length x = ground arith in
            again (omega (arith, left_over)) empty (ap (λ k. k + length x) a)
              (omega (arith, counted, longer)) (joined result default_bufsize s ∙ whole)

    -- A sized read from a buffer that was filled.
    take_read-IsRead :
        (size : ℕ) (f g : BufferedFile) (s t : S) (o : Option (BufferedFile × S))
        → Fills size g t o
        → IsRead (some size) g t (take_read device size o)
    unfolding take_read
    take_read-IsRead size f g s t none h = h
    take_read-IsRead size f g s t (some (f', s')) h =
        let cut = take-append-drop size f'.rbuffer in
        let counted = ap length cut in
        let sizes = length-append (take size f'.rbuffer) (drop size f'.rbuffer) in
        let (taken, left) = cut_filled size f'.rbuffer (device.remaining s') h.enough in
        (
          sym taken ∙ ap (take size) h.kept,
          sym left ∙ ap (drop size) h.kept,
          ap (λ k. k + length (take size f'.rbuffer)) h.stays,
          omega (arith, h.aligned, counted, sizes),
        )

    -- Suppose that the file is open and open for reading, that the position of the stream (`_realpos`)
    -- is ahead of the caller's (`_pos`) by exactly the bytes in the read buffer (IsAligned), and that
    -- the fuel exceeds what is left to come. An appending write over a filled read buffer leaves a
    -- file that is not so, and nothing is said of it. Then, over any stream that keeps its promises,
    -- `read` returns the next bytes, as many as are asked for if there are so many, and all of them
    -- without a size; what is left comes after them, from the buffer and then the stream, the
    -- caller's position moves by what was returned, and the file is aligned again.
    pub read-IsRead :
        (fuel : ℕ) (size : Option ℕ) (f : BufferedFile) (s : S)
        → f.closed ≡ false
        → f.flag_read ≡ true
        → IsAligned f
        → length (device.remaining s) < fuel
        → IsRead size f s (read device fuel size f s)
    unfolding read
    read-IsRead fuel size f s open_ reading a h =
        if_cases (IsRead size f s) f.closed _ _ (λ e. absurd (let z = open_ in cc))
          λ _.
            if_cases (IsRead size f s) (not f.flag_read) _ _
              (λ e. absurd (let z = reading in ground arith))
              λ _.
                elim size
                  as (λ size. IsRead size f s (elim size [
                    | none ↦
                        drain device fuel f.rbuffer
                          (record f { rbuffer = []; file_pos = f.file_pos + length f.rbuffer }) s
                    | some n ↦ take_read device n (fill device n n f s)
                  ])) [
                    | none ↦
                        drain-IsRead fuel f.rbuffer
                          (record f { rbuffer = []; file_pos = f.file_pos + length f.rbuffer }) f s
                          s h refl a refl refl
                    | some n ↦
                        take_read-IsRead n f f s s (fill device n n f s)
                          (fill-Fills n n f s (omega arith) a)
                  ]
