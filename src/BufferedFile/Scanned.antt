-- ===== src/BufferedFile/Scanned.antt =====
-- How the loop of `readline` ends, for a file without universal newlines.
use paramiko.Base.{
  ℕ, zero, suc, ◌+◌, ◌-◌, ◌≤◌, ◌<◌, ◌≡◌, refl, sym, ap, ◌∙◌, true, false, ◌&&◌, [], ◌∷◌, ◌++◌,
  Bytes, length, take, drop, take_front, append-nil, length-append, take-append-drop, leb, ◌==◌,
  if_cases, if◌then◌else◌, Option, none, some, arith,
}
use paramiko.BufferedFile.State.{BufferedFile, has}
use paramiko.BufferedFile.Reading.{Device, ReadsInOrder}
use paramiko.BufferedFile.Lines.{
  Scan, found, truncated, ended, endless, eat_linefeed, has_newline, scan,
}
use paramiko.BufferedFile.Exact.{upto, unread, IsAligned, no_more, joined}
use paramiko.BufferedFile.FirstLine.{first_line, reading_modes}
use paramiko.BufferedFile.Limit.{Fits, upto_longer, upto_whole}

eat_linefeed_binary :
    (line : Bytes) (f : BufferedFile)
    → f.flag_universal_newline ≡ false
    → eat_linefeed line f ≡ (line, f)
unfolding eat_linefeed
eat_linefeed_binary [] f binary = refl
eat_linefeed_binary (b ∷ line) f binary =
    if_cases (λ (r : Bytes × BufferedFile). r ≡ (b ∷ line, f))
      (f.at_trailing_cr && f.flag_universal_newline) _ _ (λ e. absurd (ground arith)) (λ _. refl)

module _ {S : Type 0} (device : Device S) where
  -- How the loop ends, when `whole` is all that was there and `start` the position of the caller.
  pub record IsFound (size : Option ℕ) (whole : Bytes) (start : BufferedFile) (line kept : Bytes)
      (f : BufferedFile) (s : S) : Type 0 where
    pub first : first_line line ≡ first_line (upto size whole)
    pub parts : (line ++ kept) ++ device.remaining s ≡ whole
    pub stays : f.file_pos ≡ start.file_pos
    pub ahead : f.realpos ≡ start.file_pos + (length line + length kept)
    pub binary : f.flag_universal_newline ≡ false
    pub same : reading_modes f ≡ reading_modes start
    pub put_back : has 10 line ≡ false → f.rbuffer ≡ kept

  pub record IsEnded (size : Option ℕ) (whole : Bytes) (start : BufferedFile) (line : Bytes)
      (f : BufferedFile) (s : S) : Type 0 where
    pub all : line ≡ whole
    pub upto_all : upto size line ≡ line
    pub no_newline : has 10 line ≡ false
    pub exhausted : unread device f s ≡ []
    pub counted : f.file_pos ≡ start.file_pos + length line
    pub ahead : IsAligned device f
    pub same : reading_modes f ≡ reading_modes start

  abbrev pub IsScanned : Option ℕ → Bytes → BufferedFile → Scan S → Type 0
  IsScanned size whole start (found line f s) = IsFound size whole start line [] f s
  IsScanned size whole start (truncated line f s) = IsFound size whole start line f.rbuffer f s
  IsScanned size whole start (ended line f s) = IsEnded size whole start line f s
  IsScanned size whole start endless = ⊥

  -- What holds before each round.
  pub record Scanning (whole : Bytes) (start : BufferedFile) (line : Bytes) (f : BufferedFile)
      (s : S) : Type 0 where
    pub parts : line ++ device.remaining s ≡ whole
    pub stays : f.file_pos ≡ start.file_pos
    pub ahead : f.realpos ≡ start.file_pos + length line
    pub binary : f.flag_universal_newline ≡ false
    pub same : reading_modes f ≡ reading_modes start
    pub blocks : 0 < f.bufsize

  has_newline_binary :
      (f : BufferedFile) (line : Bytes)
      → f.flag_universal_newline ≡ false
      → has_newline f line ≡ has 10 line
  unfolding has_newline
  has_newline_binary f line binary = ground arith

  Scanning-IsFound :
      (size : Option ℕ) (whole : Bytes) (start : BufferedFile) (line : Bytes) (f : BufferedFile)
      (s : S)
      → Scanning whole start line f s
      → Fits size line
      → has 10 line ≡ true
      → IsFound size whole start line [] f s
  Scanning-IsFound size whole start line f s h fits newline = record {
    first =
        sym (upto_longer size line (device.remaining s) fits newline)
        ∙ ap (λ w. first_line (upto size w)) h.parts;
    parts = ap (λ l. l ++ device.remaining s) (append-nil line) ∙ h.parts;
    stays = h.stays;
    ahead = omega (arith, h.ahead);
    binary = h.binary;
    same = h.same;
    put_back = λ none_there. absurd (let z = newline in cc);
  }

  Scanning-IsFound_truncated :
      (k : ℕ) (whole : Bytes) (start : BufferedFile) (line : Bytes) (f : BufferedFile) (s : S)
      → Scanning whole start line f s
      → k ≤ length line
      → IsFound
          (some k)
          whole
          start
          (take k line)
          (drop k line)
          (record f { rbuffer = drop k line })
          s
  Scanning-IsFound_truncated k whole start line f s h reached = record {
    first =
        ap first_line (sym (take_front k line (device.remaining s) reached))
        ∙ ap (λ w. first_line (take k w)) h.parts;
    parts = ap (λ l. l ++ device.remaining s) (take-append-drop k line) ∙ h.parts;
    stays = h.stays;
    ahead =
        h.ahead
        ∙ ap (λ l. start.file_pos + length l) (sym (take-append-drop k line))
        ∙ ap (λ n. start.file_pos + n) (length-append (take k line) (drop k line));
    binary = h.binary;
    same = h.same;
    put_back = λ _. refl;
  }

  Scanning-IsEnded :
      (size : Option ℕ) (whole : Bytes) (start : BufferedFile) (line : Bytes) (f : BufferedFile)
      (s s' : S)
      → Scanning whole start line f s
      → Fits size line
      → has 10 line ≡ false
      → device.remaining s ≡ []
      → device.remaining s' ≡ []
      → IsEnded size whole start line
          (record f { rbuffer = []; file_pos = f.file_pos + length line })
          s'
  Scanning-IsEnded size whole start line f s s' h fits no_newline left left' = record {
    all = sym (append-nil line) ∙ ap (λ r. line ++ r) (sym left) ∙ h.parts;
    upto_all = upto_whole size line fits;
    no_newline = no_newline;
    exhausted = left';
    counted = ap (λ p. p + length line) h.stays;
    ahead = omega (arith, h.ahead, h.stays);
    same = h.same;
  }

  module _ (promise : ReadsInOrder device) where
    -- One round behind the test of the limit, which reads at most `n` more.
    more-IsScanned :
        (n : ℕ) (size : Option ℕ) (whole : Bytes) (start : BufferedFile) (line : Bytes)
        (f : BufferedFile) (s : S) (again : Scan S)
        → 0 < n
        → Fits size line
        → Scanning whole start line f s
        → (0 < length (device.read_some n s).0 → IsScanned size whole start again)
        → IsScanned size whole start (
            if has_newline f line
            then found line f s
            else if length (device.read_some n s).0 == 0
            then ended line
                (record f { rbuffer = []; file_pos = f.file_pos + length line })
                (device.read_some n s).1
            else again)
    more-IsScanned n size whole start line f s again some_more fits h further =
        let x = (device.read_some n s).0 in
        let s' = (device.read_some n s).1 in
        let done = record f { rbuffer = []; file_pos = f.file_pos + length line } in
        let plain = has_newline_binary f line h.binary in
        if_cases (IsScanned size whole start) (has_newline f line) (found line f s)
          (if length x == 0 then ended line done s' else again)
          (λ e. Scanning-IsFound size whole start line f s h fits (sym plain ∙ e))
          λ e.
            if_cases (IsScanned size whole start) (length x == 0) (ended line done s') again
              (λ none_read.
                let (left, left') = no_more device promise n s some_more (ground arith) in
                Scanning-IsEnded size whole start line f s s' h fits (sym plain ∙ e) left left')
              λ some_read. further (ground arith)

    Scanning-next :
        (n : ℕ) (whole : Bytes) (start : BufferedFile) (line : Bytes) (f : BufferedFile) (s : S)
        → Scanning whole start line f s
        → Scanning whole start
            (line ++ (device.read_some n s).0)
            (record f { realpos = f.realpos + length (device.read_some n s).0 })
            (device.read_some n s).1
    Scanning-next n whole start line f s h =
        let longer = length-append line (device.read_some n s).0 in
        record {
          parts = joined device promise line n s ∙ h.parts;
          stays = h.stays;
          ahead = omega (arith, h.ahead, longer);
          binary = h.binary;
          same = h.same;
          blocks = h.blocks;
        }

    shorter :
        (n : ℕ) (s : S) (fuel : ℕ)
        → length (device.remaining s) < suc fuel
        → 0 < length (device.read_some n s).0
        → length (device.remaining (device.read_some n s).1) < fuel
    shorter n s fuel enough some_read =
        let left_over =
          ap length (sym (promise.in_order n s))
          ∙ length-append (device.read_some n s).0 (device.remaining (device.read_some n s).1) in
        omega (arith, left_over)

    pub scan-IsScanned :
        (fuel : ℕ) (size : Option ℕ) (whole : Bytes) (start : BufferedFile) (line : Bytes)
        (f : BufferedFile) (s : S)
        → length (device.remaining s) < fuel
        → Scanning whole start line f s
        → IsScanned size whole start (scan device fuel size line f s)
    unfolding scan
    scan-IsScanned zero size whole start line f s enough h = absurd (omega arith)
    scan-IsScanned (suc fuel) none whole start line f s enough h =
        let n = f.bufsize in
        let x = (device.read_some n s).0 in
        let s' = (device.read_some n s).1 in
        let f' = record f { realpos = f.realpos + length x } in
        let later = scan-IsScanned fuel none whole start (line ++ x) f' s' in
        rw (eat_linefeed_binary line f h.binary) (
          more-IsScanned n none whole start line f s (scan device fuel none (line ++ x) f' s')
            h.blocks tt h
            λ some_read.
              later (shorter n s fuel enough some_read) (Scanning-next n whole start line f s h))
    scan-IsScanned (suc fuel) (some k) whole start line f s enough h =
        let n = k - length line in
        let x = (device.read_some n s).0 in
        let s' = (device.read_some n s).1 in
        let f' = record f { realpos = f.realpos + length x } in
        let later = scan-IsScanned fuel (some k) whole start (line ++ x) f' s' in
        let cut = record f { rbuffer = drop k line } in
        let more =
          more-IsScanned n (some k) whole start line f s
            (scan device fuel (some k) (line ++ x) f' s') in
        rw (eat_linefeed_binary line f h.binary) (
          if_cases (IsScanned (some k) whole start) (leb k (length line))
            (truncated (take k line) cut s) _
            (λ e. Scanning-IsFound_truncated k whole start line f s h (ground arith))
            λ e.
              let below : length line < k = ground arith in
              more (omega (arith, below)) below h λ some_read.
                later (shorter n s fuel enough some_read) (Scanning-next n whole start line f s h))
