-- ===== src/BufferedFile/FirstLine.antt =====
-- The first line of some bytes, and how `readline` cuts it off.
use paramiko.Base.{
  ℕ, suc, ◌+◌, ◌≡◌, refl, sym, ap, ◌∙◌, inl, inr, Bool, true, false, not, ◌&&◌, [], ◌∷◌, ◌++◌,
  Bytes, length, take, drop, drop_all, ◌==◌, Bool-cases, if_cases, if◌then◌else◌, Option, none,
  some, arith,
}
use paramiko.BufferedFile.State.{BufferedFile, has, next_index, find, add_newline, record_newline}
use paramiko.BufferedFile.Lines.{
  is_cr, begins_crlf, newline_end, mark_newline, cut_line, finish_line,
}

-- The bytes up to the first linefeed, and with it, or all of them.
unfoldable pub first_line : Bytes → Bytes
first_line [] = []
first_line (b ∷ s) = let rest = first_line s in if b == 10 then b ∷ [] else b ∷ rest

pub first_line-append :
    (line rest : Bytes) → has 10 line ≡ true → first_line (line ++ rest) ≡ first_line line
unfolding first_line has
first_line-append [] rest h = absurd (let z = h in cc)
first_line-append (b ∷ line) rest h =
    let later = first_line-append line rest in
    elim (Bool-cases (b == 10)) [
      | inl e ↦ rw e
      | inr e ↦ rw e (ap (λ l. b ∷ l) (later (ground arith)))
    ]

pub first_line_whole : (line : Bytes) → has 10 line ≡ false → first_line line ≡ line
unfolding first_line has
first_line_whole [] h = refl
first_line_whole (b ∷ line) h =
    let later = first_line_whole line in
    elim (Bool-cases (b == 10)) [
      | inl e ↦ absurd (ground arith)
      | inr e ↦ rw e (ap (λ l. b ∷ l) (later (ground arith)))
    ]

-- What `find` says about the first line.
pub record FoundAt (line : Bytes) (p : ℕ) : Type 0 where
  pub cut : take p line ++ (10 ∷ []) ≡ first_line line
  pub size : length (first_line line) ≡ p + 1
  pub plain : newline_end line p ≡ p + 1
  pub present : has 10 line ≡ true

abbrev pub Found : Bytes → Option ℕ → Type 0
Found line none = has 10 line ≡ false
Found line (some p) = FoundAt line p

not_crlf : (b : ℕ) (line : Bytes) → (b == 10) ≡ true → begins_crlf (b ∷ line) ≡ false
not_crlf b [] e = refl
not_crlf b (c ∷ line) e = ground arith

Found-here : (b : ℕ) (line : Bytes) → (b == 10) ≡ true → FoundAt (b ∷ line) 0
unfolding has first_line newline_end
Found-here b line e =
    let linefeed : 10 ≡ b = ground arith in
    record {
      cut = rw e (ap (λ c. c ∷ []) linefeed);
      size = rw e refl;
      plain = rw (not_crlf b line e) refl;
      present = rw e refl;
    }

plain_further :
    (b : ℕ) (line : Bytes) (p : ℕ)
    → newline_end line p ≡ p + 1
    → newline_end (b ∷ line) (suc p) ≡ suc p + 1
unfolding newline_end
plain_further b line p h = ground arith

Found-further :
    (b : ℕ) (line : Bytes) (o : Option ℕ)
    → (b == 10) ≡ false
    → Found line o
    → Found (b ∷ line) (next_index o)
unfolding has first_line newline_end
Found-further b line none e h = rw e h
Found-further b line (some p) e h = record {
  cut = rw e (ap (λ l. b ∷ l) h.cut);
  size = rw e (omega (arith, h.size));
  plain = plain_further b line p h.plain;
  present = rw e h.present;
}

find-Found : (line : Bytes) → Found line (find 10 line)
unfolding find has
find-Found [] = refl
find-Found (b ∷ line) =
    let later = Found-further b line (find 10 line) in
    let before = find-Found line in
    if_cases (Found (b ∷ line)) (b == 10) (some 0) (next_index (find 10 line))
      (λ e. Found-here b line e) (λ e. later e before)

-- What no reading changes.
abbrev pub reading_modes : BufferedFile → Bool × Bool × Bool × ℕ
reading_modes f = (f.closed, f.flag_read, f.flag_universal_newline, f.bufsize)

-- What is put back, and the positions, once a line has been cut off.
pub record Cut (cut line kept : Bytes) (f f' : BufferedFile) : Type 0 where
  pub rest : f'.rbuffer ≡ drop (length cut) line ++ kept
  pub counted : f'.file_pos ≡ f.file_pos + length cut
  pub stays : f'.realpos ≡ f.realpos
  pub same : reading_modes f' ≡ reading_modes f

-- The line that is cut off, and what is left.
abbrev pub IsCut : Bytes → Bytes → BufferedFile → Bytes × BufferedFile → Type 0
IsCut line kept f (cut, f') = (cut ≡ first_line line) × Cut cut line kept f f'

mark_newline-Cut :
    (newline cut line kept : Bytes) (f f' : BufferedFile)
    → Cut cut line kept f f'
    → Cut cut line kept f (mark_newline newline f')
unfolding mark_newline record_newline
mark_newline-Cut newline cut line kept f f' h =
    if_cases (Cut cut line kept f) (length f'.rbuffer == 0 && is_cr newline)
      (record f' { at_trailing_cr = true }) (record_newline newline f')
      (λ _. record { rest = h.rest; counted = h.counted; stays = h.stays; same = h.same })
      λ _.
        if_cases (Cut cut line kept f) (not f'.flag_universal_newline) f'
          (record f' { newlines = add_newline newline f'.newlines }) (λ _. h)
          λ _. record { rest = h.rest; counted = h.counted; stays = h.stays; same = h.same }

cut_line-IsCut :
    (p : ℕ) (line kept : Bytes) (f : BufferedFile)
    → FoundAt line p
    → IsCut line kept f (cut_line p line kept f)
unfolding cut_line
cut_line-IsCut p line kept f at =
    let cut = take p line ++ (10 ∷ []) in
    let xpos = newline_end line p in
    let f1 = record f { rbuffer = drop xpos line ++ kept; file_pos = f.file_pos + length cut } in
    let ends : xpos ≡ length cut = at.plain ∙ sym at.size ∙ ap length (sym at.cut) in
    let done : Cut cut line kept f f1 = record {
      rest = ap (λ n. drop n line ++ kept) ends;
      counted = refl;
      stays = refl;
      same = refl;
    } in
    (at.cut, mark_newline-Cut _ cut line kept f f1 done)

uncut :
    (line kept : Bytes) (f : BufferedFile)
    → has 10 line ≡ false
    → f.rbuffer ≡ kept
    → IsCut line kept f (line, record f { file_pos = f.file_pos + length line })
uncut line kept f absent whole = (
  sym (first_line_whole line absent),
  record {
    rest = whole ∙ ap (λ l. l ++ kept) (sym (drop_all (length line) line (omega arith)));
    counted = refl;
    stays = refl;
    same = refl;
  },
)

-- The line that is returned for what was scanned.
pub finish_line-IsCut :
    (line kept : Bytes) (f : BufferedFile)
    → (has 10 line ≡ false → f.rbuffer ≡ kept)
    → IsCut line kept f (finish_line (find 10 line) line kept f)
unfolding finish_line
finish_line-IsCut line kept f h =
    let split = find-Found line in
    elim (find 10 line) as (λ o. Found line o → IsCut line kept f (finish_line o line kept f)) [
      | none ↦ λ absent. uncut line kept f absent (h absent)
      | some p ↦ λ at. cut_line-IsCut p line kept f at
    ]
      split
