-- ===== src/BufferedFile/Settled.antt =====
-- What each mode of buffering keeps in the buffer.
use paramiko.Base.{
  ℕ, suc, ◌+◌, ◌≤◌, ◌<◌, ◌≡◌, refl, ap, ◌∙◌, Bool, true, false, not, [], ◌∷◌, ◌++◌, Bytes, length,
  drop, ◌==◌, if_cases, if◌then◌else◌, Option, none, some, arith,
}
use paramiko.BufferedFile.State.{BufferedFile, has}
use paramiko.BufferedFile.Writing.{rfind}

pub has-append : (a b : Bytes) → has 10 a ≡ false → has 10 b ≡ false → has 10 (a ++ b) ≡ false
unfolding has
has-append [] b ha hb = hb
has-append (x ∷ a) b ha hb =
    let later = has-append a b in
    let (first, others) : ((x == 10) ≡ false) × (has 10 a ≡ false) = (ground arith, ground arith) in
    rw first (later others hb)

-- Behind the last linefeed there is none.
abbrev pub Last : Bytes → Option ℕ → Type 0
Last b none = has 10 b ≡ false
Last b (some i) = (suc i ≤ length b) × (has 10 (drop (suc i) b) ≡ false)

pub rfind-Last : (b : Bytes) → Last b (rfind 10 b)
unfolding rfind has
rfind-Last [] = refl
rfind-Last (x ∷ b) =
    let before = rfind-Last b in
    elim (rfind 10 b)
        as (λ o.
          Last b o
          → Last (x ∷ b)
              (elim o [ some i ↦ some (suc i) | none ↦ if x == 10 then some 0 else none ])) [
                | some i ↦ λ (inside, later). (omega (arith, inside), later)
                | none ↦ λ absent.
                    if_cases (Last (x ∷ b)) (x == 10) (some 0) none (λ _. (omega arith, absent))
                      (λ e. rw e absent)
              ]
      before

pub drop_past : (n : ℕ) (a b : Bytes) → drop (length a + n) (a ++ b) ≡ drop n b
drop_past n [] b = ap (λ k. drop k b) (omega arith)
drop_past n (x ∷ a) b =
    let more : length (x ∷ a) + n ≡ suc (length a + n) = omega arith in
    ap (λ k. drop k (x ∷ a ++ b)) more ∙ drop_past n a b

-- What no write changes.
abbrev pub modes : BufferedFile → Bool × Bool × Bool × Bool × ℕ
modes f = (f.closed, f.flag_write, f.flag_buffered, f.flag_line_buffered, f.bufsize)

-- What each mode keeps in the buffer: nothing, no complete line, or less than a block.
abbrev pub IsSettled : BufferedFile → Type 0
IsSettled f =
    if not f.flag_buffered
    then f.wbuffer ≡ []
    else if f.flag_line_buffered
    then has 10 f.wbuffer ≡ false
    else length f.wbuffer < f.bufsize

pub unbuffered-IsSettled :
    (f : BufferedFile) → f.flag_buffered ≡ false → f.wbuffer ≡ [] → IsSettled f
unbuffered-IsSettled f e h = rw e h

pub settled_unbuffered : (f : BufferedFile) → f.flag_buffered ≡ false → IsSettled f → f.wbuffer ≡ []
settled_unbuffered f e h = rw e at h

pub lines-IsSettled :
    (f : BufferedFile)
    → f.flag_buffered ≡ true
    → f.flag_line_buffered ≡ true
    → has 10 f.wbuffer ≡ false
    → IsSettled f
lines-IsSettled f e el h = rw e (rw el h)

pub settled_lines :
    (f : BufferedFile)
    → f.flag_buffered ≡ true
    → f.flag_line_buffered ≡ true
    → IsSettled f
    → has 10 f.wbuffer ≡ false
settled_lines f e el h = let g = rw e at h in rw el at g

pub block-IsSettled :
    (f : BufferedFile)
    → f.flag_buffered ≡ true
    → f.flag_line_buffered ≡ false
    → length f.wbuffer < f.bufsize
    → IsSettled f
block-IsSettled f e el h = rw e (rw el h)
