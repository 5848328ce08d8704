-- ===== src/BufferedFile/State.antt =====
-- The state of a file, its modes, and the kinds of newlines that it has seen.
use paramiko.Base.{
  ℕ, suc, Bool, true, false, not, ◌||◌, List, [], ◌∷◌, ◌++◌, Bytes, ◌==◌, if◌then◌else◌, Option,
  none, some, eq_bytes, contains, ℤ, pos, negsuc,
}

-- `newlines`: `None`, one kind, or a tuple of kinds.
pub data Newlines : Type 0 where
  unseen : Newlines
  one : Bytes → Newlines
  several : List Bytes → Newlines

-- A flag of `_flags` is a Boolean. `file_pos` is `_pos`.
pub record BufferedFile : Type 0 where
  pub newlines : Newlines
  pub flag_read : Bool
  pub flag_write : Bool
  pub flag_append : Bool
  pub flag_binary : Bool
  pub flag_buffered : Bool
  pub flag_line_buffered : Bool
  pub flag_universal_newline : Bool
  pub bufsize : ℕ
  pub wbuffer : Bytes
  pub rbuffer : Bytes
  pub at_trailing_cr : Bool
  pub closed : Bool
  pub file_pos : ℕ
  pub realpos : ℕ
  pub size : ℕ

abbrev pub default_bufsize : ℕ
default_bufsize = 8192

-- `BufferedFile.__init__`
unfoldable pub init : BufferedFile
init = record {
  newlines = unseen;
  flag_read = false;
  flag_write = false;
  flag_append = false;
  flag_binary = false;
  flag_buffered = false;
  flag_line_buffered = false;
  flag_universal_newline = false;
  bufsize = default_bufsize;
  wbuffer = [];
  rbuffer = [];
  at_trailing_cr = false;
  closed = false;
  file_pos = 0;
  realpos = 0;
  size = 0;
}

-- `c in s`, and `s.find(c)`, on byte strings.
unfoldable pub has : ℕ → Bytes → Bool
has c [] = false
has c (b ∷ s) = b == c || has c s

abbrev pub next_index : Option ℕ → Option ℕ
next_index none = none
next_index (some i) = some (suc i)

unfoldable pub find : ℕ → Bytes → Option ℕ
find c [] = none
find c (b ∷ s) = let further = next_index (find c s) in if b == c then some 0 else further

-- The part of `_set_mode` that concerns the buffer.
unfoldable pub set_bufsize : ℤ → BufferedFile → BufferedFile
set_bufsize (negsuc n) f = record f { flag_buffered = false; flag_line_buffered = false }
set_bufsize (pos n) f =
    if n == 0
    then record f { flag_buffered = false; flag_line_buffered = false }
    else if n == 1
    then record f { flag_buffered = true; flag_line_buffered = true }
    else record f { bufsize = n; flag_buffered = true; flag_line_buffered = false }

-- `_set_mode`; `get_size` is what `_get_size` returns.
unfoldable pub set_mode : Bytes → ℤ → ℕ → BufferedFile → BufferedFile
set_mode mode bufsize get_size f =
    let f1 = set_bufsize bufsize (record f { bufsize = default_bufsize }) in
    let plus = has 43 mode in
    let append = has 97 mode in
    record f1 {
      flag_read = f1.flag_read || (has 114 mode || plus);
      flag_write = f1.flag_write || (has 119 mode || (plus || append));
      flag_append = f1.flag_append || append;
      flag_binary = f1.flag_binary || has 98 mode;
      flag_universal_newline = f1.flag_universal_newline || has 85 mode;
      newlines = if has 85 mode then unseen else f1.newlines;
      size = if append then get_size else f1.size;
      file_pos = if append then get_size else f1.file_pos;
      realpos = if append then get_size else f1.realpos;
    }

unfoldable pub add_newline : Bytes → Newlines → Newlines
add_newline newline unseen = one newline
add_newline newline (one kind) =
    if eq_bytes kind newline then one kind else several (kind ∷ newline ∷ [])
add_newline newline (several kinds) =
    if contains kinds newline then several kinds else several (kinds ++ (newline ∷ []))

-- `_record_newline`
unfoldable pub record_newline : Bytes → BufferedFile → BufferedFile
record_newline newline f =
    if not f.flag_universal_newline
    then f
    else record f { newlines = add_newline newline f.newlines }

-- Lines, one behind the other.
abbrev pub concat : List Bytes → Bytes
concat [] = []
concat (line ∷ lines) = line ++ concat lines
