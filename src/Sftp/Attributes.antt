-- ===== src/Sftp/Attributes.antt =====
-- `SFTPAttributes` of paramiko/sftp_attr.py: `_pack` and `_unpack`.
use paramiko.Base.{
  ℕ, zero, suc, ◌+◌, ◌*◌, ◌/◌, ◌%◌, ◌^◌, Bool, true, false, ◌&&◌, List, [], ◌∷◌, Bytes, length, ltb,
  ◌==◌, if◌then◌else◌, Option, none, some, eq_bytes, Result, ok, ◌>>=◌,
}
use paramiko.Message.{Message, get_int, get_int64, get_string, add_int, add_int64, add_string}

-- A field that is `None` is absent; the times are in whole seconds; `attr` is a dictionary, in the
-- order of its insertions.
pub record SftpAttributes : Type 0 where
  pub flags : ℕ
  pub st_size : Option ℕ
  pub st_uid : Option ℕ
  pub st_gid : Option ℕ
  pub st_mode : Option ℕ
  pub st_atime : Option ℕ
  pub st_mtime : Option ℕ
  pub attr : List (Bytes × Bytes)

abbrev pub is_some {ℓ} : {A : Type ℓ} → Option A → Bool
is_some none = false
is_some (some a) = true

abbrev pub bit : Bool → ℕ
bit true = 1
bit false = 0

-- The union of the flags: `FLAG_SIZE`, `FLAG_UIDGID`, `FLAG_PERMISSIONS`, `FLAG_AMTIME` and
-- `FLAG_EXTENDED`, which share no bit.
abbrev pub union : Bool → Bool → Bool → Bool → Bool → ℕ
union size ids mode times extended =
    bit size + 2 * bit ids + 4 * bit mode + 8 * bit times + 2147483648 * bit extended

unfoldable pub flags_of : SftpAttributes → ℕ
flags_of a =
    union (is_some a.st_size) (is_some a.st_uid && is_some a.st_gid) (is_some a.st_mode)
      (is_some a.st_atime && is_some a.st_mtime) (ltb 0 (length a.attr))

-- `flags & (1 << k)`
abbrev pub has_flag : ℕ → ℕ → Bool
has_flag k flags = flags / 2 ^ k % 2 == 1

-- The parts of `_pack`. A flag is set when its fields are there.
unfoldable pub pack_size : Option ℕ → Message → Result Message
pack_size none m = ok m
pack_size (some n) m = add_int64 n m

unfoldable pub pack_int : Option ℕ → Message → Result Message
pack_int none m = ok m
pack_int (some n) m = add_int n m

unfoldable pub pack_pair : Option ℕ → Option ℕ → Message → Result Message
pack_pair (some x) (some y) m = do m' ← add_int x m; add_int y m'
pack_pair (some x) none m = ok m
pack_pair none y m = ok m

unfoldable pub pack_items : List (Bytes × Bytes) → Message → Result Message
pack_items [] m = ok m
pack_items ((key, val) ∷ items) m = do
  m1 ← add_string key m
  m2 ← add_string val m1
  pack_items items m2

unfoldable pub pack_extended : List (Bytes × Bytes) → Message → Result Message
pack_extended [] m = ok m
pack_extended (item ∷ items) m = do
  m' ← add_int (length (item ∷ items)) m
  pack_items (item ∷ items) m'

-- `_pack`
unfoldable pub pack : SftpAttributes → Message → Result Message
pack a m = do
  m1 ← add_int (flags_of a) m
  m2 ← pack_size a.st_size m1
  m3 ← pack_pair a.st_uid a.st_gid m2
  m4 ← pack_int a.st_mode m3
  m5 ← pack_pair a.st_atime a.st_mtime m4
  pack_extended a.attr m5

-- `self.attr[key] = val`
unfoldable pub put_attr : Bytes → Bytes → List (Bytes × Bytes) → List (Bytes × Bytes)
put_attr key val [] = (key, val) ∷ []
put_attr key val ((k, v) ∷ items) =
    let rest = put_attr key val items in
    if eq_bytes k key then (key, val) ∷ items else (k, v) ∷ rest

-- The parts of `_unpack`, for a flag that is set or not.
unfoldable pub unpack_size : Bool → Message → Option ℕ × Message
unpack_size false m = (none, m)
unpack_size true m = let (n, m') = get_int64 m in (some n, m')

unfoldable pub unpack_int : Bool → Message → Option ℕ × Message
unpack_int false m = (none, m)
unpack_int true m = let (n, m') = get_int m in (some n, m')

unfoldable pub unpack_pair : Bool → Message → (Option ℕ × Option ℕ) × Message
unpack_pair false m = ((none, none), m)
unpack_pair true m = let (x, m1) = get_int m in let (y, m2) = get_int m1 in ((some x, some y), m2)

-- In `self.attr[msg.get_string()] = msg.get_string()`, Python evaluates the right-hand side first.
unfoldable pub unpack_items : ℕ → List (Bytes × Bytes) → Message → List (Bytes × Bytes) × Message
unpack_items zero items m = (items, m)
unpack_items (suc count) items m =
    let (val, m1) = get_string m in
    let (key, m2) = get_string m1 in unpack_items count (put_attr key val items) m2

unfoldable pub unpack_extended : Bool → Message → List (Bytes × Bytes) × Message
unpack_extended false m = ([], m)
unpack_extended true m = let (count, m') = get_int m in unpack_items count [] m'

-- `_unpack`, of a new object.
unfoldable pub unpack : Message → SftpAttributes × Message
unpack m =
    let (flags, m1) = get_int m in
    let (size, m2) = unpack_size (has_flag 0 flags) m1 in
    let (ids, m3) = unpack_pair (has_flag 1 flags) m2 in
    let (mode, m4) = unpack_int (has_flag 2 flags) m3 in
    let (times, m5) = unpack_pair (has_flag 3 flags) m4 in
    let (items, m6) = unpack_extended (has_flag 31 flags) m5 in
    (
      record {
        flags = flags;
        st_size = size;
        st_uid = ids.0;
        st_gid = ids.1;
        st_mode = mode;
        st_atime = times.0;
        st_mtime = times.1;
        attr = items;
      },
      m6,
    )
