-- ===== src/Message/Fields.antt =====
-- Typed fields, written one after the other and read back in the same order.
use paramiko.Base.{
  ℕ, ◌^◌, ◌≤◌, ◌<◌, ◌≡◌, ap, ◌∙◌, inl, inr, Bool, true, false, List, [], ◌∷◌, ◌++◌, Bytes, length,
  append_assoc, Bool-cases, ltb, leb, ltb→lt, arith, ℤ, pos, negsuc, Result, ok, ◌>>=◌, >>=-eq-ok,
  ok-injective, if◌then◌else◌,
}
use paramiko.Wire.{pack, be_bytes}
use paramiko.LongInt.{deflate_long}
use paramiko.Message.{
  Message, write, get_boolean, get_int, get_int64, get_string, get_mpint, get_adaptive_int,
  add_boolean, add_int, add_int64, add_string, add_mpint, add_adaptive_int, big_int,
}
use paramiko.Message.Stream.{AtEnd, packet-write, write-AtEnd}

-- One field of a packet, by the pair of methods that handles it.
pub data Field : Type 0 where
  boolean : Bool → Field
  int int64 : ℕ → Field
  string : Bytes → Field
  mpint adaptive_int : ℤ → Field

unfoldable pub add_field : Field → Message → Result Message
add_field (boolean b) m = ok (add_boolean b m)
add_field (int n) m = add_int n m
add_field (int64 n) m = add_int64 n m
add_field (string s) m = add_string s m
add_field (mpint z) m = add_mpint z m
add_field (adaptive_int z) m = add_adaptive_int z m

-- The field of the same kind that comes next in `m`.
unfoldable pub get_field : Field → Message → Field × Message
get_field (boolean _) m = let (b, m') = get_boolean m in (boolean b, m')
get_field (int _) m = let (n, m') = get_int m in (int n, m')
get_field (int64 _) m = let (n, m') = get_int64 m in (int64 n, m')
get_field (string _) m = let (s, m') = get_string m in (string s, m')
get_field (mpint _) m = let (z, m') = get_mpint m in (mpint z, m')
get_field (adaptive_int _) m = let (z, m') = get_adaptive_int m in (adaptive_int z, m')

unfoldable pub add_fields : List Field → Message → Result Message
add_fields [] m = ok m
add_fields (f ∷ fs) m = do m' ← add_field f m; add_fields fs m'

unfoldable pub get_fields : List Field → Message → List Field × Message
get_fields [] m = ([], m)
get_fields (f ∷ fs) m =
    let (g, m') = get_field f m in let (gs, m'') = get_fields fs m' in (g ∷ gs, m'')

-- The bytes of a byte string with its length in front, and those of each field.
abbrev pub string_bytes : Bytes → Bytes
string_bytes s = be_bytes 4 (length s) ++ s

abbrev pub field_bytes : Field → Bytes
field_bytes (boolean b) = (if b then 1 else 0) ∷ []
field_bytes (int n) = be_bytes 4 n
field_bytes (int64 n) = be_bytes 8 n
field_bytes (string s) = string_bytes s
field_bytes (mpint z) = string_bytes (deflate_long z true)
field_bytes (adaptive_int (pos n)) =
    if leb big_int n then 0xff ∷ string_bytes (deflate_long (pos n) true) else be_bytes 4 n
field_bytes (adaptive_int (negsuc n)) = []

-- The values that a field of the kind can hold.
abbrev pub Fits : Field → Type 0
Fits (boolean b) = Unit
Fits (int n) = n < 2 ^ 32
Fits (int64 n) = n < 2 ^ 64
Fits (string s) = length s < 2 ^ 32
Fits (mpint z) = length (deflate_long z true) < 2 ^ 32
Fits (adaptive_int (pos n)) = big_int ≤ n → length (deflate_long (pos n) true) < 2 ^ 32
Fits (adaptive_int (negsuc n)) = ⊥

-- `m'` is `m` with `xs` written at the end.
abbrev pub Appended : Message → Bytes → Message → Type 0
Appended m xs m' = AtEnd m' × (m'.packet ≡ m.packet ++ xs)

Appended-write : (m : Message) (b : Bytes) → AtEnd m → Appended m b (write b m)
Appended-write m b h = (write-AtEnd m b h, packet-write m b h)

pub Appended-trans :
    (a b c : Message) (xs ys : Bytes) → Appended a xs b → Appended b ys c → Appended a (xs ++ ys) c
Appended-trans a b c xs ys p q = (q.0, q.1 ∙ ap (λ k. k ++ ys) p.1 ∙ append_assoc a.packet xs ys)

pack-eq-ok : (w n : ℕ) {b : Bytes} → pack w n ≡ ok b → (n < 256 ^ w) × (b ≡ be_bytes w n)
unfolding pack
pack-eq-ok w n h = elim (Bool-cases (ltb n (256 ^ w))) [
  | inl e ↦ (ltb→lt n (256 ^ w) e, let h' = rw e at h in cc)
  | inr e ↦ absurd (let h' = rw e at h in cc)
]

pub add_int_written :
    (n : ℕ) (m : Message) {m' : Message}
    → AtEnd m
    → add_int n m ≡ ok m'
    → (n < 2 ^ 32) × Appended m (be_bytes 4 n) m'
unfolding add_int
add_int_written n m h e =
    let (b, packed, done) = >>=-eq-ok (pack 4 n) (λ b. ok (write b m)) e in
    let (fits, same) = pack-eq-ok 4 n packed in
    (fits, rw (← ok-injective done, same) (Appended-write m (be_bytes 4 n) h))

pub add_int64_written :
    (n : ℕ) (m : Message) {m' : Message}
    → AtEnd m
    → add_int64 n m ≡ ok m'
    → (n < 2 ^ 64) × Appended m (be_bytes 8 n) m'
unfolding add_int64
add_int64_written n m h e =
    let (b, packed, done) = >>=-eq-ok (pack 8 n) (λ b. ok (write b m)) e in
    let (fits, same) = pack-eq-ok 8 n packed in
    (fits, rw (← ok-injective done, same) (Appended-write m (be_bytes 8 n) h))

pub add_string_written :
    (s : Bytes) (m : Message) {m' : Message}
    → AtEnd m
    → add_string s m ≡ ok m'
    → (length s < 2 ^ 32) × Appended m (string_bytes s) m'
unfolding add_string
add_string_written s m h e =
    let (a, counted, done) = >>=-eq-ok (add_int (length s) m) (λ a. ok (write s a)) e in
    let (fits, first) = add_int_written (length s) m h counted in
    (
      fits,
      rw (← ok-injective done)
          (Appended-trans m a (write s a) _ s first (Appended-write a s first.0)),
    )

pub add_field_written :
    (f : Field) (m : Message) {m' : Message}
    → AtEnd m
    → add_field f m ≡ ok m'
    → Fits f × Appended m (field_bytes f) m'
unfolding add_field add_boolean add_mpint add_adaptive_int
add_field_written (boolean true) m h e = (tt, rw (← ok-injective e) (Appended-write m _ h))
add_field_written (boolean false) m h e = (tt, rw (← ok-injective e) (Appended-write m _ h))
add_field_written (int n) m h e = add_int_written n m h e
add_field_written (int64 n) m h e = add_int64_written n m h e
add_field_written (string s) m h e = add_string_written s m h e
add_field_written (mpint z) m h e = add_string_written (deflate_long z true) m h e
add_field_written (adaptive_int (pos n)) m h e = elim (Bool-cases (leb big_int n)) [
  | inl big ↦
      let marked = Appended-write m (0xff ∷ []) h in
      let (fits, rest) =
        add_string_written (deflate_long (pos n) true) (write (0xff ∷ []) m) marked.0
          (rw big at e) in
      (λ _. fits, rw big (Appended-trans m (write (0xff ∷ []) m) _ (0xff ∷ []) _ marked rest))
  | inr small ↦
      let (fits, done) = add_int_written n m h (rw small at e) in
      (λ big. absurd (ground arith), rw small done)
]
add_field_written (adaptive_int (negsuc n)) m h e = absurd (ground arith)
