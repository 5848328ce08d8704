-- ===== src/Message/RoundTrip.antt =====
-- Reading back the fields that were written, in order.
use paramiko.Base.{
  ℕ, ◌/◌, ◌%◌, ◌^◌, ◌<◌, ◌≡◌, refl, sym, ap, ◌∙◌, inl, inr, true, false, List, [], ◌∷◌, ◌++◌, Bytes,
  length, length-append, append_assoc, append-nil, Bool-cases, leb, arith, ◌==◌, ℤ, pos, negsuc, ok,
  ok-injective, >>=-eq-ok,
}
use paramiko.Wire.{be_bytes}
use paramiko.Wire.Laws.{length-be_bytes, be_value-be_bytes}
use paramiko.LongInt.{deflate_long}
use paramiko.LongInt.Deflate.{inflate_long-deflate_long}
use paramiko.Message.{
  Message, empty, rewind, get_boolean, get_int, get_int64, get_string, get_binary, get_mpint,
  get_adaptive_int, big_int,
}
use paramiko.Message.Stream.{unread, advance, AtEnd, unread-advance, get_bytes_front}
use paramiko.Message.Fields.{
  Field, boolean, int, int64, string, mpint, adaptive_int, add_field, get_field, add_fields,
  get_fields, string_bytes, field_bytes, Fits, add_field_written, Appended, Appended-trans,
}

-- What each getter gives when the encoding stands in front: the value, and the position after it.
pub get_int_front :
    (m : Message) (n : ℕ) (rest : Bytes)
    → n < 2 ^ 32
    → unread m ≡ be_bytes 4 n ++ rest
    → get_int m ≡ (n, advance m (length (be_bytes 4 n)))
unfolding get_int
get_int_front m n rest h u =
    rw (
      get_bytes_front m 4 (be_bytes 4 n) rest (sym (length-be_bytes 4 n)) u,
      be_value-be_bytes 4 n h,
    )

pub get_int64_front :
    (m : Message) (n : ℕ) (rest : Bytes)
    → n < 2 ^ 64
    → unread m ≡ be_bytes 8 n ++ rest
    → get_int64 m ≡ (n, advance m (length (be_bytes 8 n)))
unfolding get_int64
get_int64_front m n rest h u =
    rw (
      get_bytes_front m 8 (be_bytes 8 n) rest (sym (length-be_bytes 8 n)) u,
      be_value-be_bytes 8 n h,
    )

pub advance-advance :
    (m : Message) (xs ys : Bytes)
    → advance (advance m (length xs)) (length ys) ≡ advance m (length (xs ++ ys))
advance-advance m xs ys = ap (λ k. record m { position = k }) (rw length-append (omega arith))

pub get_string_front :
    (m : Message) (s rest : Bytes)
    → length s < 2 ^ 32
    → unread m ≡ string_bytes s ++ rest
    → get_string m ≡ (s, advance m (length (string_bytes s)))
unfolding get_string
get_string_front m s rest h u =
    let count = be_bytes 4 (length s) in
    let u' : unread m ≡ count ++ (s ++ rest) = u ∙ append_assoc count s rest in
    rw (
      get_int_front m (length s) (s ++ rest) h u',
      get_bytes_front (advance m (length count)) (length s) s rest refl
          (unread-advance m count (s ++ rest) u'),
      advance-advance m count s,
    )

get_binary-get_string : (m : Message) → get_binary m ≡ get_string m
unfolding get_binary get_string
get_binary-get_string m = refl

-- A number below `big_int` does not begin with the byte that marks a long one.
word_split :
    (n : ℕ) → n < big_int → (a b c d : ℕ) × (be_bytes 4 n ≡ a ∷ b ∷ c ∷ d ∷ []) × ((a ≡ 0xff) → ⊥)
unfolding be_bytes
word_split n h = (
  n / 256 / 256 / 256 % 256,
  n / 256 / 256 % 256,
  n / 256 % 256,
  n % 256,
  refl,
  λ e. absurd (omega arith),
)

get_adaptive_int_word :
    (m : Message) (n : ℕ) (rest : Bytes)
    → n < big_int
    → unread m ≡ be_bytes 4 n ++ rest
    → get_adaptive_int m ≡ (pos n, advance m (length (be_bytes 4 n)))
unfolding get_adaptive_int
get_adaptive_int_word m n rest h u =
    let (a, b, c, d, same, ne) = word_split n h in
    let u' : unread m ≡ (a ∷ []) ++ (b ∷ c ∷ d ∷ rest) = rw same at u in
    let u'' = unread-advance m (a ∷ []) (b ∷ c ∷ d ∷ rest) u' in
    let plain : (a == 0xff) ≡ false = ground arith in
    rw
      (
        get_bytes_front m 1 (a ∷ []) (b ∷ c ∷ d ∷ rest) refl u',
        get_bytes_front (advance m 1) 3 (b ∷ c ∷ d ∷ []) rest refl u'',
        plain,
        ← same,
        be_value-be_bytes 4 n (omega arith),
        length-be_bytes 4 n,
      )
      (ap (λ k. (pos n, record m { position = k })) (omega arith))

get_adaptive_int_long :
    (m : Message) (z : ℤ) (rest : Bytes)
    → length (deflate_long z true) < 2 ^ 32
    → unread m ≡ 0xff ∷ (string_bytes (deflate_long z true) ++ rest)
    → get_adaptive_int m ≡ (z, advance m (length (0xff ∷ string_bytes (deflate_long z true))))
unfolding get_adaptive_int
get_adaptive_int_long m z rest h u =
    let s = deflate_long z true in
    rw (
      get_bytes_front m 1 (0xff ∷ []) (string_bytes s ++ rest) refl u,
      get_binary-get_string (advance m 1),
      get_string_front (advance m 1) s rest h
          (unread-advance m (0xff ∷ []) (string_bytes s ++ rest) u),
      inflate_long-deflate_long z,
      advance-advance m (0xff ∷ []) (string_bytes s),
    )

get_field_front :
    (f : Field) (m : Message) (rest : Bytes)
    → Fits f
    → unread m ≡ field_bytes f ++ rest
    → get_field f m ≡ (f, advance m (length (field_bytes f)))
unfolding get_field get_boolean get_mpint
get_field_front (boolean true) m rest h u = rw (get_bytes_front m 1 (1 ∷ []) rest refl u)
get_field_front (boolean false) m rest h u = rw (get_bytes_front m 1 (0 ∷ []) rest refl u)
get_field_front (int n) m rest h u = rw (get_int_front m n rest h u)
get_field_front (int64 n) m rest h u = rw (get_int64_front m n rest h u)
get_field_front (string s) m rest h u = rw (get_string_front m s rest h u)
get_field_front (mpint z) m rest h u =
    rw (get_binary-get_string m, get_string_front m _ rest h u, inflate_long-deflate_long z)
get_field_front (adaptive_int (pos n)) m rest h u = elim (Bool-cases (leb big_int n)) [
  | inl e ↦ rw (e, get_adaptive_int_long m (pos n) rest (h (ground arith)) (rw e at u))
  | inr e ↦ rw (e, get_adaptive_int_word m n rest (ground arith) (rw e at u))
]
get_field_front (adaptive_int (negsuc n)) m rest h u = absurd h

-- A list of fields, as bytes.
abbrev fields_bytes : List Field → Bytes
fields_bytes [] = []
fields_bytes (f ∷ fs) = field_bytes f ++ fields_bytes fs

abbrev AllFit : List Field → Type 0
AllFit [] = Unit
AllFit (f ∷ fs) = Fits f × AllFit fs

add_fields_written :
    (fs : List Field) (m : Message) {m' : Message}
    → AtEnd m
    → add_fields fs m ≡ ok m'
    → AllFit fs × Appended m (fields_bytes fs) m'
unfolding add_fields
add_fields_written [] m h e = (tt, rw (← ok-injective e) (h, sym (append-nil m.packet)))
add_fields_written (f ∷ fs) m {m'} h e =
    let (a, one, more) = >>=-eq-ok (add_field f m) (λ a. add_fields fs a) e in
    let (fits, first) = add_field_written f m h one in
    let (all_fit, others) = add_fields_written fs a first.0 more in
    ((fits, all_fit), Appended-trans m a m' (field_bytes f) (fields_bytes fs) first others)

get_fields_front :
    (fs : List Field) (m : Message) (rest : Bytes)
    → AllFit fs
    → unread m ≡ fields_bytes fs ++ rest
    → ((get_fields fs m).0 ≡ fs) × (unread (get_fields fs m).1 ≡ rest)
unfolding get_fields
get_fields_front [] m rest h u = (refl, u)
get_fields_front (f ∷ fs) m rest h u =
    let u' = u ∙ append_assoc (field_bytes f) (fields_bytes fs) rest in
    let later =
      get_fields_front fs (advance m (length (field_bytes f))) rest h.1
        (unread-advance m (field_bytes f) (fields_bytes fs ++ rest) u') in
    rw (get_field_front f m (fields_bytes fs ++ rest) h.0 u') (ap (◌∷◌ f) later.0, later.1)

-- Fields of any kinds, written into an empty message without an error, are read back with their
-- values and in their order after a rewind, and nothing is left unread.
pub get_fields-add_fields :
    (fs : List Field) {m : Message}
    → add_fields fs empty ≡ ok m
    → ((get_fields fs (rewind m)).0 ≡ fs) × (unread (get_fields fs (rewind m)).1 ≡ [])
get_fields-add_fields fs {m} e =
    let (fit, done) = add_fields_written fs empty refl e in
    get_fields_front fs (rewind m) [] fit (done.1 ∙ sym (append-nil (fields_bytes fs)))
