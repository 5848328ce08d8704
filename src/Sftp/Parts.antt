-- ===== src/Sftp/Parts.antt =====
-- Each part of packed attributes, written and read back.
use paramiko.Base.{
  ℕ, ◌≡◌, sym, ap, ◌∙◌, true, ◌&&◌, List, [], ◌∷◌, ◌++◌, Bytes, length, append_assoc, append-nil,
  Option, none, some, ok, ok-injective, ◌>>=◌, >>=-eq-ok, ltb, arith,
}
use paramiko.Wire.{be_bytes}
use paramiko.Message.{Message, add_int, add_string, get_string}
use paramiko.Message.Stream.{unread, advance, AtEnd, unread-advance}
use paramiko.Message.Fields.{
  string_bytes, Appended, Appended-trans, add_int_written, add_int64_written, add_string_written,
}
use paramiko.Message.RoundTrip.{get_int_front, get_int64_front, get_string_front, advance-advance}
use paramiko.Sftp.Attributes.{
  is_some, pack_size, pack_int, pack_pair, pack_items, pack_extended, put_attr, unpack_size,
  unpack_int, unpack_pair, unpack_items, unpack_extended,
}

-- Nothing written.
unchanged : (m : Message) {m' : Message} → AtEnd m → ok m ≡ ok m' → Appended m [] m'
unchanged m h e = rw (← ok-injective e) (h, sym (append-nil m.packet))

abbrev paired {ℓ} : {A : Type ℓ} → A → Message → A × Message
paired value m = (value, m)

standing {ℓ} : {A : Type ℓ} (value : A) (m : Message) → paired value m ≡ paired value (advance m 0)
standing value m = ap (λ k. paired value (record m { position = k })) (omega arith)

-- The bytes of a part, and what it means for a reader: from where they stand in front, it takes the
-- value and goes on behind them.
abbrev pub Reads {ℓ} : {A : Type ℓ} → (Message → A × Message) → Bytes → A → Type ℓ
Reads reader written value =
    (m : Message) (rest : Bytes)
    → unread m ≡ written ++ rest
    → reader m ≡ (value, advance m (length written))

-- A part that was written into a message is what its reader reads.
abbrev pub Packs {ℓ} : {A : Type ℓ} → Message → Message → (Message → A × Message) → A → Type ℓ
Packs m m' reader value = (written : Bytes) × Appended m written m' × Reads reader written value

pub pack_size_lem :
    (o : Option ℕ) (m : Message) {m' : Message}
    → AtEnd m
    → pack_size o m ≡ ok m'
    → Packs m m' (unpack_size (is_some o)) o
unfolding pack_size unpack_size
pack_size_lem none m h e = ([], unchanged m h e, λ m rest u. standing _ m)
pack_size_lem (some n) m h e =
    let (fits, appended) = add_int64_written n m h e in
    (be_bytes 8 n, appended, λ m rest u. rw (get_int64_front m n rest fits u))

pub pack_int_lem :
    (o : Option ℕ) (m : Message) {m' : Message}
    → AtEnd m
    → pack_int o m ≡ ok m'
    → Packs m m' (unpack_int (is_some o)) o
unfolding pack_int unpack_int
pack_int_lem none m h e = ([], unchanged m h e, λ m rest u. standing _ m)
pack_int_lem (some n) m h e =
    let (fits, appended) = add_int_written n m h e in
    (be_bytes 4 n, appended, λ m rest u. rw (get_int_front m n rest fits u))

-- Two fields under one flag: both, or none.
abbrev pub both : Option ℕ → Option ℕ → Option ℕ × Option ℕ
both (some x) (some y) = (some x, some y)
both (some x) none = (none, none)
both none y = (none, none)

pub pack_pair_lem :
    (a b : Option ℕ) (m : Message) {m' : Message}
    → AtEnd m
    → pack_pair a b m ≡ ok m'
    → Packs m m' (unpack_pair (is_some a && is_some b)) (both a b)
unfolding pack_pair unpack_pair
pack_pair_lem none b m h e = ([], unchanged m h e, λ m rest u. standing _ m)
pack_pair_lem (some x) none m h e = ([], unchanged m h e, λ m rest u. standing _ m)
pack_pair_lem (some x) (some y) m {m'} h e =
    let (m1, one, two) = >>=-eq-ok (add_int x m) (λ a. add_int y a) e in
    let (fits_x, first) = add_int_written x m h one in
    let (fits_y, second) = add_int_written y m1 first.0 two in
    (
      be_bytes 4 x ++ be_bytes 4 y,
      Appended-trans m m1 m' (be_bytes 4 x) (be_bytes 4 y) first second,
      λ m rest u.
          let u' = u ∙ append_assoc (be_bytes 4 x) (be_bytes 4 y) rest in
          rw (
            get_int_front m x (be_bytes 4 y ++ rest) fits_x u',
            get_int_front (advance m (length (be_bytes 4 x))) y rest fits_y
                (unread-advance m (be_bytes 4 x) (be_bytes 4 y ++ rest) u'),
            advance-advance m (be_bytes 4 x) (be_bytes 4 y),
          ),
    )

-- The items as they are read: what was written first becomes the value.
abbrev pub exchanged : List (Bytes × Bytes) → List (Bytes × Bytes) → List (Bytes × Bytes)
exchanged [] items = items
exchanged ((key, val) ∷ rest) items = exchanged rest (put_attr val key items)

pub pack_items_lem :
    (items : List (Bytes × Bytes)) (m : Message) {m' : Message}
    → AtEnd m
    → pack_items items m ≡ ok m'
    → (before : List (Bytes × Bytes))
    → Packs m m' (unpack_items (length items) before) (exchanged items before)
unfolding pack_items unpack_items
pack_items_lem [] m h e before = ([], unchanged m h e, λ m rest u. standing before m)
pack_items_lem ((key, val) ∷ items) m {m'} h e before =
    let (m1, one, more) =
      >>=-eq-ok (add_string key m) (λ a. add_string val a >>= pack_items items) e in
    let (m2, two, others) = >>=-eq-ok (add_string val m1) (pack_items items) more in
    let (fits_key, first) = add_string_written key m h one in
    let (fits_val, second) = add_string_written val m1 first.0 two in
    let (written, third, reads) =
      pack_items_lem items m2 second.0 others (put_attr val key before) in
    let k = string_bytes key in
    let v = string_bytes val in
    (
      k ++ (v ++ written),
      Appended-trans m m1 m' k (v ++ written) first
          (Appended-trans m1 m2 m' v written second third),
      λ m rest u.
          let u1 =
            u
            ∙ append_assoc k (v ++ written) rest
            ∙ ap (λ l. k ++ l) (append_assoc v written rest) in
          let u2 = unread-advance m k (v ++ (written ++ rest)) u1 in
          let u3 = unread-advance (advance m (length k)) v (written ++ rest) u2 in
          let e1 = get_string_front m key (v ++ (written ++ rest)) fits_key u1 in
          let e2 = get_string_front (advance m (length k)) val (written ++ rest) fits_val u2 in
          let n = length items in
          let read_val = λ (z : Bytes × Message) (y : Bytes × Message).
            unpack_items n (put_attr y.0 z.0 before) y.1 in
          let e3 = reads (advance (advance m (length k)) (length v)) rest u3 in
          ap (λ (z : Bytes × Message). read_val z (get_string z.1)) e1
          ∙ ap (read_val (key, advance m (length k))) e2
          ∙ e3
          ∙ ap (λ d. (exchanged items (put_attr val key before), d))
              (advance-advance (advance m (length k)) v written
                ∙ advance-advance m k (v ++ written)),
    )

pub pack_extended_lem :
    (items : List (Bytes × Bytes)) (m : Message) {m' : Message}
    → AtEnd m
    → pack_extended items m ≡ ok m'
    → Packs m m' (unpack_extended (ltb 0 (length items))) (exchanged items [])
unfolding pack_extended unpack_extended
pack_extended_lem [] m h e = ([], unchanged m h e, λ m rest u. standing [] m)
pack_extended_lem (item ∷ items) m {m'} h e =
    let all = item ∷ items in
    let (m1, one, more) = >>=-eq-ok (add_int (length all) m) (pack_items all) e in
    let (fits, first) = add_int_written (length all) m h one in
    let (written, others, reads) = pack_items_lem all m1 first.0 more [] in
    let count = be_bytes 4 (length all) in
    let set : ltb 0 (length all) ≡ true = ground arith in
    (
      count ++ written,
      Appended-trans m m1 m' count written first others,
      λ m rest u.
          let u' = u ∙ append_assoc count written rest in
          rw set (
            rw (
              get_int_front m (length all) (written ++ rest) fits u',
              reads (advance m (length count)) rest (unread-advance m count (written ++ rest) u'),
              advance-advance m count written,
            )),
    )
