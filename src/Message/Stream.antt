-- ===== src/Message/Stream.antt =====
-- The stream under a message: what reads and writes do to the bytes on either side of the
-- position.
use paramiko.Base.{
  ℕ, zero, suc, ◌+◌, ◌-◌, ◌≤◌, ◌≡◌, refl, sym, ap, ◌∙◌, [], ◌∷◌, ◌++◌, Bytes, length, take, drop,
  length-append, length-take, length-replicate, take-append-drop, take_all, drop_all,
  take-append_left, drop-append_left, append-nil, arith,
}
use paramiko.Message.{Message, read, write, get_remainder, get_so_far, get_bytes}

-- The bytes that are still to be read.
abbrev pub unread : Message → Bytes
unread m = drop m.position m.packet

abbrev pub advance : Message → ℕ → Message
advance m n = record m { position = m.position + n }

abbrev pub IsValid : Message → Type 0
IsValid m = m.position ≤ length m.packet

abbrev pub AtEnd : Message → Type 0
AtEnd m = m.position ≡ length m.packet

drop-drop : (i j : ℕ) (xs : Bytes) → drop i (drop j xs) ≡ drop (j + i) xs
drop-drop i zero xs = let e : 0 + i ≡ i = omega arith in rw e
drop-drop zero (suc j) [] = let e : suc j + 0 ≡ suc j = omega arith in rw e
drop-drop (suc i) (suc j) [] = let e : suc j + suc i ≡ suc (j + suc i) = omega arith in rw e
drop-drop i (suc j) (x ∷ xs) =
    let e : suc j + i ≡ suc (j + i) = omega arith in rw e (drop-drop i j xs)

pub unread-advance :
    (m : Message) (xs rest : Bytes) → unread m ≡ xs ++ rest → unread (advance m (length xs)) ≡ rest
unread-advance m xs rest e =
    sym (drop-drop (length xs) m.position m.packet)
    ∙ ap (drop (length xs)) e
    ∙ drop-append_left xs rest (length xs) refl

-- A read takes what stands in front.
pub read_front :
    (m : Message) (xs rest : Bytes)
    → unread m ≡ xs ++ rest
    → read (length xs) m ≡ (xs, advance m (length xs))
unfolding read
read_front m xs rest e = rw (e, take-append_left xs rest (length xs) refl)

pub get_bytes_front :
    (m : Message) (n : ℕ) (xs rest : Bytes)
    → n ≡ length xs
    → unread m ≡ xs ++ rest
    → get_bytes n m ≡ (xs, advance m (length xs))
unfolding get_bytes
get_bytes_front m n xs rest h e = rw (h, read_front m xs rest e) (ground arith)

-- A write at the end appends.
pub packet-write : (m : Message) (b : Bytes) → AtEnd m → (write b m).packet ≡ m.packet ++ b
unfolding write
packet-write m b h =
    let gap : m.position - length m.packet ≡ 0 = omega arith in
    rw (
      take_all m.position m.packet (omega arith),
      gap,
      drop_all (m.position + length b) m.packet (omega arith),
      append-nil,
    )

position-write : (m : Message) (b : Bytes) → (write b m).position ≡ m.position + length b
unfolding write
position-write m b = refl

pub write-AtEnd : (m : Message) (b : Bytes) → AtEnd m → AtEnd (write b m)
write-AtEnd m b h = rw (packet-write m b h, position-write m b, length-append) (omega arith)

length-write : (m : Message) (b : Bytes) → m.position + length b ≤ length (write b m).packet
unfolding write
length-write m b =
    rw (length-append, length-append, length-append, length-take, length-replicate) (omega arith)

-- Every write leaves the position inside the stream.
pub write-IsValid : (b : Bytes) (m : Message) → IsValid (write b m)
write-IsValid b m = rw (position-write m b) (length-write m b)

-- What was parsed and what was not make up the content, and asking for either moves nothing.
pub get_so_far-append-get_remainder :
    (m : Message)
    → IsValid m
    → ((get_so_far m).0 ++ (get_remainder m).0 ≡ m.packet)
      × ((get_so_far m).1 ≡ m)
      × ((get_remainder m).1 ≡ m)
unfolding get_so_far get_remainder read
get_so_far-append-get_remainder m v =
    let e : 0 + length (take m.position m.packet) ≡ m.position = rw length-take (omega arith) in
    (take-append-drop m.position m.packet, rw e, refl)
