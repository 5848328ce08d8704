-- ===== src/Sftp/RoundTrip.antt =====
-- What `_unpack` makes of what `_pack` wrote.
use paramiko.Base.{
  ◌^◌, ◌<◌, ◌≡◌, refl, sym, ap, ◌∙◌, Bool, ◌&&◌, [], ◌++◌, Bytes, length, ltb, append-nil, ok,
  ◌>>=◌, >>=-eq-ok, arith,
}
use paramiko.Wire.{be_bytes}
use paramiko.Message.{Message, empty, rewind, add_int}
use paramiko.Message.Stream.{unread, advance, unread-advance}
use paramiko.Message.Fields.{Appended-trans, add_int_written}
use paramiko.Message.RoundTrip.{get_int_front}
use paramiko.Sftp.Attributes.{
  SftpAttributes, is_some, union, flags_of, has_flag, pack_size, pack_int, pack_pair, pack_extended,
  pack, unpack_size, unpack_int, unpack_pair, unpack_extended, unpack,
}
use paramiko.Sftp.Parts.{
  Reads, both, exchanged, pack_size_lem, pack_int_lem, pack_pair_lem, pack_extended_lem,
}

-- Each flag is found again in the union.
union_flags :
    (s i p t e : Bool)
    → (has_flag 0 (union s i p t e) ≡ s)
      × (has_flag 1 (union s i p t e) ≡ i)
      × (has_flag 2 (union s i p t e) ≡ p)
      × (has_flag 3 (union s i p t e) ≡ t)
      × (has_flag 31 (union s i p t e) ≡ e)
union_flags s i p t e = ground arith

flags_fit : (s i p t e : Bool) → union s i p t e < 2 ^ 32
flags_fit s i p t e = ground arith

-- A part that comes next: its value, and where the reading goes on.
next_part {ℓ} :
    {A : Type ℓ} (reader : Bool → Message → A × Message) (flag found : Bool) (written rest : Bytes)
    (value : A) (m : Message)
    → found ≡ flag
    → Reads (reader flag) written value
    → unread m ≡ written ++ rest
    → (reader found m ≡ (value, advance m (length written)))
      × (unread (advance m (length written)) ≡ rest)
next_part reader flag found written rest value m same reads u =
    (ap (λ b. reader b m) same ∙ reads m rest u, unread-advance m written rest u)

-- The attributes that arrive: the owner and the group, and the two times, only together; and what
-- was the name of an extended attribute is its value, and the other way round.
abbrev pub as_unpacked : SftpAttributes → SftpAttributes
as_unpacked a = record {
  flags = flags_of a;
  st_size = a.st_size;
  st_uid = (both a.st_uid a.st_gid).0;
  st_gid = (both a.st_uid a.st_gid).1;
  st_mode = a.st_mode;
  st_atime = (both a.st_atime a.st_mtime).0;
  st_mtime = (both a.st_atime a.st_mtime).1;
  attr = exchanged a.attr [];
}

-- The bytes that `_pack` has written, read by `_unpack`.
unpack-written :
    (a : SftpAttributes) (m : Message) (w2 w3 w4 w5 w6 : Bytes)
    → Reads (unpack_size (is_some a.st_size)) w2 a.st_size
    → Reads (unpack_pair (is_some a.st_uid && is_some a.st_gid)) w3 (both a.st_uid a.st_gid)
    → Reads (unpack_int (is_some a.st_mode)) w4 a.st_mode
    → Reads (unpack_pair (is_some a.st_atime && is_some a.st_mtime)) w5 (both a.st_atime a.st_mtime)
    → Reads (unpack_extended (ltb 0 (length a.attr))) w6 (exchanged a.attr [])
    → unread m ≡ be_bytes 4 (flags_of a) ++ (w2 ++ (w3 ++ (w4 ++ (w5 ++ (w6 ++ [])))))
    → ((unpack m).0 ≡ as_unpacked a) × (unread (unpack m).1 ≡ [])
unfolding unpack flags_of
unpack-written a m w2 w3 w4 w5 w6 r2 r3 r4 r5 r6 u =
    let s = is_some a.st_size in
    let i = is_some a.st_uid && is_some a.st_gid in
    let p = is_some a.st_mode in
    let t = is_some a.st_atime && is_some a.st_mtime in
    let e = ltb 0 (length a.attr) in
    let (f0, f1, f2, f3, f31) = union_flags s i p t e in
    let w1 = be_bytes 4 (union s i p t e) in
    let e1 = get_int_front m (union s i p t e) _ (flags_fit s i p t e) u in
    let m1 = advance m (length w1) in
    let u1 = unread-advance m w1 _ u in
    let (e2, u2) =
      next_part unpack_size s _ w2 (w3 ++ (w4 ++ (w5 ++ (w6 ++ [])))) a.st_size m1 f0 r2 u1 in
    let m2 = advance m1 (length w2) in
    let (e3, u3) = next_part unpack_pair i _ w3 (w4 ++ (w5 ++ (w6 ++ []))) _ m2 f1 r3 u2 in
    let m3 = advance m2 (length w3) in
    let (e4, u4) = next_part unpack_int p _ w4 (w5 ++ (w6 ++ [])) _ m3 f2 r4 u3 in
    let m4 = advance m3 (length w4) in
    let (e5, u5) = next_part unpack_pair t _ w5 (w6 ++ []) _ m4 f3 r5 u4 in
    let m5 = advance m4 (length w5) in
    let (e6, u6) = next_part unpack_extended e _ w6 [] _ m5 f31 r6 u5 in
    rw (e1, e2, e3, e4, e5, e6) (refl, u6)

-- Attributes that `_pack` writes without an error are read by `_unpack` with the same size, mode,
-- owner and times, the owner and the group, and the two times, only when both are there, and nothing
-- is left unread; but the name and the value of each extended attribute are exchanged.
pub unpack-pack :
    (a : SftpAttributes) {m : Message}
    → pack a empty ≡ ok m
    → ((unpack (rewind m)).0 ≡ as_unpacked a) × (unread (unpack (rewind m)).1 ≡ [])
unfolding pack
unpack-pack a {m} done =
    let k5 = pack_extended a.attr in
    let k4 = λ (m : Message). pack_pair a.st_atime a.st_mtime m >>= k5 in
    let k3 = λ (m : Message). pack_int a.st_mode m >>= k4 in
    let k2 = λ (m : Message). pack_pair a.st_uid a.st_gid m >>= k3 in
    let k1 = λ (m : Message). pack_size a.st_size m >>= k2 in
    let (m1, d1, l1) = >>=-eq-ok (add_int (flags_of a) empty) k1 done in
    let (m2, d2, l2) = >>=-eq-ok (pack_size a.st_size m1) k2 l1 in
    let (m3, d3, l3) = >>=-eq-ok (pack_pair a.st_uid a.st_gid m2) k3 l2 in
    let (m4, d4, l4) = >>=-eq-ok (pack_int a.st_mode m3) k4 l3 in
    let (m5, d5, d6) = >>=-eq-ok (pack_pair a.st_atime a.st_mtime m4) k5 l4 in
    let (fits, p1) = add_int_written (flags_of a) empty refl d1 in
    let (w2, p2, r2) = pack_size_lem a.st_size m1 p1.0 d2 in
    let (w3, p3, r3) = pack_pair_lem a.st_uid a.st_gid m2 p2.0 d3 in
    let (w4, p4, r4) = pack_int_lem a.st_mode m3 p3.0 d4 in
    let (w5, p5, r5) = pack_pair_lem a.st_atime a.st_mtime m4 p4.0 d5 in
    let (w6, p6, r6) = pack_extended_lem a.attr m5 p5.0 d6 in
    let tail = Appended-trans m4 m5 m w5 w6 p5 p6 in
    let tail4 = Appended-trans m3 m4 m w4 _ p4 tail in
    let tail3 = Appended-trans m2 m3 m w3 _ p3 tail4 in
    let tail2 = Appended-trans m1 m2 m w2 _ p2 tail3 in
    let all = Appended-trans empty m1 m (be_bytes 4 (flags_of a)) _ p1 tail2 in
    unpack-written a (rewind m) w2 w3 w4 w5 w6 r2 r3 r4 r5 r6 (
      all.1
      ∙ ap (λ l. be_bytes 4 (flags_of a) ++ (w2 ++ (w3 ++ (w4 ++ (w5 ++ l)))))
          (sym (append-nil w6)))
