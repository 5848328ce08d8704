-- ===== src/HostKeys/RoundTrip.antt =====
-- An entry that is written as a line and read back.
use paramiko.Base.{
  ℕ, ◌≡◌, refl, sym, ap, ◌∙◌, false, List, [], ◌∷◌, ◌++◌, Bytes, All, All-append, append-nil,
  append_assoc, Option, none, some, Result, ok, err, arith,
}
use paramiko.Message.{join_commas}
use paramiko.Transport.Negotiation.{as_read}
use paramiko.Transport.Names.{HasNoComma, split_commas-join_commas}
use paramiko.HostKeys.Entry.{
  Library, HostKeyEntry, new_entry, split_by, is_blank, is_space, lstrip, end_before, rstrip, strip,
  as_invalid, entry_of, three_fields, from_line, to_line,
}

-- Text without white space.
abbrev pub IsWord : Bytes → Type 0
IsWord s = All (λ c. is_space c ≡ false) s

not_blank : (c : ℕ) → is_space c ≡ false → is_blank c ≡ false
not_blank c h = ground arith

-- A field is read up to its end.
split_by-append :
    (piece word rest : Bytes)
    → IsWord word
    → split_by is_blank piece (word ++ rest) ≡ split_by is_blank (piece ++ word) rest
unfolding split_by
split_by-append piece [] rest h = ap (λ l. split_by is_blank l rest) (sym (append-nil piece))
split_by-append piece (c ∷ word) rest (first, others) =
    let later = split_by-append (piece ++ (c ∷ [])) word rest others in
    rw (not_blank c first)
      (later ∙ ap (λ l. split_by is_blank l rest) (append_assoc piece (c ∷ []) word))

split_by_fields :
    (names name key : Bytes)
    → IsWord names
    → IsWord name
    → IsWord key
    → split_by is_blank [] (names ++ (32 ∷ name ++ (32 ∷ key))) ≡ names ∷ name ∷ key ∷ []
unfolding split_by
split_by_fields names name key wnames wname wkey =
    split_by-append [] names _ wnames
    ∙ ap (λ l. names ∷ l) (split_by-append [] name (32 ∷ key) wname)
    ∙ ap (λ l. names ∷ name ∷ l)
        (ap (split_by is_blank []) (sym (append-nil key)) ∙ split_by-append [] key [] wkey)

join_commas-IsWord : (ns : List Bytes) → All IsWord ns → IsWord (join_commas ns)
unfolding join_commas
join_commas-IsWord [] h = tt
join_commas-IsWord (n ∷ []) (one, none_left) = one
join_commas-IsWord (n ∷ k ∷ ns) (one, others) =
    All-append (λ c. is_space c ≡ false) n (44 ∷ join_commas (k ∷ ns)) one
      (refl, join_commas-IsWord (k ∷ ns) others)

-- What is behind the last word goes, and no more.
rstrip_word : (c : ℕ) (word : Bytes) → IsWord (c ∷ word) → rstrip (c ∷ word ++ (10 ∷ [])) ≡ c ∷ word
unfolding rstrip
rstrip_word c [] (first, others) = rw first refl
rstrip_word c (d ∷ word) (first, others) = ap (end_before c) (rstrip_word d word others)

end_before_some : (c d : ℕ) (u t : Bytes) → end_before c (u ++ (d ∷ t)) ≡ c ∷ u ++ (d ∷ t)
end_before_some c d [] t = refl
end_before_some c d (x ∷ u) t = refl

rstrip_behind :
    (u s : Bytes) (d : ℕ) (t : Bytes) → rstrip s ≡ d ∷ t → rstrip (u ++ s) ≡ u ++ (d ∷ t)
unfolding rstrip
rstrip_behind [] s d t h = h
rstrip_behind (c ∷ u) s d t h =
    ap (end_before c) (rstrip_behind u s d t h) ∙ end_before_some c d u t

strip_line :
    (c : ℕ) (names name : Bytes) (d : ℕ) (key : Bytes)
    → is_space c ≡ false
    → IsWord (d ∷ key)
    → strip (c ∷ names ++ (32 ∷ name ++ (32 ∷ d ∷ key ++ (10 ∷ []))))
      ≡ c ∷ names ++ (32 ∷ name ++ (32 ∷ d ∷ key))
unfolding lstrip
strip_line c names name d key first word =
    let last = rstrip_word d key word in
    let middle = rstrip_behind (32 ∷ []) (d ∷ key ++ (10 ∷ [])) d key last in
    let front = rstrip_behind (32 ∷ name) (32 ∷ d ∷ key ++ (10 ∷ [])) 32 (d ∷ key) middle in
    rw first (
      rstrip_behind (c ∷ names) (32 ∷ name ++ (32 ∷ d ∷ key ++ (10 ∷ []))) 32
        (name ++ (32 ∷ d ∷ key)) front)

join_commas_front :
    (c : ℕ) (n : Bytes) (ns : List Bytes) → (j : Bytes) × (join_commas ((c ∷ n) ∷ ns) ≡ c ∷ j)
unfolding join_commas
join_commas_front c n [] = (n, refl)
join_commas_front c n (k ∷ ns) = (n ++ (44 ∷ join_commas (k ∷ ns)), refl)

module _ {Key : Type 0} (library : Library Key) where
  -- A line that gives the entry again.
  abbrev pub IsReadBack : HostKeyEntry Key → Result (Option Bytes) → Type 0
  IsReadBack e (err x) = ⊥
  IsReadBack e (ok none) = ⊥
  IsReadBack e (ok (some line)) = from_line library (strip line) ≡ ok (some e)

  entry_of_written :
      (ns : List Bytes) (k : Key)
      → as_read ns ≡ ns
      → All HasNoComma ns
      → library.decodebytes (library.get_base64 k) ≡ ok (library.asbytes k)
      → library.from_type_string (library.get_name k) (library.asbytes k) ≡ ok (some k)
      → entry_of library (join_commas ns) (library.get_name k) (library.get_base64 k)
        ≡ ok (some (new_entry ns (some k)))
  unfolding entry_of as_invalid
  entry_of_written ns k whole plain decoded made =
      let names = split_commas-join_commas ns plain ∙ whole in rw (decoded, made, names) refl

  -- The line of an entry with a key, stripped as `load` does it, is read back as the same entry. It
  -- has a name or more, without commas and white space, the first of them not empty; the kind of the
  -- key is without white space too, and so is its base64 form, which is not empty; and decoding that
  -- form and making a key of the bytes and the kind gives the key again.
  pub from_line-to_line :
      (c : ℕ) (n : Bytes) (ns : List Bytes) (k : Key) (d : ℕ) (base64 : Bytes)
      → All IsWord ((c ∷ n) ∷ ns)
      → All HasNoComma ((c ∷ n) ∷ ns)
      → IsWord (library.get_name k)
      → library.get_base64 k ≡ d ∷ base64
      → IsWord (d ∷ base64)
      → library.decodebytes (library.get_base64 k) ≡ ok (library.asbytes k)
      → library.from_type_string (library.get_name k) (library.asbytes k) ≡ ok (some k)
      → IsReadBack
          (new_entry ((c ∷ n) ∷ ns) (some k))
          (to_line library (new_entry ((c ∷ n) ∷ ns) (some k)))
  unfolding to_line new_entry from_line as_read
  from_line-to_line c n ns k d base64 words plain wname form wform decoded made =
      let names = (c ∷ n) ∷ ns in
      let (j, front) = join_commas_front c n ns in
      let name = library.get_name k in
      let stripped : strip
            (join_commas names ++ (32 ∷ name ++ (32 ∷ library.get_base64 k ++ (10 ∷ []))))
          ≡ join_commas names ++ (32 ∷ name ++ (32 ∷ library.get_base64 k)) =
        rw (front, form) (strip_line c j name d base64 words.0.0 wform) in
      let wkey : IsWord (library.get_base64 k) = rw form wform in
      ap (λ l. three_fields library (split_by is_blank [] l)) stripped
      ∙ ap (three_fields library) (
          split_by_fields (join_commas names) name (library.get_base64 k)
            (join_commas-IsWord names words) wname wkey)
      ∙ entry_of_written names k refl plain decoded made
