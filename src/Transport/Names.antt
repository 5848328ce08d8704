-- ===== src/Transport/Names.antt =====
-- The lists of names in a KEXINIT message, as bytes.
use paramiko.Base.{
  ℕ, ◌≡◌, ◌≢◌, refl, sym, ap, ◌∙◌, false, List, [], ◌∷◌, ◌++◌, Bytes, All, append_assoc, append-nil,
  ◌==◌, ok, arith,
}
use paramiko.Message.{Message, empty, rewind, split_commas, get_list, join_commas, add_list}
use paramiko.Message.Stream.{unread, unread-advance}
use paramiko.Message.Fields.{string_bytes, add_string_written}
use paramiko.Message.RoundTrip.{get_string_front}
use paramiko.Transport.Negotiation.{as_read}

abbrev pub HasNoComma : Bytes → Type 0
HasNoComma n = All (λ c. c ≢ 44) n

no_comma : (c : ℕ) → c ≢ 44 → (c == 44) ≡ false
no_comma c h = ground arith

-- A name is read up to its end.
split_commas-append :
    (piece n rest : Bytes)
    → HasNoComma n
    → split_commas piece (n ++ rest) ≡ split_commas (piece ++ n) rest
unfolding split_commas
split_commas-append piece [] rest h = ap (λ l. split_commas l rest) (sym (append-nil piece))
split_commas-append piece (c ∷ n) rest (first, others) =
    let later = split_commas-append (piece ++ (c ∷ [])) n rest others in
    rw (no_comma c first) (later ∙ ap (λ l. split_commas l rest) (append_assoc piece (c ∷ []) n))

pub split_commas-join_commas :
    (ns : List Bytes) → All HasNoComma ns → split_commas [] (join_commas ns) ≡ as_read ns
unfolding join_commas as_read split_commas
split_commas-join_commas [] h = refl
split_commas-join_commas (n ∷ []) (one, none_left) =
    ap (split_commas []) (sym (append-nil n)) ∙ split_commas-append [] n [] one
split_commas-join_commas (n ∷ k ∷ ns) (one, others) =
    let later = split_commas-join_commas (k ∷ ns) others in
    split_commas-append [] n (44 ∷ join_commas (k ∷ ns)) one ∙ ap (λ l. n ∷ l) later

-- A list of names without commas, written into a message without an error, is read by the other end
-- as the names in their order, but for no names at all, which are read as one empty name.
pub get_list-add_list :
    (ns : List Bytes) {m : Message}
    → All HasNoComma ns
    → add_list ns empty ≡ ok m
    → ((get_list (rewind m)).0 ≡ as_read ns) × (unread (get_list (rewind m)).1 ≡ [])
unfolding add_list get_list
get_list-add_list ns {m} plain done =
    let s = join_commas ns in
    let (fits, written) = add_string_written s empty refl done in
    let u : unread (rewind m) ≡ string_bytes s ++ [] =
      written.1 ∙ sym (append-nil (string_bytes s)) in
    let read = get_string_front (rewind m) s [] fits u in
    (
      ap (λ (z : Bytes × Message). split_commas [] z.0) read ∙ split_commas-join_commas ns plain,
      ap (λ (z : Bytes × Message). unread z.1) read
          ∙ unread-advance (rewind m) (string_bytes s) [] u,
    )
