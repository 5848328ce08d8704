-- ===== src/Transport/Signals.antt =====
-- The entries among the key exchange algorithms that are no algorithms: what popping them leaves.
use paramiko.Base.{
  ℕ, ◌+◌, ◌≡◌, refl, ap, ◌∙◌, inl, inr, Bool, true, false, not, ◌||◌, List, [], ◌∷◌, ◌++◌, Bytes,
  length, length-append, append_assoc, append-nil, filter, pop-middle, filter_keeps, filter_drops,
  filter-append, starts_with, codes, if◌then◌else◌, Bool-cases, arith,
}
use paramiko.Transport.State.{Transport, is_ext_info, is_kex_strict, kex_strict}
use paramiko.Transport.Negotiation.{
  Noted, note_algorithm, note_algorithms, pop_each, signals, start_noting,
}

abbrev pub is_algorithm : Bytes → Bool
is_algorithm x = not (is_ext_info x || is_kex_strict x)

abbrev pub algorithms : List Bytes → List Bytes
algorithms xs = filter is_algorithm xs

-- One round of the loop, seen from the pops: the entry is marked, or stays.
pop_each-note_algorithm :
    (t : Transport) (i : ℕ) (ys : List Bytes) (x : Bytes) (zs : List Bytes) (noted : Noted)
    → i ≡ length ys
    → pop_each (note_algorithm t i x noted).to_pop (ys ++ (x ∷ algorithms zs))
      ≡ pop_each noted.to_pop (ys ++ algorithms (x ∷ zs))
unfolding note_algorithm pop_each
pop_each-note_algorithm t i ys x zs noted h =
    let popped = pop-middle i ys x (algorithms zs) h in
    let keeps = filter_keeps is_algorithm x zs in
    let drops = filter_drops is_algorithm x zs in
    elim (Bool-cases (is_ext_info x)) [
      | inl e ↦ rw (drops (rw e refl), e) (ap (pop_each noted.to_pop) popped)
      | inr e ↦ elim (Bool-cases (is_kex_strict x)) [
        | inl k ↦ rw (drops (rw (e, k) refl), e, k) (ap (pop_each noted.to_pop) popped)
        | inr k ↦ rw (keeps (rw (e, k) refl), e, k) refl
      ]
    ]

pop_each-note_algorithms :
    (t : Transport) (i : ℕ) (ys xs : List Bytes) (noted : Noted)
    → i ≡ length ys
    → pop_each (note_algorithms t i xs noted).to_pop (ys ++ xs)
      ≡ pop_each noted.to_pop (ys ++ algorithms xs)
unfolding note_algorithms filter
pop_each-note_algorithms t i ys [] noted h = refl
pop_each-note_algorithms t i ys (x ∷ xs) noted h =
    let noted' = note_algorithm t i x noted in
    let more =
      pop_each-note_algorithms t (i + 1) (ys ++ (x ∷ [])) xs noted'
        (rw (length-append ys (x ∷ [])) (omega arith)) in
    let more' =
      rw (append_assoc ys (x ∷ []) xs, append_assoc ys (x ∷ []) (algorithms xs)) at more in
    more' ∙ pop_each-note_algorithm t i ys x xs noted h

-- However the entries for extensions and strict mode stand among the peer's names, the indexes
-- that the loop collects pop exactly those entries, and keep the algorithms in their order.
pub popped_algorithms :
    (t : Transport) (names : List Bytes)
    → pop_each (note_algorithms t 0 names (start_noting t)).to_pop names ≡ algorithms names
popped_algorithms t names =
    let all = pop_each-note_algorithms t 0 [] names (start_noting t) refl in
    all ∙ unfold pop_each in refl

signals_dropped : (t : Transport) → algorithms (signals t) ≡ []
unfolding signals filter is_ext_info is_kex_strict kex_strict starts_with
signals_dropped t =
    elim t.server_mode
      as (λ m.
        algorithms (
          (if m then [] else codes "ext-info-c" ∷ [])
          ++ (if t.advertise_strict_kex then kex_strict m ∷ [] else []))
        ≡ []) [
          | true ↦
              elim t.advertise_strict_kex
                as (λ a. algorithms (if a then kex_strict true ∷ [] else []) ≡ []) [
                  | true ↦ refl
                  | false ↦ refl
                ]
          | false ↦
              elim t.advertise_strict_kex
                as (λ a.
                  algorithms (codes "ext-info-c" ∷ (if a then kex_strict false ∷ [] else []))
                  ≡ []) [ true ↦ refl | false ↦ refl ]
        ]

-- The entries that a transport adds to its own algorithms are dropped by its peer.
pub algorithms-signals :
    (t : Transport) (names : List Bytes) → algorithms (names ++ signals t) ≡ algorithms names
algorithms-signals t names =
    filter-append is_algorithm names (signals t)
    ∙ ap (λ l. algorithms names ++ l) (signals_dropped t)
    ∙ append-nil (algorithms names)
