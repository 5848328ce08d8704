-- ===== src/Transport/GroupExchange.antt =====
-- A server without a modulus pack: what it offers and what it accepts.
use paramiko.Base.{
  ◌≡◌, refl, ap, ◌∙◌, inl, inr, Bool, true, false, not, List, [], ◌∷◌, ◌++◌, All, Bytes, Bool-cases,
  filter, contains, starts_with, eq_bytes, contains-filter, contains-filter_keeps, filter_keeps, ok,
  arith,
}
use paramiko.Transport.State.{
  Transport, preferred_kex, filter_algorithm, is_group_exchange, is_ext_info, is_kex_strict,
}
use paramiko.Transport.Negotiation.{
  as_read, signals, lacks_modulus_pack, drop_group_exchange, send_kex_init, agree_on, first_agreed,
}
use paramiko.Transport.Signals.{is_algorithm, algorithms}

group_exchange-is_algorithm : (g : Bytes) → is_group_exchange g ≡ true → is_algorithm g ≡ true
unfolding is_group_exchange is_ext_info is_kex_strict starts_with
group_exchange-is_algorithm [] h = absurd (ground arith)
group_exchange-is_algorithm (x ∷ xs) h = ground arith

contains-append_left :
    (xs ys : List Bytes) (x : Bytes) → contains xs x ≡ true → contains (xs ++ ys) x ≡ true
unfolding contains
contains-append_left [] ys x h = absurd (ground arith)
contains-append_left (n ∷ ns) ys x h =
    let more = contains-append_left ns ys x in
    elim (Bool-cases (eq_bytes n x)) [ inl e ↦ rw e refl | inr e ↦ rw e (more (rw e at h)) ]

contains-as_read :
    (xs : List Bytes) (x : Bytes) → contains xs x ≡ true → contains (as_read xs) x ≡ true
unfolding contains as_read
contains-as_read [] x h = absurd (ground arith)
contains-as_read (n ∷ ns) x h = h

All-filter :
    (p q : Bytes → Bool)
    → ((x : Bytes) → p x ≡ true → q x ≡ false)
    → (xs : List Bytes) → All (λ x. q x ≡ false) (filter p xs)
unfolding filter
All-filter p q h [] = tt
All-filter p q h (x ∷ xs) =
    let more = All-filter p q h xs in
    elim (Bool-cases (p x)) [ inl e ↦ rw e (h x e, more) | inr e ↦ rw e more ]

first_in :
    (g : Bytes) (rest theirs : List Bytes)
    → contains theirs g ≡ true
    → first_agreed (filter (contains theirs) (g ∷ rest)) ≡ ok g
unfolding first_agreed
first_in g rest theirs h = rw (filter_keeps (contains theirs) g rest h) refl

dropped :
    (s : Transport)
    → lacks_modulus_pack s ≡ true
    → (x : Bytes) → contains (preferred_kex (send_kex_init s).0) x ≡ true
    → is_group_exchange x ≡ false
unfolding send_kex_init drop_group_exchange filter_algorithm
dropped s h x k =
    let plain = filter (λ y. not (is_group_exchange y)) s.preferences.kex in
    let allowed = λ (y : Bytes). not (contains s.disabled.kex y) in
    let kept = contains-filter allowed plain x (rw h at k) in
    let not_group = contains-filter (λ y. not (is_group_exchange y)) s.preferences.kex x kept.1 in
    ground (arith, not_group)

server_picks :
    (m : Bool)
    → m ≡ true
    → (ours offered : List Bytes)
    → ((x : Bytes) → contains ours x ≡ true → is_group_exchange x ≡ false)
    → All (λ x. is_group_exchange x ≡ false) (agree_on m ours offered)
unfolding agree_on
server_picks m h ours offered k = rw h (All-filter (contains ours) is_group_exchange k offered)

-- A server that has no modulus pack still offers the group exchange that it prefers, and does not
-- accept it: for a client whose own first choice is such an algorithm, the client takes that one
-- from the server's list, and the server takes none of them from the client's.
pub group_exchange-offered_not_accepted :
    (c s : Transport) (g : Bytes) (rest : List Bytes)
    → c.server_mode ≡ false
    → s.server_mode ≡ true
    → lacks_modulus_pack s ≡ true
    → preferred_kex c ≡ g ∷ rest
    → is_group_exchange g ≡ true
    → contains (preferred_kex s) g ≡ true
    → (first_agreed
          (agree_on c.server_mode (preferred_kex c) (algorithms (send_kex_init s).1.kex_algo_list))
        ≡ ok g)
      × All
          (λ x. is_group_exchange x ≡ false)
          (agree_on s.server_mode
            (preferred_kex (send_kex_init s).0)
            (algorithms (send_kex_init c).1.kex_algo_list))
unfolding send_kex_init drop_group_exchange agree_on
group_exchange-offered_not_accepted c s g rest hc hs lacks first gex known =
    let offered = algorithms (as_read (preferred_kex s ++ signals s)) in
    let found =
      contains-filter_keeps is_algorithm (as_read (preferred_kex s ++ signals s)) g
        (group_exchange-is_algorithm g gex)
      ∙ contains-as_read (preferred_kex s ++ signals s) g
          (contains-append_left (preferred_kex s) (signals s) g known) in
    (
      ap (λ m. first_agreed (agree_on m (preferred_kex c) offered)) hc
          ∙ ap (λ l. first_agreed (filter (contains offered) l)) first
          ∙ first_in g rest offered found,
      server_picks s.server_mode hs (preferred_kex (send_kex_init s).0)
          (algorithms (send_kex_init c).1.kex_algo_list) (dropped s lacks),
    )
