-- ===== src/Packetizer/Rekey.antt =====
-- When the request for new keys is taken back: a run of switches of ciphers.
use paramiko.Base.{
  ℕ, ◌≡◌, refl, ap, Bool, true, false, not, ◌&&◌, ◌||◌, List, [], ◌∷◌, Bytes, Option, if◌then◌else◌,
  arith, Bool-cases, inl, inr, ◌==◌,
}
use paramiko.Packetizer.State.{
  Packetizer, or_one, or_two, count_switch, set_outbound_cipher, set_inbound_cipher,
}

-- A switch of one direction, with its arguments.
pub data Switch (E D : Type 0) : Type 0 where
  outbound : E → ℕ → Option D → ℕ → Bytes → Bool → Bool → Bool → Bytes → Switch E D
  inbound : E → ℕ → Option D → ℕ → Bytes → Bool → Bool → Bytes → Switch E D

abbrev pub is_outbound : {E D : Type 0} → Switch E D → Bool
is_outbound (outbound _ _ _ _ _ _ _ _ _) = true
is_outbound (inbound _ _ _ _ _ _ _ _) = false

-- `init_count` when the outbound or the inbound direction has been switched, but not both.
abbrev pub count_of : Bool → Bool → ℕ
count_of outward inward = if outward then 1 else if inward then 2 else 0

abbrev pub any_outbound : {E D : Type 0} → List (Switch E D) → Bool
any_outbound [] = false
any_outbound (s ∷ ss) = is_outbound s || any_outbound ss

abbrev pub any_inbound : {E D : Type 0} → List (Switch E D) → Bool
any_inbound [] = false
any_inbound (s ∷ ss) = not (is_outbound s) || any_inbound ss

-- The flag is cleared once both directions have been switched, and stays so.
cleared :
    (a a' r o i bo bi ao ai : Bool)
    → (o || bo) && (i || bi) ≡ true
    → a' ≡ false
    → r ≡ a' && not (ao && ai)
    → r ≡ a && not ((o || (bo || ao)) && (i || (bi || ai)))
cleared a a' r true i bo true ao ai h k e = ground arith
cleared a a' r true true bo false ao ai h k e = ground arith
cleared a a' r true false bo false ao ai h k e = absurd (ground arith)
cleared a a' r false i true true ao ai h k e = ground arith
cleared a a' r false true true false ao ai h k e = ground arith
cleared a a' r false i false bi ao ai h k e = absurd (ground arith)
cleared a a' r false false true false ao ai h k e = absurd (ground arith)

none_switched : (a o i : Bool) → o && i ≡ false → a ≡ a && not ((o || false) && (i || false))
none_switched a o i h = ground arith

pending :
    (a a' r o i bo bi ao ai : Bool)
    → a' ≡ a
    → r ≡ a' && not (((o || bo) || ao) && ((i || bi) || ai))
    → r ≡ a && not ((o || (bo || ao)) && (i || (bi || ai)))
pending a a' r o i bo bi ao ai k e = rw (← or_assoc o bo ao, ← or_assoc i bi ai, ← k) e
  where
    or_assoc : (x y z : Bool) → (x || y) || z ≡ x || (y || z)
    or_assoc x y z = ground arith

module _ {E D C : Type 0} where
  unfoldable pub switch : Switch E D → Packetizer E D C → Packetizer E D C
  switch (outbound engine size mac mac_size key sdctr etm aead iv) p =
      set_outbound_cipher engine size mac mac_size key sdctr etm aead iv p
  switch (inbound engine size mac mac_size key etm aead iv) p =
      set_inbound_cipher engine size mac mac_size key etm aead iv p

  unfoldable pub switches : List (Switch E D) → Packetizer E D C → Packetizer E D C
  switches [] p = p
  switches (s ∷ ss) p = switches ss (switch s p)

  counted_switch :
      {n : ℕ} (k : ℕ) (p : Packetizer E D C)
      → n ≡ k
      → ((count_switch n p).init_count ≡ (if k == 3 then 0 else k))
        × ((count_switch n p).need_rekey ≡ (if k == 3 then false else p.need_rekey))
  unfolding count_switch
  counted_switch k p h = elim (Bool-cases (k == 3)) [
    | inl e ↦ rw (h, e) (refl, refl)
    | inr e ↦ rw (h, e) (refl, refl)
  ]

  -- One switch, from what has been switched before it.
  switch_lem :
      (s : Switch E D) (outward inward : Bool) (p : Packetizer E D C)
      → outward && inward ≡ false
      → p.init_count ≡ count_of outward inward
      → let o = outward || is_outbound s in
        let i = inward || not (is_outbound s) in
        ((switch s p).init_count ≡ (if o && i then 0 else count_of o i))
        × ((switch s p).need_rekey ≡ (if o && i then false else p.need_rekey))
  unfolding switch set_outbound_cipher set_inbound_cipher
  switch_lem s true true p apart h = absurd (ground arith)
  switch_lem (outbound _ _ _ _ _ _ _ _ _) true false p apart h = counted_switch 1 _ (ap or_one h)
  switch_lem (outbound _ _ _ _ _ _ _ _ _) false true p apart h = counted_switch 3 _ (ap or_one h)
  switch_lem (outbound _ _ _ _ _ _ _ _ _) false false p apart h = counted_switch 1 _ (ap or_one h)
  switch_lem (inbound _ _ _ _ _ _ _ _) true false p apart h = counted_switch 3 _ (ap or_two h)
  switch_lem (inbound _ _ _ _ _ _ _ _) false true p apart h = counted_switch 2 _ (ap or_two h)
  switch_lem (inbound _ _ _ _ _ _ _ _) false false p apart h = counted_switch 2 _ (ap or_two h)

  switches_from :
      (ss : List (Switch E D)) (outward inward : Bool) (p : Packetizer E D C)
      → outward && inward ≡ false
      → p.init_count ≡ count_of outward inward
      → (switches ss p).need_rekey
        ≡ p.need_rekey && not ((outward || any_outbound ss) && (inward || any_inbound ss))
  unfolding switches
  switches_from [] outward inward p apart h = none_switched p.need_rekey outward inward apart
  switches_from (s ∷ ss) outward inward p apart h =
      let o = outward || is_outbound s in
      let i = inward || not (is_outbound s) in
      let (count, need) = switch_lem s outward inward p apart h in
      elim (Bool-cases (o && i)) [
        | inl e ↦
            let more = switches_from ss false false (switch s p) refl (rw e at count) in
            cleared p.need_rekey (switch s p).need_rekey _ outward inward (is_outbound s)
              (not (is_outbound s)) (any_outbound ss) (any_inbound ss) e (rw e at need) more
        | inr e ↦
            let more = switches_from ss o i (switch s p) e (rw e at count) in
            pending p.need_rekey (switch s p).need_rekey _ outward inward (is_outbound s)
              (not (is_outbound s)) (any_outbound ss) (any_inbound ss) (rw e at need) more
      ]

  -- From a packetizer whose count of switches is zero, any run of switches of ciphers, in whatever
  -- order and however often, keeps a request for new keys exactly as long as it has not switched
  -- both directions, and makes no request of its own.
  pub switches-need_rekey :
      (ss : List (Switch E D)) (p : Packetizer E D C)
      → p.init_count ≡ 0
      → (switches ss p).need_rekey ≡ p.need_rekey && not (any_outbound ss && any_inbound ss)
  switches-need_rekey ss p h = switches_from ss false false p refl h
