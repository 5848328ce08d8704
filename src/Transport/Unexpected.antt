-- ===== src/Transport/Unexpected.antt =====
-- Messages that the loop of `Transport.run` does not want, or does not know.
use paramiko.Base.{
  ℕ, ◌≡◌, ◌≢◌, refl, ap, ◌∙◌, inl, inr, Bool, true, false, List, [], ◌∷◌, All, none, some,
  Bool-cases, ◌==◌, ==_iff, length, arith, message_order_error, key_error,
}
use paramiko.Message.{Message}
use paramiko.Auth.State.{Provider, Session, AuthHandler}
use paramiko.Auth.Run.{handle, server_handler, with_mic_handler}
use paramiko.Transport.Loop.{Loop, World, raises}
use paramiko.Transport.Dispatch.{
  member, msg_names, handler_table, channel_handler_table, enforce_strict_kex, not_implemented,
  or_not_implemented, to_auth, dispatch, round,
}

-- What is no member differs from every member.
apart_from :
    (n : ℕ) (ms ns : List ℕ)
    → All (λ k. member k ms ≡ true) ns
    → member n ms ≡ false
    → member n ns ≡ false
apart_from n ms [] among absent = refl
apart_from n ms (k ∷ ns) (first, others) absent =
    let rest = apart_from n ms ns others absent in
    elim (Bool-cases (k == n)) [
      | inl same ↦ let e : k ≡ n = (==_iff k n).0 same in absurd (let z = rw e at first in cc)
      | inr differs ↦ rw (differs, rest)
    ]

module _ {K : Type 0} (session : Session) (provider : Provider K) (world : World K) where
  -- Under strict key exchange, before the first keys are in use, a message that is not expected ends
  -- the connection with a `MessageOrderError`, be it one to ignore or to log, unless it is a
  -- disconnect, which ends it anyhow.
  pub round-strict_kex :
      (awaited : Bool) (ptype : ℕ) (m : Message) (l : Loop)
      → l.negotiation.agreed_on_strict_kex ≡ true
      → l.negotiation.initial_kex_done ≡ false
      → length l.expected_packet ≢ 0
      → member ptype l.expected_packet ≡ false
      → ptype ≢ 1
      → round session provider world awaited ptype m l ≡ raises message_order_error l []
  unfolding round enforce_strict_kex
  round-strict_kex awaited ptype m l strict initial some_expected unexpected no_disconnect =
      rw (strict, initial, unexpected) (ground arith)

  module _ (ptype : ℕ) (unknown : member ptype msg_names ≡ false) where
    apart : (k : ℕ) → member k msg_names ≡ true → ptype ≢ k
    apart k known e = let z = rw e at unknown in cc

    absent : (ns : List ℕ) → All (λ k. member k msg_names ≡ true) ns → member ptype ns ≡ false
    absent ns among = apart_from ptype msg_names ns among unknown

    -- The authentication handler of a server does not have it either.
    handle_unknown :
        (m : Message) (h : AuthHandler) → handle session provider world.server ptype m h ≡ none
    unfolding handle server_handler with_mic_handler
    handle_unknown m h =
        let service = apart 5 refl in
        let request = apart 50 refl in
        let response = apart 61 refl in let mic = apart 66 refl in ground arith

    unknown_raises :
        (l : Loop) → not_implemented session provider world ptype l ≡ raises key_error l []
    unfolding not_implemented
    unknown_raises l = rw unknown

    to_auth_unknown :
        (m : Message) (l : Loop) → to_auth session provider world ptype m l ≡ raises key_error l []
    unfolding to_auth or_not_implemented
    to_auth_unknown m l =
        elim l.auth_handler
          as (λ o.
            (elim o [
              | none ↦ not_implemented session provider world ptype l
              | some h ↦
                  or_not_implemented session provider world
                    (handle session provider world.server ptype m h) ptype l
            ])
            ≡ raises key_error l []) [
              | none ↦ unknown_raises l
              | some h ↦
                  ap (λ o. or_not_implemented session provider world o ptype l) (handle_unknown m h)
                  ∙ unknown_raises l
            ]

    -- A message of a type that `MSG_NAMES` does not list, when no message is expected, gets no reply
    -- from a server: the look-up of its name for the log raises a `KeyError`.
    pub round-unknown :
        (awaited : Bool) (m : Message) (l : Loop)
        → length l.expected_packet ≡ 0
        → round session provider world awaited ptype m l ≡ raises key_error l []
    unfolding round dispatch
    round-unknown awaited m l nothing_expected =
        let ignore = apart 2 refl in
        let disconnect = apart 1 refl in
        let debug = apart 4 refl in
        let no_handler =
          absent handler_table
            (refl, (refl, (refl, (refl, (refl, (refl, (refl, (refl, (refl, tt))))))))) in
        let no_channel_handler =
          absent channel_handler_table
            (refl, (refl, (refl, (refl, (refl, (refl, (refl, (refl, tt)))))))) in
        rw (nothing_expected, no_handler, no_channel_handler, to_auth_unknown m l) (ground arith)
