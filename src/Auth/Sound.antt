-- ===== src/Auth/Sound.antt =====
-- A whole connection of a server: who has approved when it is authenticated.
use paramiko.Base.{
  ◌≡◌, sym, ◌∙◌, ◌⊎◌, inl, inr, true, false, List, [], ◌∷◌, Option, none, some, if_cases, arith,
  ◌==◌, ◌||◌, ==_iff, Bool-cases, eq_bytes, codes,
}
use paramiko.Message.{Message, get_int}
use paramiko.Auth.State.{
  ServerObject, Provider, Session, Reply, AuthHandler, result, successful,
  disconnect_service_not_available,
}
use paramiko.Auth.Server.{Outcome, get_responses, parse_service_request}
use paramiko.Auth.Granted.{
  Approves, username_of, service_of, method_of, parse_userauth_request-authenticated,
  info_response-authenticated,
}
use paramiko.Auth.Run.{Arrival, with_mic_handler, server_handler, handle, carry_on, run}

module _ {K : Type 0} (session : Session) (provider : Provider K) where
  -- A message that the party in charge approves of: a request for the service, or an answer.
  abbrev pub Approved : Arrival K → Type 0
  Approved a =
      ((a.ptype ≡ 50)
        × (eq_bytes (service_of session provider a.server a.message) (codes "ssh-connection")
            ≡ true)
        × Approves session provider a.server (method_of session provider a.server a.message)
            (service_of session provider a.server a.message)
            (username_of session provider a.server a.message))
      ⊎ ((a.ptype ≡ 61)
          × (a.server.check_auth_interactive_response
                (get_responses (get_int a.message).0 (get_int a.message).1)
              ≡ result successful))

  abbrev pub SomeApproved : List (Arrival K) → Type 0
  SomeApproved [] = ⊥
  SomeApproved (a ∷ as_) = Approved a ⊎ SomeApproved as_

  -- An outcome that leaves the handler authenticated has `P` behind it.
  abbrev GrantsOnly : Type 0 → Option Outcome → Type 0
  GrantsOnly P none = Unit
  GrantsOnly P (some (d, out, e)) = d.authenticated ≡ true → P

  service-authenticated :
      (server : ServerObject K) (m : Message) (h : AuthHandler)
      → (parse_service_request session provider server m h).0.authenticated ≡ h.authenticated
  unfolding parse_service_request disconnect_service_not_available
  service-authenticated server m h = ground arith

  handle-GrantsOnly :
      (a : Arrival K) (h : AuthHandler)
      → h.authenticated ≡ false
      → GrantsOnly (Approved a) (handle session provider a.server a.ptype a.message h)
  unfolding handle with_mic_handler server_handler
  handle-GrantsOnly a h e =
      if_cases (GrantsOnly (Approved a)) h.with_mic _ _
        (λ _.
          if_cases (GrantsOnly (Approved a))
            (a.ptype == 5 || (a.ptype == 50 || (a.ptype == 61 || a.ptype == 66))) _ _
            (λ _ k. absurd (let z = e in cc)) (λ _. tt))
        λ _.
          if_cases (GrantsOnly (Approved a)) (a.ptype == 5) _ _
            (λ _ k. absurd (let same = sym (service-authenticated a.server a.message h) ∙ k in cc))
            λ _.
              if_cases (GrantsOnly (Approved a)) (a.ptype == 50) _ _
                (λ is_request k.
                  let (_, service, _, approved) =
                    (parse_userauth_request-authenticated session provider a.server a.message h e).0
                      k in
                  inl ((==_iff a.ptype 50).0 is_request, service, approved))
                λ _.
                  if_cases (GrantsOnly (Approved a)) (a.ptype == 61) _ _
                    (λ is_response k.
                      let (_, approved) =
                        (info_response-authenticated session provider a.server a.message h e).0 k in
                      inr ((==_iff a.ptype 61).0 is_response, approved))
                    (λ _. tt)

  carry_on-SomeApproved :
      (a : Arrival K) (as_ : List (Arrival K)) (rest : AuthHandler → AuthHandler × List Reply)
      → ((d : AuthHandler)
          → d.authenticated ≡ false
          → (rest d).0.authenticated ≡ true
          → SomeApproved as_)
      → (o : Option Outcome) (h : AuthHandler) → h.authenticated ≡ false
      → GrantsOnly (Approved a) o
      → (carry_on rest o h).0.authenticated ≡ true
      → SomeApproved (a ∷ as_)
  unfolding carry_on
  carry_on-SomeApproved a as_ rest later none h e g k = inr (later h e k)
  carry_on-SomeApproved a as_ rest later (some (d, out, none)) h e g k =
      elim (Bool-cases d.authenticated) [
        | inl now ↦ inl (g now)
        | inr not_yet ↦ inr (later d not_yet k)
      ]
  carry_on-SomeApproved a as_ rest later (some (d, out, some err)) h e g k = inl (g k)

  -- Whatever messages a client sends and in whatever order, a server that was not authenticated is
  -- so at the end only if one of the messages was approved by the party in charge of its method: a
  -- request for ssh-connection, or an answer to a query that the server object accepts.
  pub run-SomeApproved :
      (as_ : List (Arrival K)) (h : AuthHandler)
      → h.authenticated ≡ false
      → (run session provider as_ h).0.authenticated ≡ true
      → SomeApproved as_
  unfolding run
  run-SomeApproved [] h e k = cc
  run-SomeApproved (a ∷ as_) h e k =
      let later = run-SomeApproved as_ in
      (if_cases
          (λ (r : AuthHandler × List Reply). r.0.authenticated ≡ true → SomeApproved (a ∷ as_))
          h.closed _ _ (λ _ k. absurd (let z = e in cc))
          λ _.
            carry_on-SomeApproved a as_ (run session provider as_) later
              (handle session provider a.server a.ptype a.message h) h e (handle-GrantsOnly a h e))
        k
