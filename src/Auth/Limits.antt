-- ===== src/Auth/Limits.antt =====
-- A whole connection of a server: how many refusals it sends, and what its transport believes.
use paramiko.Base.{
  ℕ, ◌+◌, ◌≤◌, ◌<◌, ◌≡◌, refl, true, List, [], ◌∷◌, Option, none, some, if_cases, arith, ◌==◌, ◌||◌,
}
use paramiko.Message.{Message}
use paramiko.Auth.State.{ServerObject, Provider, Session, Reply, AuthHandler}
use paramiko.Auth.Server.{Outcome}
use paramiko.Auth.Run.{Arrival, with_mic_handler, server_handler, handle, carry_on, run}
use paramiko.Auth.Attempts.{
  refusals, refusals-append, Tallies, Starts, quiet, parse_userauth_request-Tallies,
  parse_service_request-Tallies, parse_userauth_info_response-Tallies,
}

-- A handler's outcome, if it has one.
abbrev pub Tallies? : AuthHandler → Option Outcome → Type 0
Tallies? h none = Unit
Tallies? h (some o) = Tallies h o

-- The refusals of a run make up the count, which stays below twelve; the transport knows as much as
-- its handler.
abbrev pub Limited : AuthHandler → AuthHandler × List Reply → Type 0
Limited h (d, out) =
    (refusals out + h.auth_fail_count ≡ d.auth_fail_count)
    × (d.auth_fail_count ≤ 11)
    × (d.triggered ≡ d.authenticated)

carry_on-Limited :
    (rest : AuthHandler → AuthHandler × List Reply)
    → ((d : AuthHandler) → Starts d → d.auth_fail_count ≤ 11 → Limited d (rest d))
    → (o : Option Outcome) (h : AuthHandler) → h.auth_fail_count < 10
    → Tallies? h o
    → h.auth_fail_count ≤ 11
    → Starts h
    → Limited h (carry_on rest o h)
unfolding carry_on
carry_on-Limited rest later none h small t few s = later h s few
carry_on-Limited rest later (some (d, out, none)) h small t few s =
    let (tail, low, told) = later d (t.closes, t.told) (omega (arith, t.few)) in
    (omega (arith, refusals-append out (rest d).1, tail, t.counted), low, told)
carry_on-Limited rest later (some (d, out, some e)) h small t few s =
    (omega (arith, t.counted), omega (arith, t.few), t.told)

module _ {K : Type 0} (session : Session) (provider : Provider K) where
  module _ (server_mode : session.server_mode ≡ true) where
    pub handle-Tallies :
        (server : ServerObject K) (ptype : ℕ) (m : Message) (h : AuthHandler)
        → Starts h
        → Tallies? h (handle session provider server ptype m h)
    unfolding handle with_mic_handler server_handler
    handle-Tallies server ptype m h s =
        if_cases (Tallies? h) h.with_mic _ _
          (λ _.
            if_cases (Tallies? h) (ptype == 5 || (ptype == 50 || (ptype == 61 || ptype == 66))) _ _
              (λ _. quiet h [] s refl) (λ _. tt))
          λ _.
            if_cases (Tallies? h) (ptype == 5) _ _
              (λ _. parse_service_request-Tallies session provider server m h s)
              λ _.
                if_cases (Tallies? h) (ptype == 50) _ _
                  (λ _. parse_userauth_request-Tallies session provider server m h server_mode s)
                  λ _.
                    if_cases (Tallies? h) (ptype == 61) _ _
                      (λ _. parse_userauth_info_response-Tallies session provider server m h s)
                      (λ _. tt)

    -- On a server, whatever messages arrive and whatever the server object answers, a connection
    -- never sends more than eleven refusals, one of them perhaps behind the tenth, which closes the
    -- transport; and the transport takes the client for authenticated exactly when its handler does.
    pub run-Limited :
        (as_ : List (Arrival K)) (h : AuthHandler)
        → Starts h
        → h.auth_fail_count ≤ 11
        → Limited h (run session provider as_ h)
    unfolding run
    run-Limited [] h s few = (omega arith, few, s.1)
    run-Limited (a ∷ as_) h s few =
        let handled = handle-Tallies a.server a.ptype a.message h s in
        let later = run-Limited as_ in
        if_cases (Limited h) h.closed _ _ (λ _. (omega arith, few, s.1))
          λ open_.
            carry_on-Limited (run session provider as_) later
              (handle session provider a.server a.ptype a.message h) h (s.0 open_) handled few s
