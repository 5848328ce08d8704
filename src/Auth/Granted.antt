-- ===== src/Auth/Granted.antt =====
-- What makes a server grant an authentication.
mod Methods
use paramiko.Base.{
  ℕ, ◌≡◌, ◌↔◌, refl, sym, ap, ◌∙◌, ◌⊎◌, inl, inr, Bool, true, false, not, ◌&&◌, Bytes, Option, none,
  some, Bool-cases, Option-cases, if◌then◌else◌, codes, eq_bytes, arith, leb, [], ◌∷◌,
  ssh_exception,
}
use paramiko.Message.{Message, get_string, get_int}
use paramiko.Auth.State.{
  AuthResult, successful, partially_successful, failed, Answer, result, query, ServerObject,
  Provider, Session, userauth_failure, AuthHandler, auth_reply, trigger_if, auth_trigger,
  send_auth_result, disconnect_no_more_auth, disconnect_service_not_available,
}
use paramiko.Auth.Server.{
  Outcome, returns, Method, password, publickey, keyboard_interactive, gssapi_with_mic,
  gssapi_keyex, other, read_method, generate_key, get_session_blob, answer, answer_interactive,
  answer_publickey, publickey_request, with_mic_request, keyex_checked, keyex_request,
  method_request, changes_username, parse_userauth_request, get_responses,
  parse_userauth_info_response,
}
use paramiko.Auth.Granted.Methods.{
  GrantsWhen, answer-GrantsWhen, answer_interactive-GrantsWhen, publickey_request-GrantsWhen,
  keyex_request-GrantsWhen, with_mic_request-authenticated,
}

-- The tests that come before the method, on what each branch leaves.
gated :
    (P : Type 0) (mode busy service changes : Bool) (x y z w v : Outcome)
    → busy ≡ false
    → x.0.authenticated ≡ false
    → z.0.authenticated ≡ false
    → w.0.authenticated ≡ false
    → (v.0.authenticated ≡ true) ↔ P
    → ((if not mode
          then x
          else if busy
          then y
          else if not service
          then z
          else if changes
          then w
          else v).0.authenticated
        ≡ true)
      ↔ ((mode ≡ true) × (service ≡ true) × (changes ≡ false) × P)
gated P false busy service changes x y z w v b hx hz hw hv =
    (λ k. absurd (let q = sym hx ∙ k in cc), λ (m, _, _, _). absurd (cc m))
gated P true true service changes x y z w v b hx hz hw hv = absurd (cc b)
gated P true false false changes x y z w v b hx hz hw hv =
    (λ k. absurd (let q = sym hz ∙ k in cc), λ (_, m, _, _). absurd (cc m))
gated P true false true true x y z w v b hx hz hw hv =
    (λ k. absurd (let q = sym hw ∙ k in cc), λ (_, _, m, _). absurd (cc m))
gated P true false true false x y z w v b hx hz hw hv =
    (λ k. (refl, refl, refl, hv.0 k), λ (_, _, _, approved). hv.1 approved)

module _ {K : Type 0} (session : Session) (provider : Provider K) (server : ServerObject K) where
  -- Who approves of a request: the server object, but for GSS-API, where the context does, and the
  -- holder of the key, who signs the session, the user and the service.
  abbrev pub Approves : Method → Bytes → Bytes → Type 0
  Approves other service username = server.check_auth_none username ≡ successful
  Approves (password changereq secret) service username =
      (changereq ≡ false) × (server.check_auth_password username secret ≡ successful)
  Approves (publickey sig_attached algorithm keyblob sig) service username =
      (key : K) × (generate_key session provider algorithm keyblob ≡ some key)
      × (server.check_auth_publickey username key ≡ successful)
      × (sig_attached ≡ true)
      × (provider.verify_ssh_sig key
            (get_session_blob session provider key service username algorithm) sig
          ≡ true)
  Approves (keyboard_interactive submethods) service username =
      server.check_auth_interactive username submethods ≡ result successful
  Approves (gssapi_with_mic mechs mech) service username = ⊥
  Approves (gssapi_keyex mic) service username =
      (check : (Bytes → Bytes → Option Bytes → Bool)) × (provider.check_mic ≡ some check)
      × (check mic session.session_id (some username) ≡ true)

  -- The branch of each method grants the authentication exactly when its party approves.
  method_request-Approves :
      (method : Method) (service username : Bytes) (h : AuthHandler)
      → h.authenticated ≡ false
      → h.auth_username ≡ some username
      → GrantsWhen
          (method_request session provider server method service username h).0
          (Approves method service username)
  unfolding method_request
  method_request-Approves (password true secret) service username h e user =
      let (grants, _) = answer-GrantsWhen session provider server (some username) failed h e in
      (λ k. absurd (let z = grants k in cc), λ (no_change, _). cc)
  method_request-Approves (password false secret) service username h e user =
      let (grants, granted) =
        answer-GrantsWhen session provider server (some username)
          (server.check_auth_password username secret) h e in
      (λ k. (refl, grants k), λ (_, checked). granted checked)
  method_request-Approves (publickey attached algorithm keyblob sig) service username h e user =
      publickey_request-GrantsWhen session provider server
        (generate_key session provider algorithm keyblob) attached service username algorithm
        keyblob sig h e
  method_request-Approves (keyboard_interactive submethods) service username h e user =
      answer_interactive-GrantsWhen session provider server (some username)
        (server.check_auth_interactive username submethods) h e
  method_request-Approves (gssapi_with_mic mechs mech) service username h e user =
      let same = with_mic_request-authenticated session provider server mechs mech h in
      (λ k. cc, λ never. absurd never)
  method_request-Approves (gssapi_keyex mic) service username h e user =
      keyex_request-GrantsWhen session provider server provider.check_mic username mic h e user
  method_request-Approves other service username h e user =
      answer-GrantsWhen session provider server (some username) (server.check_auth_none username) h
        e

  -- A request for authentication as it is read, and what must hold of it before its method counts.
  abbrev pub username_of : Message → Bytes
  username_of m = (get_string m).0

  abbrev pub service_of : Message → Bytes
  service_of m = (get_string (get_string m).1).0

  abbrev pub method_of : Message → Method
  method_of m =
      let (method, rest) = get_string (get_string (get_string m).1).1 in
      read_method server.enable_auth_gssapi method rest

  -- A request to an unauthenticated handler authenticates it exactly when this end is the server, the
  -- service is ssh-connection, the user is the one that was named before, if any, and the party in
  -- charge of the method approves: the server object by its check, for a public key the signature
  -- of the session as well, and for GSS-API with the key exchange the context alone.
  pub parse_userauth_request-authenticated :
      (m : Message) (h : AuthHandler)
      → h.authenticated ≡ false
      → ((parse_userauth_request session provider server m h).0.authenticated ≡ true) ↔ (
          (session.server_mode ≡ true)
          × (eq_bytes (service_of m) (codes "ssh-connection") ≡ true)
          × (changes_username h.auth_username (username_of m) ≡ false)
          × Approves (method_of m) (service_of m) (username_of m))
  unfolding parse_userauth_request disconnect_service_not_available disconnect_no_more_auth
  parse_userauth_request-authenticated m h e =
      let h' = record h { auth_username = some (username_of m) } in
      let wrong_service = disconnect_service_not_available h in
      let wrong_user = disconnect_no_more_auth h in
      let asked =
        method_request session provider server (method_of m) (service_of m) (username_of m) h' in
      gated (Approves (method_of m) (service_of m) (username_of m)) session.server_mode
        h.authenticated (eq_bytes (service_of m) (codes "ssh-connection"))
        (changes_username h.auth_username (username_of m))
        (h, userauth_failure (codes "none") false ∷ [], none) (h, [], none) (returns wrong_service)
        (returns wrong_user) asked e e e e
        (method_request-Approves (method_of m) (service_of m) (username_of m) h' e refl)

  -- An answer to a query authenticates whenever this end is the server and the server object accepts
  -- the responses, whether there was a query, or any request, before it or not.
  pub info_response-authenticated :
      (m : Message) (h : AuthHandler)
      → h.authenticated ≡ false
      → ((parse_userauth_info_response session provider server m h).0.authenticated ≡ true) ↔ (
          (session.server_mode ≡ true)
          × (server.check_auth_interactive_response (get_responses (get_int m).0 (get_int m).1)
              ≡ result successful))
  unfolding parse_userauth_info_response
  info_response-authenticated m h e =
      let responses = get_responses (get_int m).0 (get_int m).1 in
      let decided = server.check_auth_interactive_response responses in
      let (grants, granted) =
        answer_interactive-GrantsWhen session provider server h.auth_username decided h e in
      elim session.server_mode
        as (λ mode.
          ((if not mode
              then (h, [], some ssh_exception)
              else answer_interactive session provider server h.auth_username decided
                  h).0.authenticated
            ≡ true)
          ↔ ((mode ≡ true) × (decided ≡ result successful))) [
            | true ↦ (λ k. (refl, grants k), λ (_, accepted). granted accepted)
            | false ↦ (λ k. cc, λ (m, _). cc)
          ]
