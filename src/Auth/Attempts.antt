-- ===== src/Auth/Attempts.antt =====
-- How often a server refuses, and what it remembers.
use paramiko.Base.{
  ℕ, ◌+◌, ◌≤◌, ◌<◌, ◌≡◌, refl, Bool, true, false, not, List, [], ◌∷◌, ◌++◌, Bytes, Option, none,
  some, arith, ◌&&◌, eq_bytes, codes, if_cases,
}
use paramiko.Message.{Message, get_string}
use paramiko.Auth.State.{
  AuthResult, successful, partially_successful, failed, Answer, result, query, ServerObject,
  Provider, Session, Reply, service_accept, userauth_banner, userauth_failure, userauth_pk_ok,
  info_request, AuthHandler, auth_reply, trigger_if, auth_trigger, send_auth_result,
  disconnect_no_more_auth, disconnect_service_not_available,
}
use paramiko.Auth.Server.{
  Outcome, returns, Method, password, publickey, keyboard_interactive, gssapi_with_mic,
  gssapi_keyex, other, generate_key, answer, answer_interactive, answer_publickey,
  publickey_request, with_mic_request, keyex_checked, keyex_request, method_request,
  changes_username, parse_userauth_request, parse_service_request, parse_userauth_info_response,
  read_method,
}

-- The final refusals among the messages: those that do not announce a partial success.
abbrev pub refusal : Reply → ℕ
refusal (userauth_failure allowed false) = 1
refusal _ = 0

abbrev pub refusals : List Reply → ℕ
refusals [] = 0
refusals (r ∷ rs) = refusal r + refusals rs

pub refusals-append : (xs ys : List Reply) → refusals (xs ++ ys) ≡ refusals xs + refusals ys
refusals-append [] ys = omega arith
refusals-append (x ∷ xs) ys = omega (arith, refusals-append xs ys)

-- Between two messages: a handler with ten refusals has closed the transport.
abbrev pub IsOpen : AuthHandler → Type 0
IsOpen h = h.closed ≡ false → h.auth_fail_count < 10

-- What one message adds: the count keeps up with the refusals, of which there are `n` at most; the
-- transport knows of the success, which is not taken back.
pub record Tallied (n : ℕ) (h d : AuthHandler) (out : List Reply) : Type 0 where
  pub counted : d.auth_fail_count ≡ refusals out + h.auth_fail_count
  pub closes : IsOpen d
  pub few : d.auth_fail_count ≤ h.auth_fail_count + n
  pub told : d.triggered ≡ d.authenticated
  pub keeps : h.authenticated ≡ true → d.authenticated ≡ true

abbrev pub Tallies : AuthHandler → Outcome → Type 0
Tallies h (d, out, e) = Tallied 2 h d out

-- The handler that a message starts from.
abbrev pub Starts : AuthHandler → Type 0
Starts h = IsOpen h × (h.triggered ≡ h.authenticated)

send_auth_result-Tallied :
    (allowed : Bytes) (outcome : AuthResult) (h : AuthHandler)
    → Starts h
    → Tallied 1 h (send_auth_result allowed outcome h).0 (send_auth_result allowed outcome h).1
unfolding send_auth_result auth_reply trigger_if auth_trigger disconnect_no_more_auth
send_auth_result-Tallied allowed successful h s = ground arith
send_auth_result-Tallied allowed partially_successful h s = ground arith
send_auth_result-Tallied allowed failed h s = ground arith

Tallied-trans :
    (a b c : AuthHandler) (xs ys : List Reply)
    → Tallied 1 a b xs
    → Tallied 1 b c ys
    → Tallied 2 a c (xs ++ ys)
Tallied-trans a b c xs ys p q = record {
  counted = omega (arith, refusals-append xs ys, p.counted, q.counted);
  closes = q.closes;
  few = omega (arith, p.few, q.few);
  told = q.told;
  keeps = λ k. q.keeps (p.keeps k);
}

Tallied-weaken : (h d : AuthHandler) (out : List Reply) → Tallied 1 h d out → Tallied 2 h d out
Tallied-weaken h d out t = record {
  counted = t.counted;
  closes = t.closes;
  few = omega (arith, t.few);
  told = t.told;
  keeps = t.keeps;
}

-- A message that is no refusal, and a handler with the same counters.
pub quiet : (h : AuthHandler) (out : List Reply) → Starts h → refusals out ≡ 0 → Tallied 2 h h out
quiet h out s none_refused = record {
  counted = omega arith;
  closes = s.0;
  few = omega arith;
  told = s.1;
  keeps = λ k. k;
}

module _ {K : Type 0} (session : Session) (provider : Provider K) (server : ServerObject K) where
  answer-Tallies :
      (username : Option Bytes) (outcome : AuthResult) (h : AuthHandler)
      → Starts h
      → Tallies h (answer session provider server username outcome h)
  unfolding answer
  answer-Tallies username outcome h s =
      Tallied-weaken h _ _
        (send_auth_result-Tallied (server.get_allowed_auths username) outcome h s)

  answer_interactive-Tallies :
      (username : Option Bytes) (a : Answer) (h : AuthHandler)
      → Starts h
      → Tallies h (answer_interactive session provider server username a h)
  unfolding answer_interactive
  answer_interactive-Tallies username (result outcome) h s = answer-Tallies username outcome h s
  answer_interactive-Tallies username (query q) h s = quiet h (info_request q ∷ []) s refl

  answer_publickey-Tallies :
      (outcome : AuthResult) (sig_attached : Bool) (key : K)
      (service username algorithm keyblob sig : Bytes) (h : AuthHandler)
      → Starts h
      → Tallies h (
          answer_publickey session provider server outcome sig_attached key service username
            algorithm keyblob sig h)
  unfolding answer_publickey
  answer_publickey-Tallies failed attached key service username algorithm keyblob sig h s =
      answer-Tallies (some username) failed h s
  answer_publickey-Tallies successful false key service username algorithm keyblob sig h s =
      quiet h (userauth_pk_ok algorithm keyblob ∷ []) s refl
  answer_publickey-Tallies partially_successful false key service username algorithm keyblob sig h
        s =
      quiet h (userauth_pk_ok algorithm keyblob ∷ []) s refl
  answer_publickey-Tallies successful true key service username algorithm keyblob sig h s =
      answer-Tallies (some username) _ h s
  answer_publickey-Tallies partially_successful true key service username algorithm keyblob sig h
        s =
      answer-Tallies (some username) _ h s

  closing-Tallies : (h : AuthHandler) → Starts h → Tallies h (returns (disconnect_no_more_auth h))
  unfolding disconnect_no_more_auth
  closing-Tallies h s = ground arith

  publickey_request-Tallies :
      (loaded : Option K) (sig_attached : Bool) (service username algorithm keyblob sig : Bytes)
      (h : AuthHandler)
      → Starts h
      → Tallies h (
          publickey_request session provider server loaded sig_attached service username algorithm
            keyblob sig h)
  unfolding publickey_request
  publickey_request-Tallies none attached service username algorithm keyblob sig h s =
      closing-Tallies h s
  publickey_request-Tallies (some key) attached service username algorithm keyblob sig h s =
      answer_publickey-Tallies (server.check_auth_publickey username key) attached key service
        username algorithm keyblob sig h s

  with_mic_request-Tallies :
      (mechs : ℕ) (mech : Bytes) (h : AuthHandler)
      → Starts h
      → Tallies h (with_mic_request session provider server mechs mech h)
  unfolding with_mic_request disconnect_no_more_auth
  with_mic_request-Tallies mechs mech h s = ground arith

  keyex_request-Tallies :
      (context : Option (Bytes → Bytes → Option Bytes → Bool)) (username mic : Bytes)
      (h : AuthHandler)
      → Starts h
      → Tallies h (keyex_request session provider server context username mic h)
  unfolding keyex_request keyex_checked
  keyex_request-Tallies none username mic h s =
      let allowed = server.get_allowed_auths (some username) in
      let first = send_auth_result-Tallied allowed failed h s in
      let (h1, out1) = send_auth_result allowed failed h in
      let (h2, out2) = send_auth_result allowed failed h1 in
      Tallied-trans h h1 h2 out1 out2 first
        (send_auth_result-Tallied allowed failed h1 (first.closes, first.told))
  keyex_request-Tallies (some check) username mic h s =
      elim (check mic session.session_id h.auth_username)
        as (λ valid. Tallies h (keyex_checked session provider server valid username h)) [
          | true ↦ answer-Tallies (some username) successful h s
          | false ↦
              Tallied-weaken h _ _
                (send_auth_result-Tallied (server.get_allowed_auths (some username)) failed h s)
        ]

  method_request-Tallies :
      (method : Method) (service username : Bytes) (h : AuthHandler)
      → Starts h
      → Tallies h (method_request session provider server method service username h)
  unfolding method_request
  method_request-Tallies (password true secret) service username h s =
      answer-Tallies (some username) failed h s
  method_request-Tallies (password false secret) service username h s =
      answer-Tallies (some username) (server.check_auth_password username secret) h s
  method_request-Tallies (publickey attached algorithm keyblob sig) service username h s =
      publickey_request-Tallies (generate_key session provider algorithm keyblob) attached service
        username algorithm keyblob sig h s
  method_request-Tallies (keyboard_interactive submethods) service username h s =
      answer_interactive-Tallies (some username) (server.check_auth_interactive username submethods)
        h s
  method_request-Tallies (gssapi_with_mic mechs mech) service username h s =
      with_mic_request-Tallies mechs mech h s
  method_request-Tallies (gssapi_keyex mic) service username h s =
      keyex_request-Tallies provider.check_mic username mic h s
  method_request-Tallies other service username h s =
      answer-Tallies (some username) (server.check_auth_none username) h s

  pub parse_userauth_request-Tallies :
      (m : Message) (h : AuthHandler)
      → session.server_mode ≡ true
      → Starts h
      → Tallies h (parse_userauth_request session provider server m h)
  unfolding parse_userauth_request disconnect_service_not_available disconnect_no_more_auth
  parse_userauth_request-Tallies m h mode s =
      let username = (get_string m).0 in
      let service = (get_string (get_string m).1).0 in
      let (method, m3) = get_string (get_string (get_string m).1).1 in
      let h' = record h { auth_username = some username } in
      let asked =
        method_request session provider server (read_method server.enable_auth_gssapi method m3)
          service username h' in
      let renamed =
        method_request-Tallies (read_method server.enable_auth_gssapi method m3) service username h'
          s in
      if_cases (Tallies h) (not session.server_mode) _ _
        (λ k. absurd (let z = mode in ground arith))
        λ _.
          if_cases (Tallies h) h.authenticated _ _ (λ _. quiet h [] s refl)
            λ _.
              if_cases (Tallies h) (not (eq_bytes service (codes "ssh-connection"))) _ _
                (λ _. ground arith)
                λ _.
                  if_cases (Tallies h) (changes_username h.auth_username username) _ _
                    (λ _. closing-Tallies h s)
                    λ _. record {
                      counted = renamed.counted;
                      closes = renamed.closes;
                      few = renamed.few;
                      told = renamed.told;
                      keeps = renamed.keeps;
                    }

  pub parse_service_request-Tallies :
      (m : Message) (h : AuthHandler)
      → Starts h
      → Tallies h (parse_service_request session provider server m h)
  unfolding parse_service_request disconnect_service_not_available
  parse_service_request-Tallies m h s =
      if_cases (Tallies h) (session.server_mode && eq_bytes (get_string m).0 (codes "ssh-userauth"))
        _ _
        (λ _.
          elim server.get_banner
            as (λ banner. Tallies h (elim banner [
              | none ↦ (h, service_accept (get_string m).0 ∷ [], none)
              | some (text, language) ↦
                  (h, service_accept (get_string m).0 ∷ userauth_banner text language ∷ [], none)
            ])) [ none ↦ quiet h _ s refl | some (text, language) ↦ quiet h _ s refl ])
        (λ _. ground arith)

  pub parse_userauth_info_response-Tallies :
      (m : Message) (h : AuthHandler)
      → Starts h
      → Tallies h (parse_userauth_info_response session provider server m h)
  unfolding parse_userauth_info_response
  parse_userauth_info_response-Tallies m h s =
      if_cases (Tallies h) (not session.server_mode) _ _ (λ _. quiet h [] s refl)
        λ _. answer_interactive-Tallies h.auth_username _ h s
