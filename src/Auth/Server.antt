-- ===== src/Auth/Server.antt =====
-- The handlers of a server: `_parse_service_request`, `_parse_userauth_request` and
-- `_parse_userauth_info_response`.
use paramiko.Base.{
  ℕ, zero, suc, ◌-◌, Bool, true, false, not, ◌&&◌, List, [], ◌∷◌, ◌++◌, Bytes, length, Option, none,
  some, ltb, if◌then◌else◌, codes, eq_bytes, starts_with, contains, Error, ssh_exception,
  attribute_error, gss_error,
}
use paramiko.Wire.{be_bytes}
use paramiko.Message.{Message, get_string, get_binary, get_boolean, get_int}
use paramiko.Auth.State.{
  AuthResult, successful, failed, Answer, result, query, ServerObject, Provider, Session, Reply,
  service_accept, userauth_banner, userauth_failure, userauth_pk_ok, info_request, gssapi_response,
  AuthHandler, disconnect_service_not_available, disconnect_no_more_auth, send_auth_result,
}

-- What a handler leaves: the state, the messages, and the exception that it raises, if any.
abbrev pub Outcome : Type 0
Outcome = AuthHandler × List Reply × Option Error

abbrev pub returns : AuthHandler × List Reply → Outcome
returns (h, out) = (h, out, none)

-- `algorithm.replace("-cert-v01@openssh.com", "")`; the number counts what is left of an occurrence.
unfoldable pub without_cert : ℕ → Bytes → Bytes
without_cert skip [] = []
without_cert (suc skip) (c ∷ s) = without_cert skip s
without_cert zero (c ∷ s) =
    let rest = without_cert zero s in
    let behind = without_cert (length (codes "-cert-v01@openssh.com") - 1) s in
    if starts_with (codes "-cert-v01@openssh.com") (c ∷ s) then behind else c ∷ rest

abbrev string_of : Bytes → Bytes
string_of s = be_bytes 4 (length s) ++ s

-- The method of a request, with its fields.
pub data Method : Type 0 where
  password : Bool → Bytes → Method
  publickey : Bool → Bytes → Bytes → Bytes → Method
  keyboard_interactive : Bytes → Method
  gssapi_with_mic : ℕ → Bytes → Method
  gssapi_keyex : Bytes → Method
  other : Method

unfoldable pub read_password : Message → Method
read_password m =
    let (changereq, m1) = get_boolean m in
    let (secret, _) = get_binary m1 in password changereq secret

unfoldable pub read_publickey : Message → Method
read_publickey m =
    let (sig_attached, m1) = get_boolean m in
    let (algorithm, m2) = get_string m1 in
    let (keyblob, m3) = get_binary m2 in
    let (sig, _) = get_binary m3 in publickey sig_attached algorithm keyblob sig

unfoldable pub read_with_mic : Message → Method
read_with_mic m =
    let (mechs, m1) = get_int m in let (mech, _) = get_string m1 in gssapi_with_mic mechs mech

-- The branch that the method's name takes; "none" and an unknown name ask `check_auth_none` both.
unfoldable pub read_method : Bool → Bytes → Message → Method
read_method gss_auth method m =
    if eq_bytes method (codes "none")
    then other
    else if eq_bytes method (codes "password")
    then read_password m
    else if eq_bytes method (codes "publickey")
    then read_publickey m
    else if eq_bytes method (codes "keyboard-interactive")
    then keyboard_interactive (get_string m).0
    else if eq_bytes method (codes "gssapi-with-mic") && gss_auth
    then read_with_mic m
    else if eq_bytes method (codes "gssapi-keyex") && gss_auth
    then gssapi_keyex (get_string m).0
    else other

-- `(self.auth_username is not None) and (self.auth_username != username)`
unfoldable pub changes_username : Option Bytes → Bytes → Bool
changes_username none username = false
changes_username (some old) username = not (eq_bytes old username)

-- `n` strings, one after the other.
unfoldable pub get_responses : ℕ → Message → List Bytes
get_responses zero m = []
get_responses (suc n) m = let (s, m') = get_string m in s ∷ get_responses n m'

module _ {K : Type 0} (session : Session) (provider : Provider K) where
  -- `_generate_key_from_request`, and its caller's `except` clauses.
  unfoldable pub generate_key : Bytes → Bytes → Option K
  generate_key algorithm keyblob =
      if contains session.preferred_pubkeys (without_cert 0 algorithm)
      then provider.load_key algorithm keyblob
      else none

  -- `_get_session_blob`
  unfoldable pub get_session_blob : K → Bytes → Bytes → Bytes → Bytes
  get_session_blob key service username algorithm =
      string_of session.session_id
      ++ (50
          ∷ (string_of username
              ++ (string_of service
                  ++ (string_of (codes "publickey")
                      ++ (1 ∷ (string_of algorithm ++ string_of (provider.key_bits key)))))))

  module _ (server : ServerObject K) where
    unfoldable pub parse_service_request : Message → AuthHandler → Outcome
    parse_service_request m h =
        let (service, _) = get_string m in
        if session.server_mode && eq_bytes service (codes "ssh-userauth")
        then elim server.get_banner [
          | none ↦ (h, service_accept service ∷ [], none)
          | some (text, language) ↦
              (h, service_accept service ∷ userauth_banner text language ∷ [], none)
        ]
        else returns (disconnect_service_not_available h)

    -- `self._send_auth_result(username, method, result)`
    unfoldable pub answer : Option Bytes → AuthResult → AuthHandler → Outcome
    answer username outcome h =
        returns (send_auth_result (server.get_allowed_auths username) outcome h)

    -- An interactive query in place of a result.
    unfoldable pub answer_interactive : Option Bytes → Answer → AuthHandler → Outcome
    answer_interactive username (result outcome) h = answer username outcome h
    answer_interactive username (query q) h = (h, info_request q ∷ [], none)

    -- The key is judged before its signature: without one, the client only asks for the key.
    unfoldable pub answer_publickey :
        AuthResult → Bool → K → Bytes → Bytes → Bytes → Bytes → Bytes → AuthHandler → Outcome
    answer_publickey failed sig_attached key service username algorithm keyblob sig h =
        answer (some username) failed h
    answer_publickey outcome false key service username algorithm keyblob sig h =
        (h, userauth_pk_ok algorithm keyblob ∷ [], none)
    answer_publickey outcome true key service username algorithm keyblob sig h =
        let blob = get_session_blob key service username algorithm in
        answer (some username) (if provider.verify_ssh_sig key blob sig then outcome else failed) h

    unfoldable pub publickey_request :
        Option K → Bool → Bytes → Bytes → Bytes → Bytes → Bytes → AuthHandler → Outcome
    publickey_request none sig_attached service username algorithm keyblob sig h =
        returns (disconnect_no_more_auth h)
    publickey_request (some key) sig_attached service username algorithm keyblob sig h =
        answer_publickey (server.check_auth_publickey username key) sig_attached key service
          username algorithm keyblob sig h

    -- Each disconnect is followed by the rest: none of them returns.
    unfoldable pub with_mic_request : ℕ → Bytes → AuthHandler → Outcome
    with_mic_request mechs mech h =
        let (h1, out1) = if ltb 1 mechs then disconnect_no_more_auth h else (h, []) in
        let (h2, out2) =
          if not (provider.check_mech mech) then disconnect_no_more_auth h1 else (h1, []) in
        (record h2 { with_mic = true }, out1 ++ (out2 ++ (gssapi_response ∷ [])), none)

    -- The answer of the server object is not used.
    unfoldable pub keyex_checked : Bool → Bytes → AuthHandler → Outcome
    keyex_checked true username h = answer (some username) successful h
    keyex_checked false username h =
        let (h', out) = send_auth_result (server.get_allowed_auths (some username)) failed h in
        (h', out, some gss_error)

    -- Without a context the failure is sent, and then sent again by the handler of the exception
    -- that the missing context causes.
    unfoldable pub keyex_request :
        Option (Bytes → Bytes → Option Bytes → Bool) → Bytes → Bytes → AuthHandler → Outcome
    keyex_request none username mic h =
        let (h1, out1) = send_auth_result (server.get_allowed_auths (some username)) failed h in
        let (h2, out2) = send_auth_result (server.get_allowed_auths (some username)) failed h1 in
        (h2, out1 ++ out2, some attribute_error)
    keyex_request (some check_mic) username mic h =
        keyex_checked (check_mic mic session.session_id h.auth_username) username h

    unfoldable pub method_request : Method → Bytes → Bytes → AuthHandler → Outcome
    method_request (password true secret) service username h = answer (some username) failed h
    method_request (password false secret) service username h =
        answer (some username) (server.check_auth_password username secret) h
    method_request (publickey sig_attached algorithm keyblob sig) service username h =
        publickey_request (generate_key algorithm keyblob) sig_attached service username algorithm
          keyblob sig h
    method_request (keyboard_interactive submethods) service username h =
        answer_interactive (some username) (server.check_auth_interactive username submethods) h
    method_request (gssapi_with_mic mechs mech) service username h = with_mic_request mechs mech h
    method_request (gssapi_keyex mic) service username h =
        keyex_request provider.check_mic username mic h
    method_request other service username h =
        answer (some username) (server.check_auth_none username) h

    unfoldable pub parse_userauth_request : Message → AuthHandler → Outcome
    parse_userauth_request m h =
        let (username, m1) = get_string m in
        let (service, m2) = get_string m1 in
        let (method, m3) = get_string m2 in
        if not session.server_mode
        then (h, userauth_failure (codes "none") false ∷ [], none)
        else if h.authenticated
        then (h, [], none)
        else if not (eq_bytes service (codes "ssh-connection"))
        then returns (disconnect_service_not_available h)
        else if changes_username h.auth_username username
        then returns (disconnect_no_more_auth h)
        else method_request (read_method server.enable_auth_gssapi method m3) service username
            (record h { auth_username = some username })

    unfoldable pub parse_userauth_info_response : Message → AuthHandler → Outcome
    parse_userauth_info_response m h =
        let (n, m1) = get_int m in
        if not session.server_mode
        then (h, [], some ssh_exception)
        else answer_interactive h.auth_username
            (server.check_auth_interactive_response (get_responses n m1)) h
