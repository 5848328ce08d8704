-- ===== src/Auth/State.antt =====
-- The state of an authentication, the application's part in it, and the messages that it sends.
use paramiko.Base.{
  ℕ, ◌+◌, Bool, true, false, List, [], ◌∷◌, Bytes, Option, none, leb, if◌then◌else◌,
}

-- `AUTH_SUCCESSFUL`, `AUTH_PARTIALLY_SUCCESSFUL` and `AUTH_FAILED` of paramiko/common.py.
pub data AuthResult : Type 0 where
  successful partially_successful failed : AuthResult

-- `InteractiveQuery` of paramiko/server.py; a prompt has its text and whether to echo the answer.
pub record InteractiveQuery : Type 0 where
  pub name : Bytes
  pub instructions : Bytes
  pub prompts : List (Bytes × Bool)

pub data Answer : Type 0 where
  result : AuthResult → Answer
  query : InteractiveQuery → Answer

-- What the application's server object answers, in one call of a handler; `K` is a public key.
pub record ServerObject (K : Type 0) : Type 0 where
  pub get_banner : Option (Bytes × Bytes)
  pub get_allowed_auths : Option Bytes → Bytes
  pub enable_auth_gssapi : Bool
  pub check_auth_none : Bytes → AuthResult
  pub check_auth_password : Bytes → Bytes → AuthResult
  pub check_auth_publickey : Bytes → K → AuthResult
  pub check_auth_interactive : Bytes → Bytes → Answer
  pub check_auth_interactive_response : List Bytes → Answer
  pub check_auth_gssapi_keyex : Bytes → AuthResult

-- What other packages provide: keys, by `_key_info[algorithm](Message(blob))`, which may fail, and
-- the GSS-API context of the key exchange, if there was one, with its test of a MIC.
pub record Provider (K : Type 0) : Type 0 where
  pub load_key : Bytes → Bytes → Option K
  pub key_bits : K → Bytes
  pub verify_ssh_sig : K → Bytes → Bytes → Bool
  pub check_mic : Option (Bytes → Bytes → Option Bytes → Bool)
  pub check_mech : Bytes → Bool

-- What the handler reads of its transport.
pub record Session : Type 0 where
  pub server_mode : Bool
  pub session_id : Bytes
  pub preferred_pubkeys : List Bytes

-- The messages of a server, by their fields.
pub data Reply : Type 0 where
  service_accept : Bytes → Reply
  userauth_banner : Bytes → Bytes → Reply
  disconnect : ℕ → Reply
  userauth_success : Reply
  userauth_failure : Bytes → Bool → Reply
  userauth_pk_ok : Bytes → Bytes → Reply
  info_request : InteractiveQuery → Reply
  gssapi_response : Reply

-- `authenticated` is the handler's, `triggered` the flag of the transport that `_auth_trigger` sets;
-- `closed` says that the handler has closed the transport, `with_mic` that the handler for
-- gssapi-with-mic has taken its place.
pub record AuthHandler : Type 0 where
  pub authenticated : Bool
  pub auth_username : Option Bytes
  pub auth_fail_count : ℕ
  pub triggered : Bool
  pub closed : Bool
  pub with_mic : Bool

-- `AuthHandler.__init__`
unfoldable pub new : AuthHandler
new = record {
  authenticated = false;
  auth_username = none;
  auth_fail_count = 0;
  triggered = false;
  closed = false;
  with_mic = false;
}

unfoldable pub disconnect_service_not_available : AuthHandler → AuthHandler × List Reply
disconnect_service_not_available h = (record h { closed = true }, disconnect 7 ∷ [])

unfoldable pub disconnect_no_more_auth : AuthHandler → AuthHandler × List Reply
disconnect_no_more_auth h = (record h { closed = true }, disconnect 14 ∷ [])

-- `_auth_trigger`, as far as it concerns the authentication.
unfoldable pub auth_trigger : AuthHandler → AuthHandler
auth_trigger h = record h { triggered = true }

-- The message and the counters of `_send_auth_result`.
unfoldable pub auth_reply : Bytes → AuthResult → AuthHandler → AuthHandler × Reply
auth_reply allowed successful h = (record h { authenticated = true }, userauth_success)
auth_reply allowed partially_successful h = (h, userauth_failure allowed true)
auth_reply allowed failed h =
    (record h { auth_fail_count = h.auth_fail_count + 1 }, userauth_failure allowed false)

unfoldable pub trigger_if : AuthResult → AuthHandler → AuthHandler
trigger_if successful h = auth_trigger h
trigger_if _ h = h

-- `_send_auth_result`; `allowed` is `get_allowed_auths(username)`.
unfoldable pub send_auth_result : Bytes → AuthResult → AuthHandler → AuthHandler × List Reply
send_auth_result allowed outcome h =
    let (h1, reply) = auth_reply allowed outcome h in
    let (h2, end) = if leb 10 h1.auth_fail_count then disconnect_no_more_auth h1 else (h1, []) in
    (trigger_if outcome h2, reply ∷ end)
