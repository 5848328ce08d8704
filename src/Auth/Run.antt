-- ===== src/Auth/Run.antt =====
-- The messages that a server's authentication handler takes from the transport, one after another.
use paramiko.Base.{
  ℕ, ◌||◌, List, [], ◌∷◌, ◌++◌, Option, none, some, ◌==◌, if◌then◌else◌, type_error,
}
use paramiko.Message.{Message}
use paramiko.Auth.State.{ServerObject, Provider, Session, Reply, AuthHandler}
use paramiko.Auth.Server.{
  Outcome, parse_service_request, parse_userauth_request, parse_userauth_info_response,
}

-- The table of `GssapiWithMicAuthHandler` holds plain functions, so that the call of one with the
-- message alone lacks an argument.
unfoldable pub with_mic_handler : ℕ → AuthHandler → Option Outcome
with_mic_handler ptype h =
    if ptype == 5 || (ptype == 50 || (ptype == 61 || ptype == 66))
    then some (h, [], some type_error)
    else none

-- A message of type `ptype` and what the server object answers while it is handled.
pub record Arrival (K : Type 0) : Type 0 where
  pub server : ServerObject K
  pub ptype : ℕ
  pub message : Message

-- The transport stops after an exception, and when it is closed. A message that the handler does not
-- have leaves it alone.
unfoldable pub carry_on :
    (AuthHandler → AuthHandler × List Reply)
    → Option Outcome
    → AuthHandler
    → AuthHandler × List Reply
carry_on rest none h = rest h
carry_on rest (some (h', out, none)) h = let (h'', more) = rest h' in (h'', out ++ more)
carry_on rest (some (h', out, some e)) h = (h', out)

module _ {K : Type 0} (session : Session) (provider : Provider K) where
  -- `_server_handler_table`, and the call of what it holds; `none` is a type of message that it does
  -- not have.
  unfoldable pub server_handler : ServerObject K → ℕ → Message → AuthHandler → Option Outcome
  server_handler server ptype m h =
      if ptype == 5
      then some (parse_service_request session provider server m h)
      else if ptype == 50
      then some (parse_userauth_request session provider server m h)
      else if ptype == 61
      then some (parse_userauth_info_response session provider server m h)
      else none

  -- The handler that is installed.
  unfoldable pub handle : ServerObject K → ℕ → Message → AuthHandler → Option Outcome
  handle server ptype m h =
      if h.with_mic then with_mic_handler ptype h else server_handler server ptype m h

  unfoldable pub run : List (Arrival K) → AuthHandler → AuthHandler × List Reply
  run [] h = (h, [])
  run (a ∷ as_) h =
      let next = carry_on (run as_) (handle a.server a.ptype a.message h) h in
      if h.closed then (h, []) else next
