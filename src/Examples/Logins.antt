-- ===== src/Examples/Logins.antt =====
-- A server that lets bob in with a password, and clients that try.
use paramiko.Base.{
  ℕ, ◌≡◌, ◌↔◌, refl, true, false, List, [], ◌∷◌, ◌++◌, Bytes, length, none, codes, eq_bytes, arith,
  if◌then◌else◌,
}
use paramiko.Wire.{be_bytes, be_value, be_value_from}
use paramiko.Message.{
  Message, of_content, read, get_bytes, get_int, get_string, get_binary, get_boolean,
}
use paramiko.Auth.State.{
  successful, failed, result, ServerObject, Provider, Session, new, userauth_success,
  userauth_failure, auth_reply, trigger_if, auth_trigger, send_auth_result, disconnect_no_more_auth,
}
use paramiko.Auth.Server.{
  read_method, read_password, answer, method_request, changes_username, parse_userauth_request,
  get_responses, parse_userauth_info_response,
}
use paramiko.Auth.Granted.{
  Approves, username_of, service_of, method_of, parse_userauth_request-authenticated,
  info_response-authenticated,
}
use paramiko.Auth.Run.{Arrival, handle, server_handler, run, carry_on}
use paramiko.Auth.Limits.{Limited, run-Limited}
use paramiko.Auth.Sound.{SomeApproved, run-SomeApproved}

abbrev pub session : Session
session = record { server_mode = true; session_id = 1 ∷ 2 ∷ []; preferred_pubkeys = [] }

abbrev pub provider : Provider ℕ
provider = record {
  load_key = λ algorithm blob. none;
  key_bits = λ key. [];
  verify_ssh_sig = λ key blob sig. false;
  check_mic = none;
  check_mech = λ mech. false;
}

abbrev pub server : ServerObject ℕ
server = record {
  get_banner = none;
  get_allowed_auths = λ name. codes "password";
  enable_auth_gssapi = false;
  check_auth_none = λ name. failed;
  check_auth_password =
      λ name secret. if eq_bytes secret (codes "sesame") then successful else failed;
  check_auth_publickey = λ name key. failed;
  check_auth_interactive = λ name methods. result failed;
  check_auth_interactive_response = λ responses. result failed;
  check_auth_gssapi_keyex = λ name. failed;
}

abbrev pub field : Bytes → Bytes
field s = be_bytes 4 (length s) ++ s

abbrev pub login : Bytes → Message
login secret = of_content (
    field (codes "bob")
    ++ (field (codes "ssh-connection") ++ (field (codes "password") ++ (0 ∷ field secret))))

abbrev attempt : Bytes → Arrival ℕ
attempt secret = record { server = server; ptype = 50; message = login secret }

-- The wrong password and then the right one.
abbrev two_tries : List (Arrival ℕ)
two_tries = attempt (codes "guess") ∷ attempt (codes "sesame") ∷ []

two_tries-run :
    (run session provider two_tries new).1
    ≡ userauth_failure (codes "password") false ∷ userauth_success ∷ []
unfolding run carry_on handle server_handler parse_userauth_request read_method read_password
    changes_username method_request answer send_auth_result auth_reply trigger_if auth_trigger
    disconnect_no_more_auth get_string get_binary get_boolean get_int get_bytes read be_bytes
    be_value be_value_from eq_bytes new
two_tries-run = refl

run-SomeApproved_example : SomeApproved session provider two_tries
unfolding run carry_on handle server_handler parse_userauth_request read_method read_password
    changes_username method_request answer send_auth_result auth_reply trigger_if auth_trigger
    disconnect_no_more_auth get_string get_binary get_boolean get_int get_bytes read be_bytes
    be_value be_value_from eq_bytes new
run-SomeApproved_example = run-SomeApproved session provider two_tries new refl refl

run-Limited_example : Limited new (run session provider two_tries new)
unfolding new
run-Limited_example =
    run-Limited session provider refl two_tries new (λ _. omega arith, refl) (omega arith)

parse_userauth_request-authenticated_example :
    ((parse_userauth_request session provider server (login (codes "sesame")) new).0.authenticated
      ≡ true)
    ↔ ((session.server_mode ≡ true)
        × (eq_bytes
              (service_of session provider server (login (codes "sesame")))
              (codes "ssh-connection")
            ≡ true)
        × (changes_username new.auth_username
              (username_of session provider server (login (codes "sesame")))
            ≡ false)
        × Approves session provider server
            (method_of session provider server (login (codes "sesame")))
            (service_of session provider server (login (codes "sesame")))
            (username_of session provider server (login (codes "sesame"))))
unfolding new
parse_userauth_request-authenticated_example =
    parse_userauth_request-authenticated session provider server (login (codes "sesame")) new refl

abbrev answers : Message
answers = of_content (be_bytes 4 1 ++ field (codes "42"))

abbrev trusting : ServerObject ℕ
trusting = record server { check_auth_interactive_response = λ responses. result successful }

info_response-authenticated_example :
    ((parse_userauth_info_response session provider trusting answers new).0.authenticated ≡ true)
    ↔ ((session.server_mode ≡ true)
        × (trusting.check_auth_interactive_response
              (get_responses (get_int answers).0 (get_int answers).1)
            ≡ result successful))
unfolding new
info_response-authenticated_example =
    info_response-authenticated session provider trusting answers new refl
