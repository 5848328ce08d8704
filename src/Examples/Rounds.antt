-- ===== src/Examples/Rounds.antt =====
-- Rounds of the loop of a server: it takes its keys into use, authenticates bob, and opens a channel.
use paramiko.Base.{
  ℕ, ◌<◌, ◌≡◌, refl, true, false, [], ◌∷◌, ◌++◌, none, some, codes, eq_bytes, arith, ok,
  message_order_error, key_error,
}
use paramiko.Wire.{be_bytes, be_value, be_value_from}
use paramiko.Message.{
  Message, of_content, read, get_bytes, get_int, get_string, get_binary, get_boolean,
}
use paramiko.Channel.State.{Channel}
use paramiko.Auth.State.{
  new, auth_reply, trigger_if, auth_trigger, send_auth_result, disconnect_no_more_auth,
}
use paramiko.Auth.Server.{
  read_method, read_password, answer, method_request, changes_username, parse_userauth_request,
}
use paramiko.Auth.Run.{handle, server_handler}
use paramiko.Transport.Loop.{
  Loop, World, Round, continues, breaks, raises, get_channel, delete_channel, put_channel, is_taken,
  next_id, next_free, is_authenticated,
}
use paramiko.Transport.Channels.{
  by_reason, next_channel, reason_for, has_handler, decide, new_channel, finish_open, open_with,
  parse_channel_open,
}
use paramiko.Transport.Dispatch.{
  if_authed, ensure_authed, or_new, parse_newkeys, run_handler, after_auth, awaits_token,
  or_not_implemented, to_auth, dispatch, round,
}
use paramiko.Transport.Gate.{authed}
use paramiko.Transport.Reached.{here, next, Reach-authed}
use paramiko.Transport.Fresh.{next_channel-fresh}
use paramiko.Transport.Unexpected.{round-strict_kex, round-unknown}
use paramiko.Examples.Logins.{session, provider, server, field, login}
use paramiko.Examples.Transports

abbrev world : World ℕ
world = record {
  server = server;
  check_channel_request = λ kind chanid. 0;
  check_channel_direct_tcpip_request = λ chanid origin dest. 1;
  check_port_forward_request = λ address port. 0;
  check_global_request = λ kind m. none;
  answer_request = none;
  has_forward_agent_handler = false;
  has_x11_handler = false;
  has_tcp_handler = false;
  kex_engine = ok [];
  need_rekey = false;
  seqno = 7;
}

abbrev fresh : Loop
fresh = record {
  negotiation = Transports.server;
  kex_init_sent = true;
  expected_packet = [];
  auth_handler = none;
  channels = [];
  channels_seen = [];
  channel_counter = 0;
  default_window_size = 2097152;
  default_max_packet_size = 32768;
  active = true;
}

abbrev after : Round → Loop
after (continues l out) = l
after (breaks l out) = l
after (raises e l out) = l

abbrev open_session : Message
open_session =
    of_content (field (codes "session") ++ (be_bytes 4 3 ++ (be_bytes 4 65536 ++ be_bytes 4 32768)))

abbrev step : ℕ → Message → Loop → Round
step ptype m l = round session provider world false ptype m l

abbrev keyed : Loop
keyed = after (step 21 (of_content []) fresh)

abbrev authenticated : Loop
authenticated = after (step 50 (login (codes "sesame")) keyed)

abbrev opened : Loop
opened = after (step 90 open_session authenticated)

abbrev opened_channel : Channel
opened_channel = new_channel world fresh 0 3 65536 32768

Reach-authed_example : authed opened.auth_handler ≡ true
unfolding round dispatch ensure_authed if_authed run_handler parse_newkeys or_new new to_auth
    or_not_implemented after_auth awaits_token handle server_handler parse_userauth_request
    read_method read_password changes_username method_request answer send_auth_result auth_reply
    trigger_if auth_trigger disconnect_no_more_auth get_string get_binary get_boolean get_int
    get_bytes read be_bytes be_value be_value_from eq_bytes is_authenticated parse_channel_open
    open_with next_channel next_free is_taken decide has_handler reason_for by_reason finish_open
    get_channel put_channel delete_channel new_channel
Reach-authed_example =
    Reach-authed session provider fresh opened refl refl refl refl
      (next world false 21 (of_content []) _ refl (
        next world false 50 (login (codes "sesame")) _ refl
          (next world false 90 open_session _ refl here)))
      0 opened_channel refl

next_channel-fresh_example :
    (chanid : ℕ) × (next_channel fresh
      ≡ some (chanid, record fresh { channel_counter = next_id chanid }))
    × (get_channel chanid fresh.channels ≡ none)
    × (chanid < 16777216)
next_channel-fresh_example = next_channel-fresh fresh (omega arith) (omega arith)

-- In the middle of a strict key exchange.
abbrev exchanging : Loop
exchanging = record fresh {
  negotiation = record Transports.server { agreed_on_strict_kex = true };
  expected_packet = 30 ∷ [];
}

round-strict_kex_example :
    step 2 (of_content []) exchanging ≡ raises message_order_error exchanging []
round-strict_kex_example =
    round-strict_kex session provider world false 2 (of_content []) exchanging refl refl (λ e. cc)
      refl (λ e. omega (arith, e))

round-unknown_example : step 192 (of_content []) fresh ≡ raises key_error fresh []
round-unknown_example =
    round-unknown session provider world 192 refl false (of_content []) fresh refl
