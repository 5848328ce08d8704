-- ===== src/Transport/Dispatch.antt =====
-- One round of the loop of `Transport.run`, from a message that `read_message` has returned.
use paramiko.Base.{
  ℕ, Bool, true, false, not, ◌&&◌, ◌||◌, List, [], ◌∷◌, length, Option, none, some, ◌==◌, leb,
  if◌then◌else◌, map, codes, eq_bytes, ssh_exception, message_order_error, key_error, index_error,
  Result, ok, err, pos,
}
use paramiko.Message.{Message, get_int, get_boolean, get_text}
use paramiko.Message.Fields.{Field, adaptive_int}
use paramiko.Channel.State.{Channel, Effect, unlink_channel}
use paramiko.Channel.Sending.{handle_window_adjust}
use paramiko.Channel.Receiving.{feed, feed_extended}
use paramiko.Channel.Closing.{
  request_success, request_failed, handle_request, handle_eof, handle_close,
}
use paramiko.Auth.State.{Provider, Session, Reply, gssapi_response, AuthHandler, new}
use paramiko.Auth.Server.{Outcome}
use paramiko.Auth.Run.{handle}
use paramiko.Transport.State.{Transport}
use paramiko.Transport.Negotiation.{send_kex_init, parse_kex_init, really_parse_kex_init}
use paramiko.Transport.Loop.{
  Entry, Loop, World, Out, of_auth, of_channel, kexinit, unimplemented, request_failure,
  open_failure, Round, continues, breaks, raises, get_channel, delete_channel, put_channel,
  is_authenticated,
}
use paramiko.Transport.Channels.{
  parse_channel_open, parse_channel_open_success, parse_channel_open_failure,
}

abbrev pub member : ℕ → List ℕ → Bool
member n [] = false
member n (m ∷ ms) = m == n || member n ms

-- The keys of `MSG_NAMES`.
abbrev pub msg_names : List ℕ
msg_names =
    1 ∷ 2 ∷ 3 ∷ 4 ∷ 5 ∷ 6 ∷ 7 ∷ 20 ∷ 21 ∷ 30 ∷ 31 ∷ 32 ∷ 33 ∷ 34 ∷ 40 ∷ 41 ∷ 50 ∷ 51 ∷ 52 ∷ 53 ∷ 60
    ∷ 61 ∷ 63 ∷ 64 ∷ 65 ∷ 66 ∷ 80 ∷ 81 ∷ 82 ∷ 90 ∷ 91 ∷ 92 ∷ 93 ∷ 94 ∷ 95 ∷ 96 ∷ 97 ∷ 98 ∷ 99 ∷ 100
    ∷ []

-- The keys of `_handler_table` and of `_channel_handler_table`.
abbrev pub handler_table : List ℕ
handler_table = 7 ∷ 21 ∷ 80 ∷ 81 ∷ 82 ∷ 91 ∷ 92 ∷ 90 ∷ 20 ∷ []

abbrev pub channel_handler_table : List ℕ
channel_handler_table = 99 ∷ 100 ∷ 94 ∷ 95 ∷ 93 ∷ 98 ∷ 96 ∷ 97 ∷ []

-- `_enforce_strict_kex`, before what follows it.
unfoldable pub enforce_strict_kex : Loop → Round → Round
enforce_strict_kex l next =
    if l.negotiation.agreed_on_strict_kex && not l.negotiation.initial_kex_done
    then raises message_order_error l []
    else next

-- The reply that `_ensure_authed` makes for an unauthenticated client. For any other type of message
-- it is empty, and sending it raises, since it has no first byte.
unfoldable pub refuse_unauthed : ℕ → Message → Loop → Round
refuse_unauthed ptype m l =
    let (_, m1) = get_text m in
    let (chanid, _) = get_int m1 in
    if ptype == 80
    then continues l (request_failure ∷ [])
    else if ptype == 90
    then continues l (open_failure chanid 1 ∷ [])
    else raises index_error l []

unfoldable pub if_authed : Result Bool → ℕ → Message → Loop → Round → Round
if_authed (ok true) ptype m l next = next
if_authed (ok false) ptype m l next = refuse_unauthed ptype m l
if_authed (err e) ptype m l next = raises e l []

unfoldable pub ensure_authed : ℕ → Message → Loop → Round → Round
ensure_authed ptype m l next =
    if not l.negotiation.server_mode || leb ptype 79
    then next
    else if_authed (is_authenticated l) ptype m l next

-- The messages of a channel; an `_unlink_channel` takes it off the map.
unfoldable pub outs_of : List Effect → List Out
outs_of [] = []
outs_of (unlink_channel chanid ∷ es) = outs_of es
outs_of (e ∷ es) = of_channel e ∷ outs_of es

unfoldable pub unlinks : List Effect → List Entry → List Entry
unlinks [] channels = channels
unlinks (unlink_channel chanid ∷ es) channels = unlinks es (delete_channel chanid channels)
unlinks (e ∷ es) channels = unlinks es channels

-- The channel's handler has run: its state is kept, and its calls of the transport are made.
unfoldable pub after_channel : ℕ → Loop → Channel × List Effect → Round
after_channel chanid l (c, es) =
    continues (record l { channels = unlinks es (put_channel chanid c l.channels) }) (outs_of es)

unfoldable pub global_reply : Option (List Field) → Out
global_reply none = request_failure
global_reply (some extra) = Out.request_success extra

-- A server creates its authentication handler with the first keys.
unfoldable pub or_new : Option AuthHandler → AuthHandler
or_new none = new
or_new (some h) = h

-- What the request for gssapi-with-mic sets besides the handler, when it has been answered: only
-- MSG_USERAUTH_GSSAPI_TOKEN, MSG_USERAUTH_REQUEST and MSG_SERVICE_REQUEST may follow.
unfoldable pub awaits_token : List Reply → List ℕ → List ℕ
awaits_token [] expected = expected
awaits_token (gssapi_response ∷ out) expected = 61 ∷ 50 ∷ 5 ∷ []
awaits_token (_ ∷ out) expected = awaits_token out expected

module _ {K : Type 0} (session : Session) (provider : Provider K) (world : World K) where
  -- `_channel_handler_table[ptype](chan, m)`
  unfoldable pub channel_handler : ℕ → Message → Channel → Channel × List Effect
  channel_handler ptype m c =
      if ptype == 99
      then (request_success c, [])
      else if ptype == 100
      then request_failed c
      else if ptype == 94
      then (feed m c, [])
      else if ptype == 95
      then (feed_extended m c, [])
      else if ptype == 93
      then (handle_window_adjust m c, [])
      else if ptype == 98
      then handle_request world.answer_request m c
      else if ptype == 96
      then (handle_eof c, [])
      else handle_close c

  -- A message for a channel that was never seen ends the loop.
  unfoldable pub to_channel : ℕ → Message → Loop → Round
  to_channel ptype m l =
      let (chanid, m1) = get_int m in
      elim (get_channel chanid l.channels) [
        | some c ↦ after_channel chanid l (channel_handler ptype m1 c)
        | none ↦ if member chanid l.channels_seen then continues l [] else breaks l []
      ]

  -- `_parse_global_request`
  unfoldable pub parse_global_request : Message → Loop → Round
  parse_global_request m l =
      let (kind, m1) = get_text m in
      let (want_reply, m2) = get_boolean m1 in
      let (address, m3) = get_text m2 in
      let (port, _) = get_int m3 in
      let bound = world.check_port_forward_request address port in
      let answer =
        if not l.negotiation.server_mode
        then none
        else if eq_bytes kind (codes "tcpip-forward")
        then (if bound == 0 then none else some (adaptive_int (pos bound) ∷ []))
        else if eq_bytes kind (codes "cancel-tcpip-forward")
        then some []
        else world.check_global_request kind m2 in
      continues l (if want_reply then global_reply answer ∷ [] else [])

  -- `_parse_newkeys`, without the switch of the inbound cipher itself.
  unfoldable pub parse_newkeys : Loop → Round
  parse_newkeys l =
      continues
        (record l {
          kex_init_sent = false;
          auth_handler =
              if l.negotiation.server_mode then some (or_new l.auth_handler) else l.auth_handler;
          negotiation = record (l.negotiation) {
            initial_kex_done = true;
            in_kex = if world.need_rekey then l.negotiation.in_kex else false;
            clear_to_send = true;
          };
        })
        []

  -- The engine of the key exchange sets what it expects, or raises.
  unfoldable pub engine_runs : Result (List ℕ) → Loop → List Out → Round
  engine_runs (ok expected) l out = continues (record l { expected_packet = expected }) out
  engine_runs (err e) l out = raises e l out

  unfoldable pub parsed_kex_init : Result Transport → Loop → List Out → Round
  parsed_kex_init (ok t) l out = engine_runs world.kex_engine (record l { negotiation = t }) out
  parsed_kex_init (err e) l out = raises e l out

  -- `_negotiate_keys`
  unfoldable pub negotiate_keys : Message → Loop → Round
  negotiate_keys m l =
      let t = if l.kex_init_sent then l.negotiation else (send_kex_init l.negotiation).0 in
      let t' = record t { clear_to_send = false } in
      parsed_kex_init (parse_kex_init world.seqno (really_parse_kex_init m) t')
        (record l { kex_init_sent = true; negotiation = t' })
        (if l.kex_init_sent then [] else kexinit ∷ [])

  -- `_handler_table[ptype](m)`
  unfoldable pub run_handler : Bool → ℕ → Message → Loop → Round
  run_handler awaited ptype m l =
      if ptype == 21
      then parse_newkeys l
      else if ptype == 80
      then parse_global_request m l
      else if ptype == 91
      then parse_channel_open_success m l
      else if ptype == 92
      then parse_channel_open_failure awaited m l
      else if ptype == 90
      then parse_channel_open world m l
      else if ptype == 20
      then negotiate_keys m l
      else continues l []

  -- The loop ends when the handler has closed the transport.
  unfoldable pub after_auth : Loop → Outcome → Round
  after_auth l (h, out, none) =
      continues
        (record l {
          auth_handler = some h;
          active = l.active && not h.closed;
          expected_packet = awaits_token out l.expected_packet;
        })
        (map of_auth out)
  after_auth l (h, out, some e) = raises e (record l { auth_handler = some h }) (map of_auth out)

  -- "I don't implement this": the name of the type is looked up for the log first.
  unfoldable pub not_implemented : ℕ → Loop → Round
  not_implemented ptype l =
      if not (member ptype msg_names)
      then raises key_error l []
      else if ptype == 3
      then continues l []
      else continues l (unimplemented world.seqno ∷ [])

  unfoldable pub or_not_implemented : Option Outcome → ℕ → Loop → Round
  or_not_implemented none ptype l = not_implemented ptype l
  or_not_implemented (some o) ptype l = after_auth l o

  unfoldable pub to_auth : ℕ → Message → Loop → Round
  to_auth ptype m l = elim l.auth_handler [
    | none ↦ not_implemented ptype l
    | some h ↦ or_not_implemented (handle session provider world.server ptype m h) ptype l
  ]

  -- Behind the test of what is expected.
  unfoldable pub dispatch : Bool → ℕ → Message → Loop → Round
  dispatch awaited ptype m l =
      if member ptype handler_table
      then ensure_authed ptype m l (run_handler awaited ptype m l)
      else if member ptype channel_handler_table
      then to_channel ptype m l
      else to_auth ptype m l

  -- A message that is expected uses the expectation up; those of the key exchange go to its engine.
  unfoldable pub expected : Bool → ℕ → Message → Loop → Round
  expected awaited ptype m l =
      let l' = record l { expected_packet = [] } in
      if leb 30 ptype && leb ptype 41
      then engine_runs world.kex_engine l' []
      else dispatch awaited ptype m l'

  unfoldable pub round : Bool → ℕ → Message → Loop → Round
  round awaited ptype m l =
      if ptype == 2
      then enforce_strict_kex l (continues l [])
      else if ptype == 1
      then breaks l []
      else if ptype == 4
      then enforce_strict_kex l (continues l [])
      else if length l.expected_packet == 0
      then dispatch awaited ptype m l
      else if member ptype l.expected_packet
      then expected awaited ptype m l
      else raises
          (if l.negotiation.agreed_on_strict_kex then message_order_error else ssh_exception) l []
