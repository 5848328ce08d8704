-- ===== src/Channel/Closing.antt =====
-- End of file, closing and the requests of the peer.
use paramiko.Base.{
  ℕ, Bool, true, false, not, ◌||◌, List, [], ◌∷◌, ◌++◌, Bytes, ◌==◌, if◌then◌else◌, Option, none,
  some, codes, eq_bytes,
}
use paramiko.BufferedPipe
use paramiko.Message.{Message, get_int, get_string, get_binary, get_boolean}
use paramiko.Channel.State.{
  Effect, channel_eof, channel_close, channel_success, channel_failure, unlink_channel, Channel,
}

-- `_set_closed`. The wake-up of waiting senders is their `_woken` part.
unfoldable pub set_closed : Channel → Channel
set_closed c = record c {
  closed = true;
  in_buffer = BufferedPipe.close c.in_buffer;
  in_stderr_buffer = BufferedPipe.close c.in_stderr_buffer;
  event = true;
  status_event = true;
}

-- `_send_eof`; no effect stands for `None`.
unfoldable pub send_eof : Channel → Channel × List Effect
send_eof c =
    if c.eof_sent then (c, []) else (record c { eof_sent = true }, channel_eof c.remote_chanid ∷ [])

-- `_close_internal`
unfoldable pub close_internal : Channel → Channel × List Effect
close_internal c =
    if not c.active || c.closed
    then (c, [])
    else (let (c', m1) = send_eof c in (set_closed c', m1 ++ (channel_close c'.remote_chanid ∷ [])))

unfoldable pub close : Channel → Channel × List Effect
close c = if not c.active || c.closed then (c, []) else close_internal c

-- `_handle_eof`
unfoldable pub handle_eof : Channel → Channel
handle_eof c =
    if not c.eof_received
    then record c {
      eof_received = true;
      in_buffer = BufferedPipe.close c.in_buffer;
      in_stderr_buffer = BufferedPipe.close c.in_stderr_buffer;
    }
    else c

-- `_handle_close`: the transport forgets the channel before the messages go out.
unfoldable pub handle_close : Channel → Channel × List Effect
handle_close c = let (c', msgs) = close_internal c in (c', unlink_channel c'.chanid ∷ msgs)

-- `_request_success`
unfoldable pub request_success : Channel → Channel
request_success c = record c { event_ready = true; event = true }

-- `_request_failed`
unfoldable pub request_failed : Channel → Channel × List Effect
request_failed c = close_internal c

-- `shutdown(how)`
unfoldable pub shutdown : ℕ → Channel → Channel × List Effect
shutdown how c =
    let c' = if how == 0 || how == 2 then record c { eof_received = true } else c in
    if how == 1 || how == 2 then send_eof c' else (c', [])

-- `_unlink`
unfoldable pub unlink : Channel → Channel × List Effect
unlink c = if c.closed then (c, []) else (set_closed c, unlink_channel c.chanid ∷ [])

-- `_event_pending`
unfoldable pub event_pending : Channel → Channel
event_pending c = record c { event = false; event_ready = false }

-- The call of the server object that a request leads to.
pub data Request : Type 0 where
  pty : Bytes → ℕ → ℕ → ℕ → ℕ → Bytes → Request
  shell : Request
  env : Bytes → Bytes → Request
  exec : Bytes → Request
  subsystem : Bytes → Request
  window_change : ℕ → ℕ → ℕ → ℕ → Request
  x11 : Bool → Bytes → Bytes → ℕ → Request
  forward_agent : Request

-- The arguments of each kind of request, in the order in which they stand in the message.
unfoldable pub parse_pty : Message → Request
parse_pty m =
    let (term, m1) = get_string m in
    let (width, m2) = get_int m1 in
    let (height, m3) = get_int m2 in
    let (pixelwidth, m4) = get_int m3 in
    let (pixelheight, m5) = get_int m4 in
    let (modes, _) = get_string m5 in pty term width height pixelwidth pixelheight modes

unfoldable pub parse_window_change : Message → Request
parse_window_change m =
    let (width, m1) = get_int m in
    let (height, m2) = get_int m1 in
    let (pixelwidth, m3) = get_int m2 in
    let (pixelheight, _) = get_int m3 in window_change width height pixelwidth pixelheight

unfoldable pub parse_x11 : Message → Request
parse_x11 m =
    let (single_connection, m1) = get_boolean m in
    let (auth_proto, m2) = get_string m1 in
    let (auth_cookie, m3) = get_binary m2 in
    let (screen_number, _) = get_int m3 in
    x11 single_connection auth_proto auth_cookie screen_number

unfoldable pub parse_env : Message → Request
parse_env m = let (name, m1) = get_string m in let (value, _) = get_string m1 in env name value

-- The request for the server object, where the key is one that it answers.
unfoldable pub server_request : Bytes → Message → Option Request
server_request key m =
    if eq_bytes key (codes "pty-req")
    then some (parse_pty m)
    else if eq_bytes key (codes "shell")
    then some shell
    else if eq_bytes key (codes "env")
    then some (parse_env m)
    else if eq_bytes key (codes "exec")
    then some (exec (get_string m).0)
    else if eq_bytes key (codes "subsystem")
    then some (subsystem (get_string m).0)
    else if eq_bytes key (codes "window-change")
    then some (parse_window_change m)
    else if eq_bytes key (codes "x11-req")
    then some (parse_x11 m)
    else if eq_bytes key (codes "auth-agent-req@openssh.com")
    then some forward_agent
    else none

-- `server is None` refuses; the server object is the application's.
unfoldable pub server_answer : Option (Request → Bool) → Option Request → Bool
server_answer none r = false
server_answer (some check) none = false
server_answer (some check) (some r) = check r

-- `_handle_request`. Keys are compared as bytes: they are ASCII.
unfoldable pub handle_request : Option (Request → Bool) → Message → Channel → Channel × List Effect
handle_request server m c =
    let (key, m1) = get_string m in
    let (want_reply, m2) = get_boolean m1 in
    let is_exit = eq_bytes key (codes "exit-status") in
    let accepted =
      is_exit || eq_bytes key (codes "xon-xoff") || server_answer server (server_request key m2) in
    let c' =
      if is_exit then record c { exit_status = some (get_int m2).0; status_event = true } else c in
    let reply =
      if accepted then channel_success c.remote_chanid else channel_failure c.remote_chanid in
    (c', if want_reply then reply ∷ [] else [])
