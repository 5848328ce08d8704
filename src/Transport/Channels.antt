-- ===== src/Transport/Channels.antt =====
-- Opening channels: `_next_channel`, `_parse_channel_open`, and the answers to this end's requests.
use paramiko.Base.{
  ℕ, suc, Bool, true, not, ◌&&◌, [], ◌∷◌, Bytes, length, Option, none, some, ◌==◌, if◌then◌else◌,
  codes, eq_bytes,
}
use paramiko.Message.{Message, get_int, get_text}
use paramiko.Channel.State.{Channel, init, set_window, set_remote_channel}
use paramiko.Transport.Loop.{
  Loop, World, open_failure, open_success, Round, continues, get_channel, delete_channel,
  put_channel, next_id, next_free,
}

-- `_next_channel`. There is a free number within as many steps as there are channels, and one more.
unfoldable pub next_channel : Loop → Option (ℕ × Loop)
next_channel l = elim (next_free (suc (length l.channels)) l.channels l.channel_counter) [
  | none ↦ none
  | some chanid ↦ some (chanid, record l { channel_counter = next_id chanid })
]

-- What `_parse_channel_open` decides: the reason to refuse, or the number of the new channel.
pub data Decision : Type 0 where
  refuse : ℕ → Decision
  accept : ℕ → Decision

unfoldable pub by_reason : ℕ → ℕ → Decision
by_reason my_chanid reason = if reason == 0 then accept my_chanid else refuse reason

module _ {K : Type 0} (world : World K) where
  -- The server object's reason, for a client's request.
  unfoldable pub reason_for : Bytes → ℕ → Message → ℕ
  reason_for kind my_chanid m =
      let (dest_addr, m1) = get_text m in
      let (dest_port, m2) = get_int m1 in
      let (origin_addr, m3) = get_text m2 in
      let (origin_port, _) = get_int m3 in
      if eq_bytes kind (codes "direct-tcpip")
      then world.check_channel_direct_tcpip_request my_chanid (origin_addr, origin_port)
          (dest_addr, dest_port)
      else world.check_channel_request kind my_chanid

  -- Whether a handler of this end takes connections of the kind.
  unfoldable pub has_handler : Bytes → Bool
  has_handler kind =
      if eq_bytes kind (codes "auth-agent@openssh.com") && world.has_forward_agent_handler
      then true
      else if eq_bytes kind (codes "x11") && world.has_x11_handler
      then true
      else eq_bytes kind (codes "forwarded-tcpip") && world.has_tcp_handler

  unfoldable pub decide : Bool → Bytes → ℕ → Message → Decision
  decide server_mode kind my_chanid m =
      if has_handler kind
      then accept my_chanid
      else if not server_mode
      then refuse 1
      else by_reason my_chanid (reason_for kind my_chanid m)

  -- The new channel, as both ends know it.
  unfoldable pub new_channel : Loop → ℕ → ℕ → ℕ → ℕ → Channel
  new_channel l my_chanid chanid initial_window_size max_packet_size =
      set_remote_channel chanid initial_window_size max_packet_size
        (set_window l.default_window_size l.default_max_packet_size (init my_chanid))

  unfoldable pub finish_open : ℕ → ℕ → ℕ → Decision → Loop → Round
  finish_open chanid initial_window_size max_packet_size (refuse reason) l =
      continues l (open_failure chanid reason ∷ [])
  finish_open chanid initial_window_size max_packet_size (accept my_chanid) l =
      continues
        (record l {
          channels =
              put_channel my_chanid
                (new_channel l my_chanid chanid initial_window_size max_packet_size) l.channels;
          channels_seen = my_chanid ∷ l.channels_seen;
        })
        (open_success chanid my_chanid l.default_window_size l.default_max_packet_size ∷ [])

  -- A number is drawn for every request but one that a client refuses at once; the counter stays
  -- ahead also when the server object refuses. `none` is never drawn (see `next_channel`).
  unfoldable pub open_with : Option (ℕ × Loop) → Bytes → ℕ → ℕ → ℕ → Message → Loop → Round
  open_with none kind chanid initial_window_size max_packet_size m l = continues l []
  open_with (some (my_chanid, l')) kind chanid initial_window_size max_packet_size m l =
      let server_mode = l.negotiation.server_mode in
      finish_open chanid initial_window_size max_packet_size (decide server_mode kind my_chanid m)
        (if not (has_handler kind) && not server_mode then l else l')

  unfoldable pub parse_channel_open : Message → Loop → Round
  parse_channel_open m l =
      let (kind, m1) = get_text m in
      let (chanid, m2) = get_int m1 in
      let (initial_window_size, m3) = get_int m2 in
      let (max_packet_size, m4) = get_int m3 in
      open_with (next_channel l) kind chanid initial_window_size max_packet_size m4 l

-- `_parse_channel_open_success`, for a channel that was asked for.
unfoldable pub parse_channel_open_success : Message → Loop → Round
parse_channel_open_success m l =
    let (chanid, m1) = get_int m in
    let (server_chanid, m2) = get_int m1 in
    let (server_window_size, m3) = get_int m2 in
    let (server_max_packet_size, _) = get_int m3 in
    elim (get_channel chanid l.channels) [
      | none ↦ continues l []
      | some c ↦
          continues
            (record l {
              channels =
                  put_channel chanid
                    (set_remote_channel server_chanid server_window_size server_max_packet_size c)
                    l.channels;
            })
            []
    ]

-- `_parse_channel_open_failure`, where the caller of `open_channel` still waits for the channel.
unfoldable pub parse_channel_open_failure : Bool → Message → Loop → Round
parse_channel_open_failure awaited m l =
    let (chanid, _) = get_int m in
    continues (if awaited then record l { channels = delete_channel chanid l.channels } else l) []
