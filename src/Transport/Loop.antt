-- ===== src/Transport/Loop.antt =====
-- The state of the transport's thread, and what the loop of `run` asks of the world.
use paramiko.Base.{
  ℕ, suc, zero, ◌+◌, ◌%◌, ◌^◌, Bool, false, ◌||◌, List, [], ◌∷◌, Bytes, Option, none, some, ◌==◌,
  if◌then◌else◌, Error, attribute_error, Result, ok, err,
}
use paramiko.Message.Fields.{Field}
use paramiko.Message.{Message}
use paramiko.Channel.State.{Channel, Effect}
use paramiko.Channel.Closing.{Request}
use paramiko.Auth.State.{ServerObject, AuthHandler, Reply}
use paramiko.Transport.State.{Transport}

-- A channel under its number: an entry of the channel map.
abbrev pub Entry : Type 0
Entry = ℕ × Channel

-- `negotiation` is what the negotiation of algorithms keeps; `kex_init_sent` says that
-- `local_kex_init` is set.
pub record Loop : Type 0 where
  pub negotiation : Transport
  pub kex_init_sent : Bool
  pub expected_packet : List ℕ
  pub auth_handler : Option AuthHandler
  pub channels : List Entry
  pub channels_seen : List ℕ
  pub channel_counter : ℕ
  pub default_window_size : ℕ
  pub default_max_packet_size : ℕ
  pub active : Bool

-- What the application and other packages answer while one message is handled: the server object,
-- the handlers of forwarded connections that are set, the engine of the key exchange (the messages
-- that it expects next, or an exception), and the packetizer's need of new keys.
pub record World (K : Type 0) : Type 0 where
  pub server : ServerObject K
  pub check_channel_request : Bytes → ℕ → ℕ
  pub check_channel_direct_tcpip_request : ℕ → Bytes × ℕ → Bytes × ℕ → ℕ
  pub check_port_forward_request : Bytes → ℕ → ℕ
  pub check_global_request : Bytes → Message → Option (List Field)
  pub answer_request : Option (Request → Bool)
  pub has_forward_agent_handler : Bool
  pub has_x11_handler : Bool
  pub has_tcp_handler : Bool
  pub kex_engine : Result (List ℕ)
  pub need_rekey : Bool
  pub seqno : ℕ

-- The messages that go out.
pub data Out : Type 0 where
  of_auth : Reply → Out
  of_channel : Effect → Out
  kexinit : Out
  unimplemented : ℕ → Out
  request_success : List Field → Out
  request_failure : Out
  open_failure : ℕ → ℕ → Out
  open_success : ℕ → ℕ → ℕ → ℕ → Out

-- How a round of the loop ends: it goes on, breaks, or raises.
pub data Round : Type 0 where
  continues : Loop → List Out → Round
  breaks : Loop → List Out → Round
  raises : Error → Loop → List Out → Round

-- `ChannelMap.get`, `put` and `delete`.
unfoldable pub get_channel : ℕ → List Entry → Option Channel
get_channel chanid [] = none
get_channel chanid ((i, c) ∷ es) = if i == chanid then some c else get_channel chanid es

unfoldable pub delete_channel : ℕ → List Entry → List Entry
delete_channel chanid [] = []
delete_channel chanid ((i, c) ∷ es) =
    let rest = delete_channel chanid es in if i == chanid then rest else (i, c) ∷ rest

unfoldable pub put_channel : ℕ → Channel → List Entry → List Entry
put_channel chanid c es = (chanid, c) ∷ delete_channel chanid es

unfoldable pub is_taken : ℕ → List Entry → Bool
is_taken chanid [] = false
is_taken chanid ((i, c) ∷ es) = i == chanid || is_taken chanid es

abbrev pub next_id : ℕ → ℕ
next_id n = (n + 1) % 2 ^ 24

-- The loop of `_next_channel`, on fuel: the number, and the counter after it.
unfoldable pub next_free : ℕ → List Entry → ℕ → Option ℕ
next_free zero es chanid = none
next_free (suc fuel) es chanid =
    let further = next_free fuel es (next_id chanid) in
    if is_taken chanid es then further else some chanid

-- `is_authenticated`. The handler for gssapi-with-mic has no such method.
unfoldable pub is_authenticated : Loop → Result Bool
is_authenticated l =
    if l.active
    then elim l.auth_handler [
      | none ↦ ok false
      | some h ↦ if h.with_mic then err attribute_error else ok h.authenticated
    ]
    else ok false
