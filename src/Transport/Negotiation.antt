-- ===== src/Transport/Negotiation.antt =====
-- `_send_kex_init`, `_really_parse_kex_init` and `_parse_kex_init` of paramiko/transport.py.
use paramiko.Base.{
  ℕ, ◌+◌, Bool, true, false, not, ◌&&◌, List, [], ◌∷◌, ◌++◌, Bytes, length, ltb, ◌==◌,
  if◌then◌else◌, Option, none, some, filter, pop, codes, eq_bytes, contains, Result, ok, err, ◌>>=◌,
  incompatible_peer, message_order_error,
}
use paramiko.Message.{Message, get_bytes, get_list, get_boolean}
use paramiko.Transport.State.{
  Agreed, Transport, preferred_ciphers, preferred_macs, preferred_keys, preferred_kex,
  preferred_compression, is_ext_info, is_kex_strict, kex_strict, is_group_exchange,
}

-- The lists of a KEXINIT message as the peer reads them.
pub record KexInit : Type 0 where
  pub kex_algo_list : List Bytes
  pub server_key_algo_list : List Bytes
  pub client_encrypt_algo_list : List Bytes
  pub server_encrypt_algo_list : List Bytes
  pub client_mac_algo_list : List Bytes
  pub server_mac_algo_list : List Bytes
  pub client_compress_algo_list : List Bytes
  pub server_compress_algo_list : List Bytes
  pub client_lang_list : List Bytes
  pub server_lang_list : List Bytes
  pub kex_follows : Bool

-- `_really_parse_kex_init`, behind the type of the message.
unfoldable pub really_parse_kex_init : Message → KexInit
really_parse_kex_init m =
    let (_, m0) = get_bytes 16 m in
    let (kex, m1) = get_list m0 in
    let (server_key, m2) = get_list m1 in
    let (client_encrypt, m3) = get_list m2 in
    let (server_encrypt, m4) = get_list m3 in
    let (client_mac, m5) = get_list m4 in
    let (server_mac, m6) = get_list m5 in
    let (client_compress, m7) = get_list m6 in
    let (server_compress, m8) = get_list m7 in
    let (client_lang, m9) = get_list m8 in
    let (server_lang, m10) = get_list m9 in
    let (follows, _) = get_boolean m10 in
    record {
      kex_algo_list = kex;
      server_key_algo_list = server_key;
      client_encrypt_algo_list = client_encrypt;
      server_encrypt_algo_list = server_encrypt;
      client_mac_algo_list = client_mac;
      server_mac_algo_list = server_mac;
      client_compress_algo_list = client_compress;
      server_compress_algo_list = server_compress;
      client_lang_list = client_lang;
      server_lang_list = server_lang;
      kex_follows = follows;
    }

-- `get_list` of what `add_list` wrote: names hold no comma, and no names at all make the empty
-- string, which splits into one empty name.
unfoldable pub as_read : List Bytes → List Bytes
as_read [] = [] ∷ []
as_read (n ∷ ns) = n ∷ ns

-- `(self._modulus_pack is None) and (len(kex_mp) > 0)`, in server mode.
unfoldable pub lacks_modulus_pack : Transport → Bool
lacks_modulus_pack t =
    t.server_mode
    && (not t.has_modulus_pack && ltb 0 (length (filter is_group_exchange (preferred_kex t))))

-- The preferences without group exchange. The names are known to `_kex_info`, since they were.
unfoldable pub drop_group_exchange : Transport → Transport
drop_group_exchange t =
    if lacks_modulus_pack t
    then record t {
      preferences = record (t.preferences) {
        kex = filter (λ k. not (is_group_exchange k)) t.preferences.kex;
      };
    }
    else t

-- `available_server_keys`
unfoldable pub available_server_keys : Transport → List Bytes
available_server_keys t =
    if t.server_mode then filter (contains t.server_keys) (preferred_keys t) else preferred_keys t

-- The entries that are no algorithms, behind the algorithms.
unfoldable pub signals : Transport → List Bytes
signals t =
    (if t.server_mode then [] else codes "ext-info-c" ∷ [])
    ++ (if t.advertise_strict_kex then kex_strict t.server_mode ∷ [] else [])

-- `kex_algos` is computed before the group exchange is dropped.
unfoldable pub send_kex_init : Transport → Transport × KexInit
send_kex_init t = (
  record (drop_group_exchange t) { in_kex = true; clear_to_send = false },
  record {
    kex_algo_list = as_read (preferred_kex t ++ signals t);
    server_key_algo_list = as_read (available_server_keys t);
    client_encrypt_algo_list = as_read (preferred_ciphers t);
    server_encrypt_algo_list = as_read (preferred_ciphers t);
    client_mac_algo_list = as_read (preferred_macs t);
    server_mac_algo_list = as_read (preferred_macs t);
    client_compress_algo_list = as_read (preferred_compression t);
    server_compress_algo_list = as_read (preferred_compression t);
    client_lang_list = as_read [];
    server_lang_list = as_read [];
    kex_follows = false;
  },
)

-- The loop over the peer's algorithms: what it records, and the indexes to pop, the last one first.
pub record Noted : Type 0 where
  pub ext_info : Option Bytes
  pub strict : Bool
  pub to_pop : List ℕ

unfoldable pub note_algorithm : Transport → ℕ → Bytes → Noted → Noted
note_algorithm t i algo noted =
    if is_ext_info algo
    then record noted { ext_info = some algo; to_pop = i ∷ noted.to_pop }
    else if is_kex_strict algo
    then record noted {
      strict = eq_bytes algo (kex_strict (not t.server_mode)) && t.advertise_strict_kex;
      to_pop = i ∷ noted.to_pop;
    }
    else noted

unfoldable pub note_algorithms : Transport → ℕ → List Bytes → Noted → Noted
note_algorithms t i [] noted = noted
note_algorithms t i (algo ∷ algos) noted =
    note_algorithms t (i + 1) algos (note_algorithm t i algo noted)

-- `for i in to_pop: kex_algo_list.pop(i)`
unfoldable pub pop_each : List ℕ → List Bytes → List Bytes
pop_each [] algos = algos
pop_each (i ∷ is) algos = pop_each is (pop i algos)

abbrev pub start_noting : Transport → Noted
start_noting t = record { ext_info = none; strict = t.agreed_on_strict_kex; to_pop = [] }

-- A server picks by the client's order, a client by its own.
unfoldable pub agree_on : Bool → List Bytes → List Bytes → List Bytes
agree_on server_mode preferred offered =
    if server_mode then filter (contains preferred) offered else filter (contains offered) preferred

-- The first item, unless there is none.
unfoldable pub first_agreed : List Bytes → Result Bytes
first_agreed [] = err incompatible_peer
first_agreed (algo ∷ _) = ok algo

unfoldable pub agree_on_host_key : Transport → List Bytes → Result Bytes
agree_on_host_key t offered = do
  host_key ← first_agreed (agree_on t.server_mode (available_server_keys t) offered)
  (if t.server_mode && not (contains t.server_keys host_key)
      then err incompatible_peer
      else ok host_key)

-- The algorithm for what this end sends, and the one for what it receives, which for a server are
-- those of the server's and of the client's direction.
unfoldable pub agree_both : Bool → List Bytes → List Bytes → List Bytes → Result (Bytes × Bytes)
agree_both server_mode preferred from_client from_server = do
  out ←
      first_agreed
        (agree_on server_mode preferred (if server_mode then from_server else from_client))
  back ←
      first_agreed
        (agree_on server_mode preferred (if server_mode then from_client else from_server))
  ok (out, back)

unfoldable pub agree : Transport → List Bytes → KexInit → Result Agreed
agree t kex_algos k = do
  kex ← first_agreed (agree_on t.server_mode (preferred_kex t) kex_algos)
  host_key ← agree_on_host_key t k.server_key_algo_list
  cipher ←
      agree_both t.server_mode (preferred_ciphers t) k.client_encrypt_algo_list
        k.server_encrypt_algo_list
  mac ← agree_both t.server_mode (preferred_macs t) k.client_mac_algo_list k.server_mac_algo_list
  compression ←
      agree_both t.server_mode (preferred_compression t) k.client_compress_algo_list
        k.server_compress_algo_list
  ok (record {
    kex_engine = kex;
    host_key_type = host_key;
    local_cipher = cipher.0;
    remote_cipher = cipher.1;
    local_mac = mac.0;
    remote_mac = mac.1;
    local_compression = compression.0;
    remote_compression = compression.1;
  })

-- `seqno` is that of the message. What the transport has changed before it raises is dropped: the
-- exception ends the transport's thread.
unfoldable pub parse_kex_init : ℕ → KexInit → Transport → Result Transport
parse_kex_init seqno k t =
    let noted = note_algorithms t 0 k.kex_algo_list (start_noting t) in
    let t' = record t { remote_ext_info = noted.ext_info; agreed_on_strict_kex = noted.strict } in
    if noted.strict && (not t.initial_kex_done && not (seqno == 0))
    then err message_order_error
    else (do
      agreed ← agree t' (pop_each noted.to_pop k.kex_algo_list) k
      ok (record t' { agreed = some agreed }))
