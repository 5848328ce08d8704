-- ===== src/Examples/Transports.antt =====
-- Negotiations of a client and a server with a few algorithms.
use paramiko.Base.{
  ◌≡◌, refl, true, false, [], ◌∷◌, Bytes, codes, eq_bytes, contains, starts_with, filter, All, none,
  some, Option, Result, ok, pop,
}
use paramiko.Transport.State.{
  Agreed, Algorithms, Transport, filter_algorithm, preferred_kex, is_ext_info, is_kex_strict,
  is_group_exchange, kex_strict,
}
use paramiko.Transport.Negotiation.{
  as_read, lacks_modulus_pack, drop_group_exchange, available_server_keys, signals, send_kex_init,
  start_noting, note_algorithm, note_algorithms, pop_each, agree_on, first_agreed,
  agree_on_host_key, agree_both, agree, parse_kex_init,
}
use paramiko.Base.{List, arith}
use paramiko.Wire.{pack, be_bytes}
use paramiko.Message.{
  Message, write, add_int, add_string, empty, rewind, get_list, join_commas, add_list,
}
use paramiko.Message.Stream.{unread}
use paramiko.Transport.Names.{get_list-add_list}
use paramiko.Transport.Signals.{algorithms}
use paramiko.Transport.Agreement.{crossed}
use paramiko.Transport.Peers.{some_agreed}
use paramiko.Transport.Handshake.{negotiated, negotiated-crossed}
use paramiko.Transport.Strict.{strict_kex_agreed}
use paramiko.Transport.GroupExchange.{group_exchange-offered_not_accepted}

abbrev curve : Bytes
curve = codes "curve25519-sha256@libssh.org"

abbrev group_exchange : Bytes
group_exchange = codes "diffie-hellman-group-exchange-sha256"

abbrev nothing_disabled : Algorithms
nothing_disabled = record { ciphers = []; macs = []; keys = []; kex = []; compression = [] }

abbrev pub client : Transport
client = record {
  server_mode = false;
  preferences = record {
    ciphers = codes "aes128-ctr" ∷ codes "aes256-ctr" ∷ [];
    macs = codes "hmac-sha2-256" ∷ [];
    keys = codes "ssh-ed25519" ∷ codes "rsa-sha2-512" ∷ [];
    kex = group_exchange ∷ curve ∷ [];
    compression = codes "none" ∷ [];
  };
  disabled = nothing_disabled;
  server_keys = [];
  has_modulus_pack = false;
  advertise_strict_kex = true;
  agreed_on_strict_kex = false;
  initial_kex_done = false;
  in_kex = false;
  clear_to_send = false;
  remote_ext_info = none;
  agreed = none;
}

-- It prefers the other cipher and curve, and has one kind of key.
abbrev pub server : Transport
server = record client {
  server_mode = true;
  preferences = record {
    ciphers = codes "aes256-ctr" ∷ codes "aes128-ctr" ∷ [];
    macs = codes "hmac-sha2-512" ∷ codes "hmac-sha2-256" ∷ [];
    keys = codes "ssh-ed25519" ∷ codes "rsa-sha2-512" ∷ [];
    kex = curve ∷ group_exchange ∷ [];
    compression = codes "none" ∷ [];
  };
  server_keys = codes "rsa-sha2-512" ∷ [];
  has_modulus_pack = true;
}

abbrev without_pack : Transport
without_pack = record server { has_modulus_pack = false }

names_checked :
    (lacks_modulus_pack server ≡ false)
    × (lacks_modulus_pack without_pack ≡ true)
    × (preferred_kex client ≡ group_exchange ∷ curve ∷ [])
    × (contains (preferred_kex without_pack) group_exchange ≡ true)
unfolding lacks_modulus_pack filter_algorithm filter contains eq_bytes is_group_exchange starts_with
names_checked = (refl, refl, refl, refl)

negotiated-crossed_example :
    (r : Result Agreed) × (negotiated server client ≡ some_agreed r)
    × (negotiated client server ≡ some_agreed (crossed r))
unfolding filter_algorithm filter contains eq_bytes
negotiated-crossed_example =
    negotiated-crossed client server refl refl (refl, refl, refl, refl, refl)
      (refl, refl, refl, refl, refl) names_checked.0

-- The result of that negotiation.
abbrev outcome : Bytes → Result (Option Agreed)
outcome kex = ok (
    some (record {
      kex_engine = kex;
      host_key_type = codes "rsa-sha2-512";
      local_cipher = codes "aes128-ctr";
      remote_cipher = codes "aes128-ctr";
      local_mac = codes "hmac-sha2-256";
      remote_mac = codes "hmac-sha2-256";
      local_compression = codes "none";
      remote_compression = codes "none";
    }))

-- The ends agree; without the modulus pack, both succeed and have chosen different algorithms.
negotiation_runs :
    (negotiated server client ≡ outcome group_exchange)
    × (negotiated client server ≡ outcome group_exchange)
    × (negotiated client without_pack ≡ outcome group_exchange)
    × (negotiated without_pack client ≡ outcome curve)
unfolding lacks_modulus_pack filter_algorithm filter contains eq_bytes is_group_exchange starts_with
    parse_kex_init agree agree_both agree_on_host_key first_agreed agree_on pop_each pop
    note_algorithms note_algorithm send_kex_init signals available_server_keys drop_group_exchange
    as_read is_ext_info is_kex_strict kex_strict
negotiation_runs = (refl, refl, refl, refl)

strict_kex_agreed_example :
    ((note_algorithms client 0 (send_kex_init server).1.kex_algo_list (start_noting client)).strict
      ≡ true)
    × ((note_algorithms server 0
          (send_kex_init client).1.kex_algo_list
          (start_noting server)).strict
        ≡ true)
unfolding filter_algorithm filter contains eq_bytes is_kex_strict starts_with
strict_kex_agreed_example =
    strict_kex_agreed client server refl refl refl (refl, (refl, tt)) (refl, (refl, tt))

group_exchange-offered_not_accepted_example :
    (first_agreed (
        agree_on false
          (preferred_kex client)
          (algorithms (send_kex_init without_pack).1.kex_algo_list))
      ≡ ok group_exchange)
    × All
        (λ x. is_group_exchange x ≡ false)
        (agree_on true
          (preferred_kex (send_kex_init without_pack).0)
          (algorithms (send_kex_init client).1.kex_algo_list))
unfolding is_group_exchange starts_with
group_exchange-offered_not_accepted_example =
    group_exchange-offered_not_accepted client without_pack group_exchange (curve ∷ []) refl refl
      names_checked.1 names_checked.2 refl names_checked.3

abbrev names : List Bytes
names = (97 ∷ []) ∷ (98 ∷ []) ∷ []

abbrev listed : Message
listed = elim (add_list names empty) [ ok m ↦ m | _ ↦ empty ]

get_list-add_list_example :
    ((get_list (rewind listed)).0 ≡ as_read names) × (unread (get_list (rewind listed)).1 ≡ [])
unfolding add_list join_commas add_string add_int pack be_bytes write
get_list-add_list_example =
    get_list-add_list names (((λ e. omega (arith, e)), tt), (((λ e. omega (arith, e)), tt), tt))
      refl
