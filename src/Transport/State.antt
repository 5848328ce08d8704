-- ===== src/Transport/State.antt =====
-- The algorithms that a transport prefers, and its state in the negotiation.
use paramiko.Base.{
  Bool, true, false, not, List, ◌++◌, Bytes, Option, map, filter, codes, contains, starts_with,
}

-- One list for each kind of algorithm.
pub record Algorithms : Type 0 where
  pub ciphers : List Bytes
  pub macs : List Bytes
  pub keys : List Bytes
  pub kex : List Bytes
  pub compression : List Bytes

-- What `_parse_kex_init` sets when the peers agree.
pub record Agreed : Type 0 where
  pub kex_engine : Bytes
  pub host_key_type : Bytes
  pub local_cipher : Bytes
  pub remote_cipher : Bytes
  pub local_mac : Bytes
  pub remote_mac : Bytes
  pub local_compression : Bytes
  pub remote_compression : Bytes

-- `preferences` holds the `_preferred_*` attributes, `disabled` the lists of `disabled_algorithms`,
-- `server_keys` the keys of `server_key_dict`, `has_modulus_pack` whether `_modulus_pack` is set.
pub record Transport : Type 0 where
  pub server_mode : Bool
  pub preferences : Algorithms
  pub disabled : Algorithms
  pub server_keys : List Bytes
  pub has_modulus_pack : Bool
  pub advertise_strict_kex : Bool
  pub agreed_on_strict_kex : Bool
  pub initial_kex_done : Bool
  pub in_kex : Bool
  pub clear_to_send : Bool
  pub remote_ext_info : Option Bytes
  pub agreed : Option Agreed

-- `_filter_algorithm`
unfoldable pub filter_algorithm : List Bytes → List Bytes → List Bytes
filter_algorithm default disabled = filter (λ x. not (contains disabled x)) default

abbrev pub preferred_ciphers : Transport → List Bytes
preferred_ciphers t = filter_algorithm t.preferences.ciphers t.disabled.ciphers

abbrev pub preferred_macs : Transport → List Bytes
preferred_macs t = filter_algorithm t.preferences.macs t.disabled.macs

-- The plain key types, then their variants with certificates.
abbrev pub preferred_keys : Transport → List Bytes
preferred_keys t =
    let filtered = filter_algorithm t.preferences.keys t.disabled.keys in
    filtered ++ map (λ x. x ++ codes "-cert-v01@openssh.com") filtered

abbrev pub preferred_kex : Transport → List Bytes
preferred_kex t = filter_algorithm t.preferences.kex t.disabled.kex

abbrev pub preferred_compression : Transport → List Bytes
preferred_compression t = filter_algorithm t.preferences.compression t.disabled.compression

-- The names in a list of key exchange algorithms that stand for something else.
unfoldable pub is_ext_info : Bytes → Bool
is_ext_info algo = starts_with (codes "ext-info-") algo

unfoldable pub is_kex_strict : Bytes → Bool
is_kex_strict algo = starts_with (codes "kex-strict-") algo

-- `f"kex-strict-{which}-v00@openssh.com"`, for the end that sends it: "s" in server mode.
unfoldable pub kex_strict : Bool → Bytes
kex_strict true = codes "kex-strict-s-v00@openssh.com"
kex_strict false = codes "kex-strict-c-v00@openssh.com"

unfoldable pub is_group_exchange : Bytes → Bool
is_group_exchange algo = starts_with (codes "diffie-hellman-group-exchange-sha") algo
