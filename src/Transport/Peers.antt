-- ===== src/Transport/Peers.antt =====
-- A client and a server of this implementation, each with the KEXINIT of the other.
use paramiko.Base.{
  ◌≡◌, refl, sym, ap, ◌∙◌, inl, inr, Bool, true, false, not, ◌&&◌, List, [], ◌∷◌, ◌++◌, Bytes,
  Bool-cases, if◌then◌else◌, Option, some, filter, contains, contains-filter, Result, ok, err,
  ◌>>=◌, arith, ◌==◌, incompatible_peer,
}
use paramiko.Transport.State.{
  Agreed, Transport, preferred_ciphers, preferred_macs, preferred_keys, preferred_kex,
  preferred_compression,
}
use paramiko.Transport.Negotiation.{
  KexInit, as_read, available_server_keys, signals, send_kex_init, start_noting, note_algorithms,
  agree_on, first_agreed, agree_on_host_key, agree_both, agree, parse_kex_init,
}
use paramiko.Transport.Signals.{algorithms, popped_algorithms}
use paramiko.Transport.Agreement.{
  Unnamed, AreNames, agree_on-crossed, kex-crossed, both-crossed, crossed, crossed_pair, assemble,
  assemble-crossed,
}

-- What a transport agrees to, or the error that it raises.
abbrev pub agreed_by : Result Transport → Result (Option Agreed)
agreed_by (err e) = err e
agreed_by (ok t) = ok t.agreed

abbrev pub some_agreed : Result Agreed → Result (Option Agreed)
some_agreed (err e) = err e
some_agreed (ok a) = ok (some a)

agreed_by-ok :
    (r : Result Agreed) (t : Transport)
    → agreed_by (do a ← r; ok (record t { agreed = some a })) ≡ some_agreed r
agreed_by-ok (err e) t = refl
agreed_by-ok (ok a) t = refl

-- The first message of a connection passes the test of strict mode.
first_message : (strict done : Bool) → strict && (not done && not (0 == 0)) ≡ false
first_message strict done = ground arith

pub agreed_by-parse_kex_init :
    (k : KexInit) (t : Transport)
    → agreed_by (parse_kex_init 0 k t) ≡ some_agreed (agree t (algorithms k.kex_algo_list) k)
unfolding parse_kex_init agree agree_on_host_key available_server_keys
agreed_by-parse_kex_init k t =
    let noted = note_algorithms t 0 k.kex_algo_list (start_noting t) in
    let t' = record t { remote_ext_info = noted.ext_info; agreed_on_strict_kex = noted.strict } in
    rw (first_message noted.strict t.initial_kex_done, popped_algorithms t k.kex_algo_list)
      (agreed_by-ok (agree t (algorithms k.kex_algo_list) k) t')

-- `agree_on_host_key` by the parts of the transport that it reads.
abbrev host_key_of : Bool → List Bytes → List Bytes → List Bytes → Result Bytes
host_key_of server_mode server_keys preferred offered = do
  host_key ← first_agreed (
      agree_on server_mode
        (if server_mode then filter (contains server_keys) preferred else preferred) offered)
  (if server_mode && not (contains server_keys host_key)
      then err incompatible_peer
      else ok host_key)

-- A server's own test of the host key never fails: the key type is one of its keys.
known_key :
    (keys preferred offered : List Bytes)
    → host_key_of true keys preferred offered
      ≡ first_agreed (agree_on true (filter (contains keys) preferred) offered)
unfolding first_agreed agree_on filter
known_key keys preferred [] = refl
known_key keys preferred (x ∷ xs) =
    let more = known_key keys preferred xs in
    let found = contains-filter (contains keys) preferred x in
    elim (Bool-cases (contains (filter (contains keys) preferred) x)) [
      | inl e ↦ rw (e, (found e).0)
      | inr e ↦ rw e more
    ]

client_key :
    (keys preferred offered : List Bytes)
    → host_key_of false keys preferred offered ≡ first_agreed (agree_on false preferred offered)
client_key keys preferred offered =
    elim (first_agreed (agree_on false preferred offered)) as (λ r. (do k ← r; ok k) ≡ r) [
      | err e ↦ refl
      | ok k ↦ refl
    ]

Unnamed-filter : (p : Bytes → Bool) (names : List Bytes) → Unnamed names → Unnamed (filter p names)
Unnamed-filter p names h = elim (Bool-cases (contains (filter p names) [])) [
  | inl e ↦ absurd (let k = (contains-filter p names [] e).1 in cc)
  | inr e ↦ e
]

host_key-crossed :
    (c s : Transport)
    → c.server_mode ≡ false
    → s.server_mode ≡ true
    → Unnamed (preferred_keys c)
    → Unnamed (preferred_keys s)
    → agree_on_host_key c (as_read (available_server_keys s))
      ≡ agree_on_host_key s (as_read (available_server_keys c))
unfolding agree_on_host_key available_server_keys
host_key-crossed c s hc hs uc us =
    let pc = preferred_keys c in
    let ps = preferred_keys s in
    let available = filter (contains s.server_keys) ps in
    let client = ap (λ m. host_key_of m c.server_keys pc (as_read available)) hc in
    let server = ap (λ m. host_key_of m s.server_keys ps (as_read pc)) hs in
    let offered_s =
      ap (λ m. host_key_of c.server_mode c.server_keys pc (as_read (if m then available else ps)))
        hs in
    let offered_c =
      ap
        (λ m.
          host_key_of s.server_mode s.server_keys ps
            (as_read (if m then filter (contains c.server_keys) pc else pc)))
        hc in
    offered_s
    ∙ client
    ∙ client_key c.server_keys pc (as_read available)
    ∙ ap first_agreed
        (agree_on-crossed pc available uc (Unnamed-filter (contains s.server_keys) ps us))
    ∙ sym (known_key s.server_keys ps (as_read pc))
    ∙ sym server
    ∙ sym offered_c

both_ends :
    {m n : Bool}
    → m ≡ false
    → n ≡ true
    → (client server : List Bytes) → Unnamed client
    → Unnamed server
    → agree_both m client (as_read server) (as_read server)
      ≡ crossed_pair (agree_both n server (as_read client) (as_read client))
both_ends hm hn client server hc hs = rw (hm, hn) (both-crossed client server hc hs)

-- The two ends agree before either records it.
pub agree-crossed :
    (c s : Transport)
    → c.server_mode ≡ false
    → s.server_mode ≡ true
    → AreNames c
    → AreNames s
    → agree c (algorithms (send_kex_init s).1.kex_algo_list) (send_kex_init s).1
      ≡ crossed (agree s (algorithms (send_kex_init c).1.kex_algo_list) (send_kex_init c).1)
unfolding agree send_kex_init
agree-crossed c s hc hs (ck, cy, cc_, cm, cz) (sk, sy, sc, sm, sz) =
    let kex =
      ap
        (λ m.
          first_agreed
            (agree_on m (preferred_kex c) (algorithms (as_read (preferred_kex s ++ signals s)))))
        hc
      ∙ ap first_agreed (kex-crossed c s (preferred_kex c) (preferred_kex s) ck sk)
      ∙ ap
          (λ m.
            first_agreed
              (agree_on m (preferred_kex s) (algorithms (as_read (preferred_kex c ++ signals c)))))
          (sym hs) in
    let key = host_key-crossed c s hc hs cy sy in
    let ciphers = both_ends hc hs (preferred_ciphers c) (preferred_ciphers s) cc_ sc in
    let macs = both_ends hc hs (preferred_macs c) (preferred_macs s) cm sm in
    let compressions = both_ends hc hs (preferred_compression c) (preferred_compression s) cz sz in
    (λ i. assemble (kex i) (key i) (ciphers i) (macs i) (compressions i))
    ∙ assemble-crossed (kex 1) (key 1)
        (agree_both s.server_mode (preferred_ciphers s) (as_read (preferred_ciphers c))
          (as_read (preferred_ciphers c)))
        (agree_both s.server_mode (preferred_macs s) (as_read (preferred_macs c))
          (as_read (preferred_macs c)))
        (agree_both s.server_mode (preferred_compression s) (as_read (preferred_compression c))
          (as_read (preferred_compression c)))
