-- ===== src/Transport/Handshake.antt =====
-- The first key exchange of a client and a server of this implementation.
use paramiko.Base.{◌≡◌, ap, ◌∙◌, true, false, ◌&&◌, not, ltb, length, filter, Option, Result}
use paramiko.Transport.State.{Agreed, Transport, preferred_kex, is_group_exchange}
use paramiko.Transport.Negotiation.{
  lacks_modulus_pack, drop_group_exchange, available_server_keys, send_kex_init, agree_on_host_key,
  agree, parse_kex_init,
}
use paramiko.Transport.Signals.{algorithms}
use paramiko.Transport.Agreement.{AreNames, crossed}
use paramiko.Transport.Peers.{agreed_by, some_agreed, agreed_by-parse_kex_init, agree-crossed}

-- What `t` makes of the first message of `peer`, after it has sent its own.
abbrev pub negotiated : Transport → Transport → Result (Option Agreed)
negotiated t peer = agreed_by (parse_kex_init 0 (send_kex_init peer).1 (send_kex_init t).0)

-- Where no group exchange is dropped, the preferences are those that were sent.
negotiated_lem :
    (t peer : Transport)
    → lacks_modulus_pack t ≡ false
    → negotiated t peer
      ≡ some_agreed
          (agree t (algorithms (send_kex_init peer).1.kex_algo_list) (send_kex_init peer).1)
unfolding send_kex_init drop_group_exchange agree agree_on_host_key available_server_keys
negotiated_lem t peer h =
    let t' = record t { in_kex = true; clear_to_send = false } in
    rw h (agreed_by-parse_kex_init (send_kex_init peer).1 t')

client_lacks_nothing : (c : Transport) → c.server_mode ≡ false → lacks_modulus_pack c ≡ false
unfolding lacks_modulus_pack
client_lacks_nothing c h =
    ap
      (λ m.
        m
        && (not c.has_modulus_pack && ltb 0 (length (filter is_group_exchange (preferred_kex c)))))
      h

-- A client and a server that exchange their first KEXINIT messages come to the same end. Either both
-- raise the same error, or both agree on the same key exchange and the same type of host key, and
-- the cipher, the MAC and the compression that one end has for its outbound traffic are those
-- that the other has for its inbound traffic. No name may be empty, and the server must have its
-- modulus pack, or prefer no group exchange.
pub negotiated-crossed :
    (c s : Transport)
    → c.server_mode ≡ false
    → s.server_mode ≡ true
    → AreNames c
    → AreNames s
    → lacks_modulus_pack s ≡ false
    → (r : Result Agreed) × (negotiated s c ≡ some_agreed r)
      × (negotiated c s ≡ some_agreed (crossed r))
negotiated-crossed c s hc hs nc ns ready = (
  agree s (algorithms (send_kex_init c).1.kex_algo_list) (send_kex_init c).1,
  negotiated_lem s c ready,
  negotiated_lem c s (client_lacks_nothing c hc) ∙ ap some_agreed (agree-crossed c s hc hs nc ns),
)
