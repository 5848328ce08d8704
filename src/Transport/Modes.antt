-- ===== src/Transport/Modes.antt =====
-- The negotiation of algorithms does not turn a server into a client.
use paramiko.Base.{
  ℕ, ◌≡◌, refl, not, ◌&&◌, some, if_cases, ◌==◌, message_order_error, Result, ok, err, ◌>>=◌,
}
use paramiko.Transport.State.{Agreed, Transport}
use paramiko.Transport.Negotiation.{
  KexInit, note_algorithms, start_noting, pop_each, agree, send_kex_init, parse_kex_init,
  drop_group_exchange, lacks_modulus_pack,
}

-- A negotiation that succeeds leaves the end a client or a server.
abbrev pub KeepsMode : Transport → Result Transport → Type 0
KeepsMode t (ok t') = t'.server_mode ≡ t.server_mode
KeepsMode t (err e) = Unit

agreed-KeepsMode :
    (t t' : Transport) (r : Result Agreed)
    → t'.server_mode ≡ t.server_mode
    → KeepsMode t (do agreed ← r; ok (record t' { agreed = some agreed }))
agreed-KeepsMode t t' (ok agreed) same = same
agreed-KeepsMode t t' (err e) same = tt

pub parse_kex_init-KeepsMode :
    (seqno : ℕ) (k : KexInit) (t : Transport) → KeepsMode t (parse_kex_init seqno k t)
unfolding parse_kex_init
parse_kex_init-KeepsMode seqno k t =
    let noted = note_algorithms t 0 k.kex_algo_list (start_noting t) in
    let t' = record t { remote_ext_info = noted.ext_info; agreed_on_strict_kex = noted.strict } in
    if_cases (KeepsMode t) (noted.strict && (not t.initial_kex_done && not (seqno == 0)))
      (err message_order_error) _ (λ _. tt)
      λ _. agreed-KeepsMode t t' (agree t' (pop_each noted.to_pop k.kex_algo_list) k) refl

pub send_kex_init-server_mode : (t : Transport) → (send_kex_init t).0.server_mode ≡ t.server_mode
unfolding send_kex_init drop_group_exchange
send_kex_init-server_mode t =
    if_cases (λ (u : Transport). u.server_mode ≡ t.server_mode) (lacks_modulus_pack t) _ _
      (λ _. refl) (λ _. refl)
