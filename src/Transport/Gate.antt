-- ===== src/Transport/Gate.antt =====
-- What a server does for a client that it has not authenticated.
use paramiko.Base.{
  ℕ, ◌≡◌, refl, ap, ◌⊎◌, inl, inr, Bool, true, false, not, ◌&&◌, ◌||◌, List, [], ◌∷◌, Bytes, Option,
  none, some, if_cases, if◌then◌else◌, leb, ◌==◌, arith, attribute_error, ok, err,
}
use paramiko.Message.{Message, get_int}
use paramiko.Channel.State.{Channel, set_remote_channel}
use paramiko.Auth.State.{AuthHandler}
use paramiko.Auth.Attempts.{Starts}
use paramiko.Transport.Loop.{
  Entry, Loop, World, Round, continues, breaks, raises, get_channel, delete_channel, put_channel,
  is_authenticated, next_free, next_id,
}
use paramiko.Transport.Channels.{
  Decision, refuse, accept, next_channel, finish_open, open_with, decide, has_handler,
  parse_channel_open, parse_channel_open_success, parse_channel_open_failure,
}
use paramiko.Transport.Dispatch.{refuse_unauthed, if_authed, ensure_authed}

-- The handler has authenticated the client.
abbrev pub authed : Option AuthHandler → Bool
authed none = false
authed (some h) = h.authenticated

abbrev pub StartsIfAny : Option AuthHandler → Type 0
StartsIfAny none = Unit
StartsIfAny (some h) = Starts h

-- A server has no channel before it has authenticated the client.
pub record IsGated (l : Loop) : Type 0 where
  pub server_mode : l.negotiation.server_mode ≡ true
  pub starts : StartsIfAny l.auth_handler
  pub gated : (l.channels ≡ []) ⊎ (authed l.auth_handler ≡ true)

-- A round that goes on, goes on from a gated state.
abbrev pub Keeps : Round → Type 0
Keeps (continues l out) = IsGated l
Keeps (breaks l out) = Unit
Keeps (raises e l out) = Unit

-- A channel in the map shows that the client is authenticated.
pub authed_by_channel :
    (chanid : ℕ) (es : List Entry) (c : Channel) (o : Option AuthHandler)
    → (es ≡ []) ⊎ (authed o ≡ true)
    → get_channel chanid es ≡ some c
    → authed o ≡ true
unfolding get_channel
authed_by_channel chanid es c o (inr client) found = client
authed_by_channel chanid [] c o (inl none_left) found = absurd (let z = found in cc)
authed_by_channel chanid (e ∷ es) c o (inl none_left) found = absurd (let z = none_left in cc)

authed_handler :
    (active : Bool) (o : Option AuthHandler)
    → (if active
        then elim o [
          | none ↦ ok false
          | some h ↦ if h.with_mic then err attribute_error else ok h.authenticated
        ]
        else ok false)
      ≡ ok true
    → authed o ≡ true
authed_handler active none h = ground arith
authed_handler active (some k) h = ground arith

authed_client : (l : Loop) → is_authenticated l ≡ ok true → authed l.auth_handler ≡ true
unfolding is_authenticated
authed_client l h = authed_handler l.active l.auth_handler h

module _ (l : Loop) (g : IsGated l) where
  -- What stands behind the test of the client is reached below it, or with the client authenticated.
  pub ensure_authed-Keeps :
      (ptype : ℕ) (m : Message) (next : Round)
      → (leb ptype 79 ≡ true → Keeps next)
      → (authed l.auth_handler ≡ true → Keeps next)
      → Keeps (ensure_authed ptype m l next)
  unfolding ensure_authed if_authed refuse_unauthed
  ensure_authed-Keeps ptype m next low later =
      if_cases Keeps (not l.negotiation.server_mode || leb ptype 79) next _
        (λ e. low (let z = g.server_mode in ground arith))
        λ _.
          elim (is_authenticated l)
              as (λ r. is_authenticated l ≡ r → Keeps (if_authed r ptype m l next)) [
                | ok true ↦ λ e. later (authed_client l e)
                | ok false ↦ λ e.
                    if_cases Keeps (ptype == 80) _ _ (λ _. g)
                      λ _. if_cases Keeps (ptype == 90) _ _ (λ _. g) (λ _. tt)
                | err x ↦ λ e. tt
              ]
            refl

  -- The channels may change for an authenticated client.
  pub with_channels :
      (es : List Entry) (seen : List ℕ) (counter : ℕ)
      → authed l.auth_handler ≡ true
      → IsGated (record l { channels = es; channels_seen = seen; channel_counter = counter })
  with_channels es seen counter client = record {
    server_mode = g.server_mode;
    starts = g.starts;
    gated = inr client;
  }

  pub parse_channel_open_success-Keeps : (m : Message) → Keeps (parse_channel_open_success m l)
  unfolding parse_channel_open_success
  parse_channel_open_success-Keeps m =
      let chanid = (get_int m).0 in
      elim (get_channel chanid l.channels)
          as (λ o.
            get_channel chanid l.channels ≡ o
            → Keeps (elim o [
              | none ↦ continues l []
              | some c ↦
                  continues
                    (record l {
                      channels =
                          put_channel chanid
                            (set_remote_channel (get_int (get_int m).1).0
                              (get_int (get_int (get_int m).1).1).0
                              (get_int (get_int (get_int (get_int m).1).1).1).0 c)
                            l.channels;
                    })
                    []
            ])) [
              | none ↦ λ e. g
              | some c ↦ λ e.
                  with_channels _ _ _
                    (authed_by_channel chanid l.channels c l.auth_handler g.gated e)
            ]
        refl

  pub parse_channel_open_failure-Keeps :
      (awaited : Bool) (m : Message) → Keeps (parse_channel_open_failure awaited m l)
  unfolding parse_channel_open_failure delete_channel
  parse_channel_open_failure-Keeps false m = g
  parse_channel_open_failure-Keeps true m = record {
    server_mode = g.server_mode;
    starts = g.starts;
    gated = elim g.gated [
      | inl empty ↦ inl (ap (delete_channel (get_int m).0) empty)
      | inr client ↦ inr client
    ];
  }

  module _ {K : Type 0} (world : World K) where
    finish_open-Keeps :
        (chanid window packet counter : ℕ) (d : Decision)
        → authed l.auth_handler ≡ true
        → Keeps (finish_open world chanid window packet d (record l { channel_counter = counter }))
    unfolding finish_open
    finish_open-Keeps chanid window packet counter (refuse reason) client =
        with_channels l.channels l.channels_seen counter client
    finish_open-Keeps chanid window packet counter (accept my_chanid) client =
        with_channels _ _ counter client

    open_with-Keeps :
        (o : Option ℕ) (kind : Bytes) (chanid window packet : ℕ) (m : Message)
        → authed l.auth_handler ≡ true
        → Keeps (
            open_with world
              (elim o [ none ↦ none | some n ↦ some (n, record l { channel_counter = next_id n }) ])
              kind
              chanid
              window
              packet
              m
              l)
    unfolding open_with
    open_with-Keeps none kind chanid window packet m client = g
    open_with-Keeps (some n) kind chanid window packet m client =
        let d = decide world l.negotiation.server_mode kind n m in
        if_cases (λ l'. Keeps (finish_open world chanid window packet d l'))
          (not (has_handler world kind) && not l.negotiation.server_mode) _ _
          (λ _. finish_open-Keeps chanid window packet l.channel_counter d client)
          (λ _. finish_open-Keeps chanid window packet (next_id n) d client)

    pub parse_channel_open-Keeps :
        (m : Message) → authed l.auth_handler ≡ true → Keeps (parse_channel_open world m l)
    unfolding parse_channel_open next_channel
    parse_channel_open-Keeps m client = open_with-Keeps (next_free _ l.channels _) _ _ _ _ _ client
