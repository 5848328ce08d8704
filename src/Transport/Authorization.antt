-- ===== src/Transport/Authorization.antt =====
-- A round of the loop opens no channel before the client is authenticated.
use paramiko.Base.{
  ℕ, ◌≡◌, refl, ◌∙◌, ◌⊎◌, inl, inr, Bool, true, not, ◌&&◌, List, [], Option, none, some, if_cases,
  if◌then◌else◌, leb, ◌==◌, ==_iff, length, arith, message_order_error, Result, ok, err,
}
use paramiko.Message.{Message, get_int}
use paramiko.Auth.State.{Provider, Session, AuthHandler, new}
use paramiko.Auth.Server.{Outcome}
use paramiko.Auth.Run.{handle}
use paramiko.Auth.Attempts.{Starts}
use paramiko.Auth.Limits.{Tallies?, handle-Tallies}
use paramiko.Transport.State.{Transport}
use paramiko.Transport.Loop.{Entry, Loop, World, Out, Round, continues, breaks, raises, get_channel}
use paramiko.Transport.Dispatch.{
  member, msg_names, handler_table, channel_handler_table, enforce_strict_kex, after_channel,
  to_channel, channel_handler, parse_global_request, or_new, parse_newkeys, engine_runs,
  parsed_kex_init, negotiate_keys, run_handler, after_auth, not_implemented, or_not_implemented,
  to_auth, dispatch, expected, round,
}
use paramiko.Transport.Gate.{
  authed, StartsIfAny, IsGated, Keeps, authed_by_channel, ensure_authed-Keeps,
  parse_channel_open_success-Keeps, parse_channel_open_failure-Keeps, parse_channel_open-Keeps,
  with_channels,
}
use paramiko.Transport.Modes.{KeepsMode, parse_kex_init-KeepsMode, send_kex_init-server_mode}

-- The handler that the first keys bring authenticates nobody.
new-Starts : StartsIfAny (some new)
unfolding new
new-Starts = (λ _. omega arith, refl)

or_new-Starts : (o : Option AuthHandler) → StartsIfAny o → Starts (or_new o)
unfolding or_new
or_new-Starts none s = new-Starts
or_new-Starts (some h) s = s

or_new-gated :
    (o : Option AuthHandler) (es : List Entry)
    → (es ≡ []) ⊎ (authed o ≡ true)
    → (es ≡ []) ⊎ (authed (some (or_new o)) ≡ true)
unfolding or_new
or_new-gated none es (inl empty) = inl empty
or_new-gated none es (inr client) = absurd (let z = client in cc)
or_new-gated (some h) es gated = gated

module _ {K : Type 0} (session : Session) (provider : Provider K) (world : World K) where
  module _ (l : Loop) (g : IsGated l) where
    parse_newkeys-Keeps : (m : Message) → Keeps (parse_newkeys session provider world l)
    unfolding parse_newkeys
    parse_newkeys-Keeps m = record {
      server_mode = g.server_mode;
      starts =
          if_cases StartsIfAny l.negotiation.server_mode _ _
            (λ _. or_new-Starts l.auth_handler g.starts) (λ _. g.starts);
      gated =
          if_cases (λ o. (l.channels ≡ []) ⊎ (authed o ≡ true)) l.negotiation.server_mode _ _
            (λ _. or_new-gated l.auth_handler l.channels g.gated) (λ _. g.gated);
    }

    -- A change of what the negotiation keeps.
    negotiated :
        (t : Transport) (sent : Bool) (awaited : List ℕ)
        → t.server_mode ≡ l.negotiation.server_mode
        → IsGated (record l { negotiation = t; kex_init_sent = sent; expected_packet = awaited })
    negotiated t sent awaited mode = record {
      server_mode = mode ∙ g.server_mode;
      starts = g.starts;
      gated = g.gated;
    }

    engine_runs-Keeps :
        (r : Result (List ℕ)) (t : Transport) (sent : Bool) (out : List Out)
        → t.server_mode ≡ l.negotiation.server_mode
        → Keeps (
            engine_runs session provider world r
              (record l { negotiation = t; kex_init_sent = sent })
              out)
    unfolding engine_runs
    engine_runs-Keeps (ok awaited) t sent out mode = negotiated t sent awaited mode
    engine_runs-Keeps (err e) t sent out mode = tt

    parsed_kex_init-Keeps :
        (r : Result Transport) (t : Transport) (out : List Out)
        → KeepsMode t r
        → t.server_mode ≡ l.negotiation.server_mode
        → Keeps (
            parsed_kex_init session provider world r
              (record l { negotiation = t; kex_init_sent = true })
              out)
    unfolding parsed_kex_init
    parsed_kex_init-Keeps (ok t') t out same mode =
        engine_runs-Keeps world.kex_engine t' true out (same ∙ mode)
    parsed_kex_init-Keeps (err e) t out same mode = tt

    negotiate_keys-Keeps : (m : Message) → Keeps (negotiate_keys session provider world m l)
    unfolding negotiate_keys
    negotiate_keys-Keeps m = parsed_kex_init-Keeps _ _ _ (parse_kex_init-KeepsMode _ _ _) (
        if_cases (λ (u : Transport). u.server_mode ≡ l.negotiation.server_mode) l.kex_init_sent _ _
          (λ _. refl) λ _. send_kex_init-server_mode l.negotiation)

    run_handler-Keeps :
        (awaited : Bool) (ptype : ℕ) (m : Message)
        → (ptype ≡ 90 → authed l.auth_handler ≡ true)
        → Keeps (run_handler session provider world awaited ptype m l)
    unfolding run_handler parse_global_request
    run_handler-Keeps awaited ptype m client =
        if_cases Keeps (ptype == 21) _ _ (λ _. parse_newkeys-Keeps m)
          λ _.
            if_cases Keeps (ptype == 80) _ _ (λ _. g)
              λ _.
                if_cases Keeps (ptype == 91) _ _ (λ _. parse_channel_open_success-Keeps l g m)
                  λ _.
                    if_cases Keeps (ptype == 92) _ _
                      (λ _. parse_channel_open_failure-Keeps l g awaited m)
                      λ _.
                        if_cases Keeps (ptype == 90) _ _
                          (λ e.
                            parse_channel_open-Keeps l g world m (client ((==_iff ptype 90).0 e)))
                          λ _.
                            if_cases Keeps (ptype == 20) _ _ (λ _. negotiate_keys-Keeps m) (λ _. g)

    to_channel-Keeps :
        (ptype : ℕ) (m : Message) → Keeps (to_channel session provider world ptype m l)
    unfolding to_channel after_channel
    to_channel-Keeps ptype m =
        let chanid = (get_int m).0 in
        elim (get_channel chanid l.channels)
            as (λ o.
              get_channel chanid l.channels ≡ o
              → Keeps (elim o [
                | some c ↦
                    after_channel chanid l
                      (channel_handler session provider world ptype (get_int m).1 c)
                | none ↦ if member chanid l.channels_seen then continues l [] else breaks l []
              ])) [
                | none ↦ λ e. if_cases Keeps (member chanid l.channels_seen) _ _ (λ _. g) (λ _. tt)
                | some c ↦ λ e.
                    with_channels l g _ _ _
                      (authed_by_channel chanid l.channels c l.auth_handler g.gated e)
              ]
          refl

    not_implemented-Keeps : (ptype : ℕ) → Keeps (not_implemented session provider world ptype l)
    unfolding not_implemented
    not_implemented-Keeps ptype =
        if_cases Keeps (not (member ptype msg_names)) _ _ (λ _. tt)
          λ _. if_cases Keeps (ptype == 3) _ _ (λ _. g) (λ _. g)

    or_not_implemented-Keeps :
        (o : Option Outcome) (h : AuthHandler) (ptype : ℕ)
        → Tallies? h o
        → (l.channels ≡ []) ⊎ (h.authenticated ≡ true)
        → Keeps (or_not_implemented session provider world o ptype l)
    unfolding or_not_implemented after_auth
    or_not_implemented-Keeps none h ptype t gated = not_implemented-Keeps ptype
    or_not_implemented-Keeps (some (d, out, some e)) h ptype t gated = tt
    or_not_implemented-Keeps (some (d, out, none)) h ptype t gated = record {
      server_mode = g.server_mode;
      starts = (t.closes, t.told);
      gated = elim gated [ inl empty ↦ inl empty | inr client ↦ inr (t.keeps client) ];
    }

    to_auth-Keeps :
        session.server_mode ≡ true
        → (ptype : ℕ) (m : Message) → Keeps (to_auth session provider world ptype m l)
    unfolding to_auth
    to_auth-Keeps mode ptype m =
        elim l.auth_handler
            as (λ o.
              StartsIfAny o
              → (l.channels ≡ []) ⊎ (authed o ≡ true)
              → Keeps (elim o [
                | none ↦ not_implemented session provider world ptype l
                | some h ↦
                    or_not_implemented session provider world
                      (handle session provider world.server ptype m h) ptype l
              ])) [
                | none ↦ λ s gated. not_implemented-Keeps ptype
                | some h ↦ λ s gated.
                    or_not_implemented-Keeps (handle session provider world.server ptype m h) h
                      ptype (handle-Tallies session provider mode world.server ptype m h s) gated
              ]
          g.starts g.gated

    dispatch-Keeps :
        session.server_mode ≡ true
        → (awaited : Bool) (ptype : ℕ) (m : Message)
        → Keeps (dispatch session provider world awaited ptype m l)
    unfolding dispatch
    dispatch-Keeps mode awaited ptype m =
        if_cases Keeps (member ptype handler_table) _ _
          (λ _.
            ensure_authed-Keeps l g ptype m _
              (λ low. run_handler-Keeps awaited ptype m (λ e. absurd (ground arith)))
              (λ client. run_handler-Keeps awaited ptype m (λ _. client)))
          λ _.
            if_cases Keeps (member ptype channel_handler_table) _ _ (λ _. to_channel-Keeps ptype m)
              (λ _. to_auth-Keeps mode ptype m)

  pub round-Keeps :
      session.server_mode ≡ true
      → (awaited : Bool) (ptype : ℕ) (m : Message) (l : Loop) → IsGated l
      → Keeps (round session provider world awaited ptype m l)
  unfolding round enforce_strict_kex expected
  round-Keeps mode awaited ptype m l g =
      let strict = λ (next : Round) (k : Keeps next).
        if_cases Keeps (l.negotiation.agreed_on_strict_kex && not l.negotiation.initial_kex_done)
          (raises message_order_error l []) next (λ _. tt) (λ _. k) in
      let used = negotiated l g l.negotiation l.kex_init_sent [] refl in
      if_cases Keeps (ptype == 2) _ _ (λ _. strict (continues l []) g)
        λ _.
          if_cases Keeps (ptype == 1) _ _ (λ _. tt)
            λ _.
              if_cases Keeps (ptype == 4) _ _ (λ _. strict (continues l []) g)
                λ _.
                  if_cases Keeps (length l.expected_packet == 0) _ _
                    (λ _. dispatch-Keeps l g mode awaited ptype m)
                    λ _.
                      if_cases Keeps (member ptype l.expected_packet) _ _
                        (λ _.
                          if_cases Keeps (leb 30 ptype && leb ptype 41) _ _
                            (λ _.
                              engine_runs-Keeps _ used world.kex_engine l.negotiation
                                l.kex_init_sent [] refl)
                            (λ _. dispatch-Keeps _ used mode awaited ptype m))
                        (λ _. tt)
