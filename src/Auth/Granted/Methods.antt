-- ===== src/Auth/Granted/Methods.antt =====
-- When the parts of a server's handlers leave it authenticated.
use paramiko.Base.{
  ℕ, ◌≡◌, ◌↔◌, refl, sym, ap, ◌∙◌, Bool, true, false, Bytes, Option, none, some, if◌then◌else◌,
  arith,
}
use paramiko.Auth.State.{
  AuthResult, successful, partially_successful, failed, Answer, result, query, ServerObject,
  Provider, Session, AuthHandler, auth_reply, trigger_if, auth_trigger, send_auth_result,
  disconnect_no_more_auth,
}
use paramiko.Auth.Server.{
  get_session_blob, answer, answer_interactive, answer_publickey, publickey_request,
  with_mic_request, keyex_checked, keyex_request,
}

some-injective {ℓ} : {A : Type ℓ} {x y : A} → some x ≡ some y → x ≡ y
some-injective h = cc

iff_trans {ℓ κ μ} : {A : Type ℓ} {B : Type κ} {C : Type μ} → A ↔ B → B ↔ C → A ↔ C
iff_trans p q = (λ a. q.0 (p.0 a), λ c. p.1 (q.1 c))

-- A signature that does not verify turns every outcome into a failure.
signed_iff :
    (outcome : AuthResult) (valid : Bool)
    → ((if valid then outcome else failed) ≡ successful)
      ↔ ((outcome ≡ successful) × (◌≡◌ {A = Bool} true true) × (valid ≡ true))
signed_iff outcome true = (λ k. (k, refl, refl), λ k. k.0)
signed_iff outcome false = (λ k. cc, λ (_, _, valid). cc)

-- A handler's outcome grants the authentication exactly when `P` holds.
abbrev pub GrantsWhen : AuthHandler → Type 0 → Type 0
GrantsWhen h P = (h.authenticated ≡ true) ↔ P

module _ {K : Type 0} (session : Session) (provider : Provider K) (server : ServerObject K) where
  send_auth_result-authenticated :
      (allowed : Bytes) (outcome : AuthResult) (h : AuthHandler)
      → h.authenticated ≡ false
      → ((send_auth_result allowed outcome h).0.authenticated ≡ true) ↔ (outcome ≡ successful)
  unfolding send_auth_result auth_reply trigger_if auth_trigger disconnect_no_more_auth
  send_auth_result-authenticated allowed successful h e = (λ k. refl, λ k. ground arith)
  send_auth_result-authenticated allowed partially_successful h e =
      (λ k. ground arith, λ k. ground arith)
  send_auth_result-authenticated allowed failed h e = (λ k. ground arith, λ k. ground arith)

  pub answer-GrantsWhen :
      (username : Option Bytes) (outcome : AuthResult) (h : AuthHandler)
      → h.authenticated ≡ false
      → GrantsWhen (answer session provider server username outcome h).0 (outcome ≡ successful)
  unfolding answer
  answer-GrantsWhen username outcome h e =
      send_auth_result-authenticated (server.get_allowed_auths username) outcome h e

  pub answer_interactive-GrantsWhen :
      (username : Option Bytes) (a : Answer) (h : AuthHandler)
      → h.authenticated ≡ false
      → GrantsWhen
          (answer_interactive session provider server username a h).0
          (a ≡ result successful)
  unfolding answer_interactive
  answer_interactive-GrantsWhen username (result outcome) h e =
      let (grants, granted) = answer-GrantsWhen username outcome h e in
      (λ k. ap result (grants k), λ k. granted (cc))
  answer_interactive-GrantsWhen username (query q) h e = (λ k. cc, λ k. cc)

  answer_publickey-GrantsWhen :
      (outcome : AuthResult) (sig_attached : Bool) (key : K)
      (service username algorithm keyblob sig : Bytes) (h : AuthHandler)
      → h.authenticated ≡ false
      → GrantsWhen
          (answer_publickey session provider server outcome sig_attached key service username
            algorithm keyblob sig h).0
          ((outcome ≡ successful)
            × (sig_attached ≡ true)
            × (provider.verify_ssh_sig key
                  (get_session_blob session provider key service username algorithm)
                  sig
                ≡ true))
  unfolding answer_publickey
  answer_publickey-GrantsWhen failed attached key service username algorithm keyblob sig h e =
      let (grants, _) = answer-GrantsWhen (some username) failed h e in
      (λ k. absurd (let z = grants k in cc), λ (o, _, _). absurd (cc o))
  answer_publickey-GrantsWhen successful false key service username algorithm keyblob sig h e =
      (λ k. cc, λ (_, attached, _). cc)
  answer_publickey-GrantsWhen partially_successful false key service username algorithm keyblob sig
        h e =
      (λ k. cc, λ (_, attached, _). cc)
  answer_publickey-GrantsWhen successful true key service username algorithm keyblob sig h e =
      iff_trans (answer-GrantsWhen (some username) _ h e) (signed_iff successful _)
  answer_publickey-GrantsWhen partially_successful true key service username algorithm keyblob sig h
        e =
      iff_trans (answer-GrantsWhen (some username) _ h e) (signed_iff partially_successful _)

  pub publickey_request-GrantsWhen :
      (loaded : Option K) (sig_attached : Bool) (service username algorithm keyblob sig : Bytes)
      (h : AuthHandler)
      → h.authenticated ≡ false
      → GrantsWhen
          (publickey_request session provider server loaded sig_attached service username algorithm
            keyblob sig h).0
          ((key : K) × (loaded ≡ some key)
            × (server.check_auth_publickey username key ≡ successful)
            × (sig_attached ≡ true)
            × (provider.verify_ssh_sig key
                  (get_session_blob session provider key service username algorithm)
                  sig
                ≡ true))
  unfolding publickey_request disconnect_no_more_auth
  publickey_request-GrantsWhen none attached service username algorithm keyblob sig h e =
      (λ k. cc, λ (key, found, _, _, _). cc)
  publickey_request-GrantsWhen (some key) attached service username algorithm keyblob sig h e =
      let (grants, granted) =
        answer_publickey-GrantsWhen (server.check_auth_publickey username key) attached key service
          username algorithm keyblob sig h e in
      (
        λ k. let (checked, signed, valid) = grants k in (key, refl, checked, signed, valid),
        λ (key', found, checked, signed, valid).
            let same = some-injective found in
            granted (
              ap (server.check_auth_publickey username) same ∙ checked,
              signed,
              ap
                    (λ x.
                      provider.verify_ssh_sig x
                        (get_session_blob session provider x service username algorithm) sig)
                    same
                  ∙ valid,
            ),
      )

  pub with_mic_request-authenticated :
      (mechs : ℕ) (mech : Bytes) (h : AuthHandler)
      → (with_mic_request session provider server mechs mech h).0.authenticated ≡ h.authenticated
  unfolding with_mic_request disconnect_no_more_auth
  with_mic_request-authenticated mechs mech h = ground arith

  keyex_checked-GrantsWhen :
      (valid : Bool) (username : Bytes) (h : AuthHandler)
      → h.authenticated ≡ false
      → GrantsWhen (keyex_checked session provider server valid username h).0 (valid ≡ true)
  unfolding keyex_checked answer
  keyex_checked-GrantsWhen true username h e =
      let (_, granted) = answer-GrantsWhen (some username) successful h e in
      (λ k. refl, λ k. granted refl)
  keyex_checked-GrantsWhen false username h e =
      let (grants, _) = answer-GrantsWhen (some username) failed h e in
      (λ k. let z = grants k in cc, λ k. cc)

  pub keyex_request-GrantsWhen :
      (context : Option (Bytes → Bytes → Option Bytes → Bool)) (username mic : Bytes)
      (h : AuthHandler)
      → h.authenticated ≡ false
      → h.auth_username ≡ some username
      → GrantsWhen (keyex_request session provider server context username mic h).0 (
          (check : (Bytes → Bytes → Option Bytes → Bool)) × (context ≡ some check)
          × (check mic session.session_id (some username) ≡ true))
  unfolding keyex_request send_auth_result auth_reply trigger_if disconnect_no_more_auth
  keyex_request-GrantsWhen none username mic h e user = (λ k. ground arith, λ (check, found, _). cc)
  keyex_request-GrantsWhen (some check) username mic h e user =
      let known = ap (check mic session.session_id) user in
      let (grants, granted) =
        keyex_checked-GrantsWhen (check mic session.session_id h.auth_username) username h e in
      (
        λ k. (check, refl, sym known ∙ grants k),
        λ (check', found, valid). granted (
            known
            ∙ ap (λ f. f mic session.session_id (some username)) (some-injective found)
            ∙ valid),
      )
