-- ===== src/Transport/Reached.antt =====
-- The states that the loop of `Transport.run` reaches, round by round.
use mathlib.Core.Path.{subst}
use paramiko.Base.{ℕ, ◌≡◌, sym, inl, Bool, true, List, [], none, some}
use paramiko.Message.{Message}
use paramiko.Channel.State.{Channel}
use paramiko.Auth.State.{Provider, Session}
use paramiko.Transport.Loop.{Loop, World, Out, continues, get_channel}
use paramiko.Transport.Dispatch.{round}
use paramiko.Transport.Gate.{authed, StartsIfAny, IsGated, Keeps, authed_by_channel}
use paramiko.Transport.Authorization.{round-Keeps}

-- The rounds of a run that go on: the world may answer differently in each.
pub data Reach {K : Type 0} (session : Session) (provider : Provider K) : Loop → Loop → Type 0 where
  here : {l : Loop} → Reach session provider l l
  next :
      {l l' l'' : Loop} (world : World K) (awaited : Bool) (ptype : ℕ) (m : Message)
      (out : List Out)
      → round session provider world awaited ptype m l ≡ continues l' out
      → Reach session provider l' l''
      → Reach session provider l l''

module _ {K : Type 0} (session : Session) (provider : Provider K) where
  Reach-IsGated :
      session.server_mode ≡ true
      → (l l' : Loop) → Reach session provider l l'
      → IsGated l
      → IsGated l'
  Reach-IsGated mode l _ here g = g
  Reach-IsGated mode l l'' (next {l' = l'} world awaited ptype m out e later) g =
      Reach-IsGated mode l' l'' later
        (subst Keeps e (round-Keeps session provider world mode awaited ptype m l g))

  -- A server that starts without channels, and without a handler, has a channel in its map only
  -- for a client that its handler has authenticated, whatever messages arrive in whatever order and
  -- whatever the server object and the other packages answer.
  pub Reach-authed :
      (l l' : Loop)
      → session.server_mode ≡ true
      → l.negotiation.server_mode ≡ true
      → l.auth_handler ≡ none
      → l.channels ≡ []
      → Reach session provider l l'
      → (chanid : ℕ) (c : Channel) → get_channel chanid l'.channels ≡ some c
      → authed l'.auth_handler ≡ true
  Reach-authed l l' mode server_mode no_handler no_channel reach chanid c found =
      let g : IsGated l = record {
        server_mode = server_mode;
        starts = subst StartsIfAny (sym no_handler) tt;
        gated = inl no_channel;
      } in
      authed_by_channel chanid l'.channels c l'.auth_handler (Reach-IsGated mode l l' reach g).gated
        found
