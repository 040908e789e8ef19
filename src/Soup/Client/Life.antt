-- ===== src/Soup/Client/Life.antt =====
-- The states that a client goes through.
use itchbook.Base.{ℕ, ◌≡◌, refl, subst, ◌⊎◌, inl, inr, Bool, List, arith}
use itchbook.Mold.Bytes.{Bytes}
use itchbook.Soup.Session.{
  State, awaiting_login, logged_in, rejected, ended, login_timed_out, dead, protocol_violation,
}
use itchbook.Soup.Client.{Inbound, Client, client_dispatch, expire, enter}
use itchbook.Soup.Client.Runs.{Op, run, Kept, run-Keeps}

infix 40 ◌⟶◌ ◌⟶*◌
pub data ◌⟶◌ : State → State → Type 0 where
  admit : awaiting_login ⟶ logged_in
  reject : awaiting_login ⟶ rejected
  give_up : awaiting_login ⟶ login_timed_out
  finish : logged_in ⟶ ended
  lose : logged_in ⟶ dead
  break_off : {s : State} → s ⟶ protocol_violation

pub data ◌⟶*◌ : State → State → Type 0 where
  here : {s : State} → s ⟶* s
  onward : {s t u : State} → s ⟶* t → t ⟶ u → s ⟶* u

ruleset edges = (admit, reject, give_up, finish, lose)

-- A state stays, or follows an edge.
abbrev Moves : State → State → Type 0
Moves s t = (s ≡ t) ⊎ (s ⟶ t)

dispatch-Moves :
    (has_app : Bool) (type : ℕ) (p : Bytes) (s : Inbound)
    → Moves s.state (client_dispatch has_app type p s).1.state
unfolding client_dispatch
dispatch-Moves has_app type p s = grind (arith, edges)

expire-Moves : (now : ℕ) (c : Client) → Moves c.inbound.state (expire now c)
unfolding expire
expire-Moves now c = grind (arith, edges)

extend : (s t u : State) → s ⟶* t → Moves t u → s ⟶* u
extend s t u p (inl e) = subst (λ x. s ⟶* x) e p
extend s t u p (inr e) = onward p e

Life-Kept : (s : State) (max : ℕ) (has_app : Bool) → Kept (λ i. s ⟶* i.state) max has_app
unfolding enter
Life-Kept s max has_app = record {
  frames = λ type frame i w h. extend s i.state _ h (dispatch-Moves has_app type frame i);
  verdict = λ i h. onward h break_off;
  clock = λ now c t h. extend s c.inbound.state _ h (expire-Moves now c);
}

-- Any operations on a client lead its state along the diagram: a login is awaited until it is
-- accepted, rejected or late, a session ends or is found dead, and only a violation leads anywhere
-- else, from states that are terminal as well.
pub run-Life : (os : List Op) (c : Client) → c.inbound.state ⟶* (run os c).inbound.state
run-Life os c =
    let s = c.inbound.state in
    (run-Keeps (λ i. s ⟶* i.state) c.cfg.max_frame_bytes c.has_app os c
      (Life-Kept s c.cfg.max_frame_bytes c.has_app) (refl, refl, here)).2
