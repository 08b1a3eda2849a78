-- ===== src/Control/Steps/Drain.antt =====
-- That the control plane can always be shut down.
use zolem.Base.{
  ℕ, List, [], ◌∷◌, ◌++◌, Option, count, Result, ok, err, ◌≡◌, refl, ap, ◌∙◌, arith, eqb_iff,
}
use zolem.Runtime.{Net}
use zolem.Runtime.Store.{values}
use zolem.Startup.App.{Env}
use zolem.Control.{ControlPlane, ControlError, ManagedListener, Files, LocalAdminOptions}
use zolem.Control.Listeners.{commit_listener, close_all, tear_down}
use zolem.Control.Owners.{owned}
use zolem.Control.State.Removal.{close_all-IsControl}
use zolem.Control.Steps.{System, after_commit, commit, drain, close, Steps, done, later, Reach}
use zolem.Control.Steps.Invariant.{IsSystem, Steps-IsSystem, Reach-IsSystem}

-- Nothing is being opened, served or closed, and nothing is open.
pub record IsQuiet (s : System) : Type 0 where
  pub no_pending : s.pending ≡ []
  pub no_draining : s.draining ≡ []
  pub no_listeners : s.control.listeners ≡ []
  pub none_open : s.control.world.live ≡ []

open_none : (hs : List ℕ) → ((x : ℕ) → count x hs ≡ 0) → hs ≡ []
open_none [] h = refl
open_none (x ∷ hs) h = absurd (ground (arith, h x, eqb_iff x x))

module _ (net : Net) (files : Files) where
  Steps-trans : {s t u : System} → Steps net files s t → Steps net files t u → Steps net files s u
  Steps-trans run done = run
  Steps-trans run (later more step) = later (Steps-trans run more) step

  -- Each upsert can take the lock.
  commit_all :
      (env : Env) (ms : List ManagedListener) (s : System)
      → s.pending ≡ ms
      → (t : System) × Steps net files s t × (t.pending ≡ [])
  commit_all env [] s e = (s, done, e)
  commit_all env (m ∷ ms) s e =
      let r = commit_listener net files env s.control m in
      let (t, run, none_left) = commit_all env ms (after_commit s ms r) (left r) in
      (t, Steps-trans (later done (commit env [] m ms e)) run, none_left)
    where
      left :
          (r : ControlPlane × Result ControlError (Option ManagedListener))
          → (after_commit s ms r).pending ≡ ms
      left (c, err e) = refl
      left (c, ok old) = refl

  -- Each replaced listener can be closed.
  drain_all :
      (ms : List ManagedListener) (s : System)
      → s.draining ≡ ms
      → s.pending ≡ []
      → (t : System) × Steps net files s t × (t.pending ≡ []) × (t.draining ≡ [])
  drain_all [] s e p = (s, done, p, e)
  drain_all (m ∷ ms) s e p =
      let t : System = record s {
        control = record s.control { world = tear_down m s.control.world };
        draining = ms;
      } in
      let (u, run, none_left, none_draining) = drain_all ms t refl p in
      (u, Steps-trans (later done (drain [] m ms e)) run, none_left, none_draining)

  closed-IsQuiet :
      (s : System)
      → IsSystem s
      → s.pending ≡ []
      → s.draining ≡ []
      → (t : System) × Steps net files s t × IsQuiet t
  closed-IsQuiet s v p d =
      let (ledger, empty) = close_all-IsControl s.control (owned (s.pending ++ s.draining)) v in
      (
        record s { control = close_all s.control },
        later done close,
        record {
          no_pending = p;
          no_draining = d;
          no_listeners = empty;
          none_open = open_none (close_all s.control).world.live (λ x.
              (ledger.ledger x).0
              ∙ ap (λ es. count x (owned (values es) ++ owned (s.pending ++ s.draining))) empty
              ∙ ap (λ ms. count x (owned (ms ++ s.draining))) p
              ∙ ap (λ ms. count x (owned ms)) d);
        },
      )

  -- From whatever state requests leave the control plane in, some run of its steps ends the
  -- upserts under way, closes the replaced listeners and the control plane, and then nothing is
  -- open.
  pub Reach-IsQuiet :
      (opts : LocalAdminOptions) (env : Env) (s : System)
      → Reach net files opts s
      → (t : System) × Steps net files s t × IsQuiet t
  Reach-IsQuiet opts env s reached =
      let (t, run, p) = commit_all env s.pending s refl in
      let (u, more, p', d) = drain_all t.draining t refl p in
      let v : IsSystem u =
        Steps-IsSystem net files (Steps-trans run more) (Reach-IsSystem net files opts s reached) in
      let (w, last, quiet) = closed-IsQuiet u v p' d in
      (w, Steps-trans run (Steps-trans more last), quiet)
