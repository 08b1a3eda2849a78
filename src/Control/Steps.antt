-- ===== src/Control/Steps.antt =====
-- Requests to the control plane of cmd/zolem/local_admin.go, interleaved in any order. Each step is
-- what one request does between taking the control plane's lock or the store's and releasing it; an
-- upsert of a listener has three, as UpsertListener does.
pub mod Invariant
pub mod Registry
pub mod Drain
use zolem.Base.{String, List, [], ◌∷◌, ◌++◌, Option, Result, ok, err, ◌≡◌}
use zolem.Runtime.{Net}
use zolem.Startup.App.{World, Env}
use zolem.Control.{
  ControlPlane, ControlError, ManagedListener, Files, ListenerPayload, ProfilePayload,
  LocalAdminOptions, new_local_control_plane,
}
use zolem.Control.Profiles.{put_profile, remove_profile}
use zolem.Control.Listeners.{
  begin_listener, commit_listener, tear_down, remove_listener, clear_calls, close_all,
}
use zolem.Control.Owners.{old_list}

-- `pending` are the listeners of upserts that have not reached the lock, `draining` the replaced
-- ones of upserts that have left it.
pub record System : Type 0 where
  pub control : ControlPlane
  pub pending : List ManagedListener
  pub draining : List ManagedListener

abbrev pub with_control : System → ControlPlane → System
with_control s c = record s { control = c }

-- What a request does before the lock.
abbrev pub after_begin : System → World × Result ControlError ManagedListener → System
after_begin s (w, err e) = with_control s (record s.control { world = w })
after_begin s (w, ok m) = record s {
  control = record s.control { world = w };
  pending = m ∷ s.pending;
}

-- What it does under the lock; `others` are the upserts that are still to come.
abbrev pub after_commit :
    System
    → List ManagedListener
    → ControlPlane × Result ControlError (Option ManagedListener)
    → System
after_commit s others (c, err e) = record s { control = c; pending = others }
after_commit s others (c, ok old) = record {
  control = c;
  pending = others;
  draining = old_list old ++ s.draining;
}

-- What the files and the network answer may differ from step to step.
pub data Step (net : Net) (files : Files) (s : System) : System → Type 0 where
  begin :
      (env : Env) (name : String) (payload : ListenerPayload)
      → Step net files s (after_begin s (begin_listener net files env s.control name payload))
  commit :
      (env : Env) (before : List ManagedListener) (m : ManagedListener)
      (after : List ManagedListener)
      → s.pending ≡ before ++ m ∷ after
      → Step net files s
          (after_commit s (before ++ after) (commit_listener net files env s.control m))
  drain :
      (before : List ManagedListener) (m : ManagedListener) (after : List ManagedListener)
      → s.draining ≡ before ++ m ∷ after
      → Step net files s (record s {
        control = record s.control { world = tear_down m s.control.world };
        draining = before ++ after;
      })
  put :
      (env : Env) (name : String) (payload : ProfilePayload)
      → Step net files s (with_control s (put_profile net files env s.control name payload).0)
  unprofile : (name : String) → Step net files s (with_control s (remove_profile s.control name).0)
  remove : (name : String) → Step net files s (with_control s (remove_listener s.control name).0)
  clear : (name : String) → Step net files s (with_control s (clear_calls s.control name).0)
  close : Step net files s (with_control s (close_all s.control))

pub data Steps (net : Net) (files : Files) (s : System) : System → Type 0 where
  done : Steps net files s s
  later : {t u : System} → Steps net files s t → Step net files t u → Steps net files s u

abbrev pub init : Net → LocalAdminOptions → System
init net opts = record { control = new_local_control_plane net opts; pending = []; draining = [] }

-- A control plane that has just started, after any requests.
abbrev pub Reach : Net → Files → LocalAdminOptions → System → Type 0
Reach net files opts = Steps net files (init net opts)
