-- ===== src/Control/Steps/Invariant.antt =====
-- What interleaved requests to the control plane keep true.
use zolem.Base.{
  ℕ, List, ◌∷◌, ◌++◌, Option, count, count-append, Result, ok, err, ◌≡◌, ap, ◌∙◌, arith,
}
use zolem.Runtime.{Net}
use zolem.Runtime.Store.{values}
use zolem.Startup.App.{World}
use zolem.Control.{ControlPlane, ControlError, ManagedListener, Files, LocalAdminOptions}
use zolem.Control.Listeners.{begin_listener, commit_listener}
use zolem.Control.Owners.{handles, owned, old_list, count-owned}
use zolem.Control.State.{IsControl, new_local_control_plane-IsControl}
use zolem.Control.State.Begin.{Begun, Begun-begin_listener}
use zolem.Control.State.Change.{
  Committed, begun-IsControl, regroup-IsControl, commit_listener-Committed, tear_down-IsControl,
}
use zolem.Control.State.Entry.{
  put_profile-IsControl, remove_profile-IsControl, clear_calls-IsControl,
}
use zolem.Control.State.Removal.{remove_listener-IsControl, close_all-IsControl}
use zolem.Control.Steps.{
  System, after_begin, after_commit, Step, begin, commit, drain, put, unprofile, remove, clear,
  close, Steps, done, later, Reach,
}

abbrev pub IsSystem : System → Type 0
IsSystem s = IsControl s.control (owned (s.pending ++ s.draining))

-- One of a list may be named first.
count-middle :
    (x : ℕ) (before : List ManagedListener) (m : ManagedListener)
    (after rest : List ManagedListener)
    → count x (owned ((before ++ m ∷ after) ++ rest))
      ≡ count x (handles m ++ owned ((before ++ after) ++ rest))
count-middle x before m after rest = omega (
  arith,
  count-owned x (before ++ m ∷ after) rest,
  count-owned x before (m ∷ after),
  count-append x (handles m) (owned after),
  count-append x (handles m) (owned ((before ++ after) ++ rest)),
  count-owned x (before ++ after) rest,
  count-owned x before after,
)

module _ (s : System) where
  after_begin-IsSystem :
      (r : World × Result ControlError ManagedListener)
      → IsSystem s
      → Begun (owned (values s.control.listeners) ++ owned (s.pending ++ s.draining)) r
      → IsSystem (after_begin s r)
  after_begin-IsSystem (w, err e) v l = record {
    ledger = l;
    distinct = v.distinct;
    named = v.named;
    synced = v.synced;
  }
  after_begin-IsSystem (w, ok m) v l =
      regroup-IsControl (record s.control { world = w }) _ _
        (λ x. omega (arith, count-append x (handles m) (owned (s.pending ++ s.draining))))
        (begun-IsControl s.control (owned (s.pending ++ s.draining)) w m v l)

  after_commit-IsSystem :
      (others : List ManagedListener)
      (r : ControlPlane × Result ControlError (Option ManagedListener))
      → Committed (owned (others ++ s.draining)) r
      → IsSystem (after_commit s others r)
  after_commit-IsSystem others (c, err e) v = v
  after_commit-IsSystem others (c, ok old) v =
      regroup-IsControl c _ _
        (λ x. omega (
          arith,
          count-append x (owned (old_list old)) (owned (others ++ s.draining)),
          count-owned x others s.draining,
          count-owned x others (old_list old ++ s.draining),
          count-owned x (old_list old) s.draining,
        ))
        v

module _ (net : Net) (files : Files) where
  pub Step-IsSystem : {s t : System} → Step net files s t → IsSystem s → IsSystem t
  Step-IsSystem {s} (begin env name payload) v =
      after_begin-IsSystem s (begin_listener net files env s.control name payload) v
        (Begun-begin_listener net files env _ s.control name payload v.ledger)
  Step-IsSystem {s} (commit env before m after e) v =
      after_commit-IsSystem s (before ++ after) (commit_listener net files env s.control m) (
        commit_listener-Committed s.control _ net files env m (
          regroup-IsControl s.control _ _
            (λ x.
              ap (λ p. count x (owned (p ++ s.draining))) e
              ∙ count-middle x before m after s.draining)
            v))
  Step-IsSystem {s} (drain before m after e) v = tear_down-IsControl s.control _ m (
      regroup-IsControl s.control _ _
        (λ x. omega (
          arith,
          ap (λ d. count x (owned d)) e,
          ap (λ d. count x (owned (s.pending ++ d))) e,
          count-owned x s.pending (before ++ m ∷ after),
          count-owned x before (m ∷ after),
          count-append x (handles m) (owned after),
          count-append x (handles m) (owned (s.pending ++ (before ++ after))),
          count-owned x s.pending (before ++ after),
          count-owned x before after,
        ))
        v)
  Step-IsSystem {s} (put env name payload) v =
      put_profile-IsControl s.control _ net files env name payload v
  Step-IsSystem {s} (unprofile name) v = remove_profile-IsControl s.control _ name v
  Step-IsSystem {s} (remove name) v = remove_listener-IsControl s.control _ name v
  Step-IsSystem {s} (clear name) v = clear_calls-IsControl s.control _ name v
  Step-IsSystem {s} close v = (close_all-IsControl s.control _ v).0

  pub Steps-IsSystem : {s t : System} → Steps net files s t → IsSystem s → IsSystem t
  Steps-IsSystem done v = v
  Steps-IsSystem (later run step) v = Step-IsSystem step (Steps-IsSystem run v)

  -- After any requests to a control plane that has just started, interleaved in any order, with
  -- files and a network that may answer differently each time: the servers and WASM runtimes that
  -- are open are those of the registry, of the upserts that have not reached the lock and of the
  -- replaced listeners that are still closing, each open once; every entry of the registry stands
  -- under its own name, no name twice; and the store has the spec of each entry and no other.
  pub Reach-IsSystem : (opts : LocalAdminOptions) (s : System) → Reach net files opts s → IsSystem s
  Reach-IsSystem opts s run = Steps-IsSystem run (new_local_control_plane-IsControl net files opts)
