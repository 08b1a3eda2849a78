-- ===== src/Control/State/Begin.antt =====
-- What an upsert of cmd/zolem/local_admin.go has opened by the time that it takes the lock.
use zolem.Base.{
  not, ◌&&◌, ℕ, String, List, ◌∷◌, ◌++◌, Option, none, some, lookup, string_eq, Result, ok, err,
  Bool-cases, Option-cases, inl, inr,
}
use zolem.Runtime.{Net, ListenerRuntime, ListenerSpec}
use zolem.Runtime.Bind.{validate_listener_spec_with_policy}
use zolem.Startup.{StartupError, bind_failed, tls_enabled}
use zolem.Startup.App.{World, Env, StartupApp, set_listener_addr, open_handle, build_app}
use zolem.Startup.App.Ledger.{
  IsLedger, Built, Built-build_app, app_handles, close_app-IsLedger, open_handle-IsLedger,
}
use zolem.Recorder.{RecordCaps}
use zolem.Control.{ManagedListener, ControlPlane, Files, ControlError, ListenerPayload}
use zolem.Control.Listeners.{
  start_local_server, served, built, with_caps, begin_listener, spec_of_payload, caps_of_payload,
}
use zolem.Control.Owners.{handles}

-- What a begun upsert owns.
abbrev pub Begun : List ℕ → World × Result ControlError ManagedListener → Type 0
Begun rest (w, err e) = IsLedger w rest
Begun rest (w, ok m) = IsLedger w (handles m ++ rest)

abbrev StartedServer : List ℕ → World × Result StartupError (ℕ × String) → Type 0
StartedServer rest (w, err e) = IsLedger w rest
StartedServer rest (w, ok (h, addr)) = IsLedger w (h ∷ rest)

module _ (net : Net) (files : Files) (env : Env) (rest : List ℕ) where
  StartedServer-start_local_server :
      (c : ControlPlane) (spec : ListenerSpec) (w : World)
      → IsLedger w rest
      → StartedServer rest (start_local_server env c.tls spec w)
  unfolding start_local_server
  StartedServer-start_local_server c spec w l =
      elim (Bool-cases (spec.tls && not (tls_enabled c.tls))) [
        | inl missing ↦ rw missing l
        | inr fine ↦ rw fine (of (env.listen spec))
      ]
    where
      of :
          (o : Option String)
          → StartedServer rest (elim o as (λ x. World × Result StartupError (ℕ × String)) [
            | none ↦ (w, err bind_failed)
            | some addr ↦ ((open_handle w).0, ok ((open_handle w).1, addr))
          ])
      of none = l
      of (some addr) = open_handle-IsLedger w rest l

  Begun-served :
      (rt : ListenerRuntime) (caps : RecordCaps) (app : StartupApp)
      (r : World × Result StartupError (ℕ × String))
      → StartedServer (app_handles app ++ rest) r
      → Begun rest (served net files env rt caps app r)
  unfolding set_listener_addr
  Begun-served rt caps app (w, err e) l = close_app-IsLedger app w rest l
  Begun-served rt caps app (w, ok (h, addr)) l = l

module _ (net : Net) (files : Files) (env : Env) (rest : List ℕ) where
  Begun-built :
      (c : ControlPlane) (rt : ListenerRuntime) (caps : RecordCaps)
      (r : World × Result StartupError StartupApp)
      → Built rest r
      → Begun rest (built net files env c.tls rt caps r)
  Begun-built c rt caps (w, err e) l = l
  Begun-built c rt caps (w, ok app) l =
      Begun-served net files env rest rt caps app (start_local_server env c.tls rt.spec w)
        (StartedServer-start_local_server net files env (app_handles app ++ rest) c rt.spec w l)

  Begun-with_caps :
      (c : ControlPlane) (rt : ListenerRuntime) (o : Option RecordCaps)
      → IsLedger c.world rest
      → Begun rest (with_caps net files env c rt o)
  Begun-with_caps c rt none l = l
  Begun-with_caps c rt (some caps) l =
      Begun-built c rt caps (build_app env rt c.fixtures_dir c.world)
        (Built-build_app env rt rest c.fixtures_dir c.world l)

  -- An upsert that fails before the lock leaves nothing open, and one that does not owns what it
  -- opened.
  pub Begun-begin_listener :
      (c : ControlPlane) (name : String) (payload : ListenerPayload)
      → IsLedger c.world rest
      → Begun rest (begin_listener net files env c name payload)
  unfolding begin_listener
  Begun-begin_listener c name payload l =
      elim (Option-cases (lookup payload.profile c.store.profiles)) [
        | inl missing ↦ rw (missing, begin_listener) l
        | inr (profile, found) ↦
            elim (Option-cases (
              validate_listener_spec_with_policy net (spec_of_payload name payload)
                c.store.policy)) [
                  | inr (e, refused) ↦ rw (found, refused, begin_listener) l
                  | inl fine ↦
                      rw (found, fine, begin_listener)
                        (Begun-with_caps c
                          (record { spec = spec_of_payload name payload; profile = profile })
                          (caps_of_payload payload) l)
                ]
      ]
