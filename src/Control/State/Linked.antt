-- ===== src/Control/State/Linked.antt =====
-- That every listener of the store has its profile, over an upsert of cmd/zolem/local_admin.go.
use zolem.Base.{
  ℕ, String, Option, none, some, Entries-lookup, lookup, insert, lookup-insert, string_eq,
  if◌then◌else◌, eq_iff, Result, ok, err, ◌≡◌, ◌≢◌, ◌↔◌, refl, sym, ap, ◌∙◌, subst, Option-cases,
  inl, inr,
}
use zolem.Runtime.{Net, ListenerSpec, ListenerRuntime}
use zolem.Runtime.Bind.{validate_listener_spec_with_policy}
use zolem.Runtime.Store.{get_profile, upsert_listener}
use zolem.Runtime.Store.Laws.{IsLinked, upsert_listener-IsLinked}
use zolem.Recorder.{RecordCaps}
use zolem.Startup.{StartupError, LocalTlsConfig}
use zolem.Startup.App.{World, Env, StartupApp, build_app}
use zolem.Control.{ControlPlane, ControlError, ManagedListener, ListenerPayload, Files}
use zolem.Control.Listeners.{
  spec_of_payload, caps_of_payload, start_local_server, served, built, with_caps, begin_listener,
  commit_listener, begun, committed, put_listener,
}

-- What was begun is for the profile.
abbrev pub Serves : String → World × Result ControlError ManagedListener → Type 0
Serves profile (w, err e) = Unit
Serves profile (w, ok m) = m.runtime.spec.profile ≡ profile

module _ (net : Net) (files : Files) (env : Env) where
  Serves-served :
      (rt : ListenerRuntime) (caps : RecordCaps) (app : StartupApp)
      (r : World × Result StartupError (ℕ × String))
      → Serves rt.spec.profile (served net files env rt caps app r)
  Serves-served rt caps app (w, err e) = tt
  Serves-served rt caps app (w, ok (h, addr)) = refl

  Serves-built :
      (tls : LocalTlsConfig) (rt : ListenerRuntime) (caps : RecordCaps)
      (r : World × Result StartupError StartupApp)
      → Serves rt.spec.profile (built net files env tls rt caps r)
  Serves-built tls rt caps (w, err e) = tt
  Serves-built tls rt caps (w, ok app) =
      Serves-served rt caps app (start_local_server env tls rt.spec w)

  Serves-with_caps :
      (c : ControlPlane) (rt : ListenerRuntime) (o : Option RecordCaps)
      → Serves rt.spec.profile (with_caps net files env c rt o)
  Serves-with_caps c rt none = tt
  Serves-with_caps c rt (some caps) =
      Serves-built c.tls rt caps (build_app env rt c.fixtures_dir c.world)

  module _ (c : ControlPlane) where
    -- Where every listener of the store has its profile and the spec of an upsert passes: its
    -- locked section leaves every listener with its profile exactly when the profile of the upsert
    -- is still there when it takes the lock.
    pub commit_listener-IsLinked_iff :
        (m : ManagedListener)
        → validate_listener_spec_with_policy net m.runtime.spec c.store.policy ≡ none
        → IsLinked c.store
        → IsLinked (commit_listener net files env c m).0.store
          ↔ (get_profile c.store m.runtime.spec.profile ≢ none)
    unfolding commit_listener upsert_listener get_profile
    commit_listener-IsLinked_iff m good h = (
      λ linked.
          Entries-lookup (λ k l. lookup l.profile c.store.profiles ≢ none) m.runtime.spec.name
            m.runtime.spec (insert m.runtime.spec.name m.runtime.spec c.store.listeners)
            (rw (good, commit_listener, upsert_listener) at linked)
            (found m.runtime.spec.name m.runtime.spec),
      λ there.
          rw (good, commit_listener, upsert_listener)
            (rw (good, upsert_listener) at
              (upsert_listener-IsLinked net c.store m.runtime.spec there h)),
    )
      where
        found : (k : String) (l : ListenerSpec) → lookup k (insert k l c.store.listeners) ≡ some l
        found k l =
            lookup-insert k k l c.store.listeners
            ∙ ap (λ b. if b then some l else lookup k c.store.listeners) ((eq_iff k k).1 refl)

    IsLinked-committed :
        (w : World) (m : ManagedListener)
        → get_profile c.store m.runtime.spec.profile ≢ none
        → IsLinked c.store
        → IsLinked
            (committed net files env m
              (commit_listener net files env (record c { world = w }) m)).0.store
    unfolding commit_listener upsert_listener
    IsLinked-committed w m there h =
        elim (Option-cases (validate_listener_spec_with_policy net m.runtime.spec c.store.policy)) [
          | inr (e, bad) ↦ rw (bad, commit_listener, upsert_listener) h
          | inl good ↦
              rw (good, commit_listener, upsert_listener)
                (rw (good, upsert_listener) at
                  (upsert_listener-IsLinked net c.store m.runtime.spec there h))
        ]

    IsLinked-begun :
        (profile : String) (r : World × Result ControlError ManagedListener)
        → get_profile c.store profile ≢ none
        → Serves profile r
        → IsLinked c.store
        → IsLinked (begun net files env c r).0.store
    IsLinked-begun profile (w, err e) there same h = h
    IsLinked-begun profile (w, ok m) there same h =
        IsLinked-committed w m (subst (λ n. get_profile c.store n ≢ none) (sym same) there) h

    -- UpsertListener with nothing between its parts leaves every listener with its profile, whatever it
    -- answers.
    pub put_listener-IsLinked :
        (name : String) (payload : ListenerPayload)
        → IsLinked c.store
        → IsLinked (put_listener net files env c name payload).0.store
    unfolding put_listener begin_listener get_profile
    put_listener-IsLinked name payload h =
        elim (Option-cases (lookup payload.profile c.store.profiles)) [
          | inl missing ↦ rw (missing, put_listener, begin_listener) h
          | inr (profile, found) ↦
              let spec = spec_of_payload name payload in
              elim (Option-cases (validate_listener_spec_with_policy net spec c.store.policy)) [
                | inr (e, bad) ↦ rw (found, bad, put_listener, begin_listener) h
                | inl good ↦
                    rw (found, good, put_listener, begin_listener)
                      (IsLinked-begun payload.profile
                        (with_caps net files env c (record { spec = spec; profile = profile })
                          (caps_of_payload payload))
                        (λ e. cc)
                        (Serves-with_caps c (record { spec = spec; profile = profile })
                          (caps_of_payload payload))
                        h)
              ]
        ]
