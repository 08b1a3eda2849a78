-- ===== src/Control/Listeners.antt =====
-- The listeners of the control plane.
use zolem.Base.{
  ℕ, ℤ, pos, ltb_ℤ, not, ◌&&◌, String, List, [], ◌∷◌, Option, none, some, if◌then◌else◌, lookup,
  insert, delete, string_eq, Result, ok, err,
}
use zolem.Runtime.{Net, ListenerSpec, ListenerRuntime}
use zolem.Runtime.Bind.{ListenerError, validate_listener_spec_with_policy}
use zolem.Runtime.Store.{
  Store, profile_not_found, listener_not_found, get_profile, upsert_listener, delete_listener,
  list_listeners,
}
use zolem.Recorder.{RecordedCall, RecordCaps, default_record_caps}
use zolem.Recorder.Log.{Recorder, in_memory, new_in_memory_recorder}
use zolem.Recorder.Log as Log
use zolem.Startup.{StartupError, tls_not_configured, bind_failed, tls_enabled, LocalTlsConfig}
use zolem.Startup.App.{
  Env, World, open_handle, close_handle, StartupApp, build_app, close_app, set_listener_addr,
}
use zolem.Control.{
  ListenerPayload, ListenerView, ControlError, in_store, in_listener, in_startup, cap_not_positive,
  ManagedListener, ControlPlane, Files, view_of, local_base_url,
}
use zolem.Control.Profiles.{store_result}

unfoldable pub spec_of_payload : String → ListenerPayload → ListenerSpec
spec_of_payload name p = record {
  name = name;
  addr = p.addr;
  provider = p.provider;
  profile = p.profile;
  tls = p.tls;
}

-- A cap of a payload over its default; `none` is one that is not positive.
abbrev pub cap_or : Option ℤ → ℤ → Option ℤ
cap_or none default = some default
cap_or (some n) default = if not (ltb_ℤ (pos 0) n) then none else some n

abbrev pub caps_of_parts : Option ℤ → Option ℤ → Option ℤ → Option RecordCaps
caps_of_parts (some q) (some r) (some s) =
    some (record { request_body_cap_bytes = q; response_body_cap_bytes = r; stream_event_cap = s })
caps_of_parts _ _ _ = none

unfoldable pub caps_of_payload : ListenerPayload → Option RecordCaps
caps_of_payload p =
    let d = default_record_caps in
    caps_of_parts (cap_or p.record_request_body_cap_bytes d.request_body_cap_bytes)
      (cap_or p.record_response_body_cap_bytes d.response_body_cap_bytes)
      (cap_or p.record_stream_event_cap d.stream_event_cap)

-- startLocalServer: the server is open, at an address.
unfoldable pub start_local_server :
    Env → LocalTlsConfig → ListenerSpec → World → World × Result StartupError (ℕ × String)
unfolding tls_enabled open_handle
start_local_server env tls spec w =
    if spec.tls && not (tls_enabled tls)
    then (w, err tls_not_configured)
    else elim (env.listen spec) [
      | none ↦ (w, err bind_failed)
      | some addr ↦ let (w', h) = open_handle w in (w', ok (h, addr))
    ]

abbrev pub managed :
    Net → Files → ListenerRuntime → RecordCaps → StartupApp → ℕ × String → ManagedListener
managed net files rt caps app (server, addr) =
    let spec = record rt.spec { addr = addr } in
    record {
      runtime = record rt { spec = spec };
      app = set_listener_addr addr app;
      server = server;
      base_url = local_base_url net files spec;
      recorder = in_memory (new_in_memory_recorder spec.name);
      caps = caps;
    }

-- Closing what an entry has open; the Close of httpLocalServer always succeeds, and that of an
-- in-memory recorder does nothing.
unfoldable pub tear_down : ManagedListener → World → World
unfolding close_handle close_app
tear_down m w = close_app m.app (close_handle m.server w)

abbrev pub tear_down_old : Option ManagedListener → World → World
tear_down_old none w = w
tear_down_old (some m) w = tear_down m w

module _ (net : Net) (files : Files) (env : Env) where
  -- Serving an app: a server that does not start closes the app.
  abbrev pub served :
      ListenerRuntime
      → RecordCaps
      → StartupApp
      → World × Result StartupError (ℕ × String)
      → World × Result ControlError ManagedListener
  served rt caps app (w, err e) = (close_app app w, err (in_startup e))
  served rt caps app (w, ok bound) = (w, ok (managed net files rt caps app bound))

  abbrev pub built :
      LocalTlsConfig
      → ListenerRuntime
      → RecordCaps
      → World × Result StartupError StartupApp
      → World × Result ControlError ManagedListener
  built tls rt caps (w, err e) = (w, err (in_startup e))
  built tls rt caps (w, ok app) = served rt caps app (start_local_server env tls rt.spec w)

  abbrev pub with_caps :
      ControlPlane
      → ListenerRuntime
      → Option RecordCaps
      → World × Result ControlError ManagedListener
  with_caps c rt none = (c.world, err cap_not_positive)
  with_caps c rt (some caps) = built c.tls rt caps (build_app env rt c.fixtures_dir c.world)

  -- UpsertListener until it takes the lock: the profile is read once, the spec checked, the app built
  -- and the server bound.
  unfoldable pub begin_listener :
      ControlPlane → String → ListenerPayload → World × Result ControlError ManagedListener
  unfolding spec_of_payload caps_of_payload start_local_server get_profile
  begin_listener c name payload = elim (get_profile c.store payload.profile) [
    | none ↦ (c.world, err (in_store profile_not_found))
    | some profile ↦
        let spec = spec_of_payload name payload in
        elim (validate_listener_spec_with_policy net spec c.store.policy) [
          | some e ↦ (c.world, err (in_listener e))
          | none ↦ with_caps c (record { spec = spec; profile = profile }) (caps_of_payload payload)
        ]
  ]

  -- What the locked section answers: the entry that it replaced, or the error after which the new
  -- server and app are closed.
  abbrev pub swapped :
      ControlPlane
      → ManagedListener
      → Store × Result ListenerError ListenerSpec
      → ControlPlane × Result ControlError (Option ManagedListener)
  swapped c m (s, err e) = (record c { world = tear_down m c.world }, err (in_listener e))
  swapped c m (s, ok spec) = (
    record c { store = s; listeners = insert m.runtime.spec.name m c.listeners },
    ok (lookup m.runtime.spec.name c.listeners),
  )

  unfoldable pub commit_listener :
      ControlPlane → ManagedListener → ControlPlane × Result ControlError (Option ManagedListener)
  commit_listener c m = swapped c m (upsert_listener net c.store m.runtime.spec)

  -- UpsertListener with nothing between its parts.
  abbrev pub committed :
      ManagedListener
      → ControlPlane × Result ControlError (Option ManagedListener)
      → ControlPlane × Result ControlError ListenerView
  committed m (c, err e) = (c, err e)
  committed m (c, ok old) = (record c { world = tear_down_old old c.world }, ok (view_of m))

  abbrev pub begun :
      ControlPlane
      → World × Result ControlError ManagedListener
      → ControlPlane × Result ControlError ListenerView
  begun c (w, err e) = (record c { world = w }, err e)
  begun c (w, ok m) = committed m (commit_listener (record c { world = w }) m)

  unfoldable pub put_listener :
      ControlPlane → String → ListenerPayload → ControlPlane × Result ControlError ListenerView
  unfolding begin_listener commit_listener
  put_listener c name payload = begun c (begin_listener c name payload)

-- The views of the specs, without those of no entry.
unfoldable pub views : List (String × ManagedListener) → List ListenerSpec → List ListenerView
views entries [] = []
views entries (spec ∷ specs) =
    let rest = views entries specs in
    elim (lookup spec.name entries) [ none ↦ rest | some m ↦ view_of m ∷ rest ]

unfoldable pub all_listeners : ControlPlane → List ListenerView
unfolding views
all_listeners c = views c.listeners (list_listeners c.store)

unfoldable pub get_listener : ControlPlane → String → Result ControlError ListenerView
get_listener c name = elim (lookup name c.listeners) [
  | none ↦ err (in_store listener_not_found)
  | some m ↦ ok (view_of m)
]

unfoldable pub remove_listener : ControlPlane → String → ControlPlane × Option ControlError
unfolding tear_down
remove_listener c name = elim (lookup name c.listeners) [
  | none ↦ (c, some (in_store listener_not_found))
  | some m ↦
      let (s, e) = delete_listener c.store name in
      (
        record c { store = s; listeners = delete name c.listeners; world = tear_down m c.world },
        store_result e,
      )
]

unfoldable pub list_calls : ControlPlane → String → Result ControlError (List RecordedCall)
list_calls c name = elim (lookup name c.listeners) [
  | none ↦ err (in_store listener_not_found)
  | some m ↦ ok (Log.list m.recorder)
]

unfoldable pub clear_calls : ControlPlane → String → ControlPlane × Result ControlError ℕ
clear_calls c name = elim (lookup name c.listeners) [
  | none ↦ (c, err (in_store listener_not_found))
  | some m ↦
      let (r, n) = Log.clear m.recorder in
      (record c { listeners = insert name (record m { recorder = r }) c.listeners }, ok n)
]

-- Close, over the entries in the order of the map.
unfoldable pub close_entries : List (String × ManagedListener) → ControlPlane → ControlPlane
unfolding tear_down
close_entries [] c = c
close_entries ((name, m) ∷ rest) c = close_entries rest (record c {
  store = (delete_listener c.store name).0;
  listeners = delete name c.listeners;
  world = tear_down m c.world;
})

unfoldable pub close_all : ControlPlane → ControlPlane
unfolding close_entries
close_all c = close_entries c.listeners c
