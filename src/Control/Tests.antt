-- ===== src/Control/Tests.antt =====
-- Runs of the control plane, and each theorem on it at a concrete input.
use zolem.Base.{
  ℕ, ◌+◌, pos, Bool, true, false, String, ◌==◌, List, [], ◌∷◌, ◌++◌, Option, none, some,
  if◌then◌else◌, append_text, lookup, string_eq, Result, ok, err, ◌≡◌, ◌≢◌, ◌↔◌, ◌⊎◌, refl,
}
use zolem.Runtime.{RuntimeProfile, ListenerSpec, ListenerRuntime}
use zolem.Runtime.Bind.{validate_listener_spec_with_policy}
use zolem.Runtime.Samples.{sample_net, loopback_only}
use zolem.Runtime.Store.{get_profile, sort_by_name, values}
use zolem.Runtime.Store.Laws.{IsLinked}
use zolem.Recorder.{default_record_caps}
use zolem.Startup.{zero_delay}
use zolem.Startup.App.{Env, World}
use zolem.Control.{
  ProfilePayload, ListenerPayload, LocalAdminOptions, Files, ControlPlane, ManagedListener,
  new_local_control_plane,
}
use zolem.Control.Profiles.{put_profile, profile_of_payload}
use zolem.Control.Listeners.{begin_listener, commit_listener, all_listeners, get_listener, managed}
use zolem.Control.State.{new_local_control_plane-IsControl}
use zolem.Control.State.Linked.{commit_listener-IsLinked_iff}
use zolem.Control.Steps.{
  System, with_control, after_begin, after_commit, put, begin, commit, Steps, done, later, Reach,
  init,
}
use zolem.Control.Steps.Invariant.{IsSystem, Reach-IsSystem}
use zolem.Control.Steps.Registry.{effects, answer, Reach-registry}
use zolem.Control.Steps.Drain.{IsQuiet, Reach-IsQuiet}
use zolem.Control.Admin.{AdminRequest, Json, serve_admin, local_resource_name}
use zolem.Control.Admin.Answers.{Settled}
use zolem.Control.Admin.Serve.{Settled-serve_admin}

abbrev files : Files
files = record {
  is_dir = λ d. d == "fixtures";
  join_path = λ a b. append_text a (append_text "/" b);
  join_host_port = λ h p. append_text h (append_text ":" p);
}

abbrev env : Env
env = record {
  load_schema = λ k. none;
  join_path = λ a b. append_text a (append_text "/" b);
  load_fixtures = λ dir rt. none;
  fixture_warnings = λ dir rt. [];
  compile = λ p. none;
  listen = λ spec. some "127.0.0.1:0";
}

abbrev options : LocalAdminOptions
options = record {
  addr = "";
  fixtures_dir = "";
  tls = record { cert_file = ""; key_file = "" };
  allowed_hosts = "zolem.test" ∷ [];
  bind_policy = loopback_only;
}

abbrev demo_payload : ProfilePayload
demo_payload = record {
  backend = "lorem";
  backend_model = "";
  error_type = "";
  retry_after_seconds = pos 0;
  response_model_policy = "";
  response_model = "";
  fixture_namespace = "";
  ollama_upstream = "";
  allow_external_ollama_upstream = false;
  calibration_temperature = none;
  wasm_module_base64 = "";
  wasm_generate_timeout_ms = none;
  stream_delay = zero_delay;
}

abbrev chat_payload : ListenerPayload
chat_payload = record {
  addr = "127.0.0.1:0";
  provider = "openai";
  profile = "demo";
  tls = false;
  record_request_body_cap_bytes = some (pos 4096);
  record_response_body_cap_bytes = none;
  record_stream_event_cap = none;
}

-- Two upserts of one name under way at once; the first to begin is the last to commit.
abbrev with_demo : System
with_demo =
    let s = init sample_net options in
    with_control s (put_profile sample_net files env s.control "demo" demo_payload).0

abbrev one_begun : System
one_begun =
    after_begin with_demo
      (begin_listener sample_net files env with_demo.control "chat" chat_payload)

abbrev both_begun : System
both_begun =
    after_begin one_begun
      (begin_listener sample_net files env one_begun.control "chat" chat_payload)

abbrev chat_runtime : ListenerRuntime
chat_runtime = record {
  spec = record {
    name = "chat";
    addr = "127.0.0.1:0";
    provider = "openai";
    profile = "demo";
    tls = false;
  };
  profile = profile_of_payload "demo" demo_payload;
}

abbrev chat : ℕ → ManagedListener
chat h =
    managed sample_net files chat_runtime
      (record default_record_caps { request_body_cap_bytes = pos 4096 })
      (record { runtime = chat_runtime; runner = h; generator = none }) (h + 1, "127.0.0.1:0")

both_pending : both_begun.pending ≡ chat 2 ∷ chat 0 ∷ []
unfolding put_profile begin_listener profile_of_payload lookup
    zolem.Runtime.Profile.validate_profile zolem.Runtime.Namespace.validate_fixture_namespace
    zolem.Runtime.Store.upsert_profile zolem.Base.insert new_local_control_plane
    validate_listener_spec_with_policy zolem.Upstream.unmap zolem.Startup.App.build_app
both_pending = refl

abbrev one_left : System
one_left =
    after_commit both_begun (chat 0 ∷ [])
      (commit_listener sample_net files env both_begun.control (chat 2))

abbrev both_committed : System
both_committed =
    after_commit one_left [] (commit_listener sample_net files env one_left.control (chat 0))

one_left_pending : one_left.pending ≡ chat 0 ∷ []
unfolding commit_listener zolem.Runtime.Store.upsert_listener validate_listener_spec_with_policy
    zolem.Upstream.unmap begin_listener lookup put_profile zolem.Runtime.Profile.validate_profile
    zolem.Runtime.Namespace.validate_fixture_namespace zolem.Runtime.Store.upsert_profile
    zolem.Base.insert new_local_control_plane zolem.Startup.App.build_app
one_left_pending = refl

abbrev run : Reach sample_net files options both_committed
run =
    later
      (later
        (later (later (later done (put env "demo" demo_payload)) (begin env "chat" chat_payload))
          (begin env "chat" chat_payload))
        (commit env [] (chat 2) (chat 0 ∷ []) both_pending))
      (commit env [] (chat 0) [] one_left_pending)

-- The replaced one is still to be closed, with the handles that it opened.
replaced_draining : both_committed.draining ≡ chat 2 ∷ []
unfolding commit_listener zolem.Runtime.Store.upsert_listener validate_listener_spec_with_policy
    zolem.Upstream.unmap begin_listener lookup put_profile zolem.Runtime.Profile.validate_profile
    zolem.Runtime.Namespace.validate_fixture_namespace zolem.Runtime.Store.upsert_profile
    zolem.Base.insert new_local_control_plane zolem.Startup.App.build_app
replaced_draining = refl

replaced_open : both_committed.control.world.live ≡ 3 ∷ 2 ∷ 1 ∷ 0 ∷ []
unfolding commit_listener zolem.Runtime.Store.upsert_listener validate_listener_spec_with_policy
    zolem.Upstream.unmap begin_listener lookup put_profile zolem.Runtime.Profile.validate_profile
    zolem.Runtime.Namespace.validate_fixture_namespace zolem.Runtime.Store.upsert_profile
    zolem.Base.insert new_local_control_plane zolem.Startup.App.build_app
replaced_open = refl

Reach-IsSystem_example : IsSystem both_committed
Reach-IsSystem_example = Reach-IsSystem sample_net files options both_committed run

Reach-registry_example :
    (all_listeners both_committed.control ≡ sort_by_name (λ v. v.name) (values (effects run [])))
    × ((name : String)
        → get_listener both_committed.control name ≡ answer (lookup name (effects run [])))
Reach-registry_example = Reach-registry sample_net files options both_committed run

Reach-IsQuiet_example : (t : System) × Steps sample_net files both_committed t × IsQuiet t
Reach-IsQuiet_example = Reach-IsQuiet sample_net files options env both_committed run

-- A profile that goes between the two parts of an upsert.
abbrev unprofiled : ControlPlane
unprofiled = record one_begun.control { store = record one_begun.control.store { profiles = [] } }

commit_listener-IsLinked_iff_example :
    IsLinked (commit_listener sample_net files env unprofiled (chat 0)).0.store
    ↔ (get_profile unprofiled.store "demo" ≢ none)
unfolding validate_listener_spec_with_policy zolem.Upstream.unmap begin_listener lookup put_profile
    zolem.Runtime.Profile.validate_profile zolem.Runtime.Namespace.validate_fixture_namespace
    zolem.Runtime.Store.upsert_profile zolem.Base.insert new_local_control_plane
    zolem.Startup.App.build_app
commit_listener-IsLinked_iff_example =
    commit_listener-IsLinked_iff sample_net files env unprofiled (chat 0) refl tt

abbrev json : Json
json = record {
  decode_profile = λ b. if b == "{}" then ok demo_payload else err "malformed";
  decode_listener = λ b. ok chat_payload;
}

abbrev fresh : ControlPlane
fresh = new_local_control_plane sample_net options

abbrev missing_profile : AdminRequest
missing_profile = record {
  method = "PUT";
  host = "127.0.0.1";
  path = "/_zolem/listeners/chat";
  body = "{}";
}

missing_profile_status :
    (serve_admin sample_net files env json fresh missing_profile).1.status ≡ 404
unfolding serve_admin new_local_control_plane zolem.Upstream.unmap lookup
missing_profile_status = refl

Settled-serve_admin_example :
    Settled fresh [] (serve_admin sample_net files env json fresh missing_profile)
Settled-serve_admin_example =
    Settled-serve_admin sample_net files env json fresh []
      (new_local_control_plane-IsControl sample_net files options) missing_profile

-- Slashes alone are a name to a profile route.
slash_named : local_resource_name "/_zolem/profiles/" "/_zolem/profiles//" ≡ some "/"
unfolding local_resource_name
slash_named = refl
