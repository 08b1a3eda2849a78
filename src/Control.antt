-- ===== src/Control.antt =====
-- The control plane of cmd/zolem/local_admin.go, with the wire types of internal/adminapi/adminapi.go.
pub mod Profiles
pub mod Listeners
pub mod Admin
pub mod Owners
pub mod State
pub mod Steps
pub mod Tests
use zolem.Base.{ℕ, ℤ, Bool, String, List, [], Option, if◌then◌else◌, append_text}
use zolem.Runtime.{Net, Float64, StreamDelay, ListenerSpec, ListenerRuntime}
use zolem.Runtime.Profile.{ProfileError}
use zolem.Runtime.Bind.{BindPolicy, ListenerError}
use zolem.Runtime.Host.{normalize_allowed_hosts}
use zolem.Runtime.Store.{Store, StoreError, new_store_with_bind_policy}
use zolem.Runtime.Counters.{ProfileCounters}
use zolem.Recorder.{RecordCaps}
use zolem.Recorder.Log.{Recorder}
use zolem.Startup.{StartupError, LocalTlsConfig, advertised_addr}
use zolem.Startup.App.{Env, World, StartupApp}

pub record ProfilePayload : Type 0 where
  pub backend : String
  pub backend_model : String
  pub error_type : String
  pub retry_after_seconds : ℤ
  pub response_model_policy : String
  pub response_model : String
  pub fixture_namespace : String
  pub ollama_upstream : String
  pub allow_external_ollama_upstream : Bool
  pub calibration_temperature : Option Float64
  pub wasm_module_base64 : String
  pub wasm_generate_timeout_ms : Option ℤ
  pub stream_delay : StreamDelay

pub record ListenerPayload : Type 0 where
  pub addr : String
  pub provider : String
  pub profile : String
  pub tls : Bool
  pub record_request_body_cap_bytes : Option ℤ
  pub record_response_body_cap_bytes : Option ℤ
  pub record_stream_event_cap : Option ℤ

pub record ListenerView : Type 0 where
  pub name : String
  pub addr : String
  pub provider : String
  pub profile : String
  pub backend : String
  pub tls : Bool
  pub base_url : String
  pub caps : RecordCaps

pub data ControlError : Type 0 where
  in_store : StoreError → ControlError
  in_profile : ProfileError → ControlError
  in_listener : ListenerError → ControlError
  in_startup : StartupError → ControlError
  cap_not_positive : ControlError
  fixture_backend_unavailable fixtures_dir_missing namespace_missing : ControlError

-- A listener that is served; `server` is the number of its open server.
pub record ManagedListener : Type 0 where
  pub runtime : ListenerRuntime
  pub app : StartupApp
  pub server : ℕ
  pub base_url : String
  pub recorder : Recorder
  pub caps : RecordCaps

-- localControlPlane, with what the process has open.
pub record ControlPlane : Type 0 where
  pub store : Store
  pub fixtures_dir : String
  pub tls : LocalTlsConfig
  pub counters : ProfileCounters
  pub allowed_hosts : List String
  pub listeners : List (String × ManagedListener)
  pub world : World

pub record LocalAdminOptions : Type 0 where
  pub addr : String
  pub fixtures_dir : String
  pub tls : LocalTlsConfig
  pub allowed_hosts : List String
  pub bind_policy : BindPolicy

-- Which directories there are, paths below one, and net.JoinHostPort.
pub record Files : Type 0 where
  pub is_dir : String → Bool
  pub join_path : String → String → String
  pub join_host_port : String → String → String

abbrev pub view_of_parts : ListenerRuntime → String → RecordCaps → ListenerView
view_of_parts rt base_url caps = record {
  name = rt.spec.name;
  addr = rt.spec.addr;
  provider = rt.spec.provider;
  profile = rt.spec.profile;
  backend = rt.profile.backend;
  tls = rt.spec.tls;
  base_url = base_url;
  caps = caps;
}

abbrev pub view_of : ManagedListener → ListenerView
view_of m = view_of_parts m.runtime m.base_url m.caps

unfoldable pub local_base_url : Net → Files → ListenerSpec → String
unfolding advertised_addr
local_base_url net files spec =
    append_text (if spec.tls then "https" else "http")
      (append_text "://" (advertised_addr net files.join_host_port spec.addr))

unfoldable pub new_local_control_plane : Net → LocalAdminOptions → ControlPlane
unfolding new_store_with_bind_policy normalize_allowed_hosts
new_local_control_plane net opts = record {
  store = new_store_with_bind_policy opts.bind_policy;
  fixtures_dir = opts.fixtures_dir;
  tls = opts.tls;
  counters = [];
  allowed_hosts = normalize_allowed_hosts net opts.allowed_hosts;
  listeners = [];
  world = record { next = 0; live = [] };
}
