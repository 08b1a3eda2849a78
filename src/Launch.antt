-- ===== src/Launch.antt =====
-- cmd/zolem/main.go: the mode that the flags choose and what it is given.
pub mod Laws
pub mod Tests
use zolem.Base.{
  ℤ, pos, Bool, true, false, not, ◌&&◌, String, ◌==◌, List, [], ◌∷◌, Option, none, some, ltb_ℤ,
  if◌then◌else◌,
}
use zolem.Runtime.{Float64, Net}
use zolem.Runtime.Bind.{BindPolicy}
use zolem.Runtime.Store.{sort_by_name}
use zolem.Startup.{LocalTlsConfig, LocalOptions, resolve_bind_policy}
use zolem.Control.{LocalAdminOptions}

pub data FlagError : Type 0 where
  not_positive : String → ℤ → FlagError
  no_wasm : FlagError

-- The first cap that is not positive.
unfoldable pub first_bad : List (String × ℤ) → Option FlagError
first_bad [] = none
first_bad ((name, n) ∷ caps) =
    let rest = first_bad caps in if not (ltb_ℤ (pos 0) n) then some (not_positive name n) else rest

-- The entries of the map, each name once, in any order.
unfoldable pub validate_fixed_mode_flags : String → List (String × ℤ) → Option FlagError
unfolding first_bad sort_by_name
validate_fixed_mode_flags backend caps = elim (first_bad (sort_by_name (λ c. c.0) caps)) [
  | some e ↦ some e
  | none ↦ if backend == "wasm" then some no_wasm else none
]

-- The flags as they are parsed; the last of the calibration says whether it was given.
pub record Flags : Type 0 where
  pub show_version : Bool
  pub local_admin_addr : String
  pub local_addr : String
  pub local_provider : String
  pub local_profile : String
  pub local_backend : String
  pub local_error_type : String
  pub local_retry_after_seconds : ℤ
  pub local_backend_model : String
  pub local_ollama_upstream : String
  pub local_calibration_temperature : Float64
  pub calibration_visited : Bool
  pub local_fixtures_dir : String
  pub local_tls_cert : String
  pub local_tls_key : String
  pub local_calls_file : String
  pub local_record_request_body_cap : ℤ
  pub local_record_response_body_cap : ℤ
  pub local_record_stream_event_cap : ℤ
  pub allowed_hosts : List String
  pub allow_non_loopback_bind : Bool
  pub listener_port_range : String

-- What runLocal is given: the listener's options and those of its recorder.
pub record FixedOptions : Type 0 where
  pub local : LocalOptions
  pub calls_file : String
  pub record_request_body_cap_bytes : ℤ
  pub record_response_body_cap_bytes : ℤ
  pub record_stream_event_cap : ℤ

-- What main does once the flags are read; the exit codes are 0 for the version, 1 for a policy that
-- does not resolve and 2 for the last two.
pub data Launch : Type 0 where
  print_version bad_policy : Launch
  admin : LocalAdminOptions → Launch
  fixed : FixedOptions → Launch
  bad_flags : FlagError → Launch
  no_mode : Launch

abbrev pub tls_of : Flags → LocalTlsConfig
tls_of f = record { cert_file = f.local_tls_cert; key_file = f.local_tls_key }

unfoldable pub admin_options : Flags → BindPolicy → LocalAdminOptions
admin_options f policy = record {
  addr = f.local_admin_addr;
  fixtures_dir = f.local_fixtures_dir;
  tls = tls_of f;
  allowed_hosts = f.allowed_hosts;
  bind_policy = policy;
}

unfoldable pub fixed_options : Flags → BindPolicy → FixedOptions
fixed_options f policy = record {
  local = record {
    addr = f.local_addr;
    provider = f.local_provider;
    profile = f.local_profile;
    backend = f.local_backend;
    error_type = f.local_error_type;
    retry_after_seconds = f.local_retry_after_seconds;
    backend_model = f.local_backend_model;
    ollama_upstream = f.local_ollama_upstream;
    calibration_temperature =
        if f.calibration_visited then some f.local_calibration_temperature else none;
    fixtures_dir = f.local_fixtures_dir;
    tls = tls_of f;
    allowed_hosts = f.allowed_hosts;
    bind_policy = policy;
  };
  calls_file = f.local_calls_file;
  record_request_body_cap_bytes = f.local_record_request_body_cap;
  record_response_body_cap_bytes = f.local_record_response_body_cap;
  record_stream_event_cap = f.local_record_stream_event_cap;
}

abbrev pub caps_of : Flags → List (String × ℤ)
caps_of f =
    ("local-record-request-body-cap-bytes", f.local_record_request_body_cap)
    ∷ ("local-record-response-body-cap-bytes", f.local_record_response_body_cap)
    ∷ ("local-record-stream-event-cap", f.local_record_stream_event_cap)
    ∷ []

-- The mode once a policy is resolved: the admin mode wins where both are chosen.
unfoldable pub mode_of : Flags → BindPolicy → Launch
unfolding admin_options fixed_options validate_fixed_mode_flags
mode_of f policy =
    if not (f.local_admin_addr == "")
    then admin (admin_options f policy)
    else elim (validate_fixed_mode_flags f.local_backend (caps_of f)) [
      | some e ↦ bad_flags e
      | none ↦ fixed (fixed_options f policy)
    ]

unfoldable pub launch : Net → Flags → Launch
unfolding mode_of resolve_bind_policy
launch net f =
    if f.show_version
    then print_version
    else if f.local_admin_addr == "" && f.local_provider == ""
    then no_mode
    else elim (resolve_bind_policy net f.allow_non_loopback_bind f.allowed_hosts
        f.listener_port_range (not (f.local_admin_addr == ""))) [
          | none ↦ bad_policy
          | some policy ↦ mode_of f policy
        ]
