-- ===== src/Startup.antt =====
-- cmd/zolem/startup.go and bindpolicy.go: what the flags make of a listener and of the address
-- policy.
pub mod App
pub mod Laws
pub mod Tests
use zolem.Base.{
  ℕ, ℤ, pos, Bool, true, false, not, ◌&&◌, ◌||◌, String, ◌==◌, List, [], ◌∷◌, Option, none, some,
  if◌then◌else◌, any, append_text, Result, ok, err,
}
use zolem.Runtime.{
  Net, Float64, StreamDelay, RuntimeProfile, ListenerSpec, ListenerRuntime, valid_provider,
}
use zolem.Runtime.Profile.{ProfileError, validate_profile}
use zolem.Runtime.Bind.{
  BindPolicy, ListenerError, validate_addr, new_wildcard_bind_policy, parse_port_range,
  is_loopback_name, is_wildcard_host,
}

pub record LocalTlsConfig : Type 0 where
  pub cert_file : String
  pub key_file : String

pub data StartupError : Type 0 where
  tls_pair invalid_provider : StartupError
  invalid_addr : ListenerError → StartupError
  invalid_profile : ProfileError → StartupError
  unsupported_for_typesafe only_for_typesafe no_fixtures_dir unsupported_backend : StartupError
  bad_fixtures bad_wasm : String → StartupError
  tls_not_configured : StartupError
  bind_failed : StartupError

-- The options that a fixed listener's identity is made of.
pub record LocalOptions : Type 0 where
  pub addr : String
  pub provider : String
  pub profile : String
  pub backend : String
  pub error_type : String
  pub retry_after_seconds : ℤ
  pub backend_model : String
  pub ollama_upstream : String
  pub calibration_temperature : Option Float64
  pub fixtures_dir : String
  pub tls : LocalTlsConfig
  pub allowed_hosts : List String
  pub bind_policy : BindPolicy

unfoldable pub tls_enabled : LocalTlsConfig → Bool
tls_enabled c = not (c.cert_file == "") || not (c.key_file == "")

unfoldable pub tls_validate : LocalTlsConfig → Option StartupError
tls_validate c =
    if c.cert_file == "" && c.key_file == ""
    then none
    else if c.cert_file == "" || c.key_file == ""
    then some tls_pair
    else none

abbrev pub or_default : String → String → String
or_default value default = if value == "" then default else value

abbrev pub zero_delay : StreamDelay
zero_delay = record { mode = ""; ms = pos 0; min_ms = pos 0; max_ms = pos 0; seed = none }

unfoldable pub provider_listener_name : String → String → String
provider_listener_name provider profile = append_text provider (append_text "-" profile)

-- The profile of the flags; what they do not set is zero.
unfoldable pub profile_of : LocalOptions → RuntimeProfile
profile_of o = record {
  name = or_default o.profile "default";
  backend = or_default o.backend "lorem";
  backend_model = o.backend_model;
  error_type = o.error_type;
  retry_after_seconds = o.retry_after_seconds;
  response_model_policy = "";
  response_model = "";
  fixture_namespace = "";
  ollama_upstream = o.ollama_upstream;
  allow_external_ollama_upstream = false;
  calibration_temperature = o.calibration_temperature;
  wasm_module_base64 = "";
  wasm_generate_timeout_ms = pos 0;
  stream_delay = zero_delay;
}

unfoldable pub runtime_of : LocalOptions → ListenerRuntime
unfolding profile_of provider_listener_name tls_enabled
runtime_of o =
    let profile = or_default o.profile "default" in
    record {
      spec = record {
        name = provider_listener_name o.provider profile;
        addr = or_default o.addr "127.0.0.1:8080";
        provider = o.provider;
        profile = profile;
        tls = tls_enabled o.tls;
      };
      profile = profile_of o;
    }

-- The range and its absence, for a control plane.
abbrev pub policy_of_range : Option (ℤ × ℤ) → Option BindPolicy
policy_of_range none = none
policy_of_range (some (low, high)) = some (new_wildcard_bind_policy low high)

module _ (net : Net) where
  unfoldable pub runtime : LocalOptions → Result StartupError ListenerRuntime
  unfolding tls_validate runtime_of valid_provider
  runtime o = elim (tls_validate o.tls) [
    | some e ↦ err e
    | none ↦
        if not (valid_provider o.provider)
        then err invalid_provider
        else elim (validate_addr net o.bind_policy (runtime_of o).spec.addr) [
          | some e ↦ err (invalid_addr e)
          | none ↦ elim (validate_profile net (runtime_of o).profile) [
            | some e ↦ err (invalid_profile e)
            | none ↦ ok (runtime_of o)
          ]
        ]
  ]

  -- resolveBindPolicy, whose errors are `none`; no hosts are none that is not loopback.
  unfoldable pub resolve_bind_policy : Bool → List String → String → Bool → Option BindPolicy
  unfolding parse_port_range new_wildcard_bind_policy is_loopback_name
  resolve_bind_policy allow allowed_hosts port_range control_plane =
      if not allow
      then (if not (port_range == "")
          then none
          else some (record { allow_wildcard = false; port_low = pos 0; port_high = pos 0 }))
      else if not (any (λ h. not (is_loopback_name net h)) allowed_hosts)
      then none
      else if not control_plane
      then (if not (port_range == "")
          then none
          else some (new_wildcard_bind_policy (pos 0) (pos 0)))
      else if port_range == ""
      then none
      else policy_of_range (parse_port_range net port_range)

  -- advertisedAddr; `join` is net.JoinHostPort.
  unfoldable pub advertised_addr : (String → String → String) → String → String
  advertised_addr join addr = elim (net.split_host_port addr) [
    | none ↦ addr
    | some (host, port) ↦ if not (is_wildcard_host net host) then addr else join "localhost" port
  ]

unfoldable pub admin_bind_policy : BindPolicy → BindPolicy
admin_bind_policy p =
    if p.allow_wildcard
    then new_wildcard_bind_policy (pos 0) (pos 0)
    else record { allow_wildcard = false; port_low = pos 0; port_high = pos 0 }

-- The schemas that a provider's requests are checked against, a provider and a version each.
unfoldable pub provider_spec_keys : String → List (String × String)
provider_spec_keys provider =
    if provider == "anthropic"
    then ("anthropic", "v1") ∷ []
    else if provider == "openai"
    then ("openai", "v1") ∷ ("openai", "v1-responses") ∷ []
    else if provider == "gemini"
    then ("gemini", "v1") ∷ ("gemini", "v1beta") ∷ []
    else if provider == "ollama"
    then ("ollama", "v1") ∷ ("ollama", "v1-generate") ∷ []
    else if provider == "typesafe"
    then ("typesafe", "v1") ∷ []
    else []
