-- ===== src/Launch/Tests.antt =====
-- Flags of a fixed listener that a container network reaches, and flags that main refuses.
use zolem.Base.{
  ℤ, pos, negsuc, true, false, String, ◌==◌, [], ◌∷◌, none, some, Result, ok, ◌≡◌, refl, All,
}
use zolem.Runtime.{finite}
use zolem.Runtime.Bind.{new_wildcard_bind_policy}
use zolem.Runtime.Samples.{sample_net}
use zolem.Startup.{runtime_of, runtime}
use zolem.Startup.Laws.{IsFixedHost}
use zolem.Launch.{Flags, not_positive, bad_flags, bad_policy, no_mode, fixed, fixed_options, launch}
use zolem.Launch.Laws.{IsAbove0, recorder_caps, flag_caps, launch-runtime}

abbrev flags : Flags
flags = record {
  show_version = false;
  local_admin_addr = "";
  local_addr = "0.0.0.0:8091";
  local_provider = "anthropic";
  local_profile = "default";
  local_backend = "faker";
  local_error_type = "";
  local_retry_after_seconds = pos 0;
  local_backend_model = "";
  local_ollama_upstream = "";
  local_calibration_temperature = finite (pos 0);
  calibration_visited = false;
  local_fixtures_dir = "";
  local_tls_cert = "";
  local_tls_key = "";
  local_calls_file = "";
  local_record_request_body_cap = pos 262144;
  local_record_response_body_cap = pos 262144;
  local_record_stream_event_cap = pos 1024;
  allowed_hosts = "zolem.test" ∷ [];
  allow_non_loopback_bind = true;
  listener_port_range = "";
}

starts :
    launch sample_net flags ≡ fixed (fixed_options flags (new_wildcard_bind_policy (pos 0) (pos 0)))
unfolding launch zolem.Base.less
starts = refl

-- The first bad cap in the order of the names is the one that is told of.
refused :
    launch sample_net (record flags {
      local_record_stream_event_cap = negsuc 0;
      local_record_response_body_cap = pos 0;
    })
    ≡ bad_flags (not_positive "local-record-response-body-cap-bytes" (pos 0))
unfolding launch zolem.Base.less
refused = refl

unreached : launch sample_net (record flags { allowed_hosts = [] }) ≡ bad_policy
unfolding launch
unreached = refl

modeless : launch sample_net (record flags { local_provider = "" }) ≡ no_mode
unfolding launch
modeless = refl

serves :
    runtime sample_net (fixed_options flags (new_wildcard_bind_policy (pos 0) (pos 0))).local
    ≡ ok (runtime_of (fixed_options flags (new_wildcard_bind_policy (pos 0) (pos 0))).local)
unfolding fixed_options runtime zolem.Runtime.Bind.validate_addr zolem.Upstream.unmap
    new_wildcard_bind_policy zolem.Runtime.Profile.validate_profile
    zolem.Runtime.Namespace.validate_fixture_namespace
serves = refl

launch-runtime_example :
    (recorder_caps (fixed_options flags (new_wildcard_bind_policy (pos 0) (pos 0)))
      ≡ flag_caps flags)
    × All IsAbove0 (recorder_caps (fixed_options flags (new_wildcard_bind_policy (pos 0) (pos 0))))
    × (((runtime_of
            (fixed_options flags (new_wildcard_bind_policy (pos 0) (pos 0))).local).profile.backend
          == "wasm")
        ≡ false)
    × ((host : String) × (port : String) × (sample_net.split_host_port
            (runtime_of
              (fixed_options flags (new_wildcard_bind_policy (pos 0) (pos 0))).local).spec.addr
          ≡ some (host, port))
        × IsFixedHost sample_net true ("zolem.test" ∷ []) host)
launch-runtime_example =
    launch-runtime sample_net flags (fixed_options flags (new_wildcard_bind_policy (pos 0) (pos 0)))
      (runtime_of (fixed_options flags (new_wildcard_bind_policy (pos 0) (pos 0))).local) starts
      serves
