-- ===== src/Startup/Tests.antt =====
-- A fixed listener that the flags open to a container network.
use zolem.Base.{pos, true, false, String, [], ◌∷◌, none, some, ok, ◌≡◌, refl}
use zolem.Runtime.{ListenerRuntime}
use zolem.Runtime.Samples.{sample_net}
use zolem.Runtime.Bind.{new_wildcard_bind_policy, validate_listener_spec_with_policy}
use zolem.Runtime.Profile.Laws.{IsValid}
use zolem.Startup.{LocalOptions, runtime_of, runtime, resolve_bind_policy}
use zolem.Startup.Laws.{IsFixedHost, runtime-IsFixedHost}

abbrev options : LocalOptions
options = record {
  addr = "0.0.0.0:8091";
  provider = "anthropic";
  profile = "";
  backend = "faker";
  error_type = "";
  retry_after_seconds = pos 0;
  backend_model = "";
  ollama_upstream = "";
  calibration_temperature = none;
  fixtures_dir = "";
  tls = record { cert_file = ""; key_file = "" };
  allowed_hosts = "zolem.test" ∷ [];
  bind_policy = new_wildcard_bind_policy (pos 0) (pos 0);
}

starts : runtime sample_net options ≡ ok (runtime_of options)
unfolding runtime zolem.Runtime.Bind.validate_addr zolem.Upstream.unmap new_wildcard_bind_policy
    zolem.Runtime.Profile.validate_profile zolem.Runtime.Namespace.validate_fixture_namespace
starts = refl

opted : resolve_bind_policy sample_net true ("zolem.test" ∷ []) "" false ≡ some options.bind_policy
unfolding resolve_bind_policy
opted = refl

runtime-IsFixedHost_example :
    (validate_listener_spec_with_policy sample_net (runtime_of options).spec options.bind_policy
      ≡ none)
    × IsValid sample_net (runtime_of options).profile
    × ((host : String) × (port : String) × (sample_net.split_host_port
            (runtime_of options).spec.addr
          ≡ some (host, port))
        × IsFixedHost sample_net true ("zolem.test" ∷ []) host)
runtime-IsFixedHost_example =
    runtime-IsFixedHost sample_net true ("zolem.test" ∷ []) "" false options (runtime_of options)
      opted starts
