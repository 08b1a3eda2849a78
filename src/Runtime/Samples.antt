-- ===== src/Runtime/Samples.antt =====
-- Parsers, profiles and listeners that the tests run on.
use zolem.Base.{ℤ, pos, false, String, ◌==◌, Option, none, some, if◌then◌else◌, string_eq}
use zolem.Upstream.{Addr, v4}
use zolem.Runtime.{finite, StreamDelay, RuntimeProfile, ListenerSpec, Url, Net}
use zolem.Runtime.Bind.{BindPolicy}

-- Parsers that know the texts below.
abbrev pub split_sample : String → Option (String × String)
split_sample s =
    if s == "127.0.0.1:0"
    then some ("127.0.0.1", "0")
    else if s == "0.0.0.0:8091"
    then some ("0.0.0.0", "8091")
    else if s == "zolem.test:8090"
    then some ("zolem.test", "8090")
    else none

abbrev pub addr_sample : String → Option Addr
addr_sample s =
    if s == "127.0.0.1"
    then some (v4 127 0 0 1)
    else if s == "0.0.0.0"
    then some (v4 0 0 0 0)
    else if s == "10.0.0.7"
    then some (v4 10 0 0 7)
    else if s == "169.254.169.254"
    then some (v4 169 254 169 254)
    else none

abbrev pub url_sample : String → Option Url
url_sample s =
    if s == "http://10.0.0.7:11434"
    then some (record { scheme = "http"; host = "10.0.0.7:11434"; hostname = "10.0.0.7" })
    else if s == "http://169.254.169.254/"
    then some (record { scheme = "http"; host = "169.254.169.254"; hostname = "169.254.169.254" })
    else none

abbrev pub atoi_sample : String → Option ℤ
atoi_sample s =
    if s == "0"
    then some (pos 0)
    else if s == "8090"
    then some (pos 8090)
    else if s == "8091"
    then some (pos 8091)
    else if s == "8100"
    then some (pos 8100)
    else none

abbrev pub sample_net : Net
sample_net = record {
  split_host_port = split_sample;
  parse_ip = addr_sample;
  parse_addr = addr_sample;
  parse_url = url_sample;
  atoi = atoi_sample;
  equal_fold = ◌==◌;
  trim_space = λ s. s;
}

abbrev pub no_delay : StreamDelay
no_delay = record { mode = ""; ms = pos 0; min_ms = pos 0; max_ms = pos 0; seed = none }

abbrev pub demo : RuntimeProfile
demo = record {
  name = "demo";
  backend = "lorem";
  backend_model = "";
  error_type = "";
  retry_after_seconds = pos 0;
  response_model_policy = "";
  response_model = "";
  fixture_namespace = "team/a";
  ollama_upstream = "http://10.0.0.7:11434";
  allow_external_ollama_upstream = false;
  calibration_temperature = some (finite (pos 3));
  wasm_module_base64 = "";
  wasm_generate_timeout_ms = pos 0;
  stream_delay = record no_delay { mode = "random"; min_ms = pos 5; max_ms = pos 9 };
}

abbrev pub throttled : RuntimeProfile
throttled = record demo {
  name = "throttled";
  backend = "error";
  error_type = "rate_limit";
  retry_after_seconds = pos 30;
}

abbrev pub spec : ListenerSpec
spec = record {
  name = "openai-demo";
  addr = "127.0.0.1:0";
  provider = "openai";
  profile = "demo";
  tls = false;
}

abbrev pub loopback_only : BindPolicy
loopback_only = record { allow_wildcard = false; port_low = pos 0; port_high = pos 0 }
