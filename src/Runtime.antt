-- ===== src/Runtime.antt =====
-- internal/runtime/runtime.go, provider.go and the constants of backend.go, error_type.go and
-- response_model.go: the records that a profile and a listener are made of.
pub mod Namespace
pub mod Profile
pub mod Host
pub mod Bind
pub mod Samples
pub mod Tests
pub mod Store
pub mod Counters
pub mod Request
pub mod Delay
use zolem.Base.{ℕ, ℤ, Bool, String, Option, List, [], ◌∷◌, ◌==◌, any}
use zolem.Upstream.{Addr}

-- A float64: every finite one is a whole multiple of 2 ^ -1074, which `finite` counts.
pub data Float64 : Type 0 where
  nan : Float64
  inf : (negative : Bool) → Float64
  finite : ℤ → Float64

pub record StreamDelay : Type 0 where
  pub mode : String
  pub ms : ℤ
  pub min_ms : ℤ
  pub max_ms : ℤ
  pub seed : Option ℤ

pub record RuntimeProfile : Type 0 where
  pub name : String
  pub backend : String
  pub backend_model : String
  pub error_type : String
  pub retry_after_seconds : ℤ
  pub response_model_policy : String
  pub response_model : String
  pub fixture_namespace : String
  pub ollama_upstream : String
  pub allow_external_ollama_upstream : Bool
  pub calibration_temperature : Option Float64
  pub wasm_module_base64 : String
  pub wasm_generate_timeout_ms : ℤ
  pub stream_delay : StreamDelay

pub record ListenerSpec : Type 0 where
  pub name : String
  pub addr : String
  pub provider : String
  pub profile : String
  pub tls : Bool

pub record ListenerRuntime : Type 0 where
  pub spec : ListenerSpec
  pub profile : RuntimeProfile

-- url.URL, as far as the program reads it.
pub record Url : Type 0 where
  pub scheme : String
  pub host : String
  pub hostname : String

-- The parsers of packages net, net/netip, net/url, strconv and strings that the program calls on
-- text. Nothing below depends on how they read it.
pub record Net : Type 0 where
  pub split_host_port : String → Option (String × String)
  pub parse_ip : String → Option Addr
  pub parse_addr : String → Option Addr
  pub parse_url : String → Option Url
  pub atoi : String → Option ℤ
  pub equal_fold : String → String → Bool
  pub trim_space : String → String

abbrev pub providers : List String
providers = "anthropic" ∷ "gemini" ∷ "ollama" ∷ "openai" ∷ "typesafe" ∷ []

unfoldable pub valid_provider : String → Bool
valid_provider name = any (λ p. p == name) providers
