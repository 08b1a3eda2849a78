-- ===== src/Runtime/Profile.antt =====
-- The profile checks of internal/runtime/store.go. An error is `Option` of a constructor for each
-- message; `none` is nil.
pub mod Laws
use zolem.Base.{
  ℕ, ◌<◌, ℤ, pos, negsuc, ltb_ℤ, is_zero, Bool, true, false, not, ◌&&◌, ◌||◌, String, ◌==◌, codes,
  Option, none, some, if◌then◌else◌,
}
use zolem.Upstream.{Class, blocked, private, public, classify}
use zolem.Runtime.{Float64, nan, inf, finite, StreamDelay, RuntimeProfile, Url, Net}
use zolem.Runtime.Namespace.{NamespaceError, validate_fixture_namespace}

pub data ProfileError : Type 0 where
  name_required : ProfileError
  bad_namespace : NamespaceError → ProfileError
  error_type_required unknown_error_type error_type_not_allowed retry_not_allowed retry_out_of_range
        retry_needs_rate_limit_or_overloaded :
      ProfileError
  response_model_required unknown_response_model_policy : ProfileError
  upstream_invalid upstream_scheme upstream_host upstream_blocked upstream_not_private :
      ProfileError
  bad_temperature backend_model_required : ProfileError
  wasm_required wasm_timeout_negative wasm_timeout_range wasm_not_allowed wasm_timeout_not_allowed :
      ProfileError
  delay_mode_required delay_ms_negative delay_fixed_only_ms delay_range_negative delay_range_order
        delay_random_no_ms unknown_delay_mode :
      ProfileError
  unknown_backend : ProfileError

-- if err := a; err != nil { return err }, then the rest.
infixr 5 ◌⨾◌
abbrev pub ◌⨾◌ : Option ProfileError → Option ProfileError → Option ProfileError
some e ⨾ rest = some e
none ⨾ rest = rest

-- MaxRetryAfterSeconds.
abbrev pub max_retry_after_seconds : ℕ
max_retry_after_seconds = 3600

pub validate_error_type : String → Option ProfileError
validate_error_type value =
    if value == "authentication"
      || value == "permission"
      || value == "invalid_request"
      || value == "rate_limit"
      || value == "server_error"
      || value == "overloaded"
    then none
    else if value == ""
    then some error_type_required
    else some unknown_error_type

-- The switch on the backend that begins validateErrorProfile.
pub validate_error_fields : RuntimeProfile → Option ProfileError
unfolding validate_error_type
validate_error_fields p =
    if p.backend == "error"
    then validate_error_type p.error_type
    else if not (p.error_type == "")
    then some error_type_not_allowed
    else if not (is_zero p.retry_after_seconds)
    then some retry_not_allowed
    else none

pub validate_error_profile : RuntimeProfile → Option ProfileError
validate_error_profile p =
    validate_error_fields p
    ⨾ (if ltb_ℤ p.retry_after_seconds (pos 0)
          || ltb_ℤ (pos max_retry_after_seconds) p.retry_after_seconds
        then some retry_out_of_range
        else if not (is_zero p.retry_after_seconds)
            && not (p.error_type == "rate_limit")
            && not (p.error_type == "overloaded")
        then some retry_needs_rate_limit_or_overloaded
        else none)

pub validate_response_model_policy : RuntimeProfile → Option ProfileError
validate_response_model_policy p =
    if p.response_model_policy == ""
      || p.response_model_policy == "echo_request"
      || p.response_model_policy == "force_literal"
      || p.response_model_policy == "force_backend"
    then if p.response_model_policy == "force_literal" && p.response_model == ""
      then some response_model_required
      else none
    else some unknown_response_model_policy

-- math.IsNaN(t) || math.IsInf(t, 0) || t <= 0
abbrev is_bad_temperature : Float64 → Bool
is_bad_temperature nan = true
is_bad_temperature (inf negative) = true
is_bad_temperature (finite n) = not (ltb_ℤ (pos 0) n)

abbrev validate_temperature : Option Float64 → Option ProfileError
validate_temperature none = none
validate_temperature (some t) = if is_bad_temperature t then some bad_temperature else none

pub validate_ollama_logprob_profile : RuntimeProfile → Option ProfileError
validate_ollama_logprob_profile p =
    validate_temperature p.calibration_temperature
    ⨾ (if p.backend == "ollama-logprob" && p.backend_model == ""
        then some backend_model_required
        else none)

abbrev is_blocked_class : Option Class → Bool
is_blocked_class (some blocked) = true
is_blocked_class _ = false

abbrev is_private_class : Option Class → Bool
is_private_class (some private) = true
is_private_class _ = false

pub validate_wasm_profile : RuntimeProfile → Option ProfileError
validate_wasm_profile p =
    let timeout = p.wasm_generate_timeout_ms in
    if p.backend == "wasm"
    then if p.wasm_module_base64 == ""
      then some wasm_required
      else if ltb_ℤ timeout (pos 0)
      then some wasm_timeout_negative
      else if not (is_zero timeout) && (ltb_ℤ timeout (pos 1) || ltb_ℤ (pos 5000) timeout)
      then some wasm_timeout_range
      else none
    else if not (p.wasm_module_base64 == "")
    then some wasm_not_allowed
    else if not (is_zero timeout)
    then some wasm_timeout_not_allowed
    else none

abbrev pub is_set {ℓ} : {A : Type ℓ} → Option A → Bool
is_set none = false
is_set (some a) = true

pub validate_stream_delay : StreamDelay → Option ProfileError
validate_stream_delay d =
    if d.mode == ""
    then if not (is_zero d.ms) || not (is_zero d.min_ms) || not (is_zero d.max_ms) || is_set d.seed
      then some delay_mode_required
      else none
    else if d.mode == "fixed"
    then if ltb_ℤ d.ms (pos 0)
      then some delay_ms_negative
      else if not (is_zero d.min_ms) || not (is_zero d.max_ms) || is_set d.seed
      then some delay_fixed_only_ms
      else none
    else if d.mode == "random"
    then if ltb_ℤ d.min_ms (pos 0) || ltb_ℤ d.max_ms (pos 0)
      then some delay_range_negative
      else if ltb_ℤ d.max_ms d.min_ms
      then some delay_range_order
      else if not (is_zero d.ms)
      then some delay_random_no_ms
      else none
    else some unknown_delay_mode

-- The last switch of ValidateProfile.
pub validate_backend : String → Option ProfileError
validate_backend b =
    if b == ""
      || b == "lorem"
      || b == "faker"
      || b == "fixture"
      || b == "ollama"
      || b == "ollama-logprob"
      || b == "error"
      || b == "wasm"
    then none
    else some unknown_backend

abbrev of_namespace : Option NamespaceError → Option ProfileError
of_namespace none = none
of_namespace (some e) = some (bad_namespace e)

module _ (net : Net) where
  -- The class of a host that is an address; `none` for a name.
  pub ollama_upstream_host_class : String → Option Class
  ollama_upstream_host_class host = elim (net.parse_addr host) [
    | none ↦ none
    | some addr ↦ some (classify addr)
  ]

  pub ollama_upstream_host_is_blocked : String → Bool
  unfolding ollama_upstream_host_class
  ollama_upstream_host_is_blocked host = is_blocked_class (ollama_upstream_host_class host)

  pub ollama_upstream_host_is_private : String → Bool
  unfolding ollama_upstream_host_class
  ollama_upstream_host_is_private host =
      net.equal_fold host "localhost" || is_private_class (ollama_upstream_host_class host)

  pub validate_upstream_url : Bool → Option Url → Option ProfileError
  unfolding ollama_upstream_host_is_blocked ollama_upstream_host_is_private
  validate_upstream_url external none = some upstream_invalid
  validate_upstream_url external (some u) =
      if not (u.scheme == "http") && not (u.scheme == "https")
      then some upstream_scheme
      else if u.host == ""
      then some upstream_host
      else if ollama_upstream_host_is_blocked u.hostname
      then some upstream_blocked
      else if external
      then none
      else if not (ollama_upstream_host_is_private u.hostname)
      then some upstream_not_private
      else none

  pub validate_ollama_upstream : RuntimeProfile → Option ProfileError
  unfolding validate_upstream_url
  validate_ollama_upstream p =
      if p.ollama_upstream == ""
      then none
      else validate_upstream_url p.allow_external_ollama_upstream (net.parse_url p.ollama_upstream)

  unfoldable pub validate_profile : RuntimeProfile → Option ProfileError
  unfolding validate_error_profile validate_error_fields validate_response_model_policy
      validate_ollama_upstream validate_ollama_logprob_profile validate_wasm_profile
      validate_stream_delay validate_backend
  validate_profile p =
      if p.name == ""
      then some name_required
      else of_namespace (validate_fixture_namespace (codes p.fixture_namespace))
        ⨾ validate_error_profile p
        ⨾ validate_response_model_policy p
        ⨾ validate_ollama_upstream p
        ⨾ validate_ollama_logprob_profile p
        ⨾ validate_wasm_profile p
        ⨾ validate_stream_delay p.stream_delay
        ⨾ validate_backend p.backend
