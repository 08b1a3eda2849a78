-- ===== src/Runtime/Profile/Laws/Parts.antt =====
-- The checks that read the profile alone.
use zolem.Base.{
  ℕ, zero, suc, ◌≤◌, ℤ, pos, negsuc, ltb_ℤ, is_zero, true, false, not, ◌&&◌, ◌||◌, String, ◌==◌,
  eq_iff, Option, none, some, if◌then◌else◌, ◌≡◌, refl, ◌≢◌, ◌⊎◌, inl, inr, ◌↔◌, arith, Bool-cases,
}
use zolem.Runtime.{Float64, nan, inf, finite, StreamDelay, RuntimeProfile}
use zolem.Runtime.Profile.{
  ProfileError, wasm_timeout_negative, wasm_timeout_range, validate_temperature, retry_out_of_range,
  retry_needs_rate_limit_or_overloaded, ◌⨾◌, validate_error_type, validate_error_fields,
  validate_error_profile, validate_response_model_policy, validate_ollama_logprob_profile,
  validate_wasm_profile, validate_stream_delay, validate_backend, is_set,
}

pub ⨾-none : (a b : Option ProfileError) → ((a ⨾ b) ≡ none) ↔ ((a ≡ none) × (b ≡ none))
⨾-none a b = ground arith

abbrev pub IsErrorType : String → Type 0
IsErrorType t =
    (t ≡ "authentication")
    ⊎ (t ≡ "permission")
    ⊎ (t ≡ "invalid_request")
    ⊎ (t ≡ "rate_limit")
    ⊎ (t ≡ "server_error")
    ⊎ (t ≡ "overloaded")

validate_error_type_iff : (t : String) → (validate_error_type t ≡ none) ↔ IsErrorType t
unfolding validate_error_type
validate_error_type_iff t = (
  λ h. ground (
    arith,
    eq_iff t "authentication",
    eq_iff t "permission",
    eq_iff t "invalid_request",
    eq_iff t "rate_limit",
    eq_iff t "server_error",
    eq_iff t "overloaded",
    eq_iff t "",
  ),
  λ h. ground (
    arith,
    eq_iff t "authentication",
    eq_iff t "permission",
    eq_iff t "invalid_request",
    eq_iff t "rate_limit",
    eq_iff t "server_error",
    eq_iff t "overloaded",
    eq_iff t "",
  ),
)

-- Only the error backend has an error type, and only its two retryable types a delay, of at most an
-- hour.
abbrev pub IsErrorSetup : RuntimeProfile → Type 0
IsErrorSetup p =
    (((p.backend ≡ "error") × IsErrorType p.error_type)
      ⊎ ((p.backend ≢ "error") × (p.error_type ≡ "")))
    × ((p.retry_after_seconds ≡ pos 0)
        ⊎ (((p.error_type ≡ "rate_limit") ⊎ (p.error_type ≡ "overloaded"))
            × ((n : ℕ) × (p.retry_after_seconds ≡ pos n) × (n ≤ 3600))))

abbrev HasErrorFields : RuntimeProfile → Type 0
HasErrorFields p =
    ((p.backend ≡ "error") × IsErrorType p.error_type)
    ⊎ ((p.backend ≢ "error") × (p.error_type ≡ "") × (p.retry_after_seconds ≡ pos 0))

is_zero_iff : (n : ℤ) → (is_zero n ≡ true) ↔ (n ≡ pos 0)
is_zero_iff (pos zero) = ground arith
is_zero_iff (pos (suc n)) = ground arith
is_zero_iff (negsuc n) = ground arith

validate_error_fields_iff :
    (p : RuntimeProfile) → (validate_error_fields p ≡ none) ↔ HasErrorFields p
unfolding validate_error_fields
validate_error_fields_iff p =
    let type_iff = validate_error_type_iff p.error_type in
    (
      λ h. ground (
        arith,
        eq_iff p.backend "error",
        type_iff,
        eq_iff p.error_type "",
        is_zero_iff p.retry_after_seconds,
      ),
      λ h. ground (
        arith,
        eq_iff p.backend "error",
        type_iff,
        eq_iff p.error_type "",
        is_zero_iff p.retry_after_seconds,
      ),
    )

abbrev IsRetry : ℤ → String → Type 0
IsRetry n t =
    (n ≡ pos 0) ⊎ (((t ≡ "rate_limit") ⊎ (t ≡ "overloaded")) × ((k : ℕ) × (n ≡ pos k) × (k ≤ 3600)))

-- The two checks at the end of validateErrorProfile.
abbrev retry_check : ℤ → String → Option ProfileError
retry_check n t =
    if ltb_ℤ n (pos 0) || ltb_ℤ (pos 3600) n
    then some retry_out_of_range
    else if not (is_zero n) && not (t == "rate_limit") && not (t == "overloaded")
    then some retry_needs_rate_limit_or_overloaded
    else none

retry_check_iff : (n : ℤ) (t : String) → (retry_check n t ≡ none) ↔ IsRetry n t
retry_check_iff (negsuc n) t = (λ h. absurd (ground arith), λ h. absurd (ground arith))
retry_check_iff (pos zero) t = (λ h. inl refl, λ h. refl)
retry_check_iff (pos (suc n)) t = (
  λ h.
      inr
        (ground (arith, eq_iff t "rate_limit", eq_iff t "overloaded"), (suc n, refl, ground arith)),
  λ h. ground (arith, eq_iff t "rate_limit", eq_iff t "overloaded"),
)

pub validate_error_profile_iff :
    (p : RuntimeProfile) → (validate_error_profile p ≡ none) ↔ IsErrorSetup p
unfolding validate_error_profile
validate_error_profile_iff p =
    let fields_iff = validate_error_fields_iff p in
    let retry_iff = retry_check_iff p.retry_after_seconds p.error_type in
    let chain = ⨾-none (validate_error_fields p) (retry_check p.retry_after_seconds p.error_type) in
    (
      λ h.
          let (f, r) = chain.0 h in
          elim (fields_iff.0 f) [
            | inl e ↦ (inl e, retry_iff.0 r)
            | inr e ↦ (inr (e.0, e.1), retry_iff.0 r)
          ],
      λ h. chain.1 (
        fields_iff.1 (ground (arith, eq_iff "" "rate_limit", eq_iff "" "overloaded")),
        retry_iff.1 h.1,
      ),
    )

abbrev pub IsModelPolicy : RuntimeProfile → Type 0
IsModelPolicy p =
    (p.response_model_policy ≡ "")
    ⊎ (p.response_model_policy ≡ "echo_request")
    ⊎ ((p.response_model_policy ≡ "force_literal") × (p.response_model ≢ ""))
    ⊎ (p.response_model_policy ≡ "force_backend")

pub validate_response_model_policy_iff :
    (p : RuntimeProfile) → (validate_response_model_policy p ≡ none) ↔ IsModelPolicy p
unfolding validate_response_model_policy
validate_response_model_policy_iff p = (
  λ h. ground (
    arith,
    eq_iff p.response_model_policy "",
    eq_iff p.response_model_policy "echo_request",
    eq_iff p.response_model_policy "force_literal",
    eq_iff p.response_model_policy "force_backend",
    eq_iff p.response_model "",
  ),
  λ h. ground (
    arith,
    eq_iff p.response_model_policy "",
    eq_iff p.response_model_policy "echo_request",
    eq_iff p.response_model_policy "force_literal",
    eq_iff p.response_model_policy "force_backend",
    eq_iff p.response_model "",
    eq_iff "" "force_literal",
    eq_iff "echo_request" "force_literal",
    eq_iff "force_backend" "force_literal",
  ),
)

-- A calibration temperature is finite and positive.
abbrev pub IsTemperature : Option Float64 → Type 0
IsTemperature none = Unit
IsTemperature (some nan) = ⊥
IsTemperature (some (inf negative)) = ⊥
IsTemperature (some (finite n)) = (k : ℕ) × (n ≡ pos (suc k))

abbrev pub IsCalibrated : RuntimeProfile → Type 0
IsCalibrated p =
    IsTemperature p.calibration_temperature
    × ((p.backend ≢ "ollama-logprob") ⊎ (p.backend_model ≢ ""))

abbrev pub IsWasmSetup : RuntimeProfile → Type 0
IsWasmSetup p =
    ((p.backend ≡ "wasm")
      × (p.wasm_module_base64 ≢ "")
      × ((n : ℕ) × (p.wasm_generate_timeout_ms ≡ pos n) × (n ≤ 5000)))
    ⊎ ((p.backend ≢ "wasm") × (p.wasm_module_base64 ≡ "") × (p.wasm_generate_timeout_ms ≡ pos 0))

validate_temperature_iff : (t : Option Float64) → (validate_temperature t ≡ none) ↔ IsTemperature t
validate_temperature_iff none = (λ h. tt, λ h. refl)
validate_temperature_iff (some nan) = (λ h. absurd (ground arith), λ h. absurd h)
validate_temperature_iff (some (inf negative)) = (λ h. absurd (ground arith), λ h. absurd h)
validate_temperature_iff (some (finite (negsuc n))) =
    (λ h. absurd (ground arith), λ h. absurd (ground arith))
validate_temperature_iff (some (finite (pos zero))) =
    (λ h. absurd (ground arith), λ h. absurd (ground arith))
validate_temperature_iff (some (finite (pos (suc n)))) = (λ h. (n, refl), λ h. ground arith)

pub validate_ollama_logprob_profile_iff :
    (p : RuntimeProfile) → (validate_ollama_logprob_profile p ≡ none) ↔ IsCalibrated p
unfolding validate_ollama_logprob_profile
validate_ollama_logprob_profile_iff p =
    let temperature_iff = validate_temperature_iff p.calibration_temperature in
    let chain = ⨾-none (validate_temperature p.calibration_temperature) _ in
    (
      λ h. (
        temperature_iff.0 (chain.0 h).0,
        ground (arith, (chain.0 h).1, eq_iff p.backend "ollama-logprob", eq_iff p.backend_model ""),
      ),
      λ h. chain.1 (
        temperature_iff.1 h.0,
        ground (arith, h.1, eq_iff p.backend "ollama-logprob", eq_iff p.backend_model ""),
      ),
    )

is_negative_iff : (n : ℤ) → (ltb_ℤ n (pos 0) ≡ false) ↔ ((k : ℕ) × (n ≡ pos k))
is_negative_iff (pos n) = (λ h. (n, refl), λ h. ground arith)
is_negative_iff (negsuc n) = (λ h. absurd (ground arith), λ h. absurd (ground arith))

-- The two range checks on a module's time limit.
abbrev timeout_check : ℤ → Option ProfileError
timeout_check timeout =
    if ltb_ℤ timeout (pos 0)
    then some wasm_timeout_negative
    else if not (is_zero timeout) && (ltb_ℤ timeout (pos 1) || ltb_ℤ (pos 5000) timeout)
    then some wasm_timeout_range
    else none

timeout_check_iff : (n : ℤ) → (timeout_check n ≡ none) ↔ ((k : ℕ) × (n ≡ pos k) × (k ≤ 5000))
timeout_check_iff (negsuc n) = (λ h. absurd (ground arith), λ h. absurd (ground arith))
timeout_check_iff (pos zero) = (λ h. (0, refl, omega arith), λ h. refl)
timeout_check_iff (pos (suc n)) = (λ h. (suc n, refl, ground arith), λ h. ground arith)

pub validate_wasm_profile_iff :
    (p : RuntimeProfile) → (validate_wasm_profile p ≡ none) ↔ IsWasmSetup p
unfolding validate_wasm_profile
validate_wasm_profile_iff p =
    let range_iff = timeout_check_iff p.wasm_generate_timeout_ms in
    let zero_iff = is_zero_iff p.wasm_generate_timeout_ms in
    elim (Bool-cases (p.backend == "wasm")) [
      | inl here ↦ rw here (
        λ h. ground (arith, eq_iff p.backend "wasm", eq_iff p.wasm_module_base64 "", range_iff),
        λ h. ground (arith, eq_iff p.backend "wasm", eq_iff p.wasm_module_base64 "", range_iff),
      )
      | inr other ↦ rw other (
        λ h. ground (arith, eq_iff p.backend "wasm", eq_iff p.wasm_module_base64 "", zero_iff),
        λ h. ground (arith, eq_iff p.backend "wasm", eq_iff p.wasm_module_base64 "", zero_iff),
      )
    ]

abbrev pub IsDelay : StreamDelay → Type 0
IsDelay d =
    ((d.mode ≡ "") × (d.ms ≡ pos 0) × (d.min_ms ≡ pos 0) × (d.max_ms ≡ pos 0) × (d.seed ≡ none))
    ⊎ ((d.mode ≡ "fixed")
        × ((n : ℕ) × (d.ms ≡ pos n))
        × (d.min_ms ≡ pos 0)
        × (d.max_ms ≡ pos 0)
        × (d.seed ≡ none))
    ⊎ ((d.mode ≡ "random")
        × (d.ms ≡ pos 0)
        × ((low : ℕ) × (high : ℕ) × (d.min_ms ≡ pos low) × (d.max_ms ≡ pos high) × (low ≤ high)))

abbrev pub IsBackend : String → Type 0
IsBackend b =
    (b ≡ "")
    ⊎ (b ≡ "lorem")
    ⊎ (b ≡ "faker")
    ⊎ (b ≡ "fixture")
    ⊎ (b ≡ "ollama")
    ⊎ (b ≡ "ollama-logprob")
    ⊎ (b ≡ "error")
    ⊎ (b ≡ "wasm")

pub validate_backend_iff : (b : String) → (validate_backend b ≡ none) ↔ IsBackend b
unfolding validate_backend
validate_backend_iff b = (
  λ h. ground (
    arith,
    eq_iff b "",
    eq_iff b "lorem",
    eq_iff b "faker",
    eq_iff b "fixture",
    eq_iff b "ollama",
    eq_iff b "ollama-logprob",
    eq_iff b "error",
    eq_iff b "wasm",
  ),
  λ h. ground (
    arith,
    eq_iff b "",
    eq_iff b "lorem",
    eq_iff b "faker",
    eq_iff b "fixture",
    eq_iff b "ollama",
    eq_iff b "ollama-logprob",
    eq_iff b "error",
    eq_iff b "wasm",
  ),
)

is_set_iff {ℓ} : {A : Type ℓ} (o : Option A) → (is_set o ≡ false) ↔ (o ≡ none)
is_set_iff none = ground arith
is_set_iff (some a) = ground arith

pub validate_stream_delay_iff : (d : StreamDelay) → (validate_stream_delay d ≡ none) ↔ IsDelay d
unfolding validate_stream_delay
validate_stream_delay_iff d = (
  λ h. ground (
    arith,
    eq_iff d.mode "",
    eq_iff d.mode "fixed",
    eq_iff d.mode "random",
    is_zero_iff d.ms,
    is_zero_iff d.min_ms,
    is_zero_iff d.max_ms,
    is_set_iff d.seed,
    is_negative_iff d.ms,
    is_negative_iff d.min_ms,
    is_negative_iff d.max_ms,
  ),
  λ h. ground (
    arith,
    eq_iff d.mode "",
    eq_iff d.mode "fixed",
    eq_iff d.mode "random",
    is_zero_iff d.ms,
    is_zero_iff d.min_ms,
    is_zero_iff d.max_ms,
    is_set_iff d.seed,
    is_negative_iff d.ms,
    is_negative_iff d.min_ms,
    is_negative_iff d.max_ms,
    eq_iff "" "fixed",
    eq_iff "" "random",
    eq_iff "fixed" "random",
  ),
)
