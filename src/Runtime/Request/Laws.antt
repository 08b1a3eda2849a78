-- ===== src/Runtime/Request/Laws.antt =====
-- What a request served under a valid profile observes.
use zolem.Base.{
  ℕ, zero, suc, ◌*◌, ◌≤◌, ℤ, pos, negsuc, false, String, ◌==◌, eq_iff, [], ◌∷◌, ◌≡◌, refl, ◌≢◌, ◌⊎◌,
  inl, inr, arith,
}
use zolem.Runtime.{ListenerRuntime, Net}
use zolem.Runtime.Profile.Laws.{IsValid, IsErrorType}
use zolem.Runtime.Request.{
  Context, with_listener_runtime, retry_headers, set_retry_headers, response_model,
  response_model_for_request,
}

IsErrorType-named : (t : String) → IsErrorType t → (t == "") ≡ false
IsErrorType-named t h = ground (
  arith,
  eq_iff t "",
  eq_iff "authentication" "",
  eq_iff "permission" "",
  eq_iff "invalid_request" "",
  eq_iff "rate_limit" "",
  eq_iff "server_error" "",
  eq_iff "overloaded" "",
)

retry_headers_bounds :
    (n : ℤ) (t : String)
    → ((n ≡ pos 0)
        ⊎ (((t ≡ "rate_limit") ⊎ (t ≡ "overloaded")) × ((k : ℕ) × (n ≡ pos k) × (k ≤ 3600))))
    → (retry_headers n ≡ [])
      ⊎ ((k : ℕ) × (retry_headers n ≡ ("Retry-After", k) ∷ ("Retry-After-Ms", k * 1000) ∷ [])
          × (k ≤ 3600)
          × ((t ≡ "rate_limit") ⊎ (t ≡ "overloaded")))
unfolding retry_headers
retry_headers_bounds (pos zero) t h = inl refl
retry_headers_bounds (negsuc n) t h = inl refl
retry_headers_bounds (pos (suc n)) t (inl e) = absurd (ground arith)
retry_headers_bounds (pos (suc n)) t (inr (kind, range)) =
    inr (suc n, refl, ground (arith, range.1), kind)

module _ (net : Net) (ctx : Context) (rt : ListenerRuntime) (v : IsValid net rt.profile) where
  -- Retry headers go out only for rate_limit and overloaded errors, agree in seconds and
  -- milliseconds, and ask for at most an hour.
  pub set_retry_headers_bounds :
      (set_retry_headers (with_listener_runtime ctx rt) ≡ [])
      ⊎ ((n : ℕ) × (set_retry_headers (with_listener_runtime ctx rt)
            ≡ ("Retry-After", n) ∷ ("Retry-After-Ms", n * 1000) ∷ [])
          × (n ≤ 3600)
          × ((rt.profile.error_type ≡ "rate_limit") ⊎ (rt.profile.error_type ≡ "overloaded")))
  unfolding set_retry_headers with_listener_runtime retry_headers
  set_retry_headers_bounds =
      retry_headers_bounds rt.profile.retry_after_seconds rt.profile.error_type v.errors.1

  -- The model that a response names: a valid force_literal profile's own, a force_backend
  -- profile's backend model where it has one, and the request's otherwise.
  pub response_model_for_request_cases :
      (m : String)
      → let r = response_model_for_request (with_listener_runtime ctx rt) m in
        let p = rt.profile in
        ((p.response_model_policy ≡ "force_literal") × (r ≡ p.response_model) × (r ≢ ""))
        ⊎ ((p.response_model_policy ≡ "force_backend")
            × (p.backend_model ≢ "")
            × (r ≡ p.backend_model))
        ⊎ ((p.response_model_policy ≢ "force_literal")
            × ((p.response_model_policy ≢ "force_backend") ⊎ (p.backend_model ≡ ""))
            × (r ≡ m))
  unfolding response_model_for_request with_listener_runtime response_model
  response_model_for_request_cases m = elim v.models [
    | inl bare ↦ inr (
        inr (
          ground (
            arith,
            eq_iff rt.profile.response_model_policy "",
            eq_iff rt.profile.response_model_policy "echo_request",
            eq_iff rt.profile.response_model_policy "force_literal",
            eq_iff rt.profile.response_model_policy "force_backend",
            eq_iff "" "echo_request",
            eq_iff "" "force_literal",
            eq_iff "" "force_backend",
          )))
    | inr (inl echo) ↦ inr (
        inr (
          ground (
            arith,
            eq_iff rt.profile.response_model_policy "",
            eq_iff rt.profile.response_model_policy "echo_request",
            eq_iff rt.profile.response_model_policy "force_literal",
            eq_iff rt.profile.response_model_policy "force_backend",
            eq_iff "echo_request" "",
            eq_iff "echo_request" "force_literal",
            eq_iff "echo_request" "force_backend",
          )))
    | inr (inr (inl (literal, given))) ↦ inl (
        ground (
          arith,
          eq_iff rt.profile.response_model_policy "",
          eq_iff rt.profile.response_model_policy "echo_request",
          eq_iff rt.profile.response_model_policy "force_literal",
          eq_iff rt.profile.response_model_policy "force_backend",
          eq_iff "force_literal" "",
          eq_iff "force_literal" "echo_request",
          eq_iff "force_literal" "force_backend",
          eq_iff rt.profile.response_model "",
        ))
    | inr (inr (inr backend)) ↦ ground (
      arith,
      eq_iff rt.profile.response_model_policy "",
      eq_iff rt.profile.response_model_policy "echo_request",
      eq_iff rt.profile.response_model_policy "force_literal",
      eq_iff rt.profile.response_model_policy "force_backend",
      eq_iff "force_backend" "",
      eq_iff "force_backend" "echo_request",
      eq_iff "force_backend" "force_literal",
      eq_iff rt.profile.backend_model "",
    )
  ]
