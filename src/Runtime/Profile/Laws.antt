-- ===== src/Runtime/Profile/Laws.antt =====
-- What a profile that passes the checks looks like, field by field and without their order.
pub mod Parts
mod Upstream
pub use Parts.*
pub use Upstream.*
use zolem.Upstream.{Addr, zone, unmap, embedded}
use zolem.Upstream.Laws.{IsLocal, IsForbidden, classify_of_IsForbidden}
use zolem.Base.{
  some, true, sym, subst, some_inj, ◌∙◌, String, codes, Option, none, ◌≡◌, ◌≢◌, ◌⊎◌, inl, inr, ◌↔◌,
  arith, List, [], ◌∷◌, refl, ◌==◌, eq_iff, Bool-cases, ℕ,
}
use zolem.Runtime.{RuntimeProfile, Net, Url}
use zolem.Runtime.Namespace.{NamespaceError, validate_fixture_namespace}
use zolem.Runtime.Namespace.Laws.{IsBelow, validate_fixture_namespace_iff}
use zolem.Runtime.Profile.{
  ProfileError, bad_namespace, name_required, ◌⨾◌, of_namespace, validate_profile,
  validate_error_profile, validate_response_model_policy, validate_ollama_upstream,
  validate_ollama_logprob_profile, validate_wasm_profile, validate_stream_delay, validate_backend,
}

-- An empty namespace is the root itself.
abbrev pub IsNamespace : List ℕ → Type 0
IsNamespace ns = (ns ≡ []) ⊎ IsBelow ns

of_namespace-eq-none : (o : Option NamespaceError) → of_namespace o ≡ none → o ≡ none
of_namespace-eq-none o h = ground arith

of_namespace-none :
    (ns : List ℕ) → (of_namespace (validate_fixture_namespace ns) ≡ none) ↔ IsNamespace ns
of_namespace-none [] = unfold validate_fixture_namespace in (λ _. inl refl, λ _. refl)
of_namespace-none (c ∷ s) =
    let below_iff = validate_fixture_namespace_iff c s in
    (
      λ h. inr (below_iff.0 (of_namespace-eq-none (validate_fixture_namespace (c ∷ s)) h)),
      elim [ inl e ↦ cc | inr below ↦ rw (below_iff.1 below) refl ],
    )

-- A profile that the program may serve.
pub record IsValid (net : Net) (p : RuntimeProfile) : Type 0 where
  pub named : p.name ≢ ""
  pub below_root : IsNamespace (codes p.fixture_namespace)
  pub errors : IsErrorSetup p
  pub models : IsModelPolicy p
  pub upstream : IsUpstream net p
  pub calibration : IsCalibrated p
  pub module_ : IsWasmSetup p
  pub delay : IsDelay p.stream_delay
  pub served : IsBackend p.backend

module _ (net : Net) (p : RuntimeProfile) where
  abbrev tail_checks : Option ProfileError
  tail_checks =
      validate_error_profile p
      ⨾ validate_response_model_policy p
      ⨾ validate_ollama_upstream net p
      ⨾ validate_ollama_logprob_profile p
      ⨾ validate_wasm_profile p
      ⨾ validate_stream_delay p.stream_delay
      ⨾ validate_backend p.backend

seven-none :
    (a b c d e f g : Option ProfileError)
    → ((a ⨾ b ⨾ c ⨾ d ⨾ e ⨾ f ⨾ g) ≡ none)
      ↔ ((a ≡ none) × (b ≡ none) × (c ≡ none) × (d ≡ none) × (e ≡ none) × (f ≡ none) × (g ≡ none))
seven-none a b c d e f g = (λ h. ground arith, λ h. ground arith)

-- ValidateProfile accepts exactly the valid profiles.
pub validate_profile_iff :
    (net : Net) (p : RuntimeProfile) → (validate_profile net p ≡ none) ↔ IsValid net p
unfolding validate_profile
validate_profile_iff net p =
    let parts =
      seven-none (validate_error_profile p) (validate_response_model_policy p)
        (validate_ollama_upstream net p) (validate_ollama_logprob_profile p)
        (validate_wasm_profile p) (validate_stream_delay p.stream_delay)
        (validate_backend p.backend) in
    let below = of_namespace-none (codes p.fixture_namespace) in
    let chain =
      ⨾-none (of_namespace (validate_fixture_namespace (codes p.fixture_namespace)))
        (tail_checks net p) in
    elim (Bool-cases (p.name == "")) [
      | inl unnamed ↦
          rw unnamed
            (λ h. absurd (ground arith), λ v. absurd (v.named ((eq_iff p.name "").0 unnamed)))
      | inr given ↦ rw given (
        λ h.
            let (n, rest) = chain.0 h in
            let (a, b, c, d, e, f, g) = parts.0 rest in
            record {
              named = λ e'. absurd (ground (arith, eq_iff p.name ""));
              below_root = below.0 n;
              errors = (validate_error_profile_iff p).0 a;
              models = (validate_response_model_policy_iff p).0 b;
              upstream = (validate_ollama_upstream_iff net p).0 c;
              calibration = (validate_ollama_logprob_profile_iff p).0 d;
              module_ = (validate_wasm_profile_iff p).0 e;
              delay = (validate_stream_delay_iff p.stream_delay).0 f;
              served = (validate_backend_iff p.backend).0 g;
            },
        λ v. chain.1 (
          below.1 v.below_root,
          parts.1 (
            (validate_error_profile_iff p).1 v.errors,
            (validate_response_model_policy_iff p).1 v.models,
            (validate_ollama_upstream_iff net p).1 v.upstream,
            (validate_ollama_logprob_profile_iff p).1 v.calibration,
            (validate_wasm_profile_iff p).1 v.module_,
            (validate_stream_delay_iff p.stream_delay).1 v.delay,
            (validate_backend_iff p.backend).1 v.served,
          ),
        ),
      )
    ]

-- A profile that passes never forwards to an address that is 0.0.0.0/8, 169.254.0.0/16 or
-- 224.0.0.0/4 in any of its forms, whatever its flag; and to another address only with the flag, or
-- where the host is "localhost" or the address is of the machine or of a private network.
pub validate_profile-upstream :
    (net : Net) (p : RuntimeProfile) (u : Url) (a : Addr)
    → validate_profile net p ≡ none
    → p.ollama_upstream ≢ ""
    → net.parse_url p.ollama_upstream ≡ some u
    → net.parse_addr u.hostname ≡ some a
    → (¬ IsForbidden (embedded a))
      × ((p.allow_external_ollama_upstream ≡ true)
          ⊎ (net.equal_fold u.hostname "localhost" ≡ true)
          ⊎ ((zone a ≡ "") × IsLocal (unmap a)))
validate_profile-upstream net p u a passed given parsed literal =
    elim ((validate_profile_iff net p).0 passed).upstream [
      | inl bare ↦ absurd (given bare)
      | inr (v, parsed', f) ↦
          let same_url : v ≡ u = some_inj (sym parsed' ∙ parsed) in
          let g : IsForwarded net p.allow_external_ollama_upstream u =
            subst (IsForwarded net p.allow_external_ollama_upstream) same_url f in
          (
            λ forbidden. g.allowed a literal (classify_of_IsForbidden a forbidden),
            elim g.local_or_opted [
              | inl flag ↦ inl flag
              | inr (inl name) ↦ inr (inl name)
              | inr (inr (b, literal', z, local)) ↦
                  let same_addr : b ≡ a = some_inj (sym literal' ∙ literal) in
                  inr (inr (subst (λ c. (zone c ≡ "") × IsLocal (unmap c)) same_addr (z, local)))
            ],
          )
    ]
