-- ===== src/Providers/Laws.antt =====
-- The forced errors of the providers, side by side.
use zolem.Base.{
  ℕ, true, false, ◌||◌, String, ◌==◌, eq_iff, List, [], Option, none, some, if◌then◌else◌, ◌≡◌, ◌≢◌,
  refl, sym, subst, Bool-cases, inl, inr,
}
use zolem.Runtime.{ListenerRuntime, Net}
use zolem.Runtime.Profile.Laws.{IsValid}
use zolem.Runtime.Profile.Laws.Parts.{IsErrorType}
use zolem.Runtime.Request.{Context, forced_error_type_for_request, set_retry_headers}
use zolem.Providers.{ErrorAnswer}
use zolem.Providers.Anthropic as Anthropic
use zolem.Providers.Openai as Openai
use zolem.Providers.Gemini as Gemini
use zolem.Providers.Ollama as Ollama
use zolem.Providers.Typesafe as Typesafe

-- What a client of every provider may count on, but for two: a missing key is 403 to Gemini, and
-- being overloaded is 529 to Anthropic.
abbrev pub status_for : ℕ → ℕ → String → ℕ
status_for unauthorized overloaded error_type =
    if error_type == "authentication"
    then unauthorized
    else if error_type == "permission"
    then 403
    else if error_type == "invalid_request"
    then 400
    else if error_type == "rate_limit"
    then 429
    else if error_type == "overloaded"
    then overloaded
    else 500

abbrev pub retry_for : Context → String → List (String × ℕ)
retry_for ctx error_type =
    if error_type == "rate_limit" || error_type == "overloaded" then set_retry_headers ctx else []

-- The answer to a request of a listener whose profile is that of `rt`.
abbrev pub IsForced : ℕ → ℕ → Context → ListenerRuntime → Option ErrorAnswer → Type 0
IsForced unauthorized overloaded ctx rt none = rt.profile.backend ≢ "error"
IsForced unauthorized overloaded ctx rt (some a) =
    (rt.profile.backend ≡ "error")
    × (a.status ≡ status_for unauthorized overloaded rt.profile.error_type)
    × (a.headers ≡ retry_for ctx rt.profile.error_type)

-- A provider's answers by the type.
abbrev Follows : ℕ → ℕ → Context → (String → ErrorAnswer) → Type 0
Follows unauthorized overloaded ctx answer =
    (t : String)
    → ((answer t).status ≡ status_for unauthorized overloaded t)
      × ((answer t).headers ≡ retry_for ctx t)

-- A type is one of the six, or none of them.
error_type_cases :
    (P : String → Type 0)
    → P "authentication"
    → P "permission"
    → P "invalid_request"
    → P "rate_limit"
    → P "overloaded"
    → P "server_error"
    → ((t : String)
        → (t == "authentication") ≡ false
        → (t == "permission") ≡ false
        → (t == "invalid_request") ≡ false
        → (t == "rate_limit") ≡ false
        → (t == "overloaded") ≡ false
        → (t == "server_error") ≡ false
        → P t)
    → (t : String) → P t
error_type_cases P a b c d e f rest t = elim (Bool-cases (t == "authentication")) [
  | inl same ↦ subst P (sym ((eq_iff t "authentication").0 same)) a
  | inr n0 ↦ elim (Bool-cases (t == "permission")) [
    | inl same ↦ subst P (sym ((eq_iff t "permission").0 same)) b
    | inr n1 ↦ elim (Bool-cases (t == "invalid_request")) [
      | inl same ↦ subst P (sym ((eq_iff t "invalid_request").0 same)) c
      | inr n2 ↦ elim (Bool-cases (t == "rate_limit")) [
        | inl same ↦ subst P (sym ((eq_iff t "rate_limit").0 same)) d
        | inr n3 ↦ elim (Bool-cases (t == "overloaded")) [
          | inl same ↦ subst P (sym ((eq_iff t "overloaded").0 same)) e
          | inr n4 ↦ elim (Bool-cases (t == "server_error")) [
            | inl same ↦ subst P (sym ((eq_iff t "server_error").0 same)) f
            | inr n5 ↦ rest t n0 n1 n2 n3 n4 n5
          ]
        ]
      ]
    ]
  ]
]

Anthropic-Follows : (ctx : Context) → Follows 401 529 ctx (Anthropic.error_of_type ctx)
unfolding zolem.Providers.Anthropic.error_of_type
Anthropic-Follows ctx =
    error_type_cases _ (refl, refl) (refl, refl) (refl, refl) (refl, refl) (refl, refl) (refl, refl)
      (λ t n0 n1 n2 n3 n4 n5. rw (n0, n1, n2, n3, n4, n5) (refl, refl))

Openai-Follows : (ctx : Context) → Follows 401 503 ctx (Openai.error_of_type ctx)
unfolding zolem.Providers.Openai.error_of_type
Openai-Follows ctx =
    error_type_cases _ (refl, refl) (refl, refl) (refl, refl) (refl, refl) (refl, refl) (refl, refl)
      (λ t n0 n1 n2 n3 n4 n5. rw (n0, n1, n2, n3, n4, n5) (refl, refl))

Gemini-Follows : (ctx : Context) → Follows 403 503 ctx (Gemini.error_of_type ctx)
unfolding zolem.Providers.Gemini.error_of_type
Gemini-Follows ctx =
    error_type_cases _ (refl, refl) (refl, refl) (refl, refl) (refl, refl) (refl, refl) (refl, refl)
      (λ t n0 n1 n2 n3 n4 n5. rw (n0, n1, n2, n3, n4, n5) (refl, refl))

Ollama-Follows : (ctx : Context) → Follows 401 503 ctx (Ollama.error_of_type ctx)
unfolding zolem.Providers.Ollama.error_of_type
Ollama-Follows ctx =
    error_type_cases _ (refl, refl) (refl, refl) (refl, refl) (refl, refl) (refl, refl) (refl, refl)
      (λ t n0 n1 n2 n3 n4 n5. rw (n0, n1, n2, n3, n4, n5) (refl, refl))

Typesafe-Follows : (ctx : Context) → Follows 401 503 ctx (Typesafe.error_of_type ctx)
unfolding zolem.Providers.Typesafe.error_of_type
Typesafe-Follows ctx =
    error_type_cases _ (refl, refl) (refl, refl) (refl, refl) (refl, refl) (refl, refl) (refl, refl)
      (λ t n0 n1 n2 n3 n4 n5. rw (n0, n1, n2, n3, n4, n5) (refl, refl))

filled : (t : String) → IsErrorType t → (t == "") ≡ false
filled t (inl e) = rw e refl
filled t (inr (inl e)) = rw e refl
filled t (inr (inr (inl e))) = rw e refl
filled t (inr (inr (inr (inl e)))) = rw e refl
filled t (inr (inr (inr (inr (inl e))))) = rw e refl
filled t (inr (inr (inr (inr (inr e))))) = rw e refl

module _ (net : Net) (ctx : Context) (rt : ListenerRuntime) (served : ctx.listener ≡ some rt)
    (valid : IsValid net rt.profile) where
  forced_error_type_for_request-some :
      rt.profile.backend ≡ "error"
      → IsErrorType rt.profile.error_type
      → forced_error_type_for_request ctx ≡ some rt.profile.error_type
  unfolding forced_error_type_for_request
  forced_error_type_for_request-some backend typed =
      let asked : (rt.profile.backend == "error") ≡ true =
        (eq_iff rt.profile.backend "error").1 backend in
      rw (served, asked, filled rt.profile.error_type typed, forced_error_type_for_request) refl

  forced_error_type_for_request-none :
      rt.profile.backend ≢ "error" → forced_error_type_for_request ctx ≡ none
  unfolding forced_error_type_for_request
  forced_error_type_for_request-none backend = elim (Bool-cases (rt.profile.backend == "error")) [
    | inl asked ↦ absurd (backend ((eq_iff rt.profile.backend "error").0 asked))
    | inr spared ↦ rw (served, spared, forced_error_type_for_request) refl
  ]

  answer-IsForced :
      (unauthorized overloaded : ℕ) (answer : String → ErrorAnswer)
      → Follows unauthorized overloaded ctx answer
      → IsForced unauthorized overloaded ctx rt
          (elim (forced_error_type_for_request ctx) as (λ x. Option ErrorAnswer) [
            | none ↦ none
            | some t ↦ some (answer t)
          ])
  answer-IsForced unauthorized overloaded answer follows = elim valid.errors.0 [
    | inl (backend, typed) ↦
        let (status, headers) = follows rt.profile.error_type in
        rw (forced_error_type_for_request-some backend typed) (backend, status, headers)
    | inr (backend, untyped) ↦ rw (forced_error_type_for_request-none backend) backend
  ]

  -- For a request of a listener with a valid profile, all five providers pin an error exactly
  -- where the backend is "error"; its status is 401 for a missing key (403 at Gemini), 403, 400,
  -- 429, 503 for overloaded (529 at Anthropic) and 500, as the profile's error type says; and the
  -- headers for retries stand on the rate limit and on overloaded alone.
  pub write_forced_profile_error-IsForced :
      IsForced 401 529 ctx rt (Anthropic.write_forced_profile_error ctx)
      × IsForced 401 503 ctx rt (Openai.write_forced_profile_error ctx)
      × IsForced 403 503 ctx rt (Gemini.write_forced_profile_error ctx)
      × IsForced 401 503 ctx rt (Ollama.write_forced_profile_error ctx)
      × IsForced 401 503 ctx rt (Typesafe.write_forced_profile_error ctx)
  unfolding zolem.Providers.Anthropic.write_forced_profile_error
      zolem.Providers.Openai.write_forced_profile_error
      zolem.Providers.Gemini.write_forced_profile_error
      zolem.Providers.Ollama.write_forced_profile_error
      zolem.Providers.Typesafe.write_forced_profile_error
  write_forced_profile_error-IsForced = (
    answer-IsForced 401 529 (Anthropic.error_of_type ctx) (Anthropic-Follows ctx),
    answer-IsForced 401 503 (Openai.error_of_type ctx) (Openai-Follows ctx),
    answer-IsForced 403 503 (Gemini.error_of_type ctx) (Gemini-Follows ctx),
    answer-IsForced 401 503 (Ollama.error_of_type ctx) (Ollama-Follows ctx),
    answer-IsForced 401 503 (Typesafe.error_of_type ctx) (Typesafe-Follows ctx),
  )
