-- ===== src/Runtime/Request.antt =====
-- What a handler reads from its request's context: internal/runtime/context.go, backend.go,
-- error_type.go and response_model.go.
pub mod Laws
use zolem.Base.{
  ℕ, suc, ◌*◌, ℤ, pos, negsuc, ltb_ℤ, Bool, true, false, not, ◌&&◌, ◌||◌, String, ◌==◌, List, [],
  ◌∷◌, Option, none, some, if◌then◌else◌,
}
use zolem.Runtime.{ListenerRuntime, RuntimeProfile}
use zolem.Runtime.Counters.{ProfileCounters, increment_template_render}

-- The values that a context may carry; a sequence number that is missing reads as 0.
pub record Context : Type 0 where
  pub listener : Option ListenerRuntime
  pub counters : Option ProfileCounters
  pub sequence : ℕ

abbrev pub background : Context
background = record { listener = none; counters = none; sequence = 0 }

unfoldable pub with_listener_runtime : Context → ListenerRuntime → Context
with_listener_runtime ctx rt = record ctx { listener = some rt }

unfoldable pub with_profile_counters : Context → ProfileCounters → Context
with_profile_counters ctx c = record ctx { counters = some c }

unfoldable pub with_profile_request_sequence : Context → ℕ → Context
with_profile_request_sequence ctx n = record ctx { sequence = n }

-- The counters are shared: the new ones stand in the context that is returned.
unfoldable pub increment_template_render_for_request : Context → Context × ℕ
increment_template_render_for_request ctx = elim ctx.listener [
  | none ↦ (ctx, 0)
  | some rt ↦ elim ctx.counters [
    | none ↦ (ctx, 0)
    | some c ↦
        let (c', n) = increment_template_render (some c) rt.profile.name in
        (record ctx { counters = c' }, n)
  ]
]

unfoldable pub backend_for_request : Context → String
backend_for_request ctx = elim ctx.listener [
  | none ↦ "hybrid"
  | some rt ↦ if not (rt.profile.backend == "") then rt.profile.backend else "hybrid"
]

unfoldable pub uses_fixtures : Context → Bool
unfolding backend_for_request
uses_fixtures ctx = let b = backend_for_request ctx in b == "fixture" || b == "hybrid"

unfoldable pub forced_error_type_for_request : Context → Option String
forced_error_type_for_request ctx = elim ctx.listener [
  | none ↦ none
  | some rt ↦
      if not (rt.profile.backend == "error") || rt.profile.error_type == ""
      then none
      else some rt.profile.error_type
]

-- Nothing unless the delay is positive.
retry_headers : ℤ → List (String × ℕ)
retry_headers (pos (suc n)) = ("Retry-After", suc n) ∷ ("Retry-After-Ms", suc n * 1000) ∷ []
retry_headers _ = []

-- The two headers that SetRetryHeaders sets, in seconds and in milliseconds.
unfoldable pub set_retry_headers : Context → List (String × ℕ)
unfolding retry_headers
set_retry_headers ctx = elim ctx.listener [
  | none ↦ []
  | some rt ↦ retry_headers rt.profile.retry_after_seconds
]

-- A policy's model, unless it is empty.
abbrev or_request : String → String → String
or_request model request_model = if not (model == "") then model else request_model

-- The switch on the policy.
pub response_model : RuntimeProfile → String → String
response_model p request_model =
    if p.response_model_policy == "" || p.response_model_policy == "echo_request"
    then request_model
    else if p.response_model_policy == "force_literal"
    then or_request p.response_model request_model
    else if p.response_model_policy == "force_backend"
    then or_request p.backend_model request_model
    else request_model

unfoldable pub response_model_for_request : Context → String → String
unfolding response_model
response_model_for_request ctx request_model = elim ctx.listener [
  | none ↦ request_model
  | some rt ↦ response_model rt.profile request_model
]
