-- ===== src/Providers/Tests.antt =====
-- A profile that is throttled, at every provider.
use zolem.Base.{none, some, [], ◌∷◌, ◌≡◌, refl}
use zolem.Runtime.{ListenerRuntime}
use zolem.Runtime.Samples.{sample_net, spec, throttled}
use zolem.Runtime.Profile.{validate_profile}
use zolem.Runtime.Profile.Laws.{validate_profile_iff}
use zolem.Runtime.Request.{background, with_listener_runtime}
use zolem.Providers.{ErrorAnswer}
use zolem.Providers.Anthropic as Anthropic
use zolem.Providers.Openai as Openai
use zolem.Providers.Gemini as Gemini
use zolem.Providers.Ollama as Ollama
use zolem.Providers.Typesafe as Typesafe
use zolem.Providers.Laws.{IsForced, write_forced_profile_error-IsForced}

abbrev runtime : ListenerRuntime
runtime = record { spec = spec; profile = throttled }

throttled_passes : validate_profile sample_net throttled ≡ none
unfolding validate_profile zolem.Runtime.Namespace.validate_fixture_namespace
    zolem.Runtime.Namespace.clean zolem.Upstream.classify
throttled_passes = refl

throttled_serves : (with_listener_runtime background runtime).listener ≡ some runtime
unfolding with_listener_runtime
throttled_serves = refl

throttled_headers :
    Openai.write_forced_profile_error (with_listener_runtime background runtime)
    ≡ some (record {
      status = 429;
      kind = "rate_limit_error";
      message = "Rate limit exceeded.";
      label = some "rate_limit_exceeded";
      headers = ("Retry-After", 30) ∷ ("Retry-After-Ms", 30000) ∷ [];
    })
unfolding zolem.Providers.Openai.write_forced_profile_error with_listener_runtime
throttled_headers = refl

write_forced_profile_error-IsForced_example :
    IsForced 401 529
      (with_listener_runtime background runtime)
      runtime
      (Anthropic.write_forced_profile_error (with_listener_runtime background runtime))
    × IsForced 401 503
        (with_listener_runtime background runtime)
        runtime
        (Openai.write_forced_profile_error (with_listener_runtime background runtime))
    × IsForced 403 503
        (with_listener_runtime background runtime)
        runtime
        (Gemini.write_forced_profile_error (with_listener_runtime background runtime))
    × IsForced 401 503
        (with_listener_runtime background runtime)
        runtime
        (Ollama.write_forced_profile_error (with_listener_runtime background runtime))
    × IsForced 401 503
        (with_listener_runtime background runtime)
        runtime
        (Typesafe.write_forced_profile_error (with_listener_runtime background runtime))
write_forced_profile_error-IsForced_example =
    write_forced_profile_error-IsForced sample_net (with_listener_runtime background runtime)
      runtime throttled_serves ((validate_profile_iff sample_net throttled).0 throttled_passes)
