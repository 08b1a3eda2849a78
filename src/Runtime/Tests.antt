-- ===== src/Runtime/Tests.antt =====
-- Runs of the definitions, and the theorems at concrete inputs.
use mathlib.Core.List.{Perm}
use zolem.Base.{
  eq_iff, ℕ, ◌*◌, ◌≤◌, pos, negsuc, true, false, String, ◌==◌, codes, List, [], ◌∷◌, none, some,
  ◌≡◌, refl, ◌≢◌, ◌⊎◌, ◌↔◌, arith, lookup, string_eq,
}
use zolem.Upstream.{v4, unmap, embedded, classify}
use zolem.Upstream.Laws.{IsForbidden}
use zolem.Runtime.{ListenerRuntime, StreamDelay}
use zolem.Runtime.Namespace.{validate_fixture_namespace, clean}
use zolem.Runtime.Namespace.Laws.{IsBelow, validate_fixture_namespace_iff}
use zolem.Runtime.Profile.{validate_profile}
use zolem.Upstream.{v4, zone, unmap}
use zolem.Upstream.Laws.{IsLocal}
use zolem.Runtime.Profile.Laws.{validate_profile-upstream, IsValid, validate_profile_iff}
use zolem.Runtime.Host.{strip_host_port, normalize_allowed_hosts, host_header_allowed}
use zolem.Runtime.Host.Laws.{IsListed, IsLoopbackHost, host_header_allowed_iff}
use zolem.Runtime.Bind.{validate_addr, validate_listener_spec_with_policy}
use zolem.Runtime.Bind.Laws.{IsAddr, validate_addr_iff}
use zolem.Runtime.Store.{
  Store, upsert_profile, upsert_listener, delete_profile, get_profile, list_profiles,
}
use zolem.Runtime.Store.Laws.{
  IsStore, upsert_profile-IsStore, upsert_listener-IsStore, IsLinked, delete_profile-IsLinked,
  delete_profile_outcome, DeleteOutcome,
}
use zolem.Runtime.Store.Listing.{Ascends, list_profiles-Ascends}
use zolem.Runtime.Counters.{increment_profile_request, increment_template_render}
use zolem.Runtime.Counters.Laws.{Use, request, render, run, increment_ordinals}
use zolem.Runtime.Request.{background, with_listener_runtime}
use zolem.Runtime.Delay.{Rand, Wait, sleep, stream_delay_for_request}
use zolem.Runtime.Delay.Laws.{stream_delay_bounds}
use zolem.Runtime.Samples.{sample_net, demo, throttled, spec, loopback_only}

demo_passes : validate_profile sample_net demo ≡ none
unfolding validate_profile validate_fixture_namespace clean classify
demo_passes = refl

throttled_passes : validate_profile sample_net throttled ≡ none
unfolding validate_profile validate_fixture_namespace clean classify
throttled_passes = refl

metadata_refused :
    validate_profile sample_net (record demo {
      ollama_upstream = "http://169.254.169.254/";
      allow_external_ollama_upstream = true;
    })
    ≢ none
unfolding validate_profile validate_fixture_namespace clean classify
metadata_refused e = cc

cleaned_paths : clean (codes "/a/../../b//./c/") ≡ codes "/b/c"
unfolding clean
cleaned_paths = refl

validate_fixture_namespace_iff_example :
    (validate_fixture_namespace (codes "team/a") ≡ none) ↔ IsBelow (codes "team/a")
validate_fixture_namespace_iff_example = validate_fixture_namespace_iff b't' (codes "eam/a")

validate_profile_iff_example : (validate_profile sample_net demo ≡ none) ↔ IsValid sample_net demo
validate_profile_iff_example = validate_profile_iff sample_net demo

demo-IsValid : IsValid sample_net demo
demo-IsValid = (validate_profile_iff sample_net demo).0 demo_passes

throttled-IsValid : IsValid sample_net throttled
throttled-IsValid = (validate_profile_iff sample_net throttled).0 throttled_passes

abbrev listed_hosts : List String
listed_hosts = "zolem.test:8090" ∷ "" ∷ []

host_header_allowed_iff_example :
    (host_header_allowed sample_net "zolem.test:8090"
        (normalize_allowed_hosts sample_net listed_hosts)
      ≡ true)
    ↔ ((strip_host_port sample_net "zolem.test:8090" ≢ "")
        × (IsListed sample_net (strip_host_port sample_net "zolem.test:8090") listed_hosts
            ⊎ IsLoopbackHost sample_net (strip_host_port sample_net "zolem.test:8090")))
host_header_allowed_iff_example = host_header_allowed_iff sample_net "zolem.test:8090" listed_hosts

rebinding_refused : host_header_allowed sample_net "evil.example" ("zolem.test" ∷ []) ≡ false
unfolding host_header_allowed
rebinding_refused = refl

validate_addr_iff_example :
    (validate_addr sample_net loopback_only "127.0.0.1:0" ≡ none)
    ↔ IsAddr sample_net loopback_only "127.0.0.1:0"
validate_addr_iff_example = validate_addr_iff sample_net loopback_only "127.0.0.1:0"

abbrev with_demo : Store
with_demo = record {
  profiles = ("demo", demo) ∷ ("throttled", throttled) ∷ [];
  listeners = ("openai-demo", spec) ∷ [];
  policy = loopback_only;
}

with_demo-IsStore : IsStore sample_net with_demo
unfolding validate_listener_spec_with_policy unmap
with_demo-IsStore = record {
  profiles_named = ((refl, demo_passes), ((refl, throttled_passes), tt));
  listeners_named = ((refl, refl), tt);
  profiles_distinct = ((λ e. ground (arith, eq_iff "demo" "throttled"), tt), (tt, tt));
  listeners_distinct = (tt, tt);
}

upsert_profile-IsStore_example :
    IsStore sample_net (upsert_profile sample_net with_demo throttled).0
upsert_profile-IsStore_example =
    upsert_profile-IsStore sample_net with_demo throttled with_demo-IsStore

upsert_listener-IsStore_example : IsStore sample_net (upsert_listener sample_net with_demo spec).0
upsert_listener-IsStore_example =
    upsert_listener-IsStore sample_net with_demo spec with_demo-IsStore

delete_profile-IsLinked_example : IsLinked (delete_profile with_demo "throttled").0
unfolding get_profile lookup
delete_profile-IsLinked_example = delete_profile-IsLinked with_demo "throttled" ((λ e. cc), tt)

delete_profile_outcome_example : DeleteOutcome with_demo "demo" (delete_profile with_demo "demo")
delete_profile_outcome_example = delete_profile_outcome with_demo "demo"

list_profiles-Ascends_example :
    Ascends (λ p. p.name) (list_profiles with_demo)
    × Perm (list_profiles with_demo) (demo ∷ throttled ∷ [])
list_profiles-Ascends_example = list_profiles-Ascends sample_net with_demo with_demo-IsStore

validate_profile-upstream_example :
    (¬ IsForbidden (embedded (v4 10 0 0 7)))
    × ((false ≡ true)
        ⊎ (("10.0.0.7" == "localhost") ≡ true)
        ⊎ ((zone (v4 10 0 0 7) ≡ "") × IsLocal (unmap (v4 10 0 0 7))))
validate_profile-upstream_example =
    validate_profile-upstream sample_net demo
      (record { scheme = "http"; host = "10.0.0.7:11434"; hostname = "10.0.0.7" }) (v4 10 0 0 7)
      demo_passes (λ e. ground (arith, eq_iff "http://10.0.0.7:11434" "")) refl refl

abbrev uses : List Use
uses = request "demo" ∷ render "demo" ∷ request "demo" ∷ request "other" ∷ []

increment_ordinals_example :
    ((increment_profile_request (some (run [] uses)) "demo").1 ≡ 3)
    × ((increment_template_render (some (run [] uses)) "demo").1 ≡ 2)
increment_ordinals_example = increment_ordinals uses "demo"

abbrev first : Rand
first = record { intn = λ seed drawn bound. 0; intn_bound = λ seed drawn bound h. h }

abbrev delayed_by : StreamDelay → ListenerRuntime
delayed_by d = record { spec = spec; profile = record demo { stream_delay = d } }

abbrev jittered : StreamDelay
jittered = record { mode = "random"; ms = pos 0; min_ms = pos 5; max_ms = pos 20; seed = none }

jittered_passes : validate_profile sample_net (record demo { stream_delay = jittered }) ≡ none
unfolding validate_profile validate_fixture_namespace clean classify
jittered_passes = refl

stream_delay_bounds_example :
    let wait =
      stream_delay_for_request first (with_listener_runtime background (delayed_by jittered)) 2 in
    ((jittered.mode ≡ "") × (wait ≡ none))
    ⊎ ((n : ℕ) × (jittered.mode ≡ "fixed")
        × (jittered.ms ≡ pos n)
        × (wait ≡ some (sleep (pos (n * 1000000)))))
    ⊎ ((low : ℕ) × (high : ℕ) × (n : ℕ) × (jittered.mode ≡ "random")
        × (jittered.min_ms ≡ pos low)
        × (jittered.max_ms ≡ pos high)
        × (wait ≡ some (sleep (pos (n * 1000000))))
        × (low ≤ n)
        × (n ≤ high))
stream_delay_bounds_example =
    stream_delay_bounds first sample_net background (delayed_by jittered) 2
      ((validate_profile_iff sample_net (record demo { stream_delay = jittered })).0
        jittered_passes)
      (omega arith) (omega arith)

-- 10 ^ 13 milliseconds are valid, and a negative duration.
abbrev endless : StreamDelay
endless = record {
  mode = "fixed";
  ms = pos 10000000000000;
  min_ms = pos 0;
  max_ms = pos 0;
  seed = none;
}

endless_passes : validate_profile sample_net (record demo { stream_delay = endless }) ≡ none
unfolding validate_profile validate_fixture_namespace clean classify
endless_passes = refl

endless_wraps :
    stream_delay_for_request first (with_listener_runtime background (delayed_by endless)) 0
    ≡ some (sleep (negsuc 8446744073709551615))
unfolding stream_delay_for_request with_listener_runtime
endless_wraps = refl

-- The span of all of int's values from 0 on is valid, and Intn panics.
abbrev widest : StreamDelay
widest = record {
  mode = "random";
  ms = pos 0;
  min_ms = pos 0;
  max_ms = pos 9223372036854775807;
  seed = none;
}

widest_passes : validate_profile sample_net (record demo { stream_delay = widest }) ≡ none
unfolding validate_profile validate_fixture_namespace clean classify
widest_passes = refl

widest_panics :
    stream_delay_for_request first (with_listener_runtime background (delayed_by widest)) 0
    ≡ some Wait.panics
unfolding stream_delay_for_request with_listener_runtime
widest_panics = refl
