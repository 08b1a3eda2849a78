-- ===== src/Startup/App.antt =====
-- buildLocalStartupAppForRuntime of cmd/zolem/startup.go, with the runners, generators and servers
-- that it opens, and the dispatch of buildLocalHandler.
pub mod Ledger
use zolem.Base.{
  ℕ, ◌+◌, ℤ, pos, Bool, true, false, not, ◌&&◌, ◌||◌, String, ◌==◌, List, [], ◌∷◌, ◌++◌, Option,
  none, some, if◌then◌else◌, eqb, is_zero, Result, ok, err,
}
use zolem.Runtime.{ListenerSpec, ListenerRuntime, RuntimeProfile}
use zolem.Runtime.Counters.{ProfileCounters, increment_profile_request}
use zolem.Runtime.Request.{
  Context, background, with_listener_runtime, with_profile_counters, with_profile_request_sequence,
}
use zolem.Startup.{
  StartupError, unsupported_for_typesafe, only_for_typesafe, no_fixtures_dir, unsupported_backend,
  bad_fixtures, bad_wasm, provider_spec_keys,
}

-- The handles that are open: WASM runtimes and servers, by number.
pub record World : Type 0 where
  pub next : ℕ
  pub live : List ℕ

unfoldable pub open_handle : World → World × ℕ
open_handle w = (record { next = w.next + 1; live = w.next ∷ w.live }, w.next)

unfoldable pub without : ℕ → List ℕ → List ℕ
without h [] = []
without h (x ∷ xs) = let rest = without h xs in if eqb h x then rest else x ∷ rest

unfoldable pub close_handle : ℕ → World → World
unfolding without
close_handle h w = record w { live = without h w.live }

-- What the files, the schema loader, the WASM compiler and the network answer to one build: the
-- warning of a schema that does not load, the fixtures of a directory with their warnings, a module that does not decode
-- or compile, and the address that a server gets.
pub record Env : Type 0 where
  pub load_schema : String × String → Option String
  pub join_path : String → String → String
  pub load_fixtures : String → ListenerRuntime → Option String
  pub fixture_warnings : String → ListenerRuntime → List String
  pub compile : RuntimeProfile → Option String
  pub listen : ListenerSpec → Option String

unfoldable pub load_specs : (String × String → Option String) → List (String × String) → List String
load_specs load [] = []
load_specs load (k ∷ ks) =
    let rest = load_specs load ks in elim (load k) [ none ↦ rest | some warning ↦ warning ∷ rest ]

-- What serves listeners: the runner, and the generator of a WASM backend.
pub record StartupApp : Type 0 where
  pub runtime : ListenerRuntime
  pub runner : ℕ
  pub generator : Option ℕ

-- The backends that only one kind of provider has.
unfoldable pub check_backend : ListenerRuntime → Option StartupError
check_backend rt =
    if rt.spec.provider == "typesafe"
    then if rt.profile.backend == "ollama" || rt.profile.backend == "wasm"
      then some unsupported_for_typesafe
      else none
    else if rt.profile.backend == "ollama-logprob"
    then some only_for_typesafe
    else none

pub data Generator : Type 0 where
  lorem faker : Generator

unfoldable pub generator_for_backend : String → Result StartupError Generator
generator_for_backend backend =
    if backend == "" || backend == "lorem"
    then ok lorem
    else if backend == "faker"
    then ok faker
    else if backend == "fixture" || backend == "error" || backend == "wasm"
    then ok lorem
    else if backend == "ollama" || backend == "ollama-logprob"
    then ok lorem
    else err unsupported_backend

module _ (env : Env) where
  -- Where the fixtures of the profile are.
  abbrev pub namespace_dir : ListenerRuntime → String → String
  namespace_dir rt fixtures_dir =
      if rt.profile.fixture_namespace == ""
      then fixtures_dir
      else env.join_path fixtures_dir rt.profile.fixture_namespace

  unfoldable pub load_local_fixtures : ListenerRuntime → String → Option StartupError
  load_local_fixtures rt fixtures_dir =
      if not (rt.profile.backend == "fixture")
      then none
      else if fixtures_dir == ""
      then some no_fixtures_dir
      else elim (env.load_fixtures (namespace_dir rt fixtures_dir) rt) [
        | none ↦ none
        | some e ↦ some (bad_fixtures e)
      ]

  -- wasmGeneratorForProfile: the compiled module is open.
  unfoldable pub wasm_generator_for_profile :
      RuntimeProfile → World → World × Result StartupError (Option ℕ)
  unfolding open_handle
  wasm_generator_for_profile p w =
      if not (p.backend == "wasm") then (w, ok none) else elim (env.compile p) [
        | some e ↦ (w, err (bad_wasm e))
        | none ↦ let (w', h) = open_handle w in (w', ok (some h))
      ]

  -- The rest of a build, once the runner is open: each error closes it.
  abbrev pub with_generator :
      ListenerRuntime
      → ℕ
      → World × Result StartupError (Option ℕ)
      → World × Result StartupError StartupApp
  with_generator rt runner (w, err e) = (close_handle runner w, err e)
  with_generator rt runner (w, ok g) =
      (w, ok (record { runtime = rt; runner = runner; generator = g }))

  abbrev pub with_fixtures :
      ListenerRuntime
      → ℕ
      → World
      → Option StartupError
      → Result StartupError Generator
      → World × Result StartupError StartupApp
  with_fixtures rt runner w (some e) g = (close_handle runner w, err e)
  with_fixtures rt runner w none (err e) = (close_handle runner w, err e)
  with_fixtures rt runner w none (ok g) =
      with_generator rt runner (wasm_generator_for_profile rt.profile w)

  unfoldable pub build_app :
      ListenerRuntime → String → World → World × Result StartupError StartupApp
  unfolding check_backend open_handle load_local_fixtures generator_for_backend
      wasm_generator_for_profile close_handle
  build_app rt fixtures_dir w = elim (check_backend rt) [
    | some e ↦ (w, err e)
    | none ↦
        let (w', runner) = open_handle w in
        with_fixtures rt runner w' (load_local_fixtures rt fixtures_dir)
          (generator_for_backend rt.profile.backend)
  ]

  -- The warnings of a build: those of the schemas, then those of the fixtures.
  unfoldable pub build_warnings : ListenerRuntime → String → List String
  unfolding check_backend load_specs provider_spec_keys
  build_warnings rt fixtures_dir = elim (check_backend rt) [
    | some e ↦ []
    | none ↦
        load_specs env.load_schema (provider_spec_keys rt.spec.provider)
        ++ (if rt.profile.backend == "fixture" && not (fixtures_dir == "")
            then env.fixture_warnings (namespace_dir rt fixtures_dir) rt
            else [])
  ]

abbrev pub close_option : Option ℕ → World → World
close_option none w = w
close_option (some h) w = close_handle h w

-- The app's close.
unfoldable pub close_app : StartupApp → World → World
unfolding close_handle
close_app app w = close_option app.generator (close_handle app.runner w)

-- setListenerAddr: the address that the state route shows.
unfoldable pub set_listener_addr : String → StartupApp → StartupApp
set_listener_addr addr app = record app {
  runtime = record app.runtime { spec = record app.runtime.spec { addr = addr } };
}

-- Where a request of a listener goes.
pub data Route : Type 0 where
  health state : Route
  provider : String → Context → Route
  unknown_provider : String → Route

abbrev pub known_provider : String → Bool
known_provider p =
    p == "anthropic" || p == "openai" || p == "gemini" || p == "ollama" || p == "typesafe"

abbrev pub or_empty : Option ProfileCounters → ProfileCounters
or_empty none = []
or_empty (some c) = c

-- buildLocalHandler: only a provider's request is counted.
unfoldable pub local_route :
    ListenerRuntime → ProfileCounters → String → String → ProfileCounters × Route
unfolding increment_profile_request with_listener_runtime with_profile_counters
    with_profile_request_sequence
local_route rt counters method path =
    if method == "GET" && path == "/_zolem/health"
    then (counters, health)
    else if method == "GET" && path == "/_zolem/state"
    then (counters, state)
    else let (c, n) = increment_profile_request (some counters) rt.profile.name in
      let ctx =
        with_profile_request_sequence
          (with_profile_counters (with_listener_runtime background rt) (or_empty c)) n in
      if known_provider rt.spec.provider
      then (or_empty c, provider rt.spec.provider ctx)
      else (or_empty c, unknown_provider rt.spec.provider)
