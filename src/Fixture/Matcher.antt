-- ===== src/Fixture/Matcher.antt =====
-- Matcher of internal/fixture/matcher.go: the fixtures of a provider and version, then a selector.
pub mod Laws
use zolem.Base.{
  ℤ, Bool, true, false, not, ◌&&◌, ◌||◌, String, ◌==◌, List, [], ◌∷◌, Option, none, some,
  if◌then◌else◌,
}
use zolem.Fixture.{Fixture, MatchRequest}
use zolem.Fixture.Engine.{Engine}
use zolem.Fixture.Selector.{
  LegacySelector, select_legacy, select_static, YamlSelector, YamlState, Selected, picked, nothing,
  fails, select_yaml,
}

-- The types that implement Selector. A wasm one is what its module outputs for this call, as its
-- memory stands: an error, the null id, or an id.
pub data Selector : Type 0 where
  legacy : LegacySelector → Selector
  yaml : YamlSelector → Selector
  static : ℤ → Selector
  wasm : (MatchRequest → List Fixture → Option (Option String)) → Selector
  noop : Selector

pub record Matcher : Type 0 where
  pub has_runner : Bool
  pub fixtures : List Fixture
  pub selector : Selector

-- A missing selector is a legacy one, and a legacy one without a runner takes the matcher's.
abbrev pub adopt : Bool → Option Selector → Selector
adopt has_runner none = legacy (record { has_runner = has_runner; cel = [] })
adopt has_runner (some (legacy s)) = legacy (record s { has_runner = s.has_runner || has_runner })
adopt has_runner (some s) = s

unfoldable pub new_matcher : Bool → List Fixture → Option Selector → Matcher
new_matcher has_runner fixtures selector = record {
  has_runner = has_runner;
  fixtures = fixtures;
  selector = adopt has_runner selector;
}

unfoldable pub swap : Matcher → List Fixture → Matcher
swap m fixtures = record m { fixtures = fixtures }

unfoldable pub swap_with_selector : Matcher → List Fixture → Option Selector → Matcher
swap_with_selector m fixtures selector = record m {
  fixtures = fixtures;
  selector = adopt m.has_runner selector;
}

abbrev pub of_option : Option Fixture → Selected
of_option none = nothing
of_option (some f) = picked f

-- The fixtures of the request's provider and version, in order.
unfoldable pub candidates_of : MatchRequest → List Fixture → List Fixture
candidates_of req [] = []
candidates_of req (f ∷ fs) =
    let rest = candidates_of req fs in
    if not (f.provider == req.provider) || not (f.version == req.version) then rest else f ∷ rest

-- LegacySelector.Select, whose only error is a request without JSON.
unfoldable pub try_legacy : Engine → LegacySelector → MatchRequest → List Fixture → Selected
unfolding select_legacy
try_legacy engine s req candidates =
    if engine.marshals req then of_option (select_legacy engine s req candidates) else fails

-- The first candidate of an id.
unfoldable pub find_id : String → List Fixture → Option Fixture
find_id id [] = none
find_id id (f ∷ fs) = let rest = find_id id fs in if f.id == id then some f else rest

abbrev pub or_fails : Option Fixture → Selected
or_fails none = fails
or_fails (some f) = picked f

-- wasmSelector.Select, from its module's output.
unfoldable pub select_wasm : Option (Option String) → List Fixture → Selected
unfolding find_id
select_wasm none candidates = fails
select_wasm (some none) candidates = nothing
select_wasm (some (some id)) candidates =
    if id == "" then nothing else or_fails (find_id id candidates)

-- selector.Select, by the selector's type. `profile` is the name that the context carries.
unfoldable pub select :
    Engine → Selector → String → MatchRequest → List Fixture → YamlState → YamlState × Selected
unfolding try_legacy select_yaml select_static select_wasm
select engine (legacy s) profile req candidates st = (st, try_legacy engine s req candidates)
select engine (yaml s) profile req candidates st = select_yaml engine s profile req candidates st
select engine (static i) profile req candidates st = (st, of_option (select_static i candidates))
select engine (wasm output) profile req candidates st =
    (st, select_wasm (output req candidates) candidates)
select engine noop profile req candidates st = (st, nothing)

-- No candidate, no call of the selector.
abbrev pub match_candidates :
    Engine → Selector → String → MatchRequest → List Fixture → YamlState → YamlState × Selected
match_candidates engine s profile req [] st = (st, nothing)
match_candidates engine s profile req (f ∷ fs) st = select engine s profile req (f ∷ fs) st

unfoldable pub match_ : Engine → Matcher → String → MatchRequest → YamlState → YamlState × Selected
unfolding select candidates_of
match_ engine m profile req st =
    match_candidates engine m.selector profile req (candidates_of req m.fixtures) st
