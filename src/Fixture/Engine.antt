-- ===== src/Fixture/Engine.antt =====
-- Scores: CompiledCELMatcher.Score of internal/fixture/cel.go over the engine that evaluates it.
use zolem.Base.{negsuc, Bool, true, false, String, Option, none, some}
use zolem.Fixture.{Float32, finite, MatchRequest}

-- The CEL and WASM engines, and encoding/json. `none` is an error, a value that is no Boolean
-- included; `marshals` says whether a request has JSON, which an invalid body denies it.
pub record Engine : Type 0 where
  pub marshals : MatchRequest → Bool
  pub eval : String → MatchRequest → Option Bool
  pub score : String → MatchRequest → Option Float32

pub record CompiledCelMatcher : Type 0 where
  pub program : String
  pub score : Float32

abbrev pub minus_one : Float32
minus_one = finite (negsuc 0)

-- A request that does not match scores -1.
unfoldable pub cel_score : Engine → CompiledCelMatcher → MatchRequest → Option Float32
cel_score engine m req = elim (engine.eval m.program req) [
  | none ↦ none
  | some true ↦ some m.score
  | some false ↦ some minus_one
]
