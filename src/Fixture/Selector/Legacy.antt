-- ===== src/Fixture/Selector/Legacy.antt =====
-- LegacySelector and the two static selectors.
use zolem.Base.{
  ℤ, pos, negsuc, Bool, true, false, String, List, [], ◌∷◌, Option, none, some, if◌then◌else◌,
  lookup, string_eq, get_elem?,
}
use zolem.Fixture.{Fixture, MatchRequest, Float32, finite, less_32}
use zolem.Fixture.Engine.{Engine, CompiledCelMatcher, cel_score, minus_one}

-- `has_runner` says whether the selector has a WASM runner.
pub record LegacySelector : Type 0 where
  pub has_runner : Bool
  pub cel : List (String × CompiledCelMatcher)

abbrev or_minus_one : Option Float32 → Float32
or_minus_one none = minus_one
or_minus_one (some s) = s

module _ (engine : Engine) where
  unfoldable pub score : LegacySelector → Fixture → MatchRequest → Float32
  unfolding cel_score
  score s f req = elim (lookup f.id s.cel) [
    | some m ↦ or_minus_one (cel_score engine m req)
    | none ↦ elim f.module_ [
      | none ↦ minus_one
      | some mod_ ↦ if s.has_runner then or_minus_one (engine.score mod_ req) else minus_one
    ]
  ]

-- The loop over the candidates, for their scores.
unfoldable pub best_of :
    (Fixture → Float32) → Option Fixture → Float32 → List Fixture → Option Fixture
best_of score best best_score [] = best
best_of score best best_score (f ∷ fs) =
    let s = score f in
    let kept = best_of score best best_score fs in
    let taken = best_of score (some f) s fs in
    if less_32 s (finite (pos 0)) then kept else if less_32 best_score s then taken else kept

-- Select, once the request has its JSON.
unfoldable pub select_legacy :
    Engine → LegacySelector → MatchRequest → List Fixture → Option Fixture
unfolding best_of score
select_legacy engine s req candidates =
    best_of (λ f. score engine s f req) none minus_one candidates

-- HasMatcher and HasCEL. A loaded module has a path too, so `module_` stands for both.
unfoldable pub has_cel : LegacySelector → String → Bool
has_cel s id = elim (lookup id s.cel) [ none ↦ false | some m ↦ true ]

-- A fixed index, which may be negative.
unfoldable pub select_static : ℤ → List Fixture → Option Fixture
select_static (negsuc n) candidates = none
select_static (pos i) candidates = get_elem? candidates i
