-- ===== src/Fixture/Tests.antt =====
-- Tests and witnesses of the fixture modules.
use zolem.Base.{
  zero, ℕ, lookup, insert, List, ◌++◌, suc, ◌<◌, pos, true, false, ◌==◌, [], ◌∷◌, none, some,
  if◌then◌else◌, ◌≡◌, refl, arith,
}
use zolem.Fixture.{Fixture, MatchRequest, finite}
use zolem.Fixture.Engine.{Engine}
use zolem.Fixture.Sequence.{cycle, error, SequenceKey, step}
use zolem.Fixture.Sequence.Laws.{Plan, run, count_key, served_at, step-run}
use zolem.Fixture.Selector.{
  by_id, Selected, LegacySelector, YamlSelector, YamlState, picked, exhausted, sequence,
  select_legacy, score,
}
use zolem.Fixture.Matcher.{Matcher, match_, yaml}
use zolem.Fixture.Matcher.Laws.{Answers, match-Answers}

-- Programs that test the provider of the request, and modules that score 7.
abbrev engine : Engine
engine = record {
  marshals = λ req. true;
  eval = λ p req. if p == "bad" then none else some (p == req.provider);
  score = λ m req. some (finite (pos 7));
}

abbrev chat : MatchRequest
chat = record { provider = "openai"; version = "v1"; labels = []; body = "hi" }

abbrev first : Fixture
first = record { id = "first"; provider = "openai"; version = "v1"; module_ = none }

abbrev second : Fixture
second = record { id = "second"; provider = "openai"; version = "v1"; module_ = some "m" }

abbrev foreign : Fixture
foreign = record { id = "foreign"; provider = "gemini"; version = "v1"; module_ = none }

abbrev legacy_cel : LegacySelector
legacy_cel = record {
  has_runner = true;
  cel = ("first", record { program = "openai"; score = finite (pos 7) }) ∷ [];
}

-- Of two candidates of one score the earlier answers.
select_legacy_tie : select_legacy engine legacy_cel chat (first ∷ second ∷ []) ≡ some first
unfolding select_legacy lookup
select_legacy_tie = refl

abbrev plan : Plan
plan = record { total = λ k. 2; on_exhaust = λ k. cycle }

plan-total : (k : SequenceKey) → 0 < plan.total k
plan-total k = omega arith

abbrev key_a : SequenceKey
key_a = record { profile = "p"; namespace = "n"; id = "a" }

abbrev key_b : SequenceKey
key_b = record { profile = "p"; namespace = "n"; id = "b" }

step-run_example :
    (step (some (run plan plan-total [] (key_a ∷ key_b ∷ key_a ∷ key_a ∷ []))) key_a 2 cycle).1
    ≡ served_at 2 cycle (count_key plan plan-total key_a (key_a ∷ key_b ∷ key_a ∷ key_a ∷ []))
step-run_example = step-run plan plan-total (key_a ∷ key_b ∷ key_a ∷ key_a ∷ []) key_a

served_fourth :
    (step (some (run plan plan-total [] (key_a ∷ key_b ∷ key_a ∷ key_a ∷ []))) key_a 2 cycle).1
    ≡ record { index = 1; exhausted = false }
served_fourth = step-run_example

abbrev turns : YamlSelector
turns = record {
  entries =
      record {
        matcher = record { program = "openai"; score = finite (pos 0) };
        target =
            sequence (record { id = "turns"; on_exhaust = error; steps = "second" ∷ "first" ∷ [] });
      }
      ∷ [];
  namespace = "main";
}

abbrev turn_matcher : Matcher
turn_matcher = record {
  has_runner = true;
  fixtures = foreign ∷ first ∷ second ∷ [];
  selector = yaml turns;
}

abbrev fresh : YamlState
fresh = record { counters = some []; warned = [] }

match-Answers_example :
    Answers chat (foreign ∷ first ∷ second ∷ []) (match_ engine turn_matcher "p" chat fresh).1
match-Answers_example = match-Answers engine turn_matcher "p" chat fresh (omega arith, tt)

-- Three requests of a sequence of two steps that ends in an error.
abbrev after : YamlState → List (Selected) → ℕ → List Selected
after st rs zero = rs
after st rs (suc n) =
    let (st', r) = match_ engine turn_matcher "p" chat st in after st' (rs ++ (r ∷ [])) n

match_thrice : after fresh [] 3 ≡ picked second ∷ picked first ∷ exhausted "turns" "main" ∷ []
unfolding match_ lookup insert step by_id
match_thrice = refl
