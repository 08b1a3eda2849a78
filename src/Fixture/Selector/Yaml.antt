-- ===== src/Fixture/Selector/Yaml.antt =====
-- fixturesYAMLSelector: the entries of fixtures.yaml in order.
use zolem.Base.{
  ℕ, ◌+◌, pos, String, ◌==◌, List, [], ◌∷◌, Option, none, some, if◌then◌else◌, any, eqb, length,
  get_elem?,
}
use zolem.Fixture.{Fixture, MatchRequest, finite, less_32}
use zolem.Fixture.Engine.{Engine, CompiledCelMatcher, cel_score}
use zolem.Fixture.Sequence.{
  ExhaustAction, error, fallthrough, SequenceKey, SequenceCounters, Served, step,
}

pub record SequenceEntry : Type 0 where
  pub id : String
  pub on_exhaust : ExhaustAction
  pub steps : List String

-- One fixture, or a sequence of them.
pub data Target : Type 0 where
  single : String → Target
  sequence : SequenceEntry → Target

pub record Entry : Type 0 where
  pub matcher : CompiledCelMatcher
  pub target : Target

pub record YamlSelector : Type 0 where
  pub entries : List Entry
  pub namespace : String

-- What a selection changes: the shared counters, and the indexes of the entries whose error has
-- been logged.
pub record YamlState : Type 0 where
  pub counters : Option SequenceCounters
  pub warned : List ℕ

-- `fails` is another error, and `panics` an index that is out of the range of the steps.
pub data Selected : Type 0 where
  picked : Fixture → Selected
  nothing : Selected
  exhausted : (sequence_id namespace : String) → Selected
  fails : Selected
  panics : Selected

abbrev pub warn_entry : ℕ → YamlState → YamlState
warn_entry i st = if any (eqb i) st.warned then st else record st { warned = i ∷ st.warned }

-- byID of the candidates: of two with one id the later stands.
unfoldable pub by_id : List Fixture → String → Option Fixture
by_id [] id = none
by_id (f ∷ fs) id = elim (by_id fs id) [
  | some g ↦ some g
  | none ↦ if f.id == id then some f else none
]

-- What an entry that matches leads to: an answer, or the next entry.
pub data Step : Type 0 where
  answers : Selected → Step
  continues : Step

abbrev pub found : Option Fixture → Step
found none = continues
found (some f) = answers (picked f)

-- steps[idx], and its fixture among the candidates.
abbrev pub index_step : List Fixture → SequenceEntry → ℕ → Step
index_step candidates e i = elim (get_elem? e.steps i) [
  | none ↦ answers panics
  | some id ↦ found (by_id candidates id)
]

-- The switch on an exhausted sequence; its other values go on to the index.
abbrev pub exhausted_step : YamlSelector → List Fixture → SequenceEntry → ℕ → ExhaustAction → Step
exhausted_step s candidates e i error = answers (exhausted e.id s.namespace)
exhausted_step s candidates e i fallthrough = continues
exhausted_step s candidates e i _ = index_step candidates e i

unfoldable pub serve : YamlSelector → List Fixture → SequenceEntry → Served → Step
serve s candidates e served =
    if served.exhausted
    then exhausted_step s candidates e served.index e.on_exhaust
    else index_step candidates e served.index

-- What the loop returns after a round, given what it returns from there on.
abbrev pub continue_with : Step → YamlState → YamlState × Selected → YamlState × Selected
continue_with (answers r) st later = (st, r)
continue_with continues st later = later

module _ (engine : Engine) (s : YamlSelector) (profile : String) (req : MatchRequest)
    (candidates : List Fixture) where
  -- An entry whose score is not negative.
  unfoldable pub enter : Target → YamlState → YamlState × Step
  unfolding serve
  enter (single id) st = (st, found (by_id candidates id))
  enter (sequence e) st =
      let key : SequenceKey = record { profile = profile; namespace = s.namespace; id = e.id } in
      let (counters, served) = step st.counters key (length e.steps) e.on_exhaust in
      (record st { counters = counters }, serve s candidates e served)

  -- One round of the loop.
  unfoldable pub round : ℕ → Entry → YamlState → YamlState × Step
  unfolding enter cel_score
  round i e st = elim (cel_score engine e.matcher req) [
    | none ↦ (warn_entry i st, continues)
    | some score ↦ if less_32 score (finite (pos 0)) then (st, continues) else enter e.target st
  ]

  unfoldable pub select_from : ℕ → List Entry → YamlState → YamlState × Selected
  select_from i [] st = (st, nothing)
  select_from i (e ∷ es) st =
      let (st', outcome) = round i e st in
      let later = select_from (i + 1) es st' in continue_with outcome st' later

unfoldable pub select_yaml :
    Engine → YamlSelector → String → MatchRequest → List Fixture → YamlState → YamlState × Selected
unfolding select_from round
select_yaml engine s profile req candidates st =
    select_from engine s profile req candidates 0 s.entries st
