-- ===== src/Fixture/Selector/Entries.antt =====
-- What fixturesYAMLSelector answers.
use mathlib.Core.List.{Memᴰ}
use zolem.Base.{
  ℕ, zero, suc, ◌+◌, ◌<◌, pos, true, false, String, ◌==◌, List, [], ◌∷◌, some, length, get_elem?,
  All, ◌≡◌, refl, sym, ap, ◌∙◌, inl, inr, arith, Bool-cases, Option, none, Option-cases, some_inj,
}
use zolem.Fixture.{Fixture, MatchRequest, Float32, less_32, finite}
use zolem.Fixture.Engine.{Engine, cel_score}
use zolem.Fixture.Sequence.{
  ExhaustAction, last, cycle, error, fallthrough, SequenceKey, Served, step,
}
use zolem.Fixture.Sequence.Laws.{step-index-lt, step-index-zero}
use zolem.Fixture.Selector.Yaml.{
  SequenceEntry, Target, single, sequence, Entry, YamlSelector, YamlState, Selected, picked, panics,
  Step, answers, continues, by_id, found, index_step, exhausted_step, serve, enter, round,
  select_from, continue_with, select_yaml,
}

-- A sequence of fixtures.yaml has a step.
abbrev pub HasStep : Target → Type 0
HasStep (single id) = Unit
HasStep (sequence q) = 0 < length q.steps

-- An answer that is a candidate, and no read past the steps.
abbrev pub Sound : List Fixture → Selected → Type 0
Sound fs (picked f) = Memᴰ f fs
Sound fs panics = ⊥
Sound fs _ = Unit

abbrev SoundStep : List Fixture → Step → Type 0
SoundStep fs (answers r) = Sound fs r
SoundStep fs continues = Unit

by_id-Memᴰ : (fs : List Fixture) (id : String) (f : Fixture) → by_id fs id ≡ some f → Memᴰ f fs
unfolding by_id
by_id-Memᴰ [] id f h = cc
by_id-Memᴰ (g ∷ fs) id f h = elim (Option-cases (by_id fs id)) [
  | inl gone ↦ elim (Bool-cases (g.id == id)) [
    | inl same ↦ Memᴰ.head (sym (some_inj (rw same at (rw gone at h))))
    | inr other ↦ cc
  ]
  | inr (k, there) ↦ Memᴰ.tail (by_id-Memᴰ fs id f (there ∙ ap some (some_inj (rw there at h))))
]

SoundStep-found : (fs : List Fixture) (id : String) → SoundStep fs (found (by_id fs id))
SoundStep-found fs id = elim (Option-cases (by_id fs id)) [
  | inl gone ↦ rw gone tt
  | inr (f, there) ↦ rw there (by_id-Memᴰ fs id f there)
]

get_elem?-some {ℓ} :
    {A : Type ℓ} (xs : List A) (i : ℕ) → i < length xs → (x : A) × (get_elem? xs i ≡ some x)
get_elem?-some [] i h = absurd (omega (arith, h))
get_elem?-some (x ∷ xs) zero h = (x, refl)
get_elem?-some (x ∷ xs) (suc i) h = get_elem?-some xs i (omega (arith, h))

SoundStep-index_step :
    (fs : List Fixture) (q : SequenceEntry) (i : ℕ)
    → i < length q.steps
    → SoundStep fs (index_step fs q i)
SoundStep-index_step fs q i h =
    let (id, there) = get_elem?-some q.steps i h in rw (there, index_step) (SoundStep-found fs id)

SoundStep-exhausted_step :
    (s : YamlSelector) (fs : List Fixture) (q : SequenceEntry) (a : ExhaustAction) (i : ℕ)
    → i < length q.steps
    → SoundStep fs (exhausted_step s fs q i a)
SoundStep-exhausted_step s fs q last i h = SoundStep-index_step fs q i h
SoundStep-exhausted_step s fs q cycle i h = SoundStep-index_step fs q i h
SoundStep-exhausted_step s fs q error i h = tt
SoundStep-exhausted_step s fs q fallthrough i h = tt

SoundStep-serve :
    (s : YamlSelector) (fs : List Fixture) (q : SequenceEntry) (served : Served)
    → 0 < length q.steps
    → (served.exhausted ≡ false → served.index < length q.steps)
    → (served.exhausted ≡ true → served.index ≡ 0)
    → SoundStep fs (serve s fs q served)
unfolding serve
SoundStep-serve s fs q served pos_steps inside outside = elim (Bool-cases served.exhausted) [
  | inl over ↦ rw over (
      SoundStep-exhausted_step s fs q q.on_exhaust served.index
        (omega (arith, outside over, pos_steps)))
  | inr more ↦ rw more (SoundStep-index_step fs q served.index (inside more))
]

module _ (engine : Engine) (s : YamlSelector) (profile : String) (req : MatchRequest)
    (fs : List Fixture) where
  SoundStep-enter :
      (t : Target) (st : YamlState)
      → HasStep t
      → SoundStep fs (enter engine s profile req fs t st).1
  unfolding enter
  SoundStep-enter (single id) st h = SoundStep-found fs id
  SoundStep-enter (sequence q) st h =
      SoundStep-serve s fs q (step st.counters key (length q.steps) q.on_exhaust).1 h
        (step-index-lt st.counters key (length q.steps) q.on_exhaust)
        (step-index-zero st.counters key (length q.steps) q.on_exhaust)
    where
      key : SequenceKey
      key = record { profile = profile; namespace = s.namespace; id = q.id }

  SoundStep-round :
      (i : ℕ) (e : Entry) (st : YamlState)
      → HasStep e.target
      → SoundStep fs (round engine s profile req fs i e st).1
  unfolding round
  SoundStep-round i e st h = of (cel_score engine e.matcher req) refl
    where
      of :
          (o : Option Float32)
          → cel_score engine e.matcher req ≡ o
          → SoundStep fs (round engine s profile req fs i e st).1
      of none failed = rw (failed, round) tt
      of (some score) scored = elim (Bool-cases (less_32 score (finite (pos 0)))) [
        | inl low ↦ rw (scored, round) (rw low tt)
        | inr high ↦ rw (scored, round) (rw high (SoundStep-enter e.target st h))
      ]

  Sound-select_from :
      (i : ℕ) (es : List Entry) (st : YamlState)
      → All (λ e. HasStep e.target) es
      → Sound fs (select_from engine s profile req fs i es st).1
  unfolding select_from
  Sound-select_from i [] st h = tt
  Sound-select_from i (e ∷ es) st (p, h) =
      after (round engine s profile req fs i e st).1 (SoundStep-round i e st p)
        (Sound-select_from (i + 1) es (round engine s profile req fs i e st).0 h)
    where
      after :
          (o : Step)
          → SoundStep fs o
          → Sound fs
              (select_from engine s profile req fs
                (i + 1)
                es
                (round engine s profile req fs i e st).0).1
          → Sound fs
              (continue_with o ((round engine s profile req fs i e st).0) (
                select_from engine s profile req fs
                  (i + 1)
                  es
                  (round engine s profile req fs i e st).0)).1
      after (answers r) p later = p
      after continues p later = later

  -- Where every sequence has a step, what the entries of fixtures.yaml lead to is a candidate, no
  -- fixture or an exhausted sequence: no index is out of the range of its steps.
  pub select_yaml-Sound :
      (st : YamlState)
      → All (λ e. HasStep e.target) s.entries
      → Sound fs (select_yaml engine s profile req fs st).1
  unfolding select_yaml
  select_yaml-Sound st h = Sound-select_from 0 s.entries st h
