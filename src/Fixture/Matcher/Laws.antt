-- ===== src/Fixture/Matcher/Laws.antt =====
-- What a match answers.
use mathlib.Core.List.{Memᴰ}
use zolem.Base.{
  not, ◌||◌, String, ◌==◌, eq_iff, List, [], ◌∷◌, Option, none, some, All, ◌≡◌, refl, ap, subst,
  ◌∙◌, arith, Bool-cases, some_inj, sym, inl, inr,
}
use zolem.Fixture.{Fixture, MatchRequest}
use zolem.Fixture.Engine.{Engine}
use zolem.Fixture.Selector.{
  LegacySelector, select_legacy, select_static, YamlState, Selected, picked, nothing, exhausted,
  fails, panics, HasStep, Sound, select_yaml-Sound, IsBest, select_legacy-Outcome,
  select_static-Memᴰ, score,
}
use zolem.Fixture.Matcher.{
  Selector, legacy, yaml, static, wasm, try_legacy, find_id, or_fails, select_wasm, noop, Matcher,
  of_option, candidates_of, select, match_candidates, match_,
}

-- The candidates are the fixtures of the request's provider and version.
candidates_of_iff :
    (req : MatchRequest) (fs : List Fixture) (f : Fixture)
    → Memᴰ f (candidates_of req fs)
    → Memᴰ f fs × (f.provider ≡ req.provider) × (f.version ≡ req.version)
unfolding candidates_of
candidates_of_iff req [] f m = absurd (elim m [ ])
candidates_of_iff req (g ∷ fs) f m =
    elim (Bool-cases (not (g.provider == req.provider) || not (g.version == req.version))) [
      | inl out ↦
          let (inside, p, v) = candidates_of_iff req fs f (rw out at m) in (Memᴰ.tail inside, p, v)
      | inr kept ↦
          at (candidates_of_iff req fs f) (rw kept at m)
            (ground (arith, eq_iff g.provider req.provider))
            (ground (arith, eq_iff g.version req.version))
    ]
  where
    at :
        (Memᴰ f (candidates_of req fs)
          → Memᴰ f fs × (f.provider ≡ req.provider) × (f.version ≡ req.version))
        → Memᴰ f (g ∷ candidates_of req fs)
        → g.provider ≡ req.provider
        → g.version ≡ req.version
        → Memᴰ f (g ∷ fs) × (f.provider ≡ req.provider) × (f.version ≡ req.version)
    at deeper (Memᴰ.head e) p v =
        (Memᴰ.head e, ap (λ x. x.provider) e ∙ p, ap (λ x. x.version) e ∙ v)
    at deeper (Memᴰ.tail n) p v = let (inside, p', v') = deeper n in (Memᴰ.tail inside, p', v')

-- The sequences of a selector have steps, which loading checks.
abbrev pub HasSteps : Selector → Type 0
HasSteps (yaml s) = All (λ e. HasStep e.target) s.entries
HasSteps _ = Unit

Sound-of_option :
    (fs : List Fixture) (r : Option Fixture)
    → ((f : Fixture) → r ≡ some f → Memᴰ f fs)
    → Sound fs (of_option r)
Sound-of_option fs none h = tt
Sound-of_option fs (some f) h = h f refl

legacy-Memᴰ :
    (engine : Engine) (s : LegacySelector) (req : MatchRequest) (fs : List Fixture) (f : Fixture)
    → select_legacy engine s req fs ≡ some f
    → Memᴰ f fs
legacy-Memᴰ engine s req fs f e =
    (subst (IsBest (λ g. score engine s g req) fs) e (select_legacy-Outcome engine s req fs)).0

Sound-try_legacy :
    (engine : Engine) (s : LegacySelector) (req : MatchRequest) (fs : List Fixture)
    → Sound fs (try_legacy engine s req fs)
unfolding try_legacy
Sound-try_legacy engine s req fs = elim (Bool-cases (engine.marshals req)) [
  | inl encoded ↦
      rw encoded (Sound-of_option fs (select_legacy engine s req fs) (legacy-Memᴰ engine s req fs))
  | inr failed ↦ rw failed tt
]

find_id-Memᴰ : (id : String) (fs : List Fixture) (f : Fixture) → find_id id fs ≡ some f → Memᴰ f fs
unfolding find_id
find_id-Memᴰ id [] f h = cc
find_id-Memᴰ id (g ∷ fs) f h = elim (Bool-cases (g.id == id)) [
  | inl here ↦ Memᴰ.head (sym (some_inj (rw here at h)))
  | inr other ↦ Memᴰ.tail (find_id-Memᴰ id fs f (rw other at h))
]

Sound-or_fails :
    (fs : List Fixture) (r : Option Fixture)
    → ((f : Fixture) → r ≡ some f → Memᴰ f fs)
    → Sound fs (or_fails r)
Sound-or_fails fs none h = tt
Sound-or_fails fs (some f) h = h f refl

Sound-select_wasm :
    (output : Option (Option String)) (fs : List Fixture) → Sound fs (select_wasm output fs)
unfolding select_wasm
Sound-select_wasm none fs = tt
Sound-select_wasm (some none) fs = tt
Sound-select_wasm (some (some id)) fs = elim (Bool-cases (id == "")) [
  | inl empty ↦ rw empty tt
  | inr named ↦ rw named (Sound-or_fails fs (find_id id fs) (find_id-Memᴰ id fs))
]

Sound-select :
    (engine : Engine) (s : Selector) (profile : String) (req : MatchRequest) (fs : List Fixture)
    (st : YamlState)
    → HasSteps s
    → Sound fs (select engine s profile req fs st).1
unfolding select
Sound-select engine (legacy s) profile req fs st h = Sound-try_legacy engine s req fs
Sound-select engine (yaml s) profile req fs st h = select_yaml-Sound engine s profile req fs st h
Sound-select engine (static i) profile req fs st h =
    Sound-of_option fs (select_static i fs) (select_static-Memᴰ i fs)
Sound-select engine (wasm output) profile req fs st h = Sound-select_wasm (output req fs) fs
Sound-select engine noop profile req fs st h = tt

-- An answer to `req`: a fixture that the matcher holds, of the request's provider and version.
abbrev pub Answers : MatchRequest → List Fixture → Selected → Type 0
Answers req fs (picked f) = Memᴰ f fs × (f.provider ≡ req.provider) × (f.version ≡ req.version)
Answers req fs panics = ⊥
Answers req fs _ = Unit

-- Whatever the selector, as long as the sequences of fixtures.yaml have steps, a match never reads
-- past a sequence, and the fixture it finds is one that the matcher holds, of the provider and
-- version of the request.
pub match-Answers :
    (engine : Engine) (m : Matcher) (profile : String) (req : MatchRequest) (st : YamlState)
    → HasSteps m.selector
    → Answers req m.fixtures (match_ engine m profile req st).1
unfolding match_
match-Answers engine m profile req st h =
    of (match_candidates engine m.selector profile req (candidates_of req m.fixtures) st).1
      (among (candidates_of req m.fixtures))
  where
    among : (fs : List Fixture) → Sound fs (match_candidates engine m.selector profile req fs st).1
    among [] = tt
    among (f ∷ fs) = Sound-select engine m.selector profile req (f ∷ fs) st h

    of : (r : Selected) → Sound (candidates_of req m.fixtures) r → Answers req m.fixtures r
    of (picked f) i = candidates_of_iff req m.fixtures f i
    of nothing i = tt
    of (exhausted a b) i = tt
    of fails i = tt
    of panics i = i
