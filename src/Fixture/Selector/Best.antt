-- ===== src/Fixture/Selector/Best.antt =====
-- The legacy and static selectors take a candidate, the legacy one the best.
use mathlib.Core.List.{Memᴰ}
use zolem.Base.{
  ℕ, zero, suc, ℤ, pos, negsuc, true, false, List, [], ◌∷◌, Option, none, some, ◌≡◌, refl, sym, ◌⊎◌,
  inl, inr, arith, Bool-cases, some_inj, subst, get_elem?,
}
use zolem.Fixture.{Fixture, MatchRequest, Float32, nan, inf, finite, less_32}
use zolem.Fixture.Engine.{Engine, minus_one}
use zolem.Fixture.Selector.Legacy.{LegacySelector, score, best_of, select_legacy, select_static}

-- A float that is not NaN.
abbrev pub IsNumber : Float32 → Type 0
IsNumber nan = ⊥
IsNumber _ = Unit

-- What lies below `c` but not below `b` leaves `b` below `c`.
less_32_split :
    (a b c : Float32) → IsNumber b → less_32 a b ≡ false → less_32 b c ≡ false → less_32 a c ≡ false
less_32_split nan b c n h k = refl
less_32_split (finite a) (finite b) (finite c) n h k = ground arith
less_32_split (finite a) (finite b) (inf j) n h k = ground arith
less_32_split (finite a) (inf i) (finite c) n h k = ground arith
less_32_split (finite a) (inf true) (inf true) n h k = refl
less_32_split (finite a) (inf true) (inf false) n h k = cc
less_32_split (finite a) (inf false) (inf j) n h k = cc
less_32_split (inf true) (finite b) c n h k = cc
less_32_split (inf false) (finite b) nan n h k = refl
less_32_split (inf false) (finite b) (finite c) n h k = refl
less_32_split (inf false) (finite b) (inf j) n h k = refl
less_32_split (inf true) (inf true) (finite c) n h k = cc
less_32_split (inf true) (inf true) (inf true) n h k = refl
less_32_split (inf true) (inf true) (inf false) n h k = cc
less_32_split (inf true) (inf false) c n h k = cc
less_32_split (inf false) (inf b) (finite c) n h k = refl
less_32_split (inf false) (inf b) (inf j) n h k = refl
less_32_split (finite a) (finite b) nan n h k = refl
less_32_split (finite a) (inf b) nan n h k = refl
less_32_split (inf a) (inf b) nan n h k = refl
less_32_split (finite a) nan c n h k = absurd n
less_32_split (inf a) nan c n h k = absurd n

less_32-IsNumber : (a b : Float32) → less_32 a b ≡ true → IsNumber b
less_32-IsNumber a (inf n) h = tt
less_32-IsNumber a (finite n) h = tt
less_32-IsNumber nan nan h = cc
less_32-IsNumber (inf n) nan h = cc
less_32-IsNumber (finite n) nan h = cc

less_32_irrefl : (a : Float32) → less_32 a a ≡ false
less_32_irrefl nan = refl
less_32_irrefl (inf true) = refl
less_32_irrefl (inf false) = refl
less_32_irrefl (finite a) = ground arith

less_32_asymm : (a b : Float32) → less_32 a b ≡ true → less_32 b a ≡ false
less_32_asymm nan b h = cc
less_32_asymm (inf n) nan h = cc
less_32_asymm (inf true) (inf true) h = cc
less_32_asymm (inf true) (inf false) h = refl
less_32_asymm (inf false) (inf b) h = cc
less_32_asymm (inf n) (finite b) h = ground arith
less_32_asymm (finite a) nan h = cc
less_32_asymm (finite a) (inf k) h = ground arith
less_32_asymm (finite a) (finite b) h = ground arith

module _ (score_of : Fixture → Float32) where
  -- `f` scores at least as high as every candidate that is not below 0.
  abbrev pub Tops : Float32 → List Fixture → Type 0
  Tops s [] = Unit
  Tops s (f ∷ fs) =
      (less_32 (score_of f) (finite (pos 0)) ≡ false → less_32 s (score_of f) ≡ false) × Tops s fs

  -- A result of the loop from a best `b` so far, of score `s`.
  abbrev Outcome : Option Fixture → Float32 → List Fixture → Option Fixture → Type 0
  Outcome b s fs none = (b ≡ none) × Tops s fs
  Outcome b s fs (some f) =
      ((b ≡ some f) × Tops s fs)
      ⊎ (Memᴰ f fs
          × (less_32 (score_of f) (finite (pos 0)) ≡ false)
          × (less_32 (score_of f) s ≡ false)
          × Tops (score_of f) fs)

  Outcome-best_of :
      (b : Option Fixture) (s : Float32) (fs : List Fixture)
      → IsNumber s
      → Outcome b s fs (best_of score_of b s fs)
  unfolding best_of
  Outcome-best_of none s [] n = (refl, tt)
  Outcome-best_of (some f) s [] n = inl (refl, tt)
  Outcome-best_of b s (f ∷ fs) n = elim (Bool-cases (less_32 (score_of f) (finite (pos 0)))) [
    | inl low ↦
        rw low (keep (best_of score_of b s fs) (λ p. absurd (cc)) (Outcome-best_of b s fs n))
    | inr high ↦ elim (Bool-cases (less_32 s (score_of f))) [
      | inl better ↦ rw high (
          rw better (
            taken high better (best_of score_of (some f) (score_of f) fs)
              (Outcome-best_of (some f) (score_of f) fs (less_32-IsNumber s (score_of f) better))))
      | inr worse ↦
          rw high
            (rw worse (keep (best_of score_of b s fs) (λ p. worse) (Outcome-best_of b s fs n)))
    ]
  ]
    where
      keep :
          (r : Option Fixture)
          → (less_32 (score_of f) (finite (pos 0)) ≡ false → less_32 s (score_of f) ≡ false)
          → Outcome b s fs r
          → Outcome b s (f ∷ fs) r
      keep none h o = (o.0, (h, o.1))
      keep (some g) h (inl o) = inl (o.0, (h, o.1))
      keep (some g) h (inr (m, e, above, top)) = inr (
        Memᴰ.tail m,
        e,
        above,
        (λ p. less_32_split (score_of g) s (score_of f) n above (h p), top),
      )

      taken :
          less_32 (score_of f) (finite (pos 0)) ≡ false
          → less_32 s (score_of f) ≡ true
          → (r : Option Fixture) → Outcome (some f) (score_of f) fs r
          → Outcome b s (f ∷ fs) r
      taken high better none o = absurd (cc)
      taken high better (some g) (inl (same, top)) =
          subst (λ h. Outcome b s (f ∷ fs) (some h)) (some_inj same)
            (inr (
              Memᴰ.head refl,
              high,
              less_32_asymm s (score_of f) better,
              (λ p. less_32_irrefl (score_of f), top),
            ))
      taken high better (some g) (inr (m, e, above, top)) = inr (
        Memᴰ.tail m,
        e,
        less_32_split (score_of g) (score_of f) s (less_32-IsNumber s (score_of f) better) above
            (less_32_asymm s (score_of f) better),
        (λ p. above, top),
      )

  -- What a selection by the score may be.
  abbrev pub IsBest : List Fixture → Option Fixture → Type 0
  IsBest fs none = Tops minus_one fs
  IsBest fs (some f) =
      Memᴰ f fs × (less_32 (score_of f) (finite (pos 0)) ≡ false) × Tops (score_of f) fs

pub select_legacy-Outcome :
    (engine : Engine) (s : LegacySelector) (req : MatchRequest) (fs : List Fixture)
    → IsBest (λ g. score engine s g req) fs (select_legacy engine s req fs)
unfolding select_legacy
select_legacy-Outcome engine s req fs =
    of (best_of (λ f. score engine s f req) none minus_one fs)
      (Outcome-best_of (λ f. score engine s f req) none minus_one fs tt)
  where
    of :
        (r : Option Fixture)
        → Outcome (λ f. score engine s f req) none minus_one fs r
        → IsBest (λ g. score engine s g req) fs r
    of none o = o.1
    of (some f) (inl (same, top)) = absurd (cc)
    of (some f) (inr (m, e, above, top)) = (m, e, top)

get_elem?-Memᴰ : (fs : List Fixture) (i : ℕ) (f : Fixture) → get_elem? fs i ≡ some f → Memᴰ f fs
get_elem?-Memᴰ [] i f h = cc
get_elem?-Memᴰ (g ∷ fs) zero f h = Memᴰ.head (sym (some_inj h))
get_elem?-Memᴰ (g ∷ fs) (suc i) f h = Memᴰ.tail (get_elem?-Memᴰ fs i f h)

pub select_static-Memᴰ :
    (i : ℤ) (fs : List Fixture) (f : Fixture) → select_static i fs ≡ some f → Memᴰ f fs
unfolding select_static
select_static-Memᴰ (pos i) fs f h = get_elem?-Memᴰ fs i f h
select_static-Memᴰ (negsuc i) fs f h = cc
