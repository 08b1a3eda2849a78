-- ===== src/Startup/App/Ledger.antt =====
-- Who owns the handles that are open.
use zolem.Base.{
  ℕ, ◌≤◌, ◌==◌, String, List, [], ◌∷◌, ◌++◌, Option, none, some, if◌then◌else◌, eqb, count, Result,
  ok, err, ◌≡◌, arith, Bool-cases, inl, inr,
}
use zolem.Runtime.{ListenerRuntime, RuntimeProfile}
use zolem.Startup.{StartupError, bad_wasm}
use zolem.Startup.App.{
  World, open_handle, without, close_handle, Env, StartupApp, Generator, check_backend,
  generator_for_backend, load_local_fixtures, wasm_generator_for_profile, with_generator,
  with_fixtures, build_app, close_option, close_app,
}

-- The open handles are those of `owned`, each once, and none is to come.
abbrev pub IsLedger : World → List ℕ → Type 0
IsLedger w owned =
    (x : ℕ)
    → (count x w.live ≡ count x owned) × (count x owned ≤ 1) × (w.next ≤ x → count x owned ≡ 0)

count-without :
    (x h : ℕ) (xs : List ℕ) → count x (without h xs) ≡ (if eqb h x then 0 else count x xs)
unfolding without
count-without x h [] = ground arith
count-without x h (y ∷ xs) = ground (arith, count-without x h xs)

module _ (w : World) (owned : List ℕ) where
  pub open_handle-IsLedger :
      IsLedger w owned → IsLedger (open_handle w).0 ((open_handle w).1 ∷ owned)
  unfolding open_handle
  open_handle-IsLedger l x = ground (arith, l x)

  pub close_handle-IsLedger : (h : ℕ) → IsLedger w (h ∷ owned) → IsLedger (close_handle h w) owned
  unfolding close_handle
  close_handle-IsLedger h l x = ground (arith, l x, l h, count-without x h w.live)

  -- Owners may be named in any order.
  pub regroup :
      (others : List ℕ)
      → ((x : ℕ) → count x owned ≡ count x others)
      → IsLedger w owned
      → IsLedger w others
  regroup others same l x = ground (arith, same x, l x)

abbrev pub option_handles : Option ℕ → List ℕ
option_handles none = []
option_handles (some h) = h ∷ []

abbrev pub app_handles : StartupApp → List ℕ
app_handles app = app.runner ∷ option_handles app.generator

-- What a build that returned owns beside the rest.
abbrev pub Built : List ℕ → World × Result StartupError StartupApp → Type 0
Built owned (w, err e) = IsLedger w owned
Built owned (w, ok app) = IsLedger w (app_handles app ++ owned)

abbrev BuiltGenerator : List ℕ → World × Result StartupError (Option ℕ) → Type 0
BuiltGenerator owned (w, err e) = IsLedger w owned
BuiltGenerator owned (w, ok g) = IsLedger w (option_handles g ++ owned)

module _ (env : Env) (rt : ListenerRuntime) (owned : List ℕ) where
  BuiltGenerator-wasm_generator_for_profile :
      (p : RuntimeProfile) (w : World)
      → IsLedger w owned
      → BuiltGenerator owned (wasm_generator_for_profile env p w)
  unfolding wasm_generator_for_profile
  BuiltGenerator-wasm_generator_for_profile p w l = elim (Bool-cases (p.backend == "wasm")) [
    | inr other ↦ rw other l
    | inl wasm ↦ rw wasm (of (env.compile p))
  ]
    where
      of :
          (o : Option String)
          → BuiltGenerator owned (elim o as (λ x. World × Result StartupError (Option ℕ)) [
            | some e ↦ (w, err (bad_wasm e))
            | none ↦ ((open_handle w).0, ok (some (open_handle w).1))
          ])
      of none = open_handle-IsLedger w owned l
      of (some e) = l

  Built-with_generator :
      (runner : ℕ) (r : World × Result StartupError (Option ℕ))
      → BuiltGenerator (runner ∷ owned) r
      → Built owned (with_generator env rt runner r)
  Built-with_generator runner (w, err e) l = close_handle-IsLedger w owned runner l
  Built-with_generator runner (w, ok none) l = l
  Built-with_generator runner (w, ok (some g)) l =
      regroup w (g ∷ runner ∷ owned) (runner ∷ g ∷ owned) (λ x. omega arith) l

module _ (env : Env) (rt : ListenerRuntime) (owned : List ℕ) where
  Built-with_fixtures :
      (runner : ℕ) (w : World) (o : Option StartupError) (g : Result StartupError Generator)
      → IsLedger w (runner ∷ owned)
      → Built owned (with_fixtures env rt runner w o g)
  Built-with_fixtures runner w (some e) g l = close_handle-IsLedger w owned runner l
  Built-with_fixtures runner w none (err e) l = close_handle-IsLedger w owned runner l
  Built-with_fixtures runner w none (ok g) l =
      Built-with_generator env rt owned runner (wasm_generator_for_profile env rt.profile w)
        (BuiltGenerator-wasm_generator_for_profile env rt (runner ∷ owned) rt.profile w l)

  pub Built-build_app :
      (dir : String) (w : World) → IsLedger w owned → Built owned (build_app env rt dir w)
  unfolding build_app
  Built-build_app dir w l = of (check_backend rt)
    where
      of :
          (o : Option StartupError)
          → Built owned (elim o as (λ x. World × Result StartupError StartupApp) [
            | some e ↦ (w, err e)
            | none ↦
                let (w', runner) = open_handle w in
                with_fixtures env rt runner w'
                  (load_local_fixtures env rt dir)
                  (generator_for_backend rt.profile.backend)
          ])
      of (some e) = l
      of none =
          Built-with_fixtures (open_handle w).1 (open_handle w).0 (load_local_fixtures env rt dir)
            (generator_for_backend rt.profile.backend) (open_handle-IsLedger w owned l)

pub close_app-IsLedger :
    (app : StartupApp) (w : World) (owned : List ℕ)
    → IsLedger w (app_handles app ++ owned)
    → IsLedger (close_app app w) owned
unfolding close_app
close_app-IsLedger app w owned l = of app.generator l
  where
    of :
        (g : Option ℕ)
        → IsLedger w (app.runner ∷ option_handles g ++ owned)
        → IsLedger (close_option g (close_handle app.runner w)) owned
    of none l = close_handle-IsLedger w owned app.runner l
    of (some h) l =
        close_handle-IsLedger (close_handle app.runner w) owned h
          (close_handle-IsLedger w (h ∷ owned) app.runner l)
