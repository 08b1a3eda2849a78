-- ===== src/Base/Maps.antt =====
-- Go maps as association lists under any key with a decided equality.
use Prim.Native.String.{String}
use mathlib.Core.Path.{◌≡◌, refl, ap, sym, ◌∙◌, subst, subst₂}
use mathlib.Core.Logic.{◌↔◌, ◌≢◌, inl, inr}
use mathlib.Core.Bool.{Bool, true, false≢true}
use mathlib.Core.List.{List, [], ◌∷◌}
use mathlib.Core.Option.{Option, none, some}
use native.Mathlib.Omega.{arith}
use text.Mathlib.Text.{◌==◌}
use text.Mathlib.TextEquality.{eq_iff}
use zolem.Base.Tests.{if◌then◌else◌, eqb, eqb_iff, Bool-cases, some_inj}
use Prim.Native.Nat.{ℕ}

pub record Eq {ℓ} (K : Type ℓ) : Type ℓ where
  pub beq : K → K → Bool
  pub beq_iff : (a b : K) → (beq a b ≡ true) ↔ (a ≡ b)

instance abbrev pub string_eq : Eq String
string_eq = record { beq = ◌==◌; beq_iff = eq_iff }

instance abbrev pub nat_eq : Eq ℕ
nat_eq = record { beq = eqb; beq_iff = eqb_iff }

module _ {ℓ κ} {K : Type ℓ} {V : Type κ} ⦃e : Eq K⦄ where
  -- m[k], with "missing" for the comma-ok form.
  unfoldable pub lookup : K → List (K × V) → Option V
  lookup k [] = none
  lookup k ((j, v) ∷ m) = if e.beq j k then some v else lookup k m

  -- m[k] = v
  unfoldable pub insert : K → V → List (K × V) → List (K × V)
  insert k v [] = (k, v) ∷ []
  insert k v ((j, w) ∷ m) = if e.beq j k then (k, v) ∷ m else (j, w) ∷ insert k v m

  -- delete(m, k)
  unfoldable pub delete : K → List (K × V) → List (K × V)
  delete k [] = []
  delete k ((j, w) ∷ m) = if e.beq j k then delete k m else (j, w) ∷ delete k m

  pub lookup-insert :
      (k j : K) (v : V) (m : List (K × V))
      → lookup j (insert k v m) ≡ (if e.beq k j then some v else lookup j m)
  unfolding lookup insert
  lookup-insert k j v [] = refl
  lookup-insert k j v ((i, w) ∷ m) =
      ground (arith, e.beq_iff k j, e.beq_iff i k, e.beq_iff i j, lookup-insert k j v m)

  pub lookup-delete :
      (k j : K) (m : List (K × V))
      → lookup j (delete k m) ≡ (if e.beq k j then none else lookup j m)
  unfolding lookup delete
  lookup-delete k j [] = ground arith
  lookup-delete k j ((i, w) ∷ m) =
      ground (arith, e.beq_iff k j, e.beq_iff i k, e.beq_iff i j, lookup-delete k j m)

module _ {ℓ κ} {K : Type ℓ} {V : Type κ} where
  abbrev pub Entries {μ} : (K → V → Type μ) → List (K × V) → Type μ
  Entries P [] = Unit
  Entries P ((k, v) ∷ m) = P k v × Entries P m

  -- No key stands twice.
  abbrev pub Absent : K → List (K × V) → Type ℓ
  Absent k [] = Unit
  Absent k ((j, v) ∷ m) = (k ≢ j) × Absent k m

  abbrev pub Distinct : List (K × V) → Type ℓ
  Distinct [] = Unit
  Distinct ((k, v) ∷ m) = Absent k m × Distinct m

module _ {ℓ κ μ} {K : Type ℓ} {V : Type κ} ⦃e : Eq K⦄ (P : K → V → Type μ) where
  pub Entries-insert :
      (k : K) (v : V) (m : List (K × V)) → P k v → Entries P m → Entries P (insert k v m)
  unfolding insert
  Entries-insert k v [] p h = (p, tt)
  Entries-insert k v ((j, w) ∷ m) p h = elim (Bool-cases (e.beq j k)) [
    | inl same ↦ rw same (p, h.1)
    | inr other ↦ rw other (h.0, Entries-insert k v m p h.1)
  ]

  pub Entries-delete : (k : K) (m : List (K × V)) → Entries P m → Entries P (delete k m)
  unfolding delete
  Entries-delete k [] h = tt
  Entries-delete k ((j, w) ∷ m) h = elim (Bool-cases (e.beq j k)) [
    | inl same ↦ rw same (Entries-delete k m h.1)
    | inr other ↦ rw other (h.0, Entries-delete k m h.1)
  ]

  pub Entries-lookup :
      (k : K) (v : V) (m : List (K × V)) → Entries P m → lookup k m ≡ some v → P k v
  unfolding lookup
  Entries-lookup k v [] h found = cc
  Entries-lookup k v ((j, w) ∷ m) h found = elim (Bool-cases (e.beq j k)) [
    | inl same ↦
        let here : w ≡ v = some_inj (rw same at found) in subst₂ P ((e.beq_iff j k).0 same) here h.0
    | inr other ↦ Entries-lookup k v m h.1 (rw other at found)
  ]

module _ {ℓ κ} {K : Type ℓ} {V : Type κ} ⦃e : Eq K⦄ where
  Absent-insert :
      (i k : K) (v : V) (m : List (K × V)) → i ≢ k → Absent i m → Absent i (insert k v m)
  unfolding insert
  Absent-insert i k v [] n h = (n, tt)
  Absent-insert i k v ((j, w) ∷ m) n h = elim (Bool-cases (e.beq j k)) [
    | inl same ↦ rw same (n, h.1)
    | inr other ↦ rw other (h.0, Absent-insert i k v m n h.1)
  ]

  Absent-delete : (i k : K) (m : List (K × V)) → Absent i m → Absent i (delete k m)
  unfolding delete
  Absent-delete i k [] h = tt
  Absent-delete i k ((j, w) ∷ m) h = elim (Bool-cases (e.beq j k)) [
    | inl same ↦ rw same (Absent-delete i k m h.1)
    | inr other ↦ rw other (h.0, Absent-delete i k m h.1)
  ]

  pub Distinct-insert : (k : K) (v : V) (m : List (K × V)) → Distinct m → Distinct (insert k v m)
  unfolding insert
  Distinct-insert k v [] h = (tt, tt)
  Distinct-insert k v ((j, w) ∷ m) h = elim (Bool-cases (e.beq j k)) [
    | inl same ↦ rw same (subst (λ i. Absent i m) ((e.beq_iff j k).0 same) h.0, h.1)
    | inr other ↦ rw other (
      Absent-insert j k v m (λ p. false≢true (sym other ∙ (e.beq_iff j k).1 p)) h.0,
      Distinct-insert k v m h.1,
    )
  ]

  pub Distinct-delete : (k : K) (m : List (K × V)) → Distinct m → Distinct (delete k m)
  unfolding delete
  Distinct-delete k [] h = tt
  Distinct-delete k ((j, w) ∷ m) h = elim (Bool-cases (e.beq j k)) [
    | inl same ↦ rw same (Distinct-delete k m h.1)
    | inr other ↦ rw other (Absent-delete j k m h.0, Distinct-delete k m h.1)
  ]

module _ {ℓ κ μ} {K : Type ℓ} {V : Type κ} {W : Type μ} where
  abbrev pub map_values : (V → W) → List (K × V) → List (K × W)
  map_values f [] = []
  map_values f ((k, v) ∷ m) = (k, f v) ∷ map_values f m

module _ {ℓ κ μ} {K : Type ℓ} {V : Type κ} {W : Type μ} ⦃e : Eq K⦄ (f : V → W) where
  pub insert-map_values :
      (k : K) (v : V) (m : List (K × V))
      → insert k (f v) (map_values f m) ≡ map_values f (insert k v m)
  unfolding insert
  insert-map_values k v [] = refl
  insert-map_values k v ((j, w) ∷ m) = elim (Bool-cases (e.beq j k)) [
    | inl same ↦ rw same refl
    | inr other ↦ rw other (ap (λ r. (j, f w) ∷ r) (insert-map_values k v m))
  ]

  pub delete-map_values :
      (k : K) (m : List (K × V)) → delete k (map_values f m) ≡ map_values f (delete k m)
  unfolding delete
  delete-map_values k [] = refl
  delete-map_values k ((j, w) ∷ m) = elim (Bool-cases (e.beq j k)) [
    | inl same ↦ rw same (delete-map_values k m)
    | inr other ↦ rw other (ap (λ r. (j, f w) ∷ r) (delete-map_values k m))
  ]

  pub lookup-map_values :
      (k : K) (v : V) (m : List (K × V))
      → lookup k m ≡ some v
      → lookup k (map_values f m) ≡ some (f v)
  unfolding lookup
  lookup-map_values k v [] found = cc
  lookup-map_values k v ((j, w) ∷ m) found = elim (Bool-cases (e.beq j k)) [
    | inl same ↦
        let here : w ≡ v = some_inj (rw same at found) in rw same (ap (λ u. some (f u)) here)
    | inr other ↦ rw other (lookup-map_values k v m (rw other at found))
  ]

  pub lookup-map_values-none :
      (k : K) (m : List (K × V)) → lookup k m ≡ none → lookup k (map_values f m) ≡ none
  unfolding lookup
  lookup-map_values-none k [] missing = refl
  lookup-map_values-none k ((j, w) ∷ m) missing = elim (Bool-cases (e.beq j k)) [
    | inl same ↦ cc (rw same at missing)
    | inr other ↦ rw other (lookup-map_values-none k m (rw other at missing))
  ]

module _ {ℓ κ} {K : Type ℓ} {V : Type κ} ⦃e : Eq K⦄ (k : K) where
  pub insert_same : (v : V) (m : List (K × V)) → lookup k m ≡ some v → insert k v m ≡ m
  unfolding insert lookup
  insert_same v [] found = cc
  insert_same v ((j, w) ∷ m) found = elim (Bool-cases (e.beq j k)) [
    | inl same ↦
        let here : w ≡ v = some_inj (rw same at found) in
        let key : j ≡ k = (e.beq_iff j k).0 same in rw same (rw (key, here) refl)
    | inr other ↦ rw other (ap (λ r. (j, w) ∷ r) (insert_same v m (rw other at found)))
  ]

  pub delete_missing : (m : List (K × V)) → lookup k m ≡ none → delete k m ≡ m
  unfolding delete lookup
  delete_missing [] missing = refl
  delete_missing ((j, w) ∷ m) missing = elim (Bool-cases (e.beq j k)) [
    | inl same ↦ cc (rw same at missing)
    | inr other ↦ rw other (ap (λ r. (j, w) ∷ r) (delete_missing m (rw other at missing)))
  ]

  -- An entry under a name that stands once is the one found.
  pub lookup-Absent : (m : List (K × V)) → Absent k m → lookup k m ≡ none
  unfolding lookup
  lookup-Absent [] h = refl
  lookup-Absent ((j, w) ∷ m) h = elim (Bool-cases (e.beq j k)) [
    | inl same ↦ absurd (h.0 (sym ((e.beq_iff j k).0 same)))
    | inr other ↦ rw other (lookup-Absent m h.1)
  ]
