-- ===== src/Runtime/Store/Sorting.antt =====
-- Sorting by name, under a map that keeps the names.
use zolem.Base.{
  String, codes, less, List, [], ◌∷◌, map, ◌≡◌, refl, ap, ◌∙◌, Bool-cases, inl, inr, All,
}
use zolem.Runtime.Store.{insert_sorted, sort_by_name}

module _ {ℓ κ} {A : Type ℓ} {B : Type κ} (f : A → B) (before : A → String)
    (after : B → String) where
  insert_sorted-map :
      (same : (a : A) → after (f a) ≡ before a) (a : A) (as_ : List A)
      → insert_sorted after (f a) (map f as_) ≡ map f (insert_sorted before a as_)
  unfolding insert_sorted
  insert_sorted-map same a [] = refl
  insert_sorted-map same a (b ∷ bs) =
      elim (Bool-cases (less (codes (before b)) (codes (before a)))) [
        | inl first ↦ rw (same a, same b, first) (ap (λ r. f b ∷ r) (insert_sorted-map same a bs))
        | inr last ↦ rw (same a, same b, last) refl
      ]

  pub sort_by_name-map :
      (same : (a : A) → after (f a) ≡ before a) (as_ : List A)
      → sort_by_name after (map f as_) ≡ map f (sort_by_name before as_)
  unfolding sort_by_name
  sort_by_name-map same [] = refl
  sort_by_name-map same (a ∷ as_) =
      ap (insert_sorted after (f a)) (sort_by_name-map same as_)
      ∙ insert_sorted-map same a (sort_by_name before as_)

module _ {ℓ κ} {A : Type ℓ} (P : A → Type κ) (name : A → String) where
  All-insert_sorted : (a : A) (as_ : List A) → P a → All P as_ → All P (insert_sorted name a as_)
  unfolding insert_sorted
  All-insert_sorted a [] p h = (p, tt)
  All-insert_sorted a (b ∷ bs) p h = elim (Bool-cases (less (codes (name b)) (codes (name a)))) [
    | inl first ↦ rw first (h.0, All-insert_sorted a bs p h.1)
    | inr last ↦ rw last (p, h)
  ]

  pub All-sort_by_name : (as_ : List A) → All P as_ → All P (sort_by_name name as_)
  unfolding sort_by_name
  All-sort_by_name [] h = tt
  All-sort_by_name (a ∷ as_) h =
      All-insert_sorted a (sort_by_name name as_) h.0 (All-sort_by_name as_ h.1)

  All-uninsert_sorted : (a : A) (as_ : List A) → All P (insert_sorted name a as_) → P a × All P as_
  unfolding insert_sorted
  All-uninsert_sorted a [] h = h
  All-uninsert_sorted a (b ∷ bs) h = elim (Bool-cases (less (codes (name b)) (codes (name a)))) [
    | inl first ↦
        let both : P b × All P (insert_sorted name a bs) = rw first at h in
        let (p, rest) = All-uninsert_sorted a bs both.1 in (p, (both.0, rest))
    | inr last ↦ rw last at h
  ]

  pub All-unsort_by_name : (as_ : List A) → All P (sort_by_name name as_) → All P as_
  unfolding sort_by_name
  All-unsort_by_name [] h = tt
  All-unsort_by_name (a ∷ as_) h =
      let (p, rest) = All-uninsert_sorted a (sort_by_name name as_) h in
      (p, All-unsort_by_name as_ rest)
