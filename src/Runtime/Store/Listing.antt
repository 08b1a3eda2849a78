-- ===== src/Runtime/Store/Listing.antt =====
-- Listings are in name order and hold each entry once, whatever order the map is walked in.
use mathlib.Core.List.{Perm}
use mathlib.Core.List.Perm
use zolem.Base.{
  true, false, String, codes, less, less_total, codes_inj, List, [], ◌∷◌, ◌≡◌, sym, ◌∙◌, ◌≢◌, arith,
  Bool-cases, inl, inr, Entries, Absent, Distinct, All,
}
use zolem.Runtime.{Net}
use zolem.Runtime.Store.{Store, insert_sorted, sort_by_name, values, list_profiles, list_listeners}
use zolem.Runtime.Store.Laws.{IsStore, OwnProfile, OwnListener, Entries-map}

module _ {ℓ} {A : Type ℓ} (name : A → String) where
  -- Each element is before the one after it.
  abbrev pub Ascends : List A → Type 0
  Ascends [] = Unit
  Ascends (a ∷ []) = Unit
  Ascends (a ∷ b ∷ as_) = (less (codes (name a)) (codes (name b)) ≡ true) × Ascends (b ∷ as_)

  insert_sorted-perm : (a : A) (as_ : List A) → Perm (insert_sorted name a as_) (a ∷ as_)
  unfolding insert_sorted
  insert_sorted-perm a [] = Perm.refl _
  insert_sorted-perm a (b ∷ bs) = elim (Bool-cases (less (codes (name b)) (codes (name a)))) [
    | inl before ↦ rw before (Perm.trans (Perm.cons b (insert_sorted-perm a bs)) (Perm.swap a b bs))
    | inr after ↦ rw after (Perm.refl _)
  ]

  pub sort_by_name-perm : (as_ : List A) → Perm (sort_by_name name as_) as_
  unfolding sort_by_name
  sort_by_name-perm [] = Perm.refl _
  sort_by_name-perm (a ∷ as_) =
      Perm.trans (insert_sorted-perm a (sort_by_name name as_))
        (Perm.cons a (sort_by_name-perm as_))

  abbrev Differs : A → List A → Type 0
  Differs a = All (λ b. name a ≢ name b)

  less_of_ne :
      (a b : A)
      → name a ≢ name b
      → less (codes (name b)) (codes (name a)) ≡ false
      → less (codes (name a)) (codes (name b)) ≡ true
  less_of_ne a b n h =
      ground (arith, less_total (codes (name b)) (codes (name a)), codes_inj (name b) (name a))

  insert_sorted-Ascends :
      (a : A) (as_ : List A) → Differs a as_ → Ascends as_ → Ascends (insert_sorted name a as_)
  unfolding insert_sorted
  insert_sorted-Ascends a [] n h = tt
  insert_sorted-Ascends a (b ∷ []) n h = ground (arith, less_of_ne a b n.0)
  insert_sorted-Ascends a (b ∷ c ∷ bs) n h =
      ground (arith, less_of_ne a b n.0, insert_sorted-Ascends a (c ∷ bs) n.1 h.1)

  insert_sorted-Differs :
      (x a : A) (as_ : List A)
      → name x ≢ name a
      → Differs x as_
      → Differs x (insert_sorted name a as_)
  unfolding insert_sorted
  insert_sorted-Differs x a [] n h = (n, tt)
  insert_sorted-Differs x a (b ∷ bs) n h = ground (arith, insert_sorted-Differs x a bs n h.1)

  sort_by_name-Differs : (x : A) (as_ : List A) → Differs x as_ → Differs x (sort_by_name name as_)
  unfolding sort_by_name
  sort_by_name-Differs x [] h = tt
  sort_by_name-Differs x (a ∷ as_) (n, h) =
      insert_sorted-Differs x a (sort_by_name name as_) n (sort_by_name-Differs x as_ h)

  abbrev pub AllDiffer : List A → Type 0
  AllDiffer [] = Unit
  AllDiffer (a ∷ as_) = Differs a as_ × AllDiffer as_

  pub sort_by_name-Ascends : (as_ : List A) → AllDiffer as_ → Ascends (sort_by_name name as_)
  unfolding sort_by_name
  sort_by_name-Ascends [] h = tt
  sort_by_name-Ascends (a ∷ as_) (n, h) =
      insert_sorted-Ascends a (sort_by_name name as_) (sort_by_name-Differs a as_ n)
        (sort_by_name-Ascends as_ h)

  -- A map whose entries stand under their own names.
  values-Differs :
      (k : String) (a : A) (m : List (String × A))
      → name a ≡ k
      → Entries (λ j b. name b ≡ j) m
      → Absent k m
      → Differs a (values m)
  values-Differs k a [] e h n = tt
  values-Differs k a ((j, b) ∷ m) e h n =
      (λ s. n.0 (sym e ∙ s ∙ h.0), values-Differs k a m e h.1 n.1)

  values-AllDiffer :
      (m : List (String × A)) → Entries (λ j b. name b ≡ j) m → Distinct m → AllDiffer (values m)
  values-AllDiffer [] h d = tt
  values-AllDiffer ((k, a) ∷ m) h d = (values-Differs k a m h.0 h.1 d.0, values-AllDiffer m h.1 d.1)

  pub sort_by_name-values :
      (m : List (String × A))
      → Entries (λ j b. name b ≡ j) m
      → Distinct m
      → Ascends (sort_by_name name (values m)) × Perm (sort_by_name name (values m)) (values m)
  sort_by_name-values m h d =
      (sort_by_name-Ascends (values m) (values-AllDiffer m h d), sort_by_name-perm (values m))

module _ (net : Net) (s : Store) (v : IsStore net s) where
  -- ListProfiles gives every profile once, in strictly ascending order of names.
  pub list_profiles-Ascends :
      Ascends (λ p. p.name) (list_profiles s) × Perm (list_profiles s) (values s.profiles)
  unfolding list_profiles
  list_profiles-Ascends =
      sort_by_name-values (λ p. p.name) s.profiles
        (Entries-map (OwnProfile net) _ (λ k p h. h.0) s.profiles v.profiles_named)
        v.profiles_distinct

  -- So does ListListeners of the listeners.
  pub list_listeners-Ascends :
      Ascends (λ l. l.name) (list_listeners s) × Perm (list_listeners s) (values s.listeners)
  unfolding list_listeners
  list_listeners-Ascends =
      sort_by_name-values (λ l. l.name) s.listeners
        (Entries-map (OwnListener net s.policy) _ (λ k l h. h.0) s.listeners v.listeners_named)
        v.listeners_distinct
