-- ===== src/Runtime/Store.antt =====
-- Store of internal/runtime/store.go. A method takes the store and returns the new one; the lock
-- makes each method one step.
pub mod Laws
pub mod Listing
pub mod Sorting
use zolem.Base.{
  Bool, true, false, ◌||◌, String, ◌==◌, codes, less, List, [], ◌∷◌, map, Option, none, some,
  if◌then◌else◌, any, Result, ok, err, lookup, insert, delete, string_eq,
}
use zolem.Runtime.{Net, RuntimeProfile, ListenerSpec}
use zolem.Runtime.Profile.{ProfileError, validate_profile}
use zolem.Runtime.Bind.{BindPolicy, ListenerError, validate_listener_spec_with_policy}

pub record Store : Type 0 where
  pub profiles : List (String × RuntimeProfile)
  pub listeners : List (String × ListenerSpec)
  pub policy : BindPolicy

pub data StoreError : Type 0 where
  profile_not_found listener_not_found profile_in_use : StoreError

unfoldable pub new_store_with_bind_policy : BindPolicy → Store
new_store_with_bind_policy policy = record { profiles = []; listeners = []; policy = policy }

unfoldable pub get_profile : Store → String → Option RuntimeProfile
get_profile s name = lookup name s.profiles

-- slices.SortFunc by name, whose result on distinct names is the same for any sort.
pub insert_sorted {ℓ} : {A : Type ℓ} → (A → String) → A → List A → List A
insert_sorted name a [] = a ∷ []
insert_sorted name a (b ∷ bs) =
    let later = b ∷ insert_sorted name a bs in
    if less (codes (name b)) (codes (name a)) then later else a ∷ b ∷ bs

unfoldable pub sort_by_name {ℓ} : {A : Type ℓ} → (A → String) → List A → List A
unfolding insert_sorted
sort_by_name name [] = []
sort_by_name name (a ∷ as_) = insert_sorted name a (sort_by_name name as_)

abbrev pub values {ℓ} : {V : Type ℓ} → List (String × V) → List V
values [] = []
values ((k, v) ∷ m) = v ∷ values m

unfoldable pub list_profiles : Store → List RuntimeProfile
unfolding sort_by_name
list_profiles s = sort_by_name (λ p. p.name) (values s.profiles)

unfoldable pub list_listeners : Store → List ListenerSpec
unfolding sort_by_name
list_listeners s = sort_by_name (λ l. l.name) (values s.listeners)

-- Some listener answers for the profile.
unfoldable pub in_use : String → List (String × ListenerSpec) → Bool
in_use name [] = false
in_use name ((k, spec) ∷ rest) = spec.profile == name || in_use name rest

unfoldable pub delete_profile : Store → String → Store × Option StoreError
unfolding in_use
delete_profile s name =
    if in_use name s.listeners then (s, some profile_in_use) else elim (lookup name s.profiles) [
      | none ↦ (s, some profile_not_found)
      | some p ↦ (record s { profiles = delete name s.profiles }, none)
    ]

unfoldable pub delete_listener : Store → String → Store × Option StoreError
delete_listener s name = elim (lookup name s.listeners) [
  | none ↦ (s, some listener_not_found)
  | some spec ↦ (record s { listeners = delete name s.listeners }, none)
]

module _ (net : Net) where
  unfoldable pub upsert_profile :
      Store → RuntimeProfile → Store × Result ProfileError RuntimeProfile
  upsert_profile s p = elim (validate_profile net p) [
    | some e ↦ (s, err e)
    | none ↦ (record s { profiles = insert p.name p s.profiles }, ok p)
  ]

  unfoldable pub upsert_listener : Store → ListenerSpec → Store × Result ListenerError ListenerSpec
  upsert_listener s spec = elim (validate_listener_spec_with_policy net spec s.policy) [
    | some e ↦ (s, err e)
    | none ↦ (record s { listeners = insert spec.name spec s.listeners }, ok spec)
  ]
