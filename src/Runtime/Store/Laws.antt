-- ===== src/Runtime/Store/Laws.antt =====
-- What the store keeps true of its two maps.
use zolem.Base.{
  string_eq, true, false, String, ◌==◌, eq_iff, List, [], ◌∷◌, Option, none, some, if◌then◌else◌,
  lookup, delete, lookup-insert, lookup-delete, Entries, Entries-insert, Entries-delete, Distinct,
  Distinct-insert, Distinct-delete, ◌≡◌, refl, ◌≢◌, ◌⊎◌, inl, inr, arith, Bool-cases, Option-cases,
}
use zolem.Runtime.{Net, RuntimeProfile, ListenerSpec}
use zolem.Runtime.Profile.{validate_profile}
use zolem.Runtime.Bind.{BindPolicy, validate_listener_spec_with_policy}
use zolem.Runtime.Store.{
  Store, StoreError, profile_not_found, profile_in_use, new_store_with_bind_policy, get_profile,
  in_use, delete_profile, delete_listener, upsert_profile, upsert_listener,
}

-- A deletion leaves the store alone, or removes the entry.
delete_profile_cases {ℓ} :
    (P : Store → Type ℓ) (s : Store) (name : String)
    → P s
    → P (record s { profiles = delete name s.profiles })
    → P (delete_profile s name).0
unfolding delete_profile
delete_profile_cases P s name kept removed = elim (Bool-cases (in_use name s.listeners)) [
  | inl used ↦ rw (used, delete_profile) kept
  | inr free ↦ elim (Option-cases (lookup name s.profiles)) [
    | inl missing ↦ rw (free, missing, delete_profile) kept
    | inr (p, found) ↦ rw (free, found, delete_profile) removed
  ]
]

module _ (net : Net) where
  abbrev pub OwnProfile : String → RuntimeProfile → Type 0
  OwnProfile k p = (p.name ≡ k) × (validate_profile net p ≡ none)

  abbrev pub OwnListener : BindPolicy → String → ListenerSpec → Type 0
  OwnListener policy k l = (l.name ≡ k) × (validate_listener_spec_with_policy net l policy ≡ none)

  -- Every entry stands under its own name and passes its checks, and no name stands twice.
  pub record IsStore (s : Store) : Type 0 where
    pub profiles_named : Entries OwnProfile s.profiles
    pub listeners_named : Entries (OwnListener s.policy) s.listeners
    pub profiles_distinct : Distinct s.profiles
    pub listeners_distinct : Distinct s.listeners

  pub new_store_with_bind_policy-IsStore :
      (policy : BindPolicy) → IsStore (new_store_with_bind_policy policy)
  unfolding new_store_with_bind_policy
  new_store_with_bind_policy-IsStore policy = record {
    profiles_named = tt;
    listeners_named = tt;
    profiles_distinct = tt;
    listeners_distinct = tt;
  }

  -- UpsertProfile keeps every entry under its own name and valid, and no name twice.
  pub upsert_profile-IsStore :
      (s : Store) (p : RuntimeProfile) → IsStore s → IsStore (upsert_profile net s p).0
  unfolding upsert_profile
  upsert_profile-IsStore s p v = elim (Option-cases (validate_profile net p)) [
    | inr (e, refused) ↦ rw (refused, upsert_profile) v
    | inl valid ↦
        rw (valid, upsert_profile)
          (record {
            profiles_named =
                Entries-insert OwnProfile p.name p s.profiles (refl, valid) v.profiles_named;
            listeners_named = v.listeners_named;
            profiles_distinct = Distinct-insert p.name p s.profiles v.profiles_distinct;
            listeners_distinct = v.listeners_distinct;
          })
  ]

  -- UpsertListener keeps every entry under its own name and valid, and no name twice.
  pub upsert_listener-IsStore :
      (s : Store) (l : ListenerSpec) → IsStore s → IsStore (upsert_listener net s l).0
  unfolding upsert_listener
  upsert_listener-IsStore s l v =
      elim (Option-cases (validate_listener_spec_with_policy net l s.policy)) [
        | inr (e, refused) ↦ rw (refused, upsert_listener) v
        | inl valid ↦
            rw (valid, upsert_listener)
              (record {
                profiles_named = v.profiles_named;
                listeners_named =
                    Entries-insert (OwnListener s.policy) l.name l s.listeners (refl, valid)
                      v.listeners_named;
                profiles_distinct = v.profiles_distinct;
                listeners_distinct = Distinct-insert l.name l s.listeners v.listeners_distinct;
              })
      ]

  pub delete_profile-IsStore :
      (s : Store) (name : String) → IsStore s → IsStore (delete_profile s name).0
  unfolding delete_profile
  delete_profile-IsStore s name v =
      let removed : IsStore (record s { profiles = delete name s.profiles }) = record {
        profiles_named = Entries-delete OwnProfile name s.profiles v.profiles_named;
        listeners_named = v.listeners_named;
        profiles_distinct = Distinct-delete name s.profiles v.profiles_distinct;
        listeners_distinct = v.listeners_distinct;
      } in
      delete_profile_cases IsStore s name v removed

  pub delete_listener-IsStore :
      (s : Store) (name : String) → IsStore s → IsStore (delete_listener s name).0
  unfolding delete_listener
  delete_listener-IsStore s name v = elim (Option-cases (lookup name s.listeners)) [
    | inl missing ↦ rw (missing, delete_listener) v
    | inr (l, found) ↦
        rw (found, delete_listener)
          (record {
            profiles_named = v.profiles_named;
            listeners_named =
                Entries-delete (OwnListener s.policy) name s.listeners v.listeners_named;
            profiles_distinct = v.profiles_distinct;
            listeners_distinct = Distinct-delete name s.listeners v.listeners_distinct;
          })
  ]

-- Every listener's profile is there.
abbrev pub IsLinked : Store → Type 0
IsLinked s = Entries (λ k l. get_profile s l.profile ≢ none) s.listeners

pub Entries-map {ℓ} :
    {V : Type ℓ} (P Q : String → V → Type 0)
    → ((k : String) (v : V) → P k v → Q k v)
    → (m : List (String × V)) → Entries P m
    → Entries Q m
Entries-map P Q f [] h = tt
Entries-map P Q f ((k, v) ∷ m) (h, hs) = (f k v h, Entries-map P Q f m hs)

-- The scan of DeleteProfile finds each listener that names the profile.
Entries-unused :
    (name : String) (P Q : String → ListenerSpec → Type 0)
    → ((k : String) (l : ListenerSpec) → l.profile ≢ name → P k l → Q k l)
    → (m : List (String × ListenerSpec)) → in_use name m ≡ false
    → Entries P m
    → Entries Q m
unfolding in_use
Entries-unused name P Q f [] free h = tt
Entries-unused name P Q f ((k, l) ∷ m) free (h, hs) = (
  f k l (λ e. absurd (ground (arith, eq_iff l.profile name))) h,
  Entries-unused name P Q f m (ground arith) hs,
)

module _ (net : Net) where
  pub upsert_profile-IsLinked :
      (s : Store) (p : RuntimeProfile) → IsLinked s → IsLinked (upsert_profile net s p).0
  unfolding upsert_profile get_profile
  upsert_profile-IsLinked s p h = elim (Option-cases (validate_profile net p)) [
    | inr (e, refused) ↦ rw (refused, upsert_profile) h
    | inl valid ↦
        rw (valid, upsert_profile)
          (Entries-map _ _
            (λ k l there gone.
              absurd (ground (arith, there, lookup-insert p.name l.profile p s.profiles)))
            s.listeners h)
  ]

  pub upsert_listener-IsLinked :
      (s : Store) (l : ListenerSpec)
      → get_profile s l.profile ≢ none
      → IsLinked s
      → IsLinked (upsert_listener net s l).0
  unfolding upsert_listener get_profile
  upsert_listener-IsLinked s l there h =
      elim (Option-cases (validate_listener_spec_with_policy net l s.policy)) [
        | inr (e, refused) ↦ rw (refused, upsert_listener) h
        | inl valid ↦
            rw (valid, upsert_listener)
              (Entries-insert (λ k q. lookup q.profile s.profiles ≢ none) l.name l s.listeners there
                h)
      ]

-- Where every listener has its profile, DeleteProfile leaves it so, since it refuses a profile in use.
pub delete_profile-IsLinked :
    (s : Store) (name : String) → IsLinked s → IsLinked (delete_profile s name).0
unfolding delete_profile get_profile
delete_profile-IsLinked s name h = elim (Bool-cases (in_use name s.listeners)) [
  | inl used ↦ rw (used, delete_profile) h
  | inr free ↦ elim (Option-cases (lookup name s.profiles)) [
    | inl missing ↦ rw (free, missing, delete_profile) h
    | inr (p, found) ↦
        rw (free, found, delete_profile)
          (Entries-unused name _ _
            (λ k l other there gone. absurd (
              ground (
                arith,
                there,
                other,
                eq_iff name l.profile,
                lookup-delete name l.profile s.profiles,
              )))
            s.listeners free h)
  ]
]

pub delete_listener-IsLinked :
    (s : Store) (name : String) → IsLinked s → IsLinked (delete_listener s name).0
unfolding delete_listener get_profile
delete_listener-IsLinked s name h = elim (Option-cases (lookup name s.listeners)) [
  | inl missing ↦ rw (missing, delete_listener) h
  | inr (l, found) ↦
      rw (found, delete_listener)
        (Entries-delete (λ k q. lookup q.profile s.profiles ≢ none) name s.listeners h)
]

abbrev pub DeleteOutcome : Store → String → Store × Option StoreError → Type 0
DeleteOutcome s name (t, e) =
    ((in_use name s.listeners ≡ true) × (e ≡ some profile_in_use) × (t ≡ s))
    ⊎ ((in_use name s.listeners ≡ false)
        × (get_profile s name ≡ none)
        × (e ≡ some profile_not_found)
        × (t ≡ s))
    ⊎ ((in_use name s.listeners ≡ false)
        × (get_profile s name ≢ none)
        × (e ≡ none)
        × (t.listeners ≡ s.listeners)
        × ((other : String)
            → get_profile t other ≡ (if name == other then none else get_profile s other)))

-- Every outcome of DeleteProfile: in use and not found change nothing; otherwise the profile alone
-- is gone.
pub delete_profile_outcome :
    (s : Store) (name : String) → DeleteOutcome s name (delete_profile s name)
unfolding delete_profile get_profile
delete_profile_outcome s name = elim (Bool-cases (in_use name s.listeners)) [
  | inl used ↦ rw (used, delete_profile) (inl (refl, refl, refl))
  | inr free ↦ elim (Option-cases (lookup name s.profiles)) [
    | inl missing ↦ rw (free, missing, delete_profile) (inr (inl (refl, refl, refl, refl)))
    | inr (p, found) ↦
        rw (free, found, delete_profile)
          (inr (inr (refl, (λ e. cc), refl, refl, λ other. lookup-delete name other s.profiles)))
  ]
]
