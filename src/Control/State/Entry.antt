-- ===== src/Control/State/Entry.antt =====
-- What ClearCalls and the operations on profiles of cmd/zolem/local_admin.go keep true.
use zolem.Base.{
  insert_same, insert-map_values, lookup-map_values, ℕ, String, List, [], some, lookup, insert,
  string_eq, Distinct-insert, Entries-insert, Entries-lookup, count, count-append, Result, ok, err,
  ◌≡◌, refl, sym, ap, ◌∙◌, arith, Bool-cases, Option-cases, inl, inr,
}
use zolem.Runtime.{Net, RuntimeProfile}
use zolem.Runtime.Profile.{ProfileError}
use zolem.Runtime.Store.{Store, values, upsert_profile, delete_profile}
use zolem.Startup.App.{Env}
use zolem.Startup.App.Ledger.{regroup}
use zolem.Control.{ManagedListener, ControlPlane, Files, ProfilePayload}
use zolem.Control.Profiles.{put_profile, remove_profile, stored_profile}
use zolem.Control.Listeners.{clear_calls}
use zolem.Control.Owners.{owned, old_list, count-handles, count-insert}
use zolem.Control.Profiles.{profile_of_payload, check_profile}
use zolem.Runtime.Profile.{validate_profile}
use zolem.Runtime.Store.{in_use}
use zolem.Recorder.Log.{Recorder}
use zolem.Recorder.Log as Log
use zolem.Control.State.{IsControl, OwnName, spec_of, specs_of}

delete_profile-listeners :
    (s : Store) (name : String) → (delete_profile s name).0.listeners ≡ s.listeners
unfolding delete_profile
delete_profile-listeners s name = elim (Bool-cases (in_use name s.listeners)) [
  | inl used ↦ rw (used, delete_profile) refl
  | inr free ↦ elim (Option-cases (lookup name s.profiles)) [
    | inl missing ↦ rw (free, missing, delete_profile) refl
    | inr (p, found) ↦ rw (free, found, delete_profile) refl
  ]
]

upsert_profile-listeners :
    (net : Net) (s : Store) (p : RuntimeProfile)
    → (upsert_profile net s p).0.listeners ≡ s.listeners
unfolding upsert_profile
upsert_profile-listeners net s p = elim (Option-cases (validate_profile net p)) [
  | inl fine ↦ rw (fine, upsert_profile) refl
  | inr (e, refused) ↦ rw (refused, upsert_profile) refl
]

module _ (c : ControlPlane) (others : List ℕ) where
  -- An entry whose recorder changes owns what it did.
  recorded-IsControl :
      (name : String) (m : ManagedListener) (r : Recorder)
      → IsControl c others
      → lookup name c.listeners ≡ some m
      → IsControl
          (record c { listeners = insert name (record m { recorder = r }) c.listeners })
          others
  recorded-IsControl name m r v found =
      let n : ManagedListener = record m { recorder = r } in
      let named : m.runtime.spec.name ≡ name =
        Entries-lookup OwnName name m c.listeners v.named found in
      record {
        ledger =
            regroup c.world _ _
              (λ x. omega (
                arith,
                ap (λ o. count x (owned (old_list o))) found,
                count-handles x m [],
                count-insert x name n c.listeners,
                count-append x (owned (values c.listeners)) others,
                count-append x (owned (values (insert name n c.listeners))) others,
              ))
              v.ledger;
        distinct = Distinct-insert name n c.listeners v.distinct;
        named = Entries-insert OwnName name n c.listeners named v.named;
        synced =
            v.synced
            ∙ sym (
                insert_same name m.runtime.spec (specs_of c.listeners)
                  (lookup-map_values spec_of name m c.listeners found))
            ∙ insert-map_values spec_of name n c.listeners;
      }

  pub clear_calls-IsControl :
      (name : String) → IsControl c others → IsControl (clear_calls c name).0 others
  unfolding clear_calls
  clear_calls-IsControl name v = elim (Option-cases (lookup name c.listeners)) [
    | inl missing ↦ rw (missing, clear_calls) v
    | inr (m, found) ↦
        rw (found, clear_calls) (recorded-IsControl name m (Log.clear m.recorder).0 v found)
  ]

  -- The operations on profiles leave the listeners alone.
  profiles-IsControl :
      (s : Store)
      → s.listeners ≡ c.store.listeners
      → IsControl c others
      → IsControl (record c { store = s }) others
  profiles-IsControl s same v = record {
    ledger = v.ledger;
    distinct = v.distinct;
    named = v.named;
    synced = same ∙ v.synced;
  }

  pub remove_profile-IsControl :
      (name : String) → IsControl c others → IsControl (remove_profile c name).0 others
  unfolding remove_profile
  remove_profile-IsControl name v =
      profiles-IsControl (delete_profile c.store name).0 (delete_profile-listeners c.store name) v

  stored_profile-IsControl :
      (r : Store × Result ProfileError RuntimeProfile)
      → r.0.listeners ≡ c.store.listeners
      → IsControl c others
      → IsControl (stored_profile c r).0 others
  stored_profile-IsControl (s, ok p) same v = profiles-IsControl s same v
  stored_profile-IsControl (s, err e) same v = profiles-IsControl s same v

  pub put_profile-IsControl :
      (net : Net) (files : Files) (env : Env) (name : String) (payload : ProfilePayload)
      → IsControl c others
      → IsControl (put_profile net files env c name payload).0 others
  unfolding put_profile
  put_profile-IsControl net files env name payload v =
      let p = profile_of_payload name payload in
      elim (Option-cases (check_profile net files env c p)) [
        | inr (e, refused) ↦ rw (refused, put_profile) v
        | inl fine ↦
            rw (fine, put_profile)
              (stored_profile-IsControl (upsert_profile net c.store p)
                (upsert_profile-listeners net c.store p) v)
      ]
