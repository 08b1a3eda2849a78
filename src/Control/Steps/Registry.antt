-- ===== src/Control/Steps/Registry.antt =====
-- What a client of the control plane sees: a map from names to listeners, that only some requests
-- change.
use zolem.Base.{
  String, List, [], ◌++◌, Option, none, some, lookup, insert, delete, string_eq, map_values,
  insert-map_values, delete-map_values, lookup-map_values, lookup-map_values-none, insert_same,
  delete_missing, Result, ok, err, ◌≡◌, refl, sym, ap, ◌∙◌, Option-cases, inl, inr,
}
use zolem.Runtime.{Net, RuntimeProfile}
use zolem.Runtime.Profile.{ProfileError}
use zolem.Runtime.Bind.{validate_listener_spec_with_policy}
use zolem.Runtime.Store.{
  Store, listener_not_found, upsert_listener, upsert_profile, sort_by_name, values,
}
use zolem.Startup.App.{World, Env}
use zolem.Control.{
  ControlPlane, ControlError, in_store, ManagedListener, ListenerView, Files, LocalAdminOptions,
  ProfilePayload, new_local_control_plane, view_of,
}
use zolem.Control.Listeners.{
  begin_listener, commit_listener, remove_listener, clear_calls, get_listener, all_listeners,
}
use zolem.Control.Profiles.{
  put_profile, remove_profile, stored_profile, check_profile, profile_of_payload,
}
use zolem.Control.State.{new_local_control_plane-IsControl}
use zolem.Control.State.Listing.{all_listeners-registry}
use zolem.Control.State.Removal.{close_all-IsControl}
use zolem.Control.Steps.{
  System, after_begin, after_commit, Step, begin, commit, drain, put, unprofile, remove, clear,
  close, Steps, done, later, Reach, init,
}
use zolem.Control.Steps.Invariant.{IsSystem, Steps-IsSystem, Reach-IsSystem}

abbrev pub Registry : Type 0
Registry = List (String × ListenerView)

-- The map that a request's steps make of one.
abbrev pub effect :
    {net : Net} {files : Files} {s t : System} → Step net files s t → Registry → Registry
effect {net} {files} {s} (commit env before m after e) r =
    elim (validate_listener_spec_with_policy net m.runtime.spec s.control.store.policy) [
      | none ↦ insert m.runtime.spec.name (view_of m) r
      | some refused ↦ r
    ]
effect (remove name) r = delete name r
effect close r = []
effect (begin env name payload) r = r
effect (drain before m after e) r = r
effect (put env name payload) r = r
effect (unprofile name) r = r
effect (clear name) r = r

abbrev pub effects :
    {net : Net} {files : Files} {s t : System} → Steps net files s t → Registry → Registry
effects done r = r
effects (later run step) r = effect step (effects run r)

abbrev pub view_registry : ControlPlane → Registry
view_registry c = map_values view_of c.listeners

module _ (s : System) where
  after_begin-registry :
      (r : World × Result ControlError ManagedListener)
      → view_registry (after_begin s r).control ≡ view_registry s.control
  after_begin-registry (w, err e) = refl
  after_begin-registry (w, ok m) = refl

  after_commit-registry :
      (others : List ManagedListener)
      (r : ControlPlane × Result ControlError (Option ManagedListener))
      → view_registry (after_commit s others r).control ≡ view_registry r.0
  after_commit-registry others (c, err e) = refl
  after_commit-registry others (c, ok old) = refl

module _ (c : ControlPlane) where
  remove_listener-registry :
      (name : String) → view_registry (remove_listener c name).0 ≡ delete name (view_registry c)
  unfolding remove_listener
  remove_listener-registry name = elim (Option-cases (lookup name c.listeners)) [
    | inl missing ↦
        rw (missing, remove_listener)
          (sym (
            delete_missing name (view_registry c)
              (lookup-map_values-none view_of name c.listeners missing)))
    | inr (m, found) ↦
        rw (found, remove_listener) (sym (delete-map_values view_of name c.listeners))
  ]

  clear_calls-registry : (name : String) → view_registry (clear_calls c name).0 ≡ view_registry c
  unfolding clear_calls
  clear_calls-registry name = elim (Option-cases (lookup name c.listeners)) [
    | inl missing ↦ rw (missing, clear_calls) refl
    | inr (m, found) ↦
        rw (found, clear_calls)
          (sym (insert-map_values view_of name _ c.listeners)
            ∙ insert_same name (view_of m) (view_registry c)
                (lookup-map_values view_of name m c.listeners found))
  ]

  put_profile-registry :
      (net : Net) (files : Files) (env : Env) (name : String) (payload : ProfilePayload)
      → view_registry (put_profile net files env c name payload).0 ≡ view_registry c
  unfolding put_profile
  put_profile-registry net files env name payload =
      elim (Option-cases (check_profile net files env c (profile_of_payload name payload))) [
        | inr (e, refused) ↦ rw (refused, put_profile) refl
        | inl fine ↦
            rw (fine, put_profile)
              (of (upsert_profile net c.store (profile_of_payload name payload)))
      ]
    where
      of :
          (r : Store × Result ProfileError RuntimeProfile)
          → view_registry (stored_profile c r).0 ≡ view_registry c
      of (s, ok p) = refl
      of (s, err e) = refl

module _ (net : Net) (files : Files) where
  commit_listener-registry :
      (env : Env) (c : ControlPlane) (m : ManagedListener)
      → view_registry (commit_listener net files env c m).0
        ≡ (elim (validate_listener_spec_with_policy net m.runtime.spec c.store.policy)
            as (λ x. Registry) [
              | none ↦ insert m.runtime.spec.name (view_of m) (view_registry c)
              | some refused ↦ view_registry c
            ])
  unfolding commit_listener upsert_listener
  commit_listener-registry env c m =
      elim (Option-cases (validate_listener_spec_with_policy net m.runtime.spec c.store.policy)) [
        | inr (e, refused) ↦ rw (refused, commit_listener, upsert_listener) refl
        | inl fine ↦
            rw (fine, commit_listener, upsert_listener)
              (sym (insert-map_values view_of m.runtime.spec.name m c.listeners))
      ]

  Step-registry :
      {s t : System} (step : Step net files s t)
      → IsSystem s
      → view_registry t.control ≡ effect step (view_registry s.control)
  unfolding remove_profile
  Step-registry {s} (begin env name payload) v =
      after_begin-registry s (begin_listener net files env s.control name payload)
  Step-registry {s} (commit env before m after e) v =
      after_commit-registry s (before ++ after) (commit_listener net files env s.control m)
      ∙ commit_listener-registry env s.control m
  Step-registry (drain before m after e) v = refl
  Step-registry {s} (put env name payload) v =
      put_profile-registry s.control net files env name payload
  Step-registry (unprofile name) v = refl
  Step-registry {s} (remove name) v = remove_listener-registry s.control name
  Step-registry {s} (clear name) v = clear_calls-registry s.control name
  Step-registry {s} close v = ap (map_values view_of) (close_all-IsControl s.control _ v).1

  Steps-registry :
      {s t : System} (run : Steps net files s t)
      → IsSystem s
      → view_registry t.control ≡ effects run (view_registry s.control)
  Steps-registry done v = refl
  Steps-registry (later run step) v =
      Step-registry step (Steps-IsSystem net files run v) ∙ ap (effect step) (Steps-registry run v)

-- The answer that GetListener takes from a map.
abbrev pub answer : Option ListenerView → Result ControlError ListenerView
answer none = err (in_store listener_not_found)
answer (some v) = ok v

get_listener-registry :
    (c : ControlPlane) (name : String)
    → get_listener c name ≡ answer (lookup name (view_registry c))
unfolding get_listener
get_listener-registry c name = elim (Option-cases (lookup name c.listeners)) [
  | inl missing ↦
      rw (missing, get_listener, lookup-map_values-none view_of name c.listeners missing) refl
  | inr (m, found) ↦
      rw (found, get_listener, lookup-map_values view_of name m c.listeners found) refl
]

-- After any requests, interleaved in any order, GetListener and ListListeners answer as a map does
-- that was empty at first and has taken only these effects, in the order of the locked sections:
-- an upsert that the store accepts puts the view of its listener under its name, a deletion
-- deletes the name, and closing leaves nothing; the listing is the map's values in the order of
-- their names.
pub Reach-registry :
    (net : Net) (files : Files) (opts : LocalAdminOptions) (s : System)
    (run : Reach net files opts s)
    → (all_listeners s.control ≡ sort_by_name (λ v. v.name) (values (effects run [])))
      × ((name : String) → get_listener s.control name ≡ answer (lookup name (effects run [])))
unfolding new_local_control_plane
Reach-registry net files opts s run =
    let v : IsSystem s = Reach-IsSystem net files opts s run in
    let start : IsSystem (init net opts) = new_local_control_plane-IsControl net files opts in
    let same : view_registry s.control ≡ effects run [] = Steps-registry net files run start in
    (
      all_listeners-registry s.control _ v ∙ ap (λ r. sort_by_name (λ w. w.name) (values r)) same,
      λ name. get_listener-registry s.control name ∙ ap (λ r. answer (lookup name r)) same,
    )
