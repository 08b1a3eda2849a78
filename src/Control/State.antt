-- ===== src/Control/State.antt =====
-- What a control plane keeps true of its registry, its store and what is open.
pub mod Begin
pub mod Change
pub mod Removal
pub mod Entry
pub mod Linked
pub mod Listing
use zolem.Base.{
  map_values, not, ◌&&◌, ℕ, ◌+◌, Bool, String, ◌==◌, eq_iff, List, [], ◌∷◌, ◌++◌, map, Option, none,
  some, if◌then◌else◌, lookup, insert, delete, string_eq, Absent, Distinct, Distinct-insert,
  Distinct-delete, Entries, Entries-insert, Entries-delete, Entries-lookup, some_inj, count,
  count-append, Result, ok, err, ◌≡◌, refl, sym, ap, ◌∙◌, subst, arith, Bool-cases, Option-cases,
  inl, inr, true, false,
}
use zolem.Runtime.{Net, ListenerRuntime, ListenerSpec, RuntimeProfile}
use zolem.Runtime.Profile.{ProfileError}
use zolem.Runtime.Bind.{ListenerError, validate_listener_spec_with_policy}
use zolem.Runtime.Store.{
  Store, StoreError, values, upsert_listener, delete_listener, upsert_profile, delete_profile,
}
use zolem.Startup.{StartupError, bind_failed, tls_enabled}
use zolem.Startup.App.{World, Env, StartupApp, set_listener_addr, open_handle, build_app}
use zolem.Startup.App.Ledger.{
  IsLedger, Built, Built-build_app, app_handles, close_app-IsLedger, open_handle-IsLedger, regroup,
}
use zolem.Recorder.{RecordCaps}
use zolem.Control.{
  ManagedListener, ControlPlane, Files, ControlError, ListenerPayload, ProfilePayload,
  LocalAdminOptions, new_local_control_plane,
}
use zolem.Control.Profiles.{put_profile, remove_profile, stored_profile}
use zolem.Control.Listeners.{
  start_local_server, tear_down, served, built, with_caps, begin_listener, swapped, commit_listener,
  clear_calls, remove_listener, close_entries, close_all, spec_of_payload, caps_of_payload,
}
use zolem.Control.Owners.{
  handles, owned, old_list, count-handles, count-insert, count-delete, tear_down-IsLedger,
}

-- The spec that the store has for each entry.
abbrev pub spec_of : ManagedListener → ListenerSpec
spec_of m = m.runtime.spec

abbrev pub specs_of : List (String × ManagedListener) → List (String × ListenerSpec)
specs_of = map_values spec_of

abbrev pub OwnName : String → ManagedListener → Type 0
OwnName k m = m.runtime.spec.name ≡ k

-- Of a control plane, where `others` are the handles that are open beside those of its registry.
pub record IsControl (c : ControlPlane) (others : List ℕ) : Type 0 where
  pub ledger : IsLedger c.world (owned (values c.listeners) ++ others)
  pub distinct : Distinct c.listeners
  pub named : Entries OwnName c.listeners
  pub synced : c.store.listeners ≡ specs_of c.listeners

module _ (net : Net) (files : Files) where
  pub new_local_control_plane-IsControl :
      (opts : LocalAdminOptions) → IsControl (new_local_control_plane net opts) []
  unfolding new_local_control_plane
  new_local_control_plane-IsControl opts = record {
    ledger = λ x. omega arith;
    distinct = tt;
    named = tt;
    synced = refl;
  }
