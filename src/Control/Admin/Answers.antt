-- ===== src/Control/Admin/Answers.antt =====
-- What a request to the admin API leaves behind, next to the status of its answer.
use zolem.Base.{
  ℕ, ◌≤◌, Bool, true, String, ◌==◌, List, [], ◌∷◌, ◌++◌, Option, none, some, any, eqb, lookup,
  string_eq, ◌≡◌, inl, inr, refl, ap, ◌∙◌, arith, Bool-cases, Option-cases, Result, ok, err,
  lookup-map_values,
}
use zolem.Runtime.{Net}
use zolem.Runtime.Bind.{validate_listener_spec_with_policy}
use zolem.Runtime.Store.{
  Store, StoreError, listener_not_found, upsert_listener, delete_profile, delete_listener, values,
}
use zolem.Recorder.Log as Log
use zolem.Runtime.Store.Laws.{DeleteOutcome, delete_profile_outcome}
use zolem.Startup.App.{World, Env}
use zolem.Control.{
  ControlPlane, ControlError, in_store, Files, ListenerPayload, ListenerView, ManagedListener,
  view_of,
}
use zolem.Control.Profiles.{remove_profile, store_result}
use zolem.Control.Listeners.{
  begin_listener, commit_listener, begun, committed, put_listener, get_listener, remove_listener,
  list_calls, clear_calls,
}
use zolem.Control.Owners.{handles, owned}
use zolem.Control.State.{IsControl, spec_of}
use zolem.Control.State.Begin.{Begun, Begun-begin_listener}
use zolem.Control.State.Change.{
  tear_down_old-IsControl, begun-IsControl, commit_listener-Committed, tear_down-IsControl,
}
use zolem.Control.State.Entry.{remove_profile-IsControl, clear_calls-IsControl}
use zolem.Control.State.Removal.{remove_listener-IsControl}
use zolem.Control.Admin.{
  failed, cleared, calls, view, method_not_allowed, not_found, no_body, Body, Answer, answer_of,
  handle_listener_calls, get_listener_answer, list_calls_answer, clear_calls_answer,
  remove_listener_answer, remove_profile_answer,
}

unfoldable pub is_known_status : ℕ → Bool
is_known_status n = any (eqb n) (200 ∷ 204 ∷ 400 ∷ 403 ∷ 404 ∷ 405 ∷ 409 ∷ [])

-- The store and the registry are as they were.
abbrev pub Kept : ControlPlane → ControlPlane → Type 0
Kept c d = (d.store ≡ c.store) × (d.listeners ≡ c.listeners)

-- What is open has its owners, the status is one of the API's, and an error changes nothing.
abbrev pub Settled : ControlPlane → List ℕ → ControlPlane × Answer → Type 0
Settled c others (d, a) =
    IsControl d others × (is_known_status a.status ≡ true) × (400 ≤ a.status → Kept c d)

module _ (c : ControlPlane) (others : List ℕ) (v : IsControl c others) where
  kept :
      (status : ℕ) (body : Body)
      → is_known_status status ≡ true
      → Settled c others (c, answer_of status body)
  kept status body known = (v, known, λ e. (refl, refl))

  missing_kept : Settled c others (c, answer_of 404 (failed (in_store listener_not_found)))
  unfolding is_known_status
  missing_kept = kept 404 (failed (in_store listener_not_found)) refl

  pub fine :
      (d : ControlPlane) (body : Body)
      → IsControl d others
      → Settled c others (d, answer_of 200 body)
  unfolding is_known_status
  fine d body w = (w, refl, λ e. absurd (omega (arith, e)))

  pub refused : (method : String) → Settled c others (c, answer_of 405 (method_not_allowed method))
  unfolding is_known_status
  refused method = kept 405 (method_not_allowed method) refl

  pub unknown : Settled c others (c, answer_of 404 not_found)
  unfolding is_known_status
  unknown = kept 404 not_found refl

  pub Settled-get_listener :
      (name : String) → Settled c others (c, get_listener_answer (get_listener c name))
  unfolding get_listener
  Settled-get_listener name = elim (Option-cases (lookup name c.listeners)) [
    | inl missing ↦ rw (missing, get_listener) missing_kept
    | inr (m, found) ↦ rw (found, get_listener) (fine c (view (view_of m)) v)
  ]

  Settled-list_calls : (name : String) → Settled c others (c, list_calls_answer (list_calls c name))
  unfolding list_calls
  Settled-list_calls name = elim (Option-cases (lookup name c.listeners)) [
    | inl missing ↦ rw (missing, list_calls) missing_kept
    | inr (m, found) ↦ rw (found, list_calls) (fine c (calls (Log.list m.recorder)) v)
  ]

  Settled-clear_calls : (name : String) → Settled c others (clear_calls_answer (clear_calls c name))
  unfolding clear_calls
  Settled-clear_calls name = elim (Option-cases (lookup name c.listeners)) [
    | inl missing ↦ rw (missing, clear_calls) missing_kept
    | inr (m, found) ↦
        rw (found, clear_calls)
          (fine _ (cleared (Log.clear m.recorder).1)
            (rw (found, clear_calls) at (clear_calls-IsControl c others name v)))
  ]

  pub Settled-handle_listener_calls :
      (method name : String) → Settled c others (handle_listener_calls c method name)
  unfolding handle_listener_calls
  Settled-handle_listener_calls method name = elim (Bool-cases (method == "GET")) [
    | inl get ↦ rw (get, handle_listener_calls) (Settled-list_calls name)
    | inr other ↦ elim (Bool-cases (method == "DELETE")) [
      | inl del ↦ rw (other, del, handle_listener_calls) (Settled-clear_calls name)
      | inr neither ↦ rw (other, neither, handle_listener_calls) (refused "GET, DELETE")
    ]
  ]

  -- The store has the spec of the entry.
  delete_listener-none :
      (name : String) (m : ManagedListener)
      → lookup name c.listeners ≡ some m
      → (delete_listener c.store name).1 ≡ none
  unfolding delete_listener
  delete_listener-none name m found =
      let e : lookup name c.store.listeners ≡ some m.runtime.spec =
        ap (lookup name) v.synced ∙ lookup-map_values spec_of name m c.listeners found in
      rw (e, delete_listener) refl

  gone : (d : ControlPlane) → IsControl d others → Settled c others (d, answer_of 204 no_body)
  unfolding is_known_status
  gone d w = (w, refl, λ e. absurd (omega (arith, e)))

  pub Settled-remove_listener :
      (name : String) → Settled c others (remove_listener_answer (remove_listener c name))
  unfolding remove_listener
  Settled-remove_listener name = elim (Option-cases (lookup name c.listeners)) [
    | inl missing ↦ rw (missing, remove_listener) missing_kept
    | inr (m, found) ↦
        rw (found, remove_listener, delete_listener-none name m found)
          (gone _ (rw (found, remove_listener) at (remove_listener-IsControl c others name v)))
  ]

  pub Settled-remove_profile :
      (name : String) → Settled c others (remove_profile_answer (remove_profile c name))
  unfolding remove_profile is_known_status
  Settled-remove_profile name =
      of (delete_profile c.store name).0 (delete_profile c.store name).1
        (delete_profile_outcome c.store name) (remove_profile-IsControl c others name v)
    where
      of :
          (s : Store) (e : Option StoreError)
          → DeleteOutcome c.store name (s, e)
          → IsControl (record c { store = s }) others
          → Settled c others (remove_profile_answer (record c { store = s }, store_result e))
      of s e (inl (used, e', same)) w = rw e' (w, refl, λ h. (same, refl))
      of s e (inr (inl (free, none_left, e', same))) w = rw e' (w, refl, λ h. (same, refl))
      of s e (inr (inr (free, there, e', same, rest))) w = rw e' (gone (record c { store = s }) w)

-- What an upsert of a listener answers: an error has changed neither the store nor the registry.
abbrev pub Upserted :
    ControlPlane → List ℕ → ControlPlane × Result ControlError ListenerView → Type 0
Upserted c others (d, err e) = IsControl d others × Kept c d
Upserted c others (d, ok w) = IsControl d others

module _ (net : Net) (files : Files) (env : Env) (c : ControlPlane) (others : List ℕ) where
  Upserted-committed :
      (w : World) (m : ManagedListener)
      → IsControl (record c { world = w }) (handles m ++ others)
      → Upserted c others
          (committed net files env m (commit_listener net files env (record c { world = w }) m))
  unfolding commit_listener upsert_listener
  Upserted-committed w m v =
      let d : ControlPlane = record c { world = w } in
      elim (Option-cases (validate_listener_spec_with_policy net m.runtime.spec c.store.policy)) [
        | inr (e, bad) ↦
            rw (bad, commit_listener, upsert_listener)
              (tear_down-IsControl d others m v, (refl, refl))
        | inl good ↦
            rw (good, commit_listener, upsert_listener)
              (tear_down_old-IsControl _ others (lookup m.runtime.spec.name c.listeners) (
                rw (good, commit_listener, upsert_listener) at
                  (commit_listener-Committed d others net files env m v)))
      ]

  Upserted-begun :
      (r : World × Result ControlError ManagedListener)
      → IsControl c others
      → Begun (owned (values c.listeners) ++ others) r
      → Upserted c others (begun net files env c r)
  Upserted-begun (w, err e) v l = (
    record { ledger = l; distinct = v.distinct; named = v.named; synced = v.synced },
    (refl, refl),
  )
  Upserted-begun (w, ok m) v l = Upserted-committed w m (begun-IsControl c others w m v l)

  pub Upserted-put_listener :
      (name : String) (payload : ListenerPayload)
      → IsControl c others
      → Upserted c others (put_listener net files env c name payload)
  unfolding put_listener
  Upserted-put_listener name payload v =
      Upserted-begun (begin_listener net files env c name payload) v
        (Begun-begin_listener net files env _ c name payload v.ledger)
