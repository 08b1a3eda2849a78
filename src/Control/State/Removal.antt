-- ===== src/Control/State/Removal.antt =====
-- What DeleteListener and Close of cmd/zolem/local_admin.go keep true.
use zolem.Base.{
  delete-map_values, lookup-map_values, delete_missing, lookup-Absent, ℕ, String, eq_iff, List, [],
  ◌∷◌, ◌++◌, some, lookup, delete, string_eq, Absent, Distinct, Distinct-delete, Entries-delete,
  count, count-append, ◌≡◌, refl, ap, ◌∙◌, subst, arith, Option-cases, inl, inr,
}
use zolem.Runtime.Store.{values, delete_listener}
use zolem.Startup.App.Ledger.{regroup}
use zolem.Control.{ManagedListener, ControlPlane}
use zolem.Control.Listeners.{tear_down, remove_listener, close_entries, close_all}
use zolem.Control.Owners.{handles, owned, old_list, count-handles, count-delete, tear_down-IsLedger}
use zolem.Control.State.{IsControl, OwnName, spec_of, specs_of}

-- DeleteListener on an entry, and a round of Close.
abbrev pub removed : ControlPlane → String → ManagedListener → ControlPlane
removed c name m = record c {
  store = (delete_listener c.store name).0;
  listeners = delete name c.listeners;
  world = tear_down m c.world;
}

module _ (c : ControlPlane) (others : List ℕ) where
  delete_listener-synced :
      (name : String) (m : ManagedListener)
      → IsControl c others
      → lookup name c.listeners ≡ some m
      → (delete_listener c.store name).0.listeners ≡ specs_of (delete name c.listeners)
  unfolding delete_listener
  delete_listener-synced name m v found =
      let e : lookup name c.store.listeners ≡ some m.runtime.spec =
        ap (lookup name) v.synced ∙ lookup-map_values spec_of name m c.listeners found in
      rw (e, delete_listener)
        (ap (delete name) v.synced ∙ delete-map_values spec_of name c.listeners)

  pub removed-IsControl :
      (name : String) (m : ManagedListener)
      → IsControl c others
      → lookup name c.listeners ≡ some m
      → IsControl (removed c name m) others
  removed-IsControl name m v found = record {
    ledger = tear_down-IsLedger m c.world (owned (values (delete name c.listeners)) ++ others) (
        regroup c.world _ (handles m ++ (owned (values (delete name c.listeners)) ++ others))
          (λ x. omega (
            arith,
            ap (λ o. count x (owned (old_list o))) found,
            count-handles x m [],
            count-delete x name c.listeners v.distinct,
            count-append x (owned (values c.listeners)) others,
            count-append x (handles m) (owned (values (delete name c.listeners)) ++ others),
            count-append x (owned (values (delete name c.listeners))) others,
          ))
          v.ledger);
    distinct = Distinct-delete name c.listeners v.distinct;
    named = Entries-delete OwnName name c.listeners v.named;
    synced = delete_listener-synced name m v found;
  }

  pub remove_listener-IsControl :
      (name : String) → IsControl c others → IsControl (remove_listener c name).0 others
  unfolding remove_listener
  remove_listener-IsControl name v = elim (Option-cases (lookup name c.listeners)) [
    | inl missing ↦ rw (missing, remove_listener) v
    | inr (m, found) ↦ rw (found, remove_listener) (removed-IsControl name m v found)
  ]

-- A round of Close takes the first entry.
delete-first :
    (name : String) (m : ManagedListener) (rest : List (String × ManagedListener))
    → Absent name rest
    → delete name ((name, m) ∷ rest) ≡ rest
unfolding delete
delete-first name m rest h =
    rw ((eq_iff name name).1 refl) (delete_missing name rest (lookup-Absent name rest h))

lookup-first :
    (name : String) (m : ManagedListener) (rest : List (String × ManagedListener))
    → lookup name ((name, m) ∷ rest) ≡ some m
unfolding lookup
lookup-first name m rest = rw ((eq_iff name name).1 refl) refl

-- Close leaves no entry, and nothing open but what others own.
close_entries-IsControl :
    (es : List (String × ManagedListener)) (c : ControlPlane) (others : List ℕ)
    → c.listeners ≡ es
    → IsControl c others
    → IsControl (close_entries es c) others × ((close_entries es c).listeners ≡ [])
unfolding close_entries
close_entries-IsControl [] c others e v = (v, e)
close_entries-IsControl ((name, m) ∷ rest) c others e v =
    let d : Distinct ((name, m) ∷ rest) = subst Distinct e v.distinct in
    close_entries-IsControl rest (removed c name m) others
      (ap (delete name) e ∙ delete-first name m rest d.0)
      (removed-IsControl c others name m v (ap (lookup name) e ∙ lookup-first name m rest))

pub close_all-IsControl :
    (c : ControlPlane) (others : List ℕ)
    → IsControl c others
    → IsControl (close_all c) others × ((close_all c).listeners ≡ [])
unfolding close_all
close_all-IsControl c others v = close_entries-IsControl c.listeners c others refl v
