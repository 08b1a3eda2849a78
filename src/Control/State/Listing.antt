-- ===== src/Control/State/Listing.antt =====
-- ListListeners of cmd/zolem/local_admin.go, which walks the store's specs and skips one with no
-- entry, against the entries themselves.
use zolem.Base.{
  ℕ, List, [], ◌∷◌, map, All, String, some, lookup, string_eq, map_values, Absent, Distinct,
  Entries, ◌≡◌, refl, sym, ap, ◌∙◌, eq_iff, Bool-cases, inl, inr, ◌≢◌, ◌==◌,
}
use zolem.Runtime.Store.{sort_by_name, values, list_listeners}
use zolem.Runtime.Store.Sorting.{sort_by_name-map, All-sort_by_name}
use zolem.Control.{ControlPlane, ManagedListener, view_of}
use zolem.Control.Listeners.{views, all_listeners}
use zolem.Control.State.{IsControl, OwnName, spec_of}

values-map_values {ℓ κ} :
    {A : Type ℓ} {B : Type κ} (f : A → B) (m : List (String × A))
    → values (map_values f m) ≡ map f (values m)
values-map_values f [] = refl
values-map_values f ((k, a) ∷ m) = ap (λ r. f a ∷ r) (values-map_values f m)

-- The entry of its own name.
abbrev IsEntry : List (String × ManagedListener) → ManagedListener → Type 0
IsEntry entries m = lookup m.runtime.spec.name entries ≡ some m

lookup-later :
    (k : String) (n : ManagedListener) (es : List (String × ManagedListener)) (m : ManagedListener)
    → m.runtime.spec.name ≢ k
    → IsEntry es m
    → IsEntry ((k, n) ∷ es) m
unfolding lookup
lookup-later k n es m other found = elim (Bool-cases (k == m.runtime.spec.name)) [
  | inl same ↦ absurd (other (sym ((eq_iff k m.runtime.spec.name).0 same)))
  | inr differ ↦ rw differ found
]

-- The entries below another's name.
All-later :
    (k : String) (n : ManagedListener) (es fs : List (String × ManagedListener))
    → Absent k fs
    → Entries OwnName fs
    → All (IsEntry es) (values fs)
    → All (IsEntry ((k, n) ∷ es)) (values fs)
All-later k n es [] a h all = tt
All-later k n es ((j, m) ∷ fs) a h all =
    (lookup-later k n es m (λ e. a.0 (sym e ∙ h.0)) all.0, All-later k n es fs a.1 h.1 all.1)

All-IsEntry :
    (es : List (String × ManagedListener))
    → Distinct es
    → Entries OwnName es
    → All (IsEntry es) (values es)
unfolding lookup
All-IsEntry [] d h = tt
All-IsEntry ((k, m) ∷ es) d h = (
  rw ((eq_iff k m.runtime.spec.name).1 (sym h.0)) refl,
  All-later k m es es d.0 h.1 (All-IsEntry es d.1 h.1),
)

views-entries :
    (entries : List (String × ManagedListener)) (ms : List ManagedListener)
    → All (IsEntry entries) ms
    → views entries (map spec_of ms) ≡ map view_of ms
unfolding views
views-entries entries [] h = refl
views-entries entries (m ∷ ms) h =
    rw (h.0, views) (ap (λ r. view_of m ∷ r) (views-entries entries ms h.1))

-- No entry is skipped.
pub all_listeners-registry :
    (c : ControlPlane) (others : List ℕ)
    → IsControl c others
    → all_listeners c ≡ sort_by_name (λ v. v.name) (values (map_values view_of c.listeners))
unfolding all_listeners list_listeners
all_listeners-registry c others v =
    let ms = values c.listeners in
    let by_name : ManagedListener → String = λ m. m.runtime.spec.name in
    ap (λ specs. views c.listeners (sort_by_name (λ l. l.name) (values specs))) v.synced
    ∙ ap (λ specs. views c.listeners (sort_by_name (λ l. l.name) specs))
        (values-map_values spec_of c.listeners)
    ∙ ap (views c.listeners) (sort_by_name-map spec_of by_name (λ l. l.name) (λ m. refl) ms)
    ∙ views-entries c.listeners (sort_by_name by_name ms) (
        All-sort_by_name (IsEntry c.listeners) by_name ms
          (All-IsEntry c.listeners v.distinct v.named))
    ∙ sym (sort_by_name-map view_of by_name (λ w. w.name) (λ m. refl) ms)
    ∙ ap (sort_by_name (λ w. w.name)) (sym (values-map_values view_of c.listeners))
