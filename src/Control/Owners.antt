-- ===== src/Control/Owners.antt =====
-- The handles that the listeners of a control plane own, under changes of the registry.
use zolem.Base.{
  delete_missing, lookup-Absent, ℕ, ◌+◌, String, List, [], ◌∷◌, ◌++◌, Option, none, some, lookup,
  insert, delete, string_eq, Absent, Distinct, subst, ◌==◌, eq_iff, count, count-append, ◌≡◌, arith,
  Bool-cases, inl, inr,
}
use zolem.Runtime.Store.{values}
use zolem.Startup.App.{World}
use zolem.Startup.App.Ledger.{
  IsLedger, app_handles, close_handle-IsLedger, close_app-IsLedger, regroup,
}
use zolem.Control.{ManagedListener}
use zolem.Control.Listeners.{tear_down, tear_down_old}

abbrev pub handles : ManagedListener → List ℕ
handles m = m.server ∷ app_handles m.app

abbrev pub owned : List ManagedListener → List ℕ
owned [] = []
owned (m ∷ ms) = handles m ++ owned ms

abbrev pub old_list : Option ManagedListener → List ManagedListener
old_list none = []
old_list (some m) = m ∷ []

module _ (x : ℕ) where
  pub count-handles :
      (m : ManagedListener) (hs : List ℕ)
      → count x (handles m ++ hs) ≡ count x (handles m) + count x hs
  count-handles m hs = count-append x (handles m) hs

  pub count-owned :
      (ms ns : List ManagedListener)
      → count x (owned (ms ++ ns)) ≡ count x (owned ms) + count x (owned ns)
  count-owned [] ns = omega arith
  count-owned (m ∷ ms) ns =
      omega
        (arith, count-owned ms ns, count-handles m (owned ms), count-handles m (owned (ms ++ ns)))

  pub count-insert :
      (k : String) (m : ManagedListener) (es : List (String × ManagedListener))
      → count x (owned (values (insert k m es))) + count x (owned (old_list (lookup k es)))
        ≡ count x (owned (values es)) + count x (handles m)
  unfolding insert lookup
  count-insert k m [] = omega (arith, count-handles m [])
  count-insert k m ((j, n) ∷ es) = elim (Bool-cases (j == k)) [
    | inl same ↦ rw same (
        omega (
          arith,
          count-handles m (owned (values es)),
          count-handles n (owned (values es)),
          count-handles n [],
        ))
    | inr other ↦ rw other (
        omega (
          arith,
          count-insert k m es,
          count-handles n (owned (values es)),
          count-handles n (owned (values (insert k m es))),
        ))
  ]

pub count-delete :
    (x : ℕ) (k : String) (es : List (String × ManagedListener))
    → Distinct es
    → count x (owned (values (delete k es))) + count x (owned (old_list (lookup k es)))
      ≡ count x (owned (values es))
unfolding delete lookup
count-delete x k [] d = omega arith
count-delete x k ((j, n) ∷ es) d = elim (Bool-cases (j == k)) [
  | inl same ↦
      let gone : delete k es ≡ es =
        delete_missing k es
          (lookup-Absent k es (subst (λ i. Absent i es) ((eq_iff j k).0 same) d.0)) in
      rw (same, gone) (omega (arith, count-handles x n (owned (values es)), count-handles x n []))
  | inr other ↦ rw other (
      omega (
        arith,
        count-delete x k es d.1,
        count-handles x n (owned (values es)),
        count-handles x n (owned (values (delete k es))),
      ))
]

pub tear_down-IsLedger :
    (m : ManagedListener) (w : World) (others : List ℕ)
    → IsLedger w (handles m ++ others)
    → IsLedger (tear_down m w) others
unfolding tear_down
tear_down-IsLedger m w others l =
    close_app-IsLedger m.app _ others
      (close_handle-IsLedger w (app_handles m.app ++ others) m.server l)

pub tear_down_old-IsLedger :
    (o : Option ManagedListener) (w : World) (others : List ℕ)
    → IsLedger w (owned (old_list o) ++ others)
    → IsLedger (tear_down_old o w) others
tear_down_old-IsLedger none w others l = l
tear_down_old-IsLedger (some m) w others l = tear_down-IsLedger m w others (
    regroup w (owned (m ∷ []) ++ others) (handles m ++ others)
      (λ x. omega (
        arith,
        count-append x (owned (m ∷ [])) others,
        count-handles x m [],
        count-handles x m others,
      ))
      l)
