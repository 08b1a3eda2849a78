-- ===== src/Control/State/Change.antt =====
-- What the start, the commit and the end of an upsert of cmd/zolem/local_admin.go keep true.
use zolem.Base.{
  insert-map_values, ℕ, List, [], ◌∷◌, ◌++◌, Option, none, some, lookup, insert, string_eq,
  Distinct-insert, Entries-insert, count, count-append, Result, ok, err, ◌≡◌, refl, ap, ◌∙◌, arith,
  Option-cases, inl, inr,
}
use zolem.Runtime.{Net}
use zolem.Runtime.Bind.{validate_listener_spec_with_policy}
use zolem.Runtime.Store.{values, upsert_listener}
use zolem.Startup.App.{World, Env}
use zolem.Startup.App.Ledger.{IsLedger, regroup}
use zolem.Control.{ManagedListener, ControlPlane, Files, ControlError}
use zolem.Control.Listeners.{tear_down_old, tear_down, commit_listener}
use zolem.Control.Owners.{handles, owned, old_list, count-handles, count-insert, tear_down-IsLedger}
use zolem.Control.State.{IsControl, OwnName, spec_of}

-- What a locked section leaves open beside the registry: the entry that it replaced.
abbrev pub Committed : List ℕ → ControlPlane × Result ControlError (Option ManagedListener) → Type 0
Committed others (c, err e) = IsControl c others
Committed others (c, ok old) = IsControl c (owned (old_list old) ++ others)

-- The owners beside the registry may be named in any order.
pub regroup-IsControl :
    (c : ControlPlane) (others more : List ℕ)
    → ((x : ℕ) → count x others ≡ count x more)
    → IsControl c others
    → IsControl c more
regroup-IsControl c others more same v = record {
  ledger =
      regroup c.world _ _
        (λ x.
          let held = owned (values c.listeners) in
          omega (arith, same x, count-append x held others, count-append x held more))
        v.ledger;
  distinct = v.distinct;
  named = v.named;
  synced = v.synced;
}

module _ (c : ControlPlane) (others : List ℕ) where
  pub tear_down-IsControl :
      (m : ManagedListener)
      → IsControl c (handles m ++ others)
      → IsControl (record c { world = tear_down m c.world }) others
  tear_down-IsControl m v = record {
    ledger = tear_down-IsLedger m c.world (owned (values c.listeners) ++ others) (
        regroup c.world _ (handles m ++ (owned (values c.listeners) ++ others))
          (λ x. omega (
            arith,
            count-append x (owned (values c.listeners)) (handles m ++ others),
            count-append x (handles m) others,
            count-append x (handles m) (owned (values c.listeners) ++ others),
            count-append x (owned (values c.listeners)) others,
          ))
          v.ledger);
    distinct = v.distinct;
    named = v.named;
    synced = v.synced;
  }

  pub tear_down_old-IsControl :
      (o : Option ManagedListener)
      → IsControl c (owned (old_list o) ++ others)
      → IsControl (record c { world = tear_down_old o c.world }) others
  tear_down_old-IsControl none v = v
  tear_down_old-IsControl (some m) v = tear_down-IsControl m (
      regroup-IsControl c _ _
        (λ x. omega (
          arith,
          count-append x (owned (m ∷ [])) others,
          count-handles x m [],
          count-append x (handles m) others,
        ))
        v)

  -- A begun upsert adds what it opened to the other owners.
  pub begun-IsControl :
      (w : World) (m : ManagedListener)
      → IsControl c others
      → IsLedger w (handles m ++ (owned (values c.listeners) ++ others))
      → IsControl (record c { world = w }) (handles m ++ others)
  begun-IsControl w m v l =
      let held = owned (values c.listeners) in
      record {
        ledger =
            regroup w (handles m ++ (held ++ others)) _
              (λ x. omega (
                arith,
                count-append x (handles m) (held ++ others),
                count-append x held others,
                count-append x held (handles m ++ others),
                count-append x (handles m) others,
              ))
              l;
        distinct = v.distinct;
        named = v.named;
        synced = v.synced;
      }

  pub commit_listener-Committed :
      (net : Net) (files : Files) (env : Env) (m : ManagedListener)
      → IsControl c (handles m ++ others)
      → Committed others (commit_listener net files env c m)
  unfolding commit_listener upsert_listener
  commit_listener-Committed net files env m v =
      elim (Option-cases (validate_listener_spec_with_policy net m.runtime.spec c.store.policy)) [
        | inr (e, refused) ↦
            rw (refused, commit_listener, upsert_listener) (tear_down-IsControl m v)
        | inl fine ↦
            rw (fine, commit_listener, upsert_listener)
              (record {
                ledger =
                    regroup c.world _ _
                      (λ x.
                        let name = m.runtime.spec.name in
                        omega (
                          arith,
                          count-insert x name m c.listeners,
                          count-append x (owned (values c.listeners)) (handles m ++ others),
                          count-append x (handles m) others,
                          count-append x (owned (values (insert name m c.listeners)))
                              (owned (old_list (lookup name c.listeners)) ++ others),
                          count-append x (owned (old_list (lookup name c.listeners))) others,
                        ))
                      v.ledger;
                distinct = Distinct-insert m.runtime.spec.name m c.listeners v.distinct;
                named = Entries-insert OwnName m.runtime.spec.name m c.listeners refl v.named;
                synced =
                    ap (insert m.runtime.spec.name m.runtime.spec) v.synced
                    ∙ insert-map_values spec_of m.runtime.spec.name m c.listeners;
              })
      ]
