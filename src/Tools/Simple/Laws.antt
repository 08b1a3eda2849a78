-- ===== src/Tools/Simple/Laws.antt =====
-- That the fuel of the walk is enough.
use zolem.Base.{
  ℕ, zero, suc, ◌+◌, ◌<◌, Bool, true, false, String, ◌≡◌, refl, arith, Bool-cases, inl, inr,
}
use zolem.Tools.{Json, null, bool, number, text, array, object, field_of}
use zolem.Tools.Values.{Numbers}
use zolem.Tools.Walker.{max_simple_work, Walker, spend, may_continue, text_or_empty}
use zolem.Tools.Simple.{Leaf, visit, leaf, simple_value}
use zolem.Tools.Simple.Budget.{Alike, Agrees, Alike-later}
use zolem.Tools.Simple.Agreement.{by_ref-Alike}

-- A visit of two walks that agree once it has spent its one.
visit-Alike :
    (numbers : Numbers) (lower : String → String) (root : Json) (f g : Leaf) (v : Json)
    (depth hops : ℕ) (top : Bool) (w : Walker)
    → Agrees (w.spent + 1) f g
    → Alike w
        (visit numbers lower root f v depth hops top w)
        (visit numbers lower root g v depth hops top w)
unfolding visit
visit-Alike numbers lower root f g (object m) depth hops top w agree =
    elim (Bool-cases (may_continue (spend 1 w))) [
      | inr stop ↦ rw stop (refl, omega arith)
      | inl go ↦ rw go (
          Alike-later w (spend 1 w) _ _ (omega arith) (
            by_ref-Alike numbers lower root f g (w.spent + 1) agree m depth hops top
              (text_or_empty (field_of "$ref" m)) (spend 1 w) (omega arith)))
    ]
visit-Alike numbers lower root f g null depth hops true w agree = (refl, omega arith)
visit-Alike numbers lower root f g (bool b) depth hops true w agree = (refl, omega arith)
visit-Alike numbers lower root f g (number n) depth hops true w agree = (refl, omega arith)
visit-Alike numbers lower root f g (text t) depth hops true w agree = (refl, omega arith)
visit-Alike numbers lower root f g (array vs) depth hops true w agree = (refl, omega arith)
visit-Alike numbers lower root f g null depth hops false w agree = (refl, omega arith)
visit-Alike numbers lower root f g (bool b) depth hops false w agree = (refl, omega arith)
visit-Alike numbers lower root f g (number n) depth hops false w agree = (refl, omega arith)
visit-Alike numbers lower root f g (text t) depth hops false w agree = (refl, omega arith)
visit-Alike numbers lower root f g (array vs) depth hops false w agree = (refl, omega arith)

module _ (numbers : Numbers) (lower : String → String) (root : Json) where
  -- Where work is left, fuel of one more than it is enough.
  leaf-Agrees :
      (fuel more s : ℕ)
      → max_simple_work < fuel + s
      → max_simple_work < more + s
      → Agrees s (leaf numbers lower root fuel) (leaf numbers lower root more)
  unfolding leaf
  leaf-Agrees zero more s enough also v depth hops top w le left =
      absurd (omega (arith, enough, le, left))
  leaf-Agrees (suc fuel) zero s enough also v depth hops top w le left =
      absurd (omega (arith, also, le, left))
  leaf-Agrees (suc fuel) (suc more) s enough also v depth hops top w le left =
      visit-Alike numbers lower root (leaf numbers lower root fuel) (leaf numbers lower root more) v
        depth hops top w
        (leaf-Agrees fuel more (w.spent + 1) (omega (arith, enough, le, left))
          (omega (arith, also, le, left)))

  -- On any fuel of more visits than there is work, the walk gives what it gives on one more than
  -- the work: since every visit spends work before it makes another, the fuel never runs out,
  -- whatever cycles the references make.
  pub simple_value-leaf :
      (fuel : ℕ)
      → max_simple_work < fuel
      → leaf numbers lower root fuel root 0 0 true (record { spent = 0; out_bytes = 0 })
        ≡ simple_value numbers lower root
  unfolding simple_value
  simple_value-leaf fuel enough =
      (leaf-Agrees fuel (max_simple_work + 1) 0 (omega (arith, enough)) (omega arith) root 0 0 true
        (record { spent = 0; out_bytes = 0 }) (omega arith) (omega arith)).0
