-- ===== src/Tools/Simple/Budget.antt =====
-- That no work comes back to the walk.
use zolem.Base.{
  ℕ, ◌-◌, ◌≤◌, Bool, true, String, List, [], ◌∷◌, Option, none, some, if◌then◌else◌, ◌≡◌, arith,
  Bool-cases, inl, inr,
}
use zolem.Tools.{Json, Items, nil, item, Fields, field_of}
use zolem.Tools.Walker.{
  max_simple_work, Walker, spend, may_continue, first_type, first_branch, either_branch, is_branch,
  is_text, required_keys, property_keys, list_of,
}
use zolem.Tools.Simple.{Leaf}

-- Two runs agree, and no work comes back.
abbrev pub Alike : Walker → Walker × Json → Walker × Json → Type 0
Alike w r r' = (r ≡ r') × (w.spent ≤ r.0.spent)

-- On walks with work left, of which at least `s` is spent.
abbrev pub Agrees : ℕ → Leaf → Leaf → Type 0
Agrees s f g =
    (v : Json) (depth hops : ℕ) (top : Bool) (w : Walker)
    → s ≤ w.spent
    → w.spent ≤ max_simple_work
    → Alike w (f v depth hops top w) (g v depth hops top w)

pub within_budget : (w : Walker) → may_continue w ≡ true → w.spent ≤ max_simple_work
within_budget w h = ground arith

pub first_type-spent :
    (t : String) (vs : Items) (w : Walker) → w.spent ≤ (first_type t vs w).0.spent
unfolding first_type
first_type-spent t nil w = omega arith
first_type-spent t (item v vs) w = ground (arith, first_type-spent t vs (spend 1 w))

first_branch-spent : (vs : Items) (w : Walker) → w.spent ≤ (first_branch vs w).0.spent
unfolding first_branch
first_branch-spent nil w = omega arith
first_branch-spent (item v vs) w = ground (arith, first_branch-spent vs (spend 1 w))

-- A branch is found only with work left.
abbrev pub Found : Walker → Walker × Option Json → Type 0
Found w (w', some b) = (w.spent ≤ w'.spent) × (w'.spent ≤ max_simple_work)
Found w (w', none) = w.spent ≤ w'.spent

Found-later :
    (w w' : Walker) (r : Walker × Option Json) → w.spent ≤ w'.spent → Found w' r → Found w r
Found-later w w' (u, some b) le (h, k) = (omega (arith, le, h), k)
Found-later w w' (u, none) le h = omega (arith, le, h)

pub first_branch-Found : (vs : Items) (w : Walker) → Found w (first_branch vs w)
unfolding first_branch
first_branch-Found nil w = omega arith
first_branch-Found (item v vs) w = elim (Bool-cases (may_continue (spend 1 w))) [
  | inr stop ↦ rw stop (omega arith)
  | inl go ↦ elim (Bool-cases (is_branch v)) [
    | inl here ↦ rw (go, here) (omega arith, within_budget (spend 1 w) go)
    | inr later ↦
        rw (go, later)
          (Found-later w (spend 1 w) (first_branch vs (spend 1 w)) (omega arith)
            (first_branch-Found vs (spend 1 w)))
  ]
]

pub either_branch-Found :
    (m : Fields) (w : Walker) (r : Walker × Option Json) → Found w r → Found w (either_branch m r)
either_branch-Found m w (u, some b) h = h
either_branch-Found m w (u, none) h =
    Found-later w u (first_branch (list_of (field_of "oneOf" m)) u) h
      (first_branch-Found (list_of (field_of "oneOf" m)) u)

pub required_keys-spent :
    (room : ℕ) (vs : Items) (w : Walker) → w.spent ≤ (required_keys room vs w).0.spent
unfolding required_keys
required_keys-spent room nil w = omega arith
required_keys-spent room (item v vs) w =
    ground (arith, required_keys-spent (room - (if is_text v then 1 else 0)) vs (spend 1 w))

pub property_keys-spent :
    (props : Fields) (w : Walker) (ks : List String)
    → w.spent ≤ (property_keys props (w, ks)).0.spent
property_keys-spent props w (k ∷ ks) = omega arith
property_keys-spent props w [] = ground arith

pub Alike-later :
    (w w' : Walker) (r r' : Walker × Json) → w.spent ≤ w'.spent → Alike w' r r' → Alike w r r'
Alike-later w w' r r' le (e, h) = (e, omega (arith, le, h))
