-- ===== src/Tools/Simple/Agreement.antt =====
-- That two walks agree on a schema, where they agree on the schemas below it.
use Prim.Native.String.{len}
use zolem.Base.{
  ℕ, ◌+◌, ◌/◌, ◌≤◌, Bool, true, false, not, ◌&&◌, ◌||◌, String, ◌==◌, List, [], ◌∷◌, Option, none,
  some, if◌then◌else◌, ltb, refl, ap, ◌∙◌, arith, Bool-cases, inl, inr,
}
use zolem.Tools.{Json, object, Items, nil, item, Fields, end, field_of}
use zolem.Tools.Values.{Numbers, clean_value, lookup_pointer}
use zolem.Tools.Walker.{
  max_simple_work, max_depth, Walker, spend, may_continue, emit, first_type, first_branch,
  either_branch, required_keys, property_keys, cleaned, value_share, props_of, list_of,
  text_or_empty, set_field, implied, max_simple_keys, simple_ref_share, max_simple_hops,
  max_ref_bytes,
}
use zolem.Tools.Simple.{
  Leaf, property, fill, object_leaf, of_type, typed, by_type, branched, by_branch, by_enum,
  by_const, by_value, referred, by_ref,
}
use zolem.Tools.Simple.Budget.{
  Alike, Agrees, Found, within_budget, first_type-spent, first_branch-Found, required_keys-spent,
  property_keys-spent, either_branch-Found, Alike-later,
}

module _ (numbers : Numbers) (lower : String → String) (root : Json) (f g : Leaf) (s : ℕ)
    (agree : Agrees s f g) where
  property-Alike :
      (o : Option Json) (depth hops : ℕ) (w : Walker)
      → s ≤ w.spent
      → w.spent ≤ max_simple_work
      → Alike w
          (property numbers lower root f o depth hops w)
          (property numbers lower root g o depth hops w)
  property-Alike none depth hops w le top = (refl, omega arith)
  property-Alike (some p) depth hops w le top = agree p (depth + 1) hops false w le top

  fill-Alike :
      (props : Fields) (depth hops : ℕ) (ks : List String) (w : Walker) (result : Fields)
      → s ≤ w.spent
      → Alike w
          (fill numbers lower root f props depth hops ks w result)
          (fill numbers lower root g props depth hops ks w result)
  unfolding fill
  fill-Alike props depth hops [] w result le = (refl, omega arith)
  fill-Alike props depth hops (k ∷ ks) w result le = elim (Bool-cases (may_continue (spend 1 w))) [
    | inr stop ↦ rw stop (refl, omega arith)
    | inl go ↦
        let start = emit (len k + 4) (spend 1 w) in
        let (same, more) =
          property-Alike (field_of k props) depth hops start (omega (arith, le))
            (within_budget (spend 1 w) go) in
        let r = property numbers lower root f (field_of k props) depth hops start in
        let (rest, further) =
          fill-Alike props depth hops ks r.0 (set_field k r.1 result) (omega (arith, le, more)) in
        rw go (
          rest
              ∙ ap (λ p. fill numbers lower root g props depth hops ks p.0 (set_field k p.1 result))
                  same,
          omega (arith, more, further),
        )
  ]

  object_leaf-Alike :
      (m : Fields) (depth hops : ℕ) (w : Walker)
      → s ≤ w.spent
      → Alike w
          (object_leaf numbers lower root f m depth hops w)
          (object_leaf numbers lower root g m depth hops w)
  object_leaf-Alike m depth hops w le =
      let props = props_of (field_of "properties" m) in
      let required = required_keys max_simple_keys (list_of (field_of "required" m)) (emit 2 w) in
      let keys = property_keys props required in
      let first : w.spent ≤ required.0.spent =
        required_keys-spent max_simple_keys (list_of (field_of "required" m)) (emit 2 w) in
      let second : required.0.spent ≤ keys.0.spent =
        property_keys-spent props required.0 required.1 in
      elim (Bool-cases (ltb max_depth depth)) [
        | inl deep ↦ rw deep (refl, omega arith)
        | inr near ↦ rw near (
            Alike-later w keys.0 _ _ (omega (arith, first, second))
              (fill-Alike props depth hops keys.1 keys.0 end (omega (arith, le, first, second))))
      ]

  of_type-Alike :
      (t : String) (m : Fields) (depth hops : ℕ) (w : Walker)
      → s ≤ w.spent
      → Alike w
          (of_type numbers lower root f t m depth hops w)
          (of_type numbers lower root g t m depth hops w)
  of_type-Alike t m depth hops w le = elim (Bool-cases (t == "number" || t == "integer")) [
    | inl n ↦ rw n (refl, omega arith)
    | inr not_n ↦ elim (Bool-cases (t == "boolean")) [
      | inl b ↦ rw (not_n, b) (refl, omega arith)
      | inr not_b ↦ elim (Bool-cases (t == "array")) [
        | inl a ↦ rw (not_n, not_b, a) (refl, omega arith)
        | inr not_a ↦ elim (Bool-cases (t == "object")) [
          | inl o ↦ rw (not_n, not_b, not_a, o) (object_leaf-Alike m depth hops w le)
          | inr not_o ↦ rw (not_n, not_b, not_a, not_o) (refl, omega arith)
        ]
      ]
    ]
  ]

  typed-Alike :
      (m : Fields) (depth hops : ℕ) (top : Bool) (w : Walker) (t : String)
      → s ≤ w.spent
      → Alike w
          (typed numbers lower root f m depth hops top (w, t))
          (typed numbers lower root g m depth hops top (w, t))
  typed-Alike m depth hops top w t le =
      let t' = implied (lower t) m in
      elim (Bool-cases (top && not (t' == "") && not (t' == "object"))) [
        | inl refused ↦ rw refused (refl, omega arith)
        | inr fine ↦ rw fine (of_type-Alike (if top then "object" else t') m depth hops w le)
      ]

  by_type-Alike :
      (m : Fields) (depth hops : ℕ) (top : Bool) (w : Walker)
      → s ≤ w.spent
      → Alike w
          (by_type numbers lower root f m depth hops top w)
          (by_type numbers lower root g m depth hops top w)
  by_type-Alike m depth hops top w le =
      let r = first_type (text_or_empty (field_of "type" m)) (list_of (field_of "type" m)) w in
      let more : w.spent ≤ r.0.spent =
        first_type-spent (text_or_empty (field_of "type" m)) (list_of (field_of "type" m)) w in
      Alike-later w r.0 _ _ more (typed-Alike m depth hops top r.0 r.1 (omega (arith, le, more)))

  branched-Alike :
      (m : Fields) (depth hops : ℕ) (w : Walker) (r : Walker × Option Json)
      → s ≤ w.spent
      → Found w r
      → Alike w
          (branched numbers lower root f m depth hops r)
          (branched numbers lower root g m depth hops r)
  branched-Alike m depth hops w (u, some b) le (more, left) =
      Alike-later w u _ _ more (agree b (depth + 1) hops false u (omega (arith, le, more)) left)
  branched-Alike m depth hops w (u, none) le more =
      Alike-later w u _ _ more (by_type-Alike m depth hops false u (omega (arith, le, more)))

  by_branch-Alike :
      (m : Fields) (depth hops : ℕ) (w : Walker)
      → s ≤ w.spent
      → Alike w
          (by_branch numbers lower root f m depth hops w)
          (by_branch numbers lower root g m depth hops w)
  by_branch-Alike m depth hops w le =
      let any_of = first_branch (list_of (field_of "anyOf" m)) w in
      branched-Alike m depth hops w (either_branch m any_of) le
        (either_branch-Found m w any_of (first_branch-Found (list_of (field_of "anyOf" m)) w))

  cleaned-Alike :
      (o : Option (Json × ℕ)) (w : Walker) (r r' : Walker × Json)
      → Alike w r r'
      → Alike w (cleaned o w r) (cleaned o w r')
  cleaned-Alike none w r r' h = h
  cleaned-Alike (some (v, size)) w r r' h = (refl, omega arith)

  by_enum-Alike :
      (m : Fields) (depth hops : ℕ) (vs : Items) (w : Walker)
      → s ≤ w.spent
      → Alike w
          (by_enum numbers lower root f m depth hops vs w)
          (by_enum numbers lower root g m depth hops vs w)
  by_enum-Alike m depth hops nil w le = by_branch-Alike m depth hops w le
  by_enum-Alike m depth hops (item v vs) w le =
      let later = by_branch-Alike m depth hops (spend value_share w) (omega (arith, le)) in
      Alike-later w (spend value_share w) _ _ (omega arith)
        (elim (Bool-cases (may_continue (spend value_share w))) [
          | inr stop ↦ rw stop later
          | inl go ↦
              rw go (cleaned-Alike (clean_value numbers v 0 0) (spend value_share w) _ _ later)
        ])

  by_const-Alike :
      (m : Fields) (depth hops : ℕ) (o : Option Json) (w : Walker)
      → s ≤ w.spent
      → Alike w
          (by_const numbers lower root f m depth hops o w)
          (by_const numbers lower root g m depth hops o w)
  by_const-Alike m depth hops none w le =
      by_enum-Alike m depth hops (list_of (field_of "enum" m)) w le
  by_const-Alike m depth hops (some v) w le =
      let later =
        by_enum-Alike m depth hops (list_of (field_of "enum" m)) (spend value_share w)
          (omega (arith, le)) in
      Alike-later w (spend value_share w) _ _ (omega arith)
        (elim (Bool-cases (may_continue (spend value_share w))) [
          | inr stop ↦ rw stop later
          | inl go ↦
              rw go (cleaned-Alike (clean_value numbers v 0 0) (spend value_share w) _ _ later)
        ])

  by_value-Alike :
      (m : Fields) (depth hops : ℕ) (top : Bool) (w : Walker)
      → s ≤ w.spent
      → Alike w
          (by_value numbers lower root f m depth hops top w)
          (by_value numbers lower root g m depth hops top w)
  by_value-Alike m depth hops true w le = by_type-Alike m depth hops true w le
  by_value-Alike m depth hops false w le = by_const-Alike m depth hops (field_of "const" m) w le

  referred-Alike :
      (m : Fields) (depth hops : ℕ) (top : Bool) (o : Option Fields) (w : Walker)
      → s ≤ w.spent
      → w.spent ≤ max_simple_work
      → Alike w
          (referred numbers lower root f m depth hops top o w)
          (referred numbers lower root g m depth hops top o w)
  referred-Alike m depth hops top none w le left = by_value-Alike m depth hops top w le
  referred-Alike m depth hops top (some target) w le left =
      agree (object target) depth (hops + 1) top w le left

  pub by_ref-Alike :
      (m : Fields) (depth hops : ℕ) (top : Bool) (ref : String) (w : Walker)
      → s ≤ w.spent
      → Alike w
          (by_ref numbers lower root f m depth hops top ref w)
          (by_ref numbers lower root g m depth hops top ref w)
  by_ref-Alike m depth hops top ref w le =
      let w' = spend (1 + len ref / simple_ref_share) w in
      elim (Bool-cases
        (ref == "" || not (ltb hops max_simple_hops) || ltb max_ref_bytes (len ref))) [
          | inl skip ↦ rw skip (by_value-Alike m depth hops top w le)
          | inr follow ↦ Alike-later w w' _ _ (omega arith) (elim (Bool-cases (may_continue w')) [
            | inr stop ↦ rw (follow, stop) (by_value-Alike m depth hops top w' (omega (arith, le)))
            | inl go ↦
                rw (follow, go)
                  (referred-Alike m depth hops top (lookup_pointer numbers root ref) w'
                    (omega (arith, le)) (within_budget w' go))
          ])
        ]
