-- ===== src/Tools/Simple/Object.antt =====
-- That arguments are a JSON object of bounded size.
use Prim.Native.String.{len}
use zolem.Base.{
  ℕ, zero, suc, ◌+◌, ◌-◌, ◌*◌, ◌/◌, ◌≤◌, ◌<◌, true, not, ◌&&◌, ◌||◌, String, ◌==◌, List, [], ◌∷◌,
  Option, none, some, ltb, ◌≡◌, refl, sym, ap, arith, Bool-cases, inl, inr,
}
use zolem.Tools.{Json, null, bool, number, text, array, object, Fields, end, field_of}
use zolem.Tools.Values.{Numbers, lookup_pointer}
use zolem.Tools.Walker.{
  max_simple_work, max_output_bytes, max_depth, max_ref_bytes, max_simple_hops, simple_ref_share,
  Walker, spend, may_continue, emit, first_type, list_of, text_or_empty, set_field, implied,
}
use zolem.Tools.Simple.{
  Leaf, property, fill, object_leaf, typed, by_type, referred, by_ref, visit, leaf, simple_value,
  fitting, marshalled, simple_args,
}

abbrev IsObject : Json → Type 0
IsObject v = (m : Fields) × (v ≡ object m)

-- The text encodes an object, and is not too long.
abbrev Encodes : (Json → Option String) → String → Type 0
Encodes encode out = (m : Fields) × (encode (object m) ≡ some out) × (len out ≤ max_output_bytes)

module _ (encode : Json → Option String) (empty : encode (object end) ≡ some "{}") where
  fitting-Encodes :
      (m : Fields) (o : Option String) → encode (object m) ≡ o → Encodes encode (fitting o)
  fitting-Encodes m none e = (end, empty, omega arith)
  fitting-Encodes m (some out) e = elim (Bool-cases (ltb max_output_bytes (len out))) [
    | inl large ↦ rw large (end, empty, omega arith)
    | inr fits ↦ rw fits (m, e, ground arith)
  ]

  marshalled-Encodes : (r : Walker × Json) → IsObject r.1 → Encodes encode (marshalled encode r)
  marshalled-Encodes (w, v) (m, is_object) = elim (Bool-cases (ltb max_output_bytes w.out_bytes)) [
    | inl large ↦ rw large (end, empty, omega arith)
    | inr small ↦ rw small (fitting-Encodes m (encode v) (ap encode (sym is_object)))
  ]

-- Work for the references that are still to be followed, and some output left.
abbrev HasWork : ℕ → Walker → Type 0
HasWork hops w =
    (w.spent + 18 * (max_simple_hops - hops) < max_simple_work) × (w.out_bytes ≤ max_output_bytes)

module _ (numbers : Numbers) (lower : String → String) (root : Json) (f : Leaf) where
  fill-IsObject :
      (props : Fields) (depth hops : ℕ) (ks : List String) (w : Walker) (result : Fields)
      → IsObject (fill numbers lower root f props depth hops ks w result).1
  unfolding fill
  fill-IsObject props depth hops [] w result = (result, refl)
  fill-IsObject props depth hops (k ∷ ks) w result = elim (Bool-cases (may_continue (spend 1 w))) [
    | inr stop ↦ rw stop (result, refl)
    | inl go ↦
        let r =
          property numbers lower root f (field_of k props) depth hops
            (emit (len k + 4) (spend 1 w)) in
        rw go (fill-IsObject props depth hops ks r.0 (set_field k r.1 result))
  ]

  object_leaf-IsObject :
      (m : Fields) (depth hops : ℕ) (w : Walker)
      → IsObject (object_leaf numbers lower root f m depth hops w).1
  object_leaf-IsObject m depth hops w = elim (Bool-cases (ltb max_depth depth)) [
    | inl deep ↦ rw deep (end, refl)
    | inr near ↦ rw near (fill-IsObject _ depth hops _ _ end)
  ]

  typed-IsObject :
      (m : Fields) (depth hops : ℕ) (w : Walker) (t : String)
      → IsObject (typed numbers lower root f m depth hops true (w, t)).1
  typed-IsObject m depth hops w t =
      let t' = implied (lower t) m in
      elim (Bool-cases (true && not (t' == "") && not (t' == "object"))) [
        | inl refused ↦ rw refused (end, refl)
        | inr fine ↦ rw fine (object_leaf-IsObject m depth hops w)
      ]

  by_type-IsObject :
      (m : Fields) (depth hops : ℕ) (w : Walker)
      → IsObject (by_type numbers lower root f m depth hops true w).1
  by_type-IsObject m depth hops w =
      let r = first_type (text_or_empty (field_of "type" m)) (list_of (field_of "type" m)) w in
      typed-IsObject m depth hops r.0 r.1

  referred-IsObject :
      (m : Fields) (depth hops : ℕ) (o : Option Fields) (w : Walker)
      → ((target : Fields) → IsObject (f (object target) depth (hops + 1) true w).1)
      → IsObject (referred numbers lower root f m depth hops true o w).1
  referred-IsObject m depth hops none w next = by_type-IsObject m depth hops w
  referred-IsObject m depth hops (some target) w next = next target

  by_ref-IsObject :
      (m : Fields) (depth hops : ℕ) (ref : String) (w : Walker)
      → w.spent + 18 * (max_simple_hops - hops) ≤ max_simple_work
      → w.out_bytes ≤ max_output_bytes
      → ((target : Fields) (u : Walker)
          → hops < max_simple_hops
          → HasWork (hops + 1) u
          → IsObject (f (object target) depth (hops + 1) true u).1)
      → IsObject (by_ref numbers lower root f m depth hops true ref w).1
  by_ref-IsObject m depth hops ref w work out next =
      let w' = spend (1 + len ref / simple_ref_share) w in
      elim (Bool-cases
        (ref == "" || not (ltb hops max_simple_hops) || ltb max_ref_bytes (len ref))) [
          | inl skip ↦ rw skip (by_type-IsObject m depth hops w)
          | inr follow ↦ elim (Bool-cases (may_continue w')) [
            | inr stop ↦ rw (follow, stop) (by_type-IsObject m depth hops w')
            | inl go ↦
                let few : hops < max_simple_hops = ground arith in
                let short : len ref ≤ max_ref_bytes = ground arith in
                rw (follow, go)
                  (referred-IsObject m depth hops (lookup_pointer numbers root ref) w'
                    (λ target. next target w' few (omega (arith, work, few, short), out)))
          ]
        ]

module _ (numbers : Numbers) (lower : String → String) (root : Json) where
  leaf-IsObject :
      (fuel : ℕ) (v : Json) (depth hops : ℕ) (w : Walker)
      → max_simple_hops < fuel + hops
      → hops ≤ max_simple_hops
      → HasWork hops w
      → IsObject (leaf numbers lower root fuel v depth hops true w).1
  unfolding leaf visit
  leaf-IsObject zero v depth hops w enough bound work = absurd (omega (arith, enough, bound))
  leaf-IsObject (suc fuel) (object m) depth hops w enough bound (work, out) =
      let go : may_continue (spend 1 w) ≡ true = ground (arith, work, out) in
      rw go (
        by_ref-IsObject numbers lower root (leaf numbers lower root fuel) m depth hops
          (text_or_empty (field_of "$ref" m)) (spend 1 w) (omega (arith, work)) out
          (λ target u few work'.
            leaf-IsObject fuel (object target) depth (hops + 1) u (omega (arith, enough))
              (omega (arith, few)) work'))
  leaf-IsObject (suc fuel) null depth hops w enough bound work = (end, refl)
  leaf-IsObject (suc fuel) (bool b) depth hops w enough bound work = (end, refl)
  leaf-IsObject (suc fuel) (number n) depth hops w enough bound work = (end, refl)
  leaf-IsObject (suc fuel) (text t) depth hops w enough bound work = (end, refl)
  leaf-IsObject (suc fuel) (array vs) depth hops w enough bound work = (end, refl)

  simple_value-IsObject : IsObject (simple_value numbers lower root).1
  unfolding simple_value
  simple_value-IsObject =
      leaf-IsObject (max_simple_work + 1) root 0 0 (record { spent = 0; out_bytes = 0 })
        (omega arith) (omega arith) (omega arith, omega arith)

  -- Where the encoder writes the object without members as {}: the arguments that are made without
  -- verification are always the encoding of some object, of no more than 65,536 bytes, whatever
  -- the schema and the document that its references are followed in.
  pub simple_args-IsObject :
      (encode : Json → Option String)
      → encode (object end) ≡ some "{}"
      → (m : Fields) × (encode (object m) ≡ some (simple_args numbers lower encode root))
        × (len (simple_args numbers lower encode root) ≤ max_output_bytes)
  unfolding simple_args
  simple_args-IsObject encode empty =
      marshalled-Encodes encode empty (simple_value numbers lower root) simple_value-IsObject
