-- ===== src/Tools/Simple.antt =====
-- simpleArgs and the walk of simpleWalker in internal/provider/backend/toolsynth.go: arguments
-- that are not verified.
pub mod Budget
pub mod Agreement
pub mod Laws
pub mod Object
use Prim.Native.String.{len}
use zolem.Base.{
  ℕ, zero, suc, ◌+◌, ◌/◌, min, Bool, true, false, not, ◌&&◌, ◌||◌, String, ◌==◌, List, [], ◌∷◌,
  ◌++◌, Option, none, some, if◌then◌else◌, eqb, ltb, leb, is_empty, take, length, ◌-◌,
}
use zolem.Runtime.Store.{sort_by_name}
use zolem.Tools.{
  Json, null, bool, number, text, array, object, Items, nil, item, Fields, end, field, field_of,
}
use zolem.Tools.Values.{Numbers, clean_value, max_value_bytes, lookup_pointer, fields_length}
use zolem.Tools.Walker.{
  max_simple_work, max_output_bytes, max_simple_keys, max_simple_hops, max_ref_bytes,
  simple_ref_share, max_depth, spend, may_continue, emit, lorem, empty_object, text_or_empty,
  list_of, is_type_name, first_type, is_branch, first_branch, either_branch, is_text, with_key,
  required_keys, keys_of, id_name, props_of, property_keys, set_field, is_present, implied, cleaned,
  value_share, Walker,
}

-- What the walk below does with a schema, its depth, its hops and whether it is the root.
abbrev pub Leaf : Type 0
Leaf = Json → ℕ → ℕ → Bool → Walker → Walker × Json

module _ (numbers : Numbers) (lower : String → String) (root : Json) (leaf : Leaf) where
  abbrev pub property : Option Json → ℕ → ℕ → Walker → Walker × Json
  property none depth hops w = lorem w
  property (some p) depth hops w = leaf p (depth + 1) hops false w

  unfoldable pub fill : Fields → ℕ → ℕ → List String → Walker → Fields → Walker × Json
  unfolding set_field field_of
  fill props depth hops [] w result = (w, object result)
  fill props depth hops (k ∷ ks) w result =
      let (w', v) = property (field_of k props) depth hops (emit (len k + 4) (spend 1 w)) in
      let rest = fill props depth hops ks w' (set_field k v result) in
      if not (may_continue (spend 1 w)) then (spend 1 w, object result) else rest

  abbrev pub object_leaf : Fields → ℕ → ℕ → Walker → Walker × Json
  object_leaf m depth hops w =
      let props = props_of (field_of "properties" m) in
      let (w', ks) =
        property_keys props
          (required_keys max_simple_keys (list_of (field_of "required" m)) (emit 2 w)) in
      if ltb max_depth depth then (emit 2 w, object end) else fill props depth hops ks w' end

  abbrev pub of_type : String → Fields → ℕ → ℕ → Walker → Walker × Json
  of_type t m depth hops w =
      if t == "number" || t == "integer"
      then (emit 3 w, number "42")
      else if t == "boolean"
      then (emit 5 w, bool true)
      else if t == "array"
      then (emit 3 w, array nil)
      else if t == "object"
      then object_leaf m depth hops w
      else lorem w

  abbrev pub typed : Fields → ℕ → ℕ → Bool → Walker × String → Walker × Json
  typed m depth hops top (w, t) =
      let t' = implied (lower t) m in
      if top && not (t' == "") && not (t' == "object")
      then empty_object w
      else of_type (if top then "object" else t') m depth hops w

  abbrev pub by_type : Fields → ℕ → ℕ → Bool → Walker → Walker × Json
  by_type m depth hops top w =
      typed m depth hops top
        (first_type (text_or_empty (field_of "type" m)) (list_of (field_of "type" m)) w)

  abbrev pub branched : Fields → ℕ → ℕ → Walker × Option Json → Walker × Json
  branched m depth hops (w, some b) = leaf b (depth + 1) hops false w
  branched m depth hops (w, none) = by_type m depth hops false w

  abbrev pub by_branch : Fields → ℕ → ℕ → Walker → Walker × Json
  by_branch m depth hops w =
      branched m depth hops (either_branch m (first_branch (list_of (field_of "anyOf" m)) w))

  abbrev pub by_enum : Fields → ℕ → ℕ → Items → Walker → Walker × Json
  by_enum m depth hops nil w = by_branch m depth hops w
  by_enum m depth hops (item v vs) w =
      if not (may_continue (spend value_share w))
      then by_branch m depth hops (spend value_share w)
      else cleaned (clean_value numbers v 0 0) (spend value_share w)
          (by_branch m depth hops (spend value_share w))

  abbrev pub by_const : Fields → ℕ → ℕ → Option Json → Walker → Walker × Json
  by_const m depth hops none w = by_enum m depth hops (list_of (field_of "enum" m)) w
  by_const m depth hops (some v) w =
      let later = by_enum m depth hops (list_of (field_of "enum" m)) (spend value_share w) in
      if not (may_continue (spend value_share w))
      then later
      else cleaned (clean_value numbers v 0 0) (spend value_share w) later

  abbrev pub by_value : Fields → ℕ → ℕ → Bool → Walker → Walker × Json
  by_value m depth hops true w = by_type m depth hops true w
  by_value m depth hops false w = by_const m depth hops (field_of "const" m) w

  abbrev pub referred : Fields → ℕ → ℕ → Bool → Option Fields → Walker → Walker × Json
  referred m depth hops top none w = by_value m depth hops top w
  referred m depth hops top (some target) w = leaf (object target) depth (hops + 1) top w

  abbrev pub by_ref : Fields → ℕ → ℕ → Bool → String → Walker → Walker × Json
  by_ref m depth hops top ref w =
      let w' = spend (1 + len ref / simple_ref_share) w in
      if ref == "" || not (ltb hops max_simple_hops) || ltb max_ref_bytes (len ref)
      then by_value m depth hops top w
      else if not (may_continue w')
      then by_value m depth hops top w'
      else referred m depth hops top (lookup_pointer numbers root ref) w'

  -- One visit of a schema.
  unfoldable pub visit : Leaf
  unfolding field_of first_type first_branch required_keys keys_of sort_by_name fill clean_value
      lookup_pointer
  visit (object m) depth hops top w =
      if not (may_continue (spend 1 w))
      then lorem (spend 1 w)
      else by_ref m depth hops top (text_or_empty (field_of "$ref" m)) (spend 1 w)
  visit v depth hops true w = empty_object w
  visit v depth hops false w = lorem w

module _ (numbers : Numbers) (lower : String → String) (root : Json) where
  -- leaf, on fuel for the visits that one makes of another.
  unfoldable pub leaf : ℕ → Leaf
  unfolding visit
  leaf zero v depth hops top w = lorem w
  leaf (suc fuel) v depth hops top w = visit numbers lower root (leaf fuel) v depth hops top w

  -- The walk has a budget of max_simple_work, and each visit spends one.
  unfoldable pub simple_value : Walker × Json
  unfolding leaf
  simple_value = leaf (max_simple_work + 1) root 0 0 true (record { spent = 0; out_bytes = 0 })

abbrev pub fitting : Option String → String
fitting none = "{}"
fitting (some out) = if ltb max_output_bytes (len out) then "{}" else out

abbrev pub marshalled : (Json → Option String) → Walker × Json → String
marshalled encode (w, v) = if ltb max_output_bytes w.out_bytes then "{}" else fitting (encode v)

-- simpleArgs; `encode` is json.Marshal.
unfoldable pub simple_args : Numbers → (String → String) → (Json → Option String) → Json → String
unfolding simple_value
simple_args numbers lower encode schema = marshalled encode (simple_value numbers lower schema)
