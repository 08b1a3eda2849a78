-- ===== src/Tools/Walker.antt =====
-- The budget of simpleWalker in internal/provider/backend/toolsynth.go, and what it picks from a
-- schema. `spent` is how much of the budget is gone, maxSimpleWork less the field `work`.
use zolem.Base.{
  ℕ, ◌+◌, ◌/◌, Bool, true, false, not, ◌&&◌, ◌||◌, String, ◌==◌, List, [], ◌∷◌, Option, none, some,
  if◌then◌else◌, eqb, leb, take, ◌-◌,
}
use zolem.Runtime.Store.{sort_by_name}
use zolem.Tools.{Json, null, text, array, object, Items, nil, item, Fields, end, field, field_of}
use zolem.Tools.Values.{max_value_bytes, fields_length}

abbrev pub max_simple_work : ℕ
max_simple_work = 20000

abbrev pub max_output_bytes : ℕ
max_output_bytes = 65536

abbrev pub max_simple_keys : ℕ
max_simple_keys = 256

abbrev pub max_simple_hops : ℕ
max_simple_hops = 3

abbrev pub max_ref_bytes : ℕ
max_ref_bytes = 1024

abbrev pub simple_ref_share : ℕ
simple_ref_share = 64

abbrev pub max_depth : ℕ
max_depth = 8

pub record Walker : Type 0 where
  pub spent : ℕ
  pub out_bytes : ℕ

abbrev pub spend : ℕ → Walker → Walker
spend n w = record w { spent = w.spent + n }

-- charge, once the work is spent.
abbrev pub may_continue : Walker → Bool
may_continue w = leb w.spent max_simple_work && leb w.out_bytes max_output_bytes

abbrev pub emit : ℕ → Walker → Walker
emit n w = record w { out_bytes = w.out_bytes + n }

abbrev pub lorem : Walker → Walker × Json
lorem w = (emit 13 w, text "lorem ipsum")

abbrev pub empty_object : Walker → Walker × Json
empty_object w = (emit 2 w, object end)

abbrev pub text_or_empty : Option Json → String
text_or_empty (some (text s)) = s
text_or_empty _ = ""

abbrev pub list_of : Option Json → Items
list_of (some (array vs)) = vs
list_of _ = nil

-- The first element of a type array that is a name other than "null".
abbrev pub is_type_name : Json → Bool
is_type_name (text s) = not (s == "null") && not (s == "")
is_type_name _ = false

unfoldable pub first_type : String → Items → Walker → Walker × String
first_type t nil w = (w, t)
first_type t (item v vs) w =
    let later = first_type t vs (spend 1 w) in
    if not (may_continue (spend 1 w))
    then (spend 1 w, t)
    else if is_type_name v
    then (spend 1 w, text_or_empty (some v))
    else later

-- A branch of anyOf or oneOf that is a schema of a type other than "null".
abbrev pub is_branch : Json → Bool
is_branch (object m) = not (text_or_empty (field_of "type" m) == "null")
is_branch _ = false

unfoldable pub first_branch : Items → Walker → Walker × Option Json
unfolding field_of
first_branch nil w = (w, none)
first_branch (item v vs) w =
    let later = first_branch vs (spend 1 w) in
    if not (may_continue (spend 1 w))
    then (spend 1 w, none)
    else if is_branch v
    then (spend 1 w, some v)
    else later

abbrev pub either_branch : Fields → Walker × Option Json → Walker × Option Json
either_branch m (w, some v) = (w, some v)
either_branch m (w, none) = first_branch (list_of (field_of "oneOf" m)) w

abbrev pub is_text : Json → Bool
is_text (text s) = true
is_text _ = false

abbrev pub with_key : Json → List String → List String
with_key (text s) ks = s ∷ ks
with_key _ ks = ks

-- The names of `required`; `room` is for how many more keys there is room.
unfoldable pub required_keys : ℕ → Items → Walker → Walker × List String
required_keys room nil w = (w, [])
required_keys room (item v vs) w =
    let (w', ks) = required_keys (room - (if is_text v then 1 else 0)) vs (spend 1 w) in
    if eqb room 0
    then (w, [])
    else if not (may_continue (spend 1 w))
    then (spend 1 w, [])
    else (w', with_key v ks)

unfoldable pub keys_of : Fields → List String
keys_of end = []
keys_of (field k v m) = k ∷ keys_of m

abbrev pub id_name : String → String
id_name k = k

abbrev pub props_of : Option Json → Fields
props_of (some (object m)) = m
props_of _ = end

-- Without required names, the first of the properties in their order.
abbrev pub property_keys : Fields → Walker × List String → Walker × List String
property_keys props (w, k ∷ ks) = (w, k ∷ ks)
property_keys props (w, []) =
    if eqb (fields_length props) 0
    then (w, [])
    else if may_continue (spend (fields_length props) w)
    then (
      spend (fields_length props) w,
      take max_simple_keys (sort_by_name id_name (keys_of props)),
    )
    else (spend (fields_length props) w, [])

-- result[k] = v
unfoldable pub set_field : String → Json → Fields → Fields
set_field key v end = field key v end
set_field key v (field k u m) =
    let rest = set_field key v m in if k == key then field k v m else field k u rest

abbrev pub is_present : Option Json → Bool
is_present none = false
is_present (some null) = false
is_present (some v) = true

abbrev pub implied : String → Fields → String
implied t m =
    if t == "" && (is_present (field_of "properties" m) || is_present (field_of "required" m))
    then "object"
    else t

-- A const or the first of an enum, where it is clean; otherwise what follows.
abbrev pub cleaned : Option (Json × ℕ) → Walker → Walker × Json → Walker × Json
cleaned (some (v, size)) w later = (emit size w, v)
cleaned none w later = later

abbrev pub value_share : ℕ
value_share = max_value_bytes / simple_ref_share
