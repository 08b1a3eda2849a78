-- ===== src/Tools/Tests.antt =====
-- Schemas of tools, as clients send them.
use zolem.Base.{
  ℕ, ◌<◌, ◌≤◌, ℤ, pos, Bool, true, false, String, ◌==◌, Option, none, some, if◌then◌else◌, ◌≡◌,
  refl, arith,
}
use Prim.Native.String.{len}
use zolem.Tools.{Json, bool, number, text, array, object, nil, item, Fields, end, field}
use zolem.Tools.Gemini.{normalize_node}
use zolem.Tools.Values.{Numbers}
use zolem.Tools.Walker.{max_output_bytes}
use zolem.Tools.Simple.{leaf, simple_value, simple_args}
use zolem.Tools.Simple.Laws.{simple_value-leaf}
use zolem.Tools.Simple.Object.{simple_args-IsObject}

abbrev lower : String → String
lower s = if s == "STRING" then "string" else if s == "OBJECT" then "object" else s

abbrev int_literal : String → Option String
int_literal s = if s == "05" then some "5" else none

-- A count in quotes below a nullable name.
abbrev gemini : Fields
gemini = field "type" (text "OBJECT") (
    field "properties"
      (object (
        field "city"
          (object (
            field "type" (text "STRING")
              (field "nullable" (bool true) (field "minLength" (text "05") end))))
          end))
      end)

gemini_normalized :
    normalize_node lower int_literal 0 gemini
    ≡ field "type" (text "object") (
        field "properties"
          (object (
            field "city"
              (object (
                field "type"
                  (array (item (text "string") (item (text "null") nil)))
                  (field "minLength" (number "5") end)))
              end))
          end)
unfolding normalize_node
gemini_normalized = refl

abbrev numbers : Numbers
numbers = record {
  parse_float = λ s. none;
  equal_rationals = λ a b. false;
  path_unescape = λ s. some s;
  atoi = λ s. none;
}

-- A schema that refers to itself.
abbrev tree : Json
tree = object (
    field "type" (text "object") (
      field "properties"
        (object (
          field "left" (object (field "$ref" (text "#") end))
            (field "size" (object (field "type" (text "integer") end)) end)))
        end))

abbrev encode : Json → Option String
encode (object end) = some "{}"
encode v = none

tree_size : (simple_value numbers lower tree).0.out_bytes ≡ 97
unfolding simple_value zolem.Base.less
tree_size = refl

simple_value-leaf_example :
    leaf numbers lower tree 30000 tree 0 0 true (record { spent = 0; out_bytes = 0 })
    ≡ simple_value numbers lower tree
simple_value-leaf_example = simple_value-leaf numbers lower tree 30000 (omega arith)

simple_args-IsObject_example :
    (m : Fields) × (encode (object m) ≡ some (simple_args numbers lower encode tree))
    × (len (simple_args numbers lower encode tree) ≤ max_output_bytes)
simple_args-IsObject_example = simple_args-IsObject numbers lower tree encode refl
