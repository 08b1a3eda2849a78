-- ===== src/Tools/Gemini.antt =====
-- NormalizeGeminiSchema of internal/provider/backend/toolsynth.go. Each key of a node has one part in
-- it, so that the passes over a node are one pass over its members.
pub mod Laws
pub mod Normal
use Prim.Native.String.{len}
use zolem.Base.{
  ℕ, ◌+◌, Bool, true, false, not, ◌||◌, String, ◌==◌, Option, none, some, if◌then◌else◌, ltb,
}
use zolem.Tools.{
  Json, null, bool, number, text, array, object, Items, nil, item, Fields, end, field, field_of,
}

-- What a key is to the pass.
pub data Keyword : Type 0 where
  count type_name enum nullable named_schemas schema schemas other : Keyword

unfoldable pub keyword_of : String → Keyword
keyword_of k =
    if k == "minItems"
      || k == "maxItems"
      || k == "minLength"
      || k == "maxLength"
      || k == "minProperties"
      || k == "maxProperties"
    then count
    else if k == "type"
    then type_name
    else if k == "enum"
    then enum
    else if k == "nullable"
    then nullable
    else if k == "properties" || k == "$defs" || k == "definitions"
    then named_schemas
    else if k == "items" || k == "additionalProperties" || k == "not"
    then schema
    else if k == "anyOf" || k == "oneOf" || k == "allOf"
    then schemas
    else other

abbrev pub max_schema_bytes : ℕ
max_schema_bytes = 65536

abbrev pub max_normalize_depth : ℕ
max_normalize_depth = 64

-- append(slices.Clone(e), nil)
unfoldable pub add_null : Items → Items
add_null nil = item null nil
add_null (item v vs) = item v (add_null vs)

abbrev pub is_true : Option Json → Bool
is_true (some (bool b)) = b
is_true _ = false

unfoldable pub is_nullable : Fields → Bool
unfolding field_of
is_nullable m = is_true (field_of "nullable" m)

-- `int_literal` is strconv.ParseInt of the trimmed text, printed by FormatInt.
abbrev pub count_literal : Option String → String → Json
count_literal none s = text s
count_literal (some n) s = number n

module _ (lower : String → String) (int_literal : String → Option String) where
  abbrev pub count_value : Json → Json
  count_value (text s) = count_literal (int_literal s) s
  count_value v = v

  abbrev pub type_value : Bool → Json → Json
  type_value true (text s) = array (item (text (lower s)) (item (text "null") nil))
  type_value false (text s) = text (lower s)
  type_value _ v = v

  abbrev pub enum_value : Bool → Json → Json
  enum_value true (array vs) = array (add_null vs)
  enum_value _ v = v

  -- A member after its pass: its value, as a schema, as named schemas, as a list of schemas.
  abbrev pub place : Keyword → Bool → String → Json → Json → Json → Json → Fields → Fields
  place nullable n k v as_schema as_named as_list rest = rest
  place count n k v as_schema as_named as_list rest = field k (count_value v) rest
  place type_name n k v as_schema as_named as_list rest = field k (type_value n v) rest
  place enum n k v as_schema as_named as_list rest = field k (enum_value n v) rest
  place named_schemas n k v as_schema as_named as_list rest = field k as_named rest
  place schema n k v as_schema as_named as_list rest = field k as_schema rest
  place schemas n k v as_schema as_named as_list rest = field k as_list rest
  place other n k v as_schema as_named as_list rest = field k v rest

  -- A node that is too deep stays.
  abbrev pub within : ℕ → Fields → Fields → Fields
  within depth m pass = if ltb max_normalize_depth depth then m else pass

  unfoldable mutual
    unfolding keyword_of is_nullable add_null

    pub normalize_fields : ℕ → Bool → Fields → Fields
    normalize_fields depth n end = end
    normalize_fields depth n (field k v fs) =
        place (keyword_of k) n k v (normalize_schema (depth + 1) v) (normalize_named (depth + 1) v)
          (normalize_list (depth + 1) v) (normalize_fields depth n fs)

    pub normalize_schema : ℕ → Json → Json
    normalize_schema depth (object m) =
        object (within depth m (normalize_fields depth (is_nullable m) m))
    normalize_schema depth v = v

    pub normalize_named : ℕ → Json → Json
    normalize_named depth (object m) = object (normalize_members depth m)
    normalize_named depth v = v

    pub normalize_list : ℕ → Json → Json
    normalize_list depth (array vs) = array (normalize_items depth vs)
    normalize_list depth v = v

    pub normalize_members : ℕ → Fields → Fields
    normalize_members depth end = end
    normalize_members depth (field k v fs) =
        field k (normalize_schema depth v) (normalize_members depth fs)

    pub normalize_items : ℕ → Items → Items
    normalize_items depth nil = nil
    normalize_items depth (item v vs) = item (normalize_schema depth v) (normalize_items depth vs)

  unfoldable pub normalize_node : ℕ → Fields → Fields
  unfolding normalize_fields is_nullable
  normalize_node depth m = within depth m (normalize_fields depth (is_nullable m) m)

  -- The whole call, on the text, where `decode` and `encode` are the codec and `size` the length.
  abbrev pub encoded : String → Option String → String
  encoded raw none = raw
  encoded raw (some out) = out

  abbrev pub normalized : (Json → Option String) → String → Option Json → String
  normalized encode raw (some (object m)) = encoded raw (encode (object (normalize_node 0 m)))
  normalized encode raw _ = raw

  unfoldable pub normalize_gemini_schema :
      (String → Option Json) → (Json → Option String) → (String → Bool) → String → String
  unfolding normalize_node
  normalize_gemini_schema decode encode blank raw =
      if blank raw || ltb max_schema_bytes (len raw)
      then raw
      else normalized encode raw (decode raw)
