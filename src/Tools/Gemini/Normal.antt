-- ===== src/Tools/Gemini/Normal.antt =====
-- What a normalized schema is.
pub mod Keys
pub mod Laws
use zolem.Base.{
  List, [], ◌∷◌, if◌then◌else◌, ℕ, ◌+◌, Bool, true, false, not, ◌||◌, String, ◌==◌, eq_iff, Option,
  none, ltb, ◌≡◌, ◌≢◌, ◌⊎◌, refl, sym, ap, ◌∙◌, Bool-cases, Option-cases, inl, inr,
}
use zolem.Tools.{
  Json, null, bool, number, text, array, object, Items, nil, item, Fields, end, field,
}
use zolem.Tools.Gemini.{
  Keyword, count, type_name, enum, nullable, named_schemas, schema, schemas, other, keyword_of,
  is_nullable, max_normalize_depth, count_value, type_value, enum_value, place, normalize_node,
  normalize_fields, normalize_schema, normalize_named, normalize_list, normalize_members,
  normalize_items,
}

-- The keywords of JSON Schema by what stands under them.
abbrev pub is_count_key : String → Bool
is_count_key k =
    k == "minItems"
    || k == "maxItems"
    || k == "minLength"
    || k == "maxLength"
    || k == "minProperties"
    || k == "maxProperties"

abbrev pub is_named_key : String → Bool
is_named_key k = k == "properties" || k == "$defs" || k == "definitions"

abbrev pub is_schema_key : String → Bool
is_schema_key k = k == "items" || k == "additionalProperties" || k == "not"

abbrev pub is_list_key : String → Bool
is_list_key k = k == "anyOf" || k == "oneOf" || k == "allOf"

abbrev pub When : Bool → Type 0 → Type 0
When true P = P
When false P = Unit

module _ (lower : String → String) (int_literal : String → Option String) where
  -- A text that ToLower leaves.
  abbrev pub IsLower : Json → Type 0
  IsLower (text s) = lower s ≡ s
  IsLower _ = Unit

  -- No integer in quotes.
  abbrev pub IsUnquoted : Json → Type 0
  IsUnquoted (text s) = int_literal s ≡ none
  IsUnquoted _ = Unit

  mutual
    -- The members of a node: none is the flag; the type has a lower-case name, counts are not in
    -- quotes, and the schemas below are normal.
    pub IsNormalFields : ℕ → Fields → Type 0
    IsNormalFields depth end = Unit
    IsNormalFields depth (field k v fs) =
        ((k == "nullable") ≡ false)
        × When (k == "type") (IsLower v)
        × When (is_count_key k) (IsUnquoted v)
        × When (is_named_key k) (IsNormalNamed (depth + 1) v)
        × When (is_schema_key k) (IsNormalSchema (depth + 1) v)
        × When (is_list_key k) (IsNormalList (depth + 1) v)
        × IsNormalFields depth fs

    -- A node that is too deep may be anything.
    pub IsNormalSchema : ℕ → Json → Type 0
    IsNormalSchema depth (object m) =
        When (not (ltb max_normalize_depth depth)) (IsNormalFields depth m)
    IsNormalSchema depth v = Unit

    pub IsNormalNamed : ℕ → Json → Type 0
    IsNormalNamed depth (object m) = IsNormalMembers depth m
    IsNormalNamed depth v = Unit

    pub IsNormalList : ℕ → Json → Type 0
    IsNormalList depth (array vs) = IsNormalItems depth vs
    IsNormalList depth v = Unit

    pub IsNormalMembers : ℕ → Fields → Type 0
    IsNormalMembers depth end = Unit
    IsNormalMembers depth (field k v fs) = IsNormalSchema depth v × IsNormalMembers depth fs

    pub IsNormalItems : ℕ → Items → Type 0
    IsNormalItems depth nil = Unit
    IsNormalItems depth (item v vs) = IsNormalSchema depth v × IsNormalItems depth vs

-- The keys of a node in order, and those that are not the flag's.
abbrev pub keys : Fields → List String
keys end = []
keys (field k v fs) = k ∷ keys fs

abbrev pub without_flag : List String → List String
without_flag [] = []
without_flag (k ∷ ks) = let rest = without_flag ks in if k == "nullable" then rest else k ∷ rest
