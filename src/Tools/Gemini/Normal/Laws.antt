-- ===== src/Tools/Gemini/Normal/Laws.antt =====
-- That a normalized schema is normal.
use zolem.Base.{
  ℕ, ◌+◌, Bool, true, false, String, ◌==◌, Option, ltb, ◌≡◌, ◌≢◌, refl, sym, subst, ◌∙◌, Bool-cases,
  Option-cases, inl, inr,
}
use zolem.Tools.{
  Json, null, bool, number, text, array, object, Items, nil, item, Fields, end, field,
}
use zolem.Tools.Gemini.{
  Keyword, count, type_name, enum, nullable, named_schemas, schema, schemas, other, keyword_of,
  is_nullable, max_normalize_depth, count_value, type_value, place, normalize_fields,
  normalize_schema, normalize_named, normalize_list, normalize_members, normalize_items,
}
use zolem.Tools.Gemini.Laws.{IsSettling}
use zolem.Tools.Gemini.Normal.{
  When, IsLower, IsUnquoted, IsNormalFields, IsNormalSchema, IsNormalNamed, IsNormalList,
  IsNormalMembers, IsNormalItems, is_count_key, is_named_key, is_schema_key, is_list_key,
}
use zolem.Tools.Gemini.Normal.Keys.{count_key, type_key, named_key, schema_key, list_key, not_flag}

module _ (lower : String → String) (int_literal : String → Option String) where
  count_value-IsUnquoted :
      (v : Json) → IsUnquoted lower int_literal (count_value lower int_literal v)
  count_value-IsUnquoted (text s) = elim (Option-cases (int_literal s)) [
    | inl bad ↦ rw bad bad
    | inr (n, good) ↦ rw good tt
  ]
  count_value-IsUnquoted null = tt
  count_value-IsUnquoted (bool b) = tt
  count_value-IsUnquoted (number n) = tt
  count_value-IsUnquoted (array vs) = tt
  count_value-IsUnquoted (object m) = tt

  type_value-IsLower :
      (n : Bool) (v : Json)
      → IsSettling lower
      → IsLower lower int_literal (type_value lower int_literal n v)
  type_value-IsLower true (text s) h = tt
  type_value-IsLower false (text s) h = h s
  type_value-IsLower true null h = tt
  type_value-IsLower true (bool b) h = tt
  type_value-IsLower true (number m) h = tt
  type_value-IsLower true (array vs) h = tt
  type_value-IsLower true (object m) h = tt
  type_value-IsLower false null h = tt
  type_value-IsLower false (bool b) h = tt
  type_value-IsLower false (number m) h = tt
  type_value-IsLower false (array vs) h = tt
  type_value-IsLower false (object m) h = tt

  -- What a member of each kind has to be.
  abbrev Fits : Keyword → ℕ → Json → Type 0
  Fits count depth u = IsUnquoted lower int_literal u
  Fits type_name depth u = IsLower lower int_literal u
  Fits named_schemas depth u = IsNormalNamed lower int_literal (depth + 1) u
  Fits schema depth u = IsNormalSchema lower int_literal (depth + 1) u
  Fits schemas depth u = IsNormalList lower int_literal (depth + 1) u
  Fits _ depth u = Unit

  under :
      (k : String) (test : Bool) (own kw : Keyword) (depth : ℕ) (u : Json)
      → (test ≡ true → keyword_of k ≡ own)
      → keyword_of k ≡ kw
      → Fits kw depth u
      → When test (Fits own depth u)
  under k true own kw depth u only e fits = subst (λ x. Fits x depth u) (sym e ∙ only refl) fits
  under k false own kw depth u only e fits = tt

  field-IsNormalFields :
      (kw : Keyword) (k : String) (u : Json) (rest : Fields) (depth : ℕ)
      → keyword_of k ≡ kw
      → kw ≢ nullable
      → Fits kw depth u
      → IsNormalFields lower int_literal depth rest
      → IsNormalFields lower int_literal depth (field k u rest)
  unfolding IsNormalFields
  field-IsNormalFields kw k u rest depth e differs fits h = (
    not_flag k kw e differs,
    under k (k == "type") type_name kw depth u (type_key k) e fits,
    under k (is_count_key k) count kw depth u (count_key k) e fits,
    under k (is_named_key k) named_schemas kw depth u (named_key k) e fits,
    under k (is_schema_key k) schema kw depth u (schema_key k) e fits,
    under k (is_list_key k) schemas kw depth u (list_key k) e fits,
    h,
  )

  module _ (settling : IsSettling lower) where
    place-IsNormalFields :
        (kw : Keyword) (k : String) (n : Bool) (v s d l : Json) (rest : Fields) (depth : ℕ)
        → keyword_of k ≡ kw
        → IsNormalSchema lower int_literal (depth + 1) s
        → IsNormalNamed lower int_literal (depth + 1) d
        → IsNormalList lower int_literal (depth + 1) l
        → IsNormalFields lower int_literal depth rest
        → IsNormalFields lower int_literal depth (place lower int_literal kw n k v s d l rest)
    place-IsNormalFields nullable k n v s d l rest depth e hs hd hl h = h
    place-IsNormalFields count k n v s d l rest depth e hs hd hl h =
        field-IsNormalFields count k _ rest depth e (λ p. cc) (count_value-IsUnquoted v) h
    place-IsNormalFields type_name k n v s d l rest depth e hs hd hl h =
        field-IsNormalFields type_name k _ rest depth e (λ p. cc) (type_value-IsLower n v settling)
          h
    place-IsNormalFields enum k n v s d l rest depth e hs hd hl h =
        field-IsNormalFields enum k _ rest depth e (λ p. cc) (tt) h
    place-IsNormalFields named_schemas k n v s d l rest depth e hs hd hl h =
        field-IsNormalFields named_schemas k _ rest depth e (λ p. cc) (hd) h
    place-IsNormalFields schema k n v s d l rest depth e hs hd hl h =
        field-IsNormalFields schema k _ rest depth e (λ p. cc) (hs) h
    place-IsNormalFields schemas k n v s d l rest depth e hs hd hl h =
        field-IsNormalFields schemas k _ rest depth e (λ p. cc) (hl) h
    place-IsNormalFields other k n v s d l rest depth e hs hd hl h =
        field-IsNormalFields other k _ rest depth e (λ p. cc) (tt) h

    mutual
      unfolding IsNormalFields normalize_fields

      normalize_fields-IsNormalFields :
          (depth : ℕ) (n : Bool) (m : Fields)
          → IsNormalFields lower int_literal depth (normalize_fields lower int_literal depth n m)
      normalize_fields-IsNormalFields depth n end = tt
      normalize_fields-IsNormalFields depth n (field k v fs) =
          place-IsNormalFields (keyword_of k) k n v _ _ _ _ depth refl
            (normalize_schema-IsNormalSchema (depth + 1) v)
            (normalize_named-IsNormalNamed (depth + 1) v)
            (normalize_list-IsNormalList (depth + 1) v) (normalize_fields-IsNormalFields depth n fs)

      normalize_schema-IsNormalSchema :
          (depth : ℕ) (v : Json)
          → IsNormalSchema lower int_literal depth (normalize_schema lower int_literal depth v)
      normalize_schema-IsNormalSchema depth (object m) =
          elim (Bool-cases (ltb max_normalize_depth depth)) [
            | inl deep ↦ rw deep tt
            | inr near ↦ rw near (normalize_fields-IsNormalFields depth (is_nullable m) m)
          ]
      normalize_schema-IsNormalSchema depth null = tt
      normalize_schema-IsNormalSchema depth (bool b) = tt
      normalize_schema-IsNormalSchema depth (number s) = tt
      normalize_schema-IsNormalSchema depth (text s) = tt
      normalize_schema-IsNormalSchema depth (array vs) = tt

      normalize_named-IsNormalNamed :
          (depth : ℕ) (v : Json)
          → IsNormalNamed lower int_literal depth (normalize_named lower int_literal depth v)
      normalize_named-IsNormalNamed depth (object m) = normalize_members-IsNormalMembers depth m
      normalize_named-IsNormalNamed depth null = tt
      normalize_named-IsNormalNamed depth (bool b) = tt
      normalize_named-IsNormalNamed depth (number s) = tt
      normalize_named-IsNormalNamed depth (text s) = tt
      normalize_named-IsNormalNamed depth (array vs) = tt

      normalize_list-IsNormalList :
          (depth : ℕ) (v : Json)
          → IsNormalList lower int_literal depth (normalize_list lower int_literal depth v)
      normalize_list-IsNormalList depth (array vs) = normalize_items-IsNormalItems depth vs
      normalize_list-IsNormalList depth null = tt
      normalize_list-IsNormalList depth (bool b) = tt
      normalize_list-IsNormalList depth (number s) = tt
      normalize_list-IsNormalList depth (text s) = tt
      normalize_list-IsNormalList depth (object m) = tt

      normalize_members-IsNormalMembers :
          (depth : ℕ) (m : Fields)
          → IsNormalMembers lower int_literal depth (normalize_members lower int_literal depth m)
      normalize_members-IsNormalMembers depth end = tt
      normalize_members-IsNormalMembers depth (field k v fs) =
          (normalize_schema-IsNormalSchema depth v, normalize_members-IsNormalMembers depth fs)

      normalize_items-IsNormalItems :
          (depth : ℕ) (vs : Items)
          → IsNormalItems lower int_literal depth (normalize_items lower int_literal depth vs)
      normalize_items-IsNormalItems depth nil = tt
      normalize_items-IsNormalItems depth (item v vs) =
          (normalize_schema-IsNormalSchema depth v, normalize_items-IsNormalItems depth vs)
