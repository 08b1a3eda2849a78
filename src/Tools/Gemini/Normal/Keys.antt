-- ===== src/Tools/Gemini/Normal/Keys.antt =====
-- What keyword_of makes of the keywords of JSON Schema.
use zolem.Base.{
  Bool, true, false, ◌||◌, String, ◌==◌, eq_iff, ◌≡◌, ◌≢◌, ◌⊎◌, refl, sym, ap, ◌∙◌, Bool-cases, inl,
  inr,
}
use zolem.Tools.Gemini.{
  Keyword, count, type_name, nullable, named_schemas, schema, schemas, keyword_of,
}
use zolem.Tools.Gemini.Normal.{is_count_key, is_named_key, is_schema_key, is_list_key}

or_elim : (a b : Bool) → (a || b) ≡ true → (a ≡ true) ⊎ (b ≡ true)
or_elim true b h = inl refl
or_elim false b h = inr h

keyed : (k j : String) (kw : Keyword) → keyword_of j ≡ kw → (k == j) ≡ true → keyword_of k ≡ kw
keyed k j kw e h = ap keyword_of ((eq_iff k j).0 h) ∙ e

keyed_3 :
    (k a b c : String) (kw : Keyword)
    → keyword_of a ≡ kw
    → keyword_of b ≡ kw
    → keyword_of c ≡ kw
    → (k == a || k == b || k == c) ≡ true
    → keyword_of k ≡ kw
keyed_3 k a b c kw ea eb ec h = elim (or_elim (k == a || k == b) (k == c) h) [
  | inr third ↦ keyed k c kw ec third
  | inl before ↦ elim (or_elim (k == a) (k == b) before) [
    | inl first ↦ keyed k a kw ea first
    | inr second ↦ keyed k b kw eb second
  ]
]

module _ (k : String) where
  pub count_key : is_count_key k ≡ true → keyword_of k ≡ count
  unfolding keyword_of
  count_key h = rw h refl

  pub type_key : (k == "type") ≡ true → keyword_of k ≡ type_name
  unfolding keyword_of
  type_key h = keyed k "type" type_name refl h

  nullable_key : (k == "nullable") ≡ true → keyword_of k ≡ nullable
  unfolding keyword_of
  nullable_key h = keyed k "nullable" nullable refl h

  pub named_key : is_named_key k ≡ true → keyword_of k ≡ named_schemas
  unfolding keyword_of
  named_key h = keyed_3 k "properties" "$defs" "definitions" named_schemas refl refl refl h

  pub schema_key : is_schema_key k ≡ true → keyword_of k ≡ schema
  unfolding keyword_of
  schema_key h = keyed_3 k "items" "additionalProperties" "not" schema refl refl refl h

  pub list_key : is_list_key k ≡ true → keyword_of k ≡ schemas
  unfolding keyword_of
  list_key h = keyed_3 k "anyOf" "oneOf" "allOf" schemas refl refl refl h

  pub flag_key : keyword_of k ≡ nullable → (k == "nullable") ≡ true
  unfolding keyword_of
  flag_key h = elim (Bool-cases (k == "nullable")) [
    | inl flag ↦ flag
    | inr no_flag ↦ elim (Bool-cases (is_count_key k)) [
      | inl a ↦ cc (rw (a, keyword_of) at h)
      | inr not_a ↦ elim (Bool-cases (k == "type")) [
        | inl b ↦ cc (rw (not_a, b, keyword_of) at h)
        | inr not_b ↦ elim (Bool-cases (k == "enum")) [
          | inl c ↦ cc (rw (not_a, not_b, c, keyword_of) at h)
          | inr not_c ↦ elim (Bool-cases (is_named_key k)) [
            | inl d ↦ cc (rw (not_a, not_b, not_c, no_flag, d, keyword_of) at h)
            | inr not_d ↦ elim (Bool-cases (is_schema_key k)) [
              | inl f ↦ cc (rw (not_a, not_b, not_c, no_flag, not_d, f, keyword_of) at h)
              | inr not_f ↦ elim (Bool-cases (is_list_key k)) [
                | inl g ↦ cc (rw (not_a, not_b, not_c, no_flag, not_d, not_f, g, keyword_of) at h)
                | inr not_g ↦
                    cc (rw (not_a, not_b, not_c, no_flag, not_d, not_f, not_g, keyword_of) at h)
              ]
            ]
          ]
        ]
      ]
    ]
  ]

  pub not_flag : (kw : Keyword) → keyword_of k ≡ kw → kw ≢ nullable → (k == "nullable") ≡ false
  not_flag kw e differs = elim (Bool-cases (k == "nullable")) [
    | inl flag ↦ absurd (differs (sym e ∙ nullable_key flag))
    | inr no_flag ↦ no_flag
  ]
