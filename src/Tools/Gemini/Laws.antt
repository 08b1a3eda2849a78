-- ===== src/Tools/Gemini/Laws.antt =====
-- That a normalized schema is in normal form.
use mathlib.Core.Path.{ap₂}
use zolem.Base.{
  eq_iff, ◌≢◌, ℕ, ◌+◌, Bool, true, false, String, ◌==◌, Option, ltb, ◌≡◌, refl, sym, ap, ◌∙◌,
  Bool-cases, Option-cases, inl, inr,
}
use zolem.Tools.{
  Json, null, bool, number, text, array, object, Items, nil, item, Fields, end, field,
}
use zolem.Tools.Gemini.{
  Keyword, count, type_name, enum, nullable, named_schemas, schema, schemas, other, keyword_of,
  is_nullable, max_normalize_depth, count_value, type_value, enum_value, place, normalize_node,
  normalize_fields, normalize_schema, normalize_named, normalize_list, normalize_members,
  normalize_items,
}

-- What strings.ToLower does not do: change what it has made.
abbrev pub IsSettling : (String → String) → Type 0
IsSettling lower = (s : String) → lower (lower s) ≡ lower s

-- A key of another kind is not the flag's.
flag_other :
    (k : String) (kw : Keyword) → keyword_of k ≡ kw → kw ≢ nullable → (k == "nullable") ≡ false
unfolding keyword_of
flag_other k kw e differs = elim (Bool-cases (k == "nullable")) [
  | inr differ ↦ differ
  | inl same ↦ absurd (differs (sym e ∙ ap keyword_of ((eq_iff k "nullable").0 same)))
]

unflagged :
    (k : String) (kw : Keyword) (v : Json) (rest : Fields)
    → keyword_of k ≡ kw
    → kw ≢ nullable
    → is_nullable rest ≡ false
    → is_nullable (field k v rest) ≡ false
unfolding is_nullable
unflagged k kw v rest e differs h = rw (flag_other k kw e differs) h

module _ (lower : String → String) (int_literal : String → Option String) where
  count_value-count_value :
      (v : Json)
      → count_value lower int_literal (count_value lower int_literal v)
        ≡ count_value lower int_literal v
  count_value-count_value (text s) = elim (Option-cases (int_literal s)) [
    | inl bad ↦ rw bad (rw bad refl)
    | inr (n, good) ↦ rw good refl
  ]
  count_value-count_value null = refl
  count_value-count_value (bool b) = refl
  count_value-count_value (number n) = refl
  count_value-count_value (array vs) = refl
  count_value-count_value (object m) = refl

  type_value-type_value :
      (n : Bool) (v : Json)
      → IsSettling lower
      → type_value lower int_literal false (type_value lower int_literal n v)
        ≡ type_value lower int_literal n v
  type_value-type_value true (text s) h = refl
  type_value-type_value false (text s) h = ap text (h s)
  type_value-type_value true null h = refl
  type_value-type_value false null h = refl
  type_value-type_value true (bool b) h = refl
  type_value-type_value false (bool b) h = refl
  type_value-type_value true (number m) h = refl
  type_value-type_value false (number m) h = refl
  type_value-type_value true (array vs) h = refl
  type_value-type_value false (array vs) h = refl
  type_value-type_value true (object m) h = refl
  type_value-type_value false (object m) h = refl

  enum_value-enum_value :
      (n : Bool) (v : Json)
      → enum_value lower int_literal false (enum_value lower int_literal n v)
        ≡ enum_value lower int_literal n v
  enum_value-enum_value n v = refl

  nullable-place :
      (kw : Keyword) (k : String) (n : Bool) (v s d l : Json) (rest : Fields)
      → keyword_of k ≡ kw
      → is_nullable rest ≡ false
      → is_nullable (place lower int_literal kw n k v s d l rest) ≡ false
  nullable-place nullable k n v s d l rest e h = h
  nullable-place count k n v s d l rest e h = unflagged k count _ rest e (λ p. cc) h
  nullable-place type_name k n v s d l rest e h = unflagged k type_name _ rest e (λ p. cc) h
  nullable-place enum k n v s d l rest e h = unflagged k enum _ rest e (λ p. cc) h
  nullable-place named_schemas k n v s d l rest e h = unflagged k named_schemas _ rest e (λ p. cc) h
  nullable-place schema k n v s d l rest e h = unflagged k schema _ rest e (λ p. cc) h
  nullable-place schemas k n v s d l rest e h = unflagged k schemas _ rest e (λ p. cc) h
  nullable-place other k n v s d l rest e h = unflagged k other _ rest e (λ p. cc) h

  -- The pass drops the flag.
  nullable-normalize_fields :
      (depth : ℕ) (n : Bool) (m : Fields)
      → is_nullable (normalize_fields lower int_literal depth n m) ≡ false
  unfolding normalize_fields is_nullable
  nullable-normalize_fields depth n end = refl
  nullable-normalize_fields depth n (field k v fs) =
      nullable-place (keyword_of k) k n v _ _ _ _ refl (nullable-normalize_fields depth n fs)

  -- A second pass over a member of one kind.
  twice-place :
      (kw : Keyword) (k : String) (n : Bool) (v s d l : Json) (rest : Fields) (depth : ℕ)
      → keyword_of k ≡ kw
      → IsSettling lower
      → normalize_schema lower int_literal (depth + 1) s ≡ s
      → normalize_named lower int_literal (depth + 1) d ≡ d
      → normalize_list lower int_literal (depth + 1) l ≡ l
      → normalize_fields lower int_literal depth false rest ≡ rest
      → normalize_fields lower int_literal depth false (place lower int_literal kw n k v s d l rest)
        ≡ place lower int_literal kw n k v s d l rest
  unfolding normalize_fields
  twice-place nullable k n v s d l rest depth e h es ed el er = er
  twice-place count k n v s d l rest depth e h es ed el er =
      rw (e, er) (ap (λ u. field k u rest) (count_value-count_value v))
  twice-place type_name k n v s d l rest depth e h es ed el er =
      rw (e, er) (ap (λ u. field k u rest) (type_value-type_value n v h))
  twice-place enum k n v s d l rest depth e h es ed el er =
      rw (e, er) (ap (λ u. field k u rest) (enum_value-enum_value n v))
  twice-place named_schemas k n v s d l rest depth e h es ed el er =
      rw (e, er) (ap (λ u. field k u rest) ed)
  twice-place schema k n v s d l rest depth e h es ed el er =
      rw (e, er) (ap (λ u. field k u rest) es)
  twice-place schemas k n v s d l rest depth e h es ed el er =
      rw (e, er) (ap (λ u. field k u rest) el)
  twice-place other k n v s d l rest depth e h es ed el er = rw (e, er) refl

  -- A second pass over a node, where one over its members changes nothing.
  twice-within :
      (depth : ℕ) (m : Fields)
      → normalize_fields lower int_literal depth false
          (normalize_fields lower int_literal depth (is_nullable m) m)
        ≡ normalize_fields lower int_literal depth (is_nullable m) m
      → normalize_node lower int_literal depth (normalize_node lower int_literal depth m)
        ≡ normalize_node lower int_literal depth m
  unfolding normalize_node
  twice-within depth m h = elim (Bool-cases (ltb max_normalize_depth depth)) [
    | inl deep ↦ rw deep refl
    | inr near ↦ rw (near, nullable-normalize_fields depth (is_nullable m) m) h
  ]

  module _ (settling : IsSettling lower) where
    mutual
      unfolding normalize_fields normalize_node

      normalize_fields-normalize_fields :
          (depth : ℕ) (n : Bool) (m : Fields)
          → normalize_fields lower int_literal depth false
              (normalize_fields lower int_literal depth n m)
            ≡ normalize_fields lower int_literal depth n m
      normalize_fields-normalize_fields depth n end = refl
      normalize_fields-normalize_fields depth n (field k v fs) =
          twice-place (keyword_of k) k n v _ _ _ _ depth refl settling
            (normalize_schema-normalize_schema (depth + 1) v)
            (normalize_named-normalize_named (depth + 1) v)
            (normalize_list-normalize_list (depth + 1) v)
            (normalize_fields-normalize_fields depth n fs)

      normalize_schema-normalize_schema :
          (depth : ℕ) (v : Json)
          → normalize_schema lower int_literal depth (normalize_schema lower int_literal depth v)
            ≡ normalize_schema lower int_literal depth v
      normalize_schema-normalize_schema depth (object m) =
          ap object
            (twice-within depth m (normalize_fields-normalize_fields depth (is_nullable m) m))
      normalize_schema-normalize_schema depth null = refl
      normalize_schema-normalize_schema depth (bool b) = refl
      normalize_schema-normalize_schema depth (number s) = refl
      normalize_schema-normalize_schema depth (text s) = refl
      normalize_schema-normalize_schema depth (array vs) = refl

      normalize_named-normalize_named :
          (depth : ℕ) (v : Json)
          → normalize_named lower int_literal depth (normalize_named lower int_literal depth v)
            ≡ normalize_named lower int_literal depth v
      normalize_named-normalize_named depth (object m) =
          ap object (normalize_members-normalize_members depth m)
      normalize_named-normalize_named depth null = refl
      normalize_named-normalize_named depth (bool b) = refl
      normalize_named-normalize_named depth (number s) = refl
      normalize_named-normalize_named depth (text s) = refl
      normalize_named-normalize_named depth (array vs) = refl

      normalize_list-normalize_list :
          (depth : ℕ) (v : Json)
          → normalize_list lower int_literal depth (normalize_list lower int_literal depth v)
            ≡ normalize_list lower int_literal depth v
      normalize_list-normalize_list depth (array vs) =
          ap array (normalize_items-normalize_items depth vs)
      normalize_list-normalize_list depth null = refl
      normalize_list-normalize_list depth (bool b) = refl
      normalize_list-normalize_list depth (number s) = refl
      normalize_list-normalize_list depth (text s) = refl
      normalize_list-normalize_list depth (object m) = refl

      normalize_members-normalize_members :
          (depth : ℕ) (m : Fields)
          → normalize_members lower int_literal depth (normalize_members lower int_literal depth m)
            ≡ normalize_members lower int_literal depth m
      normalize_members-normalize_members depth end = refl
      normalize_members-normalize_members depth (field k v fs) =
          ap₂ (field k) (normalize_schema-normalize_schema depth v)
            (normalize_members-normalize_members depth fs)

      normalize_items-normalize_items :
          (depth : ℕ) (vs : Items)
          → normalize_items lower int_literal depth (normalize_items lower int_literal depth vs)
            ≡ normalize_items lower int_literal depth vs
      normalize_items-normalize_items depth nil = refl
      normalize_items-normalize_items depth (item v vs) =
          ap₂ item (normalize_schema-normalize_schema depth v)
            (normalize_items-normalize_items depth vs)

    pub normalize_node-normalize_node :
        (depth : ℕ) (m : Fields)
        → normalize_node lower int_literal depth (normalize_node lower int_literal depth m)
          ≡ normalize_node lower int_literal depth m
    normalize_node-normalize_node depth m =
        twice-within depth m (normalize_fields-normalize_fields depth (is_nullable m) m)
