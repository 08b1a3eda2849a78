-- ===== src/Tools/Values.antt =====
-- cleanValue, cleanNumber and lookupPointer of internal/provider/backend/toolsynth.go.
use Prim.Native.Char.{code}
use Prim.Native.String.{len}
use zolem.Base.{
  ℕ, ◌+◌, ◌-◌, ◌*◌, ℤ, pos, Bool, true, not, ◌&&◌, ◌||◌, String, ◌==◌, List, [], ◌∷◌, Option, none,
  some, if◌then◌else◌, eqb, ltb, codes, any, split_slash, cut_prefix, is_empty, append_text, zero,
  suc,
}
use zolem.Tools.{
  Json, null, bool, number, text, array, object, Items, nil, item, Fields, end, field, field_of,
}

-- A literal as strconv.ParseFloat reads it: its class against 1e15 and 1e-15, and its canonical form.
pub record Parsed : Type 0 where
  pub finite : Bool
  pub above_max : Bool
  pub zero : Bool
  pub below_min : Bool
  pub canonical : String

-- Packages strconv, math/big and net/url.
pub record Numbers : Type 0 where
  pub parse_float : String → Option Parsed
  pub equal_rationals : String → String → Bool
  pub path_unescape : String → Option String
  pub atoi : String → Option ℤ

abbrev pub max_number_literal : ℕ
max_number_literal = 40

abbrev pub max_value_bytes : ℕ
max_value_bytes = 4096

abbrev pub max_verify_depth : ℕ
max_verify_depth = 32

-- The mantissa, up to an exponent, is all of "+-0.".
unfoldable pub zero_mantissa : List ℕ → Bool
zero_mantissa [] = true
zero_mantissa (c ∷ cs) =
    let rest = zero_mantissa cs in
    if eqb c 0x65 || eqb c 0x45 then true else any (eqb c) (0x2b ∷ 0x2d ∷ 0x30 ∷ 0x2e ∷ []) && rest

module _ (numbers : Numbers) where
  abbrev pub clean_parsed : String → Option Parsed → Option String
  clean_parsed lit none = none
  clean_parsed lit (some f) =
      if not f.finite || f.above_max
      then none
      else if f.zero
      then (if zero_mantissa (codes lit) then some "0" else none)
      else if f.below_min
      then none
      else if not (f.canonical == lit) && not (numbers.equal_rationals lit f.canonical)
      then none
      else some f.canonical

  unfoldable pub clean_number : String → Option String
  unfolding zero_mantissa
  clean_number lit =
      if ltb max_number_literal (len lit) then none else clean_parsed lit (numbers.parse_float lit)

  abbrev pub counted : ℕ → Option String → Option (Json × ℕ)
  counted size none = none
  counted size (some n) = some (number n, size + len n)

  abbrev pub kept_text : String → ℕ → Option (Json × ℕ)
  kept_text s size = if ltb max_value_bytes size then none else some (text s, size)

  abbrev pub is_full : ℕ → ℕ → Bool
  is_full depth size = ltb max_verify_depth depth || ltb max_value_bytes size

  abbrev pub as_array : Option (Items × ℕ) → Option (Json × ℕ)
  as_array none = none
  as_array (some (vs, size)) = some (array vs, size)

  abbrev pub as_object : Option (Fields × ℕ) → Option (Json × ℕ)
  as_object none = none
  as_object (some (m, size)) = some (object m, size)

  abbrev pub then_items : Json → Option (Items × ℕ) → Option (Items × ℕ)
  then_items v none = none
  then_items v (some (vs, size)) = some (item v vs, size)

  abbrev pub then_fields : String → Json → Option (Fields × ℕ) → Option (Fields × ℕ)
  then_fields k v none = none
  then_fields k v (some (m, size)) = some (field k v m, size)

abbrev pub items_length : Items → ℕ
items_length nil = 0
items_length (item v vs) = items_length vs + 1

abbrev pub fields_length : Fields → ℕ
fields_length end = 0
fields_length (field k v m) = fields_length m + 1

module _ (numbers : Numbers) where
  -- The value and the size that it has been charged; the members of an object are taken in the order in
  -- which the map is walked.
  unfoldable mutual
    unfolding clean_number

    pub clean_value : Json → ℕ → ℕ → Option (Json × ℕ)
    clean_value null depth size = if is_full numbers depth size then none else some (null, size + 5)
    clean_value (bool b) depth size =
        if is_full numbers depth size then none else some (bool b, size + 5)
    clean_value (text s) depth size =
        if is_full numbers depth size then none else kept_text numbers s (size + len s + 2)
    clean_value (number n) depth size =
        if is_full numbers depth size then none else counted numbers size (clean_number numbers n)
    clean_value (array vs) depth size =
        let cleaned = clean_items vs (depth + 1) size in
        if is_full numbers depth size
        then none
        else if ltb (max_value_bytes - size) (items_length vs)
        then none
        else as_array numbers cleaned
    clean_value (object m) depth size =
        let cleaned = clean_fields m (depth + 1) size in
        if is_full numbers depth size
        then none
        else if ltb (max_value_bytes - size) (3 * fields_length m)
        then none
        else as_object numbers cleaned

    pub clean_items : Items → ℕ → ℕ → Option (Items × ℕ)
    clean_items nil depth size = some (nil, size)
    clean_items (item v vs) depth size = elim (clean_value v depth size) [
      | none ↦ none
      | some (c, s) ↦ then_items numbers c (clean_items vs depth (s + 1))
    ]

    pub clean_fields : Fields → ℕ → ℕ → Option (Fields × ℕ)
    clean_fields end depth size = some (end, size)
    clean_fields (field k v m) depth size = elim (clean_value v depth (size + len k + 3)) [
      | none ↦ none
      | some (c, s) ↦ then_fields numbers k c (clean_fields m depth s)
    ]

-- strings.ReplaceAll(s, "~" + d, w), where `d` is a code point.
unfoldable pub replace_escape : ℕ → String → String → String
replace_escape d w String.[] = String.[]
replace_escape d w (String.◌∷◌ x String.[]) = String.◌∷◌ x String.[]
replace_escape d w (String.◌∷◌ x (String.◌∷◌ y s)) =
    let here = replace_escape d w s in
    let later = replace_escape d w (String.◌∷◌ y s) in
    if eqb (code x) 0x7e && eqb (code y) d then append_text w here else String.◌∷◌ x later

abbrev pub or_null : Option Json → Json
or_null none = null
or_null (some v) = v

-- c[i], within bounds.
abbrev pub item_at : Items → ℕ → Option Json
item_at nil i = none
item_at (item v vs) zero = some v
item_at (item v vs) (suc i) = item_at vs i

abbrev pub at_index : Items → Option ℤ → Option Json
at_index vs (some (pos i)) = item_at vs i
at_index vs _ = none

module _ (numbers : Numbers) where
  -- One token of a pointer; a key that is missing reads as nil.
  unfoldable pub descend : String → Json → Option Json
  unfolding replace_escape field_of
  descend tok (object m) =
      some (or_null (field_of (replace_escape 0x30 "~" (replace_escape 0x31 "/" tok)) m))
  descend tok (array vs) =
      at_index vs (numbers.atoi (replace_escape 0x30 "~" (replace_escape 0x31 "/" tok)))
  descend tok _ = none

  unfoldable pub walk : List String → Json → Option Json
  unfolding descend
  walk [] cur = some cur
  walk (tok ∷ toks) cur = elim (descend tok cur) [ none ↦ none | some next ↦ walk toks next ]

  abbrev pub fields_of : Option Json → Option Fields
  fields_of (some (object m)) = some m
  fields_of _ = none

  abbrev pub below_root : Json → String → Option String → Option Fields
  below_root root frag (some path) = fields_of (walk (split_slash path) root)
  below_root root frag none = if is_empty frag then fields_of (some root) else none

  abbrev pub in_fragment : Json → Option String → Option Fields
  in_fragment root none = none
  in_fragment root (some frag) = below_root root frag (cut_prefix "/" frag)

  -- The schema that a reference within the document names.
  unfoldable pub lookup_pointer : Json → String → Option Fields
  unfolding cut_prefix split_slash walk
  lookup_pointer root ref = elim (cut_prefix "#" ref) [
    | none ↦ none
    | some rest ↦ in_fragment root (numbers.path_unescape rest)
  ]
