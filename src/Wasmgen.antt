-- ===== src/Wasmgen.antt =====
-- internal/wasmgen/validate.go: the imports and exports of a WASM module, read from its bytes.
pub mod Bounds
pub mod Ends
pub mod Laws
pub mod Leb
pub mod Tests
use zolem.Base.{
  ℕ, zero, suc, ◌+◌, ◌-◌, ◌*◌, ◌%◌, ◌^◌, Bool, true, false, not, ◌&&◌, ◌||◌, leb, List, [], ◌∷◌,
  Option, none, some, if◌then◌else◌, ltb, eqb, length, get_elem?, take, drop, lookup, insert,
  nat_eq, Eq, codes, same, Result, ok, err,
}
use zolem.Runtime.Namespace.Laws.{same_iff}

-- Names are bytes.
instance abbrev pub bytes_eq : Eq (List ℕ)
bytes_eq = record { beq = same; beq_iff = same_iff }

-- The errors, of which a wrapping one stands for itself. `panics` is an index out of range and
-- `out_of_fuel` a loop that goes on; neither is an error of the source.
pub data WasmError : Type 0 where
  leb_end leb_overflow magic version section_size past_module duplicate_section : WasmError
  import_count imports no_exports export_count export_name no_kind export_index trailing : WasmError
  missing wrong_kind unsupported wrong_boundary_kind : WasmError
  panics out_of_fuel : WasmError

abbrev pub is_fault : WasmError → Bool
is_fault panics = true
is_fault out_of_fuel = true
is_fault _ = false

-- fmt.Errorf with an error inside; a panic is no error and goes on.
unfoldable pub wrapped : WasmError → WasmError → WasmError
wrapped own e = if is_fault e then e else own

-- The rounds of readU32 from the i-th, with `fuel` of the five left. The bits that a round adds are
-- above those before it, so `|` is a sum; a shift drops what leaves the 32 bits.
unfoldable pub read_loop : ℕ → ℕ → ℕ → List ℕ → ℕ → Result WasmError (ℕ × ℕ)
read_loop zero i result b off = err leb_overflow
read_loop (suc fuel) i result b off = elim (get_elem? b (off + i)) [
  | none ↦ err leb_end
  | some c ↦
      let result' = result + ((c % 128) * 2 ^ (7 * i)) % 2 ^ 32 in
      let later = read_loop fuel (i + 1) result' b off in
      if ltb c 128 then ok (result', i + 1) else later
]

-- The value and how many bytes it takes; a byte is below 256.
unfoldable pub read_u32 : List ℕ → ℕ → Result WasmError (ℕ × ℕ)
unfolding read_loop
read_u32 b off = read_loop 5 0 0 b off

-- b[start:end], where `none` is a panic. Bytes between the length and the capacity are none that the
-- source may read, and count as a panic too.
unfoldable pub slice : ℕ → ℕ → List ℕ → Option (List ℕ)
slice start end_ b =
    if leb start end_ && leb end_ (length b)
    then some (take (end_ - start) (drop start b))
    else none

unfoldable pub read_name : List ℕ → ℕ → Result WasmError (List ℕ × ℕ)
unfolding read_u32 slice
read_name b off = elim (read_u32 b off) [
  | err e ↦ err e
  | ok (l, n) ↦
      let start = off + n in
      if ltb (start + l) start || ltb (length b) (start + l)
      then err export_name
      else elim (slice start (start + l) b) [ none ↦ err panics | some name ↦ ok (name, n + l) ]
]

-- The section after its id, from the result of reading its size at `off`.
abbrev pub section_body :
    List ℕ → ℕ → ℕ → Result WasmError (ℕ × ℕ) → Result WasmError (ℕ × List ℕ × ℕ)
section_body b off id (err e) = err (wrapped section_size e)
section_body b off id (ok (size, n)) =
    let start = off + n in
    if ltb (start + size) start || ltb (length b) (start + size)
    then err past_module
    else elim (slice start (start + size) b) [
      | none ↦ err panics
      | some body ↦ ok (id, body, start + size)
    ]

-- The section at an offset: its id, its bytes and the offset after it.
unfoldable pub section_at : List ℕ → ℕ → Result WasmError (ℕ × List ℕ × ℕ)
section_at b off = elim (get_elem? b off) [
  | none ↦ err panics
  | some id ↦ section_body b (off + 1) id (read_u32 b (off + 1))
]

-- The sections once one more is read, with the offset after it; custom ones, of id 0, are passed
-- over.
abbrev pub add_section :
    Result WasmError (ℕ × List ℕ × ℕ) → List (ℕ × List ℕ) → Result WasmError (ℕ × List (ℕ × List ℕ))
add_section (err e) sections = err e
add_section (ok (id, body, next)) sections =
    if eqb id 0 then ok (next, sections) else elim (lookup id sections) [
      | some other ↦ err duplicate_section
      | none ↦ ok (next, insert id body sections)
    ]

-- The rest of the loop.
unfoldable pub sections_from :
    ℕ → List ℕ → ℕ → List (ℕ × List ℕ) → Result WasmError (List (ℕ × List ℕ))
sections_from zero b off sections = err out_of_fuel
sections_from (suc fuel) b off sections =
    if not (ltb off (length b))
    then ok sections
    else elim (add_section (section_at b off) sections) [
      | err e ↦ err e
      | ok (next, more) ↦ sections_from fuel b next more
    ]

-- Every section takes two bytes or more, so the length of the module is fuel enough.
unfoldable pub parse_sections : List ℕ → Result WasmError (List (ℕ × List ℕ))
unfolding sections_from slice
parse_sections b = if ltb (length b) 8 then err magic else elim (slice 0 4 b) [
  | none ↦ err panics
  | some start ↦
      if not (same start (0x00 ∷ 0x61 ∷ 0x73 ∷ 0x6d ∷ [])) then err magic else elim (slice 4 8 b) [
        | none ↦ err panics
        | some number ↦
            if not (same number (0x01 ∷ 0x00 ∷ 0x00 ∷ 0x00 ∷ []))
            then err version
            else sections_from (length b) b 8 []
      ]
]

-- One export: its name, its kind and the offset after it.
unfoldable pub export_at : List ℕ → ℕ → Result WasmError (List ℕ × ℕ × ℕ)
unfolding read_name wrapped
export_at section off = elim (read_name section off) [
  | err e ↦ err (wrapped export_name e)
  | ok (name, consumed) ↦ elim (get_elem? section (off + consumed)) [
    | none ↦ err no_kind
    | some kind ↦ elim (read_u32 section (off + consumed + 1)) [
      | err e ↦ err (wrapped export_index e)
      | ok (index, n) ↦ ok (name, kind, off + consumed + 1 + n)
    ]
  ]
]

unfoldable pub exports_from :
    ℕ → List ℕ → ℕ → List (List ℕ × ℕ) → Result WasmError (List (List ℕ × ℕ))
exports_from zero section off exports =
    if eqb off (length section) then ok exports else err trailing
exports_from (suc count) section off exports = elim (export_at section off) [
  | err e ↦ err e
  | ok (name, kind, next) ↦ exports_from count section next (insert name kind exports)
]

unfoldable pub parse_exports : Option (List ℕ) → Result WasmError (List (List ℕ × ℕ))
unfolding exports_from
parse_exports none = err no_exports
parse_exports (some section) = elim (read_u32 section 0) [
  | err e ↦ err (wrapped export_count e)
  | ok (count, n) ↦ exports_from count section n []
]

abbrev pub required_exports : List (List ℕ × ℕ)
required_exports =
    (codes "alloc", 0)
    ∷ (codes "dealloc", 0)
    ∷ (codes "generate", 0)
    ∷ (codes "result_ptr", 0)
    ∷ (codes "result_len", 0)
    ∷ (codes "result_free", 0)
    ∷ (codes "memory", 2)
    ∷ []

abbrev pub allowed_boundary_exports : List (List ℕ × ℕ)
allowed_boundary_exports = (codes "__data_end", 3) ∷ (codes "__heap_base", 3) ∷ []

-- A required export against what is found, before the rest.
abbrev pub check_kind : Option ℕ → ℕ → Option WasmError → Option WasmError
check_kind none want later = some missing
check_kind (some got) want later = if not (eqb got want) then some wrong_kind else later

-- The loop over the required exports; none is no error. The order of a map is any.
unfoldable pub check_required : List (List ℕ × ℕ) → List (List ℕ × ℕ) → Option WasmError
check_required exports [] = none
check_required exports ((name, want) ∷ rest) =
    let later = check_required exports rest in check_kind (lookup name exports) want later

-- The first error of two checks.
abbrev pub first_error : Option WasmError → Option WasmError → Option WasmError
first_error none later = later
first_error (some e) later = some e

abbrev pub check_extra : List ℕ → ℕ → Option WasmError
check_extra name kind = elim (lookup name required_exports) [
  | some want ↦ none
  | none ↦ elim (lookup name allowed_boundary_exports) [
    | none ↦ some unsupported
    | some allowed ↦ if not (eqb kind allowed) then some wrong_boundary_kind else none
  ]
]

-- The loop over the exports.
unfoldable pub check_extras : List (List ℕ × ℕ) → Option WasmError
check_extras [] = none
check_extras ((name, kind) ∷ rest) =
    let later = check_extras rest in first_error (check_extra name kind) later

abbrev pub check_import_count : Result WasmError (ℕ × ℕ) → Option WasmError
check_import_count (err e) = some (wrapped import_count e)
check_import_count (ok (count, n)) = if not (eqb count 0) then some imports else none

abbrev pub check_imports : Option (List ℕ) → Option WasmError
check_imports none = none
check_imports (some section) = check_import_count (read_u32 section 0)

abbrev pub check_exports : Result WasmError (List (List ℕ × ℕ)) → Option WasmError
check_exports (err e) = some e
check_exports (ok exports) =
    first_error (check_required exports required_exports) (check_extras exports)

-- The checks on the sections.
abbrev pub check_sections : Result WasmError (List (ℕ × List ℕ)) → Option WasmError
check_sections (err e) = some e
check_sections (ok sections) =
    first_error (check_imports (lookup 2 sections))
      (check_exports (parse_exports (lookup 7 sections)))

unfoldable pub validate_import_export_surface : List ℕ → Option WasmError
unfolding parse_sections parse_exports check_required check_extras
validate_import_export_surface b = check_sections (parse_sections b)
