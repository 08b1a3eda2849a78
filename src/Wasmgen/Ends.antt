-- ===== src/Wasmgen/Ends.antt =====
-- That the checks of a module end and read no byte that is not there.
use zolem.Base.{
  ℕ, zero, suc, ◌+◌, false, ◌||◌, List, [], ◌∷◌, Option, none, some, ltb, eqb, length, get_elem?,
  lookup, insert, nat_eq, if◌then◌else◌, Result, ok, err, ◌≡◌, refl, subst, ◌≢◌, inl, inr, arith,
  Bool-cases, Option-cases,
}
use zolem.Wasmgen.{
  bytes_eq, is_fault, wrapped, slice, WasmError, panics, out_of_fuel, export_name, no_kind,
  export_index, export_count, import_count, check_import_count, read_u32, read_name, parse_sections,
  export_at, exports_from, parse_exports, required_exports, allowed_boundary_exports, check_kind,
  check_required, check_extra, check_extras, first_error, check_imports, check_sections,
  check_exports, validate_import_export_surface,
}
use zolem.Wasmgen.Bounds.{
  IsProper, wrapped-IsProper, slice-some, read_u32-IsProper, parse_sections-IsProper,
}

read_name-IsProper : (b : List ℕ) (off : ℕ) → IsProper (read_name b off)
unfolding read_name
read_name-IsProper b off = at (read_u32 b off) (read_u32-IsProper b off)
  where
    at :
        (r : Result WasmError (ℕ × ℕ))
        → IsProper r
        → IsProper (elim r as (λ _. Result WasmError (List ℕ × ℕ)) [
          | err e ↦ err e
          | ok (l, n) ↦
              let start = off + n in
              if ltb (start + l) start || ltb (length b) (start + l)
              then err export_name
              else elim (slice start (start + l) b) [
                | none ↦ err panics
                | some name ↦ ok (name, n + l)
              ]
        ])
    at (err e) h = h
    at (ok (l, n)) h =
        let start = off + n in
        elim (Bool-cases (ltb (start + l) start || ltb (length b) (start + l))) [
          | inl past ↦ rw past refl
          | inr inside ↦
              let fits = slice-some start (start + l) b (omega arith) (ground (arith, inside)) in
              rw (inside, fits) tt
        ]

export_at-IsProper : (section : List ℕ) (off : ℕ) → IsProper (export_at section off)
unfolding export_at
export_at-IsProper section off = at (read_name section off) (read_name-IsProper section off)
  where
    index :
        (name : List ℕ) (kind next : ℕ) (r : Result WasmError (ℕ × ℕ))
        → IsProper r
        → IsProper (elim r as (λ _. Result WasmError (List ℕ × ℕ × ℕ)) [
          | err e ↦ err (wrapped export_index e)
          | ok (i, n) ↦ ok (name, kind, next + n)
        ])
    index name kind next (err e) h = wrapped-IsProper export_index e refl h
    index name kind next (ok (i, n)) h = tt

    at :
        (r : Result WasmError (List ℕ × ℕ))
        → IsProper r
        → IsProper (elim r as (λ _. Result WasmError (List ℕ × ℕ × ℕ)) [
          | err e ↦ err (wrapped export_name e)
          | ok (name, consumed) ↦ elim (get_elem? section (off + consumed)) [
            | none ↦ err no_kind
            | some kind ↦ elim (read_u32 section (off + consumed + 1)) [
              | err e ↦ err (wrapped export_index e)
              | ok (i, n) ↦ ok (name, kind, off + consumed + 1 + n)
            ]
          ]
        ])
    at (err e) h = wrapped-IsProper export_name e refl h
    at (ok (name, consumed)) h = elim (Option-cases (get_elem? section (off + consumed))) [
      | inl gone ↦ rw gone refl
      | inr (kind, there) ↦ rw there (
          index name kind (off + consumed + 1) (read_u32 section (off + consumed + 1))
            (read_u32-IsProper section (off + consumed + 1)))
    ]

exports_from-IsProper :
    (count : ℕ) (section : List ℕ) (off : ℕ) (exports : List (List ℕ × ℕ))
    → IsProper (exports_from count section off exports)
unfolding exports_from
exports_from-IsProper zero section off exports = elim (Bool-cases (eqb off (length section))) [
  | inl end_ ↦ rw end_ tt
  | inr more ↦ rw more refl
]
exports_from-IsProper (suc count) section off exports =
    at (export_at section off) (export_at-IsProper section off)
      (λ name kind next. exports_from-IsProper count section next (insert name kind exports))
  where
    at :
        (r : Result WasmError (List ℕ × ℕ × ℕ))
        → IsProper r
        → ((name : List ℕ) (kind next : ℕ)
            → IsProper (exports_from count section next (insert name kind exports)))
        → IsProper (elim r as (λ _. Result WasmError (List (List ℕ × ℕ))) [
          | err e ↦ err e
          | ok (name, kind, next) ↦ exports_from count section next (insert name kind exports)
        ])
    at (err e) h later = h
    at (ok (name, kind, next)) h later = later name kind next

parse_exports-IsProper : (o : Option (List ℕ)) → IsProper (parse_exports o)
unfolding parse_exports
parse_exports-IsProper none = refl
parse_exports-IsProper (some section) = at (read_u32 section 0) (read_u32-IsProper section 0)
  where
    at :
        (r : Result WasmError (ℕ × ℕ))
        → IsProper r
        → IsProper (elim r as (λ _. Result WasmError (List (List ℕ × ℕ))) [
          | err e ↦ err (wrapped export_count e)
          | ok (count, n) ↦ exports_from count section n []
        ])
    at (err e) h = wrapped-IsProper export_count e refl h
    at (ok (count, n)) h = exports_from-IsProper count section n []

abbrev IsSound : Option WasmError → Type 0
IsSound none = Unit
IsSound (some e) = is_fault e ≡ false

first_error-IsSound : (x y : Option WasmError) → IsSound x → IsSound y → IsSound (first_error x y)
first_error-IsSound none y h k = k
first_error-IsSound (some e) y h k = h

check_required-IsSound :
    (exports required : List (List ℕ × ℕ)) → IsSound (check_required exports required)
unfolding check_required
check_required-IsSound exports [] = tt
check_required-IsSound exports ((name, want) ∷ rest) =
    at (lookup name exports) (check_required-IsSound exports rest)
  where
    at :
        (o : Option ℕ)
        → IsSound (check_required exports rest)
        → IsSound (check_kind o want (check_required exports rest))
    at none h = refl
    at (some got) h = elim (Bool-cases (eqb got want)) [
      | inl same_kind ↦ rw same_kind h
      | inr other ↦ rw other refl
    ]

check_extra-IsSound : (name : List ℕ) (kind : ℕ) → IsSound (check_extra name kind)
unfolding lookup
check_extra-IsSound name kind = elim (Option-cases (lookup name required_exports)) [
  | inr (want, there) ↦ rw there tt
  | inl extra ↦ elim (Option-cases (lookup name allowed_boundary_exports)) [
    | inl unknown ↦ rw (extra, unknown) refl
    | inr (allowed, there) ↦ elim (Bool-cases (eqb kind allowed)) [
      | inl same_kind ↦ rw (extra, there, same_kind) tt
      | inr other ↦ rw (extra, there, other) refl
    ]
  ]
]

check_extras-IsSound : (exports : List (List ℕ × ℕ)) → IsSound (check_extras exports)
unfolding check_extras
check_extras-IsSound [] = tt
check_extras-IsSound ((name, kind) ∷ rest) =
    first_error-IsSound (check_extra name kind) (check_extras rest) (check_extra-IsSound name kind)
      (check_extras-IsSound rest)

check_imports-IsSound : (o : Option (List ℕ)) → IsSound (check_imports o)
check_imports-IsSound none = tt
check_imports-IsSound (some section) = at (read_u32 section 0) (read_u32-IsProper section 0)
  where
    at : (r : Result WasmError (ℕ × ℕ)) → IsProper r → IsSound (check_import_count r)
    at (err e) h = wrapped-IsProper import_count e refl h
    at (ok (count, n)) h = elim (Bool-cases (eqb count 0)) [
      | inl empty ↦ rw empty tt
      | inr some_ ↦ rw some_ refl
    ]

check_exports-IsSound :
    (r : Result WasmError (List (List ℕ × ℕ))) → IsProper r → IsSound (check_exports r)
check_exports-IsSound (err e) h = h
check_exports-IsSound (ok exports) h =
    first_error-IsSound (check_required exports required_exports) (check_extras exports)
      (check_required-IsSound exports required_exports) (check_extras-IsSound exports)

check_sections-IsSound :
    (r : Result WasmError (List (ℕ × List ℕ))) → IsProper r → IsSound (check_sections r)
check_sections-IsSound (err e) h = h
check_sections-IsSound (ok sections) h =
    first_error-IsSound (check_imports (lookup 2 sections))
      (check_exports (parse_exports (lookup 7 sections)))
      (check_imports-IsSound (lookup 2 sections))
      (check_exports-IsSound (parse_exports (lookup 7 sections))
        (parse_exports-IsProper (lookup 7 sections)))

-- The checks of any bytes as a module end, and neither index nor slice what is not there: they
-- never panic.
pub validate_import_export_surface-ends :
    (b : List ℕ)
    → (validate_import_export_surface b ≢ some panics)
      × (validate_import_export_surface b ≢ some out_of_fuel)
unfolding validate_import_export_surface
validate_import_export_surface-ends b =
    let sound = check_sections-IsSound (parse_sections b) (parse_sections-IsProper b) in
    (λ e. cc (subst IsSound e sound), λ e. cc (subst IsSound e sound))
