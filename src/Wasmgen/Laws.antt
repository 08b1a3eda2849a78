-- ===== src/Wasmgen/Laws.antt =====
-- What a module that passes imports and exports.
use zolem.Base.{
  ℕ, ◌%◌, ◌^◌, List, [], ◌∷◌, Option, none, some, eqb, eqb_iff, lookup, nat_eq, Entries, Result, ok,
  err, ◌≡◌, refl, sym, ◌∙◌, ap, ◌⊎◌, inl, inr, arith, Bool-cases, Option-cases,
}
use zolem.Wasmgen.Leb.{leb, read_u32-leb}
use zolem.Wasmgen.{
  bytes_eq, WasmError, check_import_count, read_u32, parse_sections, parse_exports,
  required_exports, allowed_boundary_exports, check_required, check_extra, check_extras,
  first_error, check_imports, check_sections, check_exports, validate_import_export_surface,
}

check_required-lookup :
    (exports required : List (List ℕ × ℕ))
    → check_required exports required ≡ none
    → Entries (λ name kind. lookup name exports ≡ some kind) required
unfolding check_required lookup
check_required-lookup exports [] h = tt
check_required-lookup exports ((name, want) ∷ rest) h = elim (Option-cases (lookup name exports)) [
  | inl gone ↦ cc
  | inr (got, there) ↦ elim (Bool-cases (eqb got want)) [
    | inl same_kind ↦ (
      there ∙ ap some ((eqb_iff got want).0 same_kind),
      check_required-lookup exports rest (rw same_kind at (rw there at h)),
    )
    | inr other ↦ cc
  ]
]

-- An export that is neither required nor of a boundary's kind is refused.
abbrev Allowed : List ℕ → ℕ → Type 0
Allowed name kind =
    ((want : ℕ) × (lookup name required_exports ≡ some want))
    ⊎ (lookup name allowed_boundary_exports ≡ some kind)

check_extra-Allowed : (name : List ℕ) (kind : ℕ) → check_extra name kind ≡ none → Allowed name kind
check_extra-Allowed name kind h = elim (Option-cases (lookup name required_exports)) [
  | inr (want, there) ↦ inl (want, there)
  | inl extra ↦ elim (Option-cases (lookup name allowed_boundary_exports)) [
    | inl unknown ↦ cc
    | inr (allowed, there) ↦ elim (Bool-cases (eqb kind allowed)) [
      | inl same_kind ↦ inr (there ∙ ap some (sym ((eqb_iff kind allowed).0 same_kind)))
      | inr other ↦ cc
    ]
  ]
]

check_extras-Allowed :
    (exports : List (List ℕ × ℕ)) → check_extras exports ≡ none → Entries Allowed exports
unfolding check_extras lookup
check_extras-Allowed [] h = tt
check_extras-Allowed ((name, kind) ∷ rest) h = elim (Option-cases (check_extra name kind)) [
  | inl passed ↦ (check_extra-Allowed name kind passed, check_extras-Allowed rest (rw passed at h))
  | inr (e, refused) ↦ cc
]

-- What passes: the number of imports, as LEB128, is a multiple of 2 ^ 32, every required export is
-- there with its kind, and every other export is a boundary's with its kind.
pub record IsSurface (b : List ℕ) : Type 0 where
  pub sections : List (ℕ × List ℕ)
  pub exports : List (List ℕ × ℕ)
  pub parsed : parse_sections b ≡ ok sections
  pub exported : parse_exports (lookup 7 sections) ≡ ok exports
  pub no_import :
      (lookup 2 sections ≡ none)
      ⊎ ((body : List ℕ) × (count : ℕ) × (n : ℕ) × (lookup 2 sections ≡ some body)
          × (leb body ≡ some (count, n))
          × (count % 2 ^ 32 ≡ 0))
  pub all_there : Entries (λ name kind. lookup name exports ≡ some kind) required_exports
  pub no_other : Entries Allowed exports

first_error-none : (x y : Option WasmError) → first_error x y ≡ none → (x ≡ none) × (y ≡ none)
first_error-none none y h = (refl, h)
first_error-none (some e) y h = absurd (cc)

check_imports-none :
    (o : Option (List ℕ))
    → check_imports o ≡ none
    → (o ≡ none)
      ⊎ ((body : List ℕ) × (count : ℕ) × (n : ℕ) × (o ≡ some body)
          × (leb body ≡ some (count, n))
          × (count % 2 ^ 32 ≡ 0))
check_imports-none none h = inl refl
check_imports-none (some body) h = of (read_u32 body 0) refl h
  where
    of :
        (r : Result WasmError (ℕ × ℕ))
        → read_u32 body 0 ≡ r
        → check_import_count r ≡ none
        → (some body ≡ none)
          ⊎ ((x : List ℕ) × (number : ℕ) × (n : ℕ) × (some body ≡ some x)
              × (leb x ≡ some (number, n))
              × (number % 2 ^ 32 ≡ 0))
    of (err e) p h = absurd (cc)
    of (ok (count, n)) p h = elim (Bool-cases (eqb count 0)) [
      | inl zero_count ↦
          let (number, read, low) = read_u32-leb body count n p in
          inr (body, number, n, refl, read, sym low ∙ (eqb_iff count 0).0 zero_count)
      | inr imported ↦ absurd (ground (arith, h, imported))
    ]

-- A module that passes has no import section, or one whose count, read as a LEB128 number of any
-- size, is a multiple of 2^32, so none where it is below that; it exports what is required with
-- its kinds, and beside it only boundary globals with theirs.
pub validate_import_export_surface-IsSurface :
    (b : List ℕ) → validate_import_export_surface b ≡ none → IsSurface b
unfolding validate_import_export_surface
validate_import_export_surface-IsSurface b h = of (parse_sections b) refl h
  where
    from :
        (sections : List (ℕ × List ℕ)) (r : Result WasmError (List (List ℕ × ℕ)))
        → parse_sections b ≡ ok sections
        → parse_exports (lookup 7 sections) ≡ r
        → check_imports (lookup 2 sections) ≡ none
        → check_exports r ≡ none
        → IsSurface b
    from sections (err e) p q i h = absurd (cc)
    from sections (ok exports) p q i h =
        let (required, extra) =
          first_error-none (check_required exports required_exports) (check_extras exports) h in
        record {
          sections = sections;
          exports = exports;
          parsed = p;
          exported = q;
          no_import = check_imports-none (lookup 2 sections) i;
          all_there = check_required-lookup exports required_exports required;
          no_other = check_extras-Allowed exports extra;
        }

    of :
        (r : Result WasmError (List (ℕ × List ℕ)))
        → parse_sections b ≡ r
        → check_sections r ≡ none
        → IsSurface b
    of (err e) p h = absurd (cc)
    of (ok sections) p h =
        let (i, x) =
          first_error-none (check_imports (lookup 2 sections))
            (check_exports (parse_exports (lookup 7 sections))) h in
        from sections (parse_exports (lookup 7 sections)) p refl i x
