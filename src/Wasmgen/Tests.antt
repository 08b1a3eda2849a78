-- ===== src/Wasmgen/Tests.antt =====
-- Tests and witnesses of the module checks.
use zolem.Base.{
  ◌+◌, ℕ, List, [], ◌∷◌, ◌++◌, ◌≢◌, some, take, drop, none, ok, lookup, insert, codes, length, ◌≡◌,
  refl,
}
use zolem.Wasmgen.{
  section_at, export_at, panics, out_of_fuel, export_name, read_u32, validate_import_export_surface,
}
use zolem.Wasmgen.Ends.{validate_import_export_surface-ends}
use zolem.Wasmgen.Laws.{IsSurface, validate_import_export_surface-IsSurface}

-- One export: its name, its kind and index 0.
abbrev export : List ℕ → ℕ → List ℕ
export name kind = length name ∷ (name ++ (kind ∷ 0 ∷ []))

abbrev exports : List ℕ
exports =
    export (codes "alloc") 0
    ++ (export (codes "dealloc") 0
        ++ (export (codes "generate") 0
            ++ (export (codes "result_ptr") 0
                ++ (export (codes "result_len") 0
                    ++ (export (codes "result_free") 0
                        ++ (export (codes "memory") 2 ++ export (codes "__heap_base") 3))))))

-- A module of an export section alone.
abbrev module_of : ℕ → List ℕ → List ℕ
module_of count body =
    0x00 ∷ 0x61 ∷ 0x73 ∷ 0x6d ∷ 0x01 ∷ 0x00 ∷ 0x00 ∷ 0x00 ∷ 7 ∷ (length body + 1) ∷ count ∷ body

generator_passes : validate_import_export_surface (module_of 8 exports) ≡ none
unfolding validate_import_export_surface lookup insert section_at read_u32 export_at
generator_passes = refl

validate_import_export_surface-IsSurface_example : IsSurface (module_of 8 exports)
validate_import_export_surface-IsSurface_example =
    validate_import_export_surface-IsSurface (module_of 8 exports) generator_passes

validate_import_export_surface-ends_example :
    (validate_import_export_surface (module_of 8 exports) ≢ some panics)
    × (validate_import_export_surface (module_of 8 exports) ≢ some out_of_fuel)
validate_import_export_surface-ends_example =
    validate_import_export_surface-ends (module_of 8 exports)

-- A name that says it is longer than its section.
name_past_end : validate_import_export_surface (module_of 1 (9 ∷ [])) ≡ some export_name
unfolding validate_import_export_surface lookup insert section_at read_u32 export_at
name_past_end = refl

-- The fifth byte's bits above the 32nd are dropped: 2 ^ 32 is read as 0.
read_u32_wraps : read_u32 (0x80 ∷ 0x80 ∷ 0x80 ∷ 0x80 ∷ 0x10 ∷ []) 0 ≡ ok (0, 5)
unfolding read_u32
read_u32_wraps = refl

-- A module that says it has 2 ^ 32 imports passes.
imports_pass :
    validate_import_export_surface (
      take 8 (module_of 8 exports)
      ++ ((2 ∷ 5 ∷ 0x80 ∷ 0x80 ∷ 0x80 ∷ 0x80 ∷ 0x10 ∷ []) ++ drop 8 (module_of 8 exports)))
    ≡ none
unfolding validate_import_export_surface lookup insert section_at read_u32 export_at
imports_pass = refl
