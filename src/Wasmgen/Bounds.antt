-- ===== src/Wasmgen/Bounds.antt =====
-- That reading the sections of a module ends and reads no byte that is not there.
use zolem.Base.{
  ℕ, zero, suc, ◌+◌, ◌-◌, ◌≤◌, ◌<◌, true, false, ◌&&◌, ◌||◌, List, [], ◌∷◌, Option, none, some, ltb,
  leb, eqb, length, same, take, drop, get_elem?, lookup, insert, nat_eq, if◌then◌else◌, Result, ok,
  err, ◌≡◌, refl, ap, inl, inr, arith, Bool-cases, Option-cases,
}
use zolem.Wasmgen.{
  bytes_eq, is_fault, wrapped, slice, WasmError, section_size, duplicate_section, read_u32,
  read_loop, section_at, section_body, add_section, sections_from, parse_sections,
}

-- A result that stands for no panic and no loop that goes on.
abbrev pub IsProper {ℓ} : {A : Type ℓ} → Result WasmError A → Type 0
IsProper (ok a) = Unit
IsProper (err e) = is_fault e ≡ false

pub wrapped-IsProper :
    (own e : WasmError)
    → is_fault own ≡ false
    → is_fault e ≡ false
    → is_fault (wrapped own e) ≡ false
unfolding wrapped
wrapped-IsProper own e o h = rw h o

pub slice-some :
    (start end_ : ℕ) (b : List ℕ)
    → start ≤ end_
    → end_ ≤ length b
    → slice start end_ b ≡ some (take (end_ - start) (drop start b))
unfolding slice
slice-some start end_ b order inside =
    let fits : (leb start end_ && leb end_ (length b)) ≡ true = ground arith in
    ap (λ t. if t then some (take (end_ - start) (drop start b)) else none) fits

read_loop-IsProper : (fuel i r : ℕ) (b : List ℕ) (off : ℕ) → IsProper (read_loop fuel i r b off)
unfolding read_loop
read_loop-IsProper zero i r b off = refl
read_loop-IsProper (suc fuel) i r b off = elim (Option-cases (get_elem? b (off + i))) [
  | inl gone ↦ rw (gone, read_loop) refl
  | inr (c, there) ↦ elim (Bool-cases (ltb c 128)) [
    | inl last ↦ rw (there, last, read_loop) tt
    | inr more ↦ rw (there, more, read_loop) (read_loop-IsProper fuel (i + 1) _ b off)
  ]
]

pub read_u32-IsProper : (b : List ℕ) (off : ℕ) → IsProper (read_u32 b off)
unfolding read_u32
read_u32-IsProper b off = read_loop-IsProper 5 0 0 b off

-- The next section starts further on, and no byte is read past the end.
abbrev Ahead : List ℕ → ℕ → Result WasmError (ℕ × List ℕ × ℕ) → Type 0
Ahead b off (ok (id, body, next)) = (off < next) × (next ≤ length b)
Ahead b off (err e) = is_fault e ≡ false

get_elem?-some : (b : List ℕ) (i : ℕ) → i < length b → (c : ℕ) × (get_elem? b i ≡ some c)
get_elem?-some [] i h = absurd (omega (arith, h))
get_elem?-some (x ∷ b) zero h = (x, refl)
get_elem?-some (x ∷ b) (suc i) h = get_elem?-some b i (omega (arith, h))

Ahead-section_body :
    (b : List ℕ) (off id : ℕ) (r : Result WasmError (ℕ × ℕ))
    → IsProper r
    → Ahead b off (section_body b (off + 1) id r)
Ahead-section_body b off id (err e) h = wrapped-IsProper section_size e refl h
Ahead-section_body b off id (ok (size, n)) h =
    let start = off + 1 + n in
    elim (Bool-cases (ltb (start + size) start || ltb (length b) (start + size))) [
      | inl past ↦ rw past refl
      | inr inside ↦
          let fits = slice-some start (start + size) b (omega arith) (ground (arith, inside)) in
          rw (inside, fits) (omega arith, ground (arith, inside))
    ]

Ahead-section_at : (b : List ℕ) (off : ℕ) → off < length b → Ahead b off (section_at b off)
unfolding section_at
Ahead-section_at b off h =
    let (id, there) = get_elem?-some b off h in
    rw (there, section_at)
      (Ahead-section_body b off id (read_u32 b (off + 1)) (read_u32-IsProper b (off + 1)))

abbrev Onward : List ℕ → ℕ → Result WasmError (ℕ × List (ℕ × List ℕ)) → Type 0
Onward b off (ok (next, more)) = (off < next) × (next ≤ length b)
Onward b off (err e) = is_fault e ≡ false

Onward-add_section :
    (b : List ℕ) (off : ℕ) (r : Result WasmError (ℕ × List ℕ × ℕ)) (acc : List (ℕ × List ℕ))
    → Ahead b off r
    → Onward b off (add_section r acc)
Onward-add_section b off (err e) acc h = h
Onward-add_section b off (ok (id, body, next)) acc h = elim (Bool-cases (eqb id 0)) [
  | inl custom ↦ rw custom h
  | inr known ↦ rw known (at (lookup id acc))
]
  where
    at :
        (o : Option (List ℕ))
        → Onward b off (elim o as (λ x. Result WasmError (ℕ × List (ℕ × List ℕ))) [
          | some other ↦ err duplicate_section
          | none ↦ ok (next, insert id body acc)
        ])
    at none = h
    at (some other) = refl

sections_from-IsProper :
    (fuel : ℕ) (b : List ℕ) (off : ℕ) (acc : List (ℕ × List ℕ))
    → off ≤ length b
    → length b < off + fuel
    → IsProper (sections_from fuel b off acc)
unfolding sections_from
sections_from-IsProper zero b off acc inside enough = absurd (omega (arith, inside, enough))
sections_from-IsProper (suc fuel) b off acc inside enough = elim (Bool-cases (ltb off (length b))) [
  | inr done ↦ rw done tt
  | inl more ↦ rw more (
      at (add_section (section_at b off) acc)
        (Onward-add_section b off (section_at b off) acc (Ahead-section_at b off (ground arith)))
        (λ next acc' onward.
          sections_from-IsProper fuel b next acc' onward.1 (omega (arith, onward.0, enough))))
]
  where
    at :
        (r : Result WasmError (ℕ × List (ℕ × List ℕ)))
        → Onward b off r
        → ((next : ℕ) (acc' : List (ℕ × List ℕ))
            → (off < next) × (next ≤ length b)
            → IsProper (sections_from fuel b next acc'))
        → IsProper (elim r as (λ x. Result WasmError (List (ℕ × List ℕ))) [
          | err e ↦ err e
          | ok (next, more) ↦ sections_from fuel b next more
        ])
    at (err e) h later = h
    at (ok (next, more)) h later = later next more h

pub parse_sections-IsProper : (b : List ℕ) → IsProper (parse_sections b)
unfolding parse_sections
parse_sections-IsProper b = elim (Bool-cases (ltb (length b) 8)) [
  | inl short ↦ rw short refl
  | inr long ↦
      let whole : leb 4 (length b) ≡ true = ground (arith, long) in
      let wide : leb 8 (length b) ≡ true = ground (arith, long) in
      elim (Bool-cases (same (take 4 b) (0x00 ∷ 0x61 ∷ 0x73 ∷ 0x6d ∷ []))) [
        | inr other ↦ rw (long, whole, other) refl
        | inl module_ ↦
            elim (Bool-cases (same (take 4 (drop 4 b)) (0x01 ∷ 0x00 ∷ 0x00 ∷ 0x00 ∷ []))) [
              | inr old ↦ rw (long, whole, module_, wide, old) refl
              | inl current ↦
                  rw (long, whole, module_, wide, current)
                    (sections_from-IsProper (length b) b 8 [] (ground arith) (ground arith))
            ]
      ]
]
