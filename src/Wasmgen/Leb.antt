-- ===== src/Wasmgen/Leb.antt =====
-- What readU32 makes of a LEB128 number.
use zolem.Base.{
  ℕ, zero, suc, ◌+◌, ◌*◌, ◌%◌, ◌^◌, ◌<◌, List, [], ◌∷◌, Option, none, some, if◌then◌else◌, ltb,
  get_elem?, drop, Result, ok, err, ◌≡◌, refl, sym, ap, ◌∙◌, arith, Bool-cases, Option-cases,
  some_inj, inl, inr, subst, true, false,
}
use zolem.Wasmgen.{WasmError, read_loop, read_u32}

abbrev more_digits : ℕ → Option (ℕ × ℕ) → Option (ℕ × ℕ)
more_digits c none = none
more_digits c (some (v, n)) = some (c % 128 + 128 * v, n + 1)

-- The number that bytes begin with, of any size, and how many bytes it takes.
abbrev pub leb : List ℕ → Option (ℕ × ℕ)
leb [] = none
leb (c ∷ cs) = let rest = leb cs in if ltb c 128 then some (c, 1) else more_digits c rest

get_elem?-drop : (b : List ℕ) (i c : ℕ) → get_elem? b i ≡ some c → drop i b ≡ c ∷ drop (suc i) b
get_elem?-drop [] i c h = cc
get_elem?-drop (x ∷ b) zero c h = ap (λ y. y ∷ b) (some_inj h)
get_elem?-drop (x ∷ b) (suc i) c h = get_elem?-drop b i c h

-- No bit that is kept is added twice.
digits :
    (i c w : ℕ)
    → i < 4
    → ((c % 128) * 2 ^ (7 * i)) % 2 ^ 32 + (w * 2 ^ (7 * (i + 1))) % 2 ^ 32
      ≡ ((c % 128 + 128 * w) * 2 ^ (7 * i)) % 2 ^ 32
digits zero c w h = omega arith
digits (suc zero) c w h = omega arith
digits (suc (suc zero)) c w h = omega arith
digits (suc (suc (suc zero))) c w h = omega arith
digits (suc (suc (suc (suc i)))) c w h = absurd (omega (arith, h))

leb-last : (c : ℕ) (cs : List ℕ) → ltb c 128 ≡ true → leb (c ∷ cs) ≡ some (c, 1)
leb-last c cs h = rw h refl

leb-more :
    (c : ℕ) (cs : List ℕ) (v n : ℕ)
    → ltb c 128 ≡ false
    → leb cs ≡ some (v, n)
    → leb (c ∷ cs) ≡ some (c % 128 + 128 * v, n + 1)
leb-more c cs v n h e = rw (h, e) refl

abbrev IsRead : ℕ → ℕ → List ℕ → ℕ → ℕ → Type 0
IsRead i r bs v n =
    (w : ℕ) × (k : ℕ) × (leb bs ≡ some (w, k)) × (n ≡ i + k) × (v ≡ r + (w * 2 ^ (7 * i)) % 2 ^ 32)

abbrev number_of : Result WasmError (ℕ × ℕ) → ℕ × ℕ
number_of (ok r) = r
number_of (err e) = (0, 0)

fuel_left :
    (fuel i r : ℕ) (b : List ℕ) (off v n : ℕ) → read_loop fuel i r b off ≡ ok (v, n) → 0 < fuel
unfolding read_loop
fuel_left zero i r b off v n e = cc
fuel_left (suc fuel) i r b off v n e = omega arith

IsRead-last :
    (i r off c : ℕ) (b : List ℕ) (v n : ℕ)
    → get_elem? b (off + i) ≡ some c
    → ltb c 128 ≡ true
    → ◌≡◌ {A = Result WasmError (ℕ × ℕ)}
        (ok (r + ((c % 128) * 2 ^ (7 * i)) % 2 ^ 32, i + 1))
        (ok (v, n))
    → IsRead i r (drop (off + i) b) v n
IsRead-last i r off c b v n there last e =
    let small : c % 128 ≡ c = ground (arith, last) in
    let sum : v ≡ r + ((c % 128) * 2 ^ (7 * i)) % 2 ^ 32 = ap (λ x. (number_of x).0) (sym e) in
    (
      c,
      1,
      ap leb (get_elem?-drop b (off + i) c there) ∙ leb-last c (drop (suc (off + i)) b) last,
      ap (λ x. (number_of x).1) (sym e),
      sum ∙ ap (λ x. r + (x * 2 ^ (7 * i)) % 2 ^ 32) small,
    )

IsRead-more :
    (i r off c : ℕ) (b : List ℕ) (v n : ℕ)
    → get_elem? b (off + i) ≡ some c
    → ltb c 128 ≡ false
    → i < 4
    → IsRead (i + 1) (r + ((c % 128) * 2 ^ (7 * i)) % 2 ^ 32) (drop (off + (i + 1)) b) v n
    → IsRead i r (drop (off + i) b) v n
IsRead-more i r off c b v n there more four (w, k, lw, nk, vk) =
    let next : off + (i + 1) ≡ suc (off + i) = omega arith in
    let rest : leb (drop (suc (off + i)) b) ≡ some (w, k) =
      subst (λ j. leb (drop j b) ≡ some (w, k)) next lw in
    (
      c % 128 + 128 * w,
      k + 1,
      ap leb (get_elem?-drop b (off + i) c there)
          ∙ leb-more c (drop (suc (off + i)) b) w k more rest,
      omega (arith, nk),
      omega (arith, vk, digits i c w four),
    )

read_loop-IsRead :
    (fuel i r : ℕ) (b : List ℕ) (off v n : ℕ)
    → i + fuel ≡ 5
    → read_loop fuel i r b off ≡ ok (v, n)
    → IsRead i r (drop (off + i) b) v n
unfolding read_loop
read_loop-IsRead zero i r b off v n five e = cc
read_loop-IsRead (suc fuel) i r b off v n five e = elim (Option-cases (get_elem? b (off + i))) [
  | inl gone ↦ cc (rw (gone, read_loop) at e)
  | inr (c, there) ↦ elim (Bool-cases (ltb c 128)) [
    | inl last ↦ IsRead-last i r off c b v n there last (rw (there, last, read_loop) at e)
    | inr more ↦
        let r' = r + ((c % 128) * 2 ^ (7 * i)) % 2 ^ 32 in
        let rest : read_loop fuel (i + 1) r' b off ≡ ok (v, n) = rw (there, more, read_loop) at e in
        IsRead-more i r off c b v n there more
          (omega (arith, five, fuel_left fuel (i + 1) r' b off v n rest))
          (read_loop-IsRead fuel (i + 1) r' b off v n (omega (arith, five)) rest)
  ]
]

-- readU32 reads the low 32 bits of the number that the bytes begin with.
pub read_u32-leb :
    (b : List ℕ) (v n : ℕ)
    → read_u32 b 0 ≡ ok (v, n)
    → (w : ℕ) × (leb b ≡ some (w, n)) × (v ≡ w % 2 ^ 32)
unfolding read_u32
read_u32-leb b v n e =
    let (w, k, lw, nk, vk) = read_loop-IsRead 5 0 0 b 0 v n refl e in
    let same : n ≡ k = omega (arith, nk) in
    (w, lw ∙ ap (λ m. some (w, m)) (sym same), omega (arith, vk))
