-- ===== src/Control/Admin/Names.antt =====
-- The names that the profile routes of the admin API take from a path.
use Prim.Native.Char.{Char, code}
use Prim.Native.String.append
use text.Mathlib.TextEquality.{Char-path}
use zolem.Base.{
  Bool, not, ◌||◌, true, false, String, ◌==◌, eq_iff, List, [], ◌∷◌, All, some, eqb, eqb_iff,
  append_text, cut_prefix, push_first, split_slash, is_empty, last_filled, path_base, ◌≡◌, ◌≢◌, ◌↔◌,
  ◌⊎◌, inl, inr, refl, sym, ap, ◌∙◌, subst, arith, All-map, Bool-cases, Option-cases, some_inj,
}
use mathlib.Core.Path.{ap₂}
use zolem.Control.Admin.{local_resource_name}

-- One element of a path.
abbrev pub IsElement : String → Type 0
IsElement String.[] = Unit
IsElement (String.◌∷◌ c s) = (code c ≢ 0x2f) × IsElement s

cut_prefix_append : (p s : String) → cut_prefix p (append_text p s) ≡ some s
unfolding cut_prefix
cut_prefix_append String.[] s = ap some (append.nil s)
cut_prefix_append (String.◌∷◌ c p) s =
    ap (cut_prefix (String.◌∷◌ c p)) (append.cons c p s)
    ∙ of ((eqb_iff (code c) (code c)).1 refl) (cut_prefix_append p s)
  where
    of :
        eqb (code c) (code c) ≡ true
        → cut_prefix p (append_text p s) ≡ some s
        → cut_prefix (String.◌∷◌ c p) (String.◌∷◌ c (append_text p s)) ≡ some s
    of e rest = rw e rest

cut_prefix_sound : (p t s : String) → cut_prefix p t ≡ some s → t ≡ append_text p s
unfolding cut_prefix
cut_prefix_sound String.[] t s e = some_inj e ∙ sym (append.nil s)
cut_prefix_sound (String.◌∷◌ c p) String.[] s e = cc
cut_prefix_sound (String.◌∷◌ c p) (String.◌∷◌ d t) s e = elim (Bool-cases (eqb (code c) (code d))) [
  | inl same ↦
      ap₂ String.◌∷◌ (sym (Char-path c d ((eqb_iff (code c) (code d)).0 same)))
        (cut_prefix_sound p t s (rw same at e))
      ∙ sym (append.cons c p s)
  | inr other ↦ cc (rw other at e)
]

push_first-elements :
    (c : Char) (ss : List String)
    → code c ≢ 0x2f
    → All IsElement ss
    → All IsElement (push_first c ss)
push_first-elements c [] n h = ((n, tt), tt)
push_first-elements c (s ∷ ss) n h = ((n, h.0), h.1)

split_slash-elements : (s : String) → All IsElement (split_slash s)
unfolding split_slash
split_slash-elements String.[] = (tt, tt)
split_slash-elements (String.◌∷◌ c s) = elim (Bool-cases (eqb (code c) 0x2f)) [
  | inl slash ↦ rw slash (tt, split_slash-elements s)
  | inr other ↦ rw other (
      push_first-elements c (split_slash s) (λ e. absurd (ground (arith, other, e)))
        (split_slash-elements s))
]

split_slash-element : (s : String) → IsElement s → split_slash s ≡ s ∷ []
unfolding split_slash
split_slash-element String.[] h = refl
split_slash-element (String.◌∷◌ c s) h = elim (Bool-cases (eqb (code c) 0x2f)) [
  | inl slash ↦ absurd (h.0 ((eqb_iff (code c) 0x2f).0 slash))
  | inr other ↦ rw other (ap (push_first c) (split_slash-element s h.1))
]

last_filled-cases :
    (P : String → Type 0) (default : String) (ss : List String)
    → P default
    → All P ss
    → P (last_filled default ss)
unfolding last_filled
last_filled-cases P default [] d h = d
last_filled-cases P default (s ∷ ss) d h = elim (Bool-cases (is_empty s)) [
  | inl empty ↦ rw empty (last_filled-cases P default ss d h.1)
  | inr filled ↦ rw filled (last_filled-cases P s ss h.0 h.1)
]

path_base-cases : (s : String) → is_empty s ≡ false → IsElement (path_base s) ⊎ (path_base s ≡ "/")
unfolding path_base
path_base-cases s h = rw h (
    last_filled-cases (λ t. IsElement t ⊎ (t ≡ "/")) "/" (split_slash s) (inr refl)
      (All-map _ _ (λ t e. inl e) (split_slash s) (split_slash-elements s)))

path_base-element : (s : String) → is_empty s ≡ false → IsElement s → path_base s ≡ s
unfolding path_base last_filled
path_base-element s filled h = rw (filled, split_slash-element s h) (rw filled refl)

-- What the route requires of the rest.
abbrev own_base : String → Bool
own_base name = is_empty name || not (name == path_base name)

own_base-cases :
    (name : String) → own_base name ≡ false → (name ≢ "") × (IsElement name ⊎ (name ≡ "/"))
own_base-cases name h =
    let filled : is_empty name ≡ false = ground arith in
    let base : name ≡ path_base name = (eq_iff name (path_base name)).0 (ground arith) in
    (
      λ e. cc (rw e at filled),
      subst (λ t. IsElement t ⊎ (t ≡ "/")) (sym base) (path_base-cases name filled),
    )

own_base-named : (name : String) → name ≢ "" → IsElement name ⊎ (name ≡ "/") → own_base name ≡ false
unfolding path_base
own_base-named name n (inr e) = rw e refl
own_base-named String.[] n (inl h) = absurd (n refl)
own_base-named (String.◌∷◌ c s) n (inl h) =
    let name = String.◌∷◌ c s in
    let same : (name == path_base name) ≡ true =
      (eq_iff name (path_base name)).1 (sym (path_base-element name refl h)) in
    rw same refl

-- A profile route takes the rest of the path as the name exactly when that is not empty and is one
-- element, without a slash, or is itself a slash.
local_resource_name_iff :
    (prefix p name : String)
    → (local_resource_name prefix p ≡ some name)
      ↔ ((p ≡ append_text prefix name) × (name ≢ "") × (IsElement name ⊎ (name ≡ "/")))
unfolding local_resource_name
local_resource_name_iff prefix p name = (
  λ e. elim (Option-cases (cut_prefix prefix p)) [
    | inl missing ↦ cc (rw (missing, local_resource_name) at e)
    | inr (rest, found) ↦ elim (Bool-cases (own_base rest)) [
      | inl refused ↦ cc (rw (found, refused, local_resource_name) at e)
      | inr named ↦
          let here : rest ≡ name = some_inj (rw (found, named, local_resource_name) at e) in
          subst (λ t. (p ≡ append_text prefix t) × (t ≢ "") × (IsElement t ⊎ (t ≡ "/"))) here
            (let (n, h) = own_base-cases rest named in (cut_prefix_sound prefix p rest found, n, h))
    ]
  ],
  λ (e, n, h).
      rw (e, cut_prefix_append prefix name, own_base-named name n h, local_resource_name) refl,
)
