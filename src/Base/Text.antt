-- ===== src/Base/Text.antt =====
-- Text as code points, and package strings on them.
use Prim.Native.Nat.{ℕ}
use Prim.Native.Char.{Char, code}
use Prim.Native.String.{String, ◌++◌}
use mathlib.Core.Path.{◌≡◌, refl, ap₂}
use native.Mathlib.Omega.{arith}
use text.Mathlib.TextEquality.{Char-path}
use mathlib.Core.Bool.{Bool, true, false, ◌&&◌, ◌||◌}
use mathlib.Core.List.{List, [], ◌∷◌}
use mathlib.Core.Option.{Option, none, some}
use zolem.Base.Tests.{eqb, ltb, if◌then◌else◌}

abbrev pub codes : String → List ℕ
codes String.[] = []
codes (String.◌∷◌ c s) = code c ∷ codes s

-- s + t on strings.
abbrev pub append_text : String → String → String
append_text s t = s ++ t

-- s == t
abbrev pub same : List ℕ → List ℕ → Bool
same [] [] = true
same (x ∷ xs) (y ∷ ys) = eqb x y && same xs ys
same _ _ = false

-- strings.HasPrefix(s, p), the prefix first.
abbrev pub has_prefix : List ℕ → List ℕ → Bool
has_prefix [] s = true
has_prefix (p ∷ ps) [] = false
has_prefix (p ∷ ps) (c ∷ s) = eqb p c && has_prefix ps s

-- strings.TrimPrefix(s, "[") and strings.TrimSuffix(s, "]").
unfoldable pub trim_open : String → String
trim_open String.[] = String.[]
trim_open (String.◌∷◌ c s) = if eqb (code c) 0x5b then s else String.◌∷◌ c s

unfoldable pub trim_close : String → String
trim_close String.[] = String.[]
trim_close (String.◌∷◌ c String.[]) =
    if eqb (code c) 0x5d then String.[] else String.◌∷◌ c String.[]
trim_close (String.◌∷◌ c (String.◌∷◌ d s)) = String.◌∷◌ c (trim_close (String.◌∷◌ d s))

-- a < b on text: the order of code points, which is the order of the bytes of UTF-8.
unfoldable pub less : List ℕ → List ℕ → Bool
less [] [] = false
less [] (y ∷ t) = true
less (x ∷ s) [] = false
less (x ∷ s) (y ∷ t) = ltb x y || (eqb x y && less s t)

pub less_asymm : (s t : List ℕ) → less s t ≡ true → less t s ≡ false
unfolding less
less_asymm [] (y ∷ t) h = refl
less_asymm (x ∷ s) (y ∷ t) h = ground (arith, less_asymm s t)
less_asymm [] [] h = refl
less_asymm (x ∷ s) [] h = cc

pub codes_inj : (s t : String) → codes s ≡ codes t → s ≡ t
codes_inj String.[] String.[] e = refl
codes_inj String.[] (String.◌∷◌ d t) e = cc
codes_inj (String.◌∷◌ c s) String.[] e = cc
codes_inj (String.◌∷◌ c s) (String.◌∷◌ d t) e =
    ap₂ String.◌∷◌ (Char-path c d (cc)) (codes_inj s t (cc))

-- Of two different texts one is less.
pub less_total : (s t : List ℕ) → less s t ≡ false → less t s ≡ false → s ≡ t
unfolding less
less_total [] [] h k = refl
less_total [] (y ∷ t) h k = cc
less_total (x ∷ s) [] h k = cc
less_total (x ∷ s) (y ∷ t) h k = ground (arith, less_total s t)

-- strings.CutPrefix(s, p), the prefix first.
unfoldable pub cut_prefix : String → String → Option String
cut_prefix String.[] s = some s
cut_prefix (String.◌∷◌ p ps) String.[] = none
cut_prefix (String.◌∷◌ p ps) (String.◌∷◌ c s) =
    if eqb (code p) (code c) then cut_prefix ps s else none

abbrev pub push_first : Char → List String → List String
push_first c [] = String.◌∷◌ c String.[] ∷ []
push_first c (s ∷ ss) = String.◌∷◌ c s ∷ ss

-- strings.Split(s, "/")
unfoldable pub split_slash : String → List String
split_slash String.[] = String.[] ∷ []
split_slash (String.◌∷◌ c s) =
    let rest = split_slash s in if eqb (code c) 0x2f then String.[] ∷ rest else push_first c rest

abbrev pub is_empty : String → Bool
is_empty String.[] = true
is_empty (String.◌∷◌ c s) = false

unfoldable pub last_filled : String → List String → String
last_filled default [] = default
last_filled default (s ∷ ss) = last_filled (if is_empty s then default else s) ss

-- path.Base: the last element that is not empty, "/" of slashes alone.
unfoldable pub path_base : String → String
unfolding split_slash last_filled
path_base s = if is_empty s then "." else last_filled "/" (split_slash s)
