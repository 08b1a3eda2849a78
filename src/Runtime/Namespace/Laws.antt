-- ===== src/Runtime/Namespace/Laws.antt =====
-- A namespace that passes names a directory strictly below the fixtures root.
use mathlib.Core.List.{reverse, reverse-cons, append-nil, append_assoc}
use zolem.Base.{
  ℕ, Bool, true, false, ◌||◌, not, List, [], ◌∷◌, ◌++◌, eqb, same, has_prefix, if◌then◌else◌, some,
  none, ◌≡◌, refl, sym, ap, ◌∙◌, ◌≢◌, ◌⊎◌, inl, inr, ◌↔◌, arith, All, All-append, Bool-cases, subst,
}
use zolem.Runtime.Namespace.{
  must_be_normalized, must_be_relative, must_be_subdirectory, must_not_escape,
  must_use_forward_slashes, dot, dots, up, grow, split_slash, join_slash, ascend, clean_step,
  clean_parts, or_dot, clean, has_backslash, validate_fixture_namespace,
}

pub same_iff : (s t : List ℕ) → (same s t ≡ true) ↔ (s ≡ t)
same_iff [] [] = ground arith
same_iff [] (y ∷ t) = ground arith
same_iff (x ∷ s) [] = ground arith
same_iff (x ∷ s) (y ∷ t) = ground (arith, same_iff s t)

abbrev pub NoSlash : List ℕ → Type 0
NoSlash = All (λ c. c ≢ b'/')

-- An element that names something: not empty and not ".".
abbrev pub IsName : List ℕ → Type 0
IsName part = NoSlash part × (part ≢ []) × (part ≢ dot)

abbrev pub IsPlain : List ℕ → Type 0
IsPlain part = IsName part × (part ≢ dots)

split_slash-cons : (s : List ℕ) → (p : List ℕ) × (ps : List (List ℕ)) × (split_slash s ≡ p ∷ ps)
unfolding split_slash
split_slash-cons [] = ([], [], refl)
split_slash-cons (c ∷ s) =
    let (p, ps, e) = split_slash-cons s in
    elim (Bool-cases (eqb c b'/')) [
      | inl slash ↦ ([], p ∷ ps, rw (slash, e))
      | inr other ↦ (c ∷ p, ps, rw (other, e))
    ]

grow-NoSlash :
    (c : ℕ) (parts : List (List ℕ)) → c ≢ b'/' → All NoSlash parts → All NoSlash (grow c parts)
grow-NoSlash c [] n h = ((n, tt), tt)
grow-NoSlash c (p ∷ ps) n (h, hs) = ((n, h), hs)

split_slash-NoSlash : (s : List ℕ) → All NoSlash (split_slash s)
unfolding split_slash
split_slash-NoSlash [] = (tt, tt)
split_slash-NoSlash (c ∷ s) = ground (arith, split_slash-NoSlash s, grow-NoSlash c (split_slash s))

join_slash-grow :
    (c : ℕ) (p : List ℕ) (ps : List (List ℕ)) → join_slash ((c ∷ p) ∷ ps) ≡ c ∷ join_slash (p ∷ ps)
unfolding join_slash
join_slash-grow c p [] = refl
join_slash-grow c p (q ∷ ps) = refl

join_slash-nil :
    (p : List ℕ) (ps : List (List ℕ)) → join_slash ([] ∷ p ∷ ps) ≡ b'/' ∷ join_slash (p ∷ ps)
unfolding join_slash
join_slash-nil p ps = refl

join_slash-split_slash : (s : List ℕ) → join_slash (split_slash s) ≡ s
unfolding split_slash join_slash
join_slash-split_slash [] = refl
join_slash-split_slash (c ∷ s) =
    let (p, ps, e) = split_slash-cons s in
    let ih : join_slash (p ∷ ps) ≡ s = rw (← e) (join_slash-split_slash s) in
    elim (Bool-cases (eqb c b'/')) [
      | inl slash ↦ rw (slash, e) (ground (arith, ih))
      | inr other ↦ rw (other, e) (join_slash-grow c p ps ∙ ap (◌∷◌ c) ih)
    ]

split_slash-last : (p : List ℕ) → NoSlash p → split_slash p ≡ p ∷ []
unfolding split_slash
split_slash-last [] h = refl
split_slash-last (c ∷ p) (n, h) = ground (arith, split_slash-last p h)

split_slash-append :
    (p rest : List ℕ) → NoSlash p → split_slash (p ++ b'/' ∷ rest) ≡ p ∷ split_slash rest
unfolding split_slash
split_slash-append [] rest h = refl
split_slash-append (c ∷ p) rest (n, h) = ground (arith, split_slash-append p rest h)

split_slash-join_slash :
    (p : List ℕ) (ps : List (List ℕ))
    → All NoSlash (p ∷ ps)
    → split_slash (join_slash (p ∷ ps)) ≡ p ∷ ps
unfolding join_slash
split_slash-join_slash p [] h = split_slash-last p h.0
split_slash-join_slash p (q ∷ ps) (h, hs) =
    split_slash-append p (join_slash (q ∷ ps)) h ∙ ap (◌∷◌ p) (split_slash-join_slash q ps hs)

-- The last element of the stack, which is the first of the path, is "..".
abbrev HasDotsAtBottom : List (List ℕ) → Type 0
HasDotsAtBottom [] = ⊥
HasDotsAtBottom (p ∷ []) = p ≡ dots
HasDotsAtBottom (p ∷ q ∷ ps) = HasDotsAtBottom (q ∷ ps)

-- What Clean's loop keeps for a relative path: names only, and ".." elements below all others.
abbrev IsTidy : List (List ℕ) → Type 0
IsTidy stack = All IsName stack × (All IsPlain stack ⊎ HasDotsAtBottom stack)

dots-IsName : IsName dots
dots-IsName = ((omega arith, (omega arith, tt)), λ e. cc, λ e. cc)

push-HasDotsAtBottom :
    (p : List ℕ) (stack : List (List ℕ)) → HasDotsAtBottom stack → HasDotsAtBottom (p ∷ stack)
push-HasDotsAtBottom p [] h = elim h [ ]
push-HasDotsAtBottom p (q ∷ stack) h = h

ascend-IsTidy : (stack : List (List ℕ)) → IsTidy stack → IsTidy (ascend false stack)
ascend-IsTidy [] h = ((dots-IsName, tt), inr refl)
ascend-IsTidy (top ∷ []) h = ground (arith, same_iff top dots, dots-IsName)
ascend-IsTidy (top ∷ q ∷ stack) h = ground (arith, same_iff top dots, dots-IsName)

clean_step-IsTidy :
    (stack : List (List ℕ)) (part : List ℕ)
    → NoSlash part
    → IsTidy stack
    → IsTidy (clean_step false stack part)
unfolding clean_step
clean_step-IsTidy stack part n h = ground (
  arith,
  same_iff part [],
  same_iff part dot,
  same_iff part dots,
  ascend-IsTidy stack h,
  push-HasDotsAtBottom part stack,
)

clean_parts-IsTidy :
    (stack parts : List (List ℕ))
    → IsTidy stack
    → All NoSlash parts
    → (end : List (List ℕ)) × (clean_parts false stack parts ≡ reverse end) × IsTidy end
unfolding clean_parts
clean_parts-IsTidy stack [] h n = (stack, refl, h)
clean_parts-IsTidy stack (part ∷ parts) h (n, ns) =
    clean_parts-IsTidy (clean_step false stack part) parts (clean_step-IsTidy stack part n h) ns

-- A path whose elements are plain is left alone.
clean_parts_of_IsPlain :
    (stack parts : List (List ℕ))
    → All IsPlain parts
    → clean_parts false stack parts ≡ reverse stack ++ parts
unfolding clean_parts
clean_parts_of_IsPlain stack [] h = sym (append-nil _)
clean_parts_of_IsPlain stack (part ∷ parts) (p, h) =
    rw (step part p)
      (clean_parts_of_IsPlain (part ∷ stack) parts h ∙ simp (reverse-cons, append_assoc))
  where
    step : (part : List ℕ) → IsPlain part → clean_step false stack part ≡ part ∷ stack
    step part p =
        unfold clean_step in ground (arith, same_iff part [], same_iff part dot, same_iff part dots)

All-reverse {κ} : (P : List ℕ → Type κ) (xs : List (List ℕ)) → All P xs → All P (reverse xs)
All-reverse P [] h = tt
All-reverse P (x ∷ xs) (p, h) =
    rw (reverse-cons x xs) (All-append P (reverse xs) (x ∷ []) (All-reverse P xs h) (p, tt))

plain-NoSlash : (ps : List (List ℕ)) → All IsPlain ps → All NoSlash ps
plain-NoSlash [] h = tt
plain-NoSlash (p ∷ ps) (h, hs) = (h.0.0, plain-NoSlash ps hs)

reverse_of_HasDotsAtBottom :
    (stack : List (List ℕ))
    → HasDotsAtBottom stack
    → (t : List (List ℕ)) × (reverse stack ≡ dots ∷ t)
reverse_of_HasDotsAtBottom [] h = absurd h
reverse_of_HasDotsAtBottom (p ∷ []) h = ([], ap (λ q. q ∷ []) h)
reverse_of_HasDotsAtBottom (p ∷ q ∷ stack) h =
    let (t, e) = reverse_of_HasDotsAtBottom (q ∷ stack) h in
    (t ++ p ∷ [], reverse-cons p (q ∷ stack) ∙ ap (λ r. r ++ p ∷ []) e)

-- What a cleaned relative path can be.
abbrev IsEscape : List ℕ → Type 0
IsEscape s = (s ≡ dots) ⊎ (has_prefix up s ≡ true)

join_slash-IsEscape : (t : List (List ℕ)) → IsEscape (join_slash (dots ∷ t))
unfolding join_slash
join_slash-IsEscape [] = inl refl
join_slash-IsEscape (q ∷ t) = inr refl

or_dot-IsEscape : (s : List ℕ) → IsEscape s → IsEscape (or_dot s)
or_dot-IsEscape [] h = ground arith
or_dot-IsEscape (c ∷ s) h = h

or_dot_cases : (s : List ℕ) → (or_dot s ≡ dot) ⊎ (or_dot s ≡ s)
or_dot_cases [] = inl refl
or_dot_cases (c ∷ s) = inr refl

-- Where a cleaned path is no ".", does not escape, and is what was given, the elements are plain.
split_slash-IsPlain :
    (s : List ℕ) (r : List (List ℕ))
    → All IsPlain r ⊎ ((t : List (List ℕ)) × (r ≡ dots ∷ t))
    → or_dot (join_slash r) ≢ dot
    → ¬ IsEscape (or_dot (join_slash r))
    → or_dot (join_slash r) ≡ s
    → All IsPlain (split_slash s)
unfolding join_slash
split_slash-IsPlain s [] (inl h) not_dot stays given = absurd (not_dot refl)
split_slash-IsPlain s (p ∷ ps) (inl h) not_dot stays given =
    elim (or_dot_cases (join_slash (p ∷ ps))) [
      | inl e ↦ absurd (not_dot e)
      | inr e ↦ rw (← given, e, split_slash-join_slash p ps (plain-NoSlash (p ∷ ps) h)) h
    ]
split_slash-IsPlain s [] (inr (t, e)) not_dot stays given = absurd (not_dot refl)
split_slash-IsPlain s (p ∷ ps) (inr (t, e)) not_dot stays given =
    let here : IsEscape (or_dot (join_slash (dots ∷ t))) =
      or_dot-IsEscape (join_slash (dots ∷ t)) (join_slash-IsEscape t) in
    absurd (stays (subst (λ r. IsEscape (or_dot (join_slash r))) (sym e) here))

IsTidy-reverse :
    (end : List (List ℕ))
    → IsTidy end
    → All IsPlain (reverse end) ⊎ ((t : List (List ℕ)) × (reverse end ≡ dots ∷ t))
IsTidy-reverse end (names, inl h) = inl (All-reverse IsPlain end h)
IsTidy-reverse end (names, inr h) = inr (reverse_of_HasDotsAtBottom end h)

-- Without a leading slash.
abbrev cleaned : List ℕ → List ℕ
cleaned s = or_dot (join_slash (clean_parts false [] (split_slash s)))

cleaned-IsPlain :
    (s : List ℕ)
    → cleaned s ≢ dot
    → ¬ IsEscape (cleaned s)
    → cleaned s ≡ s
    → All IsPlain (split_slash s)
cleaned-IsPlain s not_dot stays given =
    let (end, e, tidy) =
      clean_parts-IsTidy [] (split_slash s) (tt, inl tt) (split_slash-NoSlash s) in
    split_slash-IsPlain s (reverse end) (IsTidy-reverse end tidy)
      (λ d. not_dot (ap (λ r. or_dot (join_slash r)) e ∙ d))
      (λ d. stays (subst (λ r. IsEscape (or_dot (join_slash r))) (sym e) d))
      (sym (ap (λ r. or_dot (join_slash r)) e) ∙ given)

cleaned_of_IsPlain :
    (c : ℕ) (s : List ℕ) → All IsPlain (split_slash (c ∷ s)) → cleaned (c ∷ s) ≡ c ∷ s
cleaned_of_IsPlain c s h = ap or_dot (
    ap join_slash (clean_parts_of_IsPlain [] (split_slash (c ∷ s)) h)
    ∙ join_slash-split_slash (c ∷ s))

-- A namespace that names a directory below the root: no element is empty, "." or "..", and none
-- holds a backslash.
abbrev pub IsBelow : List ℕ → Type 0
IsBelow ns = All IsPlain (split_slash ns) × (has_backslash ns ≡ false)

relative_of_IsPlain : (s : List ℕ) → All IsPlain (split_slash s) → has_prefix (b'/' ∷ []) s ≡ false
unfolding split_slash
relative_of_IsPlain [] h = refl
relative_of_IsPlain (c ∷ s) h = ground arith

up-prefix : (s : List ℕ) → has_prefix up s ≡ true → (r : List ℕ) × (s ≡ dots ++ b'/' ∷ r)
up-prefix (a ∷ b ∷ c ∷ s) h = (s, ground arith)
up-prefix (a ∷ b ∷ []) h = absurd (ground arith)
up-prefix (a ∷ []) h = absurd (ground arith)
up-prefix [] h = absurd (ground arith)

split_slash-dots : split_slash dots ≡ dots ∷ []
split_slash-dots = split_slash-last dots dots-IsName.0

not-IsEscape_of_IsPlain : (s : List ℕ) → All IsPlain (split_slash s) → ¬ IsEscape s
not-IsEscape_of_IsPlain s h (inl e) = (rw (e, split_slash-dots) at h).0.1 refl
not-IsEscape_of_IsPlain s h (inr e) =
    let (r, shape) = up-prefix s e in
    (rw (shape, split_slash-append dots r dots-IsName.0) at h).0.1 refl

clean-cleaned : (s : List ℕ) → has_prefix (b'/' ∷ []) s ≡ false → clean s ≡ cleaned s
unfolding clean
clean-cleaned s h = rw h refl

not_dot_of_IsPlain : (s : List ℕ) → All IsPlain (split_slash s) → s ≢ dot
not_dot_of_IsPlain s h e = (rw (e, split_slash-last dot (omega arith, tt)) at h).0.0.2 refl

-- The checks in order, over the cleaned text.
checks-none :
    (backslash rooted : Bool) (x ns : List ℕ)
    → ((if backslash
          then some must_use_forward_slashes
          else if rooted
          then some must_be_relative
          else if same x dot || same x dots
          then some must_be_subdirectory
          else if has_prefix up x
          then some must_not_escape
          else if not (same x ns)
          then some must_be_normalized
          else none)
        ≡ none)
      ↔ ((backslash ≡ false) × (rooted ≡ false) × (x ≢ dot) × (¬ IsEscape x) × (x ≡ ns))
checks-none backslash rooted x ns = (
  λ h. ground (arith, same_iff x dot, same_iff x dots, same_iff x ns),
  λ h. ground (arith, same_iff x dot, same_iff x dots, same_iff x ns, h.3),
)

-- A non-empty namespace passes exactly when it names a directory below the root: it holds no
-- backslash, and no element between its slashes is empty, "." or "..".
pub validate_fixture_namespace_iff :
    (c : ℕ) (s : List ℕ) → (validate_fixture_namespace (c ∷ s) ≡ none) ↔ IsBelow (c ∷ s)
unfolding validate_fixture_namespace
validate_fixture_namespace_iff c s =
    let checks =
      checks-none (has_backslash (c ∷ s)) (has_prefix (b'/' ∷ []) (c ∷ s)) (clean (c ∷ s))
        (c ∷ s) in
    (
      λ h.
          let (bare, relative, not_dot, stays, given) = checks.0 h in
          let e = clean-cleaned (c ∷ s) relative in
          (
            cleaned-IsPlain (c ∷ s) (λ d. not_dot (e ∙ d)) (λ d. stays (subst IsEscape (sym e) d))
                (sym e ∙ given),
            bare,
          ),
      λ (plain, bare).
          let relative = relative_of_IsPlain (c ∷ s) plain in
          let given = clean-cleaned (c ∷ s) relative ∙ cleaned_of_IsPlain c s plain in
          checks.1 (
            bare,
            relative,
            λ d. not_dot_of_IsPlain (c ∷ s) plain (sym given ∙ d),
            λ d. not-IsEscape_of_IsPlain (c ∷ s) plain (subst IsEscape given d),
            given,
          ),
    )
