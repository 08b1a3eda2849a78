-- ===== src/Runtime/Namespace.antt =====
-- validateFixtureNamespace of internal/runtime/store.go, and path.Clean on the texts it is given.
-- A text is its code points here.
pub mod Laws
use mathlib.Core.List.{reverse}
use zolem.Base.{
  ℕ, Bool, ◌||◌, not, List, [], ◌∷◌, ◌++◌, eqb, any, same, has_prefix, if◌then◌else◌, Option, some,
  none,
}

pub data NamespaceError : Type 0 where
  must_use_forward_slashes must_be_relative must_be_subdirectory must_not_escape
        must_be_normalized :
      NamespaceError

abbrev pub dot : List ℕ
dot = b'.' ∷ []

abbrev pub dots : List ℕ
dots = b'.' ∷ b'.' ∷ []

abbrev pub up : List ℕ
up = b'.' ∷ b'.' ∷ b'/' ∷ []

abbrev pub grow : ℕ → List (List ℕ) → List (List ℕ)
grow c [] = (c ∷ []) ∷ []
grow c (part ∷ parts) = (c ∷ part) ∷ parts

-- The elements of a path, between its slashes.
unfoldable pub split_slash : List ℕ → List (List ℕ)
split_slash [] = [] ∷ []
split_slash (c ∷ s) = let parts = split_slash s in if eqb c b'/' then [] ∷ parts else grow c parts

unfoldable pub join_slash : List (List ℕ) → List ℕ
join_slash [] = []
join_slash (p ∷ []) = p
join_slash (p ∷ q ∷ parts) = p ++ b'/' ∷ join_slash (q ∷ parts)

-- A ".." with a directory above it takes that away; in a relative path it stays otherwise.
abbrev pub ascend : Bool → List (List ℕ) → List (List ℕ)
ascend rooted [] = if rooted then [] else dots ∷ []
ascend rooted (top ∷ stack) = if same top dots then dots ∷ top ∷ stack else stack

-- One element of path.Clean; the stack has its last element at the head.
pub clean_step : Bool → List (List ℕ) → List ℕ → List (List ℕ)
clean_step rooted stack part =
    if same part [] || same part dot
    then stack
    else if same part dots
    then ascend rooted stack
    else part ∷ stack

pub clean_parts : Bool → List (List ℕ) → List (List ℕ) → List (List ℕ)
unfolding clean_step
clean_parts rooted stack [] = reverse stack
clean_parts rooted stack (part ∷ parts) = clean_parts rooted (clean_step rooted stack part) parts

abbrev pub or_dot : List ℕ → List ℕ
or_dot [] = dot
or_dot s = s

unfoldable pub clean : List ℕ → List ℕ
unfolding clean_parts split_slash join_slash
clean s =
    let rooted = has_prefix (b'/' ∷ []) s in
    let out = join_slash (clean_parts rooted [] (split_slash s)) in
    or_dot (if rooted then b'/' ∷ out else out)

abbrev pub has_backslash : List ℕ → Bool
has_backslash = any (λ c. eqb c 0x5c)

unfoldable pub validate_fixture_namespace : List ℕ → Option NamespaceError
validate_fixture_namespace [] = none
validate_fixture_namespace ns =
    let cleaned = clean ns in
    if has_backslash ns
    then some must_use_forward_slashes
    else if has_prefix (b'/' ∷ []) ns
    then some must_be_relative
    else if same cleaned dot || same cleaned dots
    then some must_be_subdirectory
    else if has_prefix up cleaned
    then some must_not_escape
    else if not (same cleaned ns)
    then some must_be_normalized
    else none
