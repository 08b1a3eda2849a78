-- ===== src/Recorder/Redact.antt =====
-- redactHeaders: the credentials of a header are replaced before it is recorded.
pub mod Laws
use zolem.Base.{
  ℕ, ◌-◌, Bool, true, false, not, ◌&&◌, ◌||◌, String, ◌==◌, List, [], ◌∷◌, ◌++◌, map, Option, none,
  some, if◌then◌else◌, leb, eqb, any, length, drop, codes, same,
}
use zolem.Recorder.{Header}

-- net/http and strings: http.CanonicalHeaderKey, strings.ToLower and strings.EqualFold.
pub record Names : Type 0 where
  pub canonical : String → String
  pub lower : String → List ℕ
  pub equal_fold : List ℕ → List ℕ → Bool

abbrev pub redacted_value : List ℕ
redacted_value = codes "[REDACTED]"

abbrev pub redacted_headers : List String
redacted_headers =
    "Authorization" ∷ "Proxy-Authorization" ∷ "Cookie" ∷ "Set-Cookie" ∷ "Api-Key" ∷ "X-Api-Key" ∷ []

abbrev pub redacted_header_suffixes : List (List ℕ)
redacted_header_suffixes =
    codes "-api-key" ∷ codes "-token" ∷ codes "-secret" ∷ codes "-signature" ∷ []

-- strings.HasSuffix
abbrev pub has_suffix : List ℕ → List ℕ → Bool
has_suffix s suffix =
    leb (length suffix) (length s) && same (drop (length s - length suffix) s) suffix

abbrev pub onto : ℕ → Option (List ℕ × List ℕ) → Option (List ℕ × List ℕ)
onto c none = none
onto c (some (start, rest)) = some (c ∷ start, rest)

-- strings.Cut at the first space.
unfoldable pub cut_space : List ℕ → Option (List ℕ × List ℕ)
cut_space [] = none
cut_space (c ∷ cs) = let later = cut_space cs in if eqb c 0x20 then some ([], cs) else onto c later

abbrev pub is_blank : List ℕ → Bool
is_blank [] = true
is_blank _ = false

module _ (names : Names) where
  unfoldable pub is_credential_header : String → Bool
  is_credential_header canon =
      any (◌==◌ canon) redacted_headers
      || any (has_suffix (names.lower canon)) redacted_header_suffixes

  -- A value cut at its first space.
  abbrev pub with_scheme : Option (List ℕ × List ℕ) → List ℕ
  with_scheme none = redacted_value
  with_scheme (some (scheme, rest)) =
      if not (is_blank rest)
        && (names.equal_fold scheme (codes "Bearer") || names.equal_fold scheme (codes "Basic"))
      then scheme ++ (0x20 ∷ redacted_value)
      else redacted_value

  unfoldable pub redact_authorization_value : List ℕ → List ℕ
  unfolding cut_space
  redact_authorization_value v = if is_blank v then [] else with_scheme (cut_space v)

  -- The loop over the values of a credential header.
  unfoldable pub redact_value : String → List ℕ → List ℕ
  unfolding redact_authorization_value
  redact_value canon v =
      if is_blank v
      then v
      else if canon == "Authorization" || canon == "Proxy-Authorization"
      then redact_authorization_value v
      else redacted_value

  unfoldable pub redact_headers : Header → Header
  unfolding is_credential_header redact_value
  redact_headers [] = []
  redact_headers ((k, vals) ∷ h) =
      let rest = redact_headers h in
      let canon = names.canonical k in
      if is_credential_header canon
      then (k, map (redact_value canon) vals) ∷ rest
      else (k, vals) ∷ rest
