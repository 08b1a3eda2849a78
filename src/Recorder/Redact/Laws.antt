-- ===== src/Recorder/Redact/Laws.antt =====
-- What a record tells of a credential.
use zolem.Base.{
  ℕ, Bool, true, false, not, ◌&&◌, ◌||◌, String, ◌==◌, List, [], ◌∷◌, ◌++◌, map, Option, none, some,
  if◌then◌else◌, codes, ◌≡◌, refl, sym, ◌∙◌, ap, inl, inr, Bool-cases,
}
use zolem.Recorder.{Header}
use zolem.Recorder.Redact.{
  Names, redacted_value, is_credential_header, cut_space, with_scheme, is_blank,
  redact_authorization_value, redact_value, redact_headers,
}

module _ (names : Names) where
  -- The scheme of an authorization: Bearer or Basic before a space and something more.
  abbrev pub scheme_of : Option (List ℕ × List ℕ) → Option (List ℕ)
  scheme_of none = none
  scheme_of (some (scheme, rest)) =
      if not (is_blank rest)
        && (names.equal_fold scheme (codes "Bearer") || names.equal_fold scheme (codes "Basic"))
      then some scheme
      else none

  -- Two values of a credential header that a record may not tell apart: both or neither are empty,
  -- and they have one scheme if they have any.
  abbrev pub Alike : List ℕ → List ℕ → Type 0
  Alike v w = (is_blank v ≡ is_blank w) × (scheme_of (cut_space v) ≡ scheme_of (cut_space w))

  abbrev pub AllAlike : List (List ℕ) → List (List ℕ) → Type 0
  AllAlike [] [] = Unit
  AllAlike (v ∷ vs) (w ∷ ws) = Alike v w × AllAlike vs ws
  AllAlike _ _ = ⊥

  -- Headers of the same keys whose credentials are alike and whose other values are the same.
  abbrev pub Matching : Header → Header → Type 0
  Matching [] [] = Unit
  Matching ((k, vs) ∷ h) ((j, ws) ∷ g) =
      (k ≡ j)
      × (if is_credential_header names (names.canonical k) then AllAlike vs ws else (vs ≡ ws))
      × Matching h g
  Matching _ _ = ⊥

  abbrev shown : Option (List ℕ) → List ℕ
  shown none = redacted_value
  shown (some scheme) = scheme ++ (0x20 ∷ redacted_value)

  with_scheme-shown : (o : Option (List ℕ × List ℕ)) → with_scheme names o ≡ shown (scheme_of o)
  with_scheme-shown none = refl
  with_scheme-shown (some (scheme, rest)) = pull (
      not (is_blank rest)
      && (names.equal_fold scheme (codes "Bearer") || names.equal_fold scheme (codes "Basic")))
    where
      pull :
          (t : Bool)
          → (if t then scheme ++ (0x20 ∷ redacted_value) else redacted_value)
            ≡ shown (if t then some scheme else none)
      pull true = refl
      pull false = refl

  blank : (v : List ℕ) → is_blank v ≡ true → v ≡ []
  blank [] h = refl
  blank (c ∷ v) h = cc

  redact_value-Alike :
      (canon : String) (v w : List ℕ)
      → Alike v w
      → redact_value names canon v ≡ redact_value names canon w
  unfolding redact_value redact_authorization_value
  redact_value-Alike canon v w (e, s) = elim (Bool-cases (is_blank v)) [
    | inl empty ↦ ap (redact_value names canon) (blank v empty ∙ sym (blank w (sym e ∙ empty)))
    | inr full ↦
        let full_w : is_blank w ≡ false = sym e ∙ full in
        let one : with_scheme names (cut_space v) ≡ with_scheme names (cut_space w) =
          with_scheme-shown (cut_space v) ∙ ap shown s ∙ sym (with_scheme-shown (cut_space w)) in
        rw full (
          rw full_w (
            ap
              (λ z.
                if canon == "Authorization" || canon == "Proxy-Authorization"
                then z
                else redacted_value)
              one))
  ]

  map-AllAlike :
      (canon : String) (vs ws : List (List ℕ))
      → AllAlike vs ws
      → map (redact_value names canon) vs ≡ map (redact_value names canon) ws
  map-AllAlike canon [] [] h = refl
  map-AllAlike canon [] (w ∷ ws) h = absurd h
  map-AllAlike canon (v ∷ vs) [] h = absurd h
  map-AllAlike canon (v ∷ vs) (w ∷ ws) (a, h) =
      ap (λ x. x ∷ map (redact_value names canon) vs) (redact_value-Alike canon v w a)
      ∙ ap (λ xs. redact_value names canon w ∷ xs) (map-AllAlike canon vs ws h)

  -- A record shows of a credential header only which values are empty and a Bearer or Basic scheme:
  -- headers that agree in that, and in all that is no credential, are recorded alike.
  pub redact_headers-Matching :
      (h g : Header) → Matching h g → redact_headers names h ≡ redact_headers names g
  unfolding redact_headers
  redact_headers-Matching [] [] m = refl
  redact_headers-Matching [] (x ∷ g) m = absurd m
  redact_headers-Matching (x ∷ h) [] m = absurd m
  redact_headers-Matching ((k, vs) ∷ h) ((j, ws) ∷ g) (e, alike, m) =
      ap (λ r. redacted k vs r) (redact_headers-Matching h g m)
      ∙ entry (is_credential_header names (names.canonical k)) alike (redact_headers names g)
      ∙ ap (λ i. redacted i ws (redact_headers names g)) e
    where
      redacted : String → List (List ℕ) → Header → Header
      redacted k vs r =
          if is_credential_header names (names.canonical k)
          then (k, map (redact_value names (names.canonical k)) vs) ∷ r
          else (k, vs) ∷ r

      entry :
          (t : Bool)
          → (if t then AllAlike vs ws else (vs ≡ ws))
          → (r : Header)
          → (if t then (k, map (redact_value names (names.canonical k)) vs) ∷ r else (k, vs) ∷ r)
            ≡ (if t then (k, map (redact_value names (names.canonical k)) ws) ∷ r else (k, ws) ∷ r)
      entry true a r = ap (λ xs. (k, xs) ∷ r) (map-AllAlike (names.canonical k) vs ws a)
      entry false a r = ap (λ xs. (k, xs) ∷ r) a
