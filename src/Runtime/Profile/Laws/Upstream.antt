-- ===== src/Runtime/Profile/Laws/Upstream.antt =====
-- The upstream check: which hosts a profile may forward to.
use zolem.Base.{
  some_inj, subst, sym, Bool, true, false, String, ◌==◌, eq_iff, Option, none, some, ◌≡◌, refl, ◌≢◌,
  ◌⊎◌, inl, inr, ◌↔◌, arith, Bool-cases,
}
use zolem.Upstream.{Addr, Class, blocked, private, public, classify, zone, unmap}
use zolem.Upstream.Laws.{IsLocal, classify-private}
use zolem.Runtime.{RuntimeProfile, Net, Url}
use zolem.Runtime.Profile.{
  ollama_upstream_host_is_blocked, ollama_upstream_host_is_private, validate_upstream_url,
  validate_ollama_upstream, is_blocked_class, is_private_class,
}

class_of : Option Addr → Option Class
class_of o = elim o [ none ↦ none | some a ↦ some (classify a) ]

not_blocked_iff : (c : Class) → (is_blocked_class (some c) ≡ false) ↔ (c ≢ blocked)
not_blocked_iff blocked = (λ h. absurd (ground arith), λ h. absurd (h refl))
not_blocked_iff private = (λ h e. cc, λ h. refl)
not_blocked_iff public = (λ h e. cc, λ h. refl)

is_blocked_class_iff :
    (o : Option Addr)
    → (is_blocked_class (class_of o) ≡ false) ↔ ((a : Addr) → o ≡ some a → classify a ≢ blocked)
unfolding class_of
is_blocked_class_iff none = (λ h a e. cc, λ h. refl)
is_blocked_class_iff (some b) = (
  λ h a e. subst (λ c. classify c ≢ blocked) (some_inj e) ((not_blocked_iff (classify b)).0 h),
  λ h. (not_blocked_iff (classify b)).1 (h b refl),
)

is_private_class_iff :
    (o : Option Addr)
    → (is_private_class (class_of o) ≡ true)
      ↔ ((a : Addr) × (o ≡ some a) × (zone a ≡ "") × IsLocal (unmap a))
unfolding class_of
is_private_class_iff none = (λ h. absurd (ground arith), λ h. absurd (ground (arith, h.1)))
is_private_class_iff (some b) = (
  λ h. let (z, local) = (classify-private b).0 (ground arith) in (b, refl, z, local),
  λ (a, e, z, local).
      let private_a : classify a ≡ private = (classify-private a).1 (z, local) in
      subst (λ c. is_private_class (class_of (some c)) ≡ true) (sym (some_inj e))
        (unfold class_of in rw private_a refl),
)

module _ (net : Net) where
  -- A host that is no address, or one that is not blocked.
  abbrev pub IsAllowedHost : String → Type 0
  IsAllowedHost host = (a : Addr) → net.parse_addr host ≡ some a → classify a ≢ blocked

  -- "localhost", or an address of the machine or of a private network.
  abbrev pub IsLocalHost : String → Type 0
  IsLocalHost host =
      (net.equal_fold host "localhost" ≡ true)
      ⊎ ((a : Addr) × (net.parse_addr host ≡ some a) × (zone a ≡ "") × IsLocal (unmap a))

  pub record IsForwarded (external : Bool) (u : Url) : Type 0 where
    pub web : (u.scheme ≡ "http") ⊎ (u.scheme ≡ "https")
    pub hosted : u.host ≢ ""
    pub allowed : IsAllowedHost u.hostname
    pub local_or_opted : (external ≡ true) ⊎ IsLocalHost u.hostname

  blocked_iff :
      (host : String) → (ollama_upstream_host_is_blocked net host ≡ false) ↔ IsAllowedHost host
  unfolding ollama_upstream_host_is_blocked class_of
  blocked_iff host = is_blocked_class_iff (net.parse_addr host)

  private_iff :
      (host : String) → (ollama_upstream_host_is_private net host ≡ true) ↔ IsLocalHost host
  unfolding ollama_upstream_host_is_private class_of
  private_iff host =
      let class_iff = is_private_class_iff (net.parse_addr host) in
      elim (Bool-cases (net.equal_fold host "localhost")) [
        | inl named ↦ (λ h. inl named, λ h. rw named refl)
        | inr other ↦ (
          λ h. inr (class_iff.0 (rw other at h)),
          elim [ inl e ↦ absurd (ground arith) | inr local ↦ rw other (class_iff.1 local) ],
        )
      ]

  IsForwarded-iff :
      (external : Bool) (u : Url)
      → (validate_upstream_url net external (some u) ≡ none) ↔ IsForwarded external u
  unfolding validate_upstream_url
  IsForwarded-iff external u =
      let blocked_ = blocked_iff u.hostname in
      let private_ = private_iff u.hostname in
      (
        λ h. record {
          web = ground (arith, eq_iff u.scheme "http", eq_iff u.scheme "https");
          hosted =
              ground (arith, eq_iff u.scheme "http", eq_iff u.scheme "https", eq_iff u.host "");
          allowed = blocked_.0 (ground (arith));
          local_or_opted = ground (arith, private_);
        },
        λ f.
            let unblocked = blocked_.1 f.allowed in
            let permitted : (external ≡ true)
                ⊎ (ollama_upstream_host_is_private net u.hostname ≡ true) =
              elim f.local_or_opted [ inl e ↦ inl e | inr local ↦ inr (private_.1 local) ] in
            ground (
              arith,
              unblocked,
              permitted,
              eq_iff u.scheme "http",
              eq_iff u.scheme "https",
              eq_iff u.host "",
            ),
      )

  abbrev pub IsUpstream : RuntimeProfile → Type 0
  IsUpstream p =
      (p.ollama_upstream ≡ "")
      ⊎ ((u : Url) × (net.parse_url p.ollama_upstream ≡ some u)
          × IsForwarded p.allow_external_ollama_upstream u)

module _ (net : Net) (p : RuntimeProfile) where
  upstream_url_iff :
      (o : Option Url)
      → (validate_upstream_url net p.allow_external_ollama_upstream o ≡ none)
        ↔ ((u : Url) × (o ≡ some u) × IsForwarded net p.allow_external_ollama_upstream u)
  upstream_url_iff none =
      unfold validate_upstream_url in
      (λ h. absurd (ground arith), λ h. absurd (ground (arith, h.1)))
  upstream_url_iff (some u) = (
    λ h. (u, refl, (IsForwarded-iff net p.allow_external_ollama_upstream u).0 h),
    λ (v, e, f).
        (IsForwarded-iff net p.allow_external_ollama_upstream u).1
          (subst (IsForwarded net p.allow_external_ollama_upstream) (sym (some_inj e)) f),
  )

  pub validate_ollama_upstream_iff : (validate_ollama_upstream net p ≡ none) ↔ IsUpstream net p
  unfolding validate_ollama_upstream
  validate_ollama_upstream_iff =
      let url_iff = upstream_url_iff (net.parse_url p.ollama_upstream) in
      let empty_iff = eq_iff p.ollama_upstream "" in
      elim (Bool-cases (p.ollama_upstream == "")) [
        | inl bare ↦ rw bare (λ h. inl (empty_iff.0 bare), λ h. refl)
        | inr given ↦ rw given (
          λ h. inr (url_iff.0 h),
          elim [ inl e ↦ absurd (ground (arith, empty_iff)) | inr f ↦ url_iff.1 f ],
        )
      ]
