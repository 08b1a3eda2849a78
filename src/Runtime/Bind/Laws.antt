-- ===== src/Runtime/Bind/Laws.antt =====
-- Which addresses a listener may bind, and which port ranges there are.
use zolem.Base.{
  ℕ, ◌≤◌, ℤ, pos, negsuc, ltb_ℤ, true, false, String, ◌==◌, eq_iff, Option, none, some, ◌≡◌, ◌≢◌,
  ◌⊎◌, refl, inl, inr, ◌↔◌, arith, Bool-cases, Option-cases,
}
use zolem.Runtime.{Net, ListenerSpec, valid_provider}
use zolem.Runtime.Bind.{
  BindPolicy, new_wildcard_bind_policy, is_loopback_host, is_wildcard_host, validate_port,
  validate_host_port, validate_addr, cut_dash, ordered_range, parse_port_range,
  validate_listener_spec_fields, validate_listener_spec_with_policy,
}

module _ (net : Net) (p : BindPolicy) where
  -- A loopback host, or under the opt-in a wildcard one.
  abbrev pub IsBindable : String → Type 0
  IsBindable host =
      (host ≢ "")
      × ((is_loopback_host net host ≡ true)
          ⊎ ((p.allow_wildcard ≡ true) × (is_wildcard_host net host ≡ true)))

  -- Where the policy has a range, a port within it.
  abbrev pub IsPort : String → Type 0
  IsPort port =
      (ltb_ℤ (pos 0) p.port_high ≡ false)
      ⊎ ((n : ℤ) × (net.atoi port ≡ some n)
          × (ltb_ℤ n p.port_low ≡ false)
          × (ltb_ℤ p.port_high n ≡ false))

  validate_port_iff : (port : String) → (validate_port net p port ≡ none) ↔ IsPort port
  unfolding validate_port
  validate_port_iff port = elim (Option-cases (net.atoi port)) [
    | inl e ↦ rw e (λ h. ground arith, λ h. ground arith)
    | inr (n, e) ↦ (
      λ h. elim (Bool-cases (ltb_ℤ (pos 0) p.port_high)) [
        | inl ranged ↦ inr (n, e, ground arith, ground arith)
        | inr free ↦ inl free
      ],
      λ h. ground arith,
    )
  ]

  validate_host_port_iff :
      (host port : String)
      → (validate_host_port net p host port ≡ none) ↔ (IsBindable host × IsPort port)
  unfolding validate_host_port
  validate_host_port_iff host port =
      let port_iff = validate_port_iff port in
      (λ h. ground (arith, port_iff, eq_iff host ""), λ h. ground (arith, port_iff, eq_iff host ""))

  -- An address that the policy takes.
  abbrev pub IsAddr : String → Type 0
  IsAddr addr =
      (host : String) × (port : String) × (net.split_host_port addr ≡ some (host, port))
      × IsBindable host
      × IsPort port

  -- An address passes exactly when it splits into a bindable host and a port that the policy has.
  pub validate_addr_iff : (addr : String) → (validate_addr net p addr ≡ none) ↔ IsAddr addr
  unfolding validate_addr
  validate_addr_iff addr = elim (Option-cases (net.split_host_port addr)) [
    | inl e ↦ rw e (λ h. cc, λ h. absurd (ground (arith, h.2)))
    | inr ((host, port), e) ↦ (
      λ h.
          let (b, q) = (validate_host_port_iff host port).0 (rw (e, validate_addr) at h) in
          (host, port, e, b, q),
      λ (host', port', e', b, q).
          rw (e', validate_addr) ((validate_host_port_iff host' port').1 (b, q)),
    )
  ]

ordered_range-some :
    (a b : Option ℤ) (low high : ℤ)
    → ordered_range a b ≡ some (low, high)
    → (l : ℕ) × (h : ℕ) × (low ≡ pos l) × (high ≡ pos h) × (1 ≤ l) × (l ≤ h) × (h ≤ 65535)
ordered_range-some (some (pos l)) (some (pos h)) low high e =
    (l, h, ground arith, ground arith, ground arith, ground arith, ground arith)
ordered_range-some (some (negsuc l)) (some b) low high e = absurd (ground arith)
ordered_range-some (some (pos l)) (some (negsuc h)) low high e = absurd (ground arith)
ordered_range-some (some a) none low high e = cc
ordered_range-some none b low high e = cc

-- A port range that parses lies within 1 to 65535, in order.
parse_port_range_bounds :
    (net : Net) (s : String) (low high : ℤ)
    → parse_port_range net s ≡ some (low, high)
    → (l : ℕ) × (h : ℕ) × (low ≡ pos l) × (high ≡ pos h) × (1 ≤ l) × (l ≤ h) × (h ≤ 65535)
unfolding parse_port_range
parse_port_range_bounds net s low high e = elim (Option-cases (cut_dash s)) [
  | inl missing ↦ absurd (ground arith)
  | inr ((a, b), parts) ↦
      ordered_range-some (net.atoi a) (net.atoi b) low high (rw (parts, parse_port_range) at e)
]

port_bounds :
    (net : Net) (p : BindPolicy) (port : String) (l h : ℕ)
    → p.port_low ≡ pos l
    → p.port_high ≡ pos h
    → 1 ≤ l
    → l ≤ h
    → h ≤ 65535
    → IsPort net p port
    → (n : ℕ) × (net.atoi port ≡ some (pos n))
      × (1 ≤ n)
      × (n ≤ 65535)
      × (ltb_ℤ (pos n) p.port_low ≡ false)
      × (ltb_ℤ p.port_high (pos n) ≡ false)
port_bounds net p port l h el eh one order top (inl free) = absurd (ground arith)
port_bounds net p port l h el eh one order top (inr (negsuc n, e, low, high)) =
    absurd (ground arith)
port_bounds net p port l h el eh one order top (inr (pos n, e, low, high)) =
    (n, e, ground arith, ground arith, low, high)

-- Under a wildcard policy made from a parsed range, every address that passes has a port in that
-- range, which lies within 1 to 65535, and a host that is loopback or wildcard.
pub validate_addr-parse_port_range :
    (net : Net) (s addr : String) (low high : ℤ)
    → parse_port_range net s ≡ some (low, high)
    → validate_addr net (new_wildcard_bind_policy low high) addr ≡ none
    → (host : String) × (port : String) × (n : ℕ) × (net.split_host_port addr ≡ some (host, port))
      × (net.atoi port ≡ some (pos n))
      × ((is_loopback_host net host ≡ true) ⊎ (is_wildcard_host net host ≡ true))
      × (1 ≤ n)
      × (n ≤ 65535)
      × (ltb_ℤ (pos n) low ≡ false)
      × (ltb_ℤ high (pos n) ≡ false)
unfolding new_wildcard_bind_policy
validate_addr-parse_port_range net s addr low high range passed =
    let (l, h, el, eh, one, order, top) = parse_port_range_bounds net s low high range in
    let policy = new_wildcard_bind_policy low high in
    let (host, port, split, (given, bindable), in_policy) =
      (validate_addr_iff net policy addr).0 passed in
    let (n, parsed, one_n, top_n, above, below) =
      port_bounds net policy port l h el eh one order top in_policy in
    let loose : (is_loopback_host net host ≡ true) ⊎ (is_wildcard_host net host ≡ true) =
      elim bindable [ inl loop ↦ inl loop | inr wild ↦ inr wild.1 ] in
    (host, port, n, split, parsed, loose, one_n, top_n, above, below)

-- A listener with a name, a profile, a provider that is served and an address that the policy takes
-- passes.
pub validate_listener_spec_with_policy-none :
    (net : Net) (spec : ListenerSpec) (p : BindPolicy)
    → spec.name ≢ ""
    → spec.profile ≢ ""
    → valid_provider spec.provider ≡ true
    → validate_addr net p spec.addr ≡ none
    → validate_listener_spec_with_policy net spec p ≡ none
unfolding validate_listener_spec_with_policy validate_listener_spec_fields
validate_listener_spec_with_policy-none net spec p named profiled served bound =
    let unnamed : (spec.name == "") ≡ false = ground (arith, eq_iff spec.name "", named) in
    let unprofiled : (spec.profile == "") ≡ false =
      ground (arith, eq_iff spec.profile "", profiled) in
    rw
      (
        unnamed, unprofiled, served, bound, validate_listener_spec_with_policy,
        validate_listener_spec_fields,
      )
      refl
