-- ===== src/Startup/Laws.antt =====
-- Which listeners the flags may start.
use Prim.Native.String.append
use zolem.Base.{
  pos, Bool, true, false, not, String, ◌==◌, eq_iff, List, none, some, any, append_text, Result, ok,
  ◌≡◌, ◌≢◌, ◌⊎◌, inl, inr, refl, sym, ap, ◌∙◌, subst, arith, Bool-cases, Option-cases, some_inj,
}
use zolem.Runtime.{Net, ListenerRuntime, valid_provider}
use zolem.Runtime.Profile.{validate_profile}
use zolem.Runtime.Profile.Laws.{IsValid, validate_profile_iff}
use zolem.Runtime.Bind.{
  BindPolicy, validate_addr, validate_listener_spec_with_policy, is_loopback_host, is_loopback_name,
  is_wildcard_host,
}
use zolem.Runtime.Bind.Laws.{validate_addr_iff, validate_listener_spec_with_policy-none}
use zolem.Startup.{
  LocalOptions, tls_validate, runtime_of, runtime, resolve_bind_policy, provider_listener_name,
  or_default,
}

-- What the checks of `runtime` leave.
record Passed (net : Net) (o : LocalOptions) (rt : ListenerRuntime) : Type 0 where
  made : runtime_of o ≡ rt
  paired : tls_validate o.tls ≡ none
  served : valid_provider o.provider ≡ true
  bound : validate_addr net o.bind_policy (runtime_of o).spec.addr ≡ none
  profiled : validate_profile net (runtime_of o).profile ≡ none

runtime-Passed :
    (net : Net) (o : LocalOptions) (rt : ListenerRuntime) → runtime net o ≡ ok rt → Passed net o rt
unfolding runtime
runtime-Passed net o rt e = elim (Option-cases (tls_validate o.tls)) [
  | inr (bad, t) ↦ cc (rw (t, runtime) at e)
  | inl paired ↦ elim (Bool-cases (valid_provider o.provider)) [
    | inr unknown ↦ cc (rw (paired, unknown, runtime) at e)
    | inl served ↦ elim (Option-cases (validate_addr net o.bind_policy (runtime_of o).spec.addr)) [
      | inr (bad, a) ↦ cc (rw (paired, served, a, runtime) at e)
      | inl bound ↦ elim (Option-cases (validate_profile net (runtime_of o).profile)) [
        | inr (bad, q) ↦ cc (rw (paired, served, bound, q, runtime) at e)
        | inl profiled ↦
            let same : Result.ok (runtime_of o) ≡ ok rt =
              rw (paired, served, bound, profiled, runtime) at e in
            record {
              made = cc;
              paired = paired;
              served = served;
              bound = bound;
              profiled = profiled;
            }
      ]
    ]
  ]
]

pub runtime-runtime_of :
    (net : Net) (o : LocalOptions) (rt : ListenerRuntime)
    → runtime net o ≡ ok rt
    → runtime_of o ≡ rt
runtime-runtime_of net o rt e = (runtime-Passed net o rt e).made

or_default-filled : (value default : String) → default ≢ "" → or_default value default ≢ ""
or_default-filled value default n = elim (Bool-cases (value == "")) [
  | inl empty ↦ rw empty n
  | inr filled ↦ rw filled (λ e. ground (arith, eq_iff value "", e, filled))
]

append_text-filled : (s t : String) → t ≢ "" → append_text s t ≢ ""
append_text-filled String.[] t n e = n (sym (append.nil t) ∙ e)
append_text-filled (String.◌∷◌ c s) t n e = cc (sym (append.cons c s t) ∙ e)

runtime_of-named : (o : LocalOptions) → (runtime_of o).spec.name ≢ ""
unfolding runtime_of provider_listener_name
runtime_of-named o =
    append_text-filled o.provider (append_text "-" (or_default o.profile "default")) (
      append_text-filled "-" (or_default o.profile "default")
        (or_default-filled o.profile "default" (λ e. cc)))

runtime_of-accepted :
    (net : Net) (o : LocalOptions)
    → valid_provider o.provider ≡ true
    → validate_addr net o.bind_policy (runtime_of o).spec.addr ≡ none
    → validate_listener_spec_with_policy net (runtime_of o).spec o.bind_policy ≡ none
unfolding runtime_of
runtime_of-accepted net o served bound =
    validate_listener_spec_with_policy-none net (runtime_of o).spec o.bind_policy
      (runtime_of-named o) (or_default-filled o.profile "default" (λ e. cc)) served bound

-- A policy of the flags takes more than loopback hosts only with the opt-in and a host to be
-- reached by.
resolve_bind_policy-wildcard :
    (net : Net) (allow : Bool) (hosts : List String) (range : String) (control : Bool)
    (p : BindPolicy)
    → resolve_bind_policy net allow hosts range control ≡ some p
    → p.allow_wildcard ≡ true
    → (allow ≡ true) × (any (λ h. not (is_loopback_name net h)) hosts ≡ true)
unfolding resolve_bind_policy
resolve_bind_policy-wildcard net false hosts range control p e w = elim (Bool-cases (range == "")) [
  | inl empty ↦
      let zero : some (record { allow_wildcard = false; port_low = pos 0; port_high = pos 0 })
          ≡ some p =
        rw (empty, resolve_bind_policy) at e in
      absurd (ground (arith, ap (λ q. q.allow_wildcard) (some_inj zero), w))
  | inr given ↦ cc (rw (given, resolve_bind_policy) at e)
]
resolve_bind_policy-wildcard net true hosts range control p e w =
    elim (Bool-cases (any (λ h. not (is_loopback_name net h)) hosts)) [
      | inl reached ↦ (refl, reached)
      | inr local ↦ cc (rw (local, resolve_bind_policy) at e)
    ]

-- A host that a listener of the flags may be bound to.
abbrev pub IsFixedHost : Net → Bool → List String → String → Type 0
IsFixedHost net allow hosts host =
    (is_loopback_host net host ≡ true)
    ⊎ ((is_wildcard_host net host ≡ true)
        × (allow ≡ true)
        × (any (λ h. not (is_loopback_name net h)) hosts ≡ true))

-- Where the flags give an address policy and, under it, a listener: the listener passes the checks
-- that a control plane with that policy makes, its profile is valid, and its host is a loopback
-- one or, with the opt-in and an allowed host that is not loopback, a wildcard one.
pub runtime-IsFixedHost :
    (net : Net) (allow : Bool) (hosts : List String) (range : String) (control : Bool)
    (o : LocalOptions) (rt : ListenerRuntime)
    → resolve_bind_policy net allow hosts range control ≡ some o.bind_policy
    → runtime net o ≡ ok rt
    → (validate_listener_spec_with_policy net rt.spec o.bind_policy ≡ none)
      × IsValid net rt.profile
      × ((host : String) × (port : String) × (net.split_host_port rt.spec.addr ≡ some (host, port))
          × IsFixedHost net allow hosts host)
runtime-IsFixedHost net allow hosts range control o rt policy e =
    let passed = runtime-Passed net o rt e in
    let (host, port, split, (given, bindable), in_range) =
      (validate_addr_iff net o.bind_policy (runtime_of o).spec.addr).0 passed.bound in
    let fixed : IsFixedHost net allow hosts host = elim bindable [
      | inl loopback ↦ inl loopback
      | inr (wild, w) ↦
          let (opted, reached) =
            resolve_bind_policy-wildcard net allow hosts range control o.bind_policy policy wild in
          inr (w, opted, reached)
    ] in
    subst
      (λ r.
        (validate_listener_spec_with_policy net r.spec o.bind_policy ≡ none)
        × IsValid net r.profile
        × ((host : String) × (port : String) × (net.split_host_port r.spec.addr ≡ some (host, port))
            × IsFixedHost net allow hosts host))
      passed.made
      (
        runtime_of-accepted net o passed.served passed.bound,
        (validate_profile_iff net (runtime_of o).profile).0 passed.profiled,
        (host, port, split, fixed),
      )
