-- ===== src/Launch/Laws.antt =====
-- What a fixed listener that main starts is known to have.
use zolem.Base.{
  ℤ, pos, true, false, String, ◌==◌, List, [], ◌∷◌, none, some, ltb_ℤ, All, ok, ◌≡◌, ◌≢◌, inl, inr,
  refl, sym, ap, subst, ◌∙◌, Bool-cases, Option-cases,
}
use zolem.Runtime.{Net, ListenerRuntime}
use zolem.Runtime.Bind.{BindPolicy}
use zolem.Runtime.Store.{sort_by_name}
use zolem.Runtime.Store.Sorting.{All-unsort_by_name}
use zolem.Startup.{runtime_of, runtime, resolve_bind_policy, profile_of, or_default}
use zolem.Startup.Laws.{IsFixedHost, runtime-IsFixedHost, runtime-runtime_of}
use zolem.Launch.{
  first_bad, validate_fixed_mode_flags, Flags, FixedOptions, fixed, fixed_options, caps_of, mode_of,
  launch,
}

abbrev pub IsPositive : String × ℤ → Type 0
IsPositive c = ltb_ℤ (pos 0) c.1 ≡ true

first_bad-none : (caps : List (String × ℤ)) → first_bad caps ≡ none → All IsPositive caps
unfolding first_bad
first_bad-none [] e = tt
first_bad-none ((name, n) ∷ caps) e = elim (Bool-cases (ltb_ℤ (pos 0) n)) [
  | inl more ↦ (more, first_bad-none caps (rw more at e))
  | inr other ↦ cc (rw other at e)
]

validate_fixed_mode_flags-none :
    (backend : String) (caps : List (String × ℤ))
    → validate_fixed_mode_flags backend caps ≡ none
    → All IsPositive caps × (backend == "wasm" ≡ false)
unfolding validate_fixed_mode_flags
validate_fixed_mode_flags-none backend caps e =
    elim (Option-cases (first_bad (sort_by_name (λ c. c.0) caps))) [
      | inr (bad, b) ↦ cc (rw (b, validate_fixed_mode_flags) at e)
      | inl clean ↦ elim (Bool-cases (backend == "wasm")) [
        | inl wasm ↦ cc (rw (clean, wasm, validate_fixed_mode_flags) at e)
        | inr other ↦
            (All-unsort_by_name IsPositive (λ c. c.0) caps (first_bad-none _ clean), other)
      ]
    ]

fixed_inj : {o p : FixedOptions} → fixed o ≡ fixed p → o ≡ p
fixed_inj e = cc

mode_of-fixed :
    (f : Flags) (p : BindPolicy) (o : FixedOptions)
    → (f.local_admin_addr == "") ≡ true
    → mode_of f p ≡ fixed o
    → (fixed_options f p ≡ o) × All IsPositive (caps_of f) × ((f.local_backend == "wasm") ≡ false)
unfolding mode_of
mode_of-fixed f p o local e =
    elim (Option-cases (validate_fixed_mode_flags f.local_backend (caps_of f))) [
      | inr (bad, v) ↦ cc (rw (local, v, mode_of) at e)
      | inl clean ↦
          let (capped, other) = validate_fixed_mode_flags-none f.local_backend (caps_of f) clean in
          (fixed_inj (rw (local, clean, mode_of) at e), capped, other)
    ]

-- The caps that a recorder is given, and those of the flags.
abbrev pub recorder_caps : FixedOptions → List ℤ
recorder_caps o =
    o.record_request_body_cap_bytes ∷ o.record_response_body_cap_bytes ∷ o.record_stream_event_cap
    ∷ []

abbrev pub flag_caps : Flags → List ℤ
flag_caps f =
    f.local_record_request_body_cap ∷ f.local_record_response_body_cap
    ∷ f.local_record_stream_event_cap ∷ []

abbrev pub IsAbove0 : ℤ → Type 0
IsAbove0 n = ltb_ℤ (pos 0) n ≡ true

abbrev pub IsChosen : Net → Flags → FixedOptions → Type 0
IsChosen net f o =
    (resolve_bind_policy net f.allow_non_loopback_bind f.allowed_hosts f.listener_port_range false
      ≡ some o.local.bind_policy)
    × (o.local.backend ≡ f.local_backend)
    × (recorder_caps o ≡ flag_caps f)
    × All IsAbove0 (recorder_caps o)
    × ((f.local_backend == "wasm") ≡ false)

mode_of-IsChosen :
    (net : Net) (f : Flags) (p : BindPolicy) (o : FixedOptions)
    → (f.local_admin_addr == "") ≡ true
    → resolve_bind_policy net f.allow_non_loopback_bind f.allowed_hosts f.listener_port_range false
      ≡ some p
    → mode_of f p ≡ fixed o
    → IsChosen net f o
unfolding fixed_options
mode_of-IsChosen net f p o local resolved e =
    let (same, capped, other) = mode_of-fixed f p o local e in
    let caps : recorder_caps o ≡ flag_caps f = ap recorder_caps (sym same) in
    (
      resolved ∙ ap (λ q. some q.local.bind_policy) same,
      ap (λ q. q.local.backend) (sym same),
      caps,
      subst (All IsAbove0) (sym caps) capped,
      other,
    )

launch-administered :
    (net : Net) (f : Flags) (o : FixedOptions)
    → f.show_version ≡ false
    → (f.local_admin_addr == "") ≡ false
    → launch net f ≢ fixed o
unfolding launch mode_of
launch-administered net f o hidden administered e =
    elim (Option-cases (
      resolve_bind_policy net f.allow_non_loopback_bind f.allowed_hosts f.listener_port_range
        true)) [
          | inl unresolved ↦ cc (rw (hidden, administered, unresolved, launch) at e)
          | inr (p, resolved) ↦ cc (rw (hidden, administered, resolved, launch, mode_of) at e)
        ]

launch-local :
    (net : Net) (f : Flags) (o : FixedOptions)
    → f.show_version ≡ false
    → (f.local_admin_addr == "") ≡ true
    → launch net f ≡ fixed o
    → IsChosen net f o
unfolding launch
launch-local net f o hidden local e = elim (Bool-cases (f.local_provider == "")) [
  | inl unserved ↦ cc (rw (hidden, local, unserved, launch) at e)
  | inr served ↦
      elim (Option-cases (
        resolve_bind_policy net f.allow_non_loopback_bind f.allowed_hosts f.listener_port_range
          false)) [
            | inl unresolved ↦ cc (rw (hidden, local, served, unresolved, launch) at e)
            | inr (p, resolved) ↦
                mode_of-IsChosen net f p o local resolved
                  (rw (hidden, local, served, resolved, launch) at e)
          ]
]

launch-IsChosen :
    (net : Net) (f : Flags) (o : FixedOptions) → launch net f ≡ fixed o → IsChosen net f o
unfolding launch
launch-IsChosen net f o e = elim (Bool-cases f.show_version) [
  | inl shown ↦ cc (rw (shown, launch) at e)
  | inr hidden ↦ elim (Bool-cases (f.local_admin_addr == "")) [
    | inr administered ↦ absurd (launch-administered net f o hidden administered e)
    | inl local ↦ launch-local net f o hidden local e
  ]
]

or_default-other :
    (value default : String)
    → (value == "wasm") ≡ false
    → (default == "wasm") ≡ false
    → (or_default value default == "wasm") ≡ false
or_default-other value default v d = elim (Bool-cases (value == "")) [
  | inl empty ↦ rw empty d
  | inr filled ↦ rw filled v
]

-- Where main takes its flags to a fixed listener and that listener's options are accepted: the
-- three caps of its recorder are those of the flags and positive, its backend is not "wasm", and
-- its host is a loopback one or, with -allow-non-loopback-bind and an allowed host that is not
-- loopback, a wildcard one.
pub launch-runtime :
    (net : Net) (f : Flags) (o : FixedOptions) (rt : ListenerRuntime)
    → launch net f ≡ fixed o
    → runtime net o.local ≡ ok rt
    → (recorder_caps o ≡ flag_caps f)
      × All IsAbove0 (recorder_caps o)
      × ((rt.profile.backend == "wasm") ≡ false)
      × ((host : String) × (port : String) × (net.split_host_port rt.spec.addr ≡ some (host, port))
          × IsFixedHost net f.allow_non_loopback_bind f.allowed_hosts host)
unfolding runtime_of profile_of
launch-runtime net f o rt started made =
    let (resolved, backend, caps, capped, other) = launch-IsChosen net f o started in
    let (_, _, host) =
      runtime-IsFixedHost net f.allow_non_loopback_bind f.allowed_hosts f.listener_port_range false
        o.local rt resolved made in
    (
      caps,
      capped,
      subst (λ r. (r.profile.backend == "wasm") ≡ false) (runtime-runtime_of net o.local rt made)
          (or_default-other o.local.backend "lorem" (ap (λ b. b == "wasm") backend ∙ other) refl),
      host,
    )
