-- ===== src/Runtime/Delay/Laws.antt =====
-- The waits of a valid profile.
use mathlib.Core.Path.{ap₂}
use zolem.Base.{
  ◌∙◌, ltb, ℕ, suc, ◌+◌, ◌-◌, ◌*◌, ◌≤◌, ◌<◌, ◌^◌, ℤ, pos, pos_part, true, false, ltb_ℤ,
  if◌then◌else◌, subst, eq_iff, Option, none, some, ◌≡◌, ap, ◌⊎◌, inl, inr, arith, Bool-cases,
}
use zolem.Runtime.{ListenerRuntime, Net}
use zolem.Runtime.Profile.Laws.{IsValid}
use zolem.Runtime.Request.{Context, with_listener_runtime}
use zolem.Runtime.Delay.{
  Rand, sleep, wrap_int64, add_nat, duration, draw, wait_of, span, random_ms, stream_seed,
  stream_delay_for_request, or_zero,
}

-- The most milliseconds that a time.Duration holds, in (2 ^ 63 - 1) nanoseconds.
abbrev pub max_ms : ℕ
max_ms = 9223372036854

wrap_int64-small : (n : ℕ) → n < 2 ^ 63 → wrap_int64 (pos n) ≡ pos n
wrap_int64-small n h = ground (arith, h)

duration-short : (n : ℕ) → n ≤ max_ms → duration (pos n) ≡ pos (n * 1000000)
duration-short n h = wrap_int64-small (n * 1000000) (omega (arith, h))

random_ms-wide :
    (rand : Rand) (seed low high : ℤ) (drawn m : ℕ)
    → ltb_ℤ low high ≡ true
    → span low high ≡ pos (suc m)
    → random_ms rand low high seed drawn ≡ some (add_nat low (rand.intn seed drawn (suc m)))
unfolding random_ms
random_ms-wide rand seed low high drawn m wide spanned =
    ap
      (λ t.
        if t
        then elim (draw rand seed (span low high) drawn) as (λ _. Option ℤ) [
          | none ↦ none
          | some k ↦ some (add_nat low k)
        ]
        else some low)
      wide
    ∙ ap
        (λ n. elim (draw rand seed n drawn) as (λ _. Option ℤ) [
          | none ↦ none
          | some k ↦ some (add_nat low k)
        ])
        spanned

random_ms-narrow :
    (rand : Rand) (seed low high : ℤ) (drawn : ℕ)
    → ltb_ℤ low high ≡ false
    → random_ms rand low high seed drawn ≡ some low
unfolding random_ms
random_ms-narrow rand seed low high drawn narrow =
    ap
      (λ t.
        if t
        then elim (draw rand seed (span low high) drawn) as (λ _. Option ℤ) [
          | none ↦ none
          | some k ↦ some (add_nat low k)
        ]
        else some low)
      narrow

random_ms_bounds :
    (rand : Rand) (seed : ℤ) (drawn low high : ℕ)
    → low ≤ high
    → high ≤ max_ms
    → (n : ℕ) × (random_ms rand (pos low) (pos high) seed drawn ≡ some (pos n))
      × (low ≤ n)
      × (n ≤ high)
random_ms_bounds rand seed drawn low high order short = elim (Bool-cases (ltb low high)) [
  | inl wide ↦
      let lt : low < high = ground (arith, wide) in
      let gap = high - suc low in
      let k = rand.intn seed drawn (suc (suc gap)) in
      let bound = rand.intn_bound seed drawn (suc (suc gap)) (omega arith) in
      let inside : low + k ≤ high = omega (arith, lt, bound) in
      let spanned : span (pos low) (pos high) ≡ pos (suc (suc gap)) =
        wrap_int64-small (high + 0 - (low + 0) + 1) (omega (arith, short))
        ∙ ap pos (omega (arith, lt)) in
      let added : add_nat (pos low) k ≡ pos (low + k) =
        ap wrap_int64 {y = pos (low + k)} (ground arith)
        ∙ wrap_int64-small (low + k) (omega (arith, inside, short)) in
      (
        low + k,
        random_ms-wide rand seed (pos low) (pos high) drawn (suc gap) (ground (arith, wide)) spanned
            ∙ ap some added,
        omega arith,
        inside,
      )
  | inr narrow ↦ (
    low,
    random_ms-narrow rand seed (pos low) (pos high) drawn (ground (arith, narrow)),
    omega arith,
    order,
  )
]

-- Where a valid profile's milliseconds are at most 9,223,372,036,854, so that their nanoseconds
-- fit an int64, the wait is none, the fixed milliseconds in nanoseconds, or a number of
-- milliseconds between the two bounds of a random delay, in nanoseconds, at every chunk and for
-- every source of random numbers: nothing wraps or panics.
pub stream_delay_bounds :
    (rand : Rand) (net : Net) (ctx : Context) (rt : ListenerRuntime) (chunk : ℕ)
    → IsValid net rt.profile
    → pos_part rt.profile.stream_delay.ms ≤ max_ms
    → pos_part rt.profile.stream_delay.max_ms ≤ max_ms
    → let d = rt.profile.stream_delay in
      let wait = stream_delay_for_request rand (with_listener_runtime ctx rt) chunk in
      ((d.mode ≡ "") × (wait ≡ none))
      ⊎ ((n : ℕ) × (d.mode ≡ "fixed") × (d.ms ≡ pos n) × (wait ≡ some (sleep (pos (n * 1000000)))))
      ⊎ ((low : ℕ) × (high : ℕ) × (n : ℕ) × (d.mode ≡ "random")
          × (d.min_ms ≡ pos low)
          × (d.max_ms ≡ pos high)
          × (wait ≡ some (sleep (pos (n * 1000000))))
          × (low ≤ n)
          × (n ≤ high))
unfolding stream_delay_for_request with_listener_runtime
stream_delay_bounds rand net ctx rt chunk v short_ms short_max =
    let d = rt.profile.stream_delay in
    let fixed = eq_iff d.mode "fixed" in
    let random = eq_iff d.mode "random" in
    elim v.delay [
      | inl off ↦
          inl (off.0, ground (arith, off.0, fixed, random, eq_iff "" "fixed", eq_iff "" "random"))
      | inr (inl (mode, (n, ms), _, _, _)) ↦
          let lasts : duration d.ms ≡ pos (n * 1000000) =
            ap duration ms ∙ duration-short n (subst (λ m. pos_part m ≤ max_ms) ms short_ms) in
          inr (inl (n, mode, ms, ground (arith, fixed, mode, lasts)))
      | inr (inr (mode, _, (low, high, a, b, order))) ↦
          let seed = stream_seed rt.profile.name (or_zero d.seed) ctx.sequence in
          let short : high ≤ max_ms = subst (λ m. pos_part m ≤ max_ms) b short_max in
          let (n, e, from_low, to_high) = random_ms_bounds rand seed chunk low high order short in
          let drawn : wait_of rand (random_ms rand d.min_ms d.max_ms seed chunk)
              ≡ sleep (pos (n * 1000000)) =
            ap₂ (λ x y. wait_of rand (random_ms rand x y seed chunk)) a b
            ∙ ap (wait_of rand) e
            ∙ ap sleep (duration-short n (omega (arith, to_high, short))) in
          inr (
            inr (
              low,
              high,
              n,
              mode,
              a,
              b,
              ground (arith, fixed, random, mode, drawn, eq_iff "random" "fixed"),
              from_low,
              to_high,
            ))
    ]
