-- ===== src/Runtime/Counters/Laws.antt =====
-- What each counter counts.
use zolem.Base.{
  ℕ, ◌+◌, String, ◌==◌, eq_iff, List, [], ◌∷◌, none, some, lookup, insert, lookup-insert, string_eq,
  ◌≡◌, arith, if◌then◌else◌,
}
use zolem.Runtime.Counters.{
  ProfileSequence, ProfileCounters, u64, sequence, increment_profile_request,
  increment_template_render,
}

-- One use of the counters.
pub data Use : Type 0 where
  request render : String → Use

pub step : ProfileCounters → Use → ProfileCounters
step c (request p) = elim (increment_profile_request (some c) p).0 [ none ↦ c | some d ↦ d ]
step c (render p) = elim (increment_template_render (some c) p).0 [ none ↦ c | some d ↦ d ]

pub run : ProfileCounters → List Use → ProfileCounters
unfolding step
run c [] = c
run c (u ∷ us) = run (step c u) us

-- How many requests, and how many renderings, of a profile a list of uses has.
abbrev pub requests_of : String → List Use → ℕ
requests_of p [] = 0
requests_of p (request q ∷ us) = (if q == p then 1 else 0) + requests_of p us
requests_of p (render q ∷ us) = requests_of p us

abbrev pub renders_of : String → List Use → ℕ
renders_of p [] = 0
renders_of p (request q ∷ us) = renders_of p us
renders_of p (render q ∷ us) = (if q == p then 1 else 0) + renders_of p us

sequence-insert :
    (c : ProfileCounters) (p q : String) (s : ProfileSequence)
    → sequence (insert q s c) p ≡ (if q == p then s else sequence c p)
unfolding sequence
sequence-insert c p q s = ground (arith, lookup-insert q p s c)

step-requests :
    (c : ProfileCounters) (u : Use) (p : String)
    → u64 (sequence (step c u) p).profile_request
      ≡ u64 ((sequence c p).profile_request + requests_of p (u ∷ []))
unfolding step increment_profile_request increment_template_render
step-requests c (request q) p = ground (
  arith,
  sequence-insert c p q
      (record (sequence c q) { profile_request = u64 ((sequence c q).profile_request + 1) }),
  eq_iff q p,
)
step-requests c (render q) p = ground (
  arith,
  sequence-insert c p q
      (record (sequence c q) { template_render = u64 ((sequence c q).template_render + 1) }),
  eq_iff q p,
)

step-renders :
    (c : ProfileCounters) (u : Use) (p : String)
    → u64 (sequence (step c u) p).template_render
      ≡ u64 ((sequence c p).template_render + renders_of p (u ∷ []))
unfolding step increment_profile_request increment_template_render
step-renders c (request q) p = ground (
  arith,
  sequence-insert c p q
      (record (sequence c q) { profile_request = u64 ((sequence c q).profile_request + 1) }),
  eq_iff q p,
)
step-renders c (render q) p = ground (
  arith,
  sequence-insert c p q
      (record (sequence c q) { template_render = u64 ((sequence c q).template_render + 1) }),
  eq_iff q p,
)

requests_of-cons :
    (p : String) (u : Use) (us : List Use)
    → requests_of p (u ∷ us) ≡ requests_of p (u ∷ []) + requests_of p us
requests_of-cons p (request q) us = omega arith
requests_of-cons p (render q) us = omega arith

renders_of-cons :
    (p : String) (u : Use) (us : List Use)
    → renders_of p (u ∷ us) ≡ renders_of p (u ∷ []) + renders_of p us
renders_of-cons p (request q) us = omega arith
renders_of-cons p (render q) us = omega arith

run-requests :
    (c : ProfileCounters) (us : List Use) (p : String)
    → u64 (sequence (run c us) p).profile_request
      ≡ u64 ((sequence c p).profile_request + requests_of p us)
unfolding run
run-requests c [] p = omega arith
run-requests c (u ∷ us) p =
    omega (arith, run-requests (step c u) us p, step-requests c u p, requests_of-cons p u us)

run-renders :
    (c : ProfileCounters) (us : List Use) (p : String)
    → u64 (sequence (run c us) p).template_render
      ≡ u64 ((sequence c p).template_render + renders_of p us)
unfolding run
run-renders c [] p = omega arith
run-renders c (u ∷ us) p =
    omega (arith, run-renders (step c u) us p, step-renders c u p, renders_of-cons p u us)

-- After any history from empty counters, the next request of a profile gets the number of its
-- requests so far plus one, and the next rendering that of its renderings, both in 64 bits; neither
-- the other counter nor another profile counts.
pub increment_ordinals :
    (us : List Use) (p : String)
    → ((increment_profile_request (some (run [] us)) p).1 ≡ u64 (requests_of p us + 1))
      × ((increment_template_render (some (run [] us)) p).1 ≡ u64 (renders_of p us + 1))
unfolding increment_profile_request increment_template_render sequence lookup
increment_ordinals us p = (omega (arith, run-requests [] us p), omega (arith, run-renders [] us p))
