-- ===== src/Fixture/Sequence/Laws.antt =====
-- What the sequences of a store serve over a history of matching requests.
use native.Mathlib.Nat.{mod-lt, mod-eq_of_lt, add-zero}
use zolem.Base.{
  ℕ, suc, ◌+◌, ◌-◌, ◌%◌, ◌<◌, min, true, false, List, [], ◌∷◌, Option, none, some, if◌then◌else◌,
  ltb, lookup, insert, lookup-insert, ◌≡◌, refl, ◌∙◌, ap, inl, inr, arith, Bool-cases,
}
use zolem.Fixture.Sequence.{
  ExhaustAction, last, cycle, error, fallthrough, SequenceKey, same_key, same_key_iff, key_eq,
  SequenceCounters, peek, Served, past_end, step_counters, step,
}

-- The number of steps of each sequence, and what it does after the last: the configuration.
pub record Plan : Type 0 where
  pub total : SequenceKey → ℕ
  pub on_exhaust : SequenceKey → ExhaustAction

-- What the request after `n` earlier ones is served, in closed form.
abbrev pub served_at : ℕ → ExhaustAction → ℕ → Served
served_at total last n = record { index = min n (total - 1); exhausted = false }
served_at total cycle n = record { index = n % total; exhausted = false }
served_at total error n =
    if ltb n total
    then record { index = n; exhausted = false }
    else record { index = 0; exhausted = true }
served_at total fallthrough n =
    if ltb n total
    then record { index = n; exhausted = false }
    else record { index = 0; exhausted = true }

-- The counter after `n` requests.
abbrev counted : ℕ → ExhaustAction → ℕ → ℕ
counted total cycle n = n
counted total _ n = min n total

peek-insert :
    (c : SequenceCounters) (j k : SequenceKey) (n : ℕ)
    → peek (some (insert j n c)) k ≡ (if same_key j k then n else peek (some c) k)
unfolding peek
peek-insert c j k n = ground (arith, lookup-insert j k n c)

-- A request moves its own counter from the value after `n` requests to that after `n + 1`, and no
-- other.
peek-step :
    (c : SequenceCounters) (j k : SequenceKey) (t : ℕ) (a : ExhaustAction) (n : ℕ)
    → 0 < t
    → peek (some c) j ≡ counted t a n
    → peek (some (step_counters c j t a).0) k
      ≡ (if same_key j k then counted t a (suc n) else peek (some c) k)
unfolding step_counters past_end
peek-step c j k t last n pos_t e =
    ground (arith, peek-insert c j k (peek (some c) j + 1), same_key_iff j k)
peek-step c j k t cycle n pos_t e =
    ground (arith, peek-insert c j k (peek (some c) j + 1), same_key_iff j k)
peek-step c j k t error n pos_t e =
    ground (arith, peek-insert c j k (peek (some c) j + 1), same_key_iff j k)
peek-step c j k t fallthrough n pos_t e =
    ground (arith, peek-insert c j k (peek (some c) j + 1), same_key_iff j k)

served-step :
    (c : SequenceCounters) (j : SequenceKey) (t : ℕ) (a : ExhaustAction) (n : ℕ)
    → 0 < t
    → peek (some c) j ≡ counted t a n
    → (step_counters c j t a).1 ≡ served_at t a n
unfolding step_counters past_end
served-step c j t last n pos_t e = ground arith
served-step c j t cycle n pos_t e = ground (arith, λ (h : n < t). mod-eq_of_lt h)
served-step c j t error n pos_t e = ground arith
served-step c j t fallthrough n pos_t e = ground arith

module _ (plan : Plan) (nonempty : (k : SequenceKey) → 0 < plan.total k) where
  -- The store after a history of matching requests, the oldest first.
  pub run : SequenceCounters → List SequenceKey → SequenceCounters
  run c [] = c
  run c (k ∷ ks) = run (step_counters c k (plan.total k) (plan.on_exhaust k)).0 ks

  abbrev pub count_key : SequenceKey → List SequenceKey → ℕ
  count_key k [] = 0
  count_key k (j ∷ ks) = (if same_key j k then 1 else 0) + count_key k ks

  peek-run :
      (c : SequenceCounters) (ks : List SequenceKey) (before : SequenceKey → ℕ) (k : SequenceKey)
      → ((j : SequenceKey)
          → peek (some c) j ≡ counted (plan.total j) (plan.on_exhaust j) (before j))
      → peek (some (run c ks)) k
        ≡ counted (plan.total k) (plan.on_exhaust k) (before k + count_key k ks)
  unfolding run
  peek-run c [] before k h = rw add-zero (h k)
  peek-run c (j ∷ ks) before k h =
      peek-run (step_counters c j (plan.total j) (plan.on_exhaust j)).0 ks
        (λ i. before i + (if same_key j i then 1 else 0)) k next
      ∙ ap (counted (plan.total k) (plan.on_exhaust k)) (omega arith)
    where
      next :
          (i : SequenceKey)
          → peek (some (step_counters c j (plan.total j) (plan.on_exhaust j)).0) i
            ≡ counted
                (plan.total i)
                (plan.on_exhaust i)
                (before i + (if same_key j i then 1 else 0))
      next i = elim (Bool-cases (same_key j i)) [
        | inl same ↦
            let moved =
              peek-step c j i (plan.total j) (plan.on_exhaust j) (before j) (nonempty j) (h j) in
            let one_more : counted (plan.total j) (plan.on_exhaust j) (suc (before j))
                ≡ counted (plan.total i) (plan.on_exhaust i) (before i + 1) =
              ap (counted (plan.total j) (plan.on_exhaust j)) (omega arith)
              ∙ ap (λ x. counted (plan.total x) (plan.on_exhaust x) (before x + 1))
                  ((same_key_iff j i).0 same) in
            rw same ((rw same at moved) ∙ one_more)
        | inr other ↦
            let kept =
              peek-step c j i (plan.total j) (plan.on_exhaust j) (before j) (nonempty j) (h j) in
            rw other (
              (rw other at kept)
              ∙ h i
              ∙ ap (counted (plan.total i) (plan.on_exhaust i)) (omega arith))
      ]

  counted-zero : (t : ℕ) (a : ExhaustAction) → 0 ≡ counted t a 0
  counted-zero t last = omega arith
  counted-zero t cycle = omega arith
  counted-zero t error = omega arith
  counted-zero t fallthrough = omega arith

  -- Where every sequence has a step: after any history of matching requests, over all sequences
  -- interleaved, the next request of a sequence is served by how many of its own went before: each
  -- step in turn, and from then on the last one, the steps in rotation, or nothing, as its
  -- on_exhaust says.
  pub step-run :
      (ks : List SequenceKey) (k : SequenceKey)
      → (step (some (run [] ks)) k (plan.total k) (plan.on_exhaust k)).1
        ≡ served_at (plan.total k) (plan.on_exhaust k) (count_key k ks)
  unfolding step lookup
  step-run ks k =
      served-step (run [] ks) k (plan.total k) (plan.on_exhaust k) (count_key k ks) (nonempty k) (
        peek-run [] ks (λ _. 0) k (λ j. counted-zero (plan.total j) (plan.on_exhaust j))
        ∙ ap (counted (plan.total k) (plan.on_exhaust k)) (omega arith))

-- Whatever the store holds, a step that is not exhausted is one of the sequence's, so the selector
-- never reads past its steps.
pub step-index-lt :
    (c : Option SequenceCounters) (k : SequenceKey) (t : ℕ) (a : ExhaustAction)
    → (step c k t a).1.exhausted ≡ false
    → (step c k t a).1.index < t
unfolding step step_counters past_end
step-index-lt none k t a h = cc
step-index-lt (some c) k t last h = ground arith
step-index-lt (some c) k t cycle h = ground (arith, λ (p : 0 < t). mod-lt (peek (some c) k) p)
step-index-lt (some c) k t error h = ground arith
step-index-lt (some c) k t fallthrough h = ground arith

-- An exhausted one has the index 0.
pub step-index-zero :
    (c : Option SequenceCounters) (k : SequenceKey) (t : ℕ) (a : ExhaustAction)
    → (step c k t a).1.exhausted ≡ true
    → (step c k t a).1.index ≡ 0
unfolding step step_counters past_end
step-index-zero none k t a h = refl
step-index-zero (some c) k t last h = ground arith
step-index-zero (some c) k t cycle h = ground arith
step-index-zero (some c) k t error h = ground arith
step-index-zero (some c) k t fallthrough h = ground arith
