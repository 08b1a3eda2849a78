-- ===== src/Fixture/Sequence.antt =====
-- internal/fixture/sequence.go: the step of a sequence that each matching request is served.
pub mod Laws
use zolem.Base.{
  ℕ, suc, ◌+◌, ◌-◌, ◌%◌, Bool, true, false, ◌&&◌, String, ◌==◌, eq_iff, List, Option, none, some,
  if◌then◌else◌, ltb, eqb, Eq, lookup, insert, Result, ok, err, ◌≡◌, ◌↔◌, arith, refl,
}

pub data ExhaustAction : Type 0 where
  last cycle error fallthrough : ExhaustAction

-- An empty value is the default, `last`; the error carries the value.
unfoldable pub parse_exhaust_action : String → Result String ExhaustAction
parse_exhaust_action s =
    if s == ""
    then ok last
    else if s == "last"
    then ok last
    else if s == "cycle"
    then ok cycle
    else if s == "error"
    then ok error
    else if s == "fallthrough"
    then ok fallthrough
    else err s

pub record SequenceKey : Type 0 where
  pub profile : String
  pub namespace : String
  pub id : String

abbrev pub same_key : SequenceKey → SequenceKey → Bool
same_key a b = a.profile == b.profile && a.namespace == b.namespace && a.id == b.id

pub same_key_iff : (a b : SequenceKey) → (same_key a b ≡ true) ↔ (a ≡ b)
same_key_iff a b = (
  λ h. ground (arith, eq_iff a.profile b.profile, eq_iff a.namespace b.namespace, eq_iff a.id b.id),
  λ h. ground (arith, eq_iff a.profile b.profile, eq_iff a.namespace b.namespace, eq_iff a.id b.id),
)

instance abbrev pub key_eq : Eq SequenceKey
key_eq = record { beq = same_key; beq_iff = same_key_iff }

abbrev pub SequenceCounters : Type 0
SequenceCounters = List (SequenceKey × ℕ)

abbrev pub or_zero : Option ℕ → ℕ
or_zero none = 0
or_zero (some n) = n

-- A missing key counts 0; so does a nil store.
unfoldable pub peek : Option SequenceCounters → SequenceKey → ℕ
peek none key = 0
peek (some c) key = or_zero (lookup key c)

-- The index to serve, and whether the sequence is exhausted.
pub record Served : Type 0 where
  pub index : ℕ
  pub exhausted : Bool

-- The switch for a counter that has passed the last step.
pub past_end : SequenceCounters → SequenceKey → ℕ → ℕ → ExhaustAction → SequenceCounters × Served
past_end c key n total last = (c, record { index = total - 1; exhausted = false })
past_end c key n total cycle =
    (insert key (n + 1) c, record { index = n % total; exhausted = false })
past_end c key n total error = (c, record { index = 0; exhausted = true })
past_end c key n total fallthrough = (c, record { index = 0; exhausted = true })

step_counters : SequenceCounters → SequenceKey → ℕ → ExhaustAction → SequenceCounters × Served
unfolding past_end peek
step_counters c key total on_exhaust =
    let n = peek (some c) key in
    if eqb total 0
    then (c, record { index = 0; exhausted = true })
    else if ltb n total
    then (insert key (n + 1) c, record { index = n; exhausted = false })
    else past_end c key n total on_exhaust

unfoldable pub step :
    Option SequenceCounters → SequenceKey → ℕ → ExhaustAction → Option SequenceCounters × Served
unfolding step_counters
step none key total on_exhaust = (none, record { index = 0; exhausted = true })
step (some c) key total on_exhaust =
    let (c', served) = step_counters c key total on_exhaust in (some c', served)
