-- ===== src/Runtime/Counters.antt =====
-- ProfileCounters of internal/runtime/counters.go. A nil pointer is `none`; uint64 wraps.
pub mod Laws
use zolem.Base.{
  ℕ, ◌+◌, ◌%◌, ◌^◌, String, List, [], ◌∷◌, Option, none, some, lookup, insert, string_eq,
}

pub record ProfileSequence : Type 0 where
  pub profile_request : ℕ
  pub template_render : ℕ

abbrev pub ProfileCounters : Type 0
ProfileCounters = List (String × ProfileSequence)

abbrev pub new_sequence : ProfileSequence
new_sequence = record { profile_request = 0; template_render = 0 }

abbrev pub u64 : ℕ → ℕ
u64 n = n % 2 ^ 64

-- The entry, made if it is missing; the caller writes it back with its increment.
unfoldable pub sequence : ProfileCounters → String → ProfileSequence
sequence c profile = elim (lookup profile c) [ none ↦ new_sequence | some seq ↦ seq ]

unfoldable pub increment_profile_request :
    Option ProfileCounters → String → Option ProfileCounters × ℕ
unfolding sequence
increment_profile_request none profile = (none, 0)
increment_profile_request (some c) profile =
    let seq = sequence c profile in
    let n = u64 (seq.profile_request + 1) in
    (some (insert profile (record seq { profile_request = n }) c), n)

unfoldable pub increment_template_render :
    Option ProfileCounters → String → Option ProfileCounters × ℕ
unfolding sequence
increment_template_render none profile = (none, 0)
increment_template_render (some c) profile =
    let seq = sequence c profile in
    let n = u64 (seq.template_render + 1) in
    (some (insert profile (record seq { template_render = n }) c), n)
