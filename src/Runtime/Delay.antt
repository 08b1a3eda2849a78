-- ===== src/Runtime/Delay.antt =====
-- StreamDelayForRequest and streamSeed of internal/runtime/store.go: the waits between the chunks
-- of a streamed response.
pub mod Laws
use Prim.Native.Nat.{bit_xor}
use zolem.Base.{
  ◌<◌, ℕ, zero, suc, ◌+◌, ◌-◌, ◌*◌, ◌/◌, ◌%◌, ◌^◌, ℤ, pos, negsuc, ltb_ℤ, pos_part, neg_part, Bool,
  String, ◌==◌, List, [], ◌∷◌, ◌++◌, Option, none, some, if◌then◌else◌, ltb, leb, codes,
}
use zolem.Runtime.{StreamDelay, ListenerRuntime}
use zolem.Runtime.Request.{Context}

-- The bytes of a code point in UTF-8.
abbrev pub utf8 : ℕ → List ℕ
utf8 c =
    if ltb c 0x80
    then c ∷ []
    else if ltb c 0x800
    then (0xc0 + c / 64) ∷ (0x80 + c % 64) ∷ []
    else if ltb c 0x10000
    then (0xe0 + c / 4096) ∷ (0x80 + c / 64 % 64) ∷ (0x80 + c % 64) ∷ []
    else (0xf0 + c / 262144) ∷ (0x80 + c / 4096 % 64) ∷ (0x80 + c / 64 % 64) ∷ (0x80 + c % 64) ∷ []

abbrev pub bytes : List ℕ → List ℕ
bytes [] = []
bytes (c ∷ s) = utf8 c ++ bytes s

-- The low eight bytes of a number, the least first.
unfoldable pub little_endian : ℕ → ℕ → List ℕ
little_endian zero n = []
little_endian (suc k) n = (n % 256) ∷ little_endian k (n / 256)

-- hash/fnv, New64a: xor, then multiply, in 64 bits.
unfoldable pub fnv64a : ℕ → List ℕ → ℕ
fnv64a h [] = h
fnv64a h (b ∷ bs) = fnv64a (bit_xor h b * 1099511628211 % 2 ^ 64) bs

-- uint64(x) of an int64, and back.
abbrev pub to_uint64 : ℤ → ℕ
to_uint64 (pos n) = n % 2 ^ 64
to_uint64 (negsuc n) = 2 ^ 64 - 1 - n % 2 ^ 64

abbrev pub to_int64 : ℕ → ℤ
to_int64 n = if ltb n (2 ^ 63) then pos n else negsuc (2 ^ 64 - 1 - n)

unfoldable pub stream_seed : String → ℤ → ℕ → ℤ
unfolding fnv64a little_endian
stream_seed profile_name seed ordinal = to_int64 (
    fnv64a 14695981039346656037 (
      bytes (codes profile_name)
      ++ 0 ∷ little_endian 8 (to_uint64 seed)
      ++ little_endian 8 ordinal))

-- math/rand: the numbers of a source are a function of its seed and of how many were drawn. Intn
-- gives a number below its bound, where that is positive, and panics otherwise.
pub record Rand : Type 0 where
  pub intn : (seed : ℤ) → (drawn : ℕ) → (bound : ℕ) → ℕ
  pub intn_bound : (seed : ℤ) (drawn bound : ℕ) → 0 < bound → intn seed drawn bound < bound

abbrev pub or_zero : Option ℤ → ℤ
or_zero none = pos 0
or_zero (some n) = n

-- What an int64 makes of a number.
abbrev pub wrap_int64 : ℤ → ℤ
wrap_int64 n = to_int64 (to_uint64 n)

-- a + n on int.
abbrev pub add_nat : ℤ → ℕ → ℤ
add_nat a n = wrap_int64 (
    if leb (neg_part a) (pos_part a + n)
    then pos (pos_part a + n - neg_part a)
    else negsuc (neg_part a - (pos_part a + n) - 1))

-- b - a + 1 on int for a < b, the bound that Intn is given.
abbrev pub span : ℤ → ℤ → ℤ
span a b = wrap_int64 (pos (pos_part b + neg_part a - (pos_part a + neg_part b) + 1))

-- time.Duration(ms) * time.Millisecond: nanoseconds on int64.
abbrev pub duration : ℤ → ℤ
duration (pos n) = wrap_int64 (pos (n * 1000000))
duration (negsuc n) = wrap_int64 (negsuc ((n + 1) * 1000000 - 1))

-- The wait before a chunk: what sleepContext is given, which returns at once unless that is
-- positive, or a panic of Intn.
pub data Wait : Type 0 where
  sleep : (nanoseconds : ℤ) → Wait
  panics : Wait

module _ (rand : Rand) where
  -- Intn of the span; `none` is a panic.
  abbrev pub draw : ℤ → ℤ → ℕ → Option ℕ
  draw seed (pos (suc n)) drawn = some (rand.intn seed drawn (suc n))
  draw seed _ drawn = none

  -- The milliseconds of one wait of a random delay; `none` is a panic.
  pub random_ms : ℤ → ℤ → ℤ → ℕ → Option ℤ
  random_ms min_ms max_ms seed drawn =
      if ltb_ℤ min_ms max_ms
      then elim (draw seed (span min_ms max_ms) drawn) [
        | none ↦ none
        | some k ↦ some (add_nat min_ms k)
      ]
      else some min_ms

  abbrev pub wait_of : Option ℤ → Wait
  wait_of none = panics
  wait_of (some ms) = sleep (duration ms)

  -- The wait before chunk number `chunk`; `none` is a nil StreamDelayFunc.
  unfoldable pub stream_delay_for_request : Context → ℕ → Option Wait
  unfolding random_ms
  stream_delay_for_request ctx chunk = elim ctx.listener [
    | none ↦ none
    | some rt ↦
        let d = rt.profile.stream_delay in
        if d.mode == "fixed"
        then some (sleep (duration d.ms))
        else if d.mode == "random"
        then some (
            wait_of (
              random_ms d.min_ms d.max_ms
                (stream_seed rt.profile.name (or_zero d.seed) ctx.sequence) chunk))
        else none
  ]
