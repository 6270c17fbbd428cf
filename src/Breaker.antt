-- ===== src/Breaker.antt =====
-- The circuit breaker of an analyzer (internal/analysis/circuitbreaker.go). An instant is the number of
-- nanoseconds since the zero time, and 0 is the zero time; `now ()` is an argument of the operations
-- that read the clock. A duration is an int64 of nanoseconds, as its bit pattern. The counters grow by
-- one in a call and are left unbounded. Each operation runs under the mutex, as one step.
pub mod Backoff
pub mod Machine
pub mod Probe
pub mod Refused
mod Tests
use gmeow.Base.{
  string_eq, ℕ, zero, suc, ◌+◌, ◌-◌, ◌*◌, ◌%◌, ◌^◌, String, Bool, true, false, ◌&&◌, ◌||◌, Option,
  none, some, List, [], ◌∷◌, ltb, leb, if◌then◌else◌, lookup, insert, delete,
}
use Prim.Native.String.{◌++◌ as str_append}

pub record BreakerState : Type 0 where
  pub open_until : ℕ
  pub failures : ℕ
  pub open_sequence : ℕ
  pub half_open : Bool

pub record CircuitBreaker : Type 0 where
  pub states : List (String × BreakerState)
  pub threshold : ℕ
  pub base_backoff : ℕ
  pub max_backoff : ℕ

abbrev pub second : ℕ
second = 1_000_000_000

abbrev pub default_threshold : ℕ
default_threshold = 5

abbrev pub default_base_backoff : ℕ
default_base_backoff = 15 * second

abbrev pub default_max_backoff : ℕ
default_max_backoff = 600 * second

unfoldable pub new_circuit_breaker : CircuitBreaker
new_circuit_breaker = record {
  states = [];
  threshold = default_threshold;
  base_backoff = default_base_backoff;
  max_backoff = default_max_backoff;
}

unfoldable pub analyzer_key : String → String → String
analyzer_key name version = str_append name (str_append "@" version)

-- `a <= b` of two int64 values, by their bit patterns.
abbrev pub int64_leb : ℕ → ℕ → Bool
int64_leb a b = leb ((a + 2 ^ 63) % 2 ^ 64) ((b + 2 ^ 63) % 2 ^ 64)

-- The loop of `backoffFor`, over the rounds left.
pub double_until : ℕ → ℕ → ℕ → ℕ
double_until max_backoff zero backoff =
    if int64_leb backoff max_backoff then backoff else max_backoff
double_until max_backoff (suc rounds) backoff =
    let doubled = backoff * 2 % 2 ^ 64 in
    let rest = double_until max_backoff rounds doubled in
    if int64_leb max_backoff doubled then max_backoff else rest

unfoldable pub backoff_for : CircuitBreaker → ℕ → ℕ
unfolding double_until
backoff_for breaker sequence = double_until breaker.max_backoff (sequence - 1) breaker.base_backoff

-- The part of `allow` below the `nil` test: the decision, and the state that is left.
unfoldable pub admit : ℕ → ℕ → BreakerState → Bool × BreakerState
admit threshold now state =
    if ltb state.failures threshold
    then (true, state)
    else if ltb now state.open_until
    then (false, state)
    else if state.half_open
    then (false, state)
    else (true, record state { half_open = true })

unfoldable pub allow : CircuitBreaker → ℕ → String → Bool × CircuitBreaker
allow breaker now key = elim (lookup key breaker.states) [
  | none ↦ (true, breaker)
  | some state ↦
      let (ok, state') = admit breaker.threshold now state in
      (ok, record breaker { states = insert key state' breaker.states })
]

unfoldable pub record_success : CircuitBreaker → String → CircuitBreaker
record_success breaker key = record breaker { states = delete key breaker.states }

abbrev pub fresh_state : BreakerState
fresh_state = record { open_until = 0; failures = 0; open_sequence = 0; half_open = false }

-- The state of a key, made anew where the map has none.
unfoldable pub entry : CircuitBreaker → String → BreakerState
entry breaker key = elim (lookup key breaker.states) [ none ↦ fresh_state | some state ↦ state ]

-- The part of `recordFailure` below the `nil` test.
unfoldable pub fail : CircuitBreaker → ℕ → BreakerState → BreakerState
fail breaker now state =
    let failures = state.failures + 1 in
    if state.half_open || leb breaker.threshold failures
    then record {
      open_until = now + backoff_for breaker (state.open_sequence + 1);
      failures = failures;
      open_sequence = state.open_sequence + 1;
      half_open = false;
    }
    else record state { failures = failures }

unfoldable pub record_failure : CircuitBreaker → ℕ → String → CircuitBreaker
record_failure breaker now key = record breaker {
  states = insert key (fail breaker now (entry breaker key)) breaker.states;
}

unfoldable pub is_open : CircuitBreaker → ℕ → String → Bool
is_open breaker now key = elim (lookup key breaker.states) [
  | none ↦ false
  | some state ↦ if ltb state.failures breaker.threshold then false else ltb now state.open_until
]
