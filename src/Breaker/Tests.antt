-- ===== src/Breaker/Tests.antt =====
-- Runs of the circuit breaker, and its theorems at concrete inputs.
use gmeow.Base.{
  string_eq, ℕ, ◌+◌, ◌-◌, ◌*◌, ◌^◌, min, String, ◌≡◌, refl, ◌↔◌, ◌⊎◌, true, false, ◌&&◌, not, List,
  [], ◌∷◌, arith, if◌then◌else◌, eq_iff, lookup, insert, delete, length,
}
use gmeow.Breaker.{
  CircuitBreaker, new_circuit_breaker, second, backoff_for, analyzer_key, admit, allow, entry, fail,
  record_failure, is_open,
}
use gmeow.Breaker.Backoff.{backoff_for-min}
use gmeow.Breaker.Machine.{
  Call, AllSane, calls, call, new-AllSane, calls-AllSane, record_failure-window, lookup-call_ne,
}
use gmeow.Breaker.Refused.{allow-is_open}
use gmeow.Breaker.Probe.{admitted, any_elapsed, admitted_tripped, admitted_closed}

program : Unit {0}
unfolding new_circuit_breaker backoff_for analyzer_key admit allow entry fail record_failure is_open
    lookup insert delete
program = tt

abbrev key : String
key = "text.extract@1"

abbrev down : List (String × Call)
down =
    (key, Call.failure_at 1)
    ∷ (key, Call.failure_at 2)
    ∷ (key, Call.failure_at 3)
    ∷ (key, Call.failure_at 4)
    ∷ (key, Call.failure_at 5)
    ∷ []

abbrev tripped : CircuitBreaker
tripped = calls new_circuit_breaker down

key_test : analyzer_key "text.extract" "1" ≡ key
unfolding program
key_test = refl

tripped_test : (entry tripped key).open_until ≡ 5 + 15 * second
unfolding program
tripped_test = refl

open_test : is_open tripped 6 key ≡ true
unfolding program
open_test = refl

denied_test : (allow tripped 6 key).0 ≡ false
unfolding program
denied_test = refl

tripped-threshold : tripped.threshold ≡ 5
unfolding program
tripped-threshold = refl

tripped-failures : (entry tripped key).failures ≡ 5
unfolding program
tripped-failures = refl

backoff_for-min_example :
    backoff_for new_circuit_breaker 7
    ≡ min (new_circuit_breaker.base_backoff * 2 ^ (7 - 1)) new_circuit_breaker.max_backoff
unfolding program
backoff_for-min_example = backoff_for-min new_circuit_breaker 7 (omega arith) (omega arith)

calls-AllSane_example : AllSane tripped
unfolding new_circuit_breaker
calls-AllSane_example = calls-AllSane new_circuit_breaker down (omega arith) new-AllSane

record_failure-window_example :
    (entry (record_failure tripped 20 key) key).open_until
    ≡ 20
      + min
          (tripped.base_backoff
            * 2 ^ ((entry (record_failure tripped 20 key) key).failures - tripped.threshold))
          tripped.max_backoff
unfolding program
record_failure-window_example =
    record_failure-window tripped 20 key (omega arith) calls-AllSane_example (omega arith)
      (omega arith) (omega arith)

allow-is_open_example :
    ((allow tripped 6 key).0 ≡ false)
    ↔ ((is_open tripped 6 key ≡ true) ⊎ ((entry tripped key).half_open ≡ true))
unfolding program
allow-is_open_example = allow-is_open tripped 6 key (omega arith) calls-AllSane_example

lookup-call_ne_example :
    lookup "summary@1" (call tripped key (Call.failure_at 9)).states
    ≡ lookup "summary@1" tripped.states
lookup-call_ne_example =
    lookup-call_ne tripped key "summary@1" (Call.failure_at 9)
      (ground (arith, eq_iff key "summary@1"))

abbrev times : List ℕ
times = 7 ∷ (20 * second) ∷ (21 * second) ∷ []

admitted_tripped_example : admitted tripped key times ≡ (
    if not (entry tripped key).half_open && any_elapsed (entry tripped key).open_until times
    then 1
    else 0)
unfolding program
admitted_tripped_example = admitted_tripped times tripped key (omega arith) (omega arith)

admitted_closed_test : admitted new_circuit_breaker key times ≡ length times
unfolding program
admitted_closed_test = admitted_closed times new_circuit_breaker key (omega arith)
