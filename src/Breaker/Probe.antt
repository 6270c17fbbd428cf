-- ===== src/Breaker/Probe.antt =====
-- The half-open probe of the circuit breaker (`allow` of internal/analysis/circuitbreaker.go).
use gmeow.Base.{
  string_eq, ℕ, suc, ◌≤◌, ◌<◌, String, ◌≡◌, refl, Bool, true, false, ◌&&◌, ◌||◌, not, List, [], ◌∷◌,
  arith, leb, if◌then◌else◌, length,
}
use gmeow.Breaker.{BreakerState, CircuitBreaker, admit, allow, entry}
use gmeow.Breaker.Machine.{Call, call-threshold, allow-admit, entry-allow}

-- How many of the calls of `allow` at these instants, with no result recorded between them, return
-- true.
abbrev pub admitted : CircuitBreaker → String → List ℕ → ℕ
admitted b k [] = 0
admitted b k (now ∷ times) =
    let rest = admitted (allow b now k).1 k times in if (allow b now k).0 then suc rest else rest

-- Whether one of the instants is at or behind the end of the window.
abbrev pub any_elapsed : ℕ → List ℕ → Bool
any_elapsed open_until [] = false
any_elapsed open_until (now ∷ times) = leb open_until now || any_elapsed open_until times

admit_tripped :
    (threshold now : ℕ) (s : BreakerState)
    → threshold ≤ s.failures
    → admit threshold now s ≡ (
        if not s.half_open && leb s.open_until now
        then (true, record s { half_open = true })
        else (false, s))
unfolding admit
admit_tripped threshold now s h = ground arith

-- Of any calls of `allow` for one tripped circuit, with no result recorded between them, exactly one
-- is admitted if no probe is out and the window has elapsed at one of them, and none otherwise. The
-- threshold is positive.
pub admitted_tripped :
    (times : List ℕ) (b : CircuitBreaker) (k : String)
    → 0 < b.threshold
    → b.threshold ≤ (entry b k).failures
    → admitted b k times
      ≡ (if not (entry b k).half_open && any_elapsed (entry b k).open_until times then 1 else 0)
admitted_tripped [] b k pos t = ground arith
admitted_tripped (now ∷ times) b k pos t = ground (
  arith,
  allow-admit b now k,
  entry-allow b now k,
  admit_tripped b.threshold now (entry b k) t,
  call-threshold b k (Call.allow_at now),
  admitted_tripped times (allow b now k).1 k,
)

admit_closed :
    (threshold now : ℕ) (s : BreakerState)
    → s.failures < threshold
    → admit threshold now s ≡ (true, s)
unfolding admit
admit_closed threshold now s h = ground arith

-- Below the threshold, and for a key with no recorded failure, every call is admitted.
pub admitted_closed :
    (times : List ℕ) (b : CircuitBreaker) (k : String)
    → (entry b k).failures < b.threshold
    → admitted b k times ≡ length times
admitted_closed [] b k h = refl
admitted_closed (now ∷ times) b k h = ground (
  arith,
  allow-admit b now k,
  entry-allow b now k,
  admit_closed b.threshold now (entry b k) h,
  call-threshold b k (Call.allow_at now),
  admitted_closed times (allow b now k).1 k,
)
