-- ===== src/Breaker/Backoff.antt =====
-- The backoff windows of the circuit breaker (`backoffFor` of internal/analysis/circuitbreaker.go).
use native.Mathlib.Nat.{pow-suc, two-pow-succ, mul_assoc, le-mul_of_pos_right}
use gmeow.Base.{ℕ, zero, suc, ◌-◌, ◌*◌, ◌^◌, ◌≤◌, ◌<◌, min, ◌≡◌, arith, leb}
use gmeow.Breaker.{CircuitBreaker, int64_leb, double_until, backoff_for}

-- Durations that doubling does not take out of int64.
abbrev pub small : ℕ
small = 2 ^ 62

int64_leb_small : (a b : ℕ) → a < 2 ^ 63 → b < 2 ^ 63 → int64_leb a b ≡ leb a b
int64_leb_small a b h k = ground arith

one-le-pow : (n : ℕ) → 1 ≤ 2 ^ n
one-le-pow zero = omega arith
one-le-pow (suc n) = rw pow-suc (omega (arith, one-le-pow n))

pub double_until-min :
    (top rounds backoff : ℕ)
    → top < small
    → backoff < small
    → double_until top rounds backoff ≡ min (backoff * 2 ^ rounds) top
unfolding double_until
double_until-min top zero backoff h k = ground (arith, int64_leb_small backoff top)
double_until-min top (suc rounds) backoff h k = ground (
  arith,
  int64_leb_small top (backoff * 2),
  two-pow-succ rounds,
  one-le-pow rounds,
  mul_assoc backoff 2 (2 ^ rounds),
  le-mul_of_pos_right {m = 2 ^ rounds} (backoff * 2),
  double_until-min top rounds (backoff * 2),
)

-- The window of the n-th opening is the base doubled n - 1 times, cut off at the maximum, if
-- the base and the maximum are below 2 ^ 62 ns.
pub backoff_for-min :
    (breaker : CircuitBreaker) (n : ℕ)
    → breaker.max_backoff < small
    → breaker.base_backoff < small
    → backoff_for breaker n ≡ min (breaker.base_backoff * 2 ^ (n - 1)) breaker.max_backoff
unfolding backoff_for
backoff_for-min breaker n h k =
    double_until-min breaker.max_backoff (n - 1) breaker.base_backoff h k
