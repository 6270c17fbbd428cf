-- ===== src/Breaker/Refused.antt =====
-- When a call is refused (internal/analysis/circuitbreaker.go, `allow` and `isOpen`).
use gmeow.Base.{
  string_eq, ℕ, ◌<◌, String, ◌≡◌, ◌↔◌, ◌⊎◌, true, false, arith, lookup, Option-cases, inl, inr, ltb,
  if◌then◌else◌,
}
use gmeow.Breaker.{CircuitBreaker, admit, allow, entry, is_open}
use gmeow.Breaker.Machine.{AllSane, entry_miss, entry_hit, allow-admit, entry-IsSane}

is_open_lem :
    (b : CircuitBreaker) (now : ℕ) (k : String)
    → 0 < b.threshold
    → is_open b now k
      ≡ (if ltb (entry b k).failures b.threshold then false else ltb now (entry b k).open_until)
unfolding is_open
is_open_lem b now k pos = elim (Option-cases (lookup k b.states)) [
  | inl e ↦ rw (e, is_open, entry_miss b k e) (ground arith)
  | inr (s, e) ↦ rw (e, is_open, entry_hit b k s e)
]

-- With a positive threshold, and states that satisfy the invariant, a call is refused exactly when the
-- circuit of its key is open or its probe is out.
pub allow-is_open :
    (b : CircuitBreaker) (now : ℕ) (k : String)
    → 0 < b.threshold
    → AllSane b
    → ((allow b now k).0 ≡ false) ↔ ((is_open b now k ≡ true) ⊎ ((entry b k).half_open ≡ true))
allow-is_open b now k pos h =
    let sane = entry-IsSane b k pos h in
    rw (allow-admit b now k pos, is_open_lem b now k pos) (unfold admit in ground arith)
