-- ===== src/Breaker/Machine.antt =====
-- The life of a circuit: what holds of every state after any calls, and the window that a failure sets
-- (internal/analysis/circuitbreaker.go).
use mathlib.Core.Path.{subst}
use gmeow.Base.{
  string_eq, ℕ, ◌+◌, ◌-◌, ◌*◌, ◌^◌, ◌≤◌, ◌<◌, min, String, ◌≡◌, refl, sym, ◌≢◌, true, none, some,
  List, [], ◌∷◌, arith, str_eq, eq_iff, lookup, insert, lookup-insert, lookup-delete, Option-cases,
  Bool-cases, inl, inr,
}
use gmeow.Breaker.{
  BreakerState, CircuitBreaker, new_circuit_breaker, admit, allow, record_success, entry, fail,
  record_failure, fresh_state,
}
use gmeow.Breaker.Backoff.{small, backoff_for-min}

-- The calls that change a breaker, each with the clock that it reads.
pub data Call : Type 0 where
  allow_at : ℕ → Call
  success : Call
  failure_at : ℕ → Call

abbrev pub call : CircuitBreaker → String → Call → CircuitBreaker
call breaker key (allow_at now) = (allow breaker now key).1
call breaker key success = record_success breaker key
call breaker key (failure_at now) = record_failure breaker now key

abbrev pub calls : CircuitBreaker → List (String × Call) → CircuitBreaker
calls breaker [] = breaker
calls breaker ((key, c) ∷ rest) = calls (call breaker key c) rest

-- The openings count the failures from the threshold on, and a probe is out only when tripped.
pub record IsSane (threshold : ℕ) (state : BreakerState) : Type 0 where
  pub openings : state.open_sequence ≡ state.failures + 1 - threshold
  pub probing : state.half_open ≡ true → threshold ≤ state.failures

admit-IsSane : (t now : ℕ) (s : BreakerState) → IsSane t s → IsSane t (admit t now s).1
unfolding admit
admit-IsSane t now s h = ground arith

fail-IsSane :
    (b : CircuitBreaker) (now : ℕ) (s : BreakerState)
    → 0 < b.threshold
    → IsSane b.threshold s
    → IsSane b.threshold (fail b now s)
unfolding fail
fail-IsSane b now s pos h = ground arith

pub allow_miss :
    (b : CircuitBreaker) (now : ℕ) (k : String)
    → lookup k b.states ≡ none
    → allow b now k ≡ (true, b)
unfolding allow
allow_miss b now k e = rw (e, allow)

pub allow_hit :
    (b : CircuitBreaker) (now : ℕ) (k : String) (s : BreakerState)
    → lookup k b.states ≡ some s
    → allow b now k ≡ (
      (admit b.threshold now s).0,
      record b { states = insert k (admit b.threshold now s).1 b.states },
    )
unfolding allow
allow_hit b now k s e = rw (e, allow)

-- A call on one key leaves every other key alone: the circuits of the analyzers are independent.
pub lookup-call_ne :
    (b : CircuitBreaker) (k j : String) (c : Call)
    → k ≢ j
    → lookup j (call b k c).states ≡ lookup j b.states
lookup-call_ne b k j (allow_at now) h = elim (Option-cases (lookup k b.states)) [
  | inl e ↦ ground (arith, allow_miss b now k e)
  | inr (s, e) ↦ ground (
    arith,
    allow_hit b now k s e,
    eq_iff k j,
    lookup-insert k j (admit b.threshold now s).1 b.states,
  )
]
lookup-call_ne b k j success h =
    unfold record_success in ground (arith, eq_iff k j, lookup-delete k j b.states)
lookup-call_ne b k j (failure_at now) h =
    unfold record_failure in
    ground (arith, eq_iff k j, lookup-insert k j (fail b now (entry b k)) b.states)

pub call-threshold :
    (b : CircuitBreaker) (k : String) (c : Call) → (call b k c).threshold ≡ b.threshold
unfolding allow record_success record_failure
call-threshold b k (allow_at now) = ground arith
call-threshold b k success = refl
call-threshold b k (failure_at now) = refl

abbrev pub AllSane : CircuitBreaker → Type 0
AllSane b = (k : String) (s : BreakerState) → lookup k b.states ≡ some s → IsSane b.threshold s

pub entry_miss :
    (b : CircuitBreaker) (k : String) → lookup k b.states ≡ none → entry b k ≡ fresh_state
unfolding entry
entry_miss b k e = rw (e, entry)

pub entry_hit :
    (b : CircuitBreaker) (k : String) (s : BreakerState)
    → lookup k b.states ≡ some s
    → entry b k ≡ s
unfolding entry
entry_hit b k s e = rw (e, entry)

pub entry-allow :
    (b : CircuitBreaker) (now : ℕ) (k : String)
    → 0 < b.threshold
    → entry (allow b now k).1 k ≡ (admit b.threshold now (entry b k)).1
entry-allow b now k pos = elim (Option-cases (lookup k b.states)) [
  | inl e ↦ rw (allow_miss b now k e, entry_miss b k e) (unfold admit in ground arith)
  | inr (s, e) ↦
      rw (allow_hit b now k s e, entry_hit b k s e)
        (entry_hit _ k _
          (ground (arith, eq_iff k k, lookup-insert k k (admit b.threshold now s).1 b.states)))
]

-- `allow` decides by the state of the key.
pub allow-admit :
    (b : CircuitBreaker) (now : ℕ) (k : String)
    → 0 < b.threshold
    → (allow b now k).0 ≡ (admit b.threshold now (entry b k)).0
allow-admit b now k pos = elim (Option-cases (lookup k b.states)) [
  | inl e ↦ rw (allow_miss b now k e, entry_miss b k e) (unfold admit in ground arith)
  | inr (s, e) ↦ rw (allow_hit b now k s e, entry_hit b k s e)
]

pub entry-IsSane :
    (b : CircuitBreaker) (k : String) → 0 < b.threshold → AllSane b → IsSane b.threshold (entry b k)
entry-IsSane b k pos h = elim (Option-cases (lookup k b.states)) [
  | inl e ↦ rw (entry_miss b k e) (ground arith)
  | inr (s, e) ↦ rw (entry_hit b k s e) (h k s e)
]

-- What the map holds at the key of a call after it.
call-here :
    (b : CircuitBreaker) (k : String) (c : Call)
    → 0 < b.threshold
    → AllSane b
    → (s : BreakerState) → lookup k (call b k c).states ≡ some s
    → IsSane b.threshold s
call-here b k (allow_at now) pos h s e = elim (Option-cases (lookup k b.states)) [
  | inl miss ↦ h k s (ground (arith, allow_miss b now k miss))
  | inr (s', hit) ↦ ground (
    arith,
    eq_iff k k,
    allow_hit b now k s' hit,
    lookup-insert k k (admit b.threshold now s').1 b.states,
    admit-IsSane b.threshold now s' (h k s' hit),
  )
]
call-here b k success pos h s e =
    absurd (unfold record_success in ground (arith, eq_iff k k, lookup-delete k k b.states))
call-here b k (failure_at now) pos h s e =
    unfold record_failure in
    ground (
      arith,
      eq_iff k k,
      lookup-insert k k (fail b now (entry b k)) b.states,
      fail-IsSane b now (entry b k) pos (entry-IsSane b k pos h),
    )

call-AllSane :
    (b : CircuitBreaker) (k : String) (c : Call)
    → 0 < b.threshold
    → AllSane b
    → AllSane (call b k c)
call-AllSane b k c pos h j s e = rw (call-threshold b k c) (elim (Bool-cases (str_eq k j)) [
  | inl same ↦
      let p = (eq_iff k j).0 same in
      call-here b k c pos h s (subst (λ i. lookup i (call b k c).states ≡ some s) (sym p) e)
  | inr other ↦ h j s (ground (arith, eq_iff k j, lookup-call_ne b k j c))
])

-- After any calls on any keys, from a breaker where it holds, every state has opened once for each
-- failure from the threshold on, and marks a probe only when it is tripped.
pub calls-AllSane :
    (b : CircuitBreaker) (cs : List (String × Call))
    → 0 < b.threshold
    → AllSane b
    → AllSane (calls b cs)
calls-AllSane b [] pos h = h
calls-AllSane b ((k, c) ∷ cs) pos h =
    calls-AllSane (call b k c) cs (rw (call-threshold b k c) pos) (call-AllSane b k c pos h)

pub new-AllSane : AllSane new_circuit_breaker
unfolding new_circuit_breaker
new-AllSane k s e = absurd (unfold lookup in cc)

pub entry-record_failure :
    (b : CircuitBreaker) (now : ℕ) (k : String)
    → entry (record_failure b now k) k ≡ fail b now (entry b k)
unfolding record_failure
entry-record_failure b now k =
    entry_hit _ k (fail b now (entry b k))
      (ground (arith, eq_iff k k, lookup-insert k k (fail b now (entry b k)) b.states))

fail-window :
    (b : CircuitBreaker) (now : ℕ) (s : BreakerState)
    → b.max_backoff < small
    → b.base_backoff < small
    → IsSane b.threshold s
    → b.threshold ≤ (fail b now s).failures
    → (fail b now s).open_until
      ≡ now + min (b.base_backoff * 2 ^ ((fail b now s).failures - b.threshold)) b.max_backoff
unfolding fail
fail-window b now s hm hb h t =
    let n : s.open_sequence + 1 - 1 ≡ s.failures + 1 - b.threshold = omega arith in
    ground (arith, rw n at (backoff_for-min b (s.open_sequence + 1) hm hb))

-- A failure at `now` that trips a circuit, or keeps it tripped, opens it until `now` plus the base
-- window doubled once for each failure above the threshold, cut off at the maximum: the threshold is
-- positive, both windows are below 2 ^ 62 ns, and the states satisfy the invariant.
pub record_failure-window :
    (b : CircuitBreaker) (now : ℕ) (k : String)
    → 0 < b.threshold
    → AllSane b
    → b.max_backoff < small
    → b.base_backoff < small
    → b.threshold ≤ (entry (record_failure b now k) k).failures
    → (entry (record_failure b now k) k).open_until
      ≡ now
        + min
            (b.base_backoff * 2 ^ ((entry (record_failure b now k) k).failures - b.threshold))
            b.max_backoff
record_failure-window b now k pos h hm hb t = rw (entry-record_failure b now k) (
    fail-window b now (entry b k) hm hb (entry-IsSane b k pos h)
      (rw (entry-record_failure b now k) at t))
