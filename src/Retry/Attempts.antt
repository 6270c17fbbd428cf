-- ===== src/Retry/Attempts.antt =====
-- How often a gRPC call is tried, and what it returns (internal/rpc/retry.go).
use gmeow.Base.{
  ℕ, zero, suc, ◌+◌, ◌*◌, ◌≤◌, ◌<◌, true, false, Option, none, List, [], ◌∷◌, ◌≡◌, refl, arith, ◌⊎◌,
  inr,
}
use gmeow.Retry.{GrpcError, retryable_grpc_error, retry_from, retry_unary_client, first_backoff}

abbrev pub sum : List ℕ → ℕ
sum [] = 0
sum (n ∷ ns) = n + sum ns

-- The sum of that many waits, each twice the one before.
abbrev total_wait : ℕ → ℕ → ℕ
total_wait zero backoff = 0
total_wait (suc left) backoff = backoff + total_wait left (backoff * 2)

module _ (invoke : ℕ → Option GrpcError) (cancelled : ℕ → Option GrpcError) where
  retry_from-attempts :
      (left attempt backoff : ℕ)
      → (attempt ≤ (retry_from invoke cancelled left attempt backoff).attempts)
        × ((retry_from invoke cancelled left attempt backoff).attempts ≤ attempt + left)
  unfolding retry_from
  retry_from-attempts zero attempt backoff = ground arith
  retry_from-attempts (suc left) attempt backoff =
      ground (arith, retry_from-attempts left (suc attempt) (backoff * 2))

  -- Every attempt before the last failed with an error that is worth a retry.
  retry_from-earlier :
      (left attempt backoff n : ℕ)
      → attempt ≤ n
      → n < (retry_from invoke cancelled left attempt backoff).attempts
      → (retryable_grpc_error (invoke n) ≡ true) × (cancelled n ≡ none)
  unfolding retry_from
  retry_from-earlier zero attempt backoff n h k = ground arith
  retry_from-earlier (suc left) attempt backoff n h k =
      ground (arith, retry_from-earlier left (suc attempt) (backoff * 2) n)

  retry_from-error :
      (left attempt backoff : ℕ)
      → ((n : ℕ) → cancelled n ≡ none)
      → let out = retry_from invoke cancelled left attempt backoff in
        (out.error ≡ invoke out.attempts)
        × ((retryable_grpc_error out.error ≡ false) ⊎ (out.attempts ≡ attempt + left))
  unfolding retry_from
  retry_from-error zero attempt backoff h = (refl, inr (omega arith))
  retry_from-error (suc left) attempt backoff h =
      ground (arith, retry_from-error left (suc attempt) (backoff * 2) h, h attempt)

  retry_from-waits :
      (left attempt backoff : ℕ)
      → sum (retry_from invoke cancelled left attempt backoff).waits ≤ total_wait left backoff
  unfolding retry_from
  retry_from-waits zero attempt backoff = ground arith
  retry_from-waits (suc left) attempt backoff =
      ground (arith, retry_from-waits left (suc attempt) (backoff * 2))

  -- A call is tried at least once and at most five times, and waits at most 750 ms in all.
  pub retry_unary_client-bounds :
      (1 ≤ (retry_unary_client invoke cancelled).attempts)
      × ((retry_unary_client invoke cancelled).attempts ≤ 5)
      × (sum (retry_unary_client invoke cancelled).waits ≤ 750_000_000)
  unfolding retry_unary_client
  retry_unary_client-bounds =
      let (least, most) = retry_from-attempts 4 1 first_backoff in
      (least, omega (arith, most), retry_from-waits 4 1 first_backoff)

  -- Every attempt before the last failed with an error that is worth a retry, and the context did
  -- not end in the wait after it.
  pub retry_unary_client-earlier :
      (n : ℕ)
      → 1 ≤ n
      → n < (retry_unary_client invoke cancelled).attempts
      → (retryable_grpc_error (invoke n) ≡ true) × (cancelled n ≡ none)
  unfolding retry_unary_client
  retry_unary_client-earlier n = retry_from-earlier 4 1 first_backoff n

  -- If the context never ends in a wait, the call returns the error of its last attempt, and
  -- either that is not worth a retry or the last attempt is the fifth.
  pub retry_unary_client-error :
      ((n : ℕ) → cancelled n ≡ none)
      → let out = retry_unary_client invoke cancelled in
        (out.error ≡ invoke out.attempts)
        × ((retryable_grpc_error out.error ≡ false) ⊎ (out.attempts ≡ 5))
  unfolding retry_unary_client
  retry_unary_client-error h = retry_from-error 4 1 first_backoff h
