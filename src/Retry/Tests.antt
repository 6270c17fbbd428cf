-- ===== src/Retry/Tests.antt =====
-- Runs of the retries of a gRPC call, and their theorems at concrete inputs.
use gmeow.Base.{
  ℕ, ◌≤◌, ◌<◌, true, false, Option, none, some, ltb, if◌then◌else◌, ◌≡◌, refl, arith, ◌⊎◌, [], ◌∷◌,
}
use gmeow.Retry.{GrpcError, unavailable, retryable_grpc_error, retry_from, retry_unary_client}
use gmeow.Retry.Attempts.{
  sum, retry_unary_client-bounds, retry_unary_client-earlier, retry_unary_client-error,
}

abbrev lost : GrpcError
lost = record { code = unavailable; is_unexpected_eof = false; is_closed = false }

-- The third attempt succeeds.
abbrev third : ℕ → Option GrpcError
third n = if ltb n 3 then some lost else none

abbrev never : ℕ → Option GrpcError
never _ = none

third_test : (retry_unary_client third never).attempts ≡ 3
unfolding retry_unary_client retry_from retryable_grpc_error
third_test = refl

waits_test : (retry_unary_client third never).waits ≡ 50_000_000 ∷ 100_000_000 ∷ []
unfolding retry_unary_client retry_from retryable_grpc_error
waits_test = refl

retry_unary_client-bounds_example :
    (1 ≤ (retry_unary_client third never).attempts)
    × ((retry_unary_client third never).attempts ≤ 5)
    × (sum (retry_unary_client third never).waits ≤ 750_000_000)
retry_unary_client-bounds_example = retry_unary_client-bounds third never

two_before : 2 < (retry_unary_client third never).attempts
unfolding retry_unary_client retry_from retryable_grpc_error
two_before = omega arith

retry_unary_client-earlier_test : (retryable_grpc_error (third 2) ≡ true) × (never 2 ≡ none)
retry_unary_client-earlier_test = retry_unary_client-earlier third never 2 (omega arith) two_before

retry_unary_client-error_example :
    ((retry_unary_client third never).error ≡ third (retry_unary_client third never).attempts)
    × ((retryable_grpc_error (retry_unary_client third never).error ≡ false)
        ⊎ ((retry_unary_client third never).attempts ≡ 5))
retry_unary_client-error_example = retry_unary_client-error third never (λ n. refl)
