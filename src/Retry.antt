-- ===== src/Retry.antt =====
-- The retries of a gRPC call (internal/rpc/retry.go). `invoke` is the error that the invoker returns in
-- an attempt, counted from 1, and `cancelled` the error of the context, where it ends while the client
-- waits after an attempt. A duration is a number of nanoseconds.
pub mod Attempts
mod Tests
use gmeow.Base.{
  ℕ, zero, suc, ◌+◌, ◌-◌, ◌*◌, Bool, true, false, not, ◌||◌, Option, none, some, List, [], ◌∷◌,
  ◌==◌, if◌then◌else◌,
}

-- `codes.Code`.
pub data Code : Type 0 where
  ok_code : Code
  canceled : Code
  unknown : Code
  invalid_argument : Code
  deadline_exceeded : Code
  code_not_found : Code
  already_exists : Code
  permission_denied : Code
  resource_exhausted : Code
  failed_precondition : Code
  aborted : Code
  out_of_range : Code
  unimplemented : Code
  internal : Code
  unavailable : Code
  data_loss : Code
  unauthenticated : Code

-- What `retryableGRPCError` asks of an error: its code, and whether `errors.Is` finds in it
-- `io.ErrUnexpectedEOF` or `net.ErrClosed`.
pub record GrpcError : Type 0 where
  pub code : Code
  pub is_unexpected_eof : Bool
  pub is_closed : Bool

unfoldable pub retryable_grpc_error : Option GrpcError → Bool
retryable_grpc_error none = false
retryable_grpc_error (some error) = elim error.code [
  | unavailable ↦ true
  | aborted ↦ true
  | resource_exhausted ↦ true
  | deadline_exceeded ↦ true
  | canceled ↦ false
  | invalid_argument ↦ false
  | code_not_found ↦ false
  | already_exists ↦ false
  | permission_denied ↦ false
  | unauthenticated ↦ false
  | failed_precondition ↦ false
  | out_of_range ↦ false
  | unimplemented ↦ false
  | _ ↦ error.is_unexpected_eof || error.is_closed
]

abbrev pub grpc_retry_attempts : ℕ
grpc_retry_attempts = 5

-- `50 * time.Millisecond`.
abbrev pub first_backoff : ℕ
first_backoff = 50_000_000

-- The error that is returned, the number of attempts, and the waits that were begun.
pub record Outcome : Type 0 where
  pub error : Option GrpcError
  pub attempts : ℕ
  pub waits : List ℕ

module _ (invoke : ℕ → Option GrpcError) (cancelled : ℕ → Option GrpcError) where
  -- The loop, over the attempts that are left after this one, and `attempt` and `backoff`.
  unfoldable pub retry_from : ℕ → ℕ → ℕ → Outcome
  retry_from zero attempt backoff = record {
    error = invoke attempt;
    attempts = attempt;
    waits = [];
  }
  retry_from (suc left) attempt backoff =
      let rest = retry_from left (suc attempt) (backoff * 2) in
      if not (retryable_grpc_error (invoke attempt))
      then record { error = invoke attempt; attempts = attempt; waits = [] }
      else elim (cancelled attempt) [
        | some e ↦ record { error = some e; attempts = attempt; waits = backoff ∷ [] }
        | none ↦ record rest { waits = backoff ∷ rest.waits }
      ]

  unfoldable pub retry_unary_client : Outcome
  retry_unary_client = retry_from (grpc_retry_attempts - 1) 1 first_backoff
