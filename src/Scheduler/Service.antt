-- ===== src/Scheduler/Service.antt =====
-- `Service` of the scheduler (internal/scheduler/scheduler.go): its state, and the calls it makes. The
-- broker, the store, the projector, the clock and the hash are arguments, the record `Env`: `answer` is
-- the error with which the broker or the projector answers a call, after the calls before it. The calls
-- are kept in the state, the latest first. An operation reads the clock once, and runs as one step.
pub mod Publish
pub mod Setup
pub mod Scan
pub mod Changes
pub mod Sweep
use gmeow.Base.{ℕ, suc, String, Bool, Option, none, some, List, [], ◌∷◌}
use gmeow.Scheduler.Annotated.{LruCache}
use gmeow.Scheduler.Types.{AnalyzerSpec, AnalyzerJob, ObjectChangeRequest, ProjectionObject, Config}
use gmeow.Scheduler.Jobs.{normalize_job}

pub data Call : Type 0 where
  declare : Call
  process_failures : ℕ → Call
  publish : AnalyzerJob → Call
  publish_projection_refresh : String → Call
  publish_object_changes : ObjectChangeRequest → Call
  project_object : String → Call

-- What `Store.ProjectionObject` returns.
pub data Loaded : Type 0 where
  load_error : String → Loaded
  not_found : Loaded
  found : ProjectionObject → Loaded

-- `projection` are the objects that `Store.WalkProjection` visits, in its order, and `walk_error` the
-- error with which it ends after the last of them.
pub record Env : Type 0 where
  pub sha256_hex : String → String
  pub now : ℕ
  pub answer : List Call → Call → Option String
  pub projection : List ProjectionObject
  pub walk_error : Option String
  pub projection_object : String → Loaded

pub record Service : Type 0 where
  pub has_projector : Bool
  pub fully_annotated : LruCache
  pub projection_pending : List (String × Unit {0})
  pub sweep_pos : String
  pub specs : List AnalyzerSpec
  pub config : Config
  pub pressured : Bool
  pub write_seen : Bool
  pub calls : List Call

-- A loop that stops at the first error: in this state, or with the rest.
unfoldable pub stop_or : {S : Type 0} → Option String → S → Option String × S → Option String × S
stop_or (some e) state rest = (some e, state)
stop_or none state rest = rest

-- A loop over the objects that a callback can stop: `Store.WalkProjection`.
unfoldable pub walk :
    {S : Type 0}
    → (ProjectionObject → S → Option String × S)
    → List ProjectionObject
    → Option String
    → S
    → Option String × S
walk visit [] walk_error state = (walk_error, state)
walk visit (object ∷ objects) walk_error state =
    let (error, state') = visit object state in
    stop_or error state' (walk visit objects walk_error state')

module _ (env : Env) where
  unfoldable pub send : Call → Service → Option String × Service
  send call service =
      (env.answer service.calls call, record service { calls = call ∷ service.calls })

  -- `service.normalizeJob`.
  unfoldable pub normalize : Service → AnalyzerJob → AnalyzerJob
  normalize service job = normalize_job env.sha256_hex service.config.priorities env.now job

  -- After a job: the error, or one more than the rest.
  unfoldable pub published :
      Option String → Service → ℕ × Option String × Service → ℕ × Option String × Service
  published (some e) service rest = (0, some e, service)
  published none service (count, error, service') = (suc count, error, service')

  -- The loops that normalize and publish jobs: how many were published, and the error that stopped it.
  unfoldable pub publish_jobs : List AnalyzerJob → Service → ℕ × Option String × Service
  publish_jobs [] service = (0, none, service)
  publish_jobs (job ∷ jobs) service =
      let (error, service') = send (publish (normalize service job)) service in
      published error service' (publish_jobs jobs service')
