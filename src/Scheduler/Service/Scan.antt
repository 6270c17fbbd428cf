-- ===== src/Scheduler/Service/Scan.antt =====
-- `Scan`, `SelfHealSweep`, `Enqueue` and `Force` (internal/scheduler/scheduler.go).
pub mod Visit
pub mod Complete
pub mod Quiet
use Prim.Native.String.{◌++◌ as str_append}
use gmeow.Base.{
  ℕ, ◌+◌, String, Bool, true, false, not, ◌&&◌, Option, none, some, List, [], ◌∷◌, ◌==◌,
  if◌then◌else◌,
}
use gmeow.Scheduler.Annotated.{add, remove}
use gmeow.Scheduler.Types.{
  AnalyzerJob, ProjectionObject, ScanRequest, ScanResponse, priority_forced, priority_repair,
}
use gmeow.Scheduler.Jobs.{jobs_for_object, contains_string, non_empty}
use gmeow.Scheduler.Service.{
  Env, Service, declare, process_failures, publish, publish_projection_refresh, load_error,
  not_found, found, stop_or, walk, send, normalize, publish_jobs,
}

abbrev pub empty_response : ScanResponse
empty_response = record { scanned = 0; enqueued = 0; skipped = 0; failed = 0 }

unfoldable pub mark_annotated : String → Service → Service
mark_annotated digest service = record service {
  fully_annotated = add service.fully_annotated digest;
}

unfoldable pub force_request : String → String → ScanRequest
force_request requested_by trace_id = record {
  priority_class = priority_forced;
  requested_by = requested_by;
  reason = "forced";
  trace_id = trace_id;
  forced = true;
}

-- The ends of the callback of `Scan`: the error of a publication, that of the refresh, or none.
unfoldable pub scan_end :
    Option String
    → Option String
    → ScanResponse
    → Service
    → Service
    → Option String × (ScanResponse × Service)
scan_end (some e) refresh_error response published refreshed =
    (some e, (record response { failed = response.failed + 1 }, published))
scan_end none (some e) response published refreshed =
    (some e, (record response { failed = response.failed + 1 }, refreshed))
scan_end none none response published refreshed = (none, (response, refreshed))

module _ (env : Env) where
  -- `service.jobsForObject`.
  unfoldable pub jobs_for : Service → ProjectionObject → ScanRequest → List AnalyzerJob
  jobs_for service object request =
      jobs_for_object env.sha256_hex service.config.priorities env.now service.specs object request

  -- The part of the callback of `Scan` from its loop on.
  unfoldable pub scan_jobs :
      ProjectionObject
      → List AnalyzerJob
      → ScanResponse
      → Service
      → Option String × (ScanResponse × Service)
  scan_jobs object jobs response service =
      let (count, error, service') = publish_jobs env jobs service in
      let (refresh_error, service'') =
        send env (publish_projection_refresh object.manifest.object_digest) service' in
      scan_end error refresh_error (record response { enqueued = response.enqueued + count })
        service' service''

  -- The branches of the callback of `Scan`: on whether the object has findings, and on its jobs.
  unfoldable pub scan_branch :
      Bool
      → List AnalyzerJob
      → ProjectionObject
      → ScanResponse
      → Service
      → Option String × (ScanResponse × Service)
  scan_branch true jobs object response service =
      (none, (record response { failed = response.failed + 1 }, service))
  scan_branch false [] object response service = (
    none,
    (
      record response { skipped = response.skipped + 1 },
      mark_annotated object.manifest.object_digest service,
    ),
  )
  scan_branch false (job ∷ jobs) object response service =
      scan_jobs object (job ∷ jobs) response service

  -- The callback of `Scan`.
  unfoldable pub scan_object :
      ScanRequest
      → ProjectionObject
      → ScanResponse × Service
      → Option String × (ScanResponse × Service)
  scan_object request object (response, service) =
      scan_branch (non_empty object.findings) (jobs_for service object request) object
        (record response { scanned = response.scanned + 1 }) service

  unfoldable pub scan : ScanRequest → Service → Option String × (ScanResponse × Service)
  scan request service =
      let (error, declared) = send env declare service in
      let (error', processed) = send env (process_failures 100) declared in
      stop_or error (empty_response, declared)
        (stop_or error' (empty_response, processed)
          (walk (scan_object request) env.projection env.walk_error (empty_response, processed)))

  unfoldable pub self_heal_sweep : Service → Option String × (ScanResponse × Service)
  self_heal_sweep service =
      scan
        (record {
          priority_class = priority_repair;
          requested_by = "scheduler";
          reason = "self_heal_sweep";
          trace_id = "";
          forced = false;
        })
        (record service { sweep_pos = "" })

  unfoldable pub enqueue : AnalyzerJob → Service → Option String × Service
  enqueue job service = send env (publish (normalize env service job)) service

  -- The jobs that the loop of `Force` does not skip.
  unfoldable pub force_filter : List String → List AnalyzerJob → List AnalyzerJob
  force_filter names [] = []
  force_filter names (job ∷ jobs) =
      let rest = force_filter names jobs in
      if non_empty names && not (contains_string names job.analyzer.name) then rest else job ∷ rest

  -- The part of `Force` below the checks of what was loaded.
  unfoldable pub force_object :
      String
      → List String
      → String
      → String
      → ProjectionObject
      → Service
      → Option String × (ScanResponse × Service)
  force_object digest names requested_by trace_id object service =
      let removed = record service { fully_annotated = remove service.fully_annotated digest } in
      let (count, error, service') =
        publish_jobs env
          (force_filter names (jobs_for removed object (force_request requested_by trace_id)))
          removed in
      elim error [
        | some e ↦
            (some e, (record { scanned = 1; enqueued = count; skipped = 0; failed = 1 }, service'))
        | none ↦ (
          none,
          (
            record {
              scanned = 1;
              enqueued = count;
              skipped = if count == 0 then 1 else 0;
              failed = 0;
            },
            service',
          ),
        )
      ]

  unfoldable pub force :
      String → List String → String → String → Service → Option String × (ScanResponse × Service)
  force digest names requested_by trace_id service = elim (env.projection_object digest) [
    | load_error e ↦ (some e, (empty_response, service))
    | not_found ↦
        (some (str_append "object " (str_append digest " not found")), (empty_response, service))
    | found object ↦ force_object digest names requested_by trace_id object service
  ]
