-- ===== src/Scheduler/Service/Scan/Quiet.antt =====
-- A scan where no call fails (internal/scheduler/scheduler.go, `Scan`).
use gmeow.Base.{
  ℕ, ◌+◌, String, Bool, true, false, Option, none, some, List, [], ◌∷◌, ◌≡◌, refl, ap, ◌∙◌, arith,
}
use gmeow.Scheduler.Types.{AnalyzerJob, ProjectionObject, ScanRequest, ScanResponse}
use gmeow.Scheduler.Jobs.{non_empty}
use gmeow.Scheduler.Service.{
  Env, Service, Call, declare, process_failures, publish, publish_projection_refresh, send,
  normalize, published, publish_jobs, stop_or, walk,
}
use gmeow.Scheduler.Service.Scan.{
  empty_response, scan, scan_object, scan_branch, scan_jobs, scan_end, jobs_for,
}

stop_or_quiet :
    {S : Type 0} (error : Option String) (state : S) (rest : Option String × S)
    → error ≡ none
    → rest.0 ≡ none
    → (stop_or error state rest).0 ≡ none
unfolding stop_or
stop_or_quiet (some e) state rest h k = ground arith
stop_or_quiet none state rest h k = k

scan_end_quiet :
    (error refresh_error : Option String) (response : ScanResponse) (before after : Service)
    → error ≡ none
    → refresh_error ≡ none
    → (scan_end error refresh_error response before after).0 ≡ none
unfolding scan_end
scan_end_quiet (some e) refresh_error response before after h k = ground arith
scan_end_quiet none (some e) response before after h k = ground arith
scan_end_quiet none none response before after h k = refl

module _ (env : Env)
    (quiet : (calls : List Call) (call : Call) → env.answer calls call ≡ none) where
  published_quiet :
      (error : Option String) (service : Service) (rest : ℕ × Option String × Service)
      → error ≡ none
      → rest.1 ≡ none
      → (published env error service rest).1 ≡ none
  unfolding published
  published_quiet (some e) service rest h k = ground arith
  published_quiet none service rest h k = k

  publish_jobs_quiet :
      (jobs : List AnalyzerJob) (service : Service) → (publish_jobs env jobs service).1 ≡ none
  unfolding publish_jobs send
  publish_jobs_quiet [] service = refl
  publish_jobs_quiet (job ∷ jobs) service =
      let call = publish (normalize env service job) in
      let sent : Service = record service { calls = call ∷ service.calls } in
      published_quiet (env.answer service.calls call) sent (publish_jobs env jobs sent)
        (quiet service.calls call) (publish_jobs_quiet jobs sent)

  scan_branch_quiet :
      (has_findings : Bool) (jobs : List AnalyzerJob) (object : ProjectionObject)
      (response : ScanResponse) (service : Service)
      → (scan_branch env has_findings jobs object response service).0 ≡ none
  unfolding scan_branch scan_jobs send
  scan_branch_quiet true jobs object response service = refl
  scan_branch_quiet false [] object response service = refl
  scan_branch_quiet false (job ∷ jobs) object response service =
      let p = publish_jobs env (job ∷ jobs) service in
      let call = publish_projection_refresh object.manifest.object_digest in
      scan_end_quiet p.1 (env.answer p.2.calls call)
        (record response { enqueued = response.enqueued + p.0 }) p.2
        (record p.2 { calls = call ∷ p.2.calls }) (publish_jobs_quiet (job ∷ jobs) service)
        (quiet p.2.calls call)

  walk_quiet :
      (request : ScanRequest) (objects : List ProjectionObject) (state : ScanResponse × Service)
      → (walk (scan_object env request) objects none state).0 ≡ none
  unfolding walk scan_object
  walk_quiet request [] state = refl
  walk_quiet request (object ∷ objects) (response, service) =
      let visit = scan_object env request object (response, service) in
      stop_or_quiet visit.0 visit.1 (walk (scan_object env request) objects none visit.1)
        (scan_branch_quiet (non_empty object.findings) (jobs_for env service object request) object
          (record response { scanned = response.scanned + 1 }) service)
        (walk_quiet request objects visit.1)

  -- If no call to the broker fails and the walk of the store ends without an error, a scan ends
  -- without one.
  pub scan_no_error :
      (request : ScanRequest) (service : Service)
      → env.walk_error ≡ none
      → (scan env request service).0 ≡ none
  unfolding scan send
  scan_no_error request service ends =
      let declared : Service = record service { calls = declare ∷ service.calls } in
      let processed : Service = record declared { calls = process_failures 100 ∷ declared.calls } in
      let walked =
        walk (scan_object env request) env.projection env.walk_error (empty_response, processed) in
      stop_or_quiet (env.answer service.calls declare) (empty_response, declared)
        (stop_or (env.answer declared.calls (process_failures 100)) (empty_response, processed)
          walked)
        (quiet service.calls declare)
        (stop_or_quiet (env.answer declared.calls (process_failures 100))
          (empty_response, processed) walked (quiet declared.calls (process_failures 100))
          (ap (λ e. (walk (scan_object env request) env.projection e (empty_response, processed)).0)
              ends
            ∙ walk_quiet request env.projection (empty_response, processed)))
