-- ===== src/Scheduler/Service/Scan/Complete.antt =====
-- What a scan that ends without an error has done (internal/scheduler/scheduler.go).
use mathlib.Core.Path.{subst}
use gmeow.Base.{
  ℕ, ◌+◌, String, Option, none, List, [], ◌∷◌, ◌++◌, length, ◌≡◌, refl, ap, ◌∙◌, sym, arith,
}
use gmeow.Scheduler.Types.{
  AnalyzerJob, ProjectionObject, ScanRequest, ScanResponse, AnalyzerSpec, Config,
}
use gmeow.Scheduler.Jobs.{non_empty, jobs_for_object}
use gmeow.Scheduler.Jobs.Normal.{normalize_job-jobs_for_object}
use gmeow.Scheduler.Service.{
  Env, Service, Call, declare, process_failures, send, normalize, stop_or, walk,
}
use gmeow.Scheduler.Service.Publish.{onto, onto-append}
use gmeow.Scheduler.Service.Scan.{empty_response, scan, scan_object, jobs_for}
use gmeow.Scheduler.Service.Scan.Visit.{
  planned, planned_jobs, stop_or-done, Visited, scan_branch-done,
}

module _ (env : Env) where
  abbrev pub jobs_at :
      List AnalyzerSpec → Config → ProjectionObject → ScanRequest → List AnalyzerJob
  jobs_at specs config object request =
      jobs_for_object env.sha256_hex config.priorities env.now specs object request

  -- The calls of a scan of some objects, and how many of them are jobs.
  abbrev pub plan : ScanRequest → List AnalyzerSpec → Config → List ProjectionObject → List Call
  plan request specs config [] = []
  plan request specs config (object ∷ objects) =
      planned (non_empty object.findings) (jobs_at specs config object request) object
      ++ plan request specs config objects

  abbrev pub plan_jobs : ScanRequest → List AnalyzerSpec → Config → List ProjectionObject → ℕ
  plan_jobs request specs config [] = 0
  plan_jobs request specs config (object ∷ objects) =
      planned_jobs (non_empty object.findings) (jobs_at specs config object request)
      + plan_jobs request specs config objects

  abbrev pub Walked :
      ScanRequest → List ProjectionObject → ScanResponse × Service → ScanResponse × Service → Type 0
  Walked request objects (response, service) (response', service') =
      (service'.calls ≡ onto (plan request service.specs service.config objects) service.calls)
      × (response'.scanned ≡ response.scanned + length objects)
      × (response'.enqueued
          ≡ response.enqueued + plan_jobs request service.specs service.config objects)

  Walked-step :
      (request : ScanRequest) (object : ProjectionObject) (objects : List ProjectionObject)
      (response : ScanResponse) (service : Service) (mid out : ScanResponse × Service)
      → Visited env
          (non_empty object.findings)
          (jobs_at service.specs service.config object request)
          object
          (record response { scanned = response.scanned + 1 }, service)
          mid
      → Walked request objects mid out
      → Walked request (object ∷ objects) (response, service) out
  Walked-step request object objects response service (r1, s1) (r2, s2) v w =
      let (calls, specs, config, scanned, enqueued) = v in
      let (calls', scanned', enqueued') = w in
      let first =
        planned (non_empty object.findings) (jobs_at service.specs service.config object request)
          object in
      let rest = plan request service.specs service.config objects in
      let same =
        ap (λ sp. plan request sp s1.config objects) specs
        ∙ ap (λ c. plan request service.specs c objects) config in
      let same_jobs =
        ap (λ sp. plan_jobs request sp s1.config objects) specs
        ∙ ap (λ c. plan_jobs request service.specs c objects) config in
      (
        calls'
            ∙ ap (λ p. onto p s1.calls) same
            ∙ ap (λ c. onto rest c) calls
            ∙ sym (onto-append first rest service.calls),
        omega (arith, scanned, scanned'),
        omega (arith, enqueued, enqueued', same_jobs),
      )

  walk-done :
      (request : ScanRequest) (objects : List ProjectionObject) (walk_error : Option String)
      (state : ScanResponse × Service)
      → (walk (scan_object env request) objects walk_error state).0 ≡ none
      → Walked request objects state (walk (scan_object env request) objects walk_error state).1
  unfolding walk scan_object jobs_for normalize
  walk-done request [] walk_error (response, service) h = (refl, omega arith, omega arith)
  walk-done request (object ∷ objects) walk_error (response, service) h =
      let visit = scan_object env request object (response, service) in
      let rest = walk (scan_object env request) objects walk_error visit.1 in
      let jobs = jobs_at service.specs service.config object request in
      let (fine, same, done) = stop_or-done visit.0 visit.1 rest h in
      let first =
        scan_branch-done env (non_empty object.findings) jobs object
          (record response { scanned = response.scanned + 1 }) service
          (normalize_job-jobs_for_object env.sha256_hex service.config.priorities env.now
            service.specs object request)
          fine in
      subst (λ out. Walked request (object ∷ objects) (response, service) out.1) (sym same)
        (Walked-step request object objects response service visit.1 rest.1 first
          (walk-done request objects walk_error visit.1 done))

  -- A scan that ends without an error has declared the queues, worked off failures, and then, for
  -- each object of the projection in order, published its jobs and refreshed its projection, or
  -- nothing at all where it has findings or no jobs; it counts every object as scanned and every
  -- job as enqueued.
  pub scan_complete :
      (request : ScanRequest) (service : Service)
      → (scan env request service).0 ≡ none
      → ((scan env request service).1.1.calls
          ≡ onto
              (declare
                ∷ process_failures 100
                ∷ plan request service.specs service.config env.projection)
              service.calls)
        × ((scan env request service).1.0.scanned ≡ length env.projection)
        × ((scan env request service).1.0.enqueued
            ≡ plan_jobs request service.specs service.config env.projection)
  unfolding scan send
  scan_complete request service h =
      let declared : Service = record service { calls = declare ∷ service.calls } in
      let processed : Service = record service {
        calls = process_failures 100 ∷ declare ∷ service.calls;
      } in
      let walked =
        walk (scan_object env request) env.projection env.walk_error (empty_response, processed) in
      let refused = env.answer declared.calls (process_failures 100) in
      let (_, same, fine) =
        stop_or-done (env.answer service.calls declare) (empty_response, declared)
          (stop_or refused (empty_response, processed) walked) h in
      let (_, same', fine') = stop_or-done refused (empty_response, processed) walked fine in
      let (calls, scanned, enqueued) =
        subst (λ out. Walked request env.projection (empty_response, processed) out.1)
          (sym (same ∙ same'))
          (walk-done request env.projection env.walk_error (empty_response, processed) fine') in
      (calls, omega (arith, scanned), omega (arith, enqueued))
