-- ===== src/Scheduler/Service/Scan/Visit.antt =====
-- What the visit of an object by a scan leaves (internal/scheduler/scheduler.go, the callback of `Scan`).
use mathlib.Core.Path.{subst}
use gmeow.Base.{
  ℕ, ◌+◌, String, Bool, true, false, Option, none, some, List, [], ◌∷◌, ◌++◌, map, length, ◌≡◌,
  refl, ap, ◌∙◌, sym, arith, All,
}
use gmeow.Scheduler.Types.{AnalyzerJob, ProjectionObject, ScanResponse}
use gmeow.Scheduler.Service.{
  Env, Service, Call, publish, publish_projection_refresh, send, normalize, publish_jobs, stop_or,
}
use gmeow.Scheduler.Service.Publish.{onto, onto-append, publish_jobs-setup, publish_jobs-done}
use gmeow.Scheduler.Service.Scan.{scan_branch, scan_jobs, scan_end, mark_annotated}

-- The calls for an object: its jobs and the refresh of its projection, or nothing at all.
abbrev pub planned : Bool → List AnalyzerJob → ProjectionObject → List Call
planned true jobs object = []
planned false [] object = []
planned false (job ∷ jobs) object =
    map (λ j. publish j) (job ∷ jobs)
    ++ (publish_projection_refresh object.manifest.object_digest ∷ [])

abbrev pub planned_jobs : Bool → List AnalyzerJob → ℕ
planned_jobs true jobs = 0
planned_jobs false jobs = length jobs

pub stop_or-done :
    {S : Type 0} (error : Option String) (state : S) (rest : Option String × S)
    → (stop_or error state rest).0 ≡ none
    → (error ≡ none) × (stop_or error state rest ≡ rest) × (rest.0 ≡ none)
unfolding stop_or
stop_or-done (some e) state rest h = ground arith
stop_or-done none state rest h = (refl, refl, h)

scan_end-done :
    (error refresh_error : Option String) (response : ScanResponse) (published refreshed : Service)
    → (scan_end error refresh_error response published refreshed).0 ≡ none
    → (error ≡ none)
      × (scan_end error refresh_error response published refreshed ≡ (none, (response, refreshed)))
unfolding scan_end
scan_end-done (some e) refresh_error response published refreshed h = ground arith
scan_end-done none (some e) response published refreshed h = ground arith
scan_end-done none none response published refreshed h = (refl, refl)

map-All :
    {A B : Type 0} (f : A → A) (g : A → B) (xs : List A)
    → All (λ x. f x ≡ x) xs
    → map (λ x. g (f x)) xs ≡ map g xs
map-All f g [] h = refl
map-All f g (x ∷ xs) h = cc (h.0, map-All f g xs h.1)

module _ (env : Env) where
  -- What a visit of an object leaves, for the jobs that it has.
  abbrev pub Visited :
      Bool
      → List AnalyzerJob
      → ProjectionObject
      → ScanResponse × Service
      → ScanResponse × Service
      → Type 0
  Visited has_findings jobs object (response, service) (response', service') =
      (service'.calls ≡ onto (planned has_findings jobs object) service.calls)
      × (service'.specs ≡ service.specs)
      × (service'.config ≡ service.config)
      × (response'.scanned ≡ response.scanned)
      × (response'.enqueued ≡ response.enqueued + planned_jobs has_findings jobs)

  scan_jobs-done :
      (job : AnalyzerJob) (jobs : List AnalyzerJob) (object : ProjectionObject)
      (response : ScanResponse) (service : Service)
      → All (λ j. normalize env service j ≡ j) (job ∷ jobs)
      → (scan_jobs env object (job ∷ jobs) response service).0 ≡ none
      → Visited false
          (job ∷ jobs)
          object
          (response, service)
          (scan_jobs env object (job ∷ jobs) response service).1
  unfolding scan_jobs send
  scan_jobs-done job jobs object response service normal h =
      let js = job ∷ jobs in
      let p = publish_jobs env js service in
      let refreshed : Service = record p.2 {
        calls = publish_projection_refresh object.manifest.object_digest ∷ p.2.calls;
      } in
      let counted : ScanResponse = record response { enqueued = response.enqueued + p.0 } in
      let refresh_error =
        env.answer p.2.calls (publish_projection_refresh object.manifest.object_digest) in
      let (done, end) = scan_end-done p.1 refresh_error counted p.2 refreshed h in
      let setup = publish_jobs-setup env js service in
      let (count, calls) = publish_jobs-done env js service done in
      let sent =
        calls
        ∙ ap (λ cs. onto cs service.calls)
            (map-All (normalize env service) (λ j. publish j) js normal) in
      subst (λ out. Visited false js object (response, service) out.1) (sym end)
        (
          ap (λ cs. publish_projection_refresh object.manifest.object_digest ∷ cs) sent
              ∙ sym (
                  onto-append (map (λ j. publish j) js)
                    (publish_projection_refresh object.manifest.object_digest ∷ []) service.calls),
          ap (λ s. Service.specs s) setup,
          ap (λ s. Service.config s) setup,
          refl,
          ap (λ n. response.enqueued + n) count,
        )

  pub scan_branch-done :
      (has_findings : Bool) (jobs : List AnalyzerJob) (object : ProjectionObject)
      (response : ScanResponse) (service : Service)
      → All (λ j. normalize env service j ≡ j) jobs
      → (scan_branch env has_findings jobs object response service).0 ≡ none
      → Visited has_findings jobs object
          (response, service)
          (scan_branch env has_findings jobs object response service).1
  unfolding scan_branch mark_annotated
  scan_branch-done true jobs object response service normal h =
      (refl, refl, refl, refl, omega arith)
  scan_branch-done false [] object response service normal h = (refl, refl, refl, refl, omega arith)
  scan_branch-done false (job ∷ jobs) object response service normal h =
      scan_jobs-done job jobs object response service normal h
