-- ===== src/Scheduler/Service/Changes/Batch.antt =====
-- How often a batch of changes projects an object (internal/scheduler/scheduler.go,
-- `processObjectChanges`).
use gmeow.Base.{
  ℕ, ◌+◌, ◌≤◌, ◌++◌, String, Bool, true, false, Option, none, some, List, [], ◌∷◌, ◌≡◌, refl, arith,
  str_eq, eq_iff, if◌then◌else◌,
}
use gmeow.Scheduler.Types.{AnalyzerJob, ObjectChangeRequest, ProjectionObject, ScanRequest}
use gmeow.Scheduler.Jobs.{contains_string, blank}
use gmeow.Scheduler.Service.{
  Env, Service, Call, Loaded, load_error, not_found, found, publish, project_object, send,
  published, publish_jobs, normalize,
}
use gmeow.Scheduler.Annotated.{contains}
use gmeow.Scheduler.Service.Scan.{jobs_for, mark_annotated}
use gmeow.Scheduler.Service.Changes.{
  note_write, clear_pending, object_change_scan_request, enqueue_object_change_analysis,
  project_object_change, analyse_change, change_object, process_loaded,
  process_object_change_digest, process_object_change_request, process_requests,
  process_object_changes, finish,
}

abbrev pub is_projection : String → Call → Bool
is_projection digest (project_object d) = str_eq d digest
is_projection digest _ = false

-- How many of the calls project a digest.
abbrev pub projections : String → List Call → ℕ
projections digest [] = 0
projections digest (call ∷ calls) =
    let rest = projections digest calls in if is_projection digest call then 1 + rest else rest

-- What a batch may have done: a digest that it has not projected was projected as often as before, and
-- any other, also where an error ended it, at most once more.
abbrev allowed : ℕ → String → Option String → List String → ℕ
allowed before digest none projected =
    if contains_string projected digest then before + 1 else before
allowed before digest (some _) projected = before + 1

module _ (env : Env) (digest : String) where
  published-projections :
      (error : Option String) (service : Service) (rest : ℕ × Option String × Service)
      → projections digest rest.2.calls ≡ projections digest service.calls
      → projections digest (published env error service rest).2.calls
        ≡ projections digest service.calls
  unfolding published
  published-projections (some e) service rest h = refl
  published-projections none service rest h = h

  publish_jobs-projections :
      (jobs : List AnalyzerJob) (service : Service)
      → projections digest (publish_jobs env jobs service).2.calls
        ≡ projections digest service.calls
  unfolding publish_jobs send
  publish_jobs-projections [] service = refl
  publish_jobs-projections (job ∷ jobs) service =
      let sent : Service = record service {
        calls = publish (normalize env service job) ∷ service.calls;
      } in
      published-projections (env.answer service.calls (publish (normalize env service job))) sent
        (publish_jobs env jobs sent) (publish_jobs-projections jobs sent)

  enqueue-projections :
      (object : ProjectionObject) (request : ScanRequest) (service : Service)
      → projections digest (enqueue_object_change_analysis env object request service).1.calls
        ≡ projections digest service.calls
  unfolding enqueue_object_change_analysis mark_annotated note_write
  enqueue-projections object request service =
      ground (arith, publish_jobs-projections (jobs_for env service object request) service)

  analyse_change-projections :
      (d : String) (request : ObjectChangeRequest) (object : ProjectionObject) (service : Service)
      → projections digest (analyse_change env d request object service).1.calls
        ≡ projections digest service.calls
  unfolding analyse_change
  analyse_change-projections d request object service = ground (
    arith,
    enqueue-projections object (object_change_scan_request request)
        (record service { fully_annotated = (contains service.fully_annotated d).0 }),
  )

  module _ (before : ℕ) where
    abbrev Allowed : Option String × (List String × Service) → Type 0
    Allowed out = projections digest out.1.1.calls ≤ allowed before digest out.0 out.1.0

    project_object_change-Allowed :
        (object : ProjectionObject) (projected : List String) (service : Service)
        → Allowed (none, (projected, service))
        → Allowed (project_object_change env object (projected, service))
    unfolding project_object_change send contains_string
    project_object_change-Allowed object projected service h =
        ground (arith, eq_iff object.manifest.object_digest digest)

    change_object-Allowed :
        (d : String) (request : ObjectChangeRequest) (object : ProjectionObject)
        (projected : List String) (service : Service)
        → Allowed (none, (projected, service))
        → Allowed (change_object env d request object (projected, service))
    unfolding change_object
    change_object-Allowed d request object projected service h =
        let mid = project_object_change env object (projected, service) in
        ground (
          arith,
          project_object_change-Allowed object projected service h,
          analyse_change-projections d request object mid.1.1,
        )

    process_loaded-Allowed :
        (loaded : Loaded) (d : String) (request : ObjectChangeRequest) (projected : List String)
        (service : Service)
        → Allowed (none, (projected, service))
        → Allowed (process_loaded env loaded d request (projected, service))
    unfolding process_loaded
    process_loaded-Allowed (load_error e) d request projected service h = ground arith
    process_loaded-Allowed not_found d request projected service h = h
    process_loaded-Allowed (found object) d request projected service h =
        ground (arith, change_object-Allowed d request object projected service h)

    then_rest :
        (error : Option String) (state : List String × Service)
        (rest : Option String × (List String × Service))
        → Allowed (error, state)
        → (Allowed (none, state) → Allowed rest)
        → Allowed (elim error [ some e ↦ (some e, state) | none ↦ rest ])
    then_rest (some e) state rest h f = h
    then_rest none state rest h f = f h

    if_Allowed :
        (b : Bool) (x y : Option String × (List String × Service))
        → Allowed x
        → Allowed y
        → Allowed (if b then x else y)
    if_Allowed true x y h k = h
    if_Allowed false x y h k = k

    request-Allowed :
        (digests : List String) (request : ObjectChangeRequest) (state : List String × Service)
        → Allowed (none, state)
        → Allowed (process_object_change_request env digests request state)
    unfolding process_object_change_request process_object_change_digest
    request-Allowed [] request state h = h
    request-Allowed (d ∷ digests) request state h =
        let step = process_loaded env (env.projection_object d) d request state in
        if_Allowed (blank d) (process_object_change_request env digests request state)
          (elim step.0 [
            | some e ↦ (some e, step.1)
            | none ↦ process_object_change_request env digests request step.1
          ])
          (request-Allowed digests request state h)
          (then_rest step.0 step.1 (process_object_change_request env digests request step.1)
            (process_loaded-Allowed (env.projection_object d) d request state.0 state.1 h)
            (request-Allowed digests request step.1))

    abbrev AllowedBatch : Option String × List String × (List String × Service) → Type 0
    AllowedBatch out = projections digest out.2.1.calls ≤ allowed before digest out.0 out.2.0

    then_requests :
        (error : Option String) (state : List String × Service) (done : List String)
        (rest : Option String × List String × (List String × Service))
        → Allowed (error, state)
        → (Allowed (none, state) → AllowedBatch rest)
        → AllowedBatch (elim error [ some e ↦ (some e, [], state) | none ↦ (rest.0, done, rest.2) ])
    then_requests (some e) state done rest h f = h
    then_requests none state done rest h f = f h

    requests-Allowed :
        (requests : List ObjectChangeRequest) (state : List String × Service)
        → Allowed (none, state)
        → AllowedBatch (process_requests env requests state)
    unfolding process_requests
    requests-Allowed [] state h = h
    requests-Allowed (request ∷ requests) state h =
        let step = process_object_change_request env request.object_digests request state in
        let rest = process_requests env requests step.1 in
        then_requests step.0 step.1
          (if request.projection_only then request.object_digests ++ rest.1 else rest.1) rest
          (request-Allowed request.object_digests request state h)
          (requests-Allowed requests step.1)

    -- Where the batch ended without an error or with one.
    bound :
        (error : Option String) (projected : List String)
        → allowed before digest error projected ≤ before + 1
    bound (some e) projected = omega arith
    bound none projected = ground arith

  end_projections :
      (error : Option String) (processed : List String) (service : Service)
      → projections digest (finish error processed service).1.calls
        ≡ projections digest service.calls
  unfolding finish clear_pending
  end_projections (some e) processed service = refl
  end_projections none processed service = refl

  -- A batch of changes projects a digest at most once, however often its requests name it, and
  -- also where it ends with an error.
  pub process_object_changes_once :
      (requests : List ObjectChangeRequest) (service : Service)
      → projections digest (process_object_changes env requests service).1.calls
        ≤ projections digest service.calls + 1
  unfolding process_object_changes contains_string
  process_object_changes_once requests service =
      let before = projections digest service.calls in
      let out = process_requests env requests ([], service) in
      omega (
        arith,
        requests-Allowed before requests ([], service) (omega arith),
        bound before out.0 out.2.0,
        end_projections out.0 out.1 out.2.1,
      )
