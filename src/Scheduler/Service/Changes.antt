-- ===== src/Scheduler/Service/Changes.antt =====
-- The notifications that objects changed, and the queue that works them off: `NotifyObjectsChanged`
-- and `ProcessObjectChanges` (internal/scheduler/scheduler.go).
pub mod Notify
pub mod Pending
pub mod Batch
use Prim.Native.String.{◌++◌ as str_append}
use gmeow.Base.{
  ℕ, ◌+◌, String, Bool, true, false, not, ◌&&◌, ◌||◌, Option, none, some, List, [], ◌∷◌, ◌++◌, ◌==◌,
  if◌then◌else◌, string_eq, lookup, insert, delete, length,
}
use gmeow.Scheduler.Annotated.{add, contains}
use gmeow.Scheduler.Types.{
  ObjectChangeRequest, AnalyzerJob, ProjectionObject, ScanRequest, ScanResponse,
}
use gmeow.Scheduler.Jobs.{blank, contains_string, first_non_empty, non_empty}
use gmeow.Scheduler.Service.{
  Env, Service, publish_object_changes, project_object, Loaded, load_error, not_found, found, send,
  publish_jobs,
}
use gmeow.Scheduler.Service.Scan.{empty_response, jobs_for, mark_annotated}

unfoldable pub is_pending : List (String × Unit {0}) → String → Bool
is_pending pending digest = elim (lookup digest pending) [ none ↦ false | some _ ↦ true ]

-- What the loop of `NotifyObjectsChanged` leaves: the digests to send, how many were skipped, and the
-- pending digests.
pub record Collected : Type 0 where
  pub digests : List String
  pub skipped : ℕ
  pub pending : List (String × Unit {0})

-- The body of that loop, with what the rest of it leaves where the digest is dropped, where it is seen
-- and where it is marked: on whether the digest is blank, is seen, changes only its projection and is
-- pending.
unfoldable pub collect_branch :
    String → Bool → Bool → Bool → Bool → Collected → Collected → Collected → Collected
collect_branch digest true repeated projection_only waiting dropped unmarked marked = dropped
collect_branch digest false true projection_only waiting dropped unmarked marked = dropped
collect_branch digest false false true true dropped unmarked marked = record unmarked {
  skipped = unmarked.skipped + 1;
}
collect_branch digest false false true false dropped unmarked marked = record marked {
  digests = digest ∷ marked.digests;
}
collect_branch digest false false false waiting dropped unmarked marked = record unmarked {
  digests = digest ∷ unmarked.digests;
}

-- The loop of `NotifyObjectsChanged`, over the digests left, those seen and the pending ones.
unfoldable pub collect : Bool → List String → List String → List (String × Unit {0}) → Collected
collect projection_only [] seen pending = record { digests = []; skipped = 0; pending = pending }
collect projection_only (digest ∷ digests) seen pending =
    collect_branch digest (blank digest) (contains_string seen digest) projection_only
      (is_pending pending digest) (collect projection_only digests seen pending)
      (collect projection_only digests (digest ∷ seen) pending)
      (collect projection_only digests (digest ∷ seen) (insert digest tt pending))

unfoldable pub note_write : Service → Service
note_write service = record service { write_seen = true }

-- The loop of `clearPendingProjectionDigests`.
unfoldable pub clear_digests : List String → List (String × Unit {0}) → List (String × Unit {0})
clear_digests [] pending = pending
clear_digests (digest ∷ digests) pending = clear_digests digests (delete digest pending)

unfoldable pub clear_pending : List String → Service → Service
clear_pending digests service = record service {
  projection_pending = clear_digests digests service.projection_pending;
}

unfoldable pub object_change_scan_request : ObjectChangeRequest → ScanRequest
object_change_scan_request request = record {
  priority_class = request.priority_class;
  requested_by = first_non_empty (request.requested_by ∷ "filestore" ∷ []);
  reason = first_non_empty (request.reason ∷ "object_changed" ∷ []);
  trace_id = request.trace_id;
  forced = false;
}

-- The ends of `NotifyObjectsChanged`: on whether there is nothing to send, and the error of sending.
unfoldable pub notify_end :
    Bool
    → Option String
    → ObjectChangeRequest
    → Collected
    → Service
    → Service
    → Option String × (ScanResponse × Service)
notify_end true error request c marked sent =
    (none, (record empty_response { skipped = c.skipped }, marked))
notify_end false (some e) request c marked sent = (
  some (str_append "publish object change notification: " e),
  (
    record {
      scanned = length c.digests;
      enqueued = 0;
      skipped = c.skipped;
      failed = length c.digests;
    },
    if request.projection_only then clear_pending c.digests sent else sent,
  ),
)
notify_end false none request c marked sent = (
  none,
  (
    record {
      scanned = length c.digests;
      enqueued = length c.digests;
      skipped = c.skipped;
      failed = 0;
    },
    note_write sent,
  ),
)

-- The end of `processObjectChanges`.
unfoldable pub finish : Option String → List String → Service → Option String × Service
finish (some e) processed service = (some e, service)
finish none processed service = (none, clear_pending processed service)

module _ (env : Env) where
  unfoldable pub notify_objects_changed :
      ObjectChangeRequest → Service → Option String × (ScanResponse × Service)
  notify_objects_changed request service =
      let c =
        collect request.projection_only request.object_digests [] service.projection_pending in
      let scanned = length c.digests in
      let marked = record service { projection_pending = c.pending } in
      let (error, sent) =
        send env (publish_object_changes (record request { object_digests = c.digests })) marked in
      notify_end (scanned == 0) error request c marked sent

  unfoldable pub enqueue_object_change_analysis :
      ProjectionObject → ScanRequest → Service → Option String × Service
  enqueue_object_change_analysis object request service =
      let digest = object.manifest.object_digest in
      let jobs = jobs_for env service object request in
      let (_, error, service') = publish_jobs env jobs service in
      if not (non_empty jobs) then (none, mark_annotated digest service) else elim error [
        | some e ↦ (
          some (
              str_append "publish analysis job for changed object "
                (str_append digest (str_append ": " e))),
          service',
        )
        | none ↦ (none, note_write service')
      ]

  -- With the digests that the batch has projected so far.
  unfoldable pub project_object_change :
      ProjectionObject → List String × Service → Option String × (List String × Service)
  project_object_change object (projected, service) =
      let digest = object.manifest.object_digest in
      let (error, service') = send env (project_object digest) service in
      if not service.has_projector || contains_string projected digest
      then (none, (projected, service))
      else elim error [
        | some e ↦ (
          some (str_append "project changed object " (str_append digest (str_append ": " e))),
          (projected, service'),
        )
        | none ↦ (none, (digest ∷ projected, service'))
      ]

  -- The part of `processObjectChangeDigest` below the projection.
  unfoldable pub analyse_change :
      String → ObjectChangeRequest → ProjectionObject → Service → Option String × Service
  analyse_change digest request object service =
      let (fully_annotated, annotated) = contains service.fully_annotated digest in
      let touched = record service { fully_annotated = fully_annotated } in
      let enqueued =
        enqueue_object_change_analysis object (object_change_scan_request request) touched in
      if request.projection_only
      then (none, service)
      else if annotated
      then (none, touched)
      else enqueued

  -- The part of `processObjectChangeDigest` below the findings.
  unfoldable pub change_object :
      String
      → ObjectChangeRequest
      → ProjectionObject
      → List String × Service
      → Option String × (List String × Service)
  change_object digest request object state =
      let (error, (projected, service)) = project_object_change object state in
      let (error', service') = analyse_change digest request object service in
      elim error [
        | some e ↦ (some e, (projected, service))
        | none ↦ (error', (projected, service'))
      ]

  -- The part of `processObjectChangeDigest` below the load.
  unfoldable pub process_loaded :
      Loaded
      → String
      → ObjectChangeRequest
      → List String × Service
      → Option String × (List String × Service)
  process_loaded (load_error e) digest request state =
      (some (str_append "load changed object " (str_append digest (str_append ": " e))), state)
  process_loaded not_found digest request state = (none, state)
  process_loaded (found object) digest request state =
      let changed = change_object digest request object state in
      if non_empty object.findings then (none, state) else changed

  unfoldable pub process_object_change_digest :
      String → ObjectChangeRequest → List String × Service → Option String × (List String × Service)
  process_object_change_digest digest request state =
      process_loaded (env.projection_object digest) digest request state

  -- The loop of `processObjectChangeRequest`, over the digests left.
  unfoldable pub process_object_change_request :
      List String
      → ObjectChangeRequest
      → List String × Service
      → Option String × (List String × Service)
  process_object_change_request [] request state = (none, state)
  process_object_change_request (digest ∷ digests) request state =
      let skipped = process_object_change_request digests request state in
      let (error, state') = process_object_change_digest digest request state in
      let rest = process_object_change_request digests request state' in
      if blank digest then skipped else elim error [ some e ↦ (some e, state') | none ↦ rest ]

  -- The loop of `processObjectChanges`, over the requests left: the error, the digests to clear, and
  -- the state.
  unfoldable pub process_requests :
      List ObjectChangeRequest
      → List String × Service
      → Option String × List String × (List String × Service)
  process_requests [] (projected, service) = (none, [], (projected, service))
  process_requests (request ∷ requests) state =
      let (error, state') = process_object_change_request request.object_digests request state in
      let (error', processed, state'') = process_requests requests state' in
      elim error [
        | some e ↦ (some e, [], state')
        | none ↦ (
          error',
          (if request.projection_only then request.object_digests ++ processed else processed),
          state'',
        )
      ]

  unfoldable pub process_object_changes :
      List ObjectChangeRequest → Service → Option String × Service
  process_object_changes requests service =
      let (error, processed, (_, service')) = process_requests requests ([], service) in
      finish error processed service'
