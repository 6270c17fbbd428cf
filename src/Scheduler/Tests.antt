-- ===== src/Scheduler/Tests.antt =====
-- Runs of the scheduler, and its theorems at concrete inputs.
use gmeow.Base.{
  arith, suc, ◌++◌, ◌+◌, ◌≤◌, ℕ, String, true, false, ◌&&◌, Option, none, some, List, [], ◌∷◌, map,
  ◌≡◌, refl, inr, trim_space, string_eq, lookup, insert, delete, length, All,
}
use gmeow.Scheduler.Annotated.{new_lru_cache, contains, add, remove}
use gmeow.Scheduler.Types.{
  AnalyzerSpec, AnalyzerJob, Annotation, ProjectionObject, ScanRequest, SchedulerPriority, Config,
  ObjectChangeRequest,
}
use gmeow.Scheduler.Jobs.{
  first_non_empty, contains_string, contains_any, spec_matches_object, collect_annotations,
  analysis_annotations_by_name, status_reason, analysis_reason, reason_for,
  priority_class_for_reason, priority_value, join_nul, key_parts, idempotency_key, fill_keys,
  fill_priority, fill_stamp, normalize_job, job_draft, job_of, jobs_for_object,
}
use gmeow.Scheduler.Jobs.Wanted.{select, is_wanted, jobs_for_object-analyzers}
use gmeow.Scheduler.Jobs.Normal.{normalize_job-jobs_for_object, normalize_job_idem}
use gmeow.Scheduler.Service.{
  Env, Service, declare, process_failures, not_found, found, stop_or, walk, send, normalize,
  published, publish_jobs,
}
use gmeow.Scheduler.Service.Publish.{onto}
use gmeow.Scheduler.Service.Scan.{
  mark_annotated, jobs_for, scan_end, scan_jobs, scan_branch, scan_object, scan,
}
use gmeow.Scheduler.Service.Scan.Quiet.{scan_no_error}
use gmeow.Scheduler.Service.Scan.Complete.{plan, plan_jobs, scan_complete}
use gmeow.Scheduler.Service.Setup.{
  new_service, make_service, fill_config, normalize_specs, collect_specs, sort_by_name,
  insert_by_name, trim_spec, spec_key, check_marks, with_specs, string_ltb,
}
use gmeow.Scheduler.Service.Setup.Valid.{IsReady, new_service-IsReady}
use gmeow.Scheduler.Service.Changes.Batch.{projections, process_object_changes_once}
use gmeow.Scheduler.Service.Changes.{
  process_object_changes, collect, collect_branch, is_pending, notify_objects_changed, notify_end,
  note_write, clear_digests, clear_pending, process_requests, process_object_change_request,
  process_object_change_digest, process_loaded, change_object, analyse_change,
  project_object_change, finish,
}
use gmeow.Scheduler.Service.Changes.Notify.{is_fresh, contains-collect, Distinct, collect-Distinct}
use gmeow.Scheduler.Service.Changes.Pending.{no_error, pending_after, notify-pending}
use gmeow.Scheduler.Service.Sweep.{
  Tick, Timer, update_pressure, consume_write_seen, new_chunk, heal_branch, heal_object,
  visit_chunk, end_chunk, self_heal_chunk, arm, start_idle, self_heal_tick, self_heal_rounds,
  string_leb,
}
use gmeow.Scheduler.Service.Sweep.Pressure.{update_all, pressure_after, update_all-pressured}
use gmeow.Scheduler.Service.Sweep.Idle.{self_heal_rounds-self_heal_chunk}

program : Unit {0}
unfolding trim_space lookup insert delete new_lru_cache contains add remove first_non_empty
    contains_string contains_any spec_matches_object collect_annotations
    analysis_annotations_by_name status_reason analysis_reason reason_for priority_class_for_reason
    priority_value join_nul key_parts idempotency_key fill_keys fill_priority fill_stamp
    normalize_job job_draft job_of jobs_for_object stop_or walk send normalize published
    publish_jobs mark_annotated jobs_for scan_end scan_jobs scan_branch scan_object scan new_service
    make_service fill_config normalize_specs collect_specs sort_by_name insert_by_name trim_spec
    spec_key check_marks with_specs string_ltb collect collect_branch is_pending
    notify_objects_changed notify_end note_write clear_digests clear_pending update_pressure
    consume_write_seen new_chunk heal_branch heal_object visit_chunk end_chunk self_heal_chunk arm
    start_idle self_heal_tick self_heal_rounds string_leb
program = tt

abbrev same_text : String → String
same_text text = text

abbrev priorities : SchedulerPriority
priorities = record { interactive = 9; forced = 8; fresh_ingest = 5; repair = 3; background = 1 }

abbrev config : Config
config = record {
  scan_interval = 0;
  retry_backoff = 0;
  self_heal_idle_threshold = 10;
  priorities = priorities;
  backpressure_high_water = 20;
  backpressure_low_water = 5;
  self_heal_chunk_size = 1;
  fully_annotated_cache_size = 4;
}

abbrev text_spec : AnalyzerSpec
text_spec = record {
  name = "text";
  version = "2";
  worker_kind = "py";
  media_types = "text/plain" ∷ [];
  content_roles = [];
}

abbrev any_spec : AnalyzerSpec
any_spec = record {
  name = "any";
  version = "1";
  worker_kind = "py";
  media_types = [];
  content_roles = [];
}

abbrev specs : List AnalyzerSpec
specs = any_spec ∷ text_spec ∷ []

abbrev object_at : String → List Annotation → ProjectionObject
object_at digest annotations = record {
  manifest = record { object_digest = digest; media_type = "text/plain"; content_roles = [] };
  annotations = annotations;
  findings = [];
}

abbrev any_done : Annotation
any_done = record {
  status = some "ok";
  analyzer_name = "any";
  analyzer_ver = "1";
  kind = "analysis";
}

abbrev request : ScanRequest
request = record {
  priority_class = "";
  requested_by = "";
  reason = "";
  trace_id = "";
  forced = false;
}

abbrev objects : List ProjectionObject
objects = object_at "a" (any_done ∷ []) ∷ object_at "b" [] ∷ []

abbrev env : Env
env = record {
  sha256_hex = same_text;
  now = 7;
  answer = λ _ _. none;
  projection = objects;
  walk_error = none;
  projection_object = λ _. not_found;
}

abbrev service : Service
service = make_service specs config false

jobs_test :
    map
      (λ job. AnalyzerJob.reason job)
      (jobs_for_object same_text priorities 7 specs (object_at "a" (any_done ∷ [])) request)
    ≡ "missing" ∷ []
unfolding program
jobs_test = refl

jobs_for_object-analyzers_example :
    map
      (λ job. AnalyzerJob.analyzer job)
      (jobs_for_object same_text priorities 7 specs (object_at "a" (any_done ∷ [])) request)
    ≡ select (is_wanted (object_at "a" (any_done ∷ [])) request) specs
jobs_for_object-analyzers_example =
    jobs_for_object-analyzers same_text priorities 7 specs (object_at "a" (any_done ∷ [])) request

normalize_job-jobs_for_object_example :
    All
      (λ job. normalize_job same_text priorities 9 job ≡ job)
      (jobs_for_object same_text priorities 9 specs (object_at "b" []) request)
normalize_job-jobs_for_object_example =
    normalize_job-jobs_for_object same_text priorities 9 specs (object_at "b" []) request

abbrev bare_job : AnalyzerJob
bare_job = record {
  created_at = 0;
  analyzer = text_spec;
  requested_by = "";
  object_digest = "a";
  priority_class = "";
  reason = "";
  trace_id = "";
  idempotency_key = "";
  job_id = "";
  schema_version = 0;
  priority = 0;
  forced = false;
}

normalize_job_idem_test :
    normalize_job same_text priorities 9 (normalize_job same_text priorities 9 bare_job)
    ≡ normalize_job same_text priorities 9 bare_job
normalize_job_idem_test = normalize_job_idem same_text priorities 9 bare_job

scan_test : (scan env request service).0 ≡ none
unfolding program
scan_test = refl

scan_count_test : (scan env request service).1.0.enqueued ≡ 3
unfolding program
scan_count_test = refl

scan_complete_example :
    ((scan env request service).1.1.calls
      ≡ onto
          (declare ∷ process_failures 100 ∷ plan env request service.specs service.config objects)
          service.calls)
    × ((scan env request service).1.0.scanned ≡ length objects)
    × ((scan env request service).1.0.enqueued
        ≡ plan_jobs env request service.specs service.config objects)
scan_complete_example = scan_complete env request service scan_test

new_service_test : new_service true true specs config false ≡ inr service
unfolding program
new_service_test = refl

new_service-IsReady_example : IsReady service
new_service-IsReady_example =
    new_service-IsReady true true specs config false service new_service_test

contains-collect_example :
    contains_string (collect true ("a" ∷ "" ∷ "a" ∷ "b" ∷ []) [] (("b", tt) ∷ [])).digests "a"
    ≡ (contains_string ("a" ∷ "" ∷ "a" ∷ "b" ∷ []) "a" && is_fresh true [] (("b", tt) ∷ []) "a")
contains-collect_example = contains-collect true ("a" ∷ "" ∷ "a" ∷ "b" ∷ []) [] (("b", tt) ∷ []) "a"

collect-Distinct_example : Distinct (collect true ("a" ∷ "" ∷ "a" ∷ "b" ∷ []) [] []).digests
collect-Distinct_example = collect-Distinct true ("a" ∷ "" ∷ "a" ∷ "b" ∷ []) [] []

abbrev change : ObjectChangeRequest
change = record {
  priority_class = "";
  requested_by = "";
  reason = "";
  trace_id = "";
  object_digests = "a" ∷ "a" ∷ [];
  projection_only = true;
}

notify_test :
    is_pending (notify_objects_changed env change service).1.1.projection_pending "a" ≡ true
unfolding program
notify_test = refl

notify-pending_example :
    is_pending (notify_objects_changed env change service).1.1.projection_pending "a"
    ≡ pending_after
        (no_error (notify_objects_changed env change service).0)
        ("a" ∷ "a" ∷ [])
        service.projection_pending
        "a"
notify-pending_example = notify-pending env change service "a" refl

abbrev projecting : Service
projecting = make_service specs config true

abbrev stored : Env
stored = record env { projection_object = λ digest. found (object_at digest []) }

once_test :
    projections "a" (process_object_changes stored (change ∷ change ∷ []) projecting).1.calls ≡ 1
unfolding program process_object_changes process_requests process_object_change_request
    process_object_change_digest process_loaded change_object analyse_change project_object_change
    finish
once_test = refl

process_object_changes_once_example :
    projections "a" (process_object_changes stored (change ∷ change ∷ []) projecting).1.calls
    ≤ projections "a" projecting.calls + 1
process_object_changes_once_example =
    process_object_changes_once stored "a" (change ∷ change ∷ []) projecting

abbrev statuses : List (Option (ℕ × ℕ))
statuses = some (20, 1) ∷ some (10, 0) ∷ none ∷ []

update_all-pressured_example :
    (update_all statuses service).pressured
    ≡ pressure_after service.config.backpressure_low_water service.config.backpressure_high_water
        statuses service.pressured
update_all-pressured_example = update_all-pressured statuses service (new_service-IsReady_example.0)

abbrev timer : Timer
timer = record { idle_since = 0; sweep_armed = false }

abbrev tick : ℕ → ℕ → Tick
tick depth now = record { status = some (depth, 0); idle_now = now; check_now = suc now }

-- A service under pressure, with a write since the last round.
abbrev written : Service
written = record service { write_seen = true; pressured = true }

abbrev before : List Tick
before = tick 30 10 ∷ ((tick 25 50 ∷ []) ++ (tick 1 60 ∷ (tick 0 64 ∷ [])))

self_heal_rounds-self_heal_chunk_example :
    (self_heal_rounds env before (timer, written) ≡ (
      record { idle_since = 60; sweep_armed = true },
      record written { write_seen = false; pressured = false },
    ))
    × (self_heal_rounds env (before ++ (tick 0 90 ∷ [])) (timer, written) ≡ (
      record { idle_since = 0; sweep_armed = false },
      self_heal_chunk env (record written { write_seen = false; pressured = false }),
    ))
unfolding make_service fill_config
self_heal_rounds-self_heal_chunk_example =
    self_heal_rounds-self_heal_chunk env timer written (tick 30 10) (tick 1 60) (tick 0 90)
      (tick 25 50 ∷ []) (tick 0 64 ∷ []) refl refl refl refl (omega arith) (omega arith) refl refl
      (omega arith)

-- With chunks of one object the cursor stays at the first one.
first_chunk_test : (self_heal_chunk env service).sweep_pos ≡ "a"
unfolding program
first_chunk_test = refl

second_chunk_test : (self_heal_chunk env (self_heal_chunk env service)).sweep_pos ≡ "a"
unfolding program
second_chunk_test = refl

scan_no_error_example : (scan env request service).0 ≡ none
scan_no_error_example = scan_no_error env (λ calls call. refl) request service refl
