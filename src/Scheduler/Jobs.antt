-- ===== src/Scheduler/Jobs.antt =====
-- The jobs of one object (internal/scheduler/scheduler.go): which analyzers want it, why, and the job
-- that each of them is sent. `sha256_hex` is the digest of a text, and `now` the instant of the call.
pub mod Wanted
pub mod Normal
use Prim.Native.String.{◌++◌ as str_append}
use gmeow.Base.{
  ℕ, zero, suc, String, Bool, true, false, not, ◌&&◌, ◌||◌, Option, none, some, List, [], ◌∷◌, ◌==◌,
  str_eq, if◌then◌else◌, trim_space, string_eq, lookup, insert,
}
use gmeow.Scheduler.Types.{
  AnalyzerSpec, AnalyzerJob, ScanRequest, Annotation, Manifest, ProjectionObject, SchedulerPriority,
  schema_version_phase00, priority_interactive, priority_forced, priority_fresh_ingest,
  priority_repair, priority_background,
}

-- `strings.TrimSpace(text) == ""`.
abbrev pub blank : String → Bool
unfolding trim_space
blank text = str_eq (trim_space text) ""

unfoldable pub first_non_empty : List String → String
first_non_empty [] = ""
first_non_empty (value ∷ values) =
    if str_eq (trim_space value) "" then first_non_empty values else trim_space value

unfoldable pub contains_string : List String → String → Bool
contains_string [] value = false
contains_string (x ∷ xs) value = str_eq x value || contains_string xs value

unfoldable pub contains_any : List String → List String → Bool
contains_any [] available = false
contains_any (value ∷ wanted) available =
    if contains_string available value then true else contains_any wanted available

-- `len(values) > 0`.
abbrev pub non_empty {ℓ} : {A : Type ℓ} → List A → Bool
non_empty [] = false
non_empty (_ ∷ _) = true

unfoldable pub spec_matches_object : AnalyzerSpec → Manifest → Bool
spec_matches_object spec manifest =
    if non_empty spec.media_types && not (contains_string spec.media_types manifest.media_type)
    then false
    else if non_empty spec.content_roles
        && not (contains_any spec.content_roles manifest.content_roles)
    then false
    else true

-- The loop of `analysisAnnotationsByName`, over the annotations left and the map so far.
unfoldable pub collect_annotations :
    List Annotation → List (String × Annotation) → List (String × Annotation)
collect_annotations [] result = result
collect_annotations (annotation ∷ annotations) result = collect_annotations annotations (
    if str_eq annotation.kind "analysis" && not (str_eq annotation.analyzer_name "")
    then insert annotation.analyzer_name annotation result
    else result)

unfoldable pub analysis_annotations_by_name : List Annotation → List (String × Annotation)
analysis_annotations_by_name annotations = collect_annotations annotations []

-- What a Go map gives for a missing key.
abbrev pub zero_annotation : Annotation
zero_annotation = record { status = none; analyzer_name = ""; analyzer_ver = ""; kind = "" }

abbrev pub or_zero : Option Annotation → Annotation
or_zero none = zero_annotation
or_zero (some annotation) = annotation

-- The `switch` on the status of an annotation of the wanted version.
unfoldable pub status_reason : Option String → String
status_reason none = ""
status_reason (some status) =
    if str_eq status "failed" || str_eq status "error" || str_eq status "invalid"
    then "repair"
    else ""

unfoldable pub analysis_reason : AnalyzerSpec → Annotation → ScanRequest → String
analysis_reason spec annotation request =
    if request.forced
    then "forced"
    else if str_eq annotation.analyzer_name ""
    then "missing"
    else if not (str_eq annotation.analyzer_ver spec.version)
    then "stale"
    else status_reason annotation.status

-- Why a spec wants an object, as `jobsForObject` computes it.
unfoldable pub reason_for : ProjectionObject → ScanRequest → AnalyzerSpec → String
reason_for object request spec =
    analysis_reason spec
      (or_zero (lookup spec.name (analysis_annotations_by_name object.annotations))) request

unfoldable pub priority_class_for_reason : String → String
priority_class_for_reason reason =
    if str_eq reason "forced"
    then priority_forced
    else if str_eq reason "repair"
    then priority_repair
    else priority_background

unfoldable pub priority_value : SchedulerPriority → String → ℕ
priority_value priorities class =
    if str_eq class priority_interactive
    then priorities.interactive
    else if str_eq class priority_forced
    then priorities.forced
    else if str_eq class priority_fresh_ingest
    then priorities.fresh_ingest
    else if str_eq class priority_repair
    then priorities.repair
    else priorities.background

-- `strings.Join(parts, "\x00")`.
unfoldable pub join_nul : List String → String
join_nul [] = ""
join_nul (part ∷ []) = part
join_nul (part ∷ (next ∷ parts)) = str_append part (str_append "\0" (join_nul (next ∷ parts)))

-- The parts of the key of a job.
unfoldable pub key_parts : AnalyzerJob → List String
key_parts job =
    job.object_digest
    ∷ job.analyzer.name
    ∷ job.analyzer.version
    ∷ (if job.forced then "forced" ∷ first_non_empty (job.trace_id ∷ "forced" ∷ []) ∷ [] else [])

module _ (sha256_hex : String → String) where
  unfoldable pub idempotency_key : AnalyzerJob → String
  idempotency_key job = sha256_hex (join_nul (key_parts job))

  module _ (priorities : SchedulerPriority) (now : ℕ) where
    -- The part of `normalizeJob` that fills in the keys.
    unfoldable pub fill_keys : AnalyzerJob → AnalyzerJob
    fill_keys job =
        let key =
          if str_eq job.idempotency_key "" then idempotency_key job else job.idempotency_key in
        record job {
          idempotency_key = key;
          job_id = if str_eq job.job_id "" then key else job.job_id;
        }

    -- The part of `normalizeJob` that fills in the priority.
    unfoldable pub fill_priority : AnalyzerJob → AnalyzerJob
    fill_priority job =
        let class =
          if str_eq job.priority_class "" then priority_background else job.priority_class in
        record job {
          priority_class = class;
          priority = if job.priority == 0 then priority_value priorities class else job.priority;
        }

    -- The part of `normalizeJob` that fills in the schema version and the instant.
    unfoldable pub fill_stamp : AnalyzerJob → AnalyzerJob
    fill_stamp job = record job {
      schema_version =
          if job.schema_version == 0 then schema_version_phase00 else job.schema_version;
      created_at = if job.created_at == 0 then now else job.created_at;
    }

    unfoldable pub normalize_job : AnalyzerJob → AnalyzerJob
    normalize_job job = fill_priority (fill_keys (fill_stamp job))

    -- The job of a spec, before its keys.
    unfoldable pub job_draft : ProjectionObject → ScanRequest → AnalyzerSpec → String → AnalyzerJob
    job_draft object request spec reason =
        let class =
          first_non_empty (request.priority_class ∷ priority_class_for_reason reason ∷ []) in
        record {
          created_at = now;
          analyzer = spec;
          requested_by = first_non_empty (request.requested_by ∷ "scheduler" ∷ []);
          object_digest = object.manifest.object_digest;
          priority_class = class;
          reason = first_non_empty (request.reason ∷ reason ∷ []);
          trace_id = request.trace_id;
          idempotency_key = "";
          job_id = "";
          schema_version = schema_version_phase00;
          priority = priority_value priorities class;
          forced = request.forced;
        }

    unfoldable pub job_of : ProjectionObject → ScanRequest → AnalyzerSpec → String → AnalyzerJob
    job_of object request spec reason =
        let job = job_draft object request spec reason in
        record job { idempotency_key = idempotency_key job; job_id = idempotency_key job }

    unfoldable pub jobs_for_object :
        List AnalyzerSpec → ProjectionObject → ScanRequest → List AnalyzerJob
    jobs_for_object [] object request = []
    jobs_for_object (spec ∷ specs) object request =
        let jobs = jobs_for_object specs object request in
        let reason = reason_for object request spec in
        if not (spec_matches_object spec object.manifest)
        then jobs
        else if str_eq reason ""
        then jobs
        else job_of object request spec reason ∷ jobs
