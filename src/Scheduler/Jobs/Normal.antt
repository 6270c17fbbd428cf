-- ===== src/Scheduler/Jobs/Normal.antt =====
-- What `normalizeJob` (internal/scheduler/scheduler.go) leaves as it is.
use gmeow.Base.{
  ℕ, String, Bool, true, false, not, List, [], ◌∷◌, ◌≡◌, refl, arith, str_eq, if◌then◌else◌,
  trim_space, All,
}
use gmeow.Scheduler.Types.{
  AnalyzerSpec, AnalyzerJob, ProjectionObject, ScanRequest, SchedulerPriority, priority_forced,
  priority_repair, priority_background,
}
use gmeow.Scheduler.Jobs.{
  jobs_for_object, job_of, job_draft, normalize_job, fill_keys, fill_stamp, fill_priority,
  idempotency_key, key_parts, first_non_empty, priority_class_for_reason, spec_matches_object,
  reason_for,
}

module _ (sha256_hex : String → String) (priorities : SchedulerPriority) (now : ℕ) where
  -- A job that is normalized twice at the same instant is the job that is normalized once.
  pub normalize_job_idem :
      (job : AnalyzerJob)
      → normalize_job sha256_hex priorities now (normalize_job sha256_hex priorities now job)
        ≡ normalize_job sha256_hex priorities now job
  unfolding normalize_job fill_keys fill_stamp fill_priority idempotency_key key_parts
  normalize_job_idem job = ground arith

All-if :
    {A : Type 0} (P : A → Type 0) (unmatched unwanted : Bool) (x : A) (xs : List A)
    → P x
    → All P xs
    → All P (if unmatched then xs else (if unwanted then xs else x ∷ xs))
All-if P true unwanted x xs px pxs = pxs
All-if P false true x xs px pxs = pxs
All-if P false false x xs px pxs = (px, pxs)

-- Whatever the tests say.
class_solid :
    (forced repair : Bool)
    → str_eq
        (trim_space (
          if forced
          then priority_forced
          else (if repair then priority_repair else priority_background)))
        ""
      ≡ false
unfolding trim_space
class_solid true repair = refl
class_solid false true = refl
class_solid false false = refl

first_non_empty-class :
    (class reason : String)
    → str_eq (first_non_empty (class ∷ priority_class_for_reason reason ∷ [])) "" ≡ false
unfolding first_non_empty priority_class_for_reason
first_non_empty-class class reason =
    ground (arith, class_solid (str_eq reason "forced") (str_eq reason "repair"))

module _ (sha256_hex : String → String) (priorities : SchedulerPriority) (now : ℕ) where
  normalize_job-job_of :
      (object : ProjectionObject) (request : ScanRequest) (spec : AnalyzerSpec) (reason : String)
      → normalize_job sha256_hex priorities now
          (job_of sha256_hex priorities now object request spec reason)
        ≡ job_of sha256_hex priorities now object request spec reason
  unfolding normalize_job fill_keys fill_stamp fill_priority idempotency_key key_parts job_of
      job_draft
  normalize_job-job_of object request spec reason =
      ground (arith, first_non_empty-class request.priority_class reason)

  -- The jobs of an object are normal when they are made: normalizing them at the same instant
  -- changes none.
  pub normalize_job-jobs_for_object :
      (specs : List AnalyzerSpec) (object : ProjectionObject) (request : ScanRequest)
      → All
          (λ job. normalize_job sha256_hex priorities now job ≡ job)
          (jobs_for_object sha256_hex priorities now specs object request)
  unfolding jobs_for_object
  normalize_job-jobs_for_object [] object request = tt
  normalize_job-jobs_for_object (spec ∷ specs) object request =
      All-if (λ job. normalize_job sha256_hex priorities now job ≡ job)
        (not (spec_matches_object spec object.manifest))
        (str_eq (reason_for object request spec) "")
        (job_of sha256_hex priorities now object request spec (reason_for object request spec))
        (jobs_for_object sha256_hex priorities now specs object request)
        (normalize_job-job_of object request spec (reason_for object request spec))
        (normalize_job-jobs_for_object specs object request)
