-- ===== src/Scheduler/Jobs/Wanted.antt =====
-- Which analyzers `jobsForObject` sends a job, and what `normalizeJob` leaves of such a job
-- (internal/scheduler/scheduler.go).
use gmeow.Base.{
  ℕ, String, Bool, true, false, not, ◌&&◌, ◌||◌, Option, none, some, List, [], ◌∷◌, map, ◌≡◌, refl,
  arith, str_eq, if◌then◌else◌, string_eq, lookup, insert, lookup-insert,
}
use gmeow.Scheduler.Types.{
  AnalyzerSpec, AnalyzerJob, Annotation, ProjectionObject, ScanRequest, SchedulerPriority,
}
use gmeow.Scheduler.Jobs.{
  collect_annotations, analysis_annotations_by_name, or_zero, analysis_reason, reason_for,
  status_reason, spec_matches_object, jobs_for_object, job_of, job_draft,
}

-- The last of the analysis annotations of an analyzer.
abbrev pub last_analysis : String → List Annotation → Option Annotation
last_analysis name [] = none
last_analysis name (annotation ∷ annotations) = elim (last_analysis name annotations) [
  | some later ↦ some later
  | none ↦
      if (str_eq annotation.kind "analysis" && not (str_eq annotation.analyzer_name ""))
        && str_eq annotation.analyzer_name name
      then some annotation
      else none
]

abbrev pub is_healthy : Option String → Bool
is_healthy none = true
is_healthy (some status) =
    not (str_eq status "failed") && not (str_eq status "error") && not (str_eq status "invalid")

-- The analysis is of the wanted version and did not go wrong.
abbrev pub is_current : AnalyzerSpec → Option Annotation → Bool
is_current spec none = false
is_current spec (some annotation) =
    str_eq annotation.analyzer_ver spec.version && is_healthy annotation.status

abbrev pub is_wanted : ProjectionObject → ScanRequest → AnalyzerSpec → Bool
is_wanted object request spec =
    spec_matches_object spec object.manifest
    && (request.forced || not (is_current spec (last_analysis spec.name object.annotations)))

abbrev pub select {ℓ} : {A : Type ℓ} → (A → Bool) → List A → List A
select p [] = []
select p (x ∷ xs) = let rest = select p xs in if p x then x ∷ rest else rest

abbrev pub or_else {ℓ} : {A : Type ℓ} → Option A → Option A → Option A
or_else (some a) o = some a
or_else none o = o

or_else-none : (o : Option Annotation) → or_else o none ≡ o
or_else-none o = ground arith

pub lookup-collect :
    (name : String) (annotations : List Annotation) (result : List (String × Annotation))
    → lookup name (collect_annotations annotations result)
      ≡ or_else (last_analysis name annotations) (lookup name result)
unfolding collect_annotations
lookup-collect name [] result = refl
lookup-collect name (a ∷ rest) result = ground (
  arith,
  lookup-collect name rest result,
  lookup-collect name rest (insert a.analyzer_name a result),
  lookup-insert a.analyzer_name name a result,
)

pub last_analysis-named :
    (name : String) (annotations : List Annotation) {a : Annotation}
    → last_analysis name annotations ≡ some a
    → str_eq a.analyzer_name "" ≡ false
last_analysis-named name [] h = ground arith
last_analysis-named name (x ∷ rest) {a} h = ground (arith, last_analysis-named name rest {a = a})

missing_current :
    (forced : Bool) (reason : String)
    → str_eq (if forced then "forced" else (if str_eq "" "" then "missing" else reason)) ""
      ≡ not (forced || true)
missing_current true reason = refl
missing_current false reason = refl

status_step :
    (failed error invalid : Bool)
    → str_eq (if failed || error || invalid then "repair" else "") ""
      ≡ (not failed && not error && not invalid)
status_step true error invalid = refl
status_step false true invalid = refl
status_step false false true = refl
status_step false false false = refl

status_reason-healthy : (o : Option String) → str_eq (status_reason o) "" ≡ is_healthy o
unfolding status_reason
status_reason-healthy none = refl
status_reason-healthy (some s) =
    status_step (str_eq s "failed") (str_eq s "error") (str_eq s "invalid")

found_current :
    (forced unnamed versioned healthy : Bool) (reason : String)
    → unnamed ≡ false
    → str_eq reason "" ≡ healthy
    → str_eq
        (if forced
          then "forced"
          else (if unnamed then "missing" else (if not versioned then "stale" else reason)))
        ""
      ≡ not (forced || not (versioned && healthy))
found_current true unnamed versioned healthy reason h e = refl
found_current false true versioned healthy reason h e = ground arith
found_current false false false healthy reason h e = refl
found_current false false true healthy reason h e = ground arith

pub analysis_reason-current :
    (spec : AnalyzerSpec) (o : Option Annotation) (request : ScanRequest)
    → ((a : Annotation) → o ≡ some a → str_eq a.analyzer_name "" ≡ false)
    → str_eq (analysis_reason spec (or_zero o) request) ""
      ≡ not (request.forced || not (is_current spec o))
unfolding analysis_reason status_reason
analysis_reason-current spec none request named =
    missing_current request.forced
      (if not (str_eq "" spec.version) then "stale" else status_reason none)
analysis_reason-current spec (some a) request named =
    found_current request.forced (str_eq a.analyzer_name "") (str_eq a.analyzer_ver spec.version)
      (is_healthy a.status) (status_reason a.status) (named a refl) (status_reason-healthy a.status)

reason_for-current :
    (object : ProjectionObject) (request : ScanRequest) (spec : AnalyzerSpec)
    → str_eq (reason_for object request spec) ""
      ≡ not (request.forced || not (is_current spec (last_analysis spec.name object.annotations)))
unfolding reason_for analysis_annotations_by_name analysis_reason lookup status_reason
reason_for-current object request spec =
    let found = lookup-collect spec.name object.annotations [] in
    rw (found, or_else-none (last_analysis spec.name object.annotations))
      (analysis_reason-current spec (last_analysis spec.name object.annotations) request
        (λ a. last_analysis-named spec.name object.annotations))

select-step :
    (matched settled wanted : Bool) (job : AnalyzerJob) (jobs : List AnalyzerJob)
    {specs : List AnalyzerSpec}
    → settled ≡ not wanted
    → map (λ j. AnalyzerJob.analyzer j) jobs ≡ specs
    → map
        (λ j. AnalyzerJob.analyzer j)
        (if not matched then jobs else (if settled then jobs else job ∷ jobs))
      ≡ (if matched && wanted then job.analyzer ∷ specs else specs)
select-step matched settled wanted job jobs h rest = ground arith

module _ (sha256_hex : String → String) (priorities : SchedulerPriority) (now : ℕ) where
  -- The analyzers that an object gets jobs for are, in the order of the specs, those that match
  -- it and that are forced or have no current analysis: the last analysis annotation of the
  -- analyzer is missing, of another version, or failed, in error or invalid.
  pub jobs_for_object-analyzers :
      (specs : List AnalyzerSpec) (object : ProjectionObject) (request : ScanRequest)
      → map
          (λ job. AnalyzerJob.analyzer job)
          (jobs_for_object sha256_hex priorities now specs object request)
        ≡ select (is_wanted object request) specs
  unfolding jobs_for_object job_of job_draft
  jobs_for_object-analyzers [] object request = refl
  jobs_for_object-analyzers (spec ∷ specs) object request =
      select-step (spec_matches_object spec object.manifest)
        (str_eq (reason_for object request spec) "")
        (request.forced || not (is_current spec (last_analysis spec.name object.annotations)))
        (job_of sha256_hex priorities now object request spec (reason_for object request spec))
        (jobs_for_object sha256_hex priorities now specs object request)
        (reason_for-current object request spec) (jobs_for_object-analyzers specs object request)
