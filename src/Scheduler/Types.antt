-- ===== src/Scheduler/Types.antt =====
-- The data that the scheduler reads and sends (internal/contracts/contracts.go,
-- internal/filestore/projection.go, internal/config/config.go and internal/scheduler/scheduler.go), with the
-- fields that its code reads or writes. An instant is a number of nanoseconds since the zero time, a
-- Go `error` is an `Option String`, and integers that the code only counts up or passes on are natural.
use gmeow.Base.{ℕ, String, Bool, Option, List}

-- `SchemaVersionPhase00`.
abbrev pub schema_version_phase00 : ℕ
schema_version_phase00 = 1

abbrev pub priority_interactive : String
priority_interactive = "interactive"

abbrev pub priority_forced : String
priority_forced = "forced"

abbrev pub priority_fresh_ingest : String
priority_fresh_ingest = "fresh_ingest"

abbrev pub priority_repair : String
priority_repair = "repair"

abbrev pub priority_background : String
priority_background = "background"

pub record AnalyzerSpec : Type 0 where
  pub name : String
  pub version : String
  pub worker_kind : String
  pub media_types : List String
  pub content_roles : List String

pub record AnalyzerJob : Type 0 where
  pub created_at : ℕ
  pub analyzer : AnalyzerSpec
  pub requested_by : String
  pub object_digest : String
  pub priority_class : String
  pub reason : String
  pub trace_id : String
  pub idempotency_key : String
  pub job_id : String
  pub schema_version : ℕ
  pub priority : ℕ
  pub forced : Bool

pub record ScanRequest : Type 0 where
  pub priority_class : String
  pub requested_by : String
  pub reason : String
  pub trace_id : String
  pub forced : Bool

pub record ScanResponse : Type 0 where
  pub scanned : ℕ
  pub enqueued : ℕ
  pub skipped : ℕ
  pub failed : ℕ

pub record ObjectChangeRequest : Type 0 where
  pub priority_class : String
  pub requested_by : String
  pub reason : String
  pub trace_id : String
  pub object_digests : List String
  pub projection_only : Bool

-- `status` is the entry `Data["status"]`, where it is a string.
pub record Annotation : Type 0 where
  pub status : Option String
  pub analyzer_name : String
  pub analyzer_ver : String
  pub kind : String

pub record Manifest : Type 0 where
  pub object_digest : String
  pub media_type : String
  pub content_roles : List String

-- `filestore.ProjectionObject`.
pub record ProjectionObject : Type 0 where
  pub manifest : Manifest
  pub annotations : List Annotation
  pub findings : List String

pub record SchedulerPriority : Type 0 where
  pub interactive : ℕ
  pub forced : ℕ
  pub fresh_ingest : ℕ
  pub repair : ℕ
  pub background : ℕ

pub record Config : Type 0 where
  pub scan_interval : ℕ
  pub retry_backoff : ℕ
  pub self_heal_idle_threshold : ℕ
  pub priorities : SchedulerPriority
  pub backpressure_high_water : ℕ
  pub backpressure_low_water : ℕ
  pub self_heal_chunk_size : ℕ
  pub fully_annotated_cache_size : ℕ
