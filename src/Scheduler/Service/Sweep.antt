-- ===== src/Scheduler/Service/Sweep.antt =====
-- Backpressure and the self-heal sweep (internal/scheduler/scheduler.go): `updatePressure`,
-- `noteWrite`, `consumeWriteSeen`, `selfHealChunk` and the rounds of `runSelfHeal`.
pub mod Pressure
pub mod Rounds
pub mod Idle
use Prim.Native.Nat.{Ordering}
use Prim.Native.String.{compare as compare_text}
use gmeow.Base.{
  ℕ, ◌+◌, ◌-◌, suc, String, Bool, true, false, not, ◌&&◌, ◌||◌, Option, none, some, List, [], ◌∷◌,
  ◌==◌, leb, ltb, if◌then◌else◌,
}
use gmeow.Scheduler.Types.{AnalyzerJob, ProjectionObject, ScanRequest, priority_repair, Config}
use gmeow.Scheduler.Jobs.{non_empty}
use gmeow.Scheduler.Service.{Env, Service, publish_projection_refresh, send, walk, publish_jobs}
use gmeow.Scheduler.Service.Scan.{jobs_for, mark_annotated}

-- `a <= b` of two Go strings.
unfoldable pub string_leb : String → String → Bool
string_leb a b = elim (compare_text a b) [ Ordering.gt ↦ false | _ ↦ true ]

-- The pending and retry counts of `broker.Status`, and `none` where it fails.
unfoldable pub update_pressure : Option (ℕ × ℕ) → Service → Service
update_pressure none service = service
update_pressure (some (pending, retry)) service =
    let depth = pending + retry in
    if service.pressured && leb depth service.config.backpressure_low_water
    then record service { pressured = false }
    else if not service.pressured && leb service.config.backpressure_high_water depth
    then record service { pressured = true }
    else service

unfoldable pub consume_write_seen : Service → Bool × Service
consume_write_seen service = (service.write_seen, record service { write_seen = false })

-- The variables that the callback of `selfHealChunk` shares with it.
pub record Chunk : Type 0 where
  pub count : ℕ
  pub started : Bool
  pub last_digest : String
  pub service : Service

unfoldable pub new_chunk : Service → Chunk
new_chunk service = record { count = 0; started = false; last_digest = ""; service = service }

-- `errSweepChunkDone`.
abbrev pub sweep_chunk_done : String
sweep_chunk_done = "sweep chunk limit reached"

abbrev pub heal_request : ScanRequest
heal_request = record {
  priority_class = priority_repair;
  requested_by = "scheduler";
  reason = "self_heal";
  trace_id = "";
  forced = false;
}

module _ (env : Env) where
  -- The branches of the callback from the findings on, on its jobs.
  unfoldable pub heal_branch :
      Bool → List AnalyzerJob → ProjectionObject → Service → Option String × Service
  heal_branch true jobs object service = (none, service)
  heal_branch false [] object service = (none, mark_annotated object.manifest.object_digest service)
  heal_branch false (job ∷ jobs) object service =
      let (_, error, service') = publish_jobs env (job ∷ jobs) service in
      let refreshed =
        send env (publish_projection_refresh object.manifest.object_digest) service' in
      elim error [ some e ↦ (some e, service') | none ↦ refreshed ]

  unfoldable pub heal_object : ProjectionObject → Chunk → Option String × Chunk
  heal_object object chunk =
      let (error, service) =
        heal_branch (non_empty object.findings) (jobs_for env chunk.service object heal_request)
          object chunk.service in
      (error, record chunk { service = service })

  -- The callback of `selfHealChunk`.
  unfoldable pub visit_chunk : String → ℕ → ProjectionObject → Chunk → Option String × Chunk
  visit_chunk start_pos chunk_size object chunk =
      let digest = object.manifest.object_digest in
      let started = record chunk { started = true } in
      let counted = record started { count = suc chunk.count; last_digest = digest } in
      let healed = heal_object object counted in
      if not (chunk.started || string_leb start_pos digest)
      then (none, chunk)
      else if leb chunk_size chunk.count
      then (some sweep_chunk_done, started)
      else healed

  -- The part of `selfHealChunk` below the walk: where the next sweep starts.
  unfoldable pub end_chunk : ℕ → Chunk → Service
  end_chunk chunk_size chunk = record chunk.service {
    sweep_pos = if ltb chunk.count chunk_size then "" else chunk.last_digest;
  }

  unfoldable pub self_heal_chunk : Service → Service
  self_heal_chunk service =
      let (_, chunk) =
        walk (visit_chunk service.sweep_pos service.config.self_heal_chunk_size) env.projection
          env.walk_error (new_chunk service) in
      end_chunk service.config.self_heal_chunk_size chunk

-- The variables of the loop of `runSelfHeal`.
pub record Timer : Type 0 where
  pub idle_since : ℕ
  pub sweep_armed : Bool

-- What a round of `runSelfHeal` reads: the status of the broker, and the clock, up to two times.
pub record Tick : Type 0 where
  pub status : Option (ℕ × ℕ)
  pub idle_now : ℕ
  pub check_now : ℕ

-- The part of the round below `updatePressure`.
unfoldable pub arm : Timer → Service → Timer × Service
arm timer service =
    let (seen, service') = consume_write_seen service in
    (if seen then record { idle_since = 0; sweep_armed = true } else timer, service')

unfoldable pub start_idle : ℕ → Timer → Timer
start_idle idle_now timer = record timer {
  idle_since = if timer.idle_since == 0 then idle_now else timer.idle_since;
}

module _ (env : Env) where
  -- A round of `runSelfHeal`, up to its wait for the ticker.
  unfoldable pub self_heal_tick : Tick → Timer × Service → Timer × Service
  self_heal_tick tick (timer, service) =
      let (armed, ready) = arm timer (update_pressure tick.status service) in
      let idle = start_idle tick.idle_now armed in
      let swept = self_heal_chunk env ready in
      if armed.sweep_armed && not ready.pressured
      then (if leb ready.config.self_heal_idle_threshold (tick.check_now - idle.idle_since)
          then (record { idle_since = 0; sweep_armed = false }, swept)
          else (idle, ready))
      else (armed, ready)

  -- The loop of `runSelfHeal`, with no other call between its rounds.
  unfoldable pub self_heal_rounds : List Tick → Timer × Service → Timer × Service
  self_heal_rounds [] state = state
  self_heal_rounds (tick ∷ ticks) state = self_heal_rounds ticks (self_heal_tick tick state)
