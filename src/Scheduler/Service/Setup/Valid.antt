-- ===== src/Scheduler/Service/Setup/Valid.antt =====
-- What a service that is made satisfies (internal/scheduler/scheduler.go, `NewService` and
-- `NormalizeSpecs`).
use mathlib.Core.Path.{subst}
use mathlib.Core.Sum.{inr-injective}
use gmeow.Base.{ℕ, ◌<◌, ◌*◌, Bool, true, false, List, ◌≡◌, refl, arith, ◌⊎◌, inl, inr, leb}
use gmeow.Scheduler.Types.{AnalyzerSpec, Config}
use gmeow.Scheduler.Service.{Service}
use gmeow.Scheduler.Annotated.{new_lru_cache}
use gmeow.Scheduler.Service.Setup.{
  with_specs, check_marks, or_default, second, SetupError, normalize_specs, new_service,
  make_service, fill_config,
}

abbrev pub IsReady : Service → Type 0
IsReady service =
    (service.config.backpressure_low_water < service.config.backpressure_high_water)
    × (0 < service.config.self_heal_chunk_size)
    × (0 < service.config.self_heal_idle_threshold)
    × (0 < service.fully_annotated.capacity)

or_default-positive : (value d : ℕ) → 0 < d → 0 < or_default value d
or_default-positive value d h = ground arith

check_marks-IsReady :
    (marks : Bool) (specs : List AnalyzerSpec) (config : Config) (has_projector : Bool)
    (service : Service)
    → leb (fill_config config).backpressure_high_water (fill_config config).backpressure_low_water
      ≡ marks
    → check_marks marks specs config has_projector ≡ inr service
    → IsReady service
unfolding check_marks make_service fill_config new_lru_cache
check_marks-IsReady true specs config has_projector service m h = ground arith
check_marks-IsReady false specs config has_projector service m h =
    subst IsReady (inr-injective (make_service specs config has_projector) service h) (
      ground (arith, m),
      or_default-positive config.self_heal_chunk_size 500 (omega arith),
      or_default-positive config.self_heal_idle_threshold (300 * second) (omega arith),
      or_default-positive config.fully_annotated_cache_size 100000 (omega arith),
    )

with_specs-IsReady :
    (normalized : SetupError ⊎ List AnalyzerSpec) (config : Config) (has_projector : Bool)
    (service : Service)
    → with_specs normalized config has_projector ≡ inr service
    → IsReady service
unfolding with_specs
with_specs-IsReady (inl e) config has_projector service h = ground arith
with_specs-IsReady (inr specs) config has_projector service h =
    check_marks-IsReady
      (leb (fill_config config).backpressure_high_water (fill_config config).backpressure_low_water)
      specs config has_projector service refl h

-- A service that is made has its low mark below its high mark, and a chunk size, an idle
-- threshold and a cache capacity above 0.
pub new_service-IsReady :
    (has_store has_broker : Bool) (specs : List AnalyzerSpec) (config : Config)
    (has_projector : Bool) (service : Service)
    → new_service has_store has_broker specs config has_projector ≡ inr service
    → IsReady service
unfolding new_service
new_service-IsReady false has_broker specs config has_projector service h = ground arith
new_service-IsReady true false specs config has_projector service h = ground arith
new_service-IsReady true true specs config has_projector service h =
    with_specs-IsReady (normalize_specs specs) config has_projector service h
