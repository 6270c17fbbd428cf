-- ===== src/Scheduler/Service/Sweep/Pressure.antt =====
-- The hysteresis of the backpressure (internal/scheduler/scheduler.go, `updatePressure`).
use mathlib.Core.Path.{subst}
use gmeow.Base.{
  ℕ, ◌+◌, ◌<◌, Bool, true, false, Option, none, some, List, [], ◌∷◌, leb, if◌then◌else◌, ◌≡◌, refl,
  sym, ap, ◌∙◌, arith,
}
use gmeow.Scheduler.Types.{Config}
use gmeow.Scheduler.Service.{Service}
use gmeow.Scheduler.Service.Sweep.{update_pressure}

-- The checks of the queue in their order.
abbrev pub update_all : List (Option (ℕ × ℕ)) → Service → Service
update_all [] service = service
update_all (status ∷ statuses) service = update_all statuses (update_pressure status service)

-- What the last check outside the two marks says: at the high mark or above it, pressure; at the low
-- mark or below it, none.
abbrev pub pressure_after : ℕ → ℕ → List (Option (ℕ × ℕ)) → Bool → Bool
pressure_after low high [] before = before
pressure_after low high (none ∷ statuses) before = pressure_after low high statuses before
pressure_after low high (some (pending, retry) ∷ statuses) before =
    pressure_after low high statuses (
      if leb high (pending + retry)
      then true
      else (if leb (pending + retry) low then false else before))

update_pressure-none : (service : Service) → update_pressure none service ≡ service
unfolding update_pressure
update_pressure-none service = refl

pub update_pressure-config :
    (status : Option (ℕ × ℕ)) (service : Service)
    → (update_pressure status service).config ≡ service.config
unfolding update_pressure
update_pressure-config none service = refl
update_pressure-config (some (pending, retry)) service = ground arith

update_pressure-pressured :
    (pending retry : ℕ) (service : Service)
    → service.config.backpressure_low_water < service.config.backpressure_high_water
    → (update_pressure (some (pending, retry)) service).pressured ≡ (
        if leb service.config.backpressure_high_water (pending + retry)
        then true
        else (if leb (pending + retry) service.config.backpressure_low_water
            then false
            else service.pressured))
unfolding update_pressure
update_pressure-pressured pending retry service h = ground arith

-- With the low mark below the high one, after any checks of the queue the pressure is what the
-- last depth outside the two marks says, and that of before where there was none; failed checks
-- change nothing.
pub update_all-pressured :
    (statuses : List (Option (ℕ × ℕ))) (service : Service)
    → service.config.backpressure_low_water < service.config.backpressure_high_water
    → (update_all statuses service).pressured
      ≡ pressure_after service.config.backpressure_low_water service.config.backpressure_high_water
          statuses service.pressured
update_all-pressured [] service h = refl
update_all-pressured (none ∷ statuses) service h =
    let unchanged = update_pressure-none service in
    subst
      (λ s.
        (update_all statuses s).pressured
        ≡ pressure_after service.config.backpressure_low_water
            service.config.backpressure_high_water statuses service.pressured)
      (sym unchanged) (update_all-pressured statuses service h)
update_all-pressured (some (pending, retry) ∷ statuses) service h =
    let next = update_pressure (some (pending, retry)) service in
    let same = update_pressure-config (some (pending, retry)) service in
    let low : Config → ℕ = λ c. c.backpressure_low_water in
    let high : Config → ℕ = λ c. c.backpressure_high_water in
    let rest = update_all-pressured statuses next (subst (λ c. low c < high c) (sym same) h) in
    rest
    ∙ ap (λ c. pressure_after (low c) (high c) statuses next.pressured) same
    ∙ ap (λ b. pressure_after (low service.config) (high service.config) statuses b)
        (update_pressure-pressured pending retry service h)
