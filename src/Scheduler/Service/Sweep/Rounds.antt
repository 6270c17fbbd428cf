-- ===== src/Scheduler/Service/Sweep/Rounds.antt =====
-- One round of the self-heal loop in each of its branches (internal/scheduler/scheduler.go,
-- `runSelfHeal`).
use gmeow.Base.{
  ℕ, ◌+◌, ◌-◌, ◌<◌, ◌≤◌, ◌&&◌, Bool, true, false, Option, none, some, List, [], ◌∷◌, ltb, leb, sym,
  ap, refl, ◌≡◌, arith,
}
use gmeow.Scheduler.Service.{Env, Service}
use gmeow.Scheduler.Service.Sweep.{
  Tick, Timer, self_heal_tick, self_heal_chunk, update_pressure, arm, start_idle,
  consume_write_seen,
}

-- The check of the queue failed, or its depth is above the low mark.
abbrev pub holds_pressure : ℕ → Option (ℕ × ℕ) → Bool
holds_pressure low none = true
holds_pressure low (some (pending, retry)) = ltb low (pending + retry)

-- The depth of the queue is at the low mark or below it.
abbrev pub lifts_pressure : ℕ → Option (ℕ × ℕ) → Bool
lifts_pressure low none = false
lifts_pressure low (some (pending, retry)) = leb (pending + retry) low

-- The check of the queue failed, or its depth is below the high mark.
abbrev pub is_calm : ℕ → Option (ℕ × ℕ) → Bool
is_calm high none = true
is_calm high (some (pending, retry)) = ltb (pending + retry) high

abbrev pub all_hold : ℕ → List Tick → Bool
all_hold low [] = true
all_hold low (tick ∷ ticks) = holds_pressure low tick.status && all_hold low ticks

-- The rounds are calm, and read the clock before the threshold after an instant.
abbrev pub all_early : ℕ → ℕ → ℕ → List Tick → Bool
all_early high threshold since [] = true
all_early high threshold since (tick ∷ ticks) =
    is_calm high tick.status
    && ltb (tick.check_now - since) threshold
    && all_early high threshold since ticks

update_pressure-holds :
    (status : Option (ℕ × ℕ)) (service : Service)
    → service.pressured ≡ true
    → holds_pressure service.config.backpressure_low_water status ≡ true
    → update_pressure status service ≡ service
unfolding update_pressure
update_pressure-holds none service p h = refl
update_pressure-holds (some (pending, retry)) service p h = ground arith

update_pressure-lifts :
    (status : Option (ℕ × ℕ)) (service : Service)
    → service.pressured ≡ true
    → lifts_pressure service.config.backpressure_low_water status ≡ true
    → update_pressure status service ≡ record service { pressured = false }
unfolding update_pressure
update_pressure-lifts none service p h = cc
update_pressure-lifts (some (pending, retry)) service p h = ground arith

update_pressure-calm :
    (status : Option (ℕ × ℕ)) (service : Service)
    → service.pressured ≡ false
    → is_calm service.config.backpressure_high_water status ≡ true
    → update_pressure status service ≡ service
unfolding update_pressure
update_pressure-calm none service p h = refl
update_pressure-calm (some (pending, retry)) service p h = ground arith

no_write :
    (service : Service)
    → service.write_seen ≡ false
    → record service { write_seen = false } ≡ service
no_write service h = ap (λ b. record service { write_seen = b }) (sym h)

arm_quiet :
    (timer : Timer) (service : Service)
    → service.write_seen ≡ false
    → arm timer service ≡ (timer, service)
unfolding arm consume_write_seen
arm_quiet timer service h = ground (arith, no_write service h)

arm_write :
    (timer : Timer) (service : Service)
    → service.write_seen ≡ true
    → arm timer service
      ≡ (record { idle_since = 0; sweep_armed = true }, record service { write_seen = false })
unfolding arm consume_write_seen
arm_write timer service h = ground arith

module _ (env : Env) where
  pub tick_wrote :
      (tick : Tick) (timer : Timer) (service : Service)
      → service.write_seen ≡ true
      → service.pressured ≡ true
      → holds_pressure service.config.backpressure_low_water tick.status ≡ true
      → self_heal_tick env tick (timer, service)
        ≡ (record { idle_since = 0; sweep_armed = true }, record service { write_seen = false })
  unfolding self_heal_tick
  tick_wrote tick timer service w p h =
      rw (update_pressure-holds tick.status service p h, arm_write timer service w) (ground arith)

  pub tick_pressed :
      (tick : Tick) (timer : Timer) (service : Service)
      → service.write_seen ≡ false
      → service.pressured ≡ true
      → holds_pressure service.config.backpressure_low_water tick.status ≡ true
      → self_heal_tick env tick (timer, service) ≡ (timer, service)
  unfolding self_heal_tick
  tick_pressed tick timer service w p h =
      rw (update_pressure-holds tick.status service p h, arm_quiet timer service w) (ground arith)

  pub tick_lifted :
      (tick : Tick) (service : Service)
      → service.write_seen ≡ false
      → service.pressured ≡ true
      → lifts_pressure service.config.backpressure_low_water tick.status ≡ true
      → tick.check_now - tick.idle_now < service.config.self_heal_idle_threshold
      → self_heal_tick env tick (record { idle_since = 0; sweep_armed = true }, service) ≡ (
        record { idle_since = tick.idle_now; sweep_armed = true },
        record service { pressured = false },
      )
  unfolding self_heal_tick start_idle
  tick_lifted tick service w p h early =
      let lifted = record service { pressured = false } in
      rw (update_pressure-lifts tick.status service p h, arm_quiet _ lifted w) (ground arith)

  pub tick_early :
      (tick : Tick) (since : ℕ) (service : Service)
      → service.write_seen ≡ false
      → service.pressured ≡ false
      → 0 < since
      → is_calm service.config.backpressure_high_water tick.status ≡ true
      → tick.check_now - since < service.config.self_heal_idle_threshold
      → self_heal_tick env tick (record { idle_since = since; sweep_armed = true }, service)
        ≡ (record { idle_since = since; sweep_armed = true }, service)
  unfolding self_heal_tick start_idle
  tick_early tick since service w p pos h early =
      rw (update_pressure-calm tick.status service p h, arm_quiet _ service w) (ground arith)

  pub tick_late :
      (tick : Tick) (since : ℕ) (service : Service)
      → service.write_seen ≡ false
      → service.pressured ≡ false
      → 0 < since
      → is_calm service.config.backpressure_high_water tick.status ≡ true
      → service.config.self_heal_idle_threshold ≤ tick.check_now - since
      → self_heal_tick env tick (record { idle_since = since; sweep_armed = true }, service)
        ≡ (record { idle_since = 0; sweep_armed = false }, self_heal_chunk env service)
  unfolding self_heal_tick start_idle
  tick_late tick since service w p pos h late =
      rw (update_pressure-calm tick.status service p h, arm_quiet _ service w) (ground arith)
