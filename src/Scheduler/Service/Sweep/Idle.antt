-- ===== src/Scheduler/Service/Sweep/Idle.antt =====
-- When the self-heal sweep runs (internal/scheduler/scheduler.go, `runSelfHeal`).
use gmeow.Base.{ℕ, ◌-◌, ◌<◌, ◌≤◌, true, false, List, [], ◌∷◌, ◌++◌, ap, refl, ◌≡◌, ◌∙◌, arith}
use gmeow.Scheduler.Service.{Env, Service}
use gmeow.Scheduler.Service.Sweep.{Tick, Timer, self_heal_tick, self_heal_rounds, self_heal_chunk}
use gmeow.Scheduler.Service.Sweep.Rounds.{
  lifts_pressure, is_calm, all_hold, all_early, tick_wrote, tick_pressed, tick_lifted, tick_early,
  tick_late,
}

module _ (env : Env) where
  -- A round of which the outcome is known, before other rounds.
  first_round :
      (tick : Tick) (ticks : List Tick) (state : Timer × Service) {state' : Timer × Service}
      → self_heal_tick env tick state ≡ state'
      → self_heal_rounds env (tick ∷ ticks) state ≡ self_heal_rounds env ticks state'
  unfolding self_heal_rounds
  first_round tick ticks state h = ap (λ st. self_heal_rounds env ticks st) h

  self_heal_rounds-append :
      (xs ys : List Tick) (state : Timer × Service)
      → self_heal_rounds env (xs ++ ys) state
        ≡ self_heal_rounds env ys (self_heal_rounds env xs state)
  unfolding self_heal_rounds
  self_heal_rounds-append [] ys state = refl
  self_heal_rounds-append (x ∷ xs) ys state =
      self_heal_rounds-append xs ys (self_heal_tick env x state)

  rounds_pressed :
      (ticks : List Tick) (timer : Timer) (service : Service)
      → service.write_seen ≡ false
      → service.pressured ≡ true
      → all_hold service.config.backpressure_low_water ticks ≡ true
      → self_heal_rounds env ticks (timer, service) ≡ (timer, service)
  unfolding self_heal_rounds
  rounds_pressed [] timer service w p h = refl
  rounds_pressed (tick ∷ ticks) timer service w p h =
      rw (tick_pressed env tick timer service w p (ground arith))
        (rounds_pressed ticks timer service w p (ground arith))

  rounds_early :
      (ticks : List Tick) (since : ℕ) (service : Service)
      → service.write_seen ≡ false
      → service.pressured ≡ false
      → 0 < since
      → all_early service.config.backpressure_high_water service.config.self_heal_idle_threshold
          since ticks
        ≡ true
      → self_heal_rounds env ticks (record { idle_since = since; sweep_armed = true }, service)
        ≡ (record { idle_since = since; sweep_armed = true }, service)
  unfolding self_heal_rounds
  rounds_early [] since service w p pos h = refl
  rounds_early (tick ∷ ticks) since service w p pos h =
      rw (tick_early env tick since service w p pos (ground arith) (ground arith))
        (rounds_early ticks since service w p pos (ground arith))

  rounds_waiting :
      (timer : Timer) (service : Service) (wrote first : Tick) (pressed early : List Tick)
      → service.write_seen ≡ true
      → service.pressured ≡ true
      → all_hold service.config.backpressure_low_water (wrote ∷ pressed) ≡ true
      → lifts_pressure service.config.backpressure_low_water first.status ≡ true
      → 0 < first.idle_now
      → first.check_now - first.idle_now < service.config.self_heal_idle_threshold
      → all_early service.config.backpressure_high_water service.config.self_heal_idle_threshold
          first.idle_now early
        ≡ true
      → self_heal_rounds env (wrote ∷ (pressed ++ (first ∷ early))) (timer, service) ≡ (
        record { idle_since = first.idle_now; sweep_armed = true },
        record service { write_seen = false; pressured = false },
      )
  rounds_waiting timer service wrote first pressed early w p held lifted pos soon quiet =
      let ready = record service { write_seen = false } in
      let idle = record service { write_seen = false; pressured = false } in
      let armed : Timer = record { idle_since = 0; sweep_armed = true } in
      first_round wrote (pressed ++ (first ∷ early)) (timer, service)
        (tick_wrote env wrote timer service w p (ground arith))
      ∙ self_heal_rounds-append pressed (first ∷ early) (armed, ready)
      ∙ ap (λ st. self_heal_rounds env (first ∷ early) st)
          (rounds_pressed pressed armed ready refl p (ground arith))
      ∙ first_round first early (armed, ready) (tick_lifted env first ready refl p lifted soon)
      ∙ rounds_early early first.idle_now idle refl refl pos quiet

  -- After a write, and under pressure, the loop sweeps in the round that reads the clock the idle
  -- threshold or more after the pressure was lifted, and in none before. Its rounds are one or
  -- more that find the queue above the low mark or do not find its depth, one that finds it at
  -- the low mark or below, any number that find it below the high mark or do not find its depth,
  -- and a last of this kind. The instant is the first reading of the clock in the round that
  -- lifts the pressure, which is not the zero time; that round and those up to the last read the
  -- clock less than the threshold after it, and the last reads it the threshold or more after it.
  -- The rounds before the last leave the loop armed since the instant, and the service with no
  -- pressure and no write noted, else unchanged; with the last, the loop is disarmed, and the
  -- service is what one chunk makes of that.
  pub self_heal_rounds-self_heal_chunk :
      (timer : Timer) (service : Service) (wrote first late : Tick) (pressed early : List Tick)
      → service.write_seen ≡ true
      → service.pressured ≡ true
      → all_hold service.config.backpressure_low_water (wrote ∷ pressed) ≡ true
      → lifts_pressure service.config.backpressure_low_water first.status ≡ true
      → 0 < first.idle_now
      → first.check_now - first.idle_now < service.config.self_heal_idle_threshold
      → all_early service.config.backpressure_high_water service.config.self_heal_idle_threshold
          first.idle_now early
        ≡ true
      → is_calm service.config.backpressure_high_water late.status ≡ true
      → service.config.self_heal_idle_threshold ≤ late.check_now - first.idle_now
      → (self_heal_rounds env (wrote ∷ (pressed ++ (first ∷ early))) (timer, service) ≡ (
        record { idle_since = first.idle_now; sweep_armed = true },
        record service { write_seen = false; pressured = false },
      ))
        × (self_heal_rounds env
              ((wrote ∷ (pressed ++ (first ∷ early))) ++ (late ∷ []))
              (timer, service)
            ≡ (
              record { idle_since = 0; sweep_armed = false },
              self_heal_chunk env (record service { write_seen = false; pressured = false }),
            ))
  unfolding self_heal_rounds
  self_heal_rounds-self_heal_chunk timer service wrote first late pressed early w p held lifted pos
        soon quiet calm due =
      let idle = record service { write_seen = false; pressured = false } in
      let waiting =
        rounds_waiting timer service wrote first pressed early w p held lifted pos soon quiet in
      (
        waiting,
        self_heal_rounds-append (wrote ∷ (pressed ++ (first ∷ early))) (late ∷ []) (timer, service)
            ∙ ap (λ st. self_heal_rounds env (late ∷ []) st) waiting
            ∙ tick_late env late first.idle_now idle refl refl pos calm due,
      )
