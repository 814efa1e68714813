-- ===== src/Controller/Awake.antt =====
-- The timer of .local/lib/monitor-controller/monitor_controller/runtime/scheduler.py wakes the
-- reducer.
use desktop_config.Prelude.{[], arith, max, nat_eq, ok, refl, some, ℕ, ◌∷◌, ◌≡◌, ◌≢◌, ◌⊎◌}
use desktop_config.Controller.Scheduler.{IsArmed, Scheduler, arm, arm-task, fire}
use desktop_config.Guards.Timers.{at_timer, timer_fired-observes}
use desktop_config.Invariants.Checks.{assert_controller_invariants}
use desktop_config.Model.Effect.{Effect}
use desktop_config.Model.Enums.{ControllerPhase, WakeReason}
use desktop_config.Model.Event.{Event, TimerFired}
use desktop_config.Model.State.{State}
use desktop_config.Reducer.Outcome.{request_observation}
use desktop_config.Reducer.Reduce.{reduce}

-- In a state that passes the invariants and does not wait in recovery for workers, the timer that
-- the controller arms for the state's deadline is never fired in vain: whatever was armed before and
-- however late the clock is, the event that it fires makes `reduce` ask for an observation.
pub arm-fire-wakes :
    (s : State) (c : Scheduler) (t monotonic_ms : ℕ)
    → assert_controller_invariants s ≡ ok tt
    → (s.phase ≢ ControllerPhase.recovering) ⊎ (s.recovery_units ≡ [])
    → IsArmed c
    → s.next_timer_ms ≡ some t
    → (e : TimerFired) × ((fire (arm c s.next_timer_ms s.boot_id) monotonic_ms).1 ≡ some e)
      × (reduce s (Event.timer_fired e)
          ≡ ok (record {
            state = at_timer s (max t monotonic_ms);
            effects =
                request_observation WakeReason.timer
                ∷ Effect.schedule (record { deadline_ms = max t monotonic_ms })
                ∷ [];
          }))
unfolding fire
arm-fire-wakes s c t monotonic_ms h r armed next =
    let e : TimerFired = record {
      metadata = record { processed_at_ms = max t monotonic_ms; boot_id = s.boot_id };
      deadline_ms = t;
    } in
    (
      e,
      rw (next, arm-task c t s.boot_id armed) refl,
      timer_fired-observes s h e t (record { boot = refl; recovered = r }) next (omega arith)
          (omega arith),
    )
