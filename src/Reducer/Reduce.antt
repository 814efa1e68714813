-- ===== src/Reducer/Reduce.antt =====
-- `reduce` of .local/lib/monitor-controller/monitor_controller/reducer.py. The union of events is
-- closed here, so `UnknownEventError` has no counterpart.
use desktop_config.Prelude.{
  Bool, Result, [], elem, false, if◌then◌else◌, ltb, maybe, nat_eq, none, not, option_eq, some,
  true, ◌!=◌, ◌&&◌, ◌+◌, ◌==◌, ◌>>◌, ◌||◌, ◌∷◌,
}
use desktop_config.Invariants.Checks.{assert_controller_invariants}
use desktop_config.Model.Action.{ActionRecord, is_planning, record_deadline, record_lifecycle}
use desktop_config.Model.Effect.{Decision, Effect}
use desktop_config.Model.Enums.{
  ActionLifecycle, ControllerPhase, WakeReason, action_lifecycle_eq, controller_phase_eq,
}
use desktop_config.Model.Event.{
  DispatchRejected, Event, ObservationFailed, TimerFired, WorkerStatusUnknown, WorkerTimedOut,
  event_metadata,
}
use desktop_config.Model.Identity.{boot_id_eq}
use desktop_config.Model.Observation.{nonempty}
use desktop_config.Model.State.{State}
use desktop_config.Reducer.Failures.{
  admission_dirtied, cancellation_acknowledged, fail_action, stop_uncertain_mutator,
}
use desktop_config.Reducer.Hints.{boot_changed, controller_started, drm_hint}
use desktop_config.Reducer.Observe.{observe, stop_effects}
use desktop_config.Reducer.Outcome.{decision, no_op, request_observation, schedule}
use desktop_config.Reducer.Plans.{plan_completed, plan_failed, plan_requested}
use desktop_config.Reducer.Timing.{observation_failure_retry_ms}
use desktop_config.Reducer.Tombstones.{action_for_id}
use desktop_config.Reducer.Workers.{dispatched, finished}

-- The branch for `ObservationFailed`.
unfoldable pub observation_failed : State → ObservationFailed → Result Decision
observation_failed s event =
    schedule s (event.metadata.processed_at_ms + observation_failure_retry_ms) (stop_effects s)

-- The branch for `TimerFired`.
unfoldable pub timer_fired : State → TimerFired → Result Decision
timer_fired s event =
    let now_ms = event.metadata.processed_at_ms in
    maybe s.next_timer_ms (no_op s) λ timer_ms.
      if ltb event.deadline_ms timer_ms || ltb now_ms event.deadline_ms
      then no_op s
      else decision (record s { next_timer_ms = some now_ms })
          (request_observation WakeReason.timer
            ∷ Effect.schedule (record { deadline_ms = now_ms })
            ∷ [])

-- The branch for `DispatchRejected`.
unfoldable pub dispatch_rejected : State → DispatchRejected → Result Decision
dispatch_rejected s event = maybe (action_for_id s event.action_id) (no_op s) λ action.
    if record_lifecycle action != ActionLifecycle.admitted
    then no_op s
    else fail_action s event.action_id ActionLifecycle.failed event.metadata.processed_at_ms

abbrev pub acknowledged : ActionRecord → Bool
acknowledged action =
    elem (record_lifecycle action) (ActionLifecycle.dispatched ∷ ActionLifecycle.stopping ∷ [])

-- The branch for `WorkerStatusUnknown`.
unfoldable pub worker_status_unknown : State → WorkerStatusUnknown → Result Decision
worker_status_unknown s event = maybe (action_for_id s event.action_id) (no_op s) λ action.
    if not (acknowledged action)
    then no_op s
    else stop_uncertain_mutator s action ActionLifecycle.unknown event.metadata.processed_at_ms

-- The branch for `WorkerTimedOut`.
unfoldable pub worker_timed_out : State → WorkerTimedOut → Result Decision
worker_timed_out s event = maybe (action_for_id s event.action_id) (no_op s) λ action.
    if is_planning action || not (acknowledged action)
    then no_op s
    else maybe (record_deadline action) (no_op s) (λ deadline_ms.
      if deadline_ms != event.deadline_ms
        || not event.manager_confirmed && ltb event.metadata.processed_at_ms deadline_ms
      then no_op s
      else stop_uncertain_mutator s action ActionLifecycle.timed_out event.metadata.processed_at_ms)

-- The branches of `reduce` for an event of the current boot.
unfoldable pub handle : State → Event → Result Decision
unfolding observation_failed timer_fired dispatch_rejected worker_status_unknown worker_timed_out
handle s (Event.observation_completed e) = observe s e.observation
handle s (Event.observation_failed e) = observation_failed s e
handle s (Event.drm_hint_received e) = drm_hint s e
handle s (Event.timer_fired e) = timer_fired s e
handle s (Event.admission_dirtied e) = admission_dirtied s e
handle s (Event.probe_dispatched e) = dispatched s e.action_id e.unit e.metadata.processed_at_ms
handle s (Event.application_dispatched e) =
    dispatched s e.action_id e.unit e.metadata.processed_at_ms
handle s (Event.preparation_dispatched e) =
    dispatched s e.action_id e.unit e.metadata.processed_at_ms
handle s (Event.finalization_dispatched e) =
    dispatched s e.action_id e.unit e.metadata.processed_at_ms
handle s (Event.probe_finished e) =
    finished s e.action_id e.outcome e.exit_status e.metadata.processed_at_ms none
handle s (Event.application_finished e) =
    finished s e.action_id e.outcome e.exit_status e.metadata.processed_at_ms none
handle s (Event.finalization_finished e) =
    finished s e.action_id e.outcome e.exit_status e.metadata.processed_at_ms none
handle s (Event.preparation_finished e) =
    finished s e.action_id e.outcome e.exit_status e.metadata.processed_at_ms (some e.plan_hash)
handle s (Event.plan_requested e) = plan_requested s e
handle s (Event.plan_completed e) = plan_completed s e
handle s (Event.plan_failed e) = plan_failed s e
handle s (Event.dispatch_rejected e) = dispatch_rejected s e
handle s (Event.worker_status_unknown e) = worker_status_unknown s e
handle s (Event.worker_timed_out e) = worker_timed_out s e
handle s (Event.worker_cancellation_acknowledged e) = cancellation_acknowledged s e
handle s (Event.controller_started e) = controller_started s e
handle s (Event.boot_changed e) = boot_changed s e

abbrev pub is_boot_changed : Event → Bool
is_boot_changed (Event.boot_changed e) = true
is_boot_changed _ = false

-- The guards of `reduce`, past the check of the given state.
unfoldable pub admit_event : State → Event → Result Decision
unfolding handle
admit_event s event =
    if is_boot_changed event
    then handle s event
    else if (event_metadata event).boot_id != s.boot_id
    then no_op s
    else if s.phase == ControllerPhase.recovering && nonempty s.recovery_units
    then no_op s
    else handle s event

-- `reduce`
unfoldable pub reduce : State → Event → Result Decision
unfolding admit_event
reduce s event = do assert_controller_invariants s; admit_event s event
