-- ===== src/Safety/Checked/Handlers.antt =====
-- `IsChecked` for every handler, and for `reduce`.
use desktop_config.Prelude.{List, Option, ok, ℕ, ◌≡◌}
use desktop_config.Model.Action.{ActionRecord, FinalizationAction, PreparationAction}
use desktop_config.Model.Effect.{Decision, Effect}
use desktop_config.Model.Enums.{ActionLifecycle, WorkerOutcome}
use desktop_config.Model.Event.{Event, WorkerCancellationAcknowledged}
use desktop_config.Model.Identity.{ActionId, PlanHash, WorkerUnit}
use desktop_config.Model.Observation.{CanonicalObservation}
use desktop_config.Model.State.{State}
use desktop_config.Reducer.Classify.{classify_observation}
use desktop_config.Reducer.Failures.{
  admission_dirtied, cancellation_acknowledged, end_stopping, fail_action, resume_completed,
  stop_uncertain_mutator,
}
use desktop_config.Reducer.Hints.{boot_changed, controller_started, drm_hint, resume_controller}
use desktop_config.Reducer.Observe.{
  await_display_worker, complete_finalization, conclude_invalid, conclude_observe, observe,
  observe_finalizing, observe_invalid, observe_preparation_result, observe_preparing,
  observe_running, observe_topology, observe_valid, stop_finalization, stop_preparation,
  stop_stale_work,
}
use desktop_config.Reducer.Plans.{plan_completed, plan_failed, plan_requested}
use desktop_config.Reducer.Reduce.{admit_event, handle, reduce}
use desktop_config.Reducer.Workers.{dispatched, finished}
use desktop_config.Safety.Checked.Checks.{IsChecked, assert-Returns, no_op-IsChecked}
use desktop_config.Safety.Checked.Observations.{classify_observation-IsChecked}
use desktop_config.Safety.Checked.States.{
  cancel_application-Returns, cancel_finalization-Returns, cancel_preparation-Returns,
  cancel_probe-Returns, checked_rules, fail_result-Returns, withdraw-Returns,
}
use desktop_config.Safety.Returns.{Early, Returns, Returns-weaken}

conclude_invalid-IsChecked :
    (s : State) (o : CanonicalObservation) (effects : List Effect)
    → Returns IsChecked (conclude_invalid s o effects)
unfolding conclude_invalid
conclude_invalid-IsChecked s o effects = search checked_rules depth 8

observe_invalid-IsChecked :
    (s : State) (o : CanonicalObservation) → Returns IsChecked (observe_invalid s o)
unfolding observe_invalid
observe_invalid-IsChecked s o =
    search
      (
        checked_rules, conclude_invalid-IsChecked, cancel_probe-Returns, cancel_application-Returns,
        cancel_preparation-Returns, cancel_finalization-Returns,
      )
      depth 8

stop_stale_work-IsChecked : (s : State) (t : ℕ) → Early IsChecked (stop_stale_work s t)
unfolding stop_stale_work stop_finalization stop_preparation
stop_stale_work-IsChecked s t = search (checked_rules, fail_result-Returns) depth 9

conclude_observe-IsChecked :
    (s : State) (o : CanonicalObservation) (effects : List Effect)
    → Returns IsChecked (conclude_observe s o effects)
unfolding conclude_observe
conclude_observe-IsChecked s o effects = search (
  checked_rules,
  classify_observation-IsChecked,
  Returns-weaken (classify_observation s o) (classify_observation-IsChecked s o),
)

observe_finalizing-IsChecked :
    (s : State) (o : CanonicalObservation) (effects : List Effect) (a : FinalizationAction)
    → Returns IsChecked (observe_finalizing s o effects a)
unfolding observe_finalizing complete_finalization stop_finalization
observe_finalizing-IsChecked s o effects a = search (checked_rules, fail_result-Returns) depth 8

observe_preparing-IsChecked :
    (s : State) (o : CanonicalObservation) (effects : List Effect) (a : PreparationAction)
    → Returns IsChecked (observe_preparing s o effects a)
unfolding observe_preparing observe_preparation_result stop_preparation
observe_preparing-IsChecked s o effects a =
    search (checked_rules, conclude_observe-IsChecked) depth 9

observe_running-IsChecked :
    (s : State) (o : CanonicalObservation) (effects : List Effect)
    → Returns IsChecked (observe_running s o effects)
unfolding observe_running await_display_worker
observe_running-IsChecked s o effects =
    search
      (
        checked_rules, observe_finalizing-IsChecked, observe_preparing-IsChecked,
        conclude_observe-IsChecked,
      )
      depth 9

observe_topology-IsChecked :
    (s : State) (p : Option CanonicalObservation) (o : CanonicalObservation)
    → Returns IsChecked (observe_topology s p o)
unfolding observe_topology
observe_topology-IsChecked s p o =
    search (checked_rules, stop_stale_work-IsChecked, observe_running-IsChecked)

observe-IsChecked : (s : State) (o : CanonicalObservation) → Returns IsChecked (observe s o)
unfolding observe observe_valid
observe-IsChecked s o =
    search (checked_rules, observe_invalid-IsChecked, observe_topology-IsChecked) depth 9

dispatched-IsChecked :
    (s : State) (a : ActionId) (u : WorkerUnit) (t : ℕ) → Returns IsChecked (dispatched s a u t)
unfolding dispatched
dispatched-IsChecked s a u t = search checked_rules depth 8

finished-IsChecked :
    (s : State) (a : ActionId) (w : WorkerOutcome) (x : Option ℕ) (t : ℕ) (h : Option PlanHash)
    → Returns IsChecked (finished s a w x t h)
unfolding finished
finished-IsChecked s a w x t h = search checked_rules depth 10

fail_action-IsChecked :
    (s : State) (a : ActionId) (l : ActionLifecycle) (t : ℕ)
    → Returns IsChecked (fail_action s a l t)
unfolding fail_action
fail_action-IsChecked s a l t = search checked_rules

stop_uncertain-IsChecked :
    (s : State) (a : ActionRecord) (l : ActionLifecycle) (t : ℕ)
    → Returns IsChecked (stop_uncertain_mutator s a l t)
unfolding stop_uncertain_mutator
stop_uncertain-IsChecked s a l t = search (checked_rules, fail_action-IsChecked)

resume_completed-IsChecked :
    (s : State) (a : ActionRecord) (x : Option ℕ) (t : ℕ)
    → Returns IsChecked (resume_completed s a x t)
unfolding resume_completed
resume_completed-IsChecked s (ActionRecord.planning a) x t = no_op-IsChecked s
resume_completed-IsChecked s _ x t = finished-IsChecked _ _ _ _ _ _

end_stopping-IsChecked :
    (s : State) (a : ActionRecord) (e : WorkerCancellationAcknowledged)
    → Returns IsChecked (end_stopping s a e)
unfolding end_stopping
end_stopping-IsChecked s a e = search (checked_rules, resume_completed-IsChecked) depth 8

resume_controller-IsChecked : (s : State) (t : ℕ) → Returns IsChecked (resume_controller s t)
unfolding resume_controller
resume_controller-IsChecked s t = search checked_rules

handle-IsChecked : (s : State) (e : Event) → Returns IsChecked (handle s e)
unfolding handle plan_requested plan_completed plan_failed admission_dirtied
    cancellation_acknowledged drm_hint controller_started boot_changed
handle-IsChecked s (Event.observation_completed e) = observe-IsChecked s e.observation
handle-IsChecked s (Event.controller_started e) =
    search (checked_rules, resume_controller-IsChecked) depth 8
handle-IsChecked s (Event.drm_hint_received e) = search checked_rules depth 8
handle-IsChecked s (Event.timer_fired e) = search checked_rules depth 8
handle-IsChecked s (Event.admission_dirtied e) = search (checked_rules, withdraw-Returns) depth 8
handle-IsChecked s (Event.dispatch_rejected e) =
    search (checked_rules, fail_action-IsChecked) depth 8
handle-IsChecked s (Event.worker_status_unknown e) =
    search (checked_rules, stop_uncertain-IsChecked) depth 8
handle-IsChecked s (Event.worker_timed_out e) =
    search (checked_rules, stop_uncertain-IsChecked) depth 8
handle-IsChecked s (Event.worker_cancellation_acknowledged e) =
    search (checked_rules, end_stopping-IsChecked) depth 8
handle-IsChecked s (Event.probe_finished e) = finished-IsChecked _ _ _ _ _ _
handle-IsChecked s (Event.application_finished e) = finished-IsChecked _ _ _ _ _ _
handle-IsChecked s (Event.preparation_finished e) = finished-IsChecked _ _ _ _ _ _
handle-IsChecked s (Event.finalization_finished e) = finished-IsChecked _ _ _ _ _ _
handle-IsChecked s (Event.probe_dispatched e) = dispatched-IsChecked _ _ _ _
handle-IsChecked s (Event.application_dispatched e) = dispatched-IsChecked _ _ _ _
handle-IsChecked s (Event.preparation_dispatched e) = dispatched-IsChecked _ _ _ _
handle-IsChecked s (Event.finalization_dispatched e) = dispatched-IsChecked _ _ _ _
handle-IsChecked s _ = search checked_rules depth 8

-- Every decision of `reduce` is checked.
pub reduce_lem : (s : State) (e : Event) → Returns IsChecked (reduce s e)
unfolding reduce admit_event
reduce_lem s e = search (checked_rules, handle-IsChecked, assert-Returns) depth 8

pub reduce-IsChecked : (s : State) (e : Event) (d : Decision) → reduce s e ≡ ok d → IsChecked d
reduce-IsChecked s e d h = (reduce_lem s e).at d h
