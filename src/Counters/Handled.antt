-- ===== src/Counters/Handled.antt =====
-- The counters through the other handlers, and through `reduce`.
use desktop_config.Prelude.{>>-right, Option, false, none, ok, refl, some, subst, true, ◌≡◌}
use desktop_config.Counters.Ahead.{
  Ahead, Counters, Kept, counters, following, forget_keys, same_counters,
}
use desktop_config.Counters.Ended.{
  dispatched-Ahead, end_stopping-Ahead, fail_action-Ahead, failed≢admitted, finished-Ahead,
  stop_uncertain-Ahead, timed_out≢admitted, unknown≢admitted,
}
use desktop_config.Counters.Gives.{Gives, Gives-bind, Gives-if, Gives-ok}
use desktop_config.Counters.Observed.{observe-Ahead}
use desktop_config.Counters.Steps.{
  Ahead-if, AheadAfter, AheadWith, append-Ahead, decision-Ahead, discard-Ahead, gives_rules,
  no_op-Ahead, schedule-Ahead,
}
use desktop_config.Invariants.Checks.{assert_controller_invariants}
use desktop_config.Model.Action.{ActionRecord}
use desktop_config.Model.Effect.{Decision}
use desktop_config.Model.Enums.{action_lifecycle_eq}
use desktop_config.Model.Event.{ControllerStarted, DrmHintReceived, Event}
use desktop_config.Model.Identity.{ProbeAttemptKey}
use desktop_config.Model.State.{State}
use desktop_config.Reducer.Failures.{
  admission_dirtied, cancellation_acknowledged, withdraw_admission,
}
use desktop_config.Reducer.Hints.{
  boot_changed, controller_started, drm_hint, drop_pending_finalization, drop_pending_preparation,
  forget_boot, rediscover, restart_preparation, resume_controller,
}
use desktop_config.Reducer.Plans.{plan_completed, plan_failed, plan_requested}
use desktop_config.Reducer.Reduce.{
  admit_event, dispatch_rejected, handle, is_boot_changed, observation_failed, reduce, timer_fired,
  worker_status_unknown, worker_timed_out,
}

module _ (c : Counters) where
  withdraw-Ahead :
      (s : State) (a : ActionRecord) → Ahead c s → Gives (AheadWith c) (withdraw_admission s a)
  unfolding withdraw_admission
  withdraw-Ahead s (ActionRecord.preparation a) h =
      search (gives_rules, Gives-bind (Ahead c), append-Ahead, discard-Ahead)
  withdraw-Ahead s (ActionRecord.finalization a) h =
      search (gives_rules, Gives-bind (Ahead c), append-Ahead)
  withdraw-Ahead s (ActionRecord.probe a) h = Gives-ok {P = AheadWith c} _ h
  withdraw-Ahead s (ActionRecord.application a) h = Gives-ok {P = AheadWith c} _ h
  withdraw-Ahead s (ActionRecord.planning a) h = Gives-ok {P = AheadWith c} _ h

  dropped_preparation-Ahead :
      (s : State) → Ahead c s → Gives (AheadWith c) (drop_pending_preparation s)
  unfolding drop_pending_preparation
  dropped_preparation-Ahead s h =
      search (gives_rules, Gives-bind (Ahead c), append-Ahead, discard-Ahead) depth 8

  dropped_finalization-Ahead :
      (s : State) → Ahead c s → Gives (Ahead c) (drop_pending_finalization s)
  unfolding drop_pending_finalization
  dropped_finalization-Ahead s h = search (gives_rules, Gives-bind (Ahead c), append-Ahead) depth 8

  hint-Ahead : (s : State) (e : DrmHintReceived) → Ahead c s → Gives (AheadAfter c) (drm_hint s e)
  unfolding drm_hint rediscover
  hint-Ahead s e h =
      search
        (
          gives_rules,
          Gives-bind (Ahead c),
          Gives-bind (AheadWith c),
          dropped_preparation-Ahead,
          dropped_finalization-Ahead,
          no_op-Ahead,
          schedule-Ahead,
          Ahead-if,
        )
        depth 8

  started-Ahead :
      (s : State) (e : ControllerStarted)
      → Ahead c s
      → Gives (AheadAfter c) (controller_started s e)
  unfolding controller_started restart_preparation resume_controller
  started-Ahead s e h =
      search
        (
          gives_rules,
          Gives-bind (Ahead c),
          Gives-bind (AheadWith c),
          append-Ahead,
          discard-Ahead,
          schedule-Ahead,
          Ahead-if,
        )
        depth 9

  -- A change of the boot is handled where no key is followed.
  handle-Ahead :
      (s : State) (e : Event)
      → (is_boot_changed e ≡ true → c.spent ≡ none)
      → Ahead c s
      → Gives (AheadAfter c) (handle s e)
  unfolding handle plan_requested plan_completed plan_failed admission_dirtied
      cancellation_acknowledged boot_changed forget_boot observation_failed timer_fired
      dispatch_rejected worker_status_unknown worker_timed_out
  handle-Ahead s (Event.observation_completed e) free h = observe-Ahead c s e.observation h
  handle-Ahead s (Event.observation_failed e) free h = schedule-Ahead c _ _ _ h
  handle-Ahead s (Event.drm_hint_received e) free h = hint-Ahead s e h
  handle-Ahead s (Event.timer_fired e) free h = search (gives_rules, no_op-Ahead, decision-Ahead)
  handle-Ahead s (Event.admission_dirtied e) free h =
      search (gives_rules, Gives-bind (AheadWith c), withdraw-Ahead, no_op-Ahead, schedule-Ahead)
        depth 8
  handle-Ahead s (Event.probe_dispatched e) free h = dispatched-Ahead c _ _ _ _ h
  handle-Ahead s (Event.application_dispatched e) free h = dispatched-Ahead c _ _ _ _ h
  handle-Ahead s (Event.preparation_dispatched e) free h = dispatched-Ahead c _ _ _ _ h
  handle-Ahead s (Event.finalization_dispatched e) free h = dispatched-Ahead c _ _ _ _ h
  handle-Ahead s (Event.probe_finished e) free h = finished-Ahead c _ _ _ _ _ _ h
  handle-Ahead s (Event.application_finished e) free h = finished-Ahead c _ _ _ _ _ _ h
  handle-Ahead s (Event.finalization_finished e) free h = finished-Ahead c _ _ _ _ _ _ h
  handle-Ahead s (Event.preparation_finished e) free h = finished-Ahead c _ _ _ _ _ _ h
  handle-Ahead s (Event.plan_requested e) free h = search (gives_rules, no_op-Ahead, decision-Ahead)
  handle-Ahead s (Event.plan_completed e) free h =
      search (gives_rules, Gives-bind (Ahead c), append-Ahead, no_op-Ahead, schedule-Ahead) depth 8
  handle-Ahead s (Event.plan_failed e) free h =
      search
        (
          gives_rules,
          Gives-bind (Ahead c),
          Gives-bind (AheadWith c),
          append-Ahead,
          discard-Ahead,
          no_op-Ahead,
          schedule-Ahead,
        )
        depth 8
  handle-Ahead s (Event.dispatch_rejected e) free h =
      search (gives_rules, no_op-Ahead, fail_action-Ahead, failed≢admitted) depth 8
  handle-Ahead s (Event.worker_status_unknown e) free h =
      search (gives_rules, no_op-Ahead, stop_uncertain-Ahead, unknown≢admitted, timed_out≢admitted)
        depth 8
  handle-Ahead s (Event.worker_timed_out e) free h =
      search (gives_rules, no_op-Ahead, stop_uncertain-Ahead, unknown≢admitted, timed_out≢admitted)
        depth 8
  handle-Ahead s (Event.worker_cancellation_acknowledged e) free h =
      search (gives_rules, no_op-Ahead, end_stopping-Ahead) depth 8
  handle-Ahead s (Event.controller_started e) free h = started-Ahead s e h
  handle-Ahead s (Event.boot_changed e) free h =
      let forgotten = forget_keys h (free refl) in
      search (gives_rules, no_op-Ahead, decision-Ahead, forgotten)

  admit-Ahead :
      (s : State) (e : Event)
      → (is_boot_changed e ≡ true → c.spent ≡ none)
      → Ahead c s
      → Gives (AheadAfter c) (admit_event s e)
  unfolding admit_event
  admit-Ahead s e free h =
      let handled = handle-Ahead s e free h in
      let refused = no_op-Ahead c s h in
      Gives-if _ _ _ handled (Gives-if _ _ _ refused (Gives-if _ _ _ refused handled))

reduce-following :
    (spent : Option ProbeAttemptKey) (s : State) (e : Event) (d : Decision)
    → (is_boot_changed e ≡ true → spent ≡ none)
    → ((k : ProbeAttemptKey)
        → spent ≡ some k
        → Kept k s.physical_epoch s.attempted_probe_keys s.probe)
    → reduce s e ≡ ok d
    → Ahead (following spent s) d.state
unfolding reduce
reduce-following spent s e d free kept h =
    (admit-Ahead (following spent s) s e free (same_counters spent s kept)).at d
      (>>-right (assert_controller_invariants s) (admit_event s e) h)

-- The counters never go back: whatever the event, a decision of `reduce` has a state whose action and
-- transition sequences, physical epoch and reconcile epoch are at least those of the given state.
pub reduce-Ahead :
    (s : State) (e : Event) (d : Decision) → reduce s e ≡ ok d → Ahead (counters s) d.state
reduce-Ahead s e d h = reduce-following none s e d (λ b. refl) (λ k q. absurd (cc)) h

-- A probe key that was attempted stays so, until the physical epoch is a later one, or the boot
-- changes.
pub reduce-Kept :
    (k : ProbeAttemptKey) (s : State) (e : Event) (d : Decision)
    → is_boot_changed e ≡ false
    → Kept k s.physical_epoch s.attempted_probe_keys s.probe
    → reduce s e ≡ ok d
    → Kept k d.state.physical_epoch d.state.attempted_probe_keys d.state.probe
reduce-Kept k s e d same kept h =
    (reduce-following (some k) s e d (λ b. absurd (cc))
        (λ k' q.
          let p : k ≡ k' = cc in
          subst (λ x. Kept x s.physical_epoch s.attempted_probe_keys s.probe) p kept)
        h).spent
      k refl
