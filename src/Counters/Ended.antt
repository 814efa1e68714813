-- ===== src/Counters/Ended.antt =====
-- The counters through the end of an action: its dispatch, its result, its failure and its stop.
use desktop_config.Prelude.{Option, arith, elem, none, refl, some, sym, true, ℕ, ◌∙◌, ◌≡◌, ◌≢◌}
use desktop_config.Counters.Ahead.{Ahead, Counters, Settled, settle, spend_key}
use desktop_config.Counters.Gives.{Gives, Gives-bind, Gives-if, Gives-test}
use desktop_config.Counters.Steps.{
  AheadAfter, any-Gives, append-Ahead, decision-Ahead, dispatched≢admitted, gives_rules,
  no_op-Ahead, schedule-Ahead, settled_rules, stopping≢admitted,
}
use desktop_config.Invariants.Rules.{failed_lifecycles}
use desktop_config.Model.Action.{ActionRecord, ProbeAction, record_lifecycle, with_lifecycle}
use desktop_config.Model.Enums.{ActionLifecycle, WorkerOutcome, action_lifecycle_eq}
use desktop_config.Model.Event.{WorkerCancellationAcknowledged}
use desktop_config.Model.Identity.{ActionId, PlanHash, WorkerUnit}
use desktop_config.Model.State.{State}
use desktop_config.Reducer.Failures.{
  end_stopping, fail_action, place_cancelled, place_failed, place_stopping, place_unfinished,
  resume_completed, stop_uncertain_mutator, with_result,
}
use desktop_config.Reducer.Tombstones.{clear_recovery_unit}
use desktop_config.Reducer.Workers.{
  close_application, close_finalization, close_preparation, close_probe, dispatched,
  dispatched_application, dispatched_finalization, dispatched_preparation, dispatched_probe,
  finished, finished_application, finished_finalization, finished_preparation, finished_probe,
  unsuccessful,
}
use desktop_config.Safety.Returns.{Anything}

pub failed≢admitted : ActionLifecycle.failed ≢ ActionLifecycle.admitted
failed≢admitted e = absurd (cc)

pub unknown≢admitted : ActionLifecycle.unknown ≢ ActionLifecycle.admitted
unknown≢admitted e = absurd (cc)

pub timed_out≢admitted : ActionLifecycle.timed_out ≢ ActionLifecycle.admitted
timed_out≢admitted e = absurd (cc)

module _ (c : Counters) where
  pub dispatched-Ahead :
      (s : State) (i : ActionId) (u : WorkerUnit) (t : ℕ)
      → Ahead c s
      → Gives (AheadAfter c) (dispatched s i u t)
  unfolding dispatched dispatched_probe dispatched_application dispatched_preparation
      dispatched_finalization
  dispatched-Ahead s i u t h =
      search
        (
          gives_rules,
          Gives-bind (λ (deadline : ℕ). Anything deadline),
          any-Gives,
          no_op-Ahead,
          decision-Ahead,
          spend_key,
          Settled.started,
          dispatched≢admitted,
        )
        depth 9

  unsuccessful_lem : (w : WorkerOutcome) → unsuccessful w ≢ ActionLifecycle.admitted
  unsuccessful_lem w e = ground arith

  close_probe-Ahead :
      (s : State) (a : ProbeAction) (w : WorkerOutcome) (x : Option ℕ) (t : ℕ)
      → Ahead c s
      → Gives (AheadAfter c) (close_probe s a w x t)
  unfolding close_probe
  close_probe-Ahead s a w x t h =
      search
        (
          gives_rules,
          settled_rules,
          unsuccessful_lem,
          Gives-bind (Ahead c),
          append-Ahead,
          schedule-Ahead,
        )
        depth 9

  pub finished-Ahead :
      (s : State) (i : ActionId) (w : WorkerOutcome) (x : Option ℕ) (t : ℕ) (k : Option PlanHash)
      → Ahead c s
      → Gives (AheadAfter c) (finished s i w x t k)
  unfolding finished finished_probe finished_application finished_preparation finished_finalization
      close_application close_preparation close_finalization clear_recovery_unit
  finished-Ahead s i w x t k h =
      search
        (
          gives_rules,
          Gives-bind (Ahead c),
          append-Ahead,
          no_op-Ahead,
          schedule-Ahead,
          close_probe-Ahead,
        )
        depth 10

  failed-place :
      (s : State) (a : ActionRecord)
      → record_lifecycle a ≢ ActionLifecycle.admitted
      → Ahead c s
      → Ahead c (place_failed s a)
  unfolding place_failed
  failed-place s (ActionRecord.probe a) n h = settle h (some a) (Settled.started a n)
  failed-place s (ActionRecord.application a) n h = h
  failed-place s (ActionRecord.planning a) n h = h
  failed-place s (ActionRecord.preparation a) n h = h
  failed-place s (ActionRecord.finalization a) n h = h

  record_lifecycle-with :
      (a : ActionRecord) (l : ActionLifecycle) → record_lifecycle (with_lifecycle a l) ≡ l
  record_lifecycle-with (ActionRecord.probe a) l = refl
  record_lifecycle-with (ActionRecord.application a) l = refl
  record_lifecycle-with (ActionRecord.planning a) l = refl
  record_lifecycle-with (ActionRecord.preparation a) l = refl
  record_lifecycle-with (ActionRecord.finalization a) l = refl

  pub fail_action-Ahead :
      (s : State) (i : ActionId) (l : ActionLifecycle) (t : ℕ)
      → l ≢ ActionLifecycle.admitted
      → Ahead c s
      → Gives (AheadAfter c) (fail_action s i l t)
  unfolding fail_action
  fail_action-Ahead s i l t n h =
      let ended : (a : ActionRecord)
          → record_lifecycle (with_lifecycle a l) ≢ ActionLifecycle.admitted =
        λ a e. n (sym (record_lifecycle-with a l) ∙ e) in
      search
        (
          gives_rules,
          Gives-bind (Ahead c),
          append-Ahead,
          no_op-Ahead,
          schedule-Ahead,
          failed-place,
          ended,
        )
        depth 8

  pub stop_uncertain-Ahead :
      (s : State) (a : ActionRecord) (l : ActionLifecycle) (t : ℕ)
      → l ≢ ActionLifecycle.admitted
      → Ahead c s
      → Gives (AheadAfter c) (stop_uncertain_mutator s a l t)
  unfolding stop_uncertain_mutator place_stopping
  stop_uncertain-Ahead s (ActionRecord.planning a) l t n h = fail_action-Ahead s _ l t n h
  stop_uncertain-Ahead s (ActionRecord.probe a) l t n h =
      schedule-Ahead c _ _ _ (settle h _ (Settled.started _ stopping≢admitted))
  stop_uncertain-Ahead s (ActionRecord.application a) l t n h = schedule-Ahead c _ _ _ h
  stop_uncertain-Ahead s (ActionRecord.preparation a) l t n h = schedule-Ahead c _ _ _ h
  stop_uncertain-Ahead s (ActionRecord.finalization a) l t n h = schedule-Ahead c _ _ _ h

  resume-Ahead :
      (s : State) (a : ActionRecord) (x : Option ℕ) (t : ℕ)
      → Ahead c s
      → Gives (AheadAfter c) (resume_completed s a x t)
  unfolding resume_completed
  resume-Ahead s (ActionRecord.planning a) x t h = no_op-Ahead c s h
  resume-Ahead s (ActionRecord.probe a) x t h =
      finished-Ahead _ _ _ _ _ _ (settle h _ (Settled.started _ dispatched≢admitted))
  resume-Ahead s (ActionRecord.application a) x t h = finished-Ahead _ _ _ _ _ _ h
  resume-Ahead s (ActionRecord.preparation a) x t h = finished-Ahead _ _ _ _ _ _ h
  resume-Ahead s (ActionRecord.finalization a) x t h = finished-Ahead _ _ _ _ _ _ h

  unfinished-place :
      (s : State) (a : ActionRecord)
      → record_lifecycle a ≢ ActionLifecycle.admitted
      → Ahead c s
      → Ahead c (place_unfinished s a)
  unfolding place_unfinished place_failed
  unfinished-place s (ActionRecord.probe a) n h = settle h (some a) (Settled.started a n)
  unfinished-place s (ActionRecord.application a) n h = h
  unfinished-place s (ActionRecord.planning a) n h = h
  unfinished-place s (ActionRecord.preparation a) n h = h
  unfinished-place s (ActionRecord.finalization a) n h = h

  cancelled-place : (s : State) (a : ActionRecord) → Ahead c s → Ahead c (place_cancelled s a).0
  unfolding place_cancelled
  cancelled-place s (ActionRecord.probe a) h = settle h none Settled.nothing
  cancelled-place s (ActionRecord.application a) h = h
  cancelled-place s (ActionRecord.planning a) h = h
  cancelled-place s (ActionRecord.preparation a) h = h
  cancelled-place s (ActionRecord.finalization a) h = h

  record_lifecycle-with_result :
      (a : ActionRecord) (l : ActionLifecycle) (x : Option ℕ)
      → record_lifecycle (with_result a l x) ≡ l
  record_lifecycle-with_result (ActionRecord.probe a) l x = refl
  record_lifecycle-with_result (ActionRecord.application a) l x = refl
  record_lifecycle-with_result (ActionRecord.planning a) l x = refl
  record_lifecycle-with_result (ActionRecord.preparation a) l x = refl
  record_lifecycle-with_result (ActionRecord.finalization a) l x = refl

  result-place :
      (s : State) (a : ActionRecord) (l : ActionLifecycle) (x : Option ℕ)
      → elem l failed_lifecycles ≡ true
      → Ahead c s
      → Ahead c (place_unfinished s (with_result a l x))
  result-place s a l x e h =
      unfinished-place s _
        (λ q. let p = sym (record_lifecycle-with_result a l x) ∙ q in ground arith) h

  pub end_stopping-Ahead :
      (s : State) (a : ActionRecord) (e : WorkerCancellationAcknowledged)
      → Ahead c s
      → Gives (AheadAfter c) (end_stopping s a e)
  unfolding end_stopping
  end_stopping-Ahead s a e h = Gives-if _ _ _ (resume-Ahead s a _ _ h) (
      Gives-bind (Ahead c) _ _ (append-Ahead c _ _ _ h) λ s1 h1.
        Gives-test _ _ _
          (λ q.
            let placed = result-place s1 a e.terminal_lifecycle (some e.exit_status) q h1 in
            Gives-if _ _ _ (schedule-Ahead c _ _ _ placed) (schedule-Ahead c _ _ _ placed))
          (λ q. schedule-Ahead c _ _ _ (cancelled-place s1 a h1)))
