-- ===== src/Controller/Completed.antt =====
-- The events that the controller makes of the results of workers, in
-- .local/lib/monitor-controller/monitor_controller/runtime/controller.py.
use desktop_config.Prelude.{
  Error, Option, Result, arith, elem, err, false, inl, inr, nat_eq, none, ok, refl, some, true, ℕ,
  ◌!=◌, ◌&&◌, ◌==◌, ◌≡◌, ◌≢◌, ◌⊎◌, ◌↔◌, ◌>>◌,
}
use desktop_config.Codec.Accepted.{refuse-ok}
use desktop_config.Controller.Dispatch.{
  WorkerCompletion, completion_event, finished_event, finished_kind, new_completion, outcome_of,
}
use desktop_config.Model.Enums.{
  ActionKind, ActionLifecycle, WorkerOutcome, action_lifecycle_eq, terminal_action_lifecycles,
  ActionLifecycle-discrete,
}
use desktop_config.Model.Event.{Event, EventMetadata}
use desktop_config.Model.Identity.{ActionId, PlanHash}

-- What an event says of the end of a worker: its action, and the outcome if it is certain.
unfoldable pub reported : Event → Option (ActionId × Option WorkerOutcome)
reported (Event.probe_finished e) = some (e.action_id, some e.outcome)
reported (Event.application_finished e) = some (e.action_id, some e.outcome)
reported (Event.preparation_finished e) = some (e.action_id, some e.outcome)
reported (Event.finalization_finished e) = some (e.action_id, some e.outcome)
reported (Event.worker_status_unknown e) = some (e.action_id, none)
reported (Event.worker_timed_out e) = some (e.action_id, none)
reported _ = none

-- An event that reports the completion as it is, or an exception for a completion that names no
-- worker, or a preparation without its plan
pub Reports : WorkerCompletion → ActionKind → Option WorkerOutcome → Result Event → Type 0
Reports c kind outcome made =
    ((e : Event) × (made ≡ ok e) × (reported e ≡ some (c.action_id, outcome)))
    ⊎ ((raised : Error) × (made ≡ err raised)
        × (outcome ≢ none)
        × ((kind ≡ ActionKind.plan) ⊎ ((kind ≡ ActionKind.preparation) × (c.plan_hash ≡ none))))

preparation-Reports :
    (c : WorkerCompletion) (metadata : EventMetadata) (outcome : WorkerOutcome)
    (h : Option PlanHash)
    → c.plan_hash ≡ h
    → Reports c ActionKind.preparation
        (some outcome)
        (finished_kind ActionKind.preparation c metadata outcome)
unfolding Reports finished_kind reported
preparation-Reports c metadata outcome none e = rw e (inr (_, refl, (λ q. cc), inr (refl, refl)))
preparation-Reports c metadata outcome (some h) e = rw e (inl (_, refl, refl))

finished_kind-Reports :
    (kind : ActionKind) (c : WorkerCompletion) (metadata : EventMetadata) (outcome : WorkerOutcome)
    → Reports c kind (some outcome) (finished_kind kind c metadata outcome)
unfolding Reports finished_kind reported
finished_kind-Reports ActionKind.probe c metadata outcome = inl (_, refl, refl)
finished_kind-Reports ActionKind.application c metadata outcome = inl (_, refl, refl)
finished_kind-Reports ActionKind.preparation c metadata outcome =
    preparation-Reports c metadata outcome c.plan_hash refl
finished_kind-Reports ActionKind.finalization c metadata outcome = inl (_, refl, refl)
finished_kind-Reports ActionKind.plan c metadata outcome = inr (_, refl, (λ q. cc), inl refl)

completion_event-Reports_at :
    (l : ActionLifecycle) (c : WorkerCompletion) (metadata : EventMetadata) (deadline_ms : ℕ)
    → c.terminal_lifecycle ≡ l
    → elem l terminal_action_lifecycles ≡ true
    → Reports c c.action_id.kind (outcome_of l) (completion_event c metadata deadline_ms)
unfolding completion_event finished_event outcome_of Reports reported ActionLifecycle-discrete
completion_event-Reports_at ActionLifecycle.completed c metadata t e h = rw e (
    finished_kind-Reports c.action_id.kind
      (record c { terminal_lifecycle = ActionLifecycle.completed }) metadata
      WorkerOutcome.succeeded)
completion_event-Reports_at ActionLifecycle.failed c metadata t e h = rw e (
    finished_kind-Reports c.action_id.kind
      (record c { terminal_lifecycle = ActionLifecycle.failed }) metadata WorkerOutcome.failed)
completion_event-Reports_at ActionLifecycle.cancelled c metadata t e h = rw e (
    finished_kind-Reports c.action_id.kind
      (record c { terminal_lifecycle = ActionLifecycle.cancelled }) metadata
      WorkerOutcome.cancelled)
completion_event-Reports_at ActionLifecycle.unknown c metadata t e h = rw e (inl (_, refl, refl))
completion_event-Reports_at ActionLifecycle.timed_out c metadata t e h = rw e (inl (_, refl, refl))
completion_event-Reports_at ActionLifecycle.admitted c metadata t e h = absurd (cc)
completion_event-Reports_at ActionLifecycle.dispatched c metadata t e h = absurd (cc)
completion_event-Reports_at ActionLifecycle.stopping c metadata t e h = absurd (cc)
completion_event-Reports_at ActionLifecycle.result_pending c metadata t e h = absurd (cc)

not_succeeded :
    (x : ℕ) (o : Option WorkerOutcome)
    → o ≢ some WorkerOutcome.succeeded
    → (x == 0) ≡ false
    → (o ≡ some WorkerOutcome.succeeded) ↔ (x ≡ 0)
not_succeeded x o n q = ((λ e. absurd (n e)), λ e. ground arith)

succeeds :
    (l : ActionLifecycle) (exit_status : ℕ)
    → (l == ActionLifecycle.completed && exit_status != 0) ≡ false
    → (l != ActionLifecycle.completed && exit_status == 0) ≡ false
    → (outcome_of l ≡ some WorkerOutcome.succeeded) ↔ (exit_status ≡ 0)
unfolding outcome_of ActionLifecycle-discrete
succeeds ActionLifecycle.completed x p q = ((λ e. ground arith), λ e. refl)
succeeds ActionLifecycle.failed x p q = not_succeeded x _ (λ e. cc) q
succeeds _ x p q = not_succeeded x _ (λ e. cc) q

checks :
    (a b c d : Result (Unit {0})) (x y : WorkerCompletion)
    → (do a; b; c; d; ok x) ≡ ok y
    → (b ≡ ok tt) × (c ≡ ok tt) × (d ≡ ok tt)
checks a b c d x y h = ground arith

-- Of a completion that passes the checks of its class, the controller always makes an event that
-- names the completion's action and its outcome, which is a success exactly when the exit status is
-- zero, and is left open where the worker timed out or its end is unknown. It raises only on a
-- result of planning, which has no worker, and on a preparation without the hash of its plan.
pub completion_event-Reports :
    (c : WorkerCompletion) (metadata : EventMetadata) (deadline_ms : ℕ)
    → new_completion c ≡ ok c
    → Reports c c.action_id.kind
        (outcome_of c.terminal_lifecycle)
        (completion_event c metadata deadline_ms)
      × ((outcome_of c.terminal_lifecycle ≡ some WorkerOutcome.succeeded) ↔ (c.exit_status ≡ 0))
unfolding new_completion
completion_event-Reports c metadata deadline_ms h =
    let (terminal, zero, other) = checks _ _ _ _ _ _ h in
    (
      completion_event-Reports_at c.terminal_lifecycle c metadata deadline_ms refl (ground arith),
      succeeds c.terminal_lifecycle c.exit_status (refuse-ok _ _ zero) (refuse-ok _ _ other),
    )
