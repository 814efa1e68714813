-- ===== src/Reducer/Timing.antt =====
-- The time constants of .local/lib/monitor-controller/monitor_controller/reducer.py, and its worker
-- deadlines.
use desktop_config.Prelude.{
  List, Option, Result, [], err, maybe, none, ok, some, value_error, ℕ, ◌+◌, ◌∷◌,
}
use desktop_config.Model.Enums.{ActionKind}
use desktop_config.Model.Identity.{ActionId}

abbrev pub aggressive_budget_ms : ℕ
aggressive_budget_ms = 30000

abbrev pub fast_delays_ms : List ℕ
fast_delays_ms = 0 ∷ 250 ∷ 500 ∷ 1000 ∷ 2000 ∷ []

abbrev pub slow_delays_ms : List ℕ
slow_delays_ms = 5000 ∷ 10000 ∷ 20000 ∷ 30000 ∷ []

abbrev pub event_quiet_ms : ℕ
event_quiet_ms = 3000

abbrev pub unknown_stability_ms : ℕ
unknown_stability_ms = 10000

abbrev pub unplug_stability_ms : ℕ
unplug_stability_ms = 3000

abbrev pub unplug_required_samples : ℕ
unplug_required_samples = 2

abbrev pub health_poll_ms : ℕ
health_poll_ms = 60000

abbrev pub display_asleep_poll_ms : ℕ
display_asleep_poll_ms = 300000

abbrev pub observation_failure_retry_ms : ℕ
observation_failure_retry_ms = 1000

-- The table of `_worker_deadline_ms`.
abbrev pub worker_timeout_ms : ActionKind → Option ℕ
worker_timeout_ms ActionKind.probe = some 30000
worker_timeout_ms ActionKind.application = some 120000
worker_timeout_ms ActionKind.preparation = some 300000
worker_timeout_ms ActionKind.finalization = some 300000
worker_timeout_ms ActionKind.plan = none

-- `_worker_deadline_ms`
unfoldable pub worker_deadline_ms : ActionId → ℕ → Result ℕ
worker_deadline_ms action_id dispatched_at_ms =
    maybe (worker_timeout_ms action_id.kind)
      (err (value_error "planning tasks do not have supervisor worker deadlines"))
      (λ timeout_ms. ok (dispatched_at_ms + timeout_ms))
