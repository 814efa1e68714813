-- ===== src/Reducer/Outcome.antt =====
-- How a handler of .local/lib/monitor-controller/monitor_controller/reducer.py ends, and how it
-- allocates identities.
use desktop_config.Prelude.{List, Option, Result, [], none, ok, some, ℕ, ◌++◌, ◌+◌, ◌>>◌, ◌∷◌}
use desktop_config.Invariants.Checks.{assert_controller_invariants}
use desktop_config.Model.Effect.{Decision, Effect}
use desktop_config.Model.Enums.{ActionKind, ControllerPhase, WakeReason}
use desktop_config.Model.Identity.{ActionId, TransitionId}
use desktop_config.Model.State.{State}

-- `_decision`: the state is held to the central invariants before it is returned.
unfoldable pub decision : State → List Effect → Result Decision
decision s effects = do assert_controller_invariants s; ok (record { state = s; effects = effects })

-- `_no_op`
unfoldable pub no_op : State → Result Decision
no_op s = decision s []

-- `_schedule`
unfoldable pub schedule : State → ℕ → List Effect → Result Decision
schedule s deadline_ms effects =
    decision (record s { next_timer_ms = some deadline_ms })
      (effects ++ Effect.schedule (record { deadline_ms = deadline_ms }) ∷ [])

-- `_quiesce`
unfoldable pub quiesce : State → List Effect → Result Decision
quiesce s effects =
    decision (record s { phase = ControllerPhase.quiescent; next_timer_ms = none }) effects

-- `RequestObservation(reason)` and `StopAction(action_id)`
abbrev pub request_observation : WakeReason → Effect
request_observation reason = Effect.request_observation (record { reason = reason })

abbrev pub stop_action : ActionId → Effect
stop_action action_id = Effect.stop_action (record { action_id = action_id })

-- `_allocate_action`
unfoldable pub allocate_action : State → ActionKind → State × ActionId
allocate_action s kind =
    let sequence = s.action_sequence_high_water + 1 in
    (
      record s { action_sequence_high_water = sequence },
      record { controller_instance = s.controller_instance; kind = kind; sequence = sequence },
    )

-- `_allocate_transition`
unfoldable pub allocate_transition : State → State × TransitionId
allocate_transition s =
    let sequence = s.transition_sequence_high_water + 1 in
    (
      record s { transition_sequence_high_water = sequence },
      record { controller_instance = s.controller_instance; sequence = sequence },
    )

-- The first handler of a sequence of early returns that returns.
infixr 20 ◌<|>◌
abbrev pub ◌<|>◌ {ℓ} : {A : Type ℓ} → Option A → Option A → Option A
none <|> o = o
some a <|> o = some a

-- Early returns before the rest of a handler.
abbrev pub or_else {ℓ} : {A : Type ℓ} → Option A → A → A
or_else none rest = rest
or_else (some a) rest = a
