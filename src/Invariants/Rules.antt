-- ===== src/Invariants/Rules.antt =====
-- `_require` and the lifecycle sets of .local/lib/monitor-controller/monitor_controller/invariants.py.
use mathlib.Core.Option
use desktop_config.Prelude.{
  Bool, List, Option, Result, String, [], controller_invariant, elem, err, false, none, ok, some,
  somes, true, ℕ, ◌>>◌, ◌∷◌,
}
use desktop_config.Model.Action.{ActionRecord, record_lifecycle}
use desktop_config.Model.Enums.{ActionLifecycle, action_lifecycle_eq, terminal_action_lifecycles}
use desktop_config.Model.State.{State}

-- `_MUTATING_IN_FLIGHT`
abbrev pub mutating_in_flight : List ActionLifecycle
mutating_in_flight =
    ActionLifecycle.dispatched ∷ ActionLifecycle.stopping ∷ ActionLifecycle.result_pending ∷ []

-- `_FAILED_LIFECYCLES`
abbrev pub failed_lifecycles : List ActionLifecycle
failed_lifecycles =
    ActionLifecycle.failed ∷ ActionLifecycle.unknown ∷ ActionLifecycle.timed_out ∷ []

-- `PROFILE_STABILITY_MS`, and `_PREPARATION_STABILITY_MS` with the reducer's constant of its value
abbrev pub profile_stability_ms : ℕ
profile_stability_ms = 4000

abbrev pub preparation_stability_ms : ℕ
preparation_stability_ms = 2000

-- `_require`
abbrev pub require : Bool → String → Result (Unit {0})
require true message = ok tt
require false message = err (controller_invariant message)

-- `if b: …` around checks
abbrev pub when : Bool → Result (Unit {0}) → Result (Unit {0})
when true check = check
when false check = ok tt

-- `if x is not None: …` around checks
abbrev pub given : {A : Type 0} → Option A → (A → Result (Unit {0})) → Result (Unit {0})
given none check = ok tt
given (some a) check = check a

-- `for x in xs: …`
abbrev pub each : {A : Type 0} → (A → Result (Unit {0})) → List A → Result (Unit {0})
each check [] = ok tt
each check (x ∷ xs) = check x >> each check xs

-- `_actions`
abbrev pub actions : State → List ActionRecord
actions s = somes (
    Option.map ActionRecord.probe s.probe
    ∷ Option.map ActionRecord.application s.application
    ∷ Option.map ActionRecord.planning s.planning
    ∷ Option.map ActionRecord.preparation s.preparation
    ∷ Option.map ActionRecord.finalization s.finalization
    ∷ [])

-- The four actions that change the display or the desktop.
abbrev pub mutators : State → List ActionRecord
mutators s = somes (
    Option.map ActionRecord.probe s.probe
    ∷ Option.map ActionRecord.application s.application
    ∷ Option.map ActionRecord.preparation s.preparation
    ∷ Option.map ActionRecord.finalization s.finalization
    ∷ [])

abbrev pub in_flight : ActionRecord → Bool
in_flight a = elem (record_lifecycle a) mutating_in_flight

abbrev pub is_terminal : ActionRecord → Bool
is_terminal a = elem (record_lifecycle a) terminal_action_lifecycles
