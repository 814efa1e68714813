-- ===== src/Reducer/Workers/Kinds.antt =====
-- The choice by the kind of an action.
use desktop_config.Prelude.{option_eq}
use desktop_config.Model.Enums.{
  ActionKind, action_lifecycle_eq, controller_phase_eq, preparation_state_eq, worker_outcome_eq,
}
use desktop_config.Model.Identity.{
  action_id_eq, application_attempt_key_eq, plan_hash_eq, probe_attempt_key_eq,
}

-- The chain of tests on `action_id.kind`; a plan is the last `else`.
abbrev pub by_kind : {A : Type 0} → ActionKind → A → A → A → A → A → A
by_kind ActionKind.plan plan probe application preparation finalization = plan
by_kind ActionKind.probe plan probe application preparation finalization = probe
by_kind ActionKind.application plan probe application preparation finalization = application
by_kind ActionKind.preparation plan probe application preparation finalization = preparation
by_kind ActionKind.finalization plan probe application preparation finalization = finalization
