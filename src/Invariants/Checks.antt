-- ===== src/Invariants/Checks.antt =====
-- `assert_controller_invariants` of
-- .local/lib/monitor-controller/monitor_controller/invariants.py.
use desktop_config.Prelude.{Result, ◌>>◌}
use desktop_config.Invariants.Authority.{check_action_authorization, check_observation_authority}
use desktop_config.Invariants.Identities.{check_action_identities, check_worker_acknowledgements}
use desktop_config.Invariants.Phases.{check_phase_relationships, check_planning_relationships}
use desktop_config.Invariants.Safety.{check_attempt_history, check_numbered_safety_rules}
use desktop_config.Model.State.{State}

-- The checks in the order of the tuple `checks`; the first that fails is raised.
unfoldable pub assert_controller_invariants : State → Result (Unit {0})
assert_controller_invariants s = do
  check_phase_relationships s
  check_planning_relationships s
  check_action_identities s
  check_worker_acknowledgements s
  check_observation_authority s
  check_action_authorization s
  check_numbered_safety_rules s
  check_attempt_history s
