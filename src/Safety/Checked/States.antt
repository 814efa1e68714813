-- ===== src/Safety/Checked/States.antt =====
-- The functions that change a state on the way to a decision do not run out of rounds.
use desktop_config.Prelude.{List, Option, arith, none, refl, some, ℕ, ◌≡◌}
use desktop_config.Model.Action.{ActionRecord, ActionTombstone, FinalizationAction, PlanningAction}
use desktop_config.Model.Effect.{Effect}
use desktop_config.Model.Enums.{ActionLifecycle, ControllerPhase, PreparationState}
use desktop_config.Model.Identity.{ActionId}
use desktop_config.Model.Observation.{CanonicalObservation, ProfileMatch}
use desktop_config.Model.State.{State}
use desktop_config.Reducer.Epochs.{
  bury_planning, cancel_admitted, discard_planning, open_epoch, reset_for_epoch,
}
use desktop_config.Reducer.Failures.{withdraw_admission}
use desktop_config.Reducer.Hints.{drop_pending_finalization, drop_pending_preparation}
use desktop_config.Reducer.Observe.{
  cancel_application, cancel_finalization, cancel_preparation, cancel_probe,
  fail_finalization_result,
}
use desktop_config.Reducer.Timing.{worker_deadline_ms}
use desktop_config.Reducer.Tombstones.{
  append_tombstone, bound_action_tombstones, clear_recovery_unit,
}
use desktop_config.Reducer.Verification.{renew_proof}
use desktop_config.Safety.Checked.Checks.{
  decision-IsChecked, no_op-IsChecked, quiesce-IsChecked, schedule-IsChecked,
}
use desktop_config.Safety.Returns.{
  Anything, Returns, Returns-bind, Returns-if, Returns-maybe, Returns-ok, Returns-some_value,
  Returns-then, Returns-weaken, returns_rules,
}

pub bound-Returns :
    (ts : List ActionTombstone) (p : List ActionId)
    → Returns Anything (bound_action_tombstones ts p)
unfolding bound_action_tombstones
bound-Returns ts p = search returns_rules

-- A tombstone changes neither the phase nor the desktop's lifecycles nor the counters.
pub record SameCourse (s t : State) : Type 0 where
  pub phase : t.phase ≡ s.phase
  pub preparation_state : t.preparation_state ≡ s.preparation_state

append_lem :
    (s : State) (a : ActionRecord) (l : ActionLifecycle)
    → Returns (SameCourse s) (append_tombstone s a l)
unfolding append_tombstone clear_recovery_unit
append_lem s a l =
    Returns-then _ _ (bound-Returns _ _)
      (λ r. Returns-ok _ (record { phase = refl; preparation_state = refl }))

pub append-SameCourse :
    (s : State) (a : ActionRecord) (l : ActionLifecycle)
    → Returns (SameCourse s) (append_tombstone s a l)
append-SameCourse = append_lem

pub append-Returns :
    (s : State) (a : ActionRecord) (l : ActionLifecycle) → Returns Anything (append_tombstone s a l)
append-Returns s a l = Returns-weaken _ (append_lem s a l)

pub discard-Returns : (s : State) → Returns Anything (discard_planning s)
unfolding discard_planning
discard-Returns s = search (returns_rules, append-Returns) depth 8

-- Discarding leaves no preparation to wait for.
abbrev pub IsIdle : State × List Effect → Type 0
IsIdle x = x.0.preparation_state ≡ PreparationState.prepare_idle

discard-IsIdle : (s : State) → Returns IsIdle (discard_planning s)
unfolding discard_planning
discard-IsIdle s =
    Returns-maybe s.planning _ _ (λ e. Returns-ok _ refl)
      λ planning e. Returns-then _ _ (bury s planning) (λ t. Returns-ok _ refl)
  where
    bury : (s : State) (p : PlanningAction) → Returns Anything (bury_planning s p)
    bury s p = search (returns_rules, append-Returns)

cancel_admitted-SameCourse :
    (s : State) (a : Option ActionRecord) → Returns (SameCourse s) (cancel_admitted s a)
unfolding cancel_admitted
cancel_admitted-SameCourse s none = Returns-ok s (record { phase = refl; preparation_state = refl })
cancel_admitted-SameCourse s (some a) =
    Returns-if _ _ _ (λ _. append_lem s a ActionLifecycle.cancelled)
      (λ _. Returns-ok s (record { phase = refl; preparation_state = refl }))

-- A new epoch waits for nothing.
abbrev pub IsFresh : State × List Effect → Type 0
IsFresh x =
    (x.0.phase ≡ ControllerPhase.discover_fast)
    × (x.0.preparation_state ≡ PreparationState.prepare_idle)

pub reset_for_epoch-IsFresh :
    (s : State) (o : CanonicalObservation) (t : ℕ) → Returns IsFresh (reset_for_epoch s o t)
unfolding reset_for_epoch open_epoch
reset_for_epoch-IsFresh s o t = Returns-bind IsIdle _ _ (discard-IsIdle s) λ (s1, es) i1.
    Returns-bind (SameCourse s1) _ _ (cancel_admitted-SameCourse s1 _) λ s2 i2.
      Returns-bind (SameCourse s2) _ _ (cancel_admitted-SameCourse s2 _) λ s3 i3.
        Returns-bind (SameCourse s3) _ _ (cancel_admitted-SameCourse s3 _)
          λ s4 i4. Returns-ok _ (refl, ground arith)

pub reset_for_epoch-Returns :
    (s : State) (o : CanonicalObservation) (t : ℕ) → Returns Anything (reset_for_epoch s o t)
reset_for_epoch-Returns s o t = Returns-weaken _ (reset_for_epoch-IsFresh s o t)

pub renew_proof-Returns :
    (s : State) (o : CanonicalObservation) (m : ProfileMatch) → Returns Anything (renew_proof s o m)
unfolding renew_proof
renew_proof-Returns s o m = search (returns_rules, discard-Returns)

pub deadline-Returns : (a : ActionId) (t : ℕ) → Returns Anything (worker_deadline_ms a t)
unfolding worker_deadline_ms
deadline-Returns a t = search returns_rules

pub cancel_probe-Returns : (s : State) → Returns Anything (cancel_probe s)
unfolding cancel_probe
cancel_probe-Returns s = search (returns_rules, append-Returns) depth 8

pub cancel_application-Returns : (s : State) → Returns Anything (cancel_application s)
unfolding cancel_application
cancel_application-Returns s = search (returns_rules, append-Returns) depth 8

pub cancel_preparation-Returns : (s : State) → Returns Anything (cancel_preparation s)
unfolding cancel_preparation
cancel_preparation-Returns s = search (returns_rules, append-Returns, discard-Returns) depth 8

pub cancel_finalization-Returns : (s : State) → Returns Anything (cancel_finalization s)
unfolding cancel_finalization
cancel_finalization-Returns s = search (returns_rules, append-Returns) depth 8

pub fail_result-Returns :
    (s : State) (a : FinalizationAction) → Returns Anything (fail_finalization_result s a)
unfolding fail_finalization_result
fail_result-Returns s a = search (returns_rules, append-Returns)

pub withdraw-Returns : (s : State) (a : ActionRecord) → Returns Anything (withdraw_admission s a)
unfolding withdraw_admission
withdraw-Returns s (ActionRecord.preparation a) =
    search (returns_rules, append-Returns, discard-Returns)
withdraw-Returns s (ActionRecord.finalization a) = search (returns_rules, append-Returns)
withdraw-Returns s _ = Returns-some_value _

pub drop_preparation-Returns : (s : State) → Returns Anything (drop_pending_preparation s)
unfolding drop_pending_preparation
drop_preparation-Returns s = search (returns_rules, append-Returns, discard-Returns) depth 8

pub drop_finalization-Returns : (s : State) → Returns Anything (drop_pending_finalization s)
unfolding drop_pending_finalization
drop_finalization-Returns s = search (returns_rules, append-Returns) depth 8

pub ruleset checked_rules = (
  returns_rules, decision-IsChecked, no_op-IsChecked, schedule-IsChecked, quiesce-IsChecked,
  append-Returns, discard-Returns, reset_for_epoch-Returns, renew_proof-Returns, deadline-Returns,
)
