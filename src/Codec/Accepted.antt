-- ===== src/Codec/Accepted.antt =====
-- A stored state that `_decode_state_document` of
-- .local/lib/monitor-controller/monitor_controller/codec.py accepts is a state to run from.
use desktop_config.Prelude.{
  Bool, List, Result, String, [], ambiguous_bijection, arith, controller_invariant, err, false,
  length, ltb, ok, out_of_rounds, refl, true, value_error, ℕ, ◌>>◌, ◌≡◌, ◌≤◌,
}
use desktop_config.Codec.Migration.{accept_state}
use desktop_config.Codec.Validation.{
  max_attempt_keys, max_recovery_units, max_tombstones, refuse, relationship_error,
  validate_persistence_relationships, validate_state,
}
use desktop_config.Invariants.Checks.{assert_controller_invariants}
use desktop_config.Model.Event.{Event}
use desktop_config.Model.State.{State}
use desktop_config.Safety.Reachable.{run, run-IsSafe}
use desktop_config.Safety.Spec.{IsSafe}

relationship_error-ok :
    (checks : Result (Unit {0})) → relationship_error checks ≡ ok tt → checks ≡ ok tt
relationship_error-ok (err (controller_invariant message)) h = absurd (cc)
relationship_error-ok (err (value_error message)) h = absurd (cc)
relationship_error-ok (err ambiguous_bijection) h = absurd (cc)
relationship_error-ok (err out_of_rounds) h = absurd (cc)
relationship_error-ok (ok tt) h = refl

-- What `validate_state` has checked of a state that it lets pass.
pub record Valid (s : State) : Type 0 where
  pub few_tombstones : length s.action_tombstones ≤ max_tombstones
  pub few_units : length s.recovery_units ≤ max_recovery_units
  pub few_probe_keys : length s.attempted_probe_keys ≤ max_attempt_keys
  pub few_application_keys : length s.attempted_application_keys ≤ max_attempt_keys
  pub relations : validate_persistence_relationships s ≡ ok tt
  pub invariants : assert_controller_invariants s ≡ ok tt

pub refuse-ok :
    (failing : Bool) (message : String) → refuse failing message ≡ ok tt → failing ≡ false
refuse-ok true message h = absurd (cc)
refuse-ok false message h = refl

pub six_checks :
    (a b c d e f : Result (Unit {0}))
    → (a >> (b >> (c >> (d >> (e >> f))))) ≡ ok tt
    → (a ≡ ok tt) × (b ≡ ok tt) × (c ≡ ok tt) × (d ≡ ok tt) × (e ≡ ok tt) × (f ≡ ok tt)
six_checks a b c d e f h = ground arith

not_above : (limit n : ℕ) → ltb limit n ≡ false → n ≤ limit
not_above limit n h = ground arith

pub validate_state-Valid : (s : State) → validate_state s ≡ ok tt → Valid s
unfolding validate_state
validate_state-Valid s h =
    let (a, b, c, d, e, f) = six_checks _ _ _ _ _ _ h in
    record {
      few_tombstones = not_above _ _ (refuse-ok _ _ a);
      few_units = not_above _ _ (refuse-ok _ _ b);
      few_probe_keys = not_above _ _ (refuse-ok _ _ c);
      few_application_keys = not_above _ _ (refuse-ok _ _ d);
      relations = e;
      invariants = relationship_error-ok _ f;
    }

accepted-valid :
    (authoritative had_unproven_plan : Bool) (s t : State)
    → accept_state authoritative had_unproven_plan s ≡ ok t
    → validate_state t ≡ ok tt
unfolding accept_state
accepted-valid authoritative had_unproven_plan s t h = ground arith

-- Whatever the schema that a state was stored in, a log of events that `reduce` gets through from
-- the accepted state ends in a state that satisfies the safety rules, and the accepted state
-- satisfies them itself and is within the bounds of the store.
pub accept_state-IsSafe :
    (authoritative had_unproven_plan : Bool) (s t u : State) (es : List Event)
    → accept_state authoritative had_unproven_plan s ≡ ok t
    → run t es ≡ ok u
    → Valid t × IsSafe t × IsSafe u
accept_state-IsSafe authoritative had_unproven_plan s t u es h q =
    let v = validate_state-Valid t (accepted-valid authoritative had_unproven_plan s t h) in
    (v, run-IsSafe t t [] v.invariants refl, run-IsSafe t u es v.invariants q)
