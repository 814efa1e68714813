-- ===== src/Scenarios/Stores.antt =====
-- The theorems on the stored state, at the scenarios.
use desktop_config.Prelude.{
  List-discrete, Option-discrete, String-discrete, [], err, false, inl, nat_eq, ok, refl, string_eq,
  true, value_error, ℕ_discrete, ◌∷◌, ◌≡◌, ◌⊎◌,
}
use desktop_config.Codec.Accepted.{Valid, accept_state-IsSafe}
use desktop_config.Codec.Decode.{decode_value, is_distinct, names_of}
use desktop_config.Codec.Encode.{encode_value, in_range, is_strict}
use desktop_config.Codec.Migration.{
  accept_state, migration_recovery_state, validate_desktop_finalization_requirement,
}
use desktop_config.Codec.Recovered.{IsConstructed, Recovered, migration_recovery_state-Recovered}
use desktop_config.Codec.Restored.{decode_value-encode_value}
use desktop_config.Codec.RoundTrip.{Conforms, Each}
use desktop_config.Codec.Validation.{validate_state}
use desktop_config.Codec.Values.{
  Default, FieldSchemas, Fields, Integer, Json, Schema, Value, Value-discrete, Values, value_eq,
}
use desktop_config.Guards.Timers.{observation_failed-schedules}
use desktop_config.Model.Enums.{
  ActionKind-discrete, ActionLifecycle-discrete, ControllerPhase-discrete, DisplayPower-discrete,
  ObservationValidity-discrete, PlanningState-discrete, PreparationState-discrete,
  ProfileScope-discrete, action_lifecycle_eq,
}
use desktop_config.Model.Event.{Event}
use desktop_config.Model.Identity.{
  ActionId-discrete, ApplicationAttemptKey-discrete, BootId-discrete, ControllerInstanceId-discrete,
  EventGeneration-discrete, ObservationKey-discrete, PhysicalToken-discrete, PlanHash-discrete,
  ProbeAttemptKey-discrete, TransitionId-discrete, TransitionKey-discrete, WorkerUnit-discrete,
  action_id_eq,
}
use desktop_config.Model.State.{State}
use desktop_config.Reducer.Tombstones.{stopping_mutator}
use desktop_config.Safety.Reachable.{run}
use desktop_config.Safety.Spec.{IsSafe}
use desktop_config.Scenarios.Checks.{application_stops-passes, idle-passes}
use desktop_config.Scenarios.Data.{application_stops, idle}
use desktop_config.Scenarios.Decisions.{after_failure, current, failure}

idle_valid : validate_state idle ≡ ok tt
unfolding validate_state BootId-discrete ControllerInstanceId-discrete EventGeneration-discrete
    ObservationKey-discrete PhysicalToken-discrete PlanHash-discrete TransitionKey-discrete
    ActionId-discrete TransitionId-discrete ProbeAttemptKey-discrete ApplicationAttemptKey-discrete
    WorkerUnit-discrete ControllerPhase-discrete PlanningState-discrete PreparationState-discrete
    ProfileScope-discrete ObservationValidity-discrete DisplayPower-discrete ActionKind-discrete
    ActionLifecycle-discrete String-discrete Option-discrete List-discrete ℕ_discrete
idle_valid = rw idle-passes refl

idle_accepted : accept_state true false idle ≡ ok idle
unfolding accept_state
idle_accepted = rw idle_valid refl

run-failure : run idle (Event.observation_failed failure ∷ []) ≡ ok after_failure.state
unfolding stopping_mutator
run-failure =
    rw (observation_failed-schedules idle idle-passes failure (current idle 5000 refl refl)) refl

accept_state-IsSafe_example : Valid idle × IsSafe idle × IsSafe after_failure.state
accept_state-IsSafe_example =
    accept_state-IsSafe true false idle idle after_failure.state
      (Event.observation_failed failure ∷ []) idle_accepted run-failure

stopping_valid : validate_state application_stops ≡ ok tt
unfolding validate_state BootId-discrete ControllerInstanceId-discrete EventGeneration-discrete
    ObservationKey-discrete PhysicalToken-discrete PlanHash-discrete TransitionKey-discrete
    ActionId-discrete TransitionId-discrete ProbeAttemptKey-discrete ApplicationAttemptKey-discrete
    WorkerUnit-discrete ControllerPhase-discrete PlanningState-discrete PreparationState-discrete
    ProfileScope-discrete ObservationValidity-discrete DisplayPower-discrete ActionKind-discrete
    ActionLifecycle-discrete String-discrete Option-discrete List-discrete ℕ_discrete
stopping_valid = rw application_stops-passes refl

-- The worker that is being stopped keeps its unit.
migration_recovery_state-Recovered_example :
    ((application_stops.desktop_finalization_required ≡ false)
      × ((r : State) × (migration_recovery_state application_stops ≡ ok r)
          × Recovered application_stops r))
    ⊎ ((application_stops.desktop_finalization_required ≡ true)
        × (migration_recovery_state application_stops
            ≡ err (value_error "required desktop finalization forbids baseline adoption")))
unfolding IsConstructed validate_desktop_finalization_requirement
migration_recovery_state-Recovered_example =
    migration_recovery_state-Recovered application_stops stopping_valid refl

-- A class with a member of an enumeration, an optional text, a set, and a field that the codec omits
-- at its default.
abbrev sample_schema : Schema
sample_schema =
    Schema.dataclass
      (FieldSchemas.field "kind" (Schema.enum ("probe" ∷ "plan" ∷ [])) Default.required (
        FieldSchemas.field "profile" (Schema.optional Schema.str) Default.required (
          FieldSchemas.field "keys" (Schema.frozenset Schema.int) Default.required (
            FieldSchemas.field "power" Schema.bool (Default.optional (Value.bool true))
              FieldSchemas.end))))
      (λ fields. true)

abbrev sample_value : Value
sample_value = Value.instance_of (
    Fields.field "kind" (Value.member "plan") Default.required (
      Fields.field "profile" Value.none Default.required (
        Fields.field "keys"
          (Value.frozenset (
            Values.cons (Value.int (Integer.pos 3))
              (Values.cons (Value.int (Integer.negsuc 0)) Values.nil)))
          Default.required
          (Fields.field "power" (Value.bool true) (Default.optional (Value.bool true))
            Fields.end))))

decode_value-encode_value_example :
    (j : Json) × (encode_value sample_value "state" ≡ ok j)
    × (decode_value sample_schema j "state" ≡ ok sample_value)
unfolding Conforms Each is_strict in_range is_distinct names_of String-discrete Value-discrete
    ℕ_discrete
decode_value-encode_value_example =
    decode_value-encode_value sample_schema sample_value "state" "state" (
      (
        refl,
        refl,
        (refl, refl),
        (refl, refl, inl refl, (refl, refl, ((refl, (refl, tt)), refl), (refl, refl, tt, tt))),
      ),
      refl,
      refl,
    )
