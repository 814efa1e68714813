-- ===== src/Lib.antt =====
-- The monitor controller of .local/lib/monitor-controller: its domain types, its central
-- invariants, its policy reducer, the codec of its stored state, its event loop, and the
-- matching of display outputs.
--
-- The controller observes the displays of a laptop, decides by a pure function what to do about
-- them, and has workers do it. `reduce` of monitor_controller/reducer.py takes a state and an
-- event, and returns a decision: the next state and the effects that are asked for. The runtime
-- stores the state before it carries an effect out, so what the reducer decides is what the
-- program may do. Every decision, and every state that `reduce` is given, is held to the checks
-- of monitor_controller/invariants.py. The event loop of runtime/controller.py feeds the
-- reducer: it takes events from a queue, stores the state that `reduce` returns, and carries out
-- the effects, each of which may process further events before the next one. The codec writes
-- the stored state and accepts it again at the start, and the observer makes the samples that
-- the events carry.
--
-- Paths below are within .local/lib/monitor-controller/monitor_controller.
--
-- Parts:
-- - Prelude: library names, Boolean tests on numbers, equality as an instance, lists, text, and
--   functions that raise. `Result` is a value or an exception; `Error` has
--   `ControllerInvariantError`, the `ValueError`s of the code, `AmbiguousBijectionError`, and
--   `out_of_rounds`, which stands for Python's recursion limit.
-- - Model (model.py): Enums, Identity, Observation, Action, State, Event and Effect, one type
--   for each class, with its fields in their order and under their names. A union of classes is
--   a data type with one constructor for each class. Equality is the decided equality of the
--   types.
-- - Invariants (invariants.py): Rules has `_require`, the sequence of checks and the tables;
--   Phases, Identities, Authority and Safety have the checks `_check_...`; Checks has
--   `assert_controller_invariants`. A check that stands under a condition or in a loop of the
--   source is a function of its own.
-- - Reducer (reducer.py): Timing has the constants and `_worker_deadline_ms`; Outcome has
--   `_decision`, `_no_op`, `_schedule`, `_quiesce` and the allocation of identities; Tombstones
--   has `_append_tombstone` and `bound_action_tombstones` of model.py; Targets reads targets and
--   proofs off an observation; Epochs has `_discard_planning`, `_reset_for_epoch` and
--   `_enter_wait`; Admission has `_admit_probe`, `_admit_application` and `_admit_plan`;
--   Verification has `_start_verification` and `_advance_verification`; Pending has
--   `_observe_pending_action`; Classify has `_handle_unplug` and `_classify_observation`;
--   Observe has `_observe`; Workers has `_dispatched` and `_finished`; Plans has the handlers of
--   planning events; Failures has `_fail_action`, `_admission_dirtied`,
--   `_stop_uncertain_mutator` and `_cancellation_acknowledged`; Hints has `_drm_hint`,
--   `_controller_started` and `_boot_changed`; Reduce has `reduce`.
-- - Observer: Bijection has `unique_bijection` of observer/mapping.py, and Topology has
--   `_connector_translations` and `live_output_for` of observer/topology.py; Enumerated, Sole
--   and Verdict compare the search with the bijections that there are, and Injective follows the
--   correspondence.
-- - Codec (codec.py): Values, Encode and Decode have the values, `_encode_value` and
--   `_decode_value`; Validation has `validate_state` and what it calls; Migration has
--   `_migration_recovery_state` and the end of `_decode_state_document`. RoundTrip and Restored
--   are about encoding, Excluded, Recovered and Accepted about the accepted state.
-- - Controller (runtime/controller.py, and parts of runtime/dispatcher.py and
--   runtime/scheduler.py): Machine has the fields of `SerializedController`, `_process_event`
--   and the fences; Effects has `_request_observation` and `_request_plan`; Context has
--   `_worker_request_context`; Dispatch has the effects and results of workers and their events;
--   Starting has `_dispatch` and what it calls; Stopping has `_stop_action`; Steps has
--   `_handle_effect` and the steps of the controller; Scheduler has `DeadlineScheduler`.
--   Follows, Leads and Refined relate the steps to `reduce`; Recorded, Slots and Spent follow an
--   admission through its dispatch; Fenced, Proven, Completed and Awake are about the last
--   fence, the context of a finalization, the results of workers and the timer.
-- - Safety: the numbered safety rules as propositions (Spec), how the checks imply them (Rows,
--   Rules), how a handler returns (Returns), the decisions of every handler (Checked), and the
--   runs of the reducer (Reachable).
-- - Guards: the answers to timers and failed observations (Timers, Retries), to samples and to
--   results while a worker is being stopped (Stopping, Results) and to a change of the boot
--   (Boots).
-- - Counters: the sequences and the epochs of a state, and an attempted probe key, through every
--   handler.
-- - Once: fresh identities (Fresh), the admission of probes (Admit) and applications (Apply),
--   the acknowledgement of their dispatch (Dispatch), and the probe keys that a run has spent
--   (Kept).
-- - Sleep, Waits, Unplug and Finalize: work while the displays are asleep, the waits of
--   `_enter_wait`, the proof of an unplugged monitor, and the proof before a finalization.
-- - Retention: the bound on the tombstones.
-- - Scenarios: concrete states and samples, and the theorems at them.
--
-- How the code is read:
-- - A local `state` that the source assigns again is a new name, a `replace` is a record update,
--   an early return is a branch, and several early returns in a row are joined by `<|>` and
--   `or_else`. A frozenset is a list without duplicates, compared as a set where the source
--   does; a dictionary of constants is a function to `Option`.
-- - A number is a natural number, since the dataclasses refuse negative ones. A difference of
--   times that is compared with a bound is written as a sum.
-- - `_reclassify_cancelled_admission` and `_classify_observation` call each other.
--   `classify_rounds` counts the calls; each withdraws one pending admission, of which a state
--   has at most two, so that three rounds are enough.
-- - An `await` of the controller is a point where other tasks may run. What `_process_event` has
--   still to do is a list of tasks, the innermost first, and a step performs the first of them,
--   consumes an event where none is left, or enqueues one. The answers of the observer, the
--   planner, the dispatcher, the supervisor and the clock are arguments of a step. A fence
--   drains a snapshot of the queue; in the model it may drain any number of events. The end of a
--   planning task, by its event or by a cancellation, is a step as well. The dispatcher calls
--   the last fence before it submits a worker; in a run it may answer anything, whatever the
--   fence says, so that what holds of every run does not rest on it. What the dispatcher and the
--   supervisor report as failures comes with its text as an argument.
-- - A codec value is a value with its fields and their defaults, and a schema is the type that
--   Python's annotations describe; the classes' own checks are an argument of the schema. A
--   frozenset is written in the order of its encoding. The order of a search over a dictionary
--   is that of a list.
-- - A test of the kind of an action's identity is a match on the class of the action, since each
--   class ties the two together.
--
-- Not modelled:
-- - `__post_init__`: the values of the model are taken as values that these checks accept, and a
--   `replace` does not run them again. The one exception is the check of the required
--   finalization, which the `replace` of `_migration_recovery_state` runs (`revoke`).
-- - `UnknownEventError`, since the type of events is closed, and `schema_version`, which is
--   constant.
-- - Of the codec, the parser of JSON text and its byte limits, and the rewriting of documents of
--   the first two schemas. Of the controller, the audit log and the journal, which only record,
--   the polling of workers, the null dispatcher and `close`. Of the observer, the readers of
--   sysfs and of the output of commands, the matching of saved profiles and the snapshot.
-- - The persistence, the recovery at the start, the transactions, the systemd and process
--   integration, the workers, the desktop planner, the simulation and the entry points: they
--   store, render, and talk to other programs.
pub mod Prelude
pub mod Model
pub mod Invariants
pub mod Reducer
pub mod Safety
pub mod Guards
pub mod Once
pub mod Sleep
pub mod Counters
pub mod Observer
pub mod Codec
pub mod Controller
pub mod Waits
pub mod Unplug
pub mod Finalize
pub mod Retention
pub mod Scenarios
