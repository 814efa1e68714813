-- ===== src/Controller/Proven.antt =====
-- What the request of a finalization proves: `_worker_request_context` of
-- .local/lib/monitor-controller/monitor_controller/runtime/controller.py.
use desktop_config.Prelude.{
  ==→≡, >>=-inverse, Bool, Error, Option, Result, String, [], ap, arith, err, false, list_eq, ltb,
  maybe, nat_eq, none, not, ok, option_eq, refl, some, string_eq, sym, true, ℕ, ◌!=◌, ◌-◌, ◌||◌,
  ◌∙◌, ◌≡◌, ◌≤◌,
}
use desktop_config.Controller.Context.{
  desktop_context, effect_context, finalization_context, lacks_observation, lacks_plan, unless,
  worker_request_context,
}
use desktop_config.Controller.Dispatch.{DispatchEffect, WorkerRequestContext}
use desktop_config.Invariants.Authority.{observed}
use desktop_config.Model.Action.{PlanningAction, PreparationAction}
use desktop_config.Model.Effect.{FinalizeDesktop}
use desktop_config.Model.Enums.{
  ActionLifecycle, ObservationValidity, PreparationState, action_lifecycle_eq, preparation_state_eq,
}
use desktop_config.Model.Identity.{
  ActionId, CandidateSelection, event_generation_eq, observation_key_eq, output_mapping_eq,
  physical_token_eq, plan_hash_eq, transition_id_eq, transition_key_eq,
}
use desktop_config.Model.Observation.{CanonicalObservation}
use desktop_config.Model.State.{State}

unless-ok :
    {A : Type 0} (b : Bool) (message : String) (r : Result A) {a : A}
    → unless b message r ≡ ok a
    → (b ≡ false) × (r ≡ ok a)
unless-ok true message r h = absurd (cc)
unless-ok false message r h = (refl, h)

maybe-ok :
    {A B : Type 0} (o : Option A) (e : Error) (f : A → Result B) {b : B}
    → maybe o (err e) f ≡ ok b
    → (a : A) × (o ≡ some a) × (f a ≡ ok b)
maybe-ok none e f h = absurd (cc)
maybe-ok (some a) e f h = (a, refl, h)

-- The sample that an effect's request rests on is the state's, valid, and the one that the effect was
-- admitted at.
pub record Sampled (s : State) (o : CanonicalObservation) (e : FinalizeDesktop) : Type 0 where
  pub is_valid : o.validity ≡ ObservationValidity.valid
  pub same_key : o.observation_key ≡ e.observation_key
  pub same_generation : o.end_event_generation ≡ e.admitted_event_generation
  pub same_topology : s.physical_token ≡ some o.physical_token

-- The plan is the effect's, for the candidate's mapping and for the outputs that the sample shows.
pub record Planned (s : State) (o : CanonicalObservation) (candidate : CandidateSelection)
    (plan : PlanningAction) (e : FinalizeDesktop) : Type 0 where
  pub candidate_key : candidate.observation_key ≡ e.observation_key
  pub candidate_epoch : candidate.mapping.physical_epoch ≡ s.physical_epoch
  pub transition : plan.transition_id ≡ e.transition_id
  pub hash : plan.plan_hash ≡ some e.plan_hash
  pub profile : plan.profile ≡ e.profile
  pub plan_epoch : plan.input_key.physical_epoch ≡ s.physical_epoch
  pub plan_key : plan.input_key.observation_key ≡ e.observation_key
  pub mapping : plan.input_key.mapping ≡ candidate.mapping.outputs
  pub outputs : plan.input_key.active_outputs ≡ o.x_active_outputs

-- The preparation is the effect's, and it is done.
pub record Prepared (preparation : PreparationAction) (e : FinalizeDesktop) : Type 0 where
  pub completed : preparation.lifecycle ≡ ActionLifecycle.completed
  pub transition : preparation.transition_id ≡ e.transition_id
  pub key : preparation.transition_key ≡ e.transition_key
  pub hash : preparation.plan_hash ≡ e.plan_hash
  pub profile : preparation.profile ≡ e.profile

-- The evidence behind a finalization's request, and the request, field by field.
pub record Proven (s : State) (e : FinalizeDesktop) (c : WorkerRequestContext) : Type 0 where
  pub o : CanonicalObservation
  pub candidate : CandidateSelection
  pub plan : PlanningAction
  pub preparation : PreparationAction
  pub since_ms : ℕ
  pub observed : s.latest_observation ≡ some o
  pub sampled : Sampled s o e
  pub selected : s.candidate ≡ some candidate
  pub planned : s.planning ≡ some plan
  pub matching : Planned s o candidate plan e
  pub held : s.preparation ≡ some preparation
  pub ready : s.preparation_state ≡ PreparationState.prepared
  pub prepared : Prepared preparation e
  pub watched : s.verify_since_ms ≡ some since_ms
  pub in_order : since_ms ≤ o.observed_at_ms
  pub context : c ≡ record {
    physical_epoch = s.physical_epoch;
    physical_token = o.physical_token;
    output_mapping = candidate.mapping.outputs;
    expected_topology = record {
      kernel_connected_outputs = o.kernel_connected_outputs;
      kernel_external_outputs = o.kernel_external_outputs;
      x_connected_outputs = o.x_connected_outputs;
      x_active_outputs = o.x_active_outputs;
    };
    layout = some plan.input_key.layout;
    planning_action_id = some plan.action_id;
    preparation_action_id = some preparation.action_id;
    proof_duration_ms = some (o.observed_at_ms - since_ms);
    probe_base_hash = none;
    probe_edid_integrity = none;
    profile_configuration_hashes = [];
  }

Sampled-of :
    (s : State) (o : CanonicalObservation) (e : FinalizeDesktop)
    → lacks_observation s o (DispatchEffect.finalize e) ≡ false
    → Sampled s o e
unfolding lacks_observation
Sampled-of s o e h = record {
  is_valid = ground arith;
  same_key = ground arith;
  same_generation = ground arith;
  same_topology = ground arith;
}

Planned-of :
    (s : State) (o : CanonicalObservation) (candidate : CandidateSelection) (plan : PlanningAction)
    (e : FinalizeDesktop)
    → lacks_plan s o candidate plan e.observation_key e.transition_id e.plan_hash e.profile ≡ false
    → Planned s o candidate plan e
unfolding lacks_plan
Planned-of s o candidate plan e h = record {
  candidate_key = ground arith;
  candidate_epoch = ground arith;
  transition = ground arith;
  hash = ground arith;
  profile = ground arith;
  plan_epoch = ground arith;
  plan_key = ground arith;
  mapping = ground arith;
  outputs = ground arith;
}

no_difference :
    (a b c d e f : Bool)
    → (not a || not b || not c || not d || not e || f) ≡ false
    → (a ≡ true) × (b ≡ true) × (c ≡ true) × (d ≡ true) × (e ≡ true) × (f ≡ false)
no_difference a b c d e f h = ground arith

is_prepared :
    (p : PreparationState)
    → (p != PreparationState.prepared) ≡ false
    → p ≡ PreparationState.prepared
is_prepared p h = ground arith

not_later : (a b : ℕ) → ltb a b ≡ false → b ≤ a
not_later a b h = ground arith

ok-same : {A : Type 0} (a b : A) → ok a ≡ ok b → a ≡ b
ok-same a b h = cc

filled :
    (d plain c : WorkerRequestContext) (i : Option ActionId) (t : Option ℕ)
    → ok d ≡ ok plain
    → ok (record plain { preparation_action_id = i; proof_duration_ms = t }) ≡ ok c
    → c ≡ record d { preparation_action_id = i; proof_duration_ms = t }
filled d plain c i t p q =
    sym (ok-same _ c q)
    ∙ ap
        (λ (x : WorkerRequestContext). record x {
          preparation_action_id = i;
          proof_duration_ms = t;
        })
        (sym (ok-same d plain p))

-- A finalization whose request can be made is proven by the stored state. Whenever the context of its
-- worker is returned, the state holds a valid sample of the topology that it knows, taken at the key
-- and the generation of the effect; a plan of the effect's transition, hash and profile, made for that
-- sample, for the mapping of the candidate and for the active outputs; and a completed preparation of
-- the same transition, key, hash and profile. The context is of these and of nothing else, and its
-- duration is the time from the start of the verification to the sample.
pub worker_request_context-Proven :
    (s : State) (e : FinalizeDesktop) (c : WorkerRequestContext)
    → worker_request_context s (DispatchEffect.finalize e) ≡ ok c
    → Proven s e c
unfolding worker_request_context effect_context desktop_context finalization_context
worker_request_context-Proven s e c h =
    let (o, observed, h1) = maybe-ok s.latest_observation _ _ h in
    let (current, h2) = unless-ok (lacks_observation s o (DispatchEffect.finalize e)) _ _ h1 in
    let (plain, h3, h4) =
      >>=-inverse (desktop_context s o e.observation_key e.transition_id e.plan_hash e.profile) _
        h2 in
    let (candidate, selected, h5) = maybe-ok s.candidate _ _ h3 in
    let (plan, planned, h6) = maybe-ok s.planning _ _ h5 in
    let (matching, h7) = unless-ok _ _ _ h6 in
    let (state, h8) = unless-ok _ _ _ h4 in
    let (preparation, prepared, h9) = maybe-ok s.preparation _ _ h8 in
    let (since_ms, watched, h10) = maybe-ok s.verify_since_ms _ _ h9 in
    let (same, h11) = unless-ok _ _ _ h10 in
    let (done, transition, key, plan_hash, profile, late) = no_difference _ _ _ _ _ _ same in
    record {
      o = o;
      candidate = candidate;
      plan = plan;
      preparation = preparation;
      since_ms = since_ms;
      observed = observed;
      sampled = Sampled-of s o e current;
      selected = selected;
      planned = planned;
      matching = Planned-of s o candidate plan e matching;
      held = prepared;
      ready = is_prepared s.preparation_state state;
      prepared = record {
        completed = ==→≡ _ _ done;
        transition = ==→≡ _ _ transition;
        key = ==→≡ _ _ key;
        hash = ==→≡ _ _ plan_hash;
        profile = ==→≡ _ _ profile;
      };
      watched = watched;
      in_order = not_later _ _ late;
      context = filled _ plain c _ _ h7 h11;
    }
