-- ===== src/Counters/Classified.antt =====
-- The counters through the classification of an observation.
use desktop_config.Prelude.{
  Option, Result, arith, maybe, none, out_of_rounds, refl, some, suc, zero, ℕ, ◌≡◌,
}
use desktop_config.Counters.Ahead.{Ahead, Counters, Settled, renew_probe, settle, settle-if}
use desktop_config.Counters.Gives.{
  Gives, Gives-bind, Gives-err, Gives-if, Gives-or_else, GivesEarly, GivesEarly-some,
  GivesEarly-test,
}
use desktop_config.Counters.Steps.{
  AheadAfter, AheadWith, append-Ahead, candidate-Ahead, decision-Ahead, enter_wait-Ahead,
  exact-Ahead, gives_rules, probe-Ahead, reset-Ahead, schedule-Ahead,
}
use desktop_config.Model.Action.{ProbeAction}
use desktop_config.Model.Effect.{Decision}
use desktop_config.Model.Observation.{CanonicalObservation}
use desktop_config.Model.State.{State}
use desktop_config.Reducer.Classify.{
  await_unplug, classify_evidence, classify_observation, classify_rounds, classify_target,
  classify_topology, classify_unknown, clear_failed_application, clear_failed_finalization,
  clear_failed_probe, handle_unplug, note_external,
}
use desktop_config.Reducer.Epochs.{defer_while_asleep}
use desktop_config.Reducer.Pending.{
  observe_pending_action, observe_pending_application, observe_pending_finalization,
  observe_pending_preparation, observe_pending_probe, reclassify_cancelled_admission,
}

module _ (c : Counters) where
  target-Ahead :
      (s : State) (o : CanonicalObservation)
      → Ahead c s
      → Gives (AheadAfter c) (classify_target s o)
  unfolding classify_target classify_unknown defer_while_asleep
  target-Ahead s o h =
      search
        (gives_rules, schedule-Ahead, enter_wait-Ahead, probe-Ahead, candidate-Ahead, exact-Ahead)
        depth 9

  cleared_probe :
      (s : State) (o : CanonicalObservation) (t : State)
      → Ahead c s
      → clear_failed_probe s o ≡ some t
      → Ahead c t
  unfolding clear_failed_probe
  cleared_probe s o t h e = ground arith

  cleared_application :
      (s : State) (o : CanonicalObservation) (t : State)
      → Ahead c s
      → clear_failed_application s o ≡ some t
      → Ahead c t
  unfolding clear_failed_application
  cleared_application s o t h e = ground arith

  cleared_finalization :
      (s : State) (o : CanonicalObservation) (t : State)
      → Ahead c s
      → clear_failed_finalization s o ≡ some t
      → Ahead c t
  unfolding clear_failed_finalization
  cleared_finalization s o t h e = ground arith

  maybe-Gives :
      (o : Option State) (m : Result Decision) (f : State → Result Decision)
      → ((t : State) → o ≡ some t → Ahead c t)
      → Gives (AheadAfter c) m
      → ((t : State) → Ahead c t → Gives (AheadAfter c) (f t))
      → Gives (AheadAfter c) (maybe o m f)
  maybe-Gives none m f k hm hf = hm
  maybe-Gives (some t) m f k hm hf = hf t (k t refl)

  evidence-Ahead :
      (s : State) (o : CanonicalObservation)
      → Ahead c s
      → Gives (AheadAfter c) (classify_evidence s o)
  unfolding classify_evidence
  evidence-Ahead s o h =
      maybe-Gives _ _ _ (λ t e. cleared_probe s o t h e) (schedule-Ahead c _ _ _ h)
        λ s1 h1.
          maybe-Gives _ _ _ (λ t e. cleared_application s1 o t h1 e) (schedule-Ahead c _ _ _ h1)
            λ s2 h2.
              maybe-Gives _ _ _ (λ t e. cleared_finalization s2 o t h2 e)
                (schedule-Ahead c _ _ _ h2) (λ s3 h3. target-Ahead s3 o h3)

  unplug-Ahead : (s : State) (o : CanonicalObservation) → Ahead c s → Ahead c (handle_unplug s o).0
  unfolding handle_unplug
  unplug-Ahead s o h = ground arith

  topology-Ahead :
      (s : State) (o : CanonicalObservation)
      → Ahead c s
      → Gives (AheadAfter c) (classify_topology s o)
  unfolding classify_topology note_external await_unplug
  topology-Ahead s o h =
      search (gives_rules, evidence-Ahead, unplug-Ahead, schedule-Ahead, settle-if) depth 8

  module _ (classify : State → CanonicalObservation → Result Decision) (o : CanonicalObservation)
      (later : (t : State) → Ahead c t → Gives (AheadAfter c) (classify t o)) where
    reclassify-Ahead :
        (s : State) → Ahead c s → Gives (AheadAfter c) (reclassify_cancelled_admission classify s o)
    unfolding reclassify_cancelled_admission
    reclassify-Ahead s h = search (
      gives_rules,
      Gives-bind (AheadWith c),
      Gives-bind (AheadAfter c),
      reset-Ahead,
      later,
      decision-Ahead,
    )

    waiting-Ahead :
        (s : State) (a : ProbeAction)
        → Ahead c s
        → s.probe ≡ some a
        → Gives (AheadAfter c) (observe_pending_probe classify s o a)
    unfolding observe_pending_probe
    waiting-Ahead s a h held =
        Gives-if _ _ _ (decision-Ahead c _ _ (renew_probe h a _ held refl refl)) (
          Gives-bind (Ahead c) _ _ (append-Ahead c _ _ _ h)
            (λ s1 h1. reclassify-Ahead _ (settle h1 none Settled.nothing)))

    probe_waits-Ahead :
        (s : State)
        → Ahead c s
        → GivesEarly
            (AheadAfter c)
            (maybe s.probe none (λ a. some (observe_pending_probe classify s o a)))
    probe_waits-Ahead s h =
        GivesEarly-test s.probe _ λ a held. GivesEarly-some _ (waiting-Ahead s a h held)

    pending-Ahead :
        (s : State) → Ahead c s → GivesEarly (AheadAfter c) (observe_pending_action classify s o)
    unfolding observe_pending_action observe_pending_application observe_pending_preparation
        observe_pending_finalization
    pending-Ahead s h =
        search
          (
            gives_rules,
            Gives-bind (Ahead c),
            append-Ahead,
            reclassify-Ahead,
            decision-Ahead,
            probe_waits-Ahead,
          )
          depth 10

  rounds-Ahead :
      (n : ℕ) (s : State) (o : CanonicalObservation)
      → Ahead c s
      → Gives (AheadAfter c) (classify_rounds n s o)
  unfolding classify_rounds
  rounds-Ahead zero s o h = Gives-err out_of_rounds
  rounds-Ahead (suc n) s o h =
      Gives-or_else _ _ (pending-Ahead (classify_rounds n) o (λ t k. rounds-Ahead n t o k) s h)
        (topology-Ahead s o h)

  pub classify-Ahead :
      (s : State) (o : CanonicalObservation)
      → Ahead c s
      → Gives (AheadAfter c) (classify_observation s o)
  unfolding classify_observation
  classify-Ahead s o h = rounds-Ahead 3 s o h
