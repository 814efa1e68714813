-- ===== src/Unplug.antt =====
-- When the reducer believes that the external hardware was unplugged, from `_handle_unplug` of
-- .local/lib/monitor-controller/monitor_controller/reducer.py.
use desktop_config.Prelude.{
  Bool, List, [], any, arith, false, false≢true, inl, inr, leb, none, some, sym, true, ℕ, ◌+◌, ◌∙◌,
  ◌∷◌, ◌≡◌, ◌⊎◌,
}
use desktop_config.Model.Action.{UnplugProof}
use desktop_config.Model.Identity.{event_generation_eq}
use desktop_config.Model.Observation.{CanonicalObservation}
use desktop_config.Model.State.{State}
use desktop_config.Reducer.Classify.{extend_unplug_proof, handle_unplug}
use desktop_config.Reducer.Timing.{unplug_stability_ms}

-- The state after a series of samples without external hardware.
abbrev pub unplug_samples : State → List CanonicalObservation → State
unplug_samples s [] = s
unplug_samples s (o ∷ os) = unplug_samples (handle_unplug s o).0 os

-- A sample that is late enough for a proof that began at a given time.
abbrev pub is_late : ℕ → CanonicalObservation → Bool
is_late first_ms o = leb (first_ms + unplug_stability_ms) o.observed_at_ms

-- What a sample makes of a proof.
extends :
    (s : State) (o : CanonicalObservation) (p : UnplugProof)
    → s.external_intent ≡ true
    → s.unplug_proof ≡ some p
    → (is_late p.first_observed_at_ms o ≡ true)
      ⊎ (((handle_unplug s o).0.external_intent ≡ true)
          × ((handle_unplug s o).0.unplug_proof ≡ some (extend_unplug_proof (some p) o)))
unfolding handle_unplug
extends s o p h q = ground arith

begins :
    (s : State) (o : CanonicalObservation)
    → s.external_intent ≡ true
    → s.unplug_proof ≡ none
    → ((handle_unplug s o).0.external_intent ≡ true)
      × ((handle_unplug s o).0.unplug_proof ≡ some (extend_unplug_proof none o))
unfolding handle_unplug
begins s o h q = ground arith

late_sample :
    (os : List CanonicalObservation) (s : State) (p : UnplugProof)
    → s.external_intent ≡ true
    → s.unplug_proof ≡ some p
    → (unplug_samples s os).external_intent ≡ false
    → any (is_late p.first_observed_at_ms) os ≡ true
late_sample [] s p h q e = absurd (false≢true (sym e ∙ h))
late_sample (o ∷ os) s p h q e = elim (extends s o p h q) [
  | inl late ↦ ground arith
  | inr (i, r) ↦
      let later = late_sample os (handle_unplug s o).0 (extend_unplug_proof (some p) o) i r e in
      ground arith
]

-- The intent to use external hardware is given up only on the evidence of two samples: if a series of
-- samples without external hardware ends it, where no proof had begun, then a sample after the
-- first one was made at least three seconds after the first.
pub unplug_needs_two :
    (s : State) (o : CanonicalObservation) (os : List CanonicalObservation)
    → s.external_intent ≡ true
    → s.unplug_proof ≡ none
    → (unplug_samples s (o ∷ os)).external_intent ≡ false
    → any (is_late o.observed_at_ms) os ≡ true
unplug_needs_two s o os h q e =
    let (i, r) = begins s o h q in
    late_sample os (handle_unplug s o).0 (extend_unplug_proof none o) i r e
