-- ===== src/Model/Observation.antt =====
-- Observed evidence, from .local/lib/monitor-controller/monitor_controller/model.py.
use desktop_config.Prelude.{ℕ, String, List, [], ◌∷◌, Option, Bool, true, false, ◌||◌, ◌==◌}
use desktop_config.Model.Enums.{
  EdidIntegrity, ObservationValidity, ObservationInvalidityReason, RawEvidenceSource, DisplayPower,
  ProfileScope, observation_validity_eq,
}
use desktop_config.Model.Identity.{
  BootId, ObservationGeneration, EventGeneration, ObservationKey, PhysicalToken,
  ConfigurationContentHash, OutputMapping,
}

-- Live output fingerprint.
pub record Fingerprint : Type 0 where
  pub output : String
  pub value : String

-- EDID base identity and extension integrity of a connector.
pub record EdidEvidence : Type 0 where
  pub output : String
  pub integrity : EdidIntegrity
  pub base_hash : Option String

-- Kernel/X connector correspondence.
pub record ConnectorIdentityEvidence : Type 0 where
  pub output : String
  pub kernel_connector : String
  pub kernel_connector_id : ℕ
  pub x_connector_id : Option ℕ

-- A preserved raw observer input.
pub record RawEvidenceReference : Type 0 where
  pub source : RawEvidenceSource
  pub reference : String
  pub sha256 : String

-- An eligible profile.
pub record ProfileMatch : Type 0 where
  pub profile : String
  pub scope : ProfileScope
  pub layout : String
  pub mapping : List OutputMapping
  pub active_outputs : List String
  pub configuration_hashes : List ConfigurationContentHash
  pub planning_configuration_hashes : List ConfigurationContentHash

-- EDID base identity match to a saved profile.
pub record BaseIdentityMatch : Type 0 where
  pub profile : String
  pub output : String

-- A constrained activation probe.
pub record ProbeCandidate : Type 0 where
  pub profile : String
  pub output : String
  pub internal_output : String
  pub preferred_mode : String

-- One hardware/X/profile sample.
pub record CanonicalObservation : Type 0 where
  pub observed_at_ms : ℕ
  pub observation_generation : ObservationGeneration
  pub boot_id : BootId
  pub physical_token : PhysicalToken
  pub begin_event_generation : EventGeneration
  pub end_event_generation : EventGeneration
  pub kernel_connected_outputs : List String
  pub kernel_external_outputs : List String
  pub x_connected_outputs : List String
  pub x_active_outputs : List String
  pub x_external_outputs : List String
  pub connector_identities : List ConnectorIdentityEvidence
  pub live_fingerprints : List Fingerprint
  pub base_identity_profiles : List BaseIdentityMatch
  pub edid_integrity : List EdidEvidence
  pub probe_candidate : Option ProbeCandidate
  pub eligible_profiles : List ProfileMatch
  pub current_profiles : List String
  pub exact_profile : Option String
  pub observation_key : ObservationKey
  pub validity : ObservationValidity
  pub invalidity_reason : Option ObservationInvalidityReason
  pub raw_evidence : List RawEvidenceReference
  pub display_power : DisplayPower

-- `valid`
abbrev pub valid : CanonicalObservation → Bool
valid o = o.validity == ObservationValidity.valid

-- `event_generation`
abbrev pub event_generation : CanonicalObservation → EventGeneration
event_generation o = o.end_event_generation

-- `bool(xs)` of a tuple
abbrev pub nonempty {ℓ} : {A : Type ℓ} → List A → Bool
nonempty [] = false
nonempty (x ∷ xs) = true

-- `has_external_hardware`
abbrev pub has_external_hardware : CanonicalObservation → Bool
has_external_hardware o = nonempty o.kernel_external_outputs || nonempty o.x_external_outputs
