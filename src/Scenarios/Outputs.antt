-- ===== src/Scenarios/Outputs.antt =====
-- The theorems on the observer, at small samples.
use desktop_config.Prelude.{
  List, String, String-discrete, [], ambiguous_bijection, err, false, nat_eq, none, ok, refl, some,
  string_eq, ℕ_discrete, ◌↔◌, ◌∷◌, ◌≡◌,
}
use desktop_config.Observer.Bijection.{Candidates, Mapping, unique_bijection}
use desktop_config.Observer.Injective.{Translated, connector_translations-injective}
use desktop_config.Observer.Sole.{IsBijection}
use desktop_config.Observer.Topology.{
  ConnectorKind, ConnectorStatus, DrmConnector, XrandrOutput, connector_translations,
  live_output_for,
}
use desktop_config.Observer.Verdict.{Several, Sole, unique_bijection-decides}

-- The laptop's own output can only be itself; the docked monitor may be on either port.
abbrev two_candidates : List Candidates
two_candidates =
    record { saved_output = "DP-1"; live_outputs = "DP-1" ∷ "DP-2" ∷ [] }
    ∷ record { saved_output = "eDP-1"; live_outputs = "eDP-1" ∷ [] }
    ∷ []

abbrev required_outputs : List String
required_outputs = "eDP-1" ∷ "DP-2" ∷ []

unique_bijection-decides_example :
    ((m : Mapping)
      → (unique_bijection two_candidates required_outputs ≡ ok (some m))
        ↔ Sole (IsBijection two_candidates required_outputs) m)
    × ((unique_bijection two_candidates required_outputs ≡ ok none)
        ↔ ((m : Mapping) → ¬ IsBijection two_candidates required_outputs m))
    × ((unique_bijection two_candidates required_outputs ≡ err ambiguous_bijection)
        ↔ Several (IsBijection two_candidates required_outputs))
unfolding String-discrete
unique_bijection-decides_example =
    unique_bijection-decides two_candidates required_outputs (refl, (refl, tt))

monitor_found :
    unique_bijection two_candidates required_outputs
    ≡ ok (
        some (
          record { saved_output = "eDP-1"; live_output = "eDP-1" }
          ∷ record { saved_output = "DP-1"; live_output = "DP-2" }
          ∷ []))
unfolding unique_bijection String-discrete ℕ_discrete
monitor_found = refl

-- Two monitors, one with a readable identity.
abbrev two_connectors : List DrmConnector
two_connectors =
    record {
      kernel_name = "card0-DP-1";
      output_name = "DP-1";
      kind = ConnectorKind.external;
      status = ConnectorStatus.connected;
      connector_id = some 42;
    }
    ∷ record {
      kernel_name = "card0-eDP-1";
      output_name = "eDP-1";
      kind = ConnectorKind.internal;
      status = ConnectorStatus.connected;
      connector_id = none;
    }
    ∷ []

abbrev two_outputs : List XrandrOutput
two_outputs =
    record { name = "DP-1-1"; connector_id = some 42 }
    ∷ record { name = "eDP-1"; connector_id = none }
    ∷ []

connector_translations-injective_example :
    ((k k' v : String)
      → live_output_for (connector_translations two_connectors two_outputs).0 k ≡ some v
      → live_output_for (connector_translations two_connectors two_outputs).0 k' ≡ some v
      → k ≡ k')
    × ((connector_translations two_connectors two_outputs).1 ≡ false
        → Translated (connector_translations two_connectors two_outputs).0 two_connectors)
connector_translations-injective_example =
    connector_translations-injective two_connectors two_outputs
