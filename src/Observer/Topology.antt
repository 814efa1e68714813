-- ===== src/Observer/Topology.antt =====
-- Which live output a kernel connector is: `_connector_translations` of
-- .local/lib/monitor-controller/monitor_controller/observer/topology.py, with what it reads of the
-- samples of drm.py and xrandr.py beside it.
use desktop_config.Prelude.{
  Bool, Eq, List, Option, String, [], add, elem, false, find, if◌then◌else◌, is_none, is_some, keep,
  maybe, nat_eq, none, option_eq, some, string_eq, true, ℕ, ◌!=◌, ◌&&◌, ◌==◌, ◌||◌, ◌∷◌,
}
use desktop_config.Model.Observation.{nonempty}

-- `ConnectorKind`
pub data ConnectorKind : Type 0 where
  internal external virtual : ConnectorKind

unfoldable pub ConnectorKind-discrete : Discrete ConnectorKind
ConnectorKind-discrete = hlevel

instance abbrev pub connector_kind_eq : Eq ConnectorKind
connector_kind_eq = record { dec = ConnectorKind-discrete }

-- `ConnectorStatus`
pub data ConnectorStatus : Type 0 where
  connected disconnected unknown : ConnectorStatus

unfoldable pub ConnectorStatus-discrete : Discrete ConnectorStatus
ConnectorStatus-discrete = hlevel

instance abbrev pub connector_status_eq : Eq ConnectorStatus
connector_status_eq = record { dec = ConnectorStatus-discrete }

-- The fields of `DrmConnector` that the correspondence reads; `connector_id` is the value of the
-- identity, if it could be read.
pub record DrmConnector : Type 0 where
  pub kernel_name : String
  pub output_name : String
  pub kind : ConnectorKind
  pub status : ConnectorStatus
  pub connector_id : Option ℕ

-- The fields of a connected `XrandrOutput` that the correspondence reads
pub record XrandrOutput : Type 0 where
  pub name : String
  pub connector_id : Option ℕ

-- `ConnectorTranslation`
pub record ConnectorTranslation : Type 0 where
  pub kernel_connector : String
  pub live_output : String

-- The local variables of `_connector_translations`; the dictionary is its entries in their order.
pub record Correspondence : Type 0 where
  pub translations : List ConnectorTranslation
  pub claimed : List String
  pub inconsistent : Bool

-- `translations[kernel] = live`
unfoldable pub put : List ConnectorTranslation → String → String → List ConnectorTranslation
put [] kernel live = record { kernel_connector = kernel; live_output = live } ∷ []
put (t ∷ ts) kernel live =
    let later = put ts kernel live in
    if t.kernel_connector == kernel
    then record { kernel_connector = kernel; live_output = live } ∷ ts
    else t ∷ later

-- `not connector.connected or connector.kind is ConnectorKind.VIRTUAL`
abbrev pub is_passed_over : DrmConnector → Bool
is_passed_over c = c.status != ConnectorStatus.connected || c.kind == ConnectorKind.virtual

-- `len(same_name) == 1 and (...)`: the outputs of the same name, where one is enough
abbrev pub by_name : DrmConnector → List XrandrOutput → List XrandrOutput
by_name c (o ∷ []) = if is_none c.connector_id || is_none o.connector_id then o ∷ [] else []
by_name c _ = []

-- `matches`
unfoldable pub matches : DrmConnector → List XrandrOutput → List XrandrOutput
matches c outputs =
    let by_id =
      keep (λ (o : XrandrOutput). is_some c.connector_id && o.connector_id == c.connector_id)
        outputs in
    if nonempty by_id
    then by_id
    else by_name c (keep (λ (o : XrandrOutput). o.name == c.output_name) outputs)

-- The claim of one connector on the outputs that match it
unfoldable pub claim : Correspondence → DrmConnector → List XrandrOutput → Correspondence
unfolding put
claim x c (o ∷ []) = if elem o.name x.claimed then record x { inconsistent = true } else record x {
  translations = put x.translations c.kernel_name o.name;
  claimed = add x.claimed o.name;
}
claim x c _ = record x { inconsistent = true }

-- The loop over the connectors
unfoldable pub translate_from :
    Correspondence → List DrmConnector → List XrandrOutput → Correspondence
unfolding claim matches
translate_from x [] outputs = x
translate_from x (c ∷ cs) outputs =
    translate_from (if is_passed_over c then x else claim x c (matches c outputs)) cs outputs

-- `_connector_translations`
unfoldable pub connector_translations :
    List DrmConnector → List XrandrOutput → List ConnectorTranslation × Bool
unfolding translate_from
connector_translations connectors outputs =
    let x =
      translate_from (record { translations = []; claimed = []; inconsistent = false }) connectors
        outputs in
    (x.translations, x.inconsistent)

-- `live_output_for`
unfoldable pub live_output_for : List ConnectorTranslation → String → Option String
live_output_for translations kernel =
    maybe (find (λ (t : ConnectorTranslation). t.kernel_connector == kernel) translations) none
      λ t. some t.live_output
