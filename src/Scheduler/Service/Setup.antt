-- ===== src/Scheduler/Service/Setup.antt =====
-- How a service is made (internal/scheduler/scheduler.go): `SpecsFromConfig`, `NormalizeSpecs` and
-- `NewService`. A number that is not positive in the configuration is 0.
pub mod Valid
use Prim.Native.Nat.{Ordering}
use Prim.Native.String.{compare as compare_text, ◌++◌ as str_append}
use gmeow.Base.{
  ℕ, ◌+◌, ◌*◌, String, Bool, true, false, not, ◌&&◌, ◌||◌, Option, none, some, List, [], ◌∷◌, ◌==◌,
  leb, ltb, map, if◌then◌else◌, ◌⊎◌, inl, inr, str_eq, trim_space,
}
use gmeow.Scheduler.Annotated.{new_lru_cache}
use gmeow.Scheduler.Types.{AnalyzerSpec, Config}
use gmeow.Scheduler.Jobs.{non_empty, contains_string}
use gmeow.Scheduler.Service.{Service}

pub data SetupError : Type 0 where
  store_required : SetupError
  broker_required : SetupError
  name_required : SetupError
  version_required : String → SetupError
  low_water_above_high : ℕ → ℕ → SetupError

unfoldable pub known_media_types : String → List String
known_media_types name =
    if str_eq name "text.extract"
    then "text/plain" ∷ "text/html" ∷ "message/rfc822" ∷ "application/json" ∷ []
    else if str_eq name "rfc822.headers"
    then "message/rfc822" ∷ "text/rfc822-headers" ∷ []
    else []

unfoldable pub with_known_analyzer_constraints : AnalyzerSpec → AnalyzerSpec
with_known_analyzer_constraints spec =
    if non_empty spec.media_types
    then spec
    else record spec { media_types = known_media_types spec.name }

-- `config.AnalyzerConfig`, with the fields that the scheduler reads.
pub record AnalyzerConfig : Type 0 where
  pub name : String
  pub version : String
  pub worker_kind : String
  pub media_types : List String

unfoldable pub spec_from_config : AnalyzerConfig → AnalyzerSpec
spec_from_config analyzer = with_known_analyzer_constraints (record {
  name = analyzer.name;
  version = analyzer.version;
  worker_kind = analyzer.worker_kind;
  media_types = analyzer.media_types;
  content_roles = [];
})

unfoldable pub specs_from_config : List AnalyzerConfig → List AnalyzerSpec
specs_from_config analyzers = map spec_from_config analyzers

-- The key of a spec in the map of those seen.
unfoldable pub spec_key : AnalyzerSpec → String
spec_key spec = str_append spec.name (str_append "\0" spec.version)

unfoldable pub trim_spec : AnalyzerSpec → AnalyzerSpec
trim_spec spec = record spec { name = trim_space spec.name; version = trim_space spec.version }

-- The loop of `NormalizeSpecs`, over the specs left and the keys seen.
unfoldable pub collect_specs : List AnalyzerSpec → List String → SetupError ⊎ List AnalyzerSpec
collect_specs [] seen = inr []
collect_specs (spec ∷ specs) seen =
    let trimmed = trim_spec spec in
    let dropped = collect_specs specs seen in
    let kept = collect_specs specs (spec_key trimmed ∷ seen) in
    if str_eq trimmed.name ""
    then inl name_required
    else if str_eq trimmed.version ""
    then inl (version_required trimmed.name)
    else if contains_string seen (spec_key trimmed)
    then dropped
    else elim kept [ inl e ↦ inl e | inr rest ↦ inr (trimmed ∷ rest) ]

-- `a < b` of two Go strings.
unfoldable pub string_ltb : String → String → Bool
string_ltb a b = elim (compare_text a b) [ Ordering.lt ↦ true | _ ↦ false ]

-- A stable sort by name, as `sort.SliceStable` promises: an insertion sort, from the right.
unfoldable pub insert_by_name : AnalyzerSpec → List AnalyzerSpec → List AnalyzerSpec
insert_by_name spec [] = spec ∷ []
insert_by_name spec (first ∷ specs) =
    let rest = insert_by_name spec specs in
    if string_ltb first.name spec.name then first ∷ rest else spec ∷ (first ∷ specs)

unfoldable pub sort_by_name : List AnalyzerSpec → List AnalyzerSpec
sort_by_name [] = []
sort_by_name (spec ∷ specs) = insert_by_name spec (sort_by_name specs)

unfoldable pub normalize_specs : List AnalyzerSpec → SetupError ⊎ List AnalyzerSpec
normalize_specs specs = elim (collect_specs specs []) [
  | inl e ↦ inl e
  | inr normalized ↦ inr (sort_by_name normalized)
]

-- A value that the configuration leaves out.
abbrev pub or_default : ℕ → ℕ → ℕ
or_default value default_value = if value == 0 then default_value else value

abbrev pub second : ℕ
second = 1_000_000_000

unfoldable pub fill_config : Config → Config
fill_config config = record config {
  scan_interval = or_default config.scan_interval (30 * second);
  retry_backoff = or_default config.retry_backoff (30 * second);
  backpressure_high_water = or_default config.backpressure_high_water 10000;
  backpressure_low_water = or_default config.backpressure_low_water 5000;
  self_heal_chunk_size = or_default config.self_heal_chunk_size 500;
  self_heal_idle_threshold = or_default config.self_heal_idle_threshold (300 * second);
}

-- The service of some specs, with a projector where `WithProjector` gives one.
unfoldable pub make_service : List AnalyzerSpec → Config → Bool → Service
make_service specs config has_projector = record {
  has_projector = has_projector;
  fully_annotated = new_lru_cache (or_default config.fully_annotated_cache_size 100000);
  projection_pending = [];
  sweep_pos = "";
  specs = specs;
  config = fill_config config;
  pressured = false;
  write_seen = false;
  calls = [];
}

-- The check of the two marks.
unfoldable pub check_marks : Bool → List AnalyzerSpec → Config → Bool → SetupError ⊎ Service
check_marks true specs config has_projector = inl (
    low_water_above_high (fill_config config).backpressure_low_water
      (fill_config config).backpressure_high_water)
check_marks false specs config has_projector = inr (make_service specs config has_projector)

-- The part of `NewService` from `NormalizeSpecs` on.
unfoldable pub with_specs : SetupError ⊎ List AnalyzerSpec → Config → Bool → SetupError ⊎ Service
with_specs (inl e) config has_projector = inl e
with_specs (inr specs) config has_projector =
    check_marks
      (leb (fill_config config).backpressure_high_water (fill_config config).backpressure_low_water)
      specs config has_projector

-- `has_store` and `has_broker`: the arguments are not nil.
unfoldable pub new_service : Bool → Bool → List AnalyzerSpec → Config → Bool → SetupError ⊎ Service
new_service false has_broker specs config has_projector = inl store_required
new_service true false specs config has_projector = inl broker_required
new_service true true specs config has_projector =
    with_specs (normalize_specs specs) config has_projector
