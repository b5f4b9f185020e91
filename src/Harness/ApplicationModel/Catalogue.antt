-- ===== src/Harness/ApplicationModel/Catalogue.antt =====
-- The fixtures of the model catalogue, catalogFixtures of
-- dashboard/apps/web/regression/core/input-preparation.ts. `in_order a b` is the parameter
-- `a.localeCompare(b) <= 0`.
use aippliance_magic_stick.Prelude.{
  ℕ, min, Bool, false, Option, none, some, List, [], ◌∷◌, String, ◌&&◌, ◌||◌, not, if◌then◌else◌,
  is_some, or_else, or_option, ltb, leb, ◌==◌, find, filter, map,
}
use aippliance_magic_stick.Prelude.Text.{str_eq, same_text, truthy, includes, codes, strip}
use aippliance_magic_stick.Harness.ApplicationModel.{Fixture}

-- A compute target: its engines, those marked as unavailable, and the cache types by engine.
pub record Capability : Type 0 where
  pub id : String
  pub available : Bool
  pub engines : List String
  pub unavailable : List String
  pub cache_types : String → List String

pub record Artifact : Type 0 where
  pub id : String
  pub url : Option String
  pub memory_required_mi : Option ℕ

-- A variant of a preset; its memory is there where it is a safe integer.
pub record Variant : Type 0 where
  pub engine : String
  pub compute_target : String
  pub model_type : Option String
  pub memory_required_mi : Option ℕ
  pub url : Option String
  pub artifacts : List Artifact
  pub default_artifact : Option String
  pub context_window : Option ℕ

abbrev is_ollama : String → Bool
is_ollama engine = str_eq engine "OLlama"

abbrev scheme : String → String
scheme engine = if is_ollama engine then "ollama://" else "hf://"

abbrev is_candidate : String → String → Variant → Bool
is_candidate engine target v =
    str_eq v.engine engine
    && str_eq v.compute_target target
    && (not (truthy (or_else v.model_type "")) || same_text v.model_type (some "chat"))
    && leb 1024 (or_else v.memory_required_mi 0)
    && leb (or_else v.memory_required_mi 0) (if str_eq target "cpu" then 8192 else 32768)
    && is_some (strip (codes (scheme engine)) (codes (or_else v.url "")))

abbrev offers : String → Option Capability → Bool
offers engine none = false
offers engine (some c) =
    c.available && includes c.engines engine && not (includes c.unavailable engine)

-- The preferred type of the cache for keys and values.
abbrev preferred : String → String → String
preferred engine target =
    if is_ollama engine
    then (if str_eq target "cpu" then "f16" else "q8_0")
    else (if str_eq target "cpu" then "auto" else "fp8")

abbrev has_cache : String → String → Option Capability → Bool
has_cache engine kind none = false
has_cache engine kind (some c) = includes (c.cache_types engine) kind

abbrev artifact_url : Option Artifact → Option String
artifact_url none = none
artifact_url (some a) = a.url

abbrev artifact_memory : Option Artifact → Option ℕ
artifact_memory none = none
artifact_memory (some a) = a.memory_required_mi

abbrev fixture_of : Variant → Fixture
fixture_of v =
    let artifact = find (λ (a : Artifact). same_text (some a.id) v.default_artifact) v.artifacts in
    record {
      url = or_else (or_option (artifact_url artifact) v.url) "";
      memory_required_mi = or_else (or_option (artifact_memory artifact) v.memory_required_mi) 0;
      context_window = min 2048 (or_else v.context_window 1024);
    }

module _ (in_order : String → String → Bool) where
  -- The order of the sort, by memory and then by URL; equal variants stay in their order.
  abbrev not_after : Variant → Variant → Bool
  not_after a b =
      let m = or_else a.memory_required_mi 0 in
      let n = or_else b.memory_required_mi 0 in
      ltb m n || m == n && in_order (or_else a.url "") (or_else b.url "")

  abbrev insert : Variant → List Variant → List Variant
  insert v [] = v ∷ []
  insert v (w ∷ ws) = let rest = insert v ws in if not_after v w then v ∷ w ∷ ws else w ∷ rest

  abbrev sort : List Variant → List Variant
  sort [] = []
  sort (v ∷ vs) = insert v (sort vs)

  -- `catalogFixtures(models, engine, target)`, of the targets and the variants of all presets.
  unfoldable pub catalog_fixtures : List Capability → List Variant → String → String → List Fixture
  catalog_fixtures targets variants engine target =
      let capability = find (λ (c : Capability). str_eq c.id target) targets in
      if offers engine capability && has_cache engine (preferred engine target) capability
      then map fixture_of (sort (filter (is_candidate engine target) variants))
      else []
