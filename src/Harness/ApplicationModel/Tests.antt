-- ===== src/Harness/ApplicationModel/Tests.antt =====
-- Examples for application-model.ts.
use aippliance_magic_stick.Prelude.{ℕ, ◌≤◌, Option, none, some, true, [], ◌∷◌, String, ◌≡◌, refl}
use aippliance_magic_stick.Prelude.Result.{ok, Action}
use aippliance_magic_stick.Prelude.Keeps.{Returns}
use aippliance_magic_stick.Harness.Errors.{Thrown, at_stage}
use aippliance_magic_stick.Harness.ApplicationModel.{
  tokens, Definition, Device, Fixture, MemoryEstimate, application_contexts, capacity, choose,
  application_model, application_edit_context,
}
use aippliance_magic_stick.Harness.ApplicationModel.Catalogue.{
  Capability, Variant, catalog_fixtures,
}
use aippliance_magic_stick.Harness.ApplicationModel.Bounds.{application_model_bounds}

abbrev definition : String → Option Definition
definition s = some (record { minimum_model_context_tokens = some (tokens 8192) })

abbrev device : Device
device = record {
  id = "cpu";
  compute_target = "cpu";
  unreserved_mi = some 9000;
  free_mi = some 7000;
}

abbrev fixture_of : String → ℕ → Fixture
fixture_of url n = record { url = url; memory_required_mi = n; context_window = 2048 }

-- Twice the context needs no more memory here.
abbrev estimate : Fixture → Action Thrown (Unit {0}) MemoryEstimate
estimate f w = (
  ok (record {
    model_max_context = some 32768;
    context_window = f.context_window;
    minimum_mi = some 1000;
    recommended_mi = some 6150;
  }),
  w,
)

-- The first candidate is over the room, the second one is chosen with its rounded budget.
second_is_chosen :
    application_model estimate definition
      ("hermes" ∷ [])
      (device ∷ [])
      (fixture_of "ollama://a" 7100 ∷ fixture_of "ollama://b" 2048 ∷ [])
      tt
    ≡ (ok (record { url = "ollama://b"; memory_required_mi = 6200; context_window = 8448 }), tt)
unfolding application_model application_contexts capacity choose at_stage
second_is_chosen = refl

edit_back : application_edit_context definition ("hermes" ∷ []) 8448 tt ≡ (ok 8192, tt)
unfolding application_edit_context application_contexts
edit_back = refl

application_model_bounds_example :
    Returns
      (λ f _.
        (256 ≤ f.context_window)
        × (f.context_window ≤ 131072)
        × (f.memory_required_mi ≤ capacity (device ∷ []))
        × (f.memory_required_mi ≤ 32768))
      (application_model estimate definition
        ("hermes" ∷ [])
        (device ∷ [])
        (fixture_of "ollama://a" 7100 ∷ fixture_of "ollama://b" 2048 ∷ [])
        tt)
application_model_bounds_example =
    application_model_bounds estimate definition ("hermes" ∷ []) (device ∷ [])
      (fixture_of "ollama://a" 7100 ∷ fixture_of "ollama://b" 2048 ∷ []) tt

abbrev variant_of : String → ℕ → Variant
variant_of url n = record {
  engine = "OLlama";
  compute_target = "cpu";
  model_type = none;
  memory_required_mi = some n;
  url = some url;
  artifacts = [];
  default_artifact = none;
  context_window = some 4096;
}

abbrev cpu : Capability
cpu = record {
  id = "cpu";
  available = true;
  engines = "OLlama" ∷ [];
  unavailable = [];
  cache_types = λ engine. "f16" ∷ [];
}

-- The smaller one first; the one over 8192 Mi is left out.
fixtures_in_order :
    catalog_fixtures
      (λ a b. true)
      (cpu ∷ [])
      (variant_of "ollama://b" 3000
        ∷ variant_of "ollama://c" 9000
        ∷ variant_of "ollama://a" 2048
        ∷ [])
      "OLlama"
      "cpu"
    ≡ fixture_of "ollama://a" 2048 ∷ fixture_of "ollama://b" 3000 ∷ []
unfolding catalog_fixtures
fixtures_in_order = refl
