-- ===== src/Harness/ApplicationModel.antt =====
-- The model for application tests, dashboard/apps/web/regression/core/application-model.ts. It is
-- chosen from the fixtures of the catalogue, which Catalogue lists (input-preparation.ts). Amounts
-- of memory are whole numbers of Mi.
pub mod Catalogue
pub mod Bounds
pub mod Tests
use aippliance_magic_stick.Prelude.{
  ℕ, zero, suc, ◌+◌, ◌*◌, ◌/◌, max, min, Bool, true, false, Option, none, some, List, [], ◌∷◌, ◌++◌,
  String, ◌&&◌, ◌||◌, not, if◌then◌else◌, is_some, or_else, ltb, leb, ◌==◌, length, all, any,
}
use aippliance_magic_stick.Prelude.Result.{Result, ok, err, Action, pure, throw, ◌>>=◌, ◌>>◌}
use aippliance_magic_stick.Prelude.Text.{str_eq}
use aippliance_magic_stick.Harness.Errors.{
  ReasonCode, Stage, Thrown, of_code, require_safe, require_proof, at_stage,
}

abbrev pub context_step : ℕ
context_step = 256

abbrev pub maximum_context : ℕ
maximum_context = 131072

abbrev pub maximum_ram_mi : ℕ
maximum_ram_mi = 32768

-- `minimumModelContextTokens` of an application: a natural number, or something else.
pub data Tokens : Type 0 where
  tokens : ℕ → Tokens
  invalid : Tokens

pub record Definition : Type 0 where
  pub minimum_model_context_tokens : Option Tokens

pub record Contexts : Type 0 where
  pub minimum : ℕ
  pub initial : ℕ

abbrev pub is_context : Tokens → Bool
is_context (tokens n) = leb 256 n && leb n 9007199254740991
is_context invalid = false

abbrev number_of : Tokens → ℕ
number_of (tokens n) = n
number_of invalid = 0

abbrev default_tokens : Option Tokens → Tokens
default_tokens none = tokens 2048
default_tokens (some t) = t

-- The values of the definitions; a type with no definition has none.
abbrev pub values : (String → Option Definition) → List String → List Tokens
values definition [] = []
values definition (t ∷ ts) = value (definition t) ++ values definition ts
  where
    value : Option Definition → List Tokens
    value none = []
    value (some d) = default_tokens d.minimum_model_context_tokens ∷ []

abbrev pub maximum : List Tokens → ℕ
maximum [] = 0
maximum (t ∷ ts) = max (number_of t) (maximum ts)

-- `applicationContexts(modules, types)`
unfoldable pub application_contexts :
    {S : Type 0} → (String → Option Definition) → List String → Action Thrown S Contexts
application_contexts definition types = do
  require_proof (ltb 0 (length types) && all (λ t. is_some (definition t)) types)
      ReasonCode.prerequisite
  require_proof (all is_context (values definition types)) ReasonCode.config
  require_safe (leb (maximum (values definition types) + context_step) maximum_context)
      ReasonCode.application_model
  pure (record {
    minimum = maximum (values definition types);
    initial = maximum (values definition types) + context_step;
  })

-- A compute device; its amounts are there where they are finite numbers.
pub record Device : Type 0 where
  pub id : String
  pub compute_target : String
  pub unreserved_mi : Option ℕ
  pub free_mi : Option ℕ

pub record Fixture : Type 0 where
  pub url : String
  pub memory_required_mi : ℕ
  pub context_window : ℕ

pub record MemoryEstimate : Type 0 where
  pub model_max_context : Option ℕ
  pub context_window : ℕ
  pub minimum_mi : Option ℕ
  pub recommended_mi : Option ℕ

abbrev smaller : Option ℕ → Option ℕ → ℕ
smaller (some a) (some b) = min a b
smaller (some a) none = 0
smaller none b = 0

unfoldable pub capacity : List Device → ℕ
capacity [] = 0
capacity (d ∷ ds) =
    let rest = capacity ds in
    if str_eq d.id "cpu" || str_eq d.compute_target "cpu"
    then max (smaller d.unreserved_mi d.free_mi) rest
    else rest

-- The first fixture of each URL, eight at most.
abbrev known : Fixture → List Fixture → Bool
known f fs = any (λ g. str_eq g.url f.url) fs

abbrev pub distinct : List Fixture → List Fixture → List Fixture
distinct seen [] = []
distinct seen (f ∷ fs) =
    let rest = distinct (f ∷ seen) fs in if known f seen then rest else f ∷ rest

abbrev pub first_of : ℕ → List Fixture → List Fixture
first_of zero fs = []
first_of (suc n) [] = []
first_of (suc n) (f ∷ fs) = f ∷ first_of n fs

abbrev pub reaches : Option ℕ → ℕ → Bool
reaches none initial = false
reaches (some n) initial = leb initial n && leb n 9007199254740991

abbrev pub is_sized : MemoryEstimate → ℕ → Bool
is_sized e initial =
    reaches e.model_max_context initial
    && e.context_window == initial
    && ltb 0 (or_else e.minimum_mi 0)
    && is_some e.recommended_mi
    && leb (or_else e.minimum_mi 0) (or_else e.recommended_mi 0)

-- `Math.ceil(Math.max(a, b) / 100) * 100`
abbrev pub budget_of : ℕ → ℕ → ℕ
budget_of a b = (max a b + 99) / 100 * 100

module _ {W : Type 0} (estimate : Fixture → Action Thrown W MemoryEstimate) where
  abbrev pub accept_if : ℕ → Fixture → ℕ → Action Thrown W Fixture → Bool → Action Thrown W Fixture
  accept_if initial candidate budget next true = next
  accept_if initial candidate budget next false =
      pure (record candidate { context_window = initial; memory_required_mi = budget })

  abbrev pub size : ℕ → ℕ → Fixture → Action Thrown W Fixture → Bool → Action Thrown W Fixture
  size initial room candidate next false = next
  size initial room candidate next true = do
    sized ← estimate (record candidate { context_window = initial })
    require_proof (is_sized sized initial) ReasonCode.api
    accept_if initial candidate
        (budget_of candidate.memory_required_mi (or_else sized.recommended_mi 0)) next
        (ltb (min room maximum_ram_mi)
          (budget_of candidate.memory_required_mi (or_else sized.recommended_mi 0)))

  -- The loop over the candidates.
  unfoldable pub choose : ℕ → ℕ → List Fixture → Action Thrown W Fixture
  choose initial room [] = throw (of_code ReasonCode.application_model)
  choose initial room (candidate ∷ rest) = estimate candidate >>= λ metadata.
      size initial room candidate (choose initial room rest)
        (reaches metadata.model_max_context initial)

  abbrev pub select : ℕ → ℕ → List Fixture → Action Thrown W Fixture
  select initial room fixtures = do
    require_safe (ltb 0 room) ReasonCode.application_model
    choose initial room (first_of 8 (distinct [] fixtures))

  -- `applicationModel(models, modules, types, estimate)`
  unfoldable pub application_model :
      (String → Option Definition)
      → List String
      → List Device
      → List Fixture
      → Action Thrown W Fixture
  application_model definition types devices fixtures = at_stage Stage.model_estimate (
      application_contexts definition types >>= λ contexts.
      select contexts.initial (capacity devices) fixtures)

-- `applicationEditContext(modules, types, current)`
unfoldable pub application_edit_context :
    {S : Type 0} → (String → Option Definition) → List String → ℕ → Action Thrown S ℕ
application_edit_context definition types current = do
  contexts ← application_contexts definition types
  require_proof (current == contexts.minimum || current == contexts.initial) ReasonCode.conflict
  pure (if current == contexts.initial then contexts.minimum else contexts.initial)
