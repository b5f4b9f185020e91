-- ===== src/Shared/Modules.antt =====
-- Modules that an application requires, dashboard/packages/core/src/index.ts: moduleReady and
-- missingApplicationModules. `toLowerCase` is a parameter.
use aippliance_magic_stick.Prelude.{
  Bool, true, false, Option, none, some, List, [], ◌∷◌, String, not, ◌&&◌, ◌||◌, or_else, or_option,
  filter, all, All, ◌≡◌, refl, ap, arith, ◌⊎◌, inl, inr, Bool-cases,
}
use aippliance_magic_stick.Prelude.Text.{str_eq, str_eq_iff, same_text, truthy}

-- `phase` is `status?.phase`.
pub record ModuleState : Type 0 where
  pub enabled : Option Bool
  pub activation_mode : Option String
  pub phase : Option String

pub record ModuleCatalogEntry : Type 0 where
  pub activation_mode : Option String

abbrev mode_of : Option ModuleCatalogEntry → Option String
mode_of none = none
mode_of (some entry) = entry.activation_mode

module _ (to_lower_case : String → String) where
  unfoldable pub module_ready : Option ModuleState → Option ModuleCatalogEntry → Bool
  module_ready none catalog = false
  module_ready (some state) catalog =
      let phase = to_lower_case (or_else state.phase "") in
      or_else state.enabled false
      && (str_eq phase "ready"
          || same_text (or_option state.activation_mode (mode_of catalog)) (some "static")
            && not (truthy phase))

  -- A definition that is absent, or that names no modules, requires none.
  unfoldable pub missing_application_modules :
      Option (List String)
      → (String → Option ModuleState)
      → (String → Option ModuleCatalogEntry)
      → List String
  missing_application_modules required modules catalog =
      filter (λ id. not (module_ready (modules id) (catalog id))) (or_else required [])

filter-nothing :
    {A : Type 0} (p : A → Bool) (xs : List A)
    → (all p xs ≡ true → filter (λ x. not (p x)) xs ≡ [])
      × (filter (λ x. not (p x)) xs ≡ [] → all p xs ≡ true)
filter-nothing p [] = (λ h. refl, λ h. refl)
filter-nothing p (x ∷ xs) =
    let rest = filter-nothing p xs in
    (λ h. ground (arith, h, rest.0), λ h. ground (arith, h, rest.1))

-- The module has a state in which it is enabled, and its phase, in lower case, is 'ready', or it is
-- activated statically and has no phase.
pub record IsReady (to_lower_case : String → String) (status : Option ModuleState)
    (catalog : Option ModuleCatalogEntry) : Type 0 where
  pub state : ModuleState
  pub found : status ≡ some state
  pub enabled : state.enabled ≡ some true
  pub phase :
      (to_lower_case (or_else state.phase "") ≡ "ready")
      ⊎ ((or_option state.activation_mode (mode_of catalog) ≡ some "static")
          × (to_lower_case (or_else state.phase "") ≡ ""))

enabled_lem : (o : Option Bool) → or_else o false ≡ true → o ≡ some true
enabled_lem none h = cc
enabled_lem (some b) h = ap some h

text_lem : (o : Option String) (s : String) → same_text o (some s) ≡ true → o ≡ some s
text_lem none s h = cc
text_lem (some a) s h = ap some ((str_eq_iff a s).0 h)

phase_lem :
    (to_lower_case : String → String) (phase : String) (mode : Option String)
    → (str_eq phase "ready" || same_text mode (some "static") && not (truthy phase)) ≡ true
    → (phase ≡ "ready") ⊎ ((mode ≡ some "static") × (phase ≡ ""))
phase_lem to_lower_case phase mode h = elim (Bool-cases (str_eq phase "ready")) [
  | inl ready ↦ inl ((str_eq_iff phase "ready").0 ready)
  | inr other ↦ inr (
    text_lem mode "static" (ground (arith, h, other)),
    (str_eq_iff phase "").0 (ground (arith, h, other)),
  )
]

IsReady-module_ready :
    (to_lower_case : String → String) (status : Option ModuleState)
    (catalog : Option ModuleCatalogEntry)
    → module_ready to_lower_case status catalog ≡ true
    → IsReady to_lower_case status catalog
unfolding module_ready
IsReady-module_ready to_lower_case none catalog h = cc
IsReady-module_ready to_lower_case (some state) catalog h = record {
  state = state;
  found = refl;
  enabled = enabled_lem state.enabled (first _ _ h);
  phase =
      phase_lem to_lower_case (to_lower_case (or_else state.phase ""))
        (or_option state.activation_mode (mode_of catalog)) (second _ _ h);
}
  where
    first : (a b : Bool) → a && b ≡ true → a ≡ true
    first a b h = ground (arith, h)

    second : (a b : Bool) → a && b ≡ true → b ≡ true
    second a b h = ground (arith, h)

-- If no module is reported missing, every required module is there and enabled, and is ready or
-- static and without a phase.
pub missing_application_modules-IsReady :
    (to_lower_case : String → String) (required : List String)
    (modules : String → Option ModuleState) (catalog : String → Option ModuleCatalogEntry)
    → missing_application_modules to_lower_case (some required) modules catalog ≡ []
    → All (λ id. IsReady to_lower_case (modules id) (catalog id)) required
unfolding missing_application_modules
missing_application_modules-IsReady to_lower_case required modules catalog h =
    each required
      ((filter-nothing (λ id. module_ready to_lower_case (modules id) (catalog id)) required).1 h)
  where
    each :
        (ids : List String)
        → all (λ id. module_ready to_lower_case (modules id) (catalog id)) ids ≡ true
        → All (λ id. IsReady to_lower_case (modules id) (catalog id)) ids
    each [] k = tt
    each (id ∷ ids) k = (
      IsReady-module_ready to_lower_case (modules id) (catalog id) (ground (arith, k)),
      each ids (ground (arith, k)),
    )
