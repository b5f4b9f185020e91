-- ===== src/Shared/Catalogue.antt =====
-- Choices from the catalogue, dashboard/packages/core/src/index.ts: gpuCompatibilityParameters,
-- matchingVariants, selectedArtifact.
use aippliance_magic_stick.Prelude.{
  Bool, true, false, Option, none, some, List, [], ◌∷◌, String, not, ◌&&◌, if◌then◌else◌, or_else,
  or_option, is_some, find, filter, ◌≡◌, refl, arith,
}
use aippliance_magic_stick.Prelude.Text.{str_eq, same_text, truthy}
use aippliance_magic_stick.Prelude.Result.{Result, ok, err}

pub record GpuCompatibilityProfile : Type 0 where
  pub id : String
  pub experimental : Bool

pub data ProfileError : Type 0 where
  unavailable unacknowledged : ProfileError

-- `{compatibilityProfile, allowExperimental}`
pub record Parameters : Type 0 where
  pub compatibility_profile : String
  pub allow_experimental : Bool

abbrev is_experimental : Option GpuCompatibilityProfile → Bool
is_experimental none = false
is_experimental (some profile) = profile.experimental

unfoldable pub gpu_compatibility_parameters :
    String → List GpuCompatibilityProfile → Bool → Result ProfileError Parameters
gpu_compatibility_parameters profile_id profiles acknowledged =
    let profile = find (λ item. str_eq item.id profile_id) profiles in
    if truthy profile_id && not (is_some profile)
    then err ProfileError.unavailable
    else (if is_experimental profile && not acknowledged
        then err ProfileError.unacknowledged
        else ok (record {
          compatibility_profile = profile_id;
          allow_experimental = is_experimental profile && acknowledged;
        }))

pub record ModelArtifact : Type 0 where
  pub id : Option String
  pub url : Option String

pub record ModelVariant : Type 0 where
  pub compute_target : Option String
  pub engine : Option String
  pub default_artifact : Option String
  pub artifacts : Option (List ModelArtifact)

unfoldable pub matching_variants : Option (List ModelVariant) → String → String → List ModelVariant
matching_variants variants engine compute_target =
    filter
      (λ v. same_text v.engine (some engine) && same_text v.compute_target (some compute_target))
      (or_else variants [])

abbrev artifacts_of : Option ModelVariant → List ModelArtifact
artifacts_of none = []
artifacts_of (some v) = or_else v.artifacts []

abbrev default_of : Option ModelVariant → Option String
default_of none = none
default_of (some v) = v.default_artifact

abbrev first : List ModelArtifact → Option ModelArtifact
first [] = none
first (a ∷ artifacts) = some a

unfoldable pub selected_artifact : Option ModelVariant → Option String → Option ModelArtifact
selected_artifact variant id = or_option (find (λ a. same_text a.id id) (artifacts_of variant)) (
    or_option (find (λ a. same_text a.id (default_of variant)) (artifacts_of variant))
      (first (artifacts_of variant)))

-- An accepted profile is one of those on offer, or none is named; the request allows experimental
-- use exactly if the profile is experimental, and then that was acknowledged.
pub gpu_compatibility_parameters-ok :
    (profile_id : String) (profiles : List GpuCompatibilityProfile) (acknowledged : Bool)
    (p : Parameters)
    → gpu_compatibility_parameters profile_id profiles acknowledged ≡ ok p
    → let profile = find (λ item. str_eq item.id profile_id) profiles in
      (truthy profile_id ≡ true → is_some profile ≡ true)
      × (p.allow_experimental ≡ is_experimental profile)
      × (p.allow_experimental ≡ true → acknowledged ≡ true)
unfolding gpu_compatibility_parameters
gpu_compatibility_parameters-ok profile_id profiles acknowledged p h =
    cases (truthy profile_id) (is_some profile) (is_experimental profile) acknowledged h
  where
    profile : Option GpuCompatibilityProfile
    profile = find (λ item. str_eq item.id profile_id) profiles

    cases :
        (t s e a : Bool)
        → (if t && not s
            then err ProfileError.unavailable
            else (if e && not a
                then err ProfileError.unacknowledged
                else ok
                    (record { compatibility_profile = profile_id; allow_experimental = e && a })))
          ≡ ok p
        → (t ≡ true → s ≡ true)
          × (p.allow_experimental ≡ e)
          × (p.allow_experimental ≡ true → a ≡ true)
    cases t s e a h = (ground (arith, h), ground (arith, h), ground (arith, h))

-- With artifacts to choose from one is always selected: the one asked for, if it is there.
pub selected_artifact-some :
    (v : ModelVariant) (a : ModelArtifact) (artifacts : List ModelArtifact) (id : Option String)
    → v.artifacts ≡ some (a ∷ artifacts)
    → (is_some (selected_artifact (some v) id) ≡ true)
      × ((found : ModelArtifact)
          → find (λ x. same_text x.id id) (a ∷ artifacts) ≡ some found
          → selected_artifact (some v) id ≡ some found)
unfolding selected_artifact
selected_artifact-some v a artifacts id h = (
  rw h (
      always (find (λ x. same_text x.id id) (a ∷ artifacts))
        (find (λ x. same_text x.id v.default_artifact) (a ∷ artifacts))),
  λ found f. rw h (rw f refl),
)
  where
    always : (o d : Option ModelArtifact) → is_some (or_option o (or_option d (some a))) ≡ true
    always none none = refl
    always none (some d) = refl
    always (some o) d = refl
