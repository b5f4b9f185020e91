-- ===== src/Harness/ApplicationModel/Bounds.antt =====
-- The bounds on the model that application-model.ts chooses, and the switch between two contexts.
use aippliance_magic_stick.Prelude.{
  ℕ, ◌+◌, ◌≤◌, min, Bool, true, false, Option, List, [], ◌∷◌, String, ◌&&◌, is_some, or_else, ltb,
  leb, leb→le, length, all, ◌≡◌, refl, arith,
}
use aippliance_magic_stick.Prelude.Result.{Result, ok, err, Action}
use aippliance_magic_stick.Prelude.Keeps.{Returns, Returns-continue, Returns-handle}
use aippliance_magic_stick.Harness.Errors.{ReasonCode, Stage, Thrown, staged, at_stage}
use aippliance_magic_stick.Harness.Errors.Requires.{Returns-require, Returns-proof}
use aippliance_magic_stick.Harness.ApplicationModel.{
  Definition, Contexts, Device, Fixture, MemoryEstimate, maximum, values, is_context,
  application_contexts, capacity, reaches, is_sized, budget_of, accept_if, size, choose, distinct,
  first_of, application_model,
}

Returns-any : {S A : Type 0} (r : Result Thrown A × S) → Returns (λ _ _. Unit {0}) r
Returns-any (ok a, s) = tt
Returns-any (err e, s) = tt

-- The initial context is one step over the minimum, and not over the limit.
abbrev IsBounded : Contexts → Type 0
IsBounded c = (c.initial ≡ c.minimum + 256) × (c.initial ≤ 131072)

application_contexts-IsBounded :
    {S : Type 0} (definition : String → Option Definition) (types : List String) (s : S)
    → Returns (λ c _. IsBounded c) (application_contexts definition types s)
unfolding application_contexts
application_contexts-IsBounded {S} definition types s =
    Returns-proof (λ c (_ : S). IsBounded c)
      (ltb 0 (length types) && all (λ t. is_some (definition t)) types) ReasonCode.prerequisite _ s
      (λ _.
        Returns-proof (λ c (_ : S). IsBounded c) (all is_context (values definition types))
          ReasonCode.config _ s
          (λ _.
            Returns-require (λ c (_ : S). IsBounded c)
              (leb (maximum (values definition types) + 256) 131072) ReasonCode.application_model _
              s (λ h. (refl, leb→le (maximum (values definition types) + 256) 131072 h))))

-- The fixture has the context asked for, and a budget within the room and the limit.
abbrev pub Fits : ℕ → ℕ → Fixture → Type 0
Fits initial room f =
    (f.context_window ≡ initial) × (f.memory_required_mi ≤ room) × (f.memory_required_mi ≤ 32768)

within : (a b n : ℕ) → ltb (min a b) n ≡ false → (n ≤ a) × (n ≤ b)
within a b n h = (ground arith, ground arith)

module _ {W : Type 0} (estimate : Fixture → Action Thrown W MemoryEstimate) (initial room : ℕ) where
  abbrev Chosen : Fixture → W → Type 0
  Chosen f w = Fits initial room f

  accept_if-Fits :
      (candidate : Fixture) (budget : ℕ) (next : Action Thrown W Fixture) (w : W) (over : Bool)
      → ltb (min room 32768) budget ≡ over
      → Returns Chosen (next w)
      → Returns Chosen (accept_if estimate initial candidate budget next over w)
  accept_if-Fits candidate budget next w true h k = k
  accept_if-Fits candidate budget next w false h k =
      let fits = within room 32768 budget h in (refl, fits.0, fits.1)

  size-Fits :
      (candidate : Fixture) (next : Action Thrown W Fixture) (w : W) (b : Bool)
      → ((v : W) → Returns Chosen (next v))
      → Returns Chosen (size estimate initial room candidate next b w)
  size-Fits candidate next w false k = k w
  size-Fits candidate next w true k =
      Returns-continue (λ _ _. Unit {0}) Chosen _
        (estimate (record candidate { context_window = initial }) w) (Returns-any _)
        (λ sized v _. Returns-proof Chosen (is_sized sized initial) ReasonCode.api _ v (λ _.
          accept_if-Fits candidate
            (budget_of candidate.memory_required_mi (or_else sized.recommended_mi 0)) next v _ refl
            (k v)))

  choose-Fits : (fs : List Fixture) (w : W) → Returns Chosen (choose estimate initial room fs w)
  unfolding choose
  choose-Fits [] w = tt
  choose-Fits (f ∷ fs) w =
      Returns-continue (λ _ _. Unit {0}) Chosen _ (estimate f w) (Returns-any _)
        (λ metadata v _.
          size-Fits f (choose estimate initial room fs) v
            (reaches metadata.model_max_context initial) (choose-Fits fs))

-- When a model for applications is chosen, its context is at least 256 and at most 131072 tokens,
-- and its memory budget is at most the capacity of the CPU devices, the largest of the smaller of
-- their unreserved and free memory, and at most 32768 Mi, whatever the estimates said.
pub application_model_bounds :
    {W : Type 0} (estimate : Fixture → Action Thrown W MemoryEstimate)
    (definition : String → Option Definition) (types : List String) (devices : List Device)
    (fixtures : List Fixture) (w : W)
    → Returns
        (λ f _.
          (256 ≤ f.context_window)
          × (f.context_window ≤ 131072)
          × (f.memory_required_mi ≤ capacity devices)
          × (f.memory_required_mi ≤ 32768))
        (application_model estimate definition types devices fixtures w)
unfolding application_model at_stage
application_model_bounds {W} estimate definition types devices fixtures w =
    let Q = λ (f : Fixture) (v : W).
      (256 ≤ f.context_window)
      × (f.context_window ≤ 131072)
      × (f.memory_required_mi ≤ capacity devices)
      × (f.memory_required_mi ≤ 32768) in
    Returns-handle Q (λ e s. (err (staged Stage.model_estimate e), s)) _
      (Returns-continue (λ c (_ : W). IsBounded c) Q _ (application_contexts definition types w)
        (application_contexts-IsBounded definition types w)
        (λ c v b.
          Returns-require Q (ltb 0 (capacity devices)) ReasonCode.application_model _ v (λ _.
            chosen c b
              (choose estimate c.initial (capacity devices) (first_of 8 (distinct [] fixtures)) v)
              (choose-Fits estimate c.initial (capacity devices) _ v))))
      (λ e s. tt)
  where
    chosen :
        (c : Contexts)
        → IsBounded c
        → (r : Result Thrown Fixture × W)
        → Returns (λ f (_ : W). Fits c.initial (capacity devices) f) r
        → Returns
            (λ f (_ : W).
              (256 ≤ f.context_window)
              × (f.context_window ≤ 131072)
              × (f.memory_required_mi ≤ capacity devices)
              × (f.memory_required_mi ≤ 32768))
            r
    chosen c b (ok f, v) h = (omega arith, omega arith, omega arith, omega arith)
    chosen c b (err e, v) h = tt
