-- ===== src/Shared/ModelName/Safe.antt =====
-- safeModelName (index.ts) returns a name that modelNameError accepts.
use aippliance_magic_stick.Prelude.{
  ℕ, zero, suc, ◌≤◌, Bool, true, false, none, List, [], ◌∷◌, not, ◌&&◌, ◌||◌, ◌==◌, any, ltb,
  if◌then◌else◌, all, length, ◌≡◌, refl, arith,
}
use aippliance_magic_stick.Shared.ModelName.{
  Text, drop_while, drop_last_while, empty, take, trim, is_space, is_allowed, is_dash, ends_alnum,
  is_model_name, model_name_error, drop_scheme, last_part, collapse, cut, or_model, safe_model_name,
}

all-collapse : (r : Bool) (s : Text) → all is_allowed (collapse r s) ≡ true
all-collapse r [] = refl
all-collapse true (c ∷ s) = ground (arith, all-collapse false s, all-collapse true s)
all-collapse false (c ∷ s) = ground (arith, all-collapse false s, all-collapse true s)

module _ (p q : ℕ → Bool) where
  all-drop_while : (s : Text) → all q s ≡ true → all q (drop_while p s) ≡ true
  all-drop_while [] h = refl
  all-drop_while (c ∷ s) h = ground (arith, all-drop_while s)

  all-drop_last_while : (s : Text) → all q s ≡ true → all q (drop_last_while p s) ≡ true
  all-drop_last_while [] h = refl
  all-drop_last_while (c ∷ s) h = ground (arith, all-drop_last_while s)

  all-take : (n : ℕ) (s : Text) → all q s ≡ true → all q (take n s) ≡ true
  all-take zero s h = refl
  all-take (suc n) [] h = refl
  all-take (suc n) (c ∷ s) h = ground (arith, all-take n s)

length-take : (n : ℕ) (s : Text) → length (take n s) ≤ n
length-take zero s = omega arith
length-take (suc n) [] = omega arith
length-take (suc n) (c ∷ s) = omega (arith, length-take n s)

length-drop_last_while : (p : ℕ → Bool) (s : Text) → length (drop_last_while p s) ≤ length s
length-drop_last_while p [] = omega arith
length-drop_last_while p (c ∷ s) = ground (arith, length-drop_last_while p s)

-- A text that does not begin with a character of the class.
abbrev starts : (ℕ → Bool) → Text → Bool
starts p [] = true
starts p (c ∷ s) = not (p c)

module _ (p : ℕ → Bool) where
  starts-drop_while : (s : Text) → starts p (drop_while p s) ≡ true
  starts-drop_while [] = refl
  starts-drop_while (c ∷ s) = ground (arith, starts-drop_while s)

  starts-take : (n : ℕ) (s : Text) → starts p s ≡ true → starts p (take n s) ≡ true
  starts-take zero s h = refl
  starts-take (suc n) [] h = refl
  starts-take (suc n) (c ∷ s) h = h

  starts-drop_last_while :
      (q : ℕ → Bool) (s : Text) → starts p s ≡ true → starts p (drop_last_while q s) ≡ true
  starts-drop_last_while q [] h = refl
  starts-drop_last_while q (c ∷ s) h = ground arith

  -- Nothing to drop.
  drop_while-of_none : (s : Text) → starts p s ≡ true → drop_while p s ≡ s
  drop_while-of_none [] h = refl
  drop_while-of_none (c ∷ s) h = ground arith

  drop_last_while-of_none : (s : Text) → all (λ c. not (p c)) s ≡ true → drop_last_while p s ≡ s
  drop_last_while-of_none [] h = refl
  drop_last_while-of_none (c ∷ s) h = ground (arith, drop_last_while-of_none s)

-- A text that does not end with a dash.
abbrev finishes : Text → Bool
finishes [] = true
finishes (c ∷ []) = not (is_dash c)
finishes (c ∷ d ∷ s) = finishes (d ∷ s)

finishes-drop_last_while : (s : Text) → finishes (drop_last_while is_dash s) ≡ true
finishes-drop_last_while [] = refl
finishes-drop_last_while (c ∷ s) = in_front (drop_last_while is_dash s) (finishes-drop_last_while s)
  where
    in_front :
        (rest : Text)
        → finishes rest ≡ true
        → finishes (if empty rest && is_dash c then [] else c ∷ rest) ≡ true
    in_front [] h = ground arith
    in_front (d ∷ rest) h = h

ends_alnum_lem :
    (c : ℕ) (s : Text)
    → all is_allowed (c ∷ s) ≡ true
    → finishes (c ∷ s) ≡ true
    → ends_alnum c s ≡ true
ends_alnum_lem c [] a f = ground arith
ends_alnum_lem c (d ∷ s) a f = ends_alnum_lem d s (ground (arith, a)) f

is_model_name_lem :
    (s : Text)
    → all is_allowed s ≡ true
    → starts is_dash s ≡ true
    → finishes s ≡ true
    → empty s ≡ false
    → is_model_name s ≡ true
unfolding is_model_name
is_model_name_lem [] a b f e = absurd (ground (arith, e))
is_model_name_lem (c ∷ s) a b f e = ground (arith, ends_alnum_lem c s a f)

-- No member of a list is outside all of its members' common bounds.
apart :
    (c : ℕ) (ds : List ℕ)
    → all (λ d. ltb d 45 || ltb 122 d) ds ≡ true
    → 45 ≤ c
    → c ≤ 122
    → any (λ d. c == d) ds ≡ false
apart c [] h l u = refl
apart c (d ∷ ds) h l u = ground (arith, apart c ds)

is_space-of_bounds : (c : ℕ) → 45 ≤ c → c ≤ 122 → is_space c ≡ false
unfolding is_space
is_space-of_bounds c l u = rw (apart c _ refl l u) (ground arith)

allowed_bounds : (c : ℕ) → is_allowed c ≡ true → (45 ≤ c) × (c ≤ 122)
allowed_bounds c h = (ground arith, ground arith)

no_space : (s : Text) → all is_allowed s ≡ true → all (λ c. not (is_space c)) s ≡ true
no_space [] h = refl
no_space (c ∷ s) h =
    let bounds = allowed_bounds c (first (is_allowed c) (all is_allowed s) h) in
    rw (is_space-of_bounds c bounds.0 bounds.1)
      (no_space s (second (is_allowed c) (all is_allowed s) h))
  where
    first : (a b : Bool) → a && b ≡ true → a ≡ true
    first a b h = ground (arith, h)

    second : (a b : Bool) → a && b ≡ true → b ≡ true
    second a b h = ground (arith, h)

starts_plain : (s : Text) → all (λ c. not (is_space c)) s ≡ true → starts is_space s ≡ true
starts_plain [] h = refl
starts_plain (c ∷ s) h = ground arith

trim-of_allowed : (s : Text) → all is_allowed s ≡ true → trim s ≡ s
trim-of_allowed s h =
    rw (drop_while-of_none is_space s (starts_plain s (no_space s h)))
      (drop_last_while-of_none is_space s (no_space s h))

accepted :
    (s : Text)
    → all is_allowed s ≡ true
    → is_model_name s ≡ true
    → ltb 63 (length s) ≡ false
    → empty s ≡ false
    → model_name_error s [] ≡ none
unfolding model_name_error
accepted s a n l e = rw (trim-of_allowed s a) (rw (e, l, n) refl)

length-cut : (s : Text) → ltb 63 (length (cut s)) ≡ false
unfolding cut
length-cut s = ground (
  arith,
  length-drop_last_while is_dash (take 48 (drop_while is_dash s)),
  length-take 48 (drop_while is_dash s),
)

or_model_lem :
    (s : Text)
    → all is_allowed s ≡ true
    → starts is_dash s ≡ true
    → finishes s ≡ true
    → ltb 63 (length s) ≡ false
    → model_name_error (or_model s) [] ≡ none
unfolding model_name_error is_model_name is_space
or_model_lem [] a b f l = refl
or_model_lem (c ∷ s) a b f l = accepted (c ∷ s) a (is_model_name_lem (c ∷ s) a b f refl) l refl

-- Whatever the model reference and whatever `toLowerCase` returns, the name that safeModelName
-- derives is one that modelNameError accepts while no other model has it.
pub safe_model_name-accepted :
    (to_lower_case : Text → Text) (reference : Text)
    → model_name_error (safe_model_name to_lower_case reference) [] ≡ none
unfolding safe_model_name cut
safe_model_name-accepted to_lower_case reference =
    let normalized = collapse false (to_lower_case (last_part (drop_scheme reference))) in
    let trimmed = drop_while is_dash normalized in
    or_model_lem (cut normalized)
      (all-drop_last_while is_dash is_allowed (take 48 trimmed) (
        all-take is_dash is_allowed 48 trimmed (
          all-drop_while is_dash is_allowed normalized
            (all-collapse false (to_lower_case (last_part (drop_scheme reference)))))))
      (starts-drop_last_while is_dash is_dash (take 48 trimmed)
        (starts-take is_dash 48 trimmed (starts-drop_while is_dash normalized)))
      (finishes-drop_last_while (take 48 trimmed)) (length-cut normalized)
