-- ===== src/Shared/ModelName.antt =====
-- Model names, dashboard/packages/core/src/index.ts: modelNameError and safeModelName. A text is the
-- list of its UTF-16 code units, as the source counts and slices it.
pub mod Safe
use aippliance_magic_stick.Prelude.{
  ℕ, zero, suc, Bool, true, false, Option, none, some, List, [], ◌∷◌, not, ◌&&◌, ◌||◌, leb, ltb,
  ◌==◌, if◌then◌else◌, or_else, all, any, length,
}
use aippliance_magic_stick.Prelude.Text.{codes, strip, is_digit, is_lower}

abbrev pub Text : Type 0
Text = List ℕ

abbrev pub drop_while : (ℕ → Bool) → Text → Text
drop_while p [] = []
drop_while p (c ∷ s) = let rest = drop_while p s in if p c then rest else c ∷ s

abbrev pub empty : Text → Bool
empty [] = true
empty (c ∷ s) = false

abbrev pub drop_last_while : (ℕ → Bool) → Text → Text
drop_last_while p [] = []
drop_last_while p (c ∷ s) =
    let rest = drop_last_while p s in if empty rest && p c then [] else c ∷ rest

abbrev pub take : ℕ → Text → Text
take zero s = []
take (suc n) [] = []
take (suc n) (c ∷ s) = c ∷ take n s

-- What `trim` removes: white space and line terminators.
unfoldable pub is_space : ℕ → Bool
is_space c =
    leb 9 c && leb c 13
    || any (λ d. c == d)
        (32 ∷ 160 ∷ 5760 ∷ 8192 ∷ 8193 ∷ 8194 ∷ 8195 ∷ 8196 ∷ 8197 ∷ 8198 ∷ 8199 ∷ 8200 ∷ 8201
          ∷ 8202 ∷ 8232 ∷ 8233 ∷ 8239 ∷ 8287 ∷ 12288 ∷ 65279 ∷ [])

abbrev pub trim : Text → Text
trim s = drop_last_while is_space (drop_while is_space s)

-- `[a-z0-9]`
abbrev pub is_alnum : ℕ → Bool
is_alnum c = is_lower c || is_digit c

-- `[a-z0-9-]`
abbrev pub is_allowed : ℕ → Bool
is_allowed c = is_alnum c || c == 45

abbrev pub is_dash : ℕ → Bool
is_dash c = c == 45

abbrev pub ends_alnum : ℕ → Text → Bool
ends_alnum c [] = is_alnum c
ends_alnum c (d ∷ s) = ends_alnum d s

-- `/^[a-z0-9](?:[-a-z0-9]*[a-z0-9])?$/.test(s)`
unfoldable pub is_model_name : Text → Bool
is_model_name [] = false
is_model_name (c ∷ s) = is_alnum c && all is_allowed s && ends_alnum c s

abbrev pub same_codes : Text → Text → Bool
same_codes [] [] = true
same_codes (a ∷ s) (b ∷ t) = a == b && same_codes s t
same_codes [] (b ∷ t) = false
same_codes (a ∷ s) [] = false

pub data NameError : Type 0 where
  missing too_long malformed taken : NameError

unfoldable pub model_name_error : Text → List Text → Option NameError
model_name_error value existing =
    let name = trim value in
    if empty name
    then some NameError.missing
    else (if ltb 63 (length name)
        then some NameError.too_long
        else (if not (is_model_name name)
            then some NameError.malformed
            else (if any (λ other. same_codes other name) existing
                then some NameError.taken
                else none)))

abbrev is_letter : ℕ → Bool
is_letter c = is_lower c || leb 65 c && leb c 90

-- Behind the letters of a scheme, the text after `://`.
abbrev after_letters : Text → Option Text
after_letters [] = none
after_letters (c ∷ s) =
    let rest = after_letters s in if is_letter c then rest else strip (codes "://") (c ∷ s)

-- `.replace(/^[a-z]+:\/\//i, '')`
unfoldable pub drop_scheme : Text → Text
drop_scheme [] = []
drop_scheme (c ∷ s) = if is_letter c then or_else (after_letters s) (c ∷ s) else c ∷ s

-- `.split('/').pop()`
unfoldable pub last_part : Text → Text
last_part [] = []
last_part (c ∷ s) =
    let rest = last_part s in if any (λ d. d == 47) s then rest else (if c == 47 then s else c ∷ s)

-- `.replace(/[^a-z0-9-]+/g, '-')`; the flag says that the run before the text is replaced already.
abbrev pub collapse : Bool → Text → Text
collapse replaced [] = []
collapse replaced (c ∷ s) =
    let kept = collapse false s in
    let skipped = collapse true s in
    if is_allowed c then c ∷ kept else (if replaced then skipped else 45 ∷ skipped)

-- The two loops over the dashes, and the bound of 48 between them.
unfoldable pub cut : Text → Text
cut normalized = drop_last_while is_dash (take 48 (drop_while is_dash normalized))

abbrev pub or_model : Text → Text
or_model s = if empty s then codes "model" else s

-- `toLowerCase` is a parameter: nothing depends on what it does.
unfoldable pub safe_model_name : (Text → Text) → Text → Text
safe_model_name to_lower_case reference =
    or_model (cut (collapse false (to_lower_case (last_part (drop_scheme reference)))))
