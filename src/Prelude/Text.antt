-- ===== src/Prelude/Text.antt =====
-- Tests on texts. `str_eq` is the source's `===` on strings.
use Prim.Native.Nat.{ℕ, zero, suc}
use Prim.Native.Char.{code}
use Prim.Native.String.{String}
use mathlib.Core.Bool.{Bool, true, false, ◌&&◌, ◌||◌, not}
use mathlib.Core.Option.{Option, none, some}
use mathlib.Core.List.{List, [], ◌∷◌}
use aippliance_magic_stick.Prelude.Tests.{◌==◌, leb, if◌then◌else◌}
use aippliance_magic_stick.Prelude.Lists.{length, all}
unfoldable pub use text.Mathlib.Text.{◌==◌ as str_eq}
pub use text.Mathlib.TextEquality.{eq_iff as str_eq_iff}
pub use text.Mathlib.TextPositions.{eq_refl as str_eq_refl}

-- `xs.includes(s)`
abbrev pub includes : List String → String → Bool
includes [] s = false
includes (x ∷ xs) s = str_eq x s || includes xs s

-- `Boolean(s)`: only the empty text is falsy.
abbrev pub truthy : String → Bool
truthy s = not (str_eq s "")

-- `a === b` where a side may be undefined.
abbrev pub same_text : Option String → Option String → Bool
same_text none none = true
same_text (some a) (some b) = str_eq a b
same_text none (some b) = false
same_text (some a) none = false

-- The code points of a text.
abbrev pub codes : String → List ℕ
codes String.[] = []
codes (String.◌∷◌ c s) = code c ∷ codes s

abbrev pub is_digit : ℕ → Bool
is_digit c = leb b'0' c && leb c b'9'

abbrev pub is_upper : ℕ → Bool
is_upper c = leb b'A' c && leb c b'Z'

abbrev pub is_lower : ℕ → Bool
is_lower c = leb b'a' c && leb c b'z'

-- `[0-9a-f]`
abbrev pub is_hex : ℕ → Bool
is_hex c = is_digit c || leb b'a' c && leb c b'f'

-- `[0-9a-f-]`
abbrev pub is_hex_dash : ℕ → Bool
is_hex_dash c = is_hex c || c == b'-'

-- The rest of a text behind a prefix, if it begins so.
abbrev pub strip : List ℕ → List ℕ → Option (List ℕ)
strip [] s = some s
strip (p ∷ ps) [] = none
strip (p ∷ ps) (c ∷ s) = let rest = strip ps s in if p == c then rest else none

abbrev is_hex_36 : Option (List ℕ) → Bool
is_hex_36 none = false
is_hex_36 (some s) = length s == 36 && all is_hex_dash s

-- `/^reg-[0-9a-f-]{36}$/.test(s)`
unfoldable pub is_run_id : String → Bool
is_run_id s = is_hex_36 (strip (codes "reg-") (codes s))

-- `/^[a-f0-9-]{36}$/.test(s)`
unfoldable pub is_uuid : String → Bool
is_uuid s = is_hex_36 (some (codes s))

-- `/^[a-f0-9]{n}$/.test(s)`
unfoldable pub is_hex_text : ℕ → String → Bool
is_hex_text n s = length (codes s) == n && all is_hex (codes s)

-- `s.slice(n)` and `s.slice(0, n)`, counted in code points.
abbrev pub drop_text : ℕ → String → String
drop_text zero s = s
drop_text (suc n) String.[] = String.[]
drop_text (suc n) (String.◌∷◌ c s) = drop_text n s

abbrev pub take_text : ℕ → String → String
take_text zero s = String.[]
take_text (suc n) String.[] = String.[]
take_text (suc n) (String.◌∷◌ c s) = String.◌∷◌ c (take_text n s)

-- A plain object with text keys, as an association list: `m[k]`, and `{...m, k: v}`.
abbrev pub Labels : Type 0
Labels = List (String × String)

abbrev pub lookup : Labels → String → Option String
lookup [] k = none
lookup ((j, v) ∷ m) k = let rest = lookup m k in if str_eq j k then some v else rest

abbrev pub put : Labels → String → String → Labels
put [] k v = (k, v) ∷ []
put ((j, w) ∷ m) k v = let rest = put m k v in if str_eq j k then (j, v) ∷ m else (j, w) ∷ rest
