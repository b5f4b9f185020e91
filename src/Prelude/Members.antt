-- ===== src/Prelude/Members.antt =====
-- Membership in lists of numbers, and the pigeonhole: a list without repetition whose members are
-- in another is no longer than it, and if it is as long, it has them all.
use Prim.Native.Nat.{ℕ, suc, ◌≤◌}
use mathlib.Core.Path.{◌≡◌}
use mathlib.Core.Logic.{inl, inr}
use mathlib.Core.Bool.{Bool, true, false, ◌||◌}
use mathlib.Core.List.{List, [], ◌∷◌}
use native.Mathlib.Omega.{arith}
use aippliance_magic_stick.Prelude.Tests.{◌==◌, if◌then◌else◌, Bool-cases}
use aippliance_magic_stick.Prelude.Lists.{length, All}

-- `xs.includes(n)` for numbers.
abbrev pub member : ℕ → List ℕ → Bool
member n [] = false
member n (x ∷ xs) = x == n || member n xs

-- `set.add(n)`
unfoldable pub add : ℕ → List ℕ → List ℕ
add n xs = if member n xs then xs else n ∷ xs

-- Without repetition.
abbrev pub Distinct : List ℕ → Type 0
Distinct [] = Unit
Distinct (x ∷ xs) = (member x xs ≡ false) × Distinct xs

abbrev pub Within : List ℕ → List ℕ → Type 0
Within xs ys = All (λ x. member x ys ≡ true) xs

-- The first occurrence is left out.
abbrev without : ℕ → List ℕ → List ℕ
without n [] = []
without n (x ∷ xs) = let rest = without n xs in if x == n then xs else x ∷ rest

length-without :
    (n : ℕ) (ys : List ℕ) → member n ys ≡ true → suc (length (without n ys)) ≡ length ys
length-without n [] h = ground (arith, h)
length-without n (y ∷ ys) h = ground (arith, length-without n ys)

member-without :
    (m n : ℕ) (ys : List ℕ) → (n == m) ≡ false → member m ys ≡ true → member m (without n ys) ≡ true
member-without m n [] d h = h
member-without m n (y ∷ ys) d h = ground (arith, member-without m n ys d)

Within-without :
    (n : ℕ) (xs ys : List ℕ) → member n xs ≡ false → Within xs ys → Within xs (without n ys)
Within-without n [] ys d h = tt
Within-without n (x ∷ xs) ys d h =
    (member-without x n ys (ground (arith, d)) h.0, Within-without n xs ys (ground (arith, d)) h.1)

pub length_le-Within : (xs ys : List ℕ) → Distinct xs → Within xs ys → length xs ≤ length ys
length_le-Within [] ys d h = omega arith
length_le-Within (x ∷ xs) ys d h = omega (
  arith,
  length-without x ys h.0,
  length_le-Within xs (without x ys) d.1 (Within-without x xs ys d.0 h.1),
)

-- With every place taken, nothing of the second list is missing.
pub member-of_full :
    (xs ys : List ℕ) (n : ℕ)
    → Distinct xs
    → Within xs ys
    → length xs ≡ length ys
    → member n ys ≡ true
    → member n xs ≡ true
member-of_full xs ys n d h e m = elim (Bool-cases (member n xs)) [
  | inl p ↦ p
  | inr p ↦ absurd (
      omega (
        arith,
        length-without n ys m,
        length_le-Within xs (without n ys) d (Within-without n xs ys p h),
      ))
]

pub add-Distinct : (n : ℕ) (xs : List ℕ) → Distinct xs → Distinct (add n xs)
unfolding add
add-Distinct n xs d = elim (Bool-cases (member n xs)) [ inl p ↦ rw p d | inr p ↦ rw p (p, d) ]

pub add-Within : (n : ℕ) (xs ys : List ℕ) → member n ys ≡ true → Within xs ys → Within (add n xs) ys
unfolding add
add-Within n xs ys m h = elim (Bool-cases (member n xs)) [ inl p ↦ rw p h | inr p ↦ rw p (m, h) ]
