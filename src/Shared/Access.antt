-- ===== src/Shared/Access.antt =====
-- Roles, dashboard/packages/core/src/index.ts: dashboardRole, canMutateRuntime, canAdminister.
use aippliance_magic_stick.Prelude.{
  Bool, true, false, Option, none, some, List, [], ◌∷◌, ◌++◌, String, not, ◌||◌, if◌then◌else◌, ◌≡◌,
  refl, arith,
}
use aippliance_magic_stick.Prelude.Text.{includes}

pub data DashboardRole : Type 0 where
  viewer operator admin : DashboardRole

-- `session?.roles ?? []`
abbrev pub roles_of : Option (List String) → List String
roles_of none = []
roles_of (some roles) = roles

unfoldable pub dashboard_role : Option (List String) → DashboardRole
dashboard_role session =
    if includes (roles_of session) "magicstick-admin"
    then DashboardRole.admin
    else (if includes (roles_of session) "magicstick-operator"
        then DashboardRole.operator
        else DashboardRole.viewer)

abbrev is_viewer : DashboardRole → Bool
is_viewer DashboardRole.viewer = true
is_viewer _ = false

abbrev is_admin : DashboardRole → Bool
is_admin DashboardRole.admin = true
is_admin _ = false

unfoldable pub can_mutate_runtime : Option (List String) → Bool
can_mutate_runtime session = not (is_viewer (dashboard_role session))

unfoldable pub can_administer : Option (List String) → Bool
can_administer session = is_admin (dashboard_role session)

includes-append :
    (xs ys : List String) (s : String) → includes (xs ++ ys) s ≡ (includes xs s || includes ys s)
includes-append [] ys s = refl
includes-append (x ∷ xs) ys s = ground (arith, includes-append xs ys s)

-- Who may administer may mutate, and granting a session more roles never takes either right away.
pub can_administer-append :
    (roles more : List String)
    → (can_administer (some roles) ≡ true → can_mutate_runtime (some roles) ≡ true)
      × (can_administer (some roles) ≡ true → can_administer (some (roles ++ more)) ≡ true)
      × (can_mutate_runtime (some roles) ≡ true → can_mutate_runtime (some (roles ++ more)) ≡ true)
unfolding can_administer can_mutate_runtime dashboard_role
can_administer-append roles more =
    let a = includes-append roles more "magicstick-admin" in
    let o = includes-append roles more "magicstick-operator" in
    (λ h. ground (arith, h), λ h. ground (arith, h, a), λ h. ground (arith, h, a, o))
