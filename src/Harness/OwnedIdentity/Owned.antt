-- ===== src/Harness/OwnedIdentity/Owned.antt =====
-- The client for users (owned-identity.ts) changes only users whose id it has recorded.
use aippliance_magic_stick.Prelude.{Bool, false, some, String, ◌≡◌, refl}
use aippliance_magic_stick.Prelude.Result.{err, Action, pure, ◌>>◌}
use aippliance_magic_stick.Prelude.Text.{same_text, lookup}
use aippliance_magic_stick.Harness.Errors.{ReasonCode, Thrown, of_code}
use aippliance_magic_stick.Harness.OwnedIdentity.{
  User, Ports, Cell, current, profile, enabled, roles, reset,
}

-- The methods that change a user.
pub data Change : Type 0 where
  profile_of : Change
  enabled_to : Bool → Change
  roles_to : String → Change
  reset_it : Change

module _ {W : Type 0} (ports : Ports W) where
  abbrev pub change : Change → User → Action Thrown (Cell W) (Unit {0})
  change profile_of user = profile ports user >> pure tt
  change (enabled_to on) user = enabled ports user on >> pure tt
  change (roles_to level) user = roles ports user level >> pure tt
  change reset_it user = reset ports user >> pure tt

  current-of_unknown :
      (user : User) (c : Cell W)
      → same_text (lookup c.ids user.username) (some user.id) ≡ false
      → current ports user c ≡ (err (of_code ReasonCode.ownership), c)
  unfolding current
  current-of_unknown user c h = rw h refl

  -- A change of the profile, the state, the roles or the password of a user whose id is not the one
  -- recorded for the name throws OWNERSHIP, and neither the API is called nor is anything recorded.
  pub change-of_unknown :
      (f : Change) (user : User) (c : Cell W)
      → same_text (lookup c.ids user.username) (some user.id) ≡ false
      → change f user c ≡ (err (of_code ReasonCode.ownership), c)
  unfolding profile enabled roles reset
  change-of_unknown profile_of user c h = rw (current-of_unknown user c h) refl
  change-of_unknown (enabled_to on) user c h = rw (current-of_unknown user c h) refl
  change-of_unknown (roles_to level) user c h = rw (current-of_unknown user c h) refl
  change-of_unknown reset_it user c h = rw (current-of_unknown user c h) refl
