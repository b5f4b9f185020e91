-- ===== src/Harness/OwnedIdentity/Tests.antt =====
-- Examples for owned-identity.ts.
use aippliance_magic_stick.Prelude.{true, none, some, [], ◌∷◌, String, ◌≡◌, refl}
use aippliance_magic_stick.Prelude.Result.{ok, err}
use aippliance_magic_stick.Harness.Errors.{ReasonCode, of_code}
use aippliance_magic_stick.Harness.OwnedIdentity.{User, done, Ports, Cell, create}
use aippliance_magic_stick.Harness.OwnedIdentity.Owned.{roles_to, change, change-of_unknown}

abbrev user_of : String → User
user_of id = record {
  id = id;
  username = "reg-0-user";
  source = some "local";
  local = none;
  enabled = true;
  access_level = "viewer";
  is_protected = none;
}

abbrev server : Ports (Unit {0})
server = record {
  users = λ n w. (ok [], w);
  write = λ r w. (ok (done (user_of "id-1")), w);
  requested = λ n w. (ok tt, w);
  owned = λ n id w. (ok tt, w);
  reject = λ n w. (ok tt, w);
  random = λ w. (ok "random", w);
  prefix = "reg-0-";
}

abbrev empty : Cell (Unit {0})
empty = record { ids = []; world = tt }

-- The acknowledged id is recorded under the name.
create_records : create server "user" "viewer" empty ≡ (
  ok (user_of "id-1", "random", "random"),
  record { ids = ("reg-0-user", "id-1") ∷ []; world = tt },
)
unfolding create
create_records = refl

change-of_unknown_example :
    change server
      (roles_to "admin")
      (user_of "id-2")
      (record { ids = ("reg-0-user", "id-1") ∷ []; world = tt })
    ≡ (err (of_code ReasonCode.ownership), record { ids = ("reg-0-user", "id-1") ∷ []; world = tt })
change-of_unknown_example =
    change-of_unknown server (roles_to "admin") (user_of "id-2")
      (record { ids = ("reg-0-user", "id-1") ∷ []; world = tt }) refl
