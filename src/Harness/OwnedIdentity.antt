-- ===== src/Harness/OwnedIdentity.antt =====
-- The client for disposable local users, dashboard/apps/web/regression/core/owned-identity.ts. The
-- users API, the journal's calls, the random passwords and the receipt of a write are ports.
pub mod Owned
pub mod Tests
use aippliance_magic_stick.Prelude.{
  ℕ, suc, Bool, true, false, Option, none, some, List, [], ◌∷◌, ◌++◌, String, ◌&&◌, ◌||◌, not,
  if◌then◌else◌, is_some, or_else, ltb, leb, ◌==◌, length, filter, any, all,
}
use Prim.Native.String
use aippliance_magic_stick.Prelude.Result.{
  Result, ok, err, Action, pure, throw, gets, lift, modify, try_catch, ◌>>=◌, ◌>>◌,
}
use aippliance_magic_stick.Prelude.Text.{
  str_eq, same_text, truthy, codes, strip, is_lower, is_digit, Labels, lookup, put,
}
use aippliance_magic_stick.Harness.Errors.{ReasonCode, Thrown, of_code, require_safe}
use aippliance_magic_stick.Harness.Journal.Entry.{
  ResourceKind, EntryState, JournalEntry, is_state, same_kind,
}
use aippliance_magic_stick.Harness.Journal.Methods.{Live}

-- The fields of a User that are read. `local` and `is_protected` may be absent.
pub record User : Type 0 where
  pub id : String
  pub username : String
  pub source : Option String
  pub local : Option Bool
  pub enabled : Bool
  pub access_level : String
  pub is_protected : Option Bool

-- `write({method, path, body}, …)` of AdministrationApi, by its request.
pub data Write : Type 0 where
  create_user : (username initial_password access_level : String) → Write
  update_profile : (id email : String) → Write
  set_enabled : (id : String) → Bool → Write
  update_roles : (id access_level : String) → Write
  reset_password : (id password : String) → Write
  delete_user : (id username : String) → Write

-- What a write returns: the user, or the status of an AdministrationRejected,
-- which the source throws.
pub data Written : Type 0 where
  done : User → Written
  rejected : ℕ → Written

pub record Ports (W : Type 0) : Type 0 where
  pub users : String → Action Thrown W (List User)
  pub write : Write → Action Thrown W Written
  pub requested : String → Action Thrown W (Unit {0})
  pub owned : String → String → Action Thrown W (Unit {0})
  pub reject : String → Action Thrown W (Unit {0})
  pub random : Action Thrown W String
  pub prefix : String

-- `ids`, and the world.
pub record Cell (W : Type 0) : Type 0 where
  pub ids : Labels
  pub world : W

abbrev is_false : Option Bool → Bool
is_false none = false
is_false (some b) = not b

abbrev is_true : Option Bool → Bool
is_true none = false
is_true (some b) = b

-- `ownedLocalIdentity(user)`
unfoldable pub owned_local_identity : User → Bool
owned_local_identity user = same_text user.source (some "local") && not (is_false user.local)

abbrev is_name_char : ℕ → Bool
is_name_char c = is_lower c || is_digit c || c == b'-'

-- `/^[a-z0-9-]{1,63}$/`
abbrev pub is_username : String → Bool
is_username s = let cs = codes s in ltb 0 (length cs) && leb (length cs) 63 && all is_name_char cs

abbrev is_rejection : ℕ → Bool
is_rejection s = any (λ k. k == s) (400 ∷ 403 ∷ 409 ∷ 422 ∷ [])

abbrev named : String → List User → List User
named username users = filter (λ (u : User). str_eq u.username username) users

abbrev pub is_empty : List User → Bool
is_empty [] = true
is_empty (u ∷ us) = false

-- The ids that a resumed run takes over.
abbrev pub takes_over : JournalEntry → Bool
takes_over e =
    same_kind e.kind ResourceKind.identity
    && truthy (or_else e.uid "")
    && (is_state e.state EntryState.owned || is_state e.state EntryState.blocked)

unfoldable pub resumed_ids : Labels → List JournalEntry → Labels
resumed_ids ids [] = ids
resumed_ids ids (e ∷ es) =
    resumed_ids (if takes_over e then put ids e.name (or_else e.uid "") else ids) es

module _ {W : Type 0} (ports : Ports W) where
  abbrev pub world : {A : Type 0} → Action Thrown W A → Action Thrown (Cell W) A
  world m c = ((m c.world).0, record c { world = (m c.world).1 })

  abbrev set_id : String → String → Action Thrown (Cell W) (Unit {0})
  set_id username id = modify (λ c. record c { ids = put c.ids username id })

  -- What a create ends with: the error of a definite rejection, with the journal told if no such
  -- user is there, or the user with the two passwords.
  abbrev reject_if : String → Bool → Bool → Action Thrown (Cell W) (Unit {0})
  reject_if username true true = world (ports.reject username)
  reject_if username true false = pure tt
  reject_if username false b = pure tt

  abbrev created :
      String → String → String → String → Written → Action Thrown (Cell W) (User × String × String)
  created username level initial password (rejected status) =
      (if is_rejection status then world (ports.users username) else pure []) >>= λ users.
      reject_if username (is_rejection status) (is_empty (named username users))
      >> throw (of_code ReasonCode.api)
  created username level initial password (done user) = do
    require_safe (truthy user.id && str_eq user.username username) ReasonCode.ownership
    set_id username user.id
    world (ports.owned username user.id)
    require_safe (owned_local_identity user && user.enabled && str_eq user.access_level level)
        ReasonCode.api
    pure (user, initial, password)

  -- `create(suffix, accessLevel)`
  unfoldable pub create : String → String → Action Thrown (Cell W) (User × String × String)
  unfolding owned_local_identity
  create suffix level = do
    let username = String.◌++◌ ports.prefix suffix
    require_safe (is_some (strip (codes ports.prefix) (codes username)) && is_username username)
        ReasonCode.ownership
    before ← world (ports.users username)
    require_safe (is_empty (named username before)) ReasonCode.ownership
    world (ports.requested username)
    initial ← world ports.random
    password ← world ports.random
    written ← world (ports.write (create_user username initial level))
    created username level initial password written

  abbrev pub only_user : List User → String → Option User
  only_user (u ∷ []) id = if str_eq u.id id then some u else none
  only_user _ id = none

  abbrev pub exactly : Option User → Result Thrown User
  exactly none = err (of_code ReasonCode.ownership)
  exactly (some u) = ok u

  -- `current(user)`
  unfoldable pub current : User → Action Thrown (Cell W) User
  current user = do
    ids ← gets (λ (c : Cell W). c.ids)
    require_safe (same_text (lookup ids user.username) (some user.id)) ReasonCode.ownership
    users ← world (ports.users user.username)
    lift (exactly (only_user (named user.username users) user.id))

  -- A write whose rejection is thrown on.
  abbrev pub accepted : Written → Result Thrown User
  accepted (done u) = ok u
  accepted (rejected status) = err (of_code ReasonCode.api)

  abbrev pub wrote : Write → Action Thrown (Cell W) User
  wrote w = world (ports.write w) >>= λ r. lift (accepted r)

  -- `profile`, `enabled`, `roles` and `reset`.
  unfoldable pub profile : User → Action Thrown (Cell W) User
  profile user = do
    _ ← current user
    wrote (update_profile user.id (String.◌++◌ user.username "@example.invalid"))

  unfoldable pub enabled : User → Bool → Action Thrown (Cell W) User
  enabled user on = do _ ← current user; wrote (set_enabled user.id on)

  unfoldable pub roles : User → String → Action Thrown (Cell W) User
  roles user level = do _ ← current user; wrote (update_roles user.id level)

  unfoldable pub reset : User → Action Thrown (Cell W) String
  reset user = do
    _ ← current user
    password ← world ports.random
    _ ← wrote (reset_password user.id password)
    pure password

  abbrev pub is_ours : JournalEntry → List User → Bool
  is_ours entry [] = true
  is_ours entry (u ∷ us) =
      same_text entry.uid (some u.id) && owned_local_identity u && not (is_true u.is_protected)

  abbrev live_of : List User → Option Live
  live_of [] = none
  live_of (u ∷ us) = some (record { uid = u.id; generation = none })

  -- `adapter()`: lookup, removeIfUid and verifyRemoved.
  unfoldable pub lookup_user : JournalEntry → Action Thrown (Cell W) (Option Live)
  unfolding owned_local_identity
  lookup_user entry = do
    require_safe
        (same_kind entry.kind ResourceKind.identity
          && is_some (strip (codes ports.prefix) (codes entry.name)))
        ReasonCode.ownership
    users ← world (ports.users entry.name)
    require_safe (leb (length (named entry.name users)) 1) ReasonCode.ownership
    require_safe (is_ours entry (named entry.name users)) ReasonCode.ownership
    pure (live_of (named entry.name users))

  unfoldable pub remove_if_uid : JournalEntry → String → Action Thrown (Cell W) (Unit {0})
  remove_if_uid entry uid = do
    ids ← gets (λ (c : Cell W). c.ids)
    require_safe (same_text entry.uid (some uid) && same_text (lookup ids entry.name) (some uid))
        ReasonCode.ownership
    wrote (delete_user uid entry.name) >> pure tt

  unfoldable pub verify_removed : JournalEntry → Action Thrown (Cell W) Bool
  verify_removed entry = do
    users ← world (ports.users entry.name)
    pure (
        not (
          any (λ (u : User). same_text entry.uid (some u.id) || str_eq u.username entry.name)
            users))
