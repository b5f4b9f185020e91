-- ===== src/Harness/Sharing/Methods.antt =====
-- The methods of BorrowedSharing (borrowed-sharing.ts). The source hands the entry objects on and
-- changes them in place: a method here takes the provider of an entry, which names it, and reads
-- its fields where the source does.
use aippliance_magic_stick.Prelude.{
  ℕ, ◌+◌, Bool, true, false, Option, none, some, List, [], ◌∷◌, String, ◌&&◌, not, if◌then◌else◌,
  or_else, ◌==◌, find,
}
use aippliance_magic_stick.Prelude.Result.{Result, ok, err, Action, pure, gets, lift, ◌>>=◌, ◌>>◌}
use aippliance_magic_stick.Prelude.Text.{str_eq, same_text}
use aippliance_magic_stick.Harness.Errors.{ReasonCode, Stage, Thrown, other, require_safe}
use aippliance_magic_stick.Harness.Sharing.Spec.{
  Provider, Mode, AllocationBackend, Spec, Json, GpuSharingRequest, same_spec, is_managed,
  sharing_spec,
}
use aippliance_magic_stick.Harness.Sharing.Entry.{
  EntryState, BorrowedEntry, Identity, SharingData, same_provider, same_mode,
}

-- `GpuSharingState`, as the API reports it.
pub data Backend : Type 0 where
  dra time_slicing other_backend : Backend

pub record SharingState : Type 0 where
  pub provider : Provider
  pub available : Bool
  pub managed : Bool
  pub phase : String
  pub mode : Mode
  pub max_models : ℕ
  pub backend : Backend
  pub node_name : String
  pub node_uid : String
  pub expected_revision : Option String

-- `SharingSnapshot`: the object's metadata and spec, and the state.
pub record SharingSnapshot : Type 0 where
  pub uid : Option String
  pub generation : Option ℕ
  pub resource_version : Option String
  pub spec : Option Spec
  pub state : SharingState

-- How a write went: it was accepted, or the API rejected it with a status, which the source throws
-- as SharingWriteRejected. A write with a lost response throws.
pub data Written : Type 0 where
  accepted : Written
  rejected : ℕ → Written

pub record Ports (W : Type 0) : Type 0 where
  pub read : Provider → Action Thrown W SharingSnapshot
  pub apply : GpuSharingRequest → Action Thrown W Written
  pub assert_held : Action Thrown W (Unit {0})
  pub write_private : SharingData → Action Thrown W (Unit {0})
  pub read_private : Action Thrown W SharingData
  pub on_stage : Stage → W → W

pub record Cell (W : Type 0) : Type 0 where
  pub sharing : SharingData
  pub world : W

-- The assignments to the fields of an entry: `entry.state = ...`, and the three of an accepted
-- write.
pub data Change : Type 0 where
  to_state : EntryState → Change
  advance : ℕ → Spec → Change

abbrev pub changed : Change → BorrowedEntry → BorrowedEntry
changed (to_state s) e = record e { state = s }
changed (advance n spec) e = record e {
  generation = n;
  last_spec = spec;
  state = EntryState.borrowed;
}

abbrev pub update : Provider → Change → List BorrowedEntry → List BorrowedEntry
update p f [] = []
update p f (x ∷ xs) =
    let rest = update p f xs in if same_provider x.provider p then changed f x ∷ xs else x ∷ rest

abbrev pub is_ready : SharingState → Bool
is_ready s = str_eq s.phase "Ready"

abbrev pub is_nvidia : Provider → Bool
is_nvidia Provider.nvidia = true
is_nvidia Provider.amd = false

abbrev pub is_time_slicing : Backend → Bool
is_time_slicing Backend.time_slicing = true
is_time_slicing _ = false

abbrev pub is_dra : Backend → Bool
is_dra Backend.dra = true
is_dra _ = false

abbrev pub is_dra_option : Option AllocationBackend → Bool
is_dra_option (some AllocationBackend.dra) = true
is_dra_option _ = false

abbrev same_flag : Bool → Bool → Bool
same_flag true b = b
same_flag false b = not b

abbrev pub spec_is : Option Spec → Spec → Bool
spec_is none s = false
spec_is (some a) s = same_spec a s

abbrev pub number_is : Option ℕ → ℕ → Bool
number_is none n = false
number_is (some m) n = m == n

abbrev backend_of : SharingState → AllocationBackend
backend_of s = if is_dra s.backend then AllocationBackend.dra else AllocationBackend.device_plugin

module _ {W : Type 0} (js : Json) (ports : Ports W) where
  abbrev pub world : {A : Type 0} → Action Thrown W A → Action Thrown (Cell W) A
  world m c = ((m c.world).0, record c { world = (m c.world).1 })

  unfoldable pub persist : Action Thrown (Cell W) (Unit {0})
  persist c = world (ports.write_private c.sharing) c

  abbrev pub stage_is : Stage → Action Thrown (Cell W) (Unit {0})
  stage_is s c = (ok tt, record c { world = ports.on_stage s c.world })

  -- The entry object; a missing one would be a TypeError.
  abbrev pub found : Option BorrowedEntry → Result Thrown BorrowedEntry
  found none = err other
  found (some e) = ok e

  abbrev pub entry_of : Provider → Action Thrown (Cell W) BorrowedEntry
  entry_of p c = (found (find (λ e. same_provider e.provider p) c.sharing.entries), c)

  abbrev pub store : Provider → Change → Action Thrown (Cell W) (Unit {0})
  store p f c =
      (ok tt, record c { sharing = record c.sharing { entries = update p f c.sharing.entries } })

  abbrev pub same_state : Identity → BorrowedEntry → SharingSnapshot → Bool
  same_state identity e value =
      same_provider value.state.provider e.provider
      && same_flag value.state.managed (is_managed e.last_spec)
      && str_eq value.state.node_name identity.node_name
      && str_eq value.state.node_uid identity.node_uid
      && same_text value.state.expected_revision value.resource_version

  abbrev pub same_object : BorrowedEntry → SharingSnapshot → Bool
  same_object e value =
      same_text value.uid (some e.uid)
      && number_is value.generation e.generation
      && spec_is value.spec e.last_spec

  -- `current(entry)`
  unfoldable pub current : Provider → Action Thrown (Cell W) SharingSnapshot
  current p = do
    e ← entry_of p
    world ports.assert_held
    value ← world (ports.read p)
    require_safe (same_object e value) ReasonCode.conflict
    identity ← gets (λ (c : Cell W). c.sharing.identity)
    require_safe (same_state identity e value) ReasonCode.identity
    pure value

  -- `this.request(state, mode, maxModels)`
  abbrev pub request : Identity → SharingState → Mode → ℕ → GpuSharingRequest
  request identity state mode max_models = record {
    provider = state.provider;
    mode = mode;
    max_models = max_models;
    node_name = identity.node_name;
    node_uid = identity.node_uid;
    expected_revision = state.expected_revision;
    acknowledge_sharing = same_mode mode Mode.shared;
    acknowledge_restart = true;
    allocation_backend = if is_nvidia state.provider then some (backend_of state) else none;
    restore_defaults = none;
  }

  abbrev pub generation_is_next : Option ℕ → ℕ → Bool
  generation_is_next none n = false
  generation_is_next (some m) n = m == n + 1

  abbrev pub is_after : BorrowedEntry → Spec → SharingSnapshot → Bool
  is_after e expected after =
      same_text after.uid (some e.uid)
      && generation_is_next after.generation e.generation
      && spec_is after.spec expected

  abbrev pub after_apply :
      Provider → BorrowedEntry → Spec → Written → Action Thrown (Cell W) Written
  after_apply p e expected (rejected status) = do
    _ ← current p
    store p (to_state EntryState.borrowed)
    persist
    pure (rejected status)
  after_apply p e expected accepted = do
    after ← world (ports.read p)
    require_safe (is_after e expected after) ReasonCode.conflict
    store p (advance (or_else after.generation 0) expected)
    persist
    pure accepted

  abbrev pub write_unless :
      Provider → GpuSharingRequest → BorrowedEntry → Spec → Bool → Action Thrown (Cell W) Written
  write_unless p r e expected true = pure accepted
  write_unless p r e expected false = do
    store p (to_state EntryState.pending)
    persist
    world ports.assert_held
    written ← world (ports.apply r)
    after_apply p e expected written

  -- `write(entry, request)`. A rejected write that is proved to have changed nothing ends with its
  -- status, which the caller throws on or retries.
  unfoldable pub write : Provider → GpuSharingRequest → Action Thrown (Cell W) Written
  write p r = do
    e ← entry_of p
    expected ← lift (sharing_spec js e.last_spec r)
    write_unless p r e expected (same_spec expected e.last_spec)
