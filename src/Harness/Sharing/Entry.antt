-- ===== src/Harness/Sharing/Entry.antt =====
-- The private record of BorrowedSharing (borrowed-sharing.ts) and the check of `resume` on it.
use aippliance_magic_stick.Prelude.{
  ℕ, Bool, true, false, Option, none, some, List, [], ◌∷◌, String, ◌&&◌, not, ltb, leb, length, all,
  any,
}
use aippliance_magic_stick.Prelude.Text.{str_eq}
use aippliance_magic_stick.Harness.Sharing.Spec.{
  Provider, Mode, AllocationBackend, Spec, Presence, GpuSharingDefaults, default_fields,
}

pub data EntryState : Type 0 where
  borrowed pending restored : EntryState

pub record BorrowedEntry : Type 0 where
  pub provider : Provider
  pub uid : String
  pub original_spec : Spec
  pub original_mode : Mode
  pub original_count : ℕ
  pub original_backend : Option AllocationBackend
  pub original_defaults : Option GpuSharingDefaults
  pub generation : ℕ
  pub last_spec : Spec
  pub state : EntryState

-- What a run is: the fields of `Omit<Data, 'version' | 'entries'>`.
pub record Identity : Type 0 where
  pub run_id : String
  pub target_uid : String
  pub node_name : String
  pub node_uid : String

pub record SharingData : Type 0 where
  pub identity : Identity
  pub entries : List BorrowedEntry

abbrev pub same_provider : Provider → Provider → Bool
same_provider Provider.amd Provider.amd = true
same_provider Provider.nvidia Provider.nvidia = true
same_provider Provider.amd Provider.nvidia = false
same_provider Provider.nvidia Provider.amd = false

abbrev pub same_mode : Mode → Mode → Bool
same_mode Mode.exclusive Mode.exclusive = true
same_mode Mode.shared Mode.shared = true
same_mode Mode.exclusive Mode.shared = false
same_mode Mode.shared Mode.exclusive = false

abbrev pub is_state : EntryState → EntryState → Bool
is_state EntryState.borrowed EntryState.borrowed = true
is_state EntryState.pending EntryState.pending = true
is_state EntryState.restored EntryState.restored = true
is_state _ _ = false

abbrev same_presence : Presence → Presence → Bool
same_presence Presence.empty Presence.empty = true
same_presence Presence.missing Presence.missing = true
same_presence Presence.empty Presence.missing = false
same_presence Presence.missing Presence.empty = false

abbrev same_presence? : Option Presence → Option Presence → Bool
same_presence? none none = true
same_presence? (some a) (some b) = same_presence a b
same_presence? none (some b) = false
same_presence? (some a) none = false

abbrev same_flag : Bool → Bool → Bool
same_flag true b = b
same_flag false b = not b

abbrev pub same_defaults : GpuSharingDefaults → Option GpuSharingDefaults → Bool
same_defaults a none = false
same_defaults a (some b) =
    same_flag a.has_parameters b.has_parameters
    && same_presence a.gpu_sharing b.gpu_sharing
    && same_presence? a.validation_request b.validation_request

abbrev is_device_plugin : Option AllocationBackend → Bool
is_device_plugin (some AllocationBackend.device_plugin) = true
is_device_plugin _ = false

-- `Number.isSafeInteger(n) && n > 0`, and the bounds on the number of models.
abbrev pub is_generation : ℕ → Bool
is_generation n = ltb 0 n && leb n 9007199254740991

abbrev pub is_count : ℕ → Bool
is_count n = leb 2 n && leb n 16

abbrev pub defaults_fit : Option GpuSharingDefaults → BorrowedEntry → Bool
defaults_fit none e = true
defaults_fit (some d) e =
    same_mode e.original_mode Mode.exclusive
    && is_device_plugin e.original_backend
    && same_defaults d (default_fields e.original_spec e.provider)

-- The condition that `resume` puts on one entry.
unfoldable pub is_valid_entry : BorrowedEntry → Bool
is_valid_entry e =
    is_generation e.generation && is_count e.original_count && defaults_fit e.original_defaults e

-- `new Set(providers).size === entries.length`
abbrev pub has_provider : Provider → List BorrowedEntry → Bool
has_provider p es = any (λ e. same_provider e.provider p) es

abbrev pub distinct : List BorrowedEntry → Bool
distinct [] = true
distinct (e ∷ es) = not (has_provider e.provider es) && distinct es

abbrev same_identity : Identity → Identity → Bool
same_identity a b =
    str_eq a.run_id b.run_id
    && str_eq a.target_uid b.target_uid
    && str_eq a.node_name b.node_name
    && str_eq a.node_uid b.node_uid

unfoldable pub resumes : Identity → SharingData → Bool
resumes identity d =
    same_identity d.identity identity
    && leb (length d.entries) 2
    && distinct d.entries
    && all is_valid_entry d.entries
