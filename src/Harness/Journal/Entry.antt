-- ===== src/Harness/Journal/Entry.antt =====
-- The entries of the journal and the checks on them (journal.ts).
use aippliance_magic_stick.Prelude.{
  ℕ, Bool, true, false, Option, none, some, List, [], ◌∷◌, ◌++◌, String, not, ◌&&◌, ◌||◌, ltb, leb,
  ◌==◌, is_some, length, all, any,
}
use Prim.Native.String
use aippliance_magic_stick.Prelude.Text.{
  str_eq, codes, is_digit, is_lower, strip, truthy, is_run_id, take_text, drop_text,
}
use aippliance_magic_stick.Harness.Errors.{ReasonCode, Stage, Thrown, harness, other}

pub data ResourceKind : Type 0 where
  model app key identity : ResourceKind

pub data EntryState : Type 0 where
  requested owned removed blocked : EntryState

-- The members of `cleanupOperations` that the journal names.
pub data Operation : Type 0 where
  guard lookup remove verify persist : Operation

pub record CleanupFailure : Type 0 where
  pub operation : Operation
  pub reason : ReasonCode
  pub stage : Option Stage

pub record JournalEntry : Type 0 where
  pub kind : ResourceKind
  pub name : String
  pub uid : Option String
  pub state : EntryState
  pub generation : Option ℕ
  pub cleanup_failure : Option CleanupFailure

pub record JournalData : Type 0 where
  pub run_id : String
  pub target_uid : String
  pub prefix : String
  pub entries : List JournalEntry

abbrev first_reason : Option ReasonCode → ReasonCode → ReasonCode
first_reason none code = code
first_reason (some r) code = r

abbrev first_stage : Option Stage → Option Stage → Option Stage
first_stage none s = s
first_stage (some r) s = some r

-- `cleanupFailure(operation, error)`.
unfoldable pub failure_of : Operation → Thrown → CleanupFailure
failure_of operation (harness e) = record {
  operation = operation;
  reason = first_reason e.cause_reason e.code;
  stage = first_stage e.cause_stage e.stage;
}
failure_of operation other = record {
  operation = operation;
  reason = ReasonCode.unexpected;
  stage = none;
}

abbrev pub same_kind : ResourceKind → ResourceKind → Bool
same_kind ResourceKind.model ResourceKind.model = true
same_kind ResourceKind.app ResourceKind.app = true
same_kind ResourceKind.key ResourceKind.key = true
same_kind ResourceKind.identity ResourceKind.identity = true
same_kind _ _ = false

abbrev is_name_char : ℕ → Bool
is_name_char c = is_lower c || is_digit c || c == b'-'

-- `/^[a-z0-9][a-z0-9-]{0,62}$/`
abbrev pub is_resource_name : List ℕ → Bool
is_resource_name [] = false
is_resource_name (c ∷ s) = (is_lower c || is_digit c) && leb (length s) 62 && all is_name_char s

abbrev app_types : List String
app_types = "openclaw" ∷ "hermes" ∷ "paperclip" ∷ "kubeopencode" ∷ "odysseus" ∷ []

abbrev is_app : ResourceKind → Bool
is_app ResourceKind.app = true
is_app _ = false

unfoldable pub owned_journal_name : ResourceKind → String → String → Bool
owned_journal_name kind name prefix =
    is_resource_name (codes name)
    && (is_some (strip (codes prefix) (codes name))
        || is_app kind
          && any (λ type. is_some (strip (codes type ++ (b'-' ∷ codes prefix)) (codes name)))
              app_types)

-- `['model','app'].includes(kind)`
abbrev pub has_generation : ResourceKind → Bool
has_generation ResourceKind.model = true
has_generation ResourceKind.app = true
has_generation _ = false

-- `Number.isSafeInteger(n) && n > 0`
abbrev pub is_generation : ℕ → Bool
is_generation n = ltb 0 n && leb n 9007199254740991

abbrev pub is_state : EntryState → EntryState → Bool
is_state EntryState.requested EntryState.requested = true
is_state EntryState.owned EntryState.owned = true
is_state EntryState.removed EntryState.removed = true
is_state EntryState.blocked EntryState.blocked = true
is_state _ _ = false

abbrev valid_uid : Option String → Bool
valid_uid none = true
valid_uid (some uid) = truthy uid

abbrev valid_generation : Option ℕ → ResourceKind → Option String → Bool
valid_generation none kind uid = true
valid_generation (some n) kind uid = has_generation kind && is_generation n && is_some uid

-- The condition that `resume` puts on one entry, but for the entries seen before it.
unfoldable pub is_valid_entry : String → JournalEntry → Bool
is_valid_entry prefix item =
    owned_journal_name item.kind item.name prefix
    && valid_uid item.uid
    && (not (is_state item.state EntryState.owned) || is_some item.uid)
    && valid_generation item.generation item.kind item.uid
    && (not (is_some item.cleanup_failure) || is_state item.state EntryState.blocked)

-- `item.kind === kind && item.name === name`
unfoldable pub is_named : ResourceKind → String → JournalEntry → Bool
is_named kind name item = same_kind item.kind kind && str_eq item.name name

-- The loop of `resume`: `seen` holds the entries that came before.
unfoldable pub valid_from : String → List JournalEntry → List JournalEntry → Bool
valid_from prefix seen [] = true
valid_from prefix seen (item ∷ items) =
    is_valid_entry prefix item
    && not (any (is_named item.kind item.name) seen)
    && valid_from prefix (item ∷ seen) items

-- `reg-${runId.slice(4, 16)}-`
unfoldable pub run_prefix : String → String
run_prefix run_id = String.◌++◌ "reg-" (String.◌++◌ (take_text 12 (drop_text 4 run_id)) "-")

-- The checks of `resume` on the file's JSON, once it has the shape of a JournalData.
unfoldable pub accepts : String → JournalData → Bool
accepts target_uid j =
    str_eq j.target_uid target_uid
    && is_run_id j.run_id
    && str_eq j.prefix (run_prefix j.run_id)
    && valid_from j.prefix [] j.entries
