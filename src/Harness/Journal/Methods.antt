-- ===== src/Harness/Journal/Methods.antt =====
-- The methods of ResourceJournal (journal.ts) that change one entry, and the recovery plan.
use aippliance_magic_stick.Prelude.{
  ℕ, Bool, true, false, Option, none, some, List, [], ◌∷◌, ◌++◌, String, not, ◌&&◌, ◌||◌, ltb, ◌==◌,
  if◌then◌else◌, is_some, find, any, filter,
}
use aippliance_magic_stick.Prelude.Result.{Result, ok, err, Action, ◌>>◌}
use aippliance_magic_stick.Prelude.Text.{truthy, same_text, is_run_id}
use aippliance_magic_stick.Harness.Errors.{ReasonCode, Thrown, of_code, require_safe}
use aippliance_magic_stick.Harness.Journal.Entry.{
  ResourceKind, EntryState, JournalEntry, JournalData, Operation, owned_journal_name,
  has_generation, is_generation, is_state, is_named, run_prefix,
}

-- What an adapter's `lookup` observes of a live resource.
pub record Live : Type 0 where
  pub uid : String
  pub generation : Option ℕ

pub data NoteState : Type 0 where
  running passed completed failed : NoteState

-- The private file, the CleanupAdapter of each kind, the lease check, and the diagnostic recorder.
pub record Ports (W : Type 0) : Type 0 where
  pub write : JournalData → Action Thrown W (Unit {0})
  pub lookup : JournalEntry → Action Thrown W (Option Live)
  pub remove_if_uid : JournalEntry → String → Action Thrown W (Unit {0})
  pub verify_removed : JournalEntry → Action Thrown W Bool
  pub assert_held : Action Thrown W (Unit {0})
  pub note : JournalEntry → Operation → NoteState → Action Thrown W (Unit {0})

pub record Cell (W : Type 0) : Type 0 where
  pub journal : JournalData
  pub world : W

-- Change the first entry of the kind and name.
unfoldable pub update :
    ResourceKind → String → (JournalEntry → JournalEntry) → List JournalEntry → List JournalEntry
update kind name f [] = []
update kind name f (item ∷ items) =
    let rest = update kind name f items in
    if is_named kind name item then f item ∷ items else item ∷ rest

-- The entry is there and satisfies the test.
abbrev pub entry_is : (JournalEntry → Bool) → Option JournalEntry → Bool
entry_is p none = false
entry_is p (some item) = p item

-- `generation` arguments: undefined, or of a kind that has one and a positive safe integer.
abbrev pub may_have : Option ℕ → ResourceKind → Bool
may_have none kind = true
may_have (some n) kind = has_generation kind && is_generation n

abbrev set_generation : Option ℕ → Option ℕ → Option ℕ
set_generation none old = old
set_generation (some n) old = some n

abbrev same_generation : Option ℕ → ℕ → Bool
same_generation none n = false
same_generation (some m) n = m == n

-- The changes that the methods make to an entry.
abbrev pub to_owned : String → Option ℕ → JournalEntry → JournalEntry
to_owned uid generation item = record item {
  uid = some uid;
  state = EntryState.owned;
  generation = set_generation generation item.generation;
}

abbrev pub to_removed : JournalEntry → JournalEntry
to_removed item = record item { state = EntryState.removed }

abbrev pub to_absent : JournalEntry → JournalEntry
to_absent item = record item { state = EntryState.removed; cleanup_failure = none }

abbrev pub to_generation : ℕ → JournalEntry → JournalEntry
to_generation n item = record item { generation = some n }

abbrev pub new_entry : ResourceKind → String → JournalEntry
new_entry kind name = record {
  kind = kind;
  name = name;
  uid = none;
  state = EntryState.requested;
  generation = none;
  cleanup_failure = none;
}

-- The guards of the methods, on the entry that `find` returns.
abbrev pub may_own : String → Option ℕ → ResourceKind → JournalEntry → Bool
may_own uid generation kind item =
    is_state item.state EntryState.requested && truthy uid && may_have generation kind

abbrev pub may_reject : JournalEntry → Bool
may_reject item = is_state item.state EntryState.requested && not (is_some item.uid)

abbrev pub may_be_absent : JournalEntry → Bool
may_be_absent item =
    (is_state item.state EntryState.requested || is_state item.state EntryState.blocked)
    && not (is_some item.uid)

abbrev pub may_advance : String → ℕ → ℕ → JournalEntry → Bool
may_advance uid previous next item =
    is_state item.state EntryState.owned
    && same_text item.uid (some uid)
    && same_generation item.generation previous
    && (is_generation next && ltb previous next)

module _ {W : Type 0} (ports : Ports W) where
  open ports use {write}

  abbrev pub persist : Action Thrown (Cell W) (Unit {0})
  persist c = let (r, w) = write c.journal c.world in (r, record c { world = w })

  abbrev pub set_entries :
      (List JournalEntry → List JournalEntry) → Action Thrown (Cell W) (Unit {0})
  set_entries f c =
      (ok tt, record c { journal = record (c.journal) { entries = f c.journal.entries } })

  -- The common shape of the methods: find the entry, check it, change it, persist.
  abbrev pub change :
      ResourceKind
      → String
      → (JournalEntry → Bool)
      → (JournalEntry → JournalEntry)
      → Action Thrown (Cell W) (Unit {0})
  change kind name test f c =
      (do
        require_safe (entry_is test (find (is_named kind name) c.journal.entries))
            ReasonCode.ownership
        set_entries (update kind name f)
        persist)
        c

  unfoldable pub requested : ResourceKind → String → Action Thrown (Cell W) (Unit {0})
  requested kind name c =
      (do
        require_safe
            (owned_journal_name kind name c.journal.prefix
              && not (any (is_named kind name) c.journal.entries))
            ReasonCode.ownership
        set_entries (λ items. items ++ new_entry kind name ∷ [])
        persist)
        c

  unfoldable pub owned :
      ResourceKind → String → String → Option ℕ → Action Thrown (Cell W) (Unit {0})
  owned kind name uid generation =
      change kind name (may_own uid generation kind) (to_owned uid generation)

  unfoldable pub rejected : ResourceKind → String → Action Thrown (Cell W) (Unit {0})
  rejected kind name = change kind name may_reject to_removed

  unfoldable pub recovered_absent : ResourceKind → String → Action Thrown (Cell W) (Unit {0})
  recovered_absent kind name = change kind name may_be_absent to_absent

  -- `kind` is 'model' or 'app' by its type; `modelGeneration` is this at 'model'.
  unfoldable pub generation :
      ResourceKind → String → String → ℕ → ℕ → Action Thrown (Cell W) (Unit {0})
  generation kind name uid previous next =
      change kind name (may_advance uid previous next) (to_generation next)

-- `ResourceJournal.create`, before its exclusive first write.
unfoldable pub create : String → String → Result Thrown JournalData
create run_id target_uid =
    if is_run_id run_id && truthy target_uid
    then ok (record {
      run_id = run_id;
      target_uid = target_uid;
      prefix = run_prefix run_id;
      entries = [];
    })
    else err (of_code ReasonCode.ownership)

unfoldable pub recovery_plan : List JournalEntry → List JournalEntry
recovery_plan = filter (λ item. not (is_state item.state EntryState.removed))

unfoldable pub automatically_removable : JournalEntry → Bool
automatically_removable item =
    (is_state item.state EntryState.owned || is_state item.state EntryState.blocked)
    && is_some item.uid
    && (not (has_generation item.kind) || is_some item.generation)
