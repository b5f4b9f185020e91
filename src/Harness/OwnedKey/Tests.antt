-- ===== src/Harness/OwnedKey/Tests.antt =====
-- Examples for owned-key.ts: one key on a server in memory, and a log of the requests.
use aippliance_magic_stick.Prelude.{
  Bool, true, none, some, ◌⊎◌, List, [], ◌∷◌, String, ◌≡◌, refl, All, ◌&&◌, if◌then◌else◌,
}
use aippliance_magic_stick.Prelude.Result.{Result, ok}
use aippliance_magic_stick.Prelude.Text.{str_eq}
use aippliance_magic_stick.Harness.Errors.{Thrown}
use aippliance_magic_stick.Harness.Journal.Entry.{ResourceKind, EntryState, JournalEntry, Operation}
use aippliance_magic_stick.Harness.Journal.Cleanup.{
  Loop, cleanup, visit_all, visit, visit_entry, take_away, remove_current, settle,
}
use aippliance_magic_stick.Harness.OwnedKey.{
  Method, Call, Response, Ports, KeyCell, may_send, is_id, is_get, new_client, ids_of, transport,
  send, list,
}
use aippliance_magic_stick.Harness.OwnedKey.Adapter.{
  Around, adapter, delete_path, lookup, remove_if_uid, verify_removed,
}
use aippliance_magic_stick.Harness.Journal.Cleanup.Safety.{IsListed}

pub record Net : Type 0 where
  pub present : Bool
  pub log : List Call

abbrev json : String → Response
json text = record { status = 200; content_type = "application/json"; length = 2; text = text }

abbrev key_id : String
key_id = "key-0123456789abcdef"

abbrev key_name : String
key_name = "reg-01234567-89a-key"

abbrev answer : Call → Net → Result Thrown Response × Net
answer r w = (
  ok (json (if w.present then "one" else "none")),
  record { present = w.present && is_get r.method; log = r ∷ w.log },
)

abbrev server : Ports Net
server = record {
  fetch = answer;
  assert_mutation_allowed = λ w. (ok tt, w);
  parse = λ s. some (record { keys = "name" ∷ []; name = some s });
  body_of = λ s. s;
  encode = λ s. s;
  read_list = λ r.
      ok (some (if str_eq r.text "one" then record { id = key_id; name = key_name } ∷ [] else []));
  read_created = λ r. ok (record { id = some key_id; name = some key_name; key = some "sk-1" });
  base_origin = "https://appliance";
}

abbrev quiet : Around Net
quiet = record {
  write = λ j w. (ok tt, w);
  assert_held = λ w. (ok tt, w);
  note = λ e o s w. (ok tt, w);
  observe = λ o r w. (ok tt, w);
}

abbrev entry : JournalEntry
entry = record {
  kind = ResourceKind.key;
  name = key_name;
  uid = some key_id;
  state = EntryState.owned;
  generation = none;
  cleanup_failure = none;
}

abbrev loop : Loop (KeyCell Net)
loop = record {
  journal = record {
    run_id = "reg-01234567-89ab-cdef-0123-456789abcdef";
    target_uid = "target";
    prefix = "reg-01234567-89a-";
    entries = entry ∷ [];
  };
  world = new_client "reg-01234567-89a-" (entry ∷ []) (record { present = true; log = [] });
  operation = Operation.guard;
}

-- The key is listed, deleted, and found gone.
cleanup_returns : (cleanup (adapter server quiet) none loop).0 ≡ ok tt
unfolding cleanup visit_all visit visit_entry take_away remove_current settle adapter lookup
    remove_if_uid verify_removed list transport send may_send new_client ids_of is_id
cleanup_returns = refl

-- A request is the listing, or the deletion of the uid of a journaled entry, and the fence lets it
-- through for some prefix and some owned ids.
abbrev IsDue : Call → Type 0
IsDue r =
    (r.method ≡ Method.get)
    ⊎ ((e : JournalEntry) × (uid : String) × (e.uid ≡ some uid)
        × IsListed e loop.journal.entries
        × (r.pathname ≡ delete_path server quiet uid))

abbrev Fenced : Net → Type 0
Fenced w =
    All
      (λ r.
        IsDue r × ((prefix : String) × (ids : List String) × (may_send server prefix ids r ≡ true)))
      w.log
