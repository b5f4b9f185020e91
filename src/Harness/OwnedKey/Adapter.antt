-- ===== src/Harness/OwnedKey/Adapter.antt =====
-- `adapter()` of OwnedKeyClient (owned-key.ts), as the ports that the journal's cleanup calls.
use aippliance_magic_stick.Prelude.{
  Bool, Option, none, some, List, [], ◌∷◌, String, ◌&&◌, ◌||◌, not, leb, length, filter, any,
  Option,
}
use Prim.Native.String
use aippliance_magic_stick.Prelude.Result.{
  Action, pure, throw, gets, modify, try_catch, finally, ◌>>=◌, ◌>>◌,
}
use aippliance_magic_stick.Prelude.Text.{str_eq, includes, same_text}
use aippliance_magic_stick.Harness.Errors.{
  ReasonCode, Thrown, harness, other, of_code, require_safe,
}
use aippliance_magic_stick.Harness.Journal.Entry.{JournalEntry, JournalData, Operation}
use aippliance_magic_stick.Harness.Journal.Methods.{Live, NoteState}
use aippliance_magic_stick.Harness.Journal.Methods
use aippliance_magic_stick.Harness.OwnedKey.{
  Method, KeyItem, LastRequest, Ports, KeyCell, takes_over, world, transport, call, list,
}

-- What the journal gives besides: its file, its guard, its recorder, and the observer of requests.
pub record Around (W : Type 0) : Type 0 where
  pub write : JournalData → Action Thrown W (Unit {0})
  pub assert_held : Action Thrown W (Unit {0})
  pub note : JournalEntry → Operation → NoteState → Action Thrown W (Unit {0})
  pub observe : Operation → Option LastRequest → Action Thrown W (Unit {0})

module _ {W : Type 0} (ports : Ports W) (around : Around W) where
  abbrev pub forget : Action Thrown (KeyCell W) (Unit {0})
  forget = modify (λ c. record c { last_request = none })

  -- `observe?.({operation, state: 'running', ...this.requestDiagnostic()})`
  abbrev pub observed : Operation → Action Thrown (KeyCell W) (Unit {0})
  observed o = gets (λ (c : KeyCell W). c.last_request) >>= λ r. world ports (around.observe o r)

  abbrev pub live_of : List KeyItem → Option Live
  live_of [] = none
  live_of (x ∷ xs) = some (record { uid = x.id; generation = none })

  unfoldable pub lookup : JournalEntry → Action Thrown (KeyCell W) (Option Live)
  lookup entry = do
    prefix ← gets (λ (c : KeyCell W). c.prefix)
    require_safe (takes_over prefix entry) ReasonCode.ownership
    forget
    items ← finally (list ports) (observed Operation.lookup)
    require_safe (leb (length (filter (λ item. str_eq item.name entry.name) items)) 1)
        ReasonCode.ownership
    pure (live_of (filter (λ item. str_eq item.name entry.name) items))

  abbrev pub delete_path : String → String
  delete_path uid = String.◌++◌ "/api/api-access/" (ports.encode uid)

  abbrev pub as_cleanup : {A : Type 0} → Thrown → Action Thrown (KeyCell W) A
  as_cleanup (harness e) = throw (harness e)
  as_cleanup other = throw (of_code ReasonCode.cleanup)

  abbrev pub revoke : String → Action Thrown (KeyCell W) (Unit {0})
  revoke uid =
      try_catch (transport ports (call ports Method.delete (delete_path uid) none) >> pure tt)
        as_cleanup

  unfoldable pub remove_if_uid : JournalEntry → String → Action Thrown (KeyCell W) (Unit {0})
  remove_if_uid entry uid = do
    ids ← gets (λ (c : KeyCell W). c.owned_ids)
    require_safe (same_text entry.uid (some uid) && includes ids uid) ReasonCode.ownership
    forget
    finally (revoke uid) (observed Operation.remove)

  unfoldable pub verify_removed : JournalEntry → Action Thrown (KeyCell W) Bool
  verify_removed entry = do
    forget
    items ← finally (list ports) (observed Operation.verify)
    pure (
        not (any (λ item. same_text entry.uid (some item.id) || str_eq item.name entry.name) items))

  unfoldable pub adapter : Methods.Ports (KeyCell W)
  adapter = record {
    write = λ j. world ports (around.write j);
    lookup = lookup;
    remove_if_uid = remove_if_uid;
    verify_removed = verify_removed;
    assert_held = world ports around.assert_held;
    note = λ e o s. world ports (around.note e o s);
  }
