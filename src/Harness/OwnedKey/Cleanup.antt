-- ===== src/Harness/OwnedKey/Cleanup.antt =====
-- What a cleanup of the journal sends through the adapter of OwnedKeyClient (owned-key.ts).
use aippliance_magic_stick.Prelude.{Option, none, String}
use aippliance_magic_stick.Prelude.Keeps.{Keeps}
use aippliance_magic_stick.Harness.Journal.Entry.{Operation}
use aippliance_magic_stick.Harness.OwnedKey.{Method, Call, LastRequest, Ports, KeyCell, world, call}
use aippliance_magic_stick.Harness.OwnedKey.Adapter.{Around, delete_path}

module _ {W : Type 0} (ports : Ports W) (around : Around W) (Q : W → Type 0)
    (guarded : Keeps Q ports.assert_mutation_allowed)
    (seen : (o : Operation) (r : Option LastRequest) → Keeps Q (around.observe o r)) where
  abbrev Net : KeyCell W → Type 0
  Net c = Q c.world

  abbrev deletion : String → Call
  deletion uid = call ports Method.delete (delete_path ports around uid) none
