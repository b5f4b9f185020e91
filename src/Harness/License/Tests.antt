-- ===== src/Harness/License/Tests.antt =====
-- Examples for license-transaction.ts: a Secret and the receipts in memory.
use aippliance_magic_stick.Prelude.{Option, some, String, List, [], ◌∷◌, All, ◌≡◌, refl, ◌∙◌, sym}
use aippliance_magic_stick.Prelude.Result.{ok}
use aippliance_magic_stick.Prelude.Keeps.{Returns}
use aippliance_magic_stick.Harness.Errors.{at_stage}
use aippliance_magic_stick.Harness.License.Transaction.{
  LicenseSnapshot, LicenseReceipt, LicenseTransaction, ReceiptState, Ports, Cell, new_transaction,
  restore_license, restore_steps, finish, put_back, conclude, is_same_secret,
}
use aippliance_magic_stick.Harness.License.Receipts.{Method, run, IsHonest, run-IsHonest}
use aippliance_magic_stick.Harness.License.Restored.{IsRestored, restore_restores}
use aippliance_magic_stick.Harness.License.Writes.{restore_license-Keeps}
use aippliance_magic_stick.Harness.License.Reliable.{reliable, submitted, restore-returns}

pub record World : Type 0 where
  pub secret : LicenseSnapshot
  pub receipts : List LicenseReceipt

abbrev ports : Ports World
ports = record {
  state = λ w. (ok w.secret, w);
  guard = λ w. (ok tt, w);
  restore = λ current document w.
      (ok tt, record w { secret = record (w.secret) { document = document; revision = "3" } });
  record_receipt = λ r w. (ok tt, record w { receipts = r ∷ w.receipts });
  sha256 = λ s. s;
}

abbrev original : LicenseSnapshot
original = record {
  uid = "secret-uid";
  revision = "1";
  installation_id = "installation";
  document = some "original";
  other_data = "{}";
}

abbrev world_of : String → String → World
world_of revision document = record {
  secret = record original { revision = revision; document = some document };
  receipts = [];
}

abbrev cell_of : String → String → Cell World
cell_of revision document = record {
  tx = new_transaction ports.sha256 original;
  world = world_of revision document;
}

abbrev methods : List Method
methods = Method.begin ∷ Method.request "candidate" ∷ Method.forwarded ∷ Method.restore ∷ []

run-IsHonest_example : IsHonest ports original (run ports methods (cell_of "1" "original"))
run-IsHonest_example = run-IsHonest ports original methods (world_of "1" "original")

abbrev live : World → Option String
live w = w.secret.document

restore_restores_example :
    Returns
      (λ _. IsRestored live)
      (restore_license ports (run ports methods (cell_of "1" "original")))
restore_restores_example =
    restore_restores ports live (record { reads = λ w. refl; recording = λ r w. refl })
      (run ports methods (cell_of "1" "original"))

abbrev receipt : LicenseReceipt
receipt = (new_transaction ports.sha256 original).receipt

restore-returns_example :
    (restore_license (reliable ports.sha256 "3") (submitted original receipt "candidate" "2")).0
    ≡ ok tt
restore-returns_example = restore-returns ports.sha256 "3" original receipt "candidate" "2"

-- A Secret, and the documents that were written over.
pub record Overwritten : Type 0 where
  pub secret : LicenseSnapshot
  pub documents : List (Option String)

abbrev logging : Ports Overwritten
logging = record {
  state = λ w. (ok w.secret, w);
  guard = λ w. (ok tt, w);
  restore = λ current document w. (
    ok tt,
    record {
      secret = record (w.secret) { document = document; revision = "3" };
      documents = current.document ∷ w.documents;
    },
  );
  record_receipt = λ r w. (ok tt, w);
  sha256 = λ s. s;
}

abbrev forwarded : LicenseTransaction
forwarded = record (new_transaction logging.sha256 original) {
  selected = some "candidate";
  receipt = record receipt { state = ReceiptState.forwarded };
}

abbrev secret_with : String → Overwritten
secret_with document = record {
  secret = record original { revision = "2"; document = some document };
  documents = [];
}

-- The transaction's own document is written over, and another one is not.
overwrites :
    (restore_license logging
      (record { tx = forwarded; world = secret_with "candidate" })).1.world.documents
    ≡ some "candidate" ∷ []
unfolding restore_license restore_steps finish put_back conclude at_stage is_same_secret
    new_transaction
overwrites = refl

restore_license-Keeps_example :
    All
      (λ d. d ≡ some "candidate")
      (restore_license logging
        (record { tx = forwarded; world = secret_with "candidate" })).1.world.documents
restore_license-Keeps_example =
    restore_license-Keeps logging forwarded (λ w. All (λ d. d ≡ some "candidate") w.documents)
      (record { at = λ w q. q }) (record { at = λ w q. q }) (λ r. record { at = λ w q. q })
      (λ current may. record {
        at = λ w q. ((let (d, selected, document) = may.document in document ∙ sym selected), q);
      })
      (secret_with "candidate") tt
