-- ===== src/Harness/License/Transaction.antt =====
-- LicenseTransaction (license-transaction.ts).
use aippliance_magic_stick.Prelude.{
  Bool, true, false, Option, none, some, String, not, ◌&&◌, ◌||◌, if◌then◌else◌, is_some,
}
use aippliance_magic_stick.Prelude.Result.{ok, Action, pure, ◌>>=◌, ◌>>◌}
use aippliance_magic_stick.Prelude.Text.{str_eq, same_text, truthy}
use aippliance_magic_stick.Harness.Errors.{ReasonCode, Stage, Thrown, require_proof, at_stage}

-- `other_data` is `canonicalInput(otherData)`.
pub record LicenseSnapshot : Type 0 where
  pub uid : String
  pub revision : String
  pub installation_id : String
  pub document : Option String
  pub other_data : String

pub data ReceiptState : Type 0 where
  reviewed requested forwarded applied restoring restored : ReceiptState

pub record LicenseReceipt : Type 0 where
  pub secret_uid : String
  pub installation_id : String
  pub before_revision : String
  pub original_hash : Option String
  pub other_data_hash : String
  pub selected_hash : Option String
  pub applied_revision : Option String
  pub restored_revision : Option String
  pub state : ReceiptState

-- The ports of the constructor, and SHA-256 in hexadecimal.
pub record Ports (W : Type 0) : Type 0 where
  pub state : Action Thrown W LicenseSnapshot
  pub guard : Action Thrown W (Unit {0})
  pub restore : LicenseSnapshot → Option String → Action Thrown W (Unit {0})
  pub record_receipt : LicenseReceipt → Action Thrown W (Unit {0})
  pub sha256 : String → String

pub record LicenseTransaction : Type 0 where
  pub original : LicenseSnapshot
  pub selected : Option String
  pub receipt : LicenseReceipt

pub record Cell (W : Type 0) : Type 0 where
  pub tx : LicenseTransaction
  pub world : W

abbrev pub is_state : ReceiptState → ReceiptState → Bool
is_state ReceiptState.reviewed ReceiptState.reviewed = true
is_state ReceiptState.requested ReceiptState.requested = true
is_state ReceiptState.forwarded ReceiptState.forwarded = true
is_state ReceiptState.applied ReceiptState.applied = true
is_state ReceiptState.restoring ReceiptState.restoring = true
is_state ReceiptState.restored ReceiptState.restored = true
is_state _ _ = false

-- The condition of `sameIdentity`.
unfoldable pub is_same_secret : LicenseSnapshot → LicenseSnapshot → Bool
is_same_secret original current =
    str_eq current.uid original.uid
    && str_eq current.installation_id original.installation_id
    && str_eq current.other_data original.other_data

abbrev pub has_original : LicenseSnapshot → LicenseSnapshot → Bool
has_original original current = same_text current.document original.document

abbrev pub is_unchanged : LicenseSnapshot → LicenseSnapshot → Bool
is_unchanged original current =
    str_eq current.revision original.revision && has_original original current

abbrev pub is_submitted : ReceiptState → Bool
is_submitted ReceiptState.forwarded = true
is_submitted ReceiptState.applied = true
is_submitted ReceiptState.restoring = true
is_submitted _ = false

abbrev pub can_request : ReceiptState → Bool
can_request ReceiptState.reviewed = true
can_request ReceiptState.requested = true
can_request ReceiptState.forwarded = true
can_request _ = false

-- `!appliedRevision || current.revision === appliedRevision`
abbrev pub at_revision : Option String → String → Bool
at_revision none revision = true
at_revision (some known) revision = not (truthy known) || str_eq revision known

-- What is live is the document that this transaction submitted.
abbrev pub is_own_write : LicenseTransaction → LicenseSnapshot → Bool
is_own_write tx current =
    is_some tx.selected
    && is_submitted tx.receipt.state
    && same_text current.document tx.selected
    && at_revision tx.receipt.applied_revision current.revision

-- The live document is the original, untouched or put back by an earlier attempt.
abbrev pub is_back : LicenseTransaction → LicenseSnapshot → Bool
is_back tx current =
    is_unchanged tx.original current
    || is_state tx.receipt.state ReceiptState.restoring && has_original tx.original current

-- `licenseHash`.
abbrev pub license_hash : (String → String) → Option String → Option String
license_hash sha256 none = none
license_hash sha256 (some document) = some (sha256 document)

-- The constructor.
unfoldable pub new_transaction : (String → String) → LicenseSnapshot → LicenseTransaction
new_transaction sha256 original = record {
  original = original;
  selected = none;
  receipt = record {
    secret_uid = original.uid;
    installation_id = original.installation_id;
    before_revision = original.revision;
    original_hash = license_hash sha256 original.document;
    other_data_hash = sha256 original.other_data;
    selected_hash = none;
    applied_revision = none;
    restored_revision = none;
    state = ReceiptState.reviewed;
  };
}

abbrev pub to_forwarded : LicenseReceipt → LicenseReceipt
to_forwarded r = record r { state = ReceiptState.forwarded }

abbrev pub to_applied : String → LicenseReceipt → LicenseReceipt
to_applied revision r = record r { applied_revision = some revision; state = ReceiptState.applied }

abbrev pub to_restoring : String → LicenseReceipt → LicenseReceipt
to_restoring revision r = record r {
  applied_revision = some revision;
  state = ReceiptState.restoring;
}

abbrev pub to_restored : String → LicenseReceipt → LicenseReceipt
to_restored revision r = record r {
  restored_revision = some revision;
  state = ReceiptState.restored;
}

module _ {W : Type 0} (ports : Ports W) where
  open ports use {state, guard, restore, record_receipt, sha256}

  abbrev pub port : {A : Type 0} → Action Thrown W A → Action Thrown (Cell W) A
  port m c = let (r, w) = m c.world in (r, record c { world = w })

  abbrev pub set_receipt : (LicenseReceipt → LicenseReceipt) → Action Thrown (Cell W) (Unit {0})
  set_receipt f c = (ok tt, record c { tx = record (c.tx) { receipt = f c.tx.receipt } })

  abbrev pub save : Action Thrown (Cell W) (Unit {0})
  save c = port (record_receipt c.tx.receipt) c

  abbrev pub same_identity : LicenseSnapshot → Action Thrown (Cell W) (Unit {0})
  same_identity current c =
      require_proof (is_same_secret c.tx.original current) ReasonCode.conflict c

  -- `const current = await this.ports.state(); this.sameIdentity(current);`
  abbrev pub read_same : Action Thrown (Cell W) LicenseSnapshot
  read_same = do current ← port state; same_identity current; pure current

  unfoldable pub begin : Action Thrown (Cell W) (Unit {0})
  begin = save

  unfoldable pub unchanged : Action Thrown (Cell W) (Unit {0})
  unchanged = do
    current ← read_same
    λ c. require_proof (is_unchanged c.tx.original current) ReasonCode.api c

  abbrev pub select : String → Action Thrown (Cell W) (Unit {0})
  select document c = (
    ok tt,
    record c {
      tx = record (c.tx) {
        selected = some document;
        receipt = record (c.tx.receipt) {
          selected_hash = some (sha256 document);
          state = ReceiptState.requested;
        };
      };
    },
  )

  unfoldable pub request : String → Action Thrown (Cell W) (Unit {0})
  request document = do
    (λ c. require_proof (can_request c.tx.receipt.state) ReasonCode.conflict c)
    unchanged
    port guard
    select document
    save

  unfoldable pub forward : Action Thrown (Cell W) (Unit {0})
  forward = do
    (λ c. require_proof (is_state c.tx.receipt.state ReceiptState.requested) ReasonCode.conflict c)
    unchanged
    set_receipt to_forwarded
    save

  unfoldable pub acknowledge : String → Action Thrown (Cell W) (Unit {0})
  acknowledge revision = do
    current ← read_same
    (λ c.
        require_proof
          (is_state c.tx.receipt.state ReceiptState.forwarded
            && is_some c.tx.selected
            && same_text current.document c.tx.selected
            && str_eq current.revision revision)
          ReasonCode.api c)
    set_receipt (to_applied revision)
    save

  -- The write of the original document over the transaction's own.
  unfoldable pub put_back : LicenseSnapshot → Action Thrown (Cell W) (Unit {0})
  put_back current = do
    (λ c. require_proof (is_own_write c.tx current) ReasonCode.conflict c)
    set_receipt (to_restoring current.revision)
    save
    port guard
    (λ c. port (restore current c.tx.original.document) c)

  -- The independent read that ends a restoration.
  unfoldable pub conclude : Action Thrown (Cell W) (Unit {0})
  conclude = do
    verified ← read_same
    (λ c. require_proof (has_original c.tx.original verified) ReasonCode.cleanup c)
    set_receipt (to_restored verified.revision)
    save

  unfoldable pub reconcile : LicenseSnapshot → Action Thrown (Cell W) (Unit {0})
  reconcile current = do
    (λ c.
        require_proof
          (has_original c.tx.original current
            && same_text (some current.revision) c.tx.receipt.restored_revision)
          ReasonCode.conflict c)
    save

  unfoldable pub finish : LicenseSnapshot → Action Thrown (Cell W) (Unit {0})
  finish current = do
    (λ c. if is_back c.tx current then (ok tt, c) else put_back current c)
    conclude

  -- The callback of `restore`, which runs under the stage 'license-restore'.
  unfoldable pub restore_steps : Action Thrown (Cell W) (Unit {0})
  restore_steps = do
    port guard
    current ← read_same
    λ c.
        if is_state c.tx.receipt.state ReceiptState.restored
        then reconcile current c
        else finish current c

  unfoldable pub restore_license : Action Thrown (Cell W) (Unit {0})
  restore_license = at_stage Stage.license_restore restore_steps
