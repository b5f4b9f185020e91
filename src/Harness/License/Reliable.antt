-- ===== src/Harness/License/Reliable.antt =====
-- A restoration by LicenseTransaction (license-transaction.ts) where every call succeeds.
use aippliance_magic_stick.Prelude.{
  true, Option, none, some, String, ◌≡◌, refl, Bool-cases, inl, inr,
}
use aippliance_magic_stick.Prelude.Text.{str_eq_refl, same_text, str_eq}
use aippliance_magic_stick.Prelude.Result.{ok}
use aippliance_magic_stick.Harness.Errors.{at_stage}
use aippliance_magic_stick.Harness.License.Transaction.{
  LicenseSnapshot, LicenseReceipt, ReceiptState, Ports, Cell, is_same_secret, put_back, conclude,
  finish, restore_steps, restore_license,
}

-- A Secret that answers every call; a restoration gives it a new revision.
abbrev pub reliable : (String → String) → String → Ports LicenseSnapshot
reliable sha256 next = record {
  state = λ s. (ok s, s);
  guard = λ s. (ok tt, s);
  restore = λ current document s. (ok tt, record s { document = document; revision = next });
  record_receipt = λ r s. (ok tt, s);
  sha256 = sha256;
}

-- The candidate was forwarded and is live, whether or not its write was acknowledged.
abbrev pub submitted : LicenseSnapshot → LicenseReceipt → String → String → Cell LicenseSnapshot
submitted original receipt document revision = record {
  tx = record {
    original = original;
    selected = some document;
    receipt = record receipt { state = ReceiptState.forwarded; applied_revision = none };
  };
  world = record original { document = some document; revision = revision };
}

same_text_refl : (o : Option String) → same_text o o ≡ true
same_text_refl none = refl
same_text_refl (some s) = str_eq_refl s

-- If every call succeeds and the live document is the one that the transaction forwarded, even
-- though its write was never acknowledged, restore() returns.
pub restore-returns :
    (sha256 : String → String) (next : String) (original : LicenseSnapshot)
    (receipt : LicenseReceipt) (document revision : String)
    → (restore_license (reliable sha256 next) (submitted original receipt document revision)).0
      ≡ ok tt
unfolding restore_license at_stage restore_steps finish put_back conclude is_same_secret
restore-returns sha256 next original receipt document revision =
    let u = str_eq_refl original.uid in
    let i = str_eq_refl original.installation_id in
    let o = str_eq_refl original.other_data in
    let d = str_eq_refl document in
    let t = same_text_refl original.document in
    elim (Bool-cases (str_eq revision original.revision)) [
      | inl a ↦ elim (Bool-cases (same_text (some document) original.document)) [
        | inl b ↦ rw (u, i, o) (rw (a, b) (rw (u, i, o) (rw b refl)))
        | inr b ↦ rw (u, i, o) (rw (a, b) (rw d (rw (u, i, o) (rw t refl))))
      ]
      | inr a ↦ rw (u, i, o) (rw a (rw (d, same_text) (rw (u, i, o) (rw t refl))))
    ]
