-- ===== src/Harness/License/Restored.antt =====
-- What a restoration of LicenseTransaction (license-transaction.ts) leaves behind.
use aippliance_magic_stick.Prelude.{
  Bool, true, false, Option, none, some, String, ◌&&◌, if◌then◌else◌, ◌≡◌, refl, ◌∙◌, ap, arith,
}
use aippliance_magic_stick.Prelude.Text.{same_text, str_eq_iff}
use aippliance_magic_stick.Prelude.Result.{Result, ok, err, Action, continue, ◌>>◌}
use aippliance_magic_stick.Prelude.Keeps.{
  Returns, Returns-continue, Returns-handle, Returns-of_kept,
}
use aippliance_magic_stick.Harness.Errors.{Thrown, ReasonCode, require_proof, at_stage}
use aippliance_magic_stick.Harness.License.Transaction.{
  LicenseSnapshot, LicenseReceipt, ReceiptState, Ports, Cell, is_state, is_back, is_same_secret,
  has_original, to_restored, port, set_receipt, save, read_same, put_back, conclude, reconcile,
  finish, restore_steps, restore_license,
}

pub same_text→≡ : (a b : Option String) → same_text a b ≡ true → a ≡ b
same_text→≡ none none h = refl
same_text→≡ (some a) (some b) h = ap some ((str_eq_iff a b).0 h)
same_text→≡ none (some b) h = absurd (ground (arith, h))
same_text→≡ (some a) none h = absurd (ground (arith, h))

is_restored :
    (s : ReceiptState) → is_state s ReceiptState.restored ≡ true → s ≡ ReceiptState.restored
is_restored ReceiptState.restored h = refl
is_restored ReceiptState.reviewed h = absurd (ground (arith, h))
is_restored ReceiptState.requested h = absurd (ground (arith, h))
is_restored ReceiptState.forwarded h = absurd (ground (arith, h))
is_restored ReceiptState.applied h = absurd (ground (arith, h))
is_restored ReceiptState.restoring h = absurd (ground (arith, h))

-- What the world's ports do to the live document: a read reports it, a receipt leaves it alone.
pub record Truthful {W : Type 0} (ports : Ports W) (live : W → Option String) : Type 0 where
  pub reads : (w : W) → Returns (λ s w'. live w' ≡ s.document) (ports.state w)
  pub recording : (r : LicenseReceipt) (w : W) → live (ports.record_receipt r w).1 ≡ live w

-- The original document is live, and the receipt says so.
abbrev pub IsRestored : {W : Type 0} → (W → Option String) → Cell W → Type 0
IsRestored live c =
    (live c.world ≡ c.tx.original.document) × (c.tx.receipt.state ≡ ReceiptState.restored)

module _ {W : Type 0} (ports : Ports W) (live : W → Option String)
    (truthful : Truthful ports live) where
  abbrev Seen : LicenseSnapshot → Cell W → Type 0
  Seen s c = live c.world ≡ s.document

  read_lem : (c : Cell W) → Returns Seen (port ports ports.state c)
  read_lem c = from_port (ports.state c.world) (truthful.reads c.world)
    where
      from_port :
          (r : Result Thrown LicenseSnapshot × W)
          → Returns (λ s w. live w ≡ s.document) r
          → Returns Seen (r.0, record c { world = r.1 })
      from_port (ok s, w) h = h
      from_port (err e, w) h = tt

  -- What follows a check only runs where the check holds.
  proof_then :
      {B : Type 0} (b : Bool) (code : ReasonCode) (Q : B → Cell W → Type 0)
      (m : Action Thrown (Cell W) B) (c : Cell W)
      → (b ≡ true → Returns Q (m c))
      → Returns Q (continue (λ _. m) (require_proof b code c))
  proof_then true code Q m c k = k refl
  proof_then false code Q m c k = tt

  read_same_lem : (c : Cell W) → Returns Seen (read_same ports c)
  read_same_lem c = Returns-continue Seen Seen _ (port ports ports.state c) (read_lem c) (λ s c' h.
      proof_then (is_same_secret c'.tx.original s) ReasonCode.conflict Seen (λ x. (ok s, x)) c'
        (λ _. h))

  save_lem : (c : Cell W) → IsRestored live c → Returns (λ _. IsRestored live) (save ports c)
  save_lem c h =
      Returns-of_kept (IsRestored live) (save ports c)
        (truthful.recording c.tx.receipt c.world ∙ h.0, h.1)

  conclude_lem : (c : Cell W) → Returns (λ _. IsRestored live) (conclude ports c)
  unfolding conclude
  conclude_lem c =
      Returns-continue Seen (λ _. IsRestored live) _ (read_same ports c) (read_same_lem c)
        (λ s c' h.
          proof_then (has_original c'.tx.original s) ReasonCode.cleanup (λ _. IsRestored live)
            (set_receipt ports (to_restored s.revision) >> save ports) c'
            (λ k.
              save_lem
                (record c' {
                  tx = record (c'.tx) { receipt = to_restored s.revision c'.tx.receipt };
                })
                (h ∙ same_text→≡ s.document c'.tx.original.document k, refl)))

  finish_lem :
      (s : LicenseSnapshot) (c : Cell W) → Returns (λ _. IsRestored live) (finish ports s c)
  unfolding finish
  finish_lem s c =
      Returns-continue (λ _ _. Unit {0}) (λ _. IsRestored live) _
        (if is_back c.tx s then (ok tt, c) else put_back ports s c)
        (Returns-of_kept (λ _. Unit {0}) (if is_back c.tx s then (ok tt, c) else put_back ports s c)
          tt)
        (λ _ c' h. conclude_lem c')

  reconcile_lem :
      (s : LicenseSnapshot) (c : Cell W)
      → Seen s c
      → c.tx.receipt.state ≡ ReceiptState.restored
      → Returns (λ _. IsRestored live) (reconcile ports s c)
  unfolding reconcile
  reconcile_lem s c h r =
      proof_then _ ReasonCode.conflict (λ _. IsRestored live) (save ports) c
        (λ k. save_lem c (h ∙ same_text→≡ s.document c.tx.original.document (first _ _ k), r))
    where
      first : (a b : Bool) → (a && b) ≡ true → a ≡ true
      first a b h = ground (arith, h)

  by_state_lem :
      (b : Bool) (s : LicenseSnapshot) (c : Cell W)
      → is_state c.tx.receipt.state ReceiptState.restored ≡ b
      → Seen s c
      → Returns (λ _. IsRestored live) (if b then reconcile ports s c else finish ports s c)
  by_state_lem true s c r h = reconcile_lem s c h (is_restored c.tx.receipt.state r)
  by_state_lem false s c r h = finish_lem s c

  -- If restore() returns, the live document is the original one and the receipt is 'restored',
  -- provided that a read of the Secret reports the live document and that recording a receipt does
  -- not change it. The write itself may have done anything: the last read decides.
  pub restore_restores : (c : Cell W) → Returns (λ _. IsRestored live) (restore_license ports c)
  unfolding restore_license at_stage restore_steps
  restore_restores c =
      Returns-handle (λ _. IsRestored live) _ (restore_steps ports c)
        (Returns-continue (λ _ _. Unit {0}) (λ _. IsRestored live) _ (port ports ports.guard c)
          (Returns-of_kept (λ _. Unit {0}) (port ports ports.guard c) tt)
          (λ _ c' _.
            Returns-continue Seen (λ _. IsRestored live) _ (read_same ports c') (read_same_lem c')
              (λ s c'' h. by_state_lem _ s c'' refl h)))
        (λ e c'. tt)
