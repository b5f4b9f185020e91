-- ===== src/Harness/License/Writes.antt =====
-- What a restoration of LicenseTransaction (license-transaction.ts) may write over.
use aippliance_magic_stick.Prelude.{
  Bool, true, false, Option, none, some, String, ◌&&◌, if◌then◌else◌, is_some, ◌≡◌, refl, sym,
  subst, ap, arith, if_holds,
}
use aippliance_magic_stick.Prelude.Text.{str_eq, str_eq_iff, same_text, truthy}
use aippliance_magic_stick.Prelude.Result.{Result, ok, err, Action, continue, handle, ◌>>◌}
use aippliance_magic_stick.Prelude.Keeps.{Keeps, Keeps-bind, Keeps-then}
use aippliance_magic_stick.Harness.Errors.{
  Thrown, Stage, ReasonCode, require_proof, staged, at_stage,
}
use aippliance_magic_stick.Harness.License.Transaction.{
  LicenseSnapshot, LicenseReceipt, LicenseTransaction, ReceiptState, Ports, Cell, is_state,
  is_submitted, is_back, is_own_write, is_same_secret, has_original, at_revision, to_restored,
  to_restoring, port, set_receipt, save, read_same, put_back, conclude, reconcile, finish,
  restore_steps, restore_license,
}
use aippliance_magic_stick.Harness.License.Restored.{same_text→≡}

-- A snapshot that a transaction may write over: of the original Secret, with the document that the
-- transaction selected, and at the revision that its receipt knows, if it knows one.
pub record MayOverwrite (tx : LicenseTransaction) (current : LicenseSnapshot) : Type 0 where
  pub document : (d : String) × (tx.selected ≡ some d) × (current.document ≡ some d)
  pub uid : current.uid ≡ tx.original.uid
  pub revision :
      (r : String) → tx.receipt.applied_revision ≡ some r → truthy r ≡ true → current.revision ≡ r

document_lem :
    (selected document : Option String)
    → is_some selected ≡ true
    → same_text document selected ≡ true
    → (d : String) × (selected ≡ some d) × (document ≡ some d)
document_lem none document h k = absurd (ground (arith, h))
document_lem (some d) document h k = (d, refl, same_text→≡ document (some d) k)

revision_lem :
    (known : Option String) (revision : String)
    → at_revision known revision ≡ true
    → (r : String) → known ≡ some r
    → truthy r ≡ true
    → revision ≡ r
revision_lem known revision h r k t = (str_eq_iff revision r).0 (by_known (rw k at h))
  where
    by_known : at_revision (some r) revision ≡ true → str_eq revision r ≡ true
    by_known g = ground (arith, g, t)

MayOverwrite-is_own_write :
    (tx : LicenseTransaction) (current : LicenseSnapshot)
    → is_same_secret tx.original current ≡ true
    → is_own_write tx current ≡ true
    → MayOverwrite tx current
unfolding is_same_secret
MayOverwrite-is_own_write tx current s h = record {
  document =
      document_lem tx.selected current.document (own (is_some tx.selected) submitted same at h).0
        (own (is_some tx.selected) submitted same at h).1;
  uid = (str_eq_iff current.uid tx.original.uid).0 (ground (arith, s));
  revision =
      revision_lem tx.receipt.applied_revision current.revision
        (own (is_some tx.selected) submitted same at h).2;
}
  where
    submitted : Bool
    submitted = is_submitted tx.receipt.state

    same : Bool
    same = same_text current.document tx.selected

    at : Bool
    at = at_revision tx.receipt.applied_revision current.revision

    own : (a b c d : Bool) → (a && b && c && d) ≡ true → (a ≡ true) × (c ≡ true) × (d ≡ true)
    own a b c d h = (ground (arith, h), ground (arith, h), ground (arith, h))

module _ {W : Type 0} (ports : Ports W) (tx : LicenseTransaction) (Q : W → Type 0)
    (guarded : Keeps Q ports.guard) (seen : Keeps Q ports.state)
    (recorded : (r : LicenseReceipt) → Keeps Q (ports.record_receipt r))
    (written : (current : LicenseSnapshot)
      → MayOverwrite tx current
      → Keeps Q (ports.restore current tx.original.document)) where
  -- The world, with the original that is put back; and the whole transaction as it was.
  abbrev Net : Cell W → Type 0
  Net c = Q c.world × (c.tx.original ≡ tx.original)

  abbrev Still : Cell W → Type 0
  Still c = Q c.world × (c.tx ≡ tx)

  same_original : {t : LicenseTransaction} → t ≡ tx → t.original ≡ tx.original
  same_original e = ap (λ (t : LicenseTransaction). t.original) e

  -- A chain, by what its first action returns.
  chain :
      {A B : Type 0} (P : Cell W → Type 0) (f : A → Action Thrown (Cell W) B)
      (r : Result Thrown A × Cell W)
      → P r.1
      → (P r.1 → Net r.1)
      → ((a : A) (c : Cell W) → P c → Net (f a c).1)
      → Net (continue f r).1
  chain P f (ok a, c) p n k = k a c p
  chain P f (err e, c) p n k = n p

  proof_then :
      {B : Type 0} (b : Bool) (code : ReasonCode) (m : Action Thrown (Cell W) B) (c : Cell W)
      → Net c
      → (b ≡ true → Net (m c).1)
      → Net (continue (λ _. m) (require_proof b code c)).1
  proof_then true code m c n k = k refl
  proof_then false code m c n k = n

  -- A read of the Secret: it leaves the transaction, and what it returns is of the same Secret.
  abbrev Same : LicenseSnapshot → Cell W → Type 0
  Same s c = Still c × (is_same_secret tx.original s ≡ true)

  read_then :
      {B : Type 0} (f : LicenseSnapshot → Action Thrown (Cell W) B) (c : Cell W)
      → Still c
      → ((s : LicenseSnapshot) (c' : Cell W) → Same s c' → Net (f s c').1)
      → Net (continue f (read_same ports c)).1
  read_then f c h k = from_port (ports.state c.world) (seen.at c.world h.0)
    where
      checked :
          (s : LicenseSnapshot) (w : W) (b : Bool)
          → is_same_secret c.tx.original s ≡ b
          → Q w
          → Net
              (continue f (
                continue
                  (λ _ x. (ok s, x))
                  (require_proof b ReasonCode.conflict (record c { world = w })))).1
      checked s w true e q = k s (record c { world = w }) ((q, h.1), rw⁻¹ (same_original h.1) e)
      checked s w false e q = (q, same_original h.1)

      from_port :
          (r : Result Thrown LicenseSnapshot × W)
          → Q r.1
          → Net
              (continue f (
                continue
                  (λ s x.
                    continue
                      (λ _ y. (ok s, y))
                      (require_proof (is_same_secret x.tx.original s) ReasonCode.conflict x))
                  (r.0, record c { world = r.1 }))).1
      from_port (ok s, w) q = checked s w (is_same_secret c.tx.original s) refl q
      from_port (err e, w) q = (q, same_original h.1)

  Keeps-save : Keeps Net (save ports)
  Keeps-save = record { at = λ c n. ((recorded c.tx.receipt).at c.world n.0, n.1) }

  Keeps-read_same : Keeps Net (read_same ports)
  Keeps-read_same =
      Keeps-bind Net (port ports ports.state) _ (record { at = λ c n. (seen.at c.world n.0, n.1) })
        (λ s. record {
          at = λ c n.
              proof_then (is_same_secret c.tx.original s) ReasonCode.conflict (λ x. (ok s, x)) c n
                (λ _. n);
        })

  Keeps-conclude : Keeps Net (conclude ports)
  unfolding conclude
  Keeps-conclude = Keeps-bind Net (read_same ports) _ Keeps-read_same (λ s. record {
    at = λ c n.
        proof_then (has_original c.tx.original s) ReasonCode.cleanup
          (set_receipt ports (to_restored s.revision) >> save ports) c n
          (λ _.
            Keeps-save.at
              (record c { tx = record (c.tx) { receipt = to_restored s.revision c.tx.receipt } })
              n);
  })

  -- The write, with the receipt before it and the guard.
  Keeps-write :
      (current : LicenseSnapshot)
      → MayOverwrite tx current
      → Keeps Net (
          set_receipt ports (to_restoring current.revision)
          >> (save ports
              >> (port ports ports.guard
                  >> (λ c. port ports (ports.restore current c.tx.original.document) c))))
  Keeps-write current may =
      Keeps-then Net (set_receipt ports (to_restoring current.revision)) _
        (record { at = λ c n. n })
        (Keeps-then Net (save ports) _ Keeps-save (
          Keeps-then Net (port ports ports.guard) _
            (record { at = λ c n. (guarded.at c.world n.0, n.1) })
            (record {
              at = λ c n. (
                subst (λ (o : LicenseSnapshot). Q (ports.restore current o.document c.world).1)
                    (sym n.1) ((written current may).at c.world n.0),
                n.1,
              );
            })))

  put_back-Net : (s : LicenseSnapshot) (c : Cell W) → Same s c → Net (put_back ports s c).1
  unfolding put_back
  put_back-Net s c h =
      let n : Net c = (h.0.0, same_original h.0.1) in
      proof_then (is_own_write c.tx s) ReasonCode.conflict _ c n (λ own.
        (Keeps-write s (
            MayOverwrite-is_own_write tx s h.1 (subst (λ t. is_own_write t s ≡ true) h.0.1 own))).at
          c n)

  finish-Net : (s : LicenseSnapshot) (c : Cell W) → Same s c → Net (finish ports s c).1
  unfolding finish
  finish-Net s c h =
      chain Net (λ _. conclude ports) (if is_back c.tx s then (ok tt, c) else put_back ports s c)
        (if_holds (λ (r : Result Thrown (Unit {0}) × Cell W). Net r.1) (is_back c.tx s) (ok tt, c)
          (put_back ports s c) (λ _. (h.0.0, same_original h.0.1)) (put_back-Net s c h))
        (λ n. n) (λ _. Keeps-conclude.at)

  reconcile-Net : (s : LicenseSnapshot) (c : Cell W) → Same s c → Net (reconcile ports s c).1
  unfolding reconcile
  reconcile-Net s c h =
      let n : Net c = (h.0.0, same_original h.0.1) in
      proof_then _ ReasonCode.conflict (save ports) c n (λ _. Keeps-save.at c n)

  steps-Net : (w : W) → Q w → Net (restore_steps ports (record { tx = tx; world = w })).1
  unfolding restore_steps
  steps-Net w q =
      chain Still _ (port ports ports.guard (record { tx = tx; world = w })) (guarded.at w q, refl)
        (λ h. (h.0, same_original h.1))
        (λ _ c h. read_then _ c h (λ s c' same.
          if_holds (λ (r : Result Thrown (Unit {0}) × Cell W). Net r.1)
            (is_state c'.tx.receipt.state ReceiptState.restored) (reconcile ports s c')
            (finish ports s c') (λ _. reconcile-Net s c' same) (finish-Net s c' same)))

  handled :
      (f : Thrown → Thrown) (r : Result Thrown (Unit {0}) × Cell W)
      → Net r.1
      → Net (handle (λ e s. (err (f e), s)) r).1
  handled f (ok u, c) n = n
  handled f (err e, c) n = n

  -- restore() writes the original document, and writes it only over a snapshot that was read from
  -- the original Secret, holds the document that the transaction selected, and is at the revision
  -- that the receipt knows, if it knows one: what holds of the world and is kept by such a write, by
  -- the guard, by reads and by the recording of receipts is kept by restore(), whether it returns
  -- or throws. A document of anyone else is not overwritten.
  pub restore_license-Keeps :
      (w : W) → Q w → Q (restore_license ports (record { tx = tx; world = w })).1.world
  unfolding restore_license at_stage
  restore_license-Keeps w q =
      (handled (staged Stage.license_restore) (restore_steps ports (record { tx = tx; world = w }))
        (steps-Net w q)).0
