-- ===== src/Harness/License/Receipts.antt =====
-- The receipts of LicenseTransaction (license-transaction.ts) tell the truth about the document.
use aippliance_magic_stick.Prelude.{Bool, List, [], ◌∷◌, String, ◌≡◌, refl, ◌∙◌}
use aippliance_magic_stick.Prelude.Result.{Action}
use aippliance_magic_stick.Prelude.Keeps.{
  Keeps, Keeps-bind, Keeps-then, Keeps-try_catch, Keeps-reading, Keeps-pure, Keeps-if,
}
use aippliance_magic_stick.Harness.Errors.{Thrown, ReasonCode, require_proof, at_stage}
use aippliance_magic_stick.Harness.License.Transaction
use aippliance_magic_stick.Harness.License.Transaction.{
  LicenseSnapshot, LicenseReceipt, ReceiptState, LicenseTransaction, Ports, Cell, license_hash,
  is_state, is_back, new_transaction, to_forwarded, to_applied, to_restoring, to_restored, port,
  set_receipt, save, read_same, select, forward, put_back, conclude, reconcile, finish,
  restore_steps, restore_license,
}

-- The methods, with their arguments.
pub data Method : Type 0 where
  begin unchanged : Method
  request : String → Method
  forwarded : Method
  acknowledge : String → Method
  restore : Method

module _ {W : Type 0} (ports : Ports W) where
  unfoldable pub perform : Method → Action Thrown (Cell W) (Unit {0})
  perform Method.begin = Transaction.begin ports
  perform Method.unchanged = Transaction.unchanged ports
  perform (Method.request d) = Transaction.request ports d
  perform Method.forwarded = forward ports
  perform (Method.acknowledge r) = Transaction.acknowledge ports r
  perform Method.restore = restore_license ports

  unfoldable pub run : List Method → Cell W → Cell W
  run [] c = c
  run (m ∷ ms) c = run ms (perform m c).1

  -- The receipt names the original and the selected document by their hashes, and its identity
  -- fields are the original's.
  pub record IsHonest (original : LicenseSnapshot) (c : Cell W) : Type 0 where
    pub same_original : c.tx.original ≡ original
    pub secret : c.tx.receipt.secret_uid ≡ original.uid
    pub before : c.tx.receipt.before_revision ≡ original.revision
    pub original_document : c.tx.receipt.original_hash ≡ license_hash ports.sha256 original.document
    pub selected_document : c.tx.receipt.selected_hash ≡ license_hash ports.sha256 c.tx.selected

module _ {W : Type 0} (ports : Ports W) (o : LicenseSnapshot) where
  port-IsHonest : {A : Type 0} (m : Action Thrown W A) → Keeps (IsHonest ports o) (port ports m)
  port-IsHonest m = record {
    at = λ c h. record {
      same_original = h.same_original;
      secret = h.secret;
      before = h.before;
      original_document = h.original_document;
      selected_document = h.selected_document;
    };
  }

  save-IsHonest : Keeps (IsHonest ports o) (save ports)
  save-IsHonest =
      Keeps-reading (IsHonest ports o) _ (λ c. port-IsHonest (ports.record_receipt c.tx.receipt))

  check-IsHonest :
      (b : Cell W → Bool) (code : ReasonCode)
      → Keeps (IsHonest ports o) (λ (c : Cell W). require_proof (b c) code c)
  check-IsHonest b code = record { at = λ c h. h }

  -- A change that leaves the hashes and the identity of the receipt alone.
  set_receipt-IsHonest :
      (f : LicenseReceipt → LicenseReceipt)
      → ((r : LicenseReceipt) → (f r).secret_uid ≡ r.secret_uid)
      → ((r : LicenseReceipt) → (f r).before_revision ≡ r.before_revision)
      → ((r : LicenseReceipt) → (f r).original_hash ≡ r.original_hash)
      → ((r : LicenseReceipt) → (f r).selected_hash ≡ r.selected_hash)
      → Keeps (IsHonest ports o) (set_receipt ports f)
  set_receipt-IsHonest f s b oh sh = record {
    at = λ c h. record {
      same_original = h.same_original;
      secret = s c.tx.receipt ∙ h.secret;
      before = b c.tx.receipt ∙ h.before;
      original_document = oh c.tx.receipt ∙ h.original_document;
      selected_document = sh c.tx.receipt ∙ h.selected_document;
    };
  }

  read_same-IsHonest : Keeps (IsHonest ports o) (read_same ports)
  read_same-IsHonest = Keeps-bind (IsHonest ports o) _ _ (port-IsHonest ports.state) (λ current.
      Keeps-then (IsHonest ports o) _ _ (check-IsHonest _ _)
        (Keeps-pure (IsHonest ports o) current))

  unchanged-IsHonest : Keeps (IsHonest ports o) (Transaction.unchanged ports)
  unfolding Transaction.unchanged
  unchanged-IsHonest =
      Keeps-bind (IsHonest ports o) _ _ read_same-IsHonest (λ current. check-IsHonest _ _)

  select-IsHonest : (d : String) → Keeps (IsHonest ports o) (select ports d)
  select-IsHonest d = record {
    at = λ c h. record {
      same_original = h.same_original;
      secret = h.secret;
      before = h.before;
      original_document = h.original_document;
      selected_document = refl;
    };
  }

  request-IsHonest : (d : String) → Keeps (IsHonest ports o) (Transaction.request ports d)
  unfolding Transaction.request
  request-IsHonest d = Keeps-then (IsHonest ports o) _ _ (check-IsHonest _ _) (
      Keeps-then (IsHonest ports o) _ _ unchanged-IsHonest (
        Keeps-then (IsHonest ports o) _ _ (port-IsHonest ports.guard)
          (Keeps-then (IsHonest ports o) _ _ (select-IsHonest d) save-IsHonest)))

  forward-IsHonest : Keeps (IsHonest ports o) (forward ports)
  unfolding forward
  forward-IsHonest = Keeps-then (IsHonest ports o) _ _ (check-IsHonest _ _) (
      Keeps-then (IsHonest ports o) _ _ unchanged-IsHonest (
        Keeps-then (IsHonest ports o) _ _
          (set_receipt-IsHonest to_forwarded (λ r. refl) (λ r. refl) (λ r. refl) (λ r. refl))
          save-IsHonest))

  acknowledge-IsHonest : (r : String) → Keeps (IsHonest ports o) (Transaction.acknowledge ports r)
  unfolding Transaction.acknowledge
  acknowledge-IsHonest r = Keeps-bind (IsHonest ports o) _ _ read_same-IsHonest (λ current.
      Keeps-then (IsHonest ports o) _ _ (check-IsHonest _ _) (
        Keeps-then (IsHonest ports o) _ _
          (set_receipt-IsHonest (to_applied r) (λ r. refl) (λ r. refl) (λ r. refl) (λ r. refl))
          save-IsHonest))

  put_back-IsHonest : (s : LicenseSnapshot) → Keeps (IsHonest ports o) (put_back ports s)
  unfolding put_back
  put_back-IsHonest s = Keeps-then (IsHonest ports o) _ _ (check-IsHonest _ _) (
      Keeps-then (IsHonest ports o) _ _
        (set_receipt-IsHonest (to_restoring s.revision) (λ r. refl) (λ r. refl) (λ r. refl)
          (λ r. refl))
        (Keeps-then (IsHonest ports o) _ _ save-IsHonest (
          Keeps-then (IsHonest ports o) _ _ (port-IsHonest ports.guard) (
            Keeps-reading (IsHonest ports o) _
              (λ c. port-IsHonest (ports.restore s c.tx.original.document))))))

  conclude-IsHonest : Keeps (IsHonest ports o) (conclude ports)
  unfolding conclude
  conclude-IsHonest = Keeps-bind (IsHonest ports o) _ _ read_same-IsHonest (λ verified.
      Keeps-then (IsHonest ports o) _ _ (check-IsHonest _ _) (
        Keeps-then (IsHonest ports o) _ _
          (set_receipt-IsHonest (to_restored verified.revision) (λ r. refl) (λ r. refl) (λ r. refl)
            (λ r. refl))
          save-IsHonest))

  restore-IsHonest : Keeps (IsHonest ports o) (restore_license ports)
  unfolding restore_license at_stage restore_steps reconcile finish
  restore-IsHonest =
      Keeps-try_catch (IsHonest ports o) _ _
        (Keeps-then (IsHonest ports o) _ _ (port-IsHonest ports.guard) (
          Keeps-bind (IsHonest ports o) _ _ read_same-IsHonest (λ current.
            Keeps-if (IsHonest ports o) _ _ _
              (Keeps-then (IsHonest ports o) _ _ (check-IsHonest _ _) save-IsHonest)
              (Keeps-then (IsHonest ports o) _ _
                (Keeps-if (IsHonest ports o) _ _ _ (Keeps-pure (IsHonest ports o) tt)
                  (put_back-IsHonest current))
                conclude-IsHonest))))
        (λ e. record { at = λ c h. h })

  perform-IsHonest : (m : Method) → Keeps (IsHonest ports o) (perform ports m)
  unfolding perform Transaction.begin
  perform-IsHonest Method.begin = save-IsHonest
  perform-IsHonest Method.unchanged = unchanged-IsHonest
  perform-IsHonest (Method.request d) = request-IsHonest d
  perform-IsHonest Method.forwarded = forward-IsHonest
  perform-IsHonest (Method.acknowledge r) = acknowledge-IsHonest r
  perform-IsHonest Method.restore = restore-IsHonest

  run_from-IsHonest :
      (ms : List Method) (c : Cell W) → IsHonest ports o c → IsHonest ports o (run ports ms c)
  unfolding run
  run_from-IsHonest [] c h = h
  run_from-IsHonest (m ∷ ms) c h =
      run_from-IsHonest ms (perform ports m c).1 ((perform-IsHonest m).at c h)

  -- After any calls on a new transaction, whatever they threw, the receipt still names the original
  -- Secret, revision and document, and the hash of exactly the document that was last selected.
  pub run-IsHonest :
      (ms : List Method) (w : W)
      → IsHonest ports o (run ports ms (record { tx = new_transaction ports.sha256 o; world = w }))
  unfolding new_transaction
  run-IsHonest ms w = run_from-IsHonest ms _ (record {
    same_original = refl;
    secret = refl;
    before = refl;
    original_document = refl;
    selected_document = refl;
  })
