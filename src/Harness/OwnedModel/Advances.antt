-- ===== src/Harness/OwnedModel/Advances.antt =====
-- The receipts of OwnedModelClient (owned-model.ts): what a lifecycle action or an edit that
-- returned has established.
use aippliance_magic_stick.Prelude.{
  ℕ, Bool, true, false, Option, none, some, String, ◌&&◌, is_some, ◌≡◌, refl, ap, arith, Bool-cases,
  inl, inr,
}
use aippliance_magic_stick.Prelude.Result.{Action, pure, lift, try_catch, ◌>>=◌, ◌>>◌}
use aippliance_magic_stick.Prelude.Text.{str_eq_iff, same_text}
use aippliance_magic_stick.Prelude.Keeps.{
  Keeps-try_catch, Returns, Returns-continue, Returns-of_kept,
}
use aippliance_magic_stick.Harness.Errors.{ReasonCode, Thrown, require_safe}
use aippliance_magic_stick.Harness.Errors.Requires.{Returns-require}
use aippliance_magic_stick.Harness.OwnedModel.{Js, Client, ModelActivation, Receipt}
use aippliance_magic_stick.Harness.OwnedModel.Fence.{Method, Ports, Cell, call, model_path}
use aippliance_magic_stick.Harness.OwnedModel.Methods.{
  Reader, is_flag, exceeds, follows, present, receipt, is_owned, is_switched, is_update, found,
  as_api, post_action, start, stop, restart, edit_context, edit_body, is_number, same_flags,
  model_context_update_receipt,
}
use aippliance_magic_stick.Harness.OwnedModel.Keeps.{
  Mine, Keeps-transport, Keeps-post_action, Keeps-as_api,
}

-- The receipt stands under the owned uid, with a generation past the one before.
abbrev pub IsAdvanced : Option String → Option ℕ → Receipt → Type 0
IsAdvanced uid before r = (some r.uid ≡ uid) × (exceeds (some r.generation) before ≡ true)

receipt-IsAdvanced :
    (uid : Option String) (a b : Option ℕ)
    → present uid ≡ true
    → exceeds a b ≡ true
    → IsAdvanced uid b (receipt uid a)
receipt-IsAdvanced (some u) (some a) b p e = (refl, e)
receipt-IsAdvanced none a b p e = absurd (ground (arith, p))
receipt-IsAdvanced (some u) none b p e = absurd (ground (arith, e))

exceeds-follows : (a b : Option ℕ) → follows a b ≡ true → exceeds a b ≡ true
exceeds-follows (some a) (some b) h = ground (arith, h)
exceeds-follows (some a) none h = cc
exceeds-follows none b h = cc

first_of_four : (a b c d : Bool) → (((a && b) && c) && d) ≡ true → a ≡ true
first_of_four a b c d h = ground arith

second_of_four : (a b c d : Bool) → ((a && (b && c)) && d) ≡ true → b ≡ true
second_of_four a b c d h = ground arith

first_of_three : (a b c : Bool) → ((a && b) && c) ≡ true → a ≡ true
first_of_three a b c h = ground arith

last_of_three : (a b c : Bool) → ((a && b) && c) ≡ true → c ≡ true
last_of_three a b c h = ground arith

last_of_two : (a b : Bool) → (a && b) ≡ true → b ≡ true
last_of_two a b h = ground arith

middle_of_three : (a b c : Bool) → ((a && b) && c) ≡ true → b ≡ true
middle_of_three a b c h = ground arith

fifth : (a b c d e f g : Bool) → ((((((a && b) && c) && d) && e) && f) && g) ≡ true → e ≡ true
fifth a b c d e f g h = ground arith

module _ {W : Type 0} (js : Js) (ports : Ports W) (reader : Reader) where
  -- What every method ends with, by the object before it.
  abbrev Ends : Client → ModelActivation → Receipt → Cell W → Type 0
  Ends client current r s = IsAdvanced client.owned_uid current.generation r × (s.client ≡ client)

  abbrev Same : {A : Type 0} → Client → A → Cell W → Type 0
  Same client a s = s.client ≡ client

  found_then :
      (client : Client) (current : ModelActivation) (o : Option ModelActivation) (s : Cell W)
      (test : ModelActivation → Bool)
      → present client.owned_uid ≡ true
      → ((item : ModelActivation)
          → test item ≡ true
          → exceeds item.generation current.generation ≡ true)
      → s.client ≡ client
      → Returns (Ends client current) (
          (lift (found js ports reader o) >>= λ item.
          require_safe (test item) ReasonCode.api
          >> pure (receipt client.owned_uid item.generation))
            s)
  found_then client current none s test p h same = tt
  found_then client current (some item) s test p h same =
      Returns-require (Ends client current) (test item) ReasonCode.api
        (pure (receipt client.owned_uid item.generation)) s
        (λ t. (
          receipt-IsAdvanced client.owned_uid item.generation current.generation p (h item t),
          same,
        ))

  switched_exceeds :
      (client : Client) (current item : ModelActivation) (b : Bool)
      → is_switched js ports reader client current b item ≡ true
      → exceeds item.generation current.generation ≡ true
  switched_exceeds client current item b h =
      last_of_three (same_text item.uid client.owned_uid) (is_flag item.enabled b)
        (exceeds item.generation current.generation) h

  start-Ends :
      (current : ModelActivation) (c : Cell W)
      → Returns (Ends c.client current) (start js ports reader current c)
  unfolding start
  start-Ends current c =
      Returns-require (Ends c.client current)
        (is_owned js ports reader c.client current
          && is_flag current.enabled false
          && same_text current.name (some c.client.name))
        ReasonCode.ownership _ c
        (λ g.
          Returns-continue (Same c.client) (Ends c.client current) _
            (try_catch (post_action js ports reader c.client current "/start") as_api c)
            (Returns-of_kept (λ (s : Cell W). s.client ≡ c.client) _
              ((Keeps-try_catch (Mine js ports reader (λ k. k ≡ c.client))
                  (post_action js ports reader c.client current "/start") as_api
                  (Keeps-post_action js ports reader (λ k. k ≡ c.client) c.client current "/start")
                  (Keeps-as_api js ports reader (λ k. k ≡ c.client))).at
                c refl))
            (λ result s same.
              found_then c.client current result s
                (is_switched js ports reader c.client current true)
                (first_of_four (present c.client.owned_uid)
                  (same_text current.uid c.client.owned_uid) (is_flag current.enabled false)
                  (same_text current.name (some c.client.name)) g)
                (λ item. switched_exceeds c.client current item true) same))

  posted :
      (current : ModelActivation) (suffix : String) (c : Cell W)
      → Returns (Same c.client) (post_action js ports reader c.client current suffix c)
  posted current suffix c =
      Returns-of_kept (λ (s : Cell W). s.client ≡ c.client) _
        ((Keeps-post_action js ports reader (λ k. k ≡ c.client) c.client current suffix).at c refl)

  stop-Ends :
      (current : ModelActivation) (c : Cell W)
      → Returns (Ends c.client current) (stop js ports reader current c)
  unfolding stop
  stop-Ends current c =
      Returns-require (Ends c.client current)
        (is_owned js ports reader c.client current
          && is_flag current.enabled true
          && same_text current.name (some c.client.name))
        ReasonCode.ownership _ c
        (λ g.
          Returns-continue (Same c.client) (Ends c.client current) _
            (post_action js ports reader c.client current "/stop" c) (posted current "/stop" c)
            (λ result s same.
              found_then c.client current result s
                (is_switched js ports reader c.client current false)
                (first_of_four (present c.client.owned_uid)
                  (same_text current.uid c.client.owned_uid) (is_flag current.enabled true)
                  (same_text current.name (some c.client.name)) g)
                (λ item. switched_exceeds c.client current item false) same))

  restart-Ends :
      (current : ModelActivation) (c : Cell W)
      → Returns (Ends c.client current) (restart js ports reader current c)
  unfolding restart
  restart-Ends current c =
      Returns-require (Ends c.client current)
        (is_some c.client.fixture.realtime
          && is_owned js ports reader c.client current
          && is_flag current.enabled true)
        ReasonCode.ownership _ c
        (λ g.
          Returns-continue (Same c.client) (Ends c.client current) _
            (post_action js ports reader c.client current "/restart" c)
            (posted current "/restart" c)
            (λ result s same.
              found_then c.client current result s
                (λ item.
                  same_text item.uid c.client.owned_uid
                  && exceeds item.generation current.generation)
                (second_of_four (is_some c.client.fixture.realtime) (present c.client.owned_uid)
                  (same_text current.uid c.client.owned_uid) (is_flag current.enabled true) g)
                (λ item.
                  last_of_two (same_text item.uid c.client.owned_uid)
                    (exceeds item.generation current.generation))
                same))

  update_exceeds :
      (current updated : ModelActivation) (n : ℕ)
      → is_update current updated n ≡ true
      → exceeds updated.generation current.generation ≡ true
  update_exceeds current updated n h = exceeds-follows updated.generation current.generation (
      fifth (present current.uid) (present current.name) (same_text updated.uid current.uid)
        (same_text updated.name current.name) (follows updated.generation current.generation)
        (is_number updated.context_window n) (same_flags updated.enabled current.enabled) h)

  same_text-eq : (a b : Option String) → same_text a b ≡ true → a ≡ b
  same_text-eq none none h = refl
  same_text-eq (some a) (some b) h = ap some ((str_eq_iff a b).0 h)
  same_text-eq none (some b) h = cc
  same_text-eq (some a) none h = cc

  update_receipt :
      (client : Client) (current updated : ModelActivation) (n : ℕ) (s : Cell W)
      → present client.owned_uid ≡ true
      → same_text current.uid client.owned_uid ≡ true
      → s.client ≡ client
      → Returns (Ends client current) (lift (model_context_update_receipt current updated n) s)
  unfolding model_context_update_receipt
  update_receipt client current updated n s p u same =
      elim (Bool-cases (is_update current updated n)) [
        | inl t ↦ rw t (
          rw (same_text-eq current.uid client.owned_uid u) (
              receipt-IsAdvanced client.owned_uid updated.generation current.generation p
                (update_exceeds current updated n t)),
          same,
        )
        | inr f ↦ rw f tt
      ]

  edit_context-Ends :
      (current : ModelActivation) (n : ℕ) (c : Cell W)
      → Returns (Ends c.client current) (edit_context js ports reader current n c)
  unfolding edit_context
  edit_context-Ends current n c =
      Returns-require (Ends c.client current)
        (is_owned js ports reader c.client current && same_text current.name (some c.client.name))
        ReasonCode.ownership _ c
        (λ g.
          Returns-continue (Same c.client) (Ends c.client current) _ _
            (Returns-of_kept (λ (s : Cell W). s.client ≡ c.client) _
              ((Keeps-transport js ports reader (λ k. k ≡ c.client)
                  (call js ports Method.put (model_path js c.client "")
                    (some (js.stringify (edit_body js ports reader current n))))).at
                c refl))
            (λ response s same.
              Returns-continue (Same c.client) (Ends c.client current) _
                (lift (reader.created response) s)
                (Returns-of_kept (λ (t : Cell W). t.client ≡ c.client)
                  (lift (reader.created response) s) same)
                (λ updated t same'.
                  update_receipt c.client current updated n t
                    (first_of_three (present c.client.owned_uid)
                      (same_text current.uid c.client.owned_uid)
                      (same_text current.name (some c.client.name)) g)
                    (middle_of_three (present c.client.owned_uid)
                      (same_text current.uid c.client.owned_uid)
                      (same_text current.name (some c.client.name)) g)
                    same')))

  -- The operations that change the owned model.
  pub data Operation : Type 0 where
    start_it stop_it restart_it : Operation
    edit_it : ℕ → Operation

  abbrev pub perform : Operation → ModelActivation → Action Thrown (Cell W) Receipt
  perform start_it current = start js ports reader current
  perform stop_it current = stop js ports reader current
  perform restart_it current = restart js ports reader current
  perform (edit_it n) current = edit_context js ports reader current n

  -- A start, a stop, a restart or an edit of the context that returns gives a receipt under the uid
  -- that the client owns, with a generation beyond that of the activation it was given; and the
  -- client is as before.
  pub perform-IsAdvanced :
      (o : Operation) (current : ModelActivation) (c : Cell W)
      → Returns
          (λ r (s : Cell W).
            IsAdvanced c.client.owned_uid current.generation r × (s.client ≡ c.client))
          (perform o current c)
  perform-IsAdvanced start_it current c = start-Ends current c
  perform-IsAdvanced stop_it current c = stop-Ends current c
  perform-IsAdvanced restart_it current c = restart-Ends current c
  perform-IsAdvanced (edit_it n) current c = edit_context-Ends current n c
