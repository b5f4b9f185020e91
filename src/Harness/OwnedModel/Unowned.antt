-- ===== src/Harness/OwnedModel/Unowned.antt =====
-- What the fence of OwnedModelClient (owned-model.ts) lets through before a model is owned.
use aippliance_magic_stick.Prelude.{
  Bool, true, false, Option, none, some, List, String, ◌&&◌, if◌then◌else◌, ◌≡◌, refl, subst, arith,
  ℕ, is_some,
}
use aippliance_magic_stick.Prelude.Result.{Result, ok, err}
use aippliance_magic_stick.Prelude.Text.{str_eq}
use aippliance_magic_stick.Harness.Errors.{ReasonCode, Thrown, of_code}
use aippliance_magic_stick.Harness.OwnedModel.{
  Json, text, num, flag, obj, null, Js, Client, create_payload,
}
use aippliance_magic_stick.Harness.OwnedModel.Fence.{
  Method, Call, get_field, same_uid, revision_in, text_of, model_path, is_object, only_key,
  pair_keys, keys_of, in_range, local_of, is_action, owned_revision, may_post, parsed, may_edit,
  decided, put_body, by_method, fence,
}

-- The revision of an edit has not the form of a generation.
abbrev NoGeneration : Json → Type 0
NoGeneration body = revision_in (text_of (get_field body "expectedRevision")) ≡ none

-- The requests that may pass while no uid is owned, by their method.
abbrev pub Harmless : Js → Client → Call → Method → Type 0
Harmless js c r Method.get = Unit
Harmless js c r Method.post =
    (str_eq r.pathname "/api/models/local" ≡ true)
    × ((body : Json) × (parsed js c r.body ≡ some body)
        × (str_eq (js.stringify body) (js.stringify (create_payload js c)) ≡ true))
Harmless js c r Method.put =
    (str_eq r.pathname (model_path js c "") ≡ true)
    × ((body : Json) × (parsed js c r.body ≡ some body) × NoGeneration body)
Harmless js c r Method.another = ⊥

none_of-same_uid : (x : Option (List ℕ)) → same_uid x none ≡ true → x ≡ none
none_of-same_uid none h = refl
none_of-same_uid (some p) h = cc

decided-true : (js : Js) (c : Client) (b : Bool) → decided js c b ≡ ok tt → b ≡ true
decided-true js c true h = refl
decided-true js c false h = cc

first_of_four : (a b c d : Bool) → (((a && b) && c) && d) ≡ true → a ≡ true
first_of_four a b c d h = ground arith

local_of_post :
    (s t e a o : Bool)
    → (s && (if t then e else (a && o))) ≡ true
    → o ≡ false
    → (t ≡ true) × (e ≡ true)
local_of_post s t e a o h k = ground arith

false_first : (a b c d : Bool) → a ≡ false → (((a && b) && c) && d) ≡ false
false_first a b c d h = ground arith

is_some-none : (o : Option String) → o ≡ none → is_some o ≡ false
is_some-none none h = refl
is_some-none (some s) h = cc

module _ (js : Js) (c : Client) (unowned : c.owned_uid ≡ none) where
  owned_revision-false : (b : Json) → owned_revision js c b ≡ false
  owned_revision-false b =
      false_first (is_some c.owned_uid) (is_object b)
        (only_key (keys_of (some b)) "expectedRevision")
        (same_uid (revision_in (text_of (get_field b "expectedRevision"))) c.owned_uid)
        (is_some-none c.owned_uid unowned)

  post_body :
      (r : Call) (body : Option Json)
      → may_post js c r body ≡ true
      → (str_eq r.pathname "/api/models/local" ≡ true)
        × ((b : Json) × (body ≡ some b)
            × (str_eq (js.stringify b) (js.stringify (create_payload js c)) ≡ true))
  post_body r none h = absurd (ground (arith, h))
  post_body r (some b) h =
      let both =
        local_of_post (str_eq r.search "") (str_eq r.pathname "/api/models/local")
          (str_eq (js.stringify b) (js.stringify (create_payload js c))) (is_action js c r.pathname)
          (owned_revision js c b) h (owned_revision-false b) in
      (both.0, (b, refl, both.1))

  edit_body : (body : Json) → may_edit js c body ≡ true → NoGeneration body
  edit_body body h =
      let revision = revision_in (text_of (get_field body "expectedRevision")) in
      none_of-same_uid revision (
        subst (λ o. same_uid revision o ≡ true) unowned
          (first_of_four (same_uid revision c.owned_uid)
            (pair_keys (keys_of (some body)) "expectedRevision" "local")
            (only_key (keys_of (get_field body "local")) "contextWindow")
            (in_range c.fixture.context_window
              (get_field (local_of (get_field body "local")) "contextWindow"))
            h))

  put_passes :
      (o : Option Json)
      → put_body js c o ≡ ok tt
      → (body : Json) × (o ≡ some body) × NoGeneration body
  put_passes none h = cc
  put_passes (some null) h = cc
  put_passes (some (text s)) h = (text s, refl, edit_body (text s) (decided-true js c _ h))
  put_passes (some (num n)) h = (num n, refl, edit_body (num n) (decided-true js c _ h))
  put_passes (some (flag b)) h = (flag b, refl, edit_body (flag b) (decided-true js c _ h))
  put_passes (some (obj f)) h = (obj f, refl, edit_body (obj f) (decided-true js c _ h))

  put_path :
      (t u : Bool) (x : Result Thrown (Unit {0}))
      → (if t && u then x else err (of_code ReasonCode.mutation)) ≡ ok tt
      → (t ≡ true) × (x ≡ ok tt)
  put_path true true x h = (refl, h)
  put_path true false x h = cc
  put_path false u x h = cc

  passes : (r : Call) (m : Method) → by_method js c r m ≡ ok tt → Harmless js c r m
  passes r Method.get h = tt
  passes r Method.post h = post_body r (parsed js c r.body) (decided-true js c _ h)
  passes r Method.put h =
      let path =
        put_path (str_eq r.pathname (model_path js c "")) (str_eq r.search "")
          (put_body js c (parsed js c r.body)) h in
      (path.0, put_passes (parsed js c r.body) path.1)
  passes r Method.another h = cc

if_ok :
    (b : Bool) (x : Result Thrown (Unit {0}))
    → (if b then x else err (of_code ReasonCode.mutation)) ≡ ok tt
    → x ≡ ok tt
if_ok true x h = h
if_ok false x h = cc

-- While the client owns no uid, a request that its fence lets through is a read, or the creation of
-- the model with a body that reads as the reviewed payload, or an edit of the model whose revision
-- has not the form of a generation. The last is let through because both sides of the comparison
-- with the owned uid are then undefined.
pub fence-of_unowned :
    (js : Js) (c : Client) (base_origin : String) (r : Call)
    → c.owned_uid ≡ none
    → fence js c base_origin r ≡ ok tt
    → Harmless js c r r.method
unfolding fence
fence-of_unowned js c base_origin r unowned h =
    passes js c unowned r r.method
      (if_ok (str_eq r.origin base_origin && str_eq r.hash "") (by_method js c r r.method) h)
