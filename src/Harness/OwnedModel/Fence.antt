-- ===== src/Harness/OwnedModel/Fence.antt =====
-- The fence of OwnedModelClient (owned-model.ts) around its requests, and sending them.
use aippliance_magic_stick.Prelude.{
  ℕ, Bool, true, false, Option, none, some, List, [], ◌∷◌, String, ◌&&◌, ◌||◌, not, if◌then◌else◌,
  is_some, ltb, leb, ◌==◌, any, max,
}
use Prim.Native.String
use aippliance_magic_stick.Prelude.Result.{
  Result, ok, err, Action, pure, throw, gets, lift, try_catch, ◌>>=◌, ◌>>◌,
}
use aippliance_magic_stick.Prelude.Text.{str_eq, codes, Labels}
use aippliance_magic_stick.Harness.Errors.{ReasonCode, Thrown, other, of_code, require_safe}
use aippliance_magic_stick.Harness.OwnedModel.{
  Json, text, num, flag, obj, null, Fields, end, field, Js, Client, create_payload, revision_uid,
}

pub data Method : Type 0 where
  get post put another : Method

-- A request; `params` are the search parameters of its URL.
pub record Call : Type 0 where
  pub method : Method
  pub origin : String
  pub pathname : String
  pub search : String
  pub params : Labels
  pub hash : String
  pub body : Option String

pub record Response : Type 0 where
  pub status : ℕ
  pub is_json : Bool
  pub length : ℕ
  pub text : String

pub record Ports (W : Type 0) : Type 0 where
  pub fetch : Call → Action Thrown W Response
  pub assert_mutation_allowed : Action Thrown W (Unit {0})
  pub base_origin : String

pub record Cell (W : Type 0) : Type 0 where
  pub client : Client
  pub world : W

-- `value?.[key]` of a JSON value, and `Object.keys(value ?? {})`.
abbrev pub lookup_field : Fields → String → Option Json
lookup_field end key = none
lookup_field (field k v f) key =
    let rest = lookup_field f key in if str_eq k key then some v else rest

abbrev pub get_field : Json → String → Option Json
get_field (obj f) key = lookup_field f key
get_field _ key = none

abbrev pub field_keys : Fields → List String
field_keys end = []
field_keys (field k v f) = k ∷ field_keys f

abbrev pub keys_of : Option Json → List String
keys_of (some (obj f)) = field_keys f
keys_of _ = []

abbrev pub only_key : List String → String → Bool
only_key (k ∷ []) key = str_eq k key
only_key _ key = false

abbrev pub pair_keys : List String → String → String → Bool
pair_keys (j ∷ k ∷ []) a b = str_eq j a && str_eq k b || str_eq j b && str_eq k a
pair_keys _ a b = false

abbrev pub is_object : Json → Bool
is_object (obj f) = true
is_object _ = false

abbrev pub text_of : Option Json → Option String
text_of (some (text s)) = some s
text_of _ = none

abbrev same_codes : List ℕ → List ℕ → Bool
same_codes [] [] = true
same_codes (a ∷ s) (b ∷ t) = a == b && same_codes s t
same_codes [] (b ∷ t) = false
same_codes (a ∷ s) [] = false

abbrev pub revision_in : Option String → Option (List ℕ)
revision_in none = none
revision_in (some s) = revision_uid s

-- `parts?.[1] === this.ownedUid`, where both sides may be undefined.
abbrev pub same_uid : Option (List ℕ) → Option String → Bool
same_uid none none = true
same_uid (some p) (some uid) = same_codes p (codes uid)
same_uid none (some uid) = false
same_uid (some p) none = false

abbrev pub in_range : ℕ → Option Json → Bool
in_range top (some (num n)) = leb 256 n && leb n (max 4096 top)
in_range top _ = false

abbrev pub local_of : Option Json → Json
local_of none = null
local_of (some j) = j

module _ (js : Js) (c : Client) where
  abbrev pub model_path : String → String
  model_path suffix = String.◌++◌ "/api/models/" (String.◌++◌ (js.encode c.name) suffix)

  abbrev is_tail : Labels → Bool
  is_tail ((k, v) ∷ []) = str_eq k "tailLines" && str_eq v "300"
  is_tail _ = false

  abbrev pub may_get : Call → Bool
  may_get r =
      str_eq r.pathname "/api/models" && str_eq r.search ""
      || str_eq r.pathname (model_path "/logs") && is_tail r.params

  -- A lifecycle action; only a realtime model has a restart.
  abbrev pub is_action : String → Bool
  is_action path =
      str_eq path (model_path "/start")
      || str_eq path (model_path "/stop")
      || is_some c.fixture.realtime && str_eq path (model_path "/restart")

  abbrev pub owned_revision : Json → Bool
  owned_revision body =
      is_some c.owned_uid
      && is_object body
      && only_key (keys_of (some body)) "expectedRevision"
      && same_uid (revision_in (text_of (get_field body "expectedRevision"))) c.owned_uid

  abbrev pub may_post : Call → Option Json → Bool
  may_post r none = false
  may_post r (some body) =
      str_eq r.search ""
      && (if str_eq r.pathname "/api/models/local"
          then str_eq (js.stringify body) (js.stringify (create_payload js c))
          else is_action r.pathname && owned_revision body)

  abbrev pub parsed : Option String → Option Json
  parsed none = none
  parsed (some s) = js.parse s

  abbrev pub may_edit : Json → Bool
  may_edit body =
      same_uid (revision_in (text_of (get_field body "expectedRevision"))) c.owned_uid
      && pair_keys (keys_of (some body)) "expectedRevision" "local"
      && only_key (keys_of (get_field body "local")) "contextWindow"
      && in_range c.fixture.context_window
          (get_field (local_of (get_field body "local")) "contextWindow")

  abbrev pub decided : Bool → Result Thrown (Unit {0})
  decided true = ok tt
  decided false = err (of_code ReasonCode.mutation)

  -- JSON.parse throws on an invalid body, and reading a field of null does; else MUTATION.
  abbrev pub put_body : Option Json → Result Thrown (Unit {0})
  put_body none = err other
  put_body (some null) = err other
  put_body (some (text s)) = decided (may_edit (text s))
  put_body (some (num n)) = decided (may_edit (num n))
  put_body (some (flag b)) = decided (may_edit (flag b))
  put_body (some (obj f)) = decided (may_edit (obj f))

  abbrev pub by_method : Call → Method → Result Thrown (Unit {0})
  by_method r Method.get = decided (may_get r)
  by_method r Method.post = decided (may_post r (parsed r.body))
  by_method r Method.put =
      if str_eq r.pathname (model_path "") && str_eq r.search ""
      then put_body (parsed r.body)
      else err (of_code ReasonCode.mutation)
  by_method r Method.another = err (of_code ReasonCode.mutation)

  -- The checks of `transport`, up to the first use of the network.
  unfoldable pub fence : String → Call → Result Thrown (Unit {0})
  fence base_origin r =
      if str_eq r.origin base_origin && str_eq r.hash ""
      then by_method r r.method
      else err (of_code ReasonCode.mutation)

-- `[400, 401, 403, 404, 409, 422]`
abbrev is_rejection : ℕ → Bool
is_rejection s = any (λ k. k == s) (400 ∷ 401 ∷ 403 ∷ 404 ∷ 409 ∷ 422 ∷ [])

module _ {W : Type 0} (js : Js) (ports : Ports W) where
  abbrev pub world : {A : Type 0} → Action Thrown W A → Action Thrown (Cell W) A
  world m c = ((m c.world).0, record c { world = (m c.world).1 })

  abbrev pub guard_unless_get : Method → Action Thrown (Cell W) (Unit {0})
  guard_unless_get Method.get = pure tt
  guard_unless_get _ = world ports.assert_mutation_allowed

  abbrev pub is_rejected : Call → Response → Bool
  is_rejected r response = str_eq r.pathname "/api/models/local" && is_rejection response.status

  abbrev pub is_success : Response → Bool
  is_success response = leb 200 response.status && ltb response.status 300 && response.is_json

  -- The checks on the response; ModelCreateRejected is the HarnessError('API') that it extends.
  abbrev pub checked : Call → Response → Action Thrown (Cell W) Response
  checked r response = do
    require_safe (not (is_rejected r response)) ReasonCode.api
    require_safe (is_success response) ReasonCode.api
    require_safe (ltb response.length 8388608) ReasonCode.api
    pure response

  -- `transport`
  unfoldable pub transport : Call → Action Thrown (Cell W) Response
  transport r = do
    client ← gets (λ (c : Cell W). c.client)
    lift (fence js client ports.base_origin r)
    guard_unless_get r.method
    response ← try_catch (world (ports.fetch r)) (λ e. throw (of_code ReasonCode.api))
    checked r response

  abbrev pub call : Method → String → Option String → Call
  call method path body = record {
    method = method;
    origin = ports.base_origin;
    pathname = path;
    search = "";
    params = [];
    hash = "";
    body = body;
  }
