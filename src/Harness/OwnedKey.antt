-- ===== src/Harness/OwnedKey.antt =====
-- The client for disposable API keys, dashboard/apps/web/regression/core/owned-key.ts: its fence
-- around requests, and the adapter that the journal's cleanup calls. Parameters are the network,
-- the journal's guard, the reading of JSON texts, and encodeURIComponent.
pub mod Adapter
pub mod Cleanup
pub mod Tests
use aippliance_magic_stick.Prelude.{
  ℕ, suc, Bool, true, false, Option, none, some, List, [], ◌∷◌, ◌++◌, String, ◌&&◌, ◌||◌, not,
  if◌then◌else◌, is_some, ltb, leb, ◌==◌, length, all, map,
}
use Prim.Native.String
use aippliance_magic_stick.Prelude.Result.{
  Result, ok, err, Action, pure, throw, gets, lift, modify, try_catch, finally, ◌>>=◌, ◌>>◌,
}
use aippliance_magic_stick.Prelude.Text.{
  str_eq, includes, codes, strip, is_digit, is_lower, is_upper,
}
use aippliance_magic_stick.Harness.Errors.{
  ReasonCode, Thrown, harness, other, of_code, require_safe,
}
use aippliance_magic_stick.Harness.Journal.Entry.{
  ResourceKind, JournalEntry, is_resource_name, same_kind,
}

pub data Method : Type 0 where
  get post delete another : Method

pub record Call : Type 0 where
  pub method : Method
  pub origin : String
  pub pathname : String
  pub search : String
  pub hash : String
  pub body : Option String

pub record Response : Type 0 where
  pub status : ℕ
  pub content_type : String
  pub length : ℕ
  pub text : String

pub record KeyItem : Type 0 where
  pub id : String
  pub name : String

-- The fields of a create response that are read, where they are texts.
pub record Created : Type 0 where
  pub id : Option String
  pub name : Option String
  pub key : Option String

-- A JSON object: its keys, and its field `name` if that is a text.
pub record Payload : Type 0 where
  pub keys : List String
  pub name : Option String

-- What `lastRequest` records.
pub record LastRequest : Type 0 where
  pub method : Method
  pub http_status : Option ℕ
  pub request_attempted : Bool

pub record Ports (W : Type 0) : Type 0 where
  pub fetch : Call → Action Thrown W Response
  pub assert_mutation_allowed : Action Thrown W (Unit {0})
  pub parse : String → Option Payload
  pub body_of : String → String
  pub encode : String → String
  pub read_list : Response → Result Thrown (Option (List KeyItem))
  pub read_created : Response → Result Thrown Created
  pub base_origin : String

-- The object and the world.
pub record KeyCell (W : Type 0) : Type 0 where
  pub prefix : String
  pub owned_ids : List String
  pub last_request : Option LastRequest
  pub world : W

abbrev pub starts_with : String → String → Bool
starts_with s prefix = is_some (strip (codes prefix) (codes s))

-- `[A-Za-z0-9._:-]`
abbrev is_id_char : ℕ → Bool
is_id_char c =
    is_lower c || is_upper c || is_digit c || c == b'.' || c == b'_' || c == b':' || c == b'-'

-- `/^[A-Za-z0-9._:-]{16,256}$/`
abbrev is_id_codes : List ℕ → Bool
is_id_codes cs = leb 16 (length cs) && leb (length cs) 256 && all is_id_char cs

unfoldable pub is_id : String → Bool
is_id s = is_id_codes (codes s)

-- `this.ownedIds.has(match[1])`, where the path is the collection's and one of the ids.
abbrev deletes : List String → String → Bool
deletes [] path = false
deletes (id ∷ ids) path =
    is_id id && str_eq path (String.◌++◌ "/api/api-access/" id) || deletes ids path

abbrev has_infix : List ℕ → List ℕ → Bool
has_infix p [] = false
has_infix p (c ∷ cs) = is_some (strip p (c ∷ cs)) || has_infix p cs

abbrev pub is_get : Method → Bool
is_get Method.get = true
is_get _ = false

-- The ids of the journal's key entries that the constructor takes over.
abbrev pub takes_over : String → JournalEntry → Bool
takes_over prefix item = same_kind item.kind ResourceKind.key && starts_with item.name prefix

abbrev taken : Bool → Option String → List String → List String
taken false uid rest = rest
taken true none rest = rest
taken true (some uid) rest = if str_eq uid "" then rest else uid ∷ rest

unfoldable pub ids_of : String → List JournalEntry → List String
ids_of prefix [] = []
ids_of prefix (item ∷ items) = taken (takes_over prefix item) item.uid (ids_of prefix items)

unfoldable pub new_client : {W : Type 0} → String → List JournalEntry → W → KeyCell W
unfolding ids_of
new_client prefix journal world = record {
  prefix = prefix;
  owned_ids = ids_of prefix journal;
  last_request = none;
  world = world;
}

abbrev pub is_absent : Option String → Bool
is_absent none = true
is_absent (some s) = str_eq s ""

abbrev names_with : String → Option Payload → Bool
names_with prefix none = false
names_with prefix (some p) = length p.keys == 1 && named p.name
  where
    named : Option String → Bool
    named none = false
    named (some n) = starts_with n prefix

abbrev parsed : {W : Type 0} → Ports W → Option String → Option Payload
parsed ports none = none
parsed ports (some body) = ports.parse body

-- The checks of the transport on a request, by its method.
abbrev may_call : {W : Type 0} → Ports W → String → List String → Call → Method → Bool
may_call ports prefix ids r Method.get = str_eq r.pathname "/api/api-access" && is_absent r.body
may_call ports prefix ids r Method.post =
    str_eq r.pathname "/api/api-access" && names_with prefix (parsed ports r.body)
may_call ports prefix ids r Method.delete = deletes ids r.pathname && is_absent r.body
may_call ports prefix ids r Method.another = false

unfoldable pub may_send : {W : Type 0} → Ports W → String → List String → Call → Bool
may_send ports prefix ids r =
    str_eq r.origin ports.base_origin
    && str_eq r.search ""
    && str_eq r.hash ""
    && may_call ports prefix ids r r.method

abbrev is_success : ℕ → Bool
is_success status = leb 200 status && ltb status 300

-- `catch { throw new HarnessError('API') }`, and the same for all but HarnessErrors.
abbrev pub as_api : {S A : Type 0} → Thrown → Action Thrown S A
as_api (harness e) = throw (harness e)
as_api other = throw (of_code ReasonCode.api)

module _ {W : Type 0} (ports : Ports W) where
  abbrev pub world : {A : Type 0} → Action Thrown W A → Action Thrown (KeyCell W) A
  world m c = ((m c.world).0, record c { world = (m c.world).1 })

  abbrev pub note : LastRequest → Action Thrown (KeyCell W) (Unit {0})
  note r = modify (λ c. record c { last_request = some r })

  abbrev pub guard_unless_get : Method → Action Thrown (KeyCell W) (Unit {0})
  guard_unless_get Method.get = pure tt
  guard_unless_get _ = world ports.assert_mutation_allowed

  abbrev pub is_json : Response → Bool
  is_json response =
      is_success response.status
      && has_infix (codes "application/json") (codes response.content_type)

  -- The function `transport` after its checks on the request.
  unfoldable pub send : Call → Action Thrown (KeyCell W) Response
  send r = do
    note (record { method = r.method; http_status = none; request_attempted = false })
    guard_unless_get r.method
    note (record { method = r.method; http_status = none; request_attempted = true })
    response ← try_catch (world (ports.fetch r)) (λ e. throw (of_code ReasonCode.api))
    note
        (record { method = r.method; http_status = some response.status; request_attempted = true })
    require_safe (is_json response) ReasonCode.api
    require_safe (ltb response.length 2097152) ReasonCode.api
    pure response

  unfoldable pub transport : Call → Action Thrown (KeyCell W) Response
  transport r = do
    allowed ← gets (λ (c : KeyCell W). may_send ports c.prefix c.owned_ids r)
    require_safe allowed ReasonCode.mutation
    send r

  -- The requests that MagicStickApi makes.
  abbrev pub call : Method → String → Option String → Call
  call method path body = record {
    method = method;
    origin = ports.base_origin;
    pathname = path;
    search = "";
    hash = "";
    body = body;
  }

  abbrev pub array_of : Option (List KeyItem) → Action Thrown (KeyCell W) (List KeyItem)
  array_of none = throw (of_code ReasonCode.api)
  array_of (some items) = pure items

  -- `list()`
  unfoldable pub list : Action Thrown (KeyCell W) (List KeyItem)
  unfolding transport
  list =
      try_catch
        (do
          response ← transport (call Method.get "/api/api-access" none)
          items ← lift (ports.read_list response)
          array_of items)
        as_api

  abbrev may_name : String → String → Bool
  may_name prefix name = starts_with name prefix && is_resource_name (codes name)

  abbrev adopt_id : Option String → Action Thrown (KeyCell W) String
  adopt_id none = throw (of_code ReasonCode.api)
  adopt_id (some id) = do modify (λ c. record c { owned_ids = id ∷ c.owned_ids }); pure id

  abbrev text_holds : (String → Bool) → Option String → Bool
  text_holds p none = false
  text_holds p (some s) = p s

  -- `adoptCredential(name, value)`, which returns the id; the secret is the key of the response.
  unfoldable pub adopt_credential : String → Created → Action Thrown (KeyCell W) String
  unfolding is_id
  adopt_credential name value = do
    prefix ← gets (λ (c : KeyCell W). c.prefix)
    require_safe (may_name prefix name) ReasonCode.ownership
    require_safe
        (text_holds is_id value.id
          && text_holds (λ n. str_eq n name) value.name
          && text_holds (λ k. starts_with k "sk-") value.key)
        ReasonCode.api
    adopt_id value.id

  -- `createCredential(name)`
  unfoldable pub create_credential : String → Action Thrown (KeyCell W) String
  unfolding transport adopt_credential
  create_credential name = do
    prefix ← gets (λ (c : KeyCell W). c.prefix)
    require_safe (may_name prefix name) ReasonCode.ownership
    try_catch
        (do
          response ← transport (call Method.post "/api/api-access" (some (ports.body_of name)))
          value ← lift (ports.read_created response)
          adopt_credential name value)
        as_api
