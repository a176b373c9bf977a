-- ===== src/Runtime/Requests.antt =====
-- Requests to the services (`requestJson`, `buildUrl`, the choice of the origin that they go to, and
-- `readApi` and `writeApi` over them, frontend/src/js/common/read-api.js and write-api.js).
pub mod Laws
use Prim.Native.String.{[], ◌∷◌, ◌++◌}
use soldesk.Prelude.{
  ℕ, ◌+◌, Char, code, String, List, Option, none, some, Bool, true, false, not, ◌&&◌, ◌||◌, ◌===◌,
  ◌==◌, leb, if◌then◌else◌,
}
use soldesk.Js.Text.{print, starts_with}
use soldesk.Js.Value.{
  Engine, Value, undefined, null, boolean, number, text, object, truthy, or_else, string_of,
  text_or_empty, is_nullish, is_text,
}
use soldesk.Account.{Fields, field, set_field}
use soldesk.Router.{set_param}

-- A letter of ASCII in lower case, by its number.
pub fold : ℕ → ℕ
fold c = if leb 65 c && leb c 90 then c + 32 else c

-- A prefix in lower case, up to the case of the text.
unfoldable pub begins_with : String → String → Bool
unfolding fold
begins_with [] s = true
begins_with (c ∷ prefix) [] = false
begins_with (c ∷ prefix) (d ∷ s) = fold (code d) == code c && begins_with prefix s

-- `/^https?:\/\//i`
unfoldable pub has_scheme : String → Bool
unfolding begins_with
has_scheme s = begins_with "http://" s || begins_with "https://" s

-- `s.replace(/\/$/, '')`
unfoldable pub without_last_slash : String → String
without_last_slash [] = ""
without_last_slash (c ∷ []) = if code c == 47 then "" else c ∷ ""
without_last_slash (c ∷ (d ∷ s)) = c ∷ without_last_slash (d ∷ s)

-- What `getTicketingApiOrigin` looks at, in its order: the global variable, the stored text, the meta
-- element and the configuration; a look that throws counts as undefined.
pub record Origins : Type 0 where
  pub from_window : Value
  pub from_storage : Value
  pub from_meta : Value
  pub from_config : Value

-- `resolveTicketingApiUrl`, by the origin.
unfoldable pub resolve_with : String → String → String
resolve_with origin u =
    if not (starts_with "/api/" u) then u else if origin === "" then u else origin ++ u

-- The answers as the pages tell them apart: null, a value that is no object, or an object.
pub data Data : Type 0 where
  null_data plain_data : Data
  object_data : Fields → Data

-- What the network gives: no answer, or one with its status; a body that does not parse is null.
pub data Reply : Type 0 where
  unreachable : Reply
  response : Bool → ℕ → Data → Reply

-- An error of `requestJson`; it has no status and no data where the network gave no answer.
pub record HttpError : Type 0 where
  pub message : String
  pub status : Option ℕ
  pub error_data : Option Data

pub data Outcome : Type 0 where
  returned : Data → Outcome
  thrown : HttpError → Outcome

pub data Body : Type 0 where
  no_body : Body
  text_body : String → Body
  -- any other value, with the text that `JSON.stringify` gives for it
  json_body : String → Body

pub record Options : Type 0 where
  pub method : Value
  pub headers : Fields
  pub body : Body
  pub query : Option Fields
  pub cache : Value
  pub credentials : Value

pub record Request : Type 0 where
  pub path : String
  -- what the query sets in the address
  pub params : Option (List (String × String))
  pub method : String
  pub headers : Fields
  pub body : Option String
  pub cache : Value
  pub credentials : Value

unfoldable pub has_body : Body → Bool
has_body no_body = false
has_body _ = true

body_text : Body → Option String
body_text no_body = none
body_text (text_body s) = some s
body_text (json_body s) = some s

-- The type of a body that is there or that the method lets expect, unless the caller gives one, under
-- either spelling.
unfoldable pub takes_type : Bool → Fields → Bool
takes_type wants headers =
    wants
    && not (truthy (field "Content-Type" headers))
    && not (truthy (field "content-type" headers))

unfoldable pub with_type : Bool → Fields → Fields
unfolding takes_type
with_type wants headers =
    if takes_type wants headers
    then set_field "Content-Type" (text "application/json") headers
    else headers

module _ (js : Engine) where
  -- What `requestJson` makes of a reply.
  message_of : ℕ → Data → String
  message_of status (object_data fs) =
      if truthy (field "message" fs)
      then string_of js (field "message" fs)
      else "HTTP " ++ print status
  message_of status _ = "HTTP " ++ print status

  unfoldable pub outcome_of : Reply → Outcome
  unfolding message_of
  outcome_of unreachable =
      thrown (record { message = "서버에 연결할 수 없습니다."; status = none; error_data = none })
  outcome_of (response ok status answer) =
      if ok
      then returned answer
      else thrown (record {
        message = message_of status answer;
        status = some status;
        error_data = some answer;
      })

  -- `writeApi`: whether the caches are told, by the method and the outcome.
  unfoldable pub is_write : Value → Bool
  is_write method =
      let m = js.upper (string_of js (or_else method (text "POST"))) in
      m === "POST" || m === "PUT" || m === "PATCH" || m === "DELETE"

  unfoldable pub tells_caches : Value → Outcome → Bool
  unfolding is_write
  tells_caches method (returned answer) = is_write method
  tells_caches method (thrown e) = false

  unfoldable pub normalize_ticketing_api_origin : String → String
  unfolding has_scheme without_last_slash
  normalize_ticketing_api_origin raw =
      let s = without_last_slash (js.trim raw) in
      if s === "" then "" else if has_scheme s then s else "http://" ++ s

  -- A candidate that is a text which is not blank decides.
  unfoldable pub first_origin : Value → String → String
  unfolding normalize_ticketing_api_origin
  first_origin (text s) rest = if js.trim s === "" then rest else normalize_ticketing_api_origin s
  first_origin _ rest = rest

  unfoldable pub get_ticketing_api_origin : Origins → String
  unfolding first_origin
  get_ticketing_api_origin o =
      first_origin o.from_window
        (first_origin o.from_storage (first_origin o.from_meta (first_origin o.from_config "")))

  unfoldable pub resolve_ticketing_api_url : Origins → String → String
  unfolding get_ticketing_api_origin resolve_with
  resolve_ticketing_api_url o u = resolve_with (get_ticketing_api_origin o) u

  -- `resolveReadTarget` and `resolveWriteTarget`; `requestJson` resolves once more.
  unfoldable pub resolve_read_target : Origins → String → String
  unfolding resolve_ticketing_api_url
  resolve_read_target o path = resolve_ticketing_api_url o ("/api/read" ++ path)

  unfoldable pub resolve_write_target : Origins → String → String
  unfolding resolve_ticketing_api_url
  resolve_write_target o path = resolve_ticketing_api_url o ("/api/write" ++ path)

  -- `buildUrl`: what a query sets in an address; undefined, null and the empty text are left out.
  unfoldable pub build_params : Fields → List (String × String) → List (String × String)
  build_params List.[] params = params
  build_params (List.◌∷◌ (key, value) query) params = build_params query (
      if is_nullish value || is_text "" value
      then params
      else set_param key (string_of js value) params)

  -- The token goes with a request unless the caller gives an authorization, under either spelling.
  unfoldable pub takes_token : String → Fields → Bool
  takes_token token headers =
      not (js.trim token === "")
      && not (truthy (field "Authorization" headers))
      && not (truthy (field "authorization" headers))

  unfoldable pub with_token : Value → Fields → Fields
  unfolding takes_token
  with_token (text token) headers =
      if takes_token token headers
      then set_field "Authorization" (text ("Bearer " ++ js.trim token)) headers
      else headers
  with_token _ headers = headers

  -- `requestJson` up to its call of `fetch`; `own` are the parameters that the address has itself.
  unfoldable pub request_json :
      Origins → Value → List (String × String) → String → Options → Request
  unfolding resolve_ticketing_api_url build_params with_token with_type body_text
  request_json o token own url opts =
      let method = js.upper (string_of js (or_else opts.method (text "GET"))) in
      let wants =
        has_body opts.body || method === "POST" || method === "PUT" || method === "PATCH" in
      record {
        path = resolve_ticketing_api_url o url;
        params = elim opts.query [ none ↦ none | some query ↦ some (build_params query own) ];
        method = method;
        headers = with_type wants (with_token token opts.headers);
        body = body_text opts.body;
        cache = or_else opts.cache (text "default");
        credentials = or_else opts.credentials (text "include");
      }
