-- ===== src/Zentao/Client.antt =====
-- internal/service/zentao/client.go: getJSON, detail and the errors of a request.
use zentao_mcp.Base.{
  ℕ, Bool, false, ◌||◌, ◌⊎◌, inl, inr, Option, none, some, if◌then◌else◌, ltb, leb, ◌==◌,
}
use zentao_mcp.Base.Results.{either}
use zentao_mcp.Base.Text.{Text, trim_space}
use zentao_mcp.Json.{Value, null, bool, float, int, str, arr, obj, Fields, end, entry, at}
use zentao_mcp.Zentao.Values.{truncate}

pub record ApiError : Type 0 where
  pub path : Text
  pub status : ℕ
  pub body : Text
  pub auth_failed : Bool

-- An error of getJSON: `failed` wraps an error that is not an APIError.
pub data RequestFault (E : Type 0) : Type 0 where
  failed : E → RequestFault E
  undecoded : (path : Text) → RequestFault E
  api : ApiError → RequestFault E

-- What getJSON reads of a response.
pub record Answer : Type 0 where
  pub status : ℕ
  pub body : Text
  -- The response has the header AuthFailureHeader.
  pub has_auth_failure : Bool

-- A decoded body: `none` is the nil map, which `null` decodes to.
abbrev pub Payload : Type 0 → Type 0
Payload F = Option (Fields F)

module _ {E : Type 0} where
  unfoldable pub is_auth_failure : RequestFault E → Bool
  is_auth_failure (failed e) = false
  is_auth_failure (undecoded path) = false
  is_auth_failure (api e) = e.auth_failed

  -- `isDenied` (history.go)
  unfoldable pub is_denied : RequestFault E → Bool
  is_denied (failed e) = false
  is_denied (undecoded path) = false
  is_denied (api e) =
      if e.auth_failed
      then false
      else e.status == 400 || e.status == 401 || e.status == 403 || e.status == 404

  module _ {F : Type 0} (decode : Text → Option (Payload F)) where
    -- The result of json.Unmarshal.
    unfoldable pub decoded : (path : Text) → Option (Payload F) → RequestFault E ⊎ Payload F
    decoded path none = inl (undecoded path)
    decoded path (some payload) = inr payload

    unfoldable pub read_answer : (path : Text) → Answer → RequestFault E ⊎ Payload F
    unfolding decoded
    read_answer path resp =
        let fault = api (record {
          path = path;
          status = resp.status;
          body = truncate (trim_space resp.body) 300;
          auth_failed = resp.has_auth_failure;
        }) in
        if ltb resp.status 200 || leb 300 resp.status
        then inl fault
        else decoded path (decode resp.body)

    -- `getJSON` with what sending the request and reading the body give.
    unfoldable pub get_json : (path : Text) → E ⊎ Answer → RequestFault E ⊎ Payload F
    unfolding read_answer
    get_json path sent = either (λ e. inl (failed e)) (read_answer path) sent

-- The object under the key that wraps it, if it is not empty.
unfoldable pub unwrapped : {F : Type 0} → Fields F → Value F → Fields F
unwrapped payload null = payload
unwrapped payload (bool b) = payload
unwrapped payload (float t) = payload
unwrapped payload (int n) = payload
unwrapped payload (str s) = payload
unwrapped payload (arr vs) = payload
unwrapped payload (obj end) = payload
unwrapped payload (obj (entry k v m)) = entry k v m

unfoldable pub unwrap : {F : Type 0} → (wrap_key : Text) → Payload F → Payload F
unfolding unwrapped at
unwrap wrap_key none = none
unwrap wrap_key (some payload) = some (unwrapped payload (at wrap_key payload))

-- `detail` with the answer of getJSON.
unfoldable pub detail :
    {E F : Type 0} → (wrap_key : Text) → RequestFault E ⊎ Payload F → RequestFault E ⊎ Payload F
unfolding unwrap
detail wrap_key (inl e) = inl e
detail wrap_key (inr payload) = inr (unwrap wrap_key payload)
