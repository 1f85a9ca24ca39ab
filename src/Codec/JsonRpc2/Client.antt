-- ===== src/Codec/JsonRpc2/Client.antt =====
-- codec/jsonrpc2/client.go: the client's half. encoding/json and strconv are parameters.
use go_plugins.Prelude.{
  ℕ, ◌-◌, ◌^◌, String, Bool, true, false, not, ◌&&◌, ◌||◌, List, [], ◌∷◌, ◌++◌, Option, none, some,
  ◌==◌, string_eq, nat_eq, if◌then◌else◌, length, ltb, or_else,
}
use go_plugins.Prelude.Dict.{Dict, lookup, insert, remove}
use go_plugins.Codec.JsonRpc2.Json.{Raw, null, Object, has, is_null, Message, Key, text, key_eq}
use go_plugins.Codec.JsonRpc2.Errors.{RpcError}

-- The kinds of `reflect` that the checks tell apart; a map's flag tells whether its key is a string.
pub data Kind : Type 0 where
  map : Bool → Kind
  slice array struct other : Kind

-- A parameter: nil, a value of a kind, or a pointer to one. `is_nil` is that of the map or slice.
pub data Param : Type 0 where
  nil : Param
  direct pointer : Kind → (is_nil : Bool) → Raw → Param

unfoldable pub direct_param : Kind → Bool → Raw → Option (Option Raw)
direct_param (map string_key) is_nil v = some (if string_key && is_nil then none else some v)
direct_param slice is_nil v = some (if is_nil then none else some v)
direct_param array is_nil v = some (some v)
direct_param struct is_nil v = some (some v)
direct_param other is_nil v = none

-- What is sent as "params": `none` is the error, `some none` leaves it out.
unfoldable pub params_of : Param → Option (Option Raw)
unfolding direct_param
params_of nil = some none
params_of (direct k is_nil v) = direct_param k is_nil v
params_of (pointer k is_nil v) = direct_param k is_nil v

-- `clientRequest`; its version is always 2.0.
pub record Request : Type 0 where
  pub method : String
  pub params : Option Raw
  pub id : Option String

-- The id of a response: a JSON string, a number, null, or a value that no map takes for a key.
pub data ResponseId : Type 0 where
  id_null : ResponseId
  id_text : String → ResponseId
  id_number : ℕ → ResponseId
  id_structure : ResponseId

-- `clientResponse`.
pub record Response : Type 0 where
  pub version : String
  pub id : ResponseId
  pub result : Option Raw
  pub error : Option RpcError

pub data Fault : Type 0 where
  unsupported_param encode_failed end_of_file bad_response unmarshal_failed : Fault
  server_error : Option RpcError → Fault

-- encoding/json and strconv: `error_text` is `Error()` of an error object, `parse_int` the uint64 of
-- what `ParseInt` returns, `left_over` what a failed decoding leaves in the response.
pub record Json : Type 0 where
  pub into_response : Raw → Option Response
  pub into_object : Raw → Option Object
  pub into_value : Raw → Bool
  pub writes : Request → Bool
  pub error_text : RpcError → String
  pub parse_int : String → ℕ
  pub left_over : Raw → Response

pub record Client : Type 0 where
  pub resp : Response
  pub pending : Dict Key String
  pub sent : List Request

abbrev pub seq_notify : ℕ
seq_notify = 2 ^ 64 - 1

-- A request with its id, unless the id is that of a notification.
unfoldable pub send_request : Json → Message → Option Raw → Client → Option Fault × Client
send_request j m params c =
    let notify = j.parse_int m.id == seq_notify in
    let req : Request = record {
      method = m.endpoint;
      params = params;
      id = if notify then none else some m.id;
    } in
    let c' = record c {
      pending = if notify then c.pending else insert (text m.id) m.endpoint c.pending;
    } in
    if j.writes req
    then (none, record c' { sent = c'.sent ++ req ∷ [] })
    else (some encode_failed, c')

-- `Write`.
unfoldable pub write : Json → Message → Param → Client → Option Fault × Client
unfolding send_request
write j m x c = elim (params_of x) [
  | none ↦ (some unsupported_param, c)
  | some p ↦ send_request j m p c
]

-- The tests on the members of a response.
unfoldable pub bad_members : Object → Bool
bad_members o =
    not (has "jsonrpc" o)
    || not (has "id" o)
    || not (has "result" o || has "error" o)
    || (has "result" o && has "error" o)
    || ltb 3 (length o)

-- The tests on the members of its error object.
unfoldable pub bad_error : Object → Bool
bad_error oe =
    is_null "code" oe
    || is_null "message" oe
    || (not (has "data" oe) && ltb 2 (length oe))
    || ltb 3 (length oe)

unfoldable pub bad_error_member : Json → Object → Bool
bad_error_member j o =
    if has "error" o
    then (elim (lookup "error" o) [
      | none ↦ true
      | some none ↦ true
      | some (some raw) ↦ elim (j.into_object raw) [ none ↦ true | some oe ↦ bad_error oe ]
    ])
    else false

unfoldable pub kept_result : Object → Response → Option Raw
kept_result o r = elim r.result [
  | some v ↦ some v
  | none ↦ if has "result" o then some null else none
]

-- `clientResponse.UnmarshalJSON`; `none` is the error "bad response".
unfoldable pub unmarshal : Json → Raw → Option Response
unmarshal j raw = elim (j.into_response raw) [
  | none ↦ none
  | some r ↦ elim (j.into_object raw) [
    | none ↦ none
    | some o ↦
        if bad_members o
          || not (r.version == "2.0")
          || bad_error_member j o
          || (is_null "id" o && not (has "error" o))
        then none
        else some (record r { result = kept_result o r })
  ]
]

abbrev pub reset : Response
reset = record { version = ""; id = id_null; result = none; error = none }

unfoldable pub new_client : Client
new_client = record { resp = reset; pending = []; sent = [] }

-- A panic, or what the call returns.
pub data Run {ℓ} (A : Type ℓ) : Type ℓ where
  panics : Run A
  returns : A → Run A

-- `ReadHeader` behind the decoder: a number finds no method and panics as it is no string; a
-- structure panics as a key.
unfoldable pub accept : Json → Response → Message → Client → Run (Option Fault × Message × Client)
accept j r m c = elim r.id [
  | id_null ↦ returns (some (server_error r.error), m, record c { resp = r })
  | id_text s ↦ returns (
    none,
    record m {
      endpoint = or_else (lookup (text s) c.pending) "";
      error = elim r.error [ none ↦ "" | some e ↦ j.error_text e ];
      id = s;
    },
    record c { resp = r; pending = remove (text s) c.pending },
  )
  | id_number n ↦ panics
  | id_structure ↦ panics
]

-- `ReadHeader`: `none` is the end of the input.
unfoldable pub read_header :
    Json → Option Raw → Message → Client → Run (Option Fault × Message × Client)
unfolding accept
read_header j none m c = returns (some end_of_file, m, record c { resp = reset })
read_header j (some raw) m c = elim (unmarshal j raw) [
  | none ↦ returns (some bad_response, m, record c { resp = j.left_over raw })
  | some r ↦ accept j r m c
]

-- `ReadBody`: reads the result behind its pointer.
unfoldable pub read_body : Json → Bool → Client → Run (Option Fault)
read_body j false c = returns none
read_body j true c = elim c.resp.result [
  | none ↦ panics
  | some v ↦ returns (if j.into_value v then none else some unmarshal_failed)
]
