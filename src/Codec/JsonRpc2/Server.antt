-- ===== src/Codec/JsonRpc2/Server.antt =====
-- codec/jsonrpc2/server.go: the server's half. What encoding/json makes of the bytes is a parameter.
use go_plugins.Prelude.{
  ℕ, ◌+◌, ◌%◌, ◌^◌, String, Bool, true, false, not, ◌&&◌, ◌||◌, List, [], ◌∷◌, ◌++◌, Option, none,
  some, ◌==◌, string_eq, nat_eq, if◌then◌else◌, length, is_nil, ltb,
}
use go_plugins.Prelude.Dict.{Dict, lookup, insert}
use go_plugins.Codec.JsonRpc2.Json.{
  Raw, null, Object, has, is_null, Message, Key, num, text, key_eq,
}
use go_plugins.Codec.JsonRpc2.Errors.{
  Code, parse_error, invalid_request, invalid_params, RpcError, detect, looks_like_json, first_is,
}

-- `serverRequest`.
pub record Request : Type 0 where
  pub version : String
  pub method : String
  pub params : Option Raw
  pub id : Option Raw

-- The fault texts of the source.
pub data Fault : Type 0 where
  read_failed bad_request not_object invalid_sequence unmarshal_failed encode_failed : Fault

-- What a response carries.
pub data Body : Type 0 where
  result_null : Body
  result : Raw → Body
  result_list : List Raw → Body
  -- An error text that was taken for JSON, and one that was wrapped.
  error_raw : String → Body
  error_of : RpcError → Body

pub data Reply : Type 0 where
  refused : Code → Reply
  respond : Raw → Body → Reply
  batch : List Raw → Reply

-- encoding/json: into the struct, into the map, into the caller's value, what a failed decoding
-- leaves in the request, and writing.
pub record Json : Type 0 where
  pub into_request : Raw → Option Request
  pub into_object : Raw → Option Object
  pub into_value : Raw → Bool
  pub writes : Reply → Bool
  pub left_over : Raw → Request

unfoldable pub starts_structure : Raw → Bool
unfolding first_is
starts_structure r = first_is b'[' r || first_is b'{' r

-- The first bytes that an id may not have.
unfoldable pub starts_no_id : Raw → Bool
unfolding first_is
starts_no_id r = first_is b't' r || first_is b'f' r || first_is b'{' r || first_is b'[' r

-- The checks on the members of the object.
unfoldable pub bad_members : Object → Bool
bad_members o =
    is_null "jsonrpc" o
    || is_null "method" o
    || (length o == 3 && not (has "id" o || has "params" o))
    || (length o == 4 && not (has "id" o && has "params" o))
    || ltb 4 (length o)

unfoldable pub bad_params : Object → Request → Bool
unfolding starts_structure
bad_params o r =
    if has "params" o
    then (elim r.params [ none ↦ true | some p ↦ is_nil p || not (starts_structure p) ])
    else false

-- The id that is kept: a null id is told from none.
unfoldable pub kept_id : Object → Request → Option Raw
kept_id o r = elim r.id [ some i ↦ some i | none ↦ if has "id" o then some null else none ]

unfoldable pub bad_id : Object → Option Raw → Bool
unfolding starts_no_id
bad_id o i =
    if has "id" o then (elim i [ none ↦ true | some x ↦ is_nil x || starts_no_id x ]) else false

-- `serverRequest.UnmarshalJSON`; `none` is the error "bad request".
unfoldable pub unmarshal : Json → Raw → Option Request
unmarshal j raw = elim (j.into_request raw) [
  | none ↦ none
  | some r ↦ elim (j.into_object raw) [
    | none ↦ none
    | some o ↦
        if bad_members o || not (r.version == "2.0") || bad_params o r || bad_id o (kept_id o r)
        then none
        else some (record r { id = kept_id o r })
  ]
]

-- `serverCodec`: the last request, the sequence number, the pending ids, and what was sent.
pub record Server : Type 0 where
  pub req : Request
  pub seq : ℕ
  pub pending : Dict Key (Option Raw)
  pub sent : List Reply

abbrev pub reset : Request
reset = record { version = ""; method = ""; params = none; id = none }

unfoldable pub new_server : Server
new_server = record { req = reset; seq = 0; pending = []; sent = [] }

-- The sequence number is a uint64.
abbrev pub bump : ℕ → ℕ
bump seq = (seq + 1) % 2 ^ 64

-- What `ReadHeader` reads: bytes that are a JSON value, or a failure of the decoder.
-- `decimal` is `fmt.Sprintf("%d", …)`.
unfoldable pub read_header :
    Json → (ℕ → String) → Option Raw → Message → Server → Option Fault × Message × Server
read_header j decimal raw m c = elim raw [
  | none ↦
      (some read_failed, m, record c { req = reset; sent = c.sent ++ refused parse_error ∷ [] })
  | some b ↦ elim (unmarshal j b) [
    | none ↦ (
      some bad_request,
      m,
      record c { req = j.left_over b; sent = c.sent ++ refused invalid_request ∷ [] },
    )
    | some r ↦
        let seq = bump c.seq in
        (
          none,
          record m { endpoint = r.method; id = decimal seq },
          record c {
            req = record r { id = none };
            seq = seq;
            pending = insert (num seq) r.id c.pending;
          },
        )
  ]
]

-- `ReadBody`: whether the caller wants the value.
unfoldable pub read_body : Json → Bool → Server → Option Code
read_body j false c = none
read_body j true c = elim c.req.params [
  | none ↦ none
  | some p ↦ if j.into_value p then none else some invalid_params
]

-- The value that is written: nothing, a value, or the replies of a batch.
pub data Value : Type 0 where
  nil : Value
  value : Raw → Value
  replies : List Raw → Value

unfoldable pub body_of : Message → Value → Body
unfolding looks_like_json detect
body_of m x =
    if m.error == ""
    then (elim x [ nil ↦ result_null | value v ↦ result v | replies vs ↦ result_list vs ])
    else if looks_like_json m.error
    then error_raw m.error
    else error_of (detect m.error)

unfoldable pub emit : Json → Reply → Server → Option Fault × Server
emit j r c =
    if j.writes r then (none, record c { sent = c.sent ++ r ∷ [] }) else (some encode_failed, c)

unfoldable pub respond_to : Json → Option Raw → Message → Value → Server → Option Fault × Server
unfolding body_of emit
respond_to j none m x c = (none, c)
respond_to j (some i) m x c = emit j (respond i (body_of m x)) c

unfoldable pub write_value : Json → Option Raw → Message → Value → Server → Option Fault × Server
unfolding respond_to emit
write_value j id m (replies vs) c =
    if m.endpoint == "JSONRPC2.Batch"
    then (if is_nil vs then (none, c) else emit j (batch vs) c)
    else respond_to j id m (replies vs) c
write_value j id m nil c = respond_to j id m nil c
write_value j id m (value v) c = respond_to j id m (value v) c

-- `Write`: the pending id is looked up under the message's id, a string.
unfoldable pub write : Json → Message → Value → Server → Option Fault × Server
unfolding write_value
write j m x c = elim (lookup (text m.id) c.pending) [
  | none ↦ (some invalid_sequence, c)
  | some id ↦ write_value j id m x c
]
