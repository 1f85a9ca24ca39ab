-- ===== src/Codec/MsgpackRpc/Stream.antt =====
-- codec/msgpackrpc/codec.go: the codec over a connection.
use go_plugins.Prelude.{String, Bool, true, false, [], Option, none, some, if◌then◌else◌}
use go_plugins.Prelude.Outcome.{Outcome, ok, err}
use go_plugins.Codec.JsonRpc2.Json.{Message, MessageType, request, response, event, other}
use go_plugins.Codec.MsgpackRpc.{
  Bytes, Fault, unrecognised, wire, not_decodable, Msgp, Request, Response, Notification,
}
use go_plugins.Codec.MsgpackRpc.Encode.{encode_request, encode_response, encode_notification}
use go_plugins.Codec.MsgpackRpc.Decode.{
  Decoder, decode_request, decode_response, decode_notification, lift,
}

-- The connection below msgp. A Reader of msgp has a buffer of its own, which takes more off the connection
-- than is decoded, at least what its `NextType` looks at: `left` is what the connection still holds of an
-- input, given what the decoding left of it, or none where it failed. `flush` may fail on what has been written.
pub record Link : Type 0 where
  pub left : Bytes → Option Bytes → Bytes
  pub flush : Bytes → Option String

-- `msgpackCodec`, with what waits on the connection.
pub record Codec : Type 0 where
  pub mt : MessageType
  pub body : Bool
  pub input : Bytes

module _ {V : Type 0} where
  -- The structs that `Write` fills, and those that `ReadHeader` starts from.
  unfoldable pub request_of : Message → Option V → Request V
  request_of m b = record { id = m.id; method = m.endpoint; body = b; has_body = false }

  unfoldable pub response_of : Message → Option V → Response V
  response_of m b = record { id = m.id; error = m.error; body = b; has_body = false }

  unfoldable pub notification_of : Message → Option V → Notification V
  notification_of m b = record { method = m.endpoint; body = b; has_body = false }

  abbrev pub blank_request : Request V
  blank_request = record { id = ""; method = ""; body = none; has_body = false }

  abbrev pub blank_response : Response V
  blank_response = record { id = ""; error = ""; body = none; has_body = false }

  abbrev pub blank_notification : Notification V
  blank_notification = record { method = ""; body = none; has_body = false }

  -- After a failure the message and the flag are as before.
  unfoldable pub keep_request :
      Message → Codec → Option Fault × Request V × Bytes → Option Fault × Message × Codec
  keep_request m c (none, h, input) = (
    none,
    record m { id = h.id; endpoint = h.method },
    record c { body = h.has_body; input = input },
  )
  keep_request m c (some e, h, input) = (some e, m, record c { input = input })

  unfoldable pub keep_response :
      Message → Codec → Option Fault × Response V × Bytes → Option Fault × Message × Codec
  keep_response m c (none, h, input) =
      (none, record m { id = h.id; error = h.error }, record c { body = h.has_body; input = input })
  keep_response m c (some e, h, input) = (some e, m, record c { input = input })

  unfoldable pub keep_notification :
      Message → Codec → Option Fault × Notification V × Bytes → Option Fault × Message × Codec
  keep_notification m c (none, h, input) =
      (none, record m { endpoint = h.method }, record c { body = h.has_body; input = input })
  keep_notification m c (some e, h, input) = (some e, m, record c { input = input })

-- `Write` sends the bytes, or fails.
module _ {V : Type 0} (ms : Msgp V) (k : Link) where
  -- `msgp.Encode` on the connection.
  unfoldable pub send : Outcome Fault Bytes → Outcome Fault Bytes
  send (ok bytes) = elim (k.flush bytes) [ none ↦ ok bytes | some e ↦ err (wire e) ]
  send (err e) = err e

  -- `Write`.
  unfoldable pub write : Message → Option V → Outcome Fault Bytes
  unfolding send request_of response_of notification_of
  write m b = elim m.kind [
    | request ↦ send (encode_request ms (request_of m b) [])
    | response ↦ send (encode_response ms (response_of m b) [])
    | event ↦ send (encode_notification ms (notification_of m b) [])
    | other ↦ err unrecognised
  ]

  -- `msgp.Decode` on the connection: the error, what was filled, and what the connection holds.
  unfoldable pub receive :
      {R : Type 0} → Decoder R (Unit {0}) → R → Bytes → Option Fault × R × Bytes
  receive decode r input = elim (decode r input).1 [
    | ok (u, rest) ↦ (none, (decode r input).0, k.left input (some rest))
    | err e ↦ (some e, (decode r input).0, k.left input none)
  ]

  -- `ReadHeader`.
  unfoldable pub read_header : Message → MessageType → Codec → Option Fault × Message × Codec
  unfolding receive keep_request keep_response keep_notification
  read_header m mt c0 =
      let c = record c0 { mt = mt } in
      elim mt [
        | request ↦ keep_request m c (receive (decode_request ms) blank_request c.input)
        | response ↦ keep_response m c (receive (decode_response ms) blank_response c.input)
        | event ↦
            keep_notification m c (receive (decode_notification ms) blank_notification c.input)
        | other ↦ (some unrecognised, m, c)
      ]

  -- A read of the body by a Reader of its own: the error, and the codec.
  unfoldable pub took : Codec → Outcome Fault Bytes → Option Fault × Codec
  took c (ok rest) = (none, record c { input = k.left c.input (some rest) })
  took c (err e) = (some e, record c { input = k.left c.input none })

  -- `decodeBody` reads nothing where the value cannot be decoded into.
  unfoldable pub read_value : V → Codec → Option Fault × Option V × Codec
  unfolding took
  read_value x c =
      if ms.decodable x
      then (let (fault, c') = took c (lift (ms.unmarshal x c.input).1) in
          (fault, some (ms.unmarshal x c.input).0, c'))
      else (some not_decodable, some x, c)

  -- `ReadBody`: the error, the value that was decoded into, and the codec.
  unfoldable pub read_body : Option V → Codec → Option Fault × Option V × Codec
  unfolding took read_value
  read_body v c = elim c.body [
    | false ↦ (none, v, c)
    | true ↦ elim v [
      | none ↦ let (fault, c') = took c (lift (ms.skip c.input)) in (fault, none, c')
      | some x ↦ elim c.mt [ other ↦ (some unrecognised, some x, c) | _ ↦ read_value x c ]
    ]
  ]
