-- ===== src/Codec/MsgpackRpc/Encode.antt =====
-- codec/msgpackrpc/rpc.go: the three messages are written.
use go_plugins.Prelude.{Bool, false, not, ◌++◌, Option, none, some, ◌==◌, string_eq, if◌then◌else◌}
use go_plugins.Prelude.Outcome.{Outcome, ok, err}
use go_plugins.Codec.MsgpackRpc.{
  Bytes, Fault, not_encodable, wire, Msgp, Request, Response, Notification,
}

-- What is written goes behind the bytes that are there; the first error ends the encoding.
abbrev pub Encoder : Type 0
Encoder = Bytes → Outcome Fault Bytes

infixl 5 ◌>>◌
abbrev pub ◌>>◌ : Encoder → Encoder → Encoder
◌>>◌ m k out = elim (m out) [ ok more ↦ k more | err e ↦ err e ]

module _ {V : Type 0} (ms : Msgp V) where
  -- A write of msgp's Writer.
  unfoldable pub write : Bytes → Encoder
  write piece out = elim (ms.refuses out piece) [ none ↦ ok (out ++ piece) | some e ↦ err (wire e) ]

  -- `msgp.Encode` of a body, whose own encoder may fail.
  unfoldable pub encode_body : V → Encoder
  unfolding write
  encode_body v = elim (ms.marshal v) [ ok piece ↦ write piece | err e ↦ (λ out. err (wire e)) ]

  -- The test before anything is written.
  unfoldable pub not_writable : Option V → Bool
  not_writable none = false
  not_writable (some v) = not (ms.encodable v)

  -- The body in its array, which is empty where there is none.
  unfoldable pub encode_params : Option V → Encoder
  unfolding write encode_body
  encode_params none = write (ms.array 0)
  encode_params (some v) = write (ms.array 1) >> encode_body v

  -- `Request.EncodeMsg`.
  unfoldable pub encode_request : Request V → Encoder
  unfolding write encode_params not_writable
  encode_request r out =
      if not_writable r.body
      then err not_encodable
      else (write (ms.array 4)
            >> write (ms.int 0)
            >> write (ms.string r.id)
            >> write (ms.string r.method)
            >> encode_params r.body)
          out

  -- Behind an error text the body is left out.
  unfoldable pub encode_result : Response V → Encoder
  unfolding write encode_body
  encode_result r =
      if r.error == ""
      then write ms.null >> (elim r.body [ some v ↦ encode_body v | none ↦ write ms.null ])
      else (write (ms.string r.error) >> write ms.null)

  -- `Response.EncodeMsg`.
  unfoldable pub encode_response : Response V → Encoder
  unfolding write encode_result not_writable
  encode_response r out =
      if not_writable r.body
      then err not_encodable
      else (write (ms.array 4) >> write (ms.int 1) >> write (ms.string r.id) >> encode_result r) out

  -- `Notification.EncodeMsg`.
  unfoldable pub encode_notification : Notification V → Encoder
  unfolding write encode_params not_writable
  encode_notification n out =
      if not_writable n.body
      then err not_encodable
      else (write (ms.array 3)
            >> write (ms.int 2)
            >> write (ms.string n.method)
            >> encode_params n.body)
          out
