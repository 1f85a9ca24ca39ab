-- ===== src/Codec/MsgpackRpc/Exchange.antt =====
-- What `Write` sends, read by `ReadHeader` and `ReadBody` at the other end.
use go_plugins.Prelude.{
  ◌≡◌, ◌≢◌, refl, true, inl, inr, [], ◌++◌, Option, none, some, ◌==◌, string_eq, if◌then◌else◌,
  arith, Option-cases, is_some,
}
use go_plugins.Prelude.Outcome.{Outcome, ok, err}
use go_plugins.Codec.JsonRpc2.Json.{Message, MessageType, request, response, event, other}
use go_plugins.Codec.MsgpackRpc.{Bytes, Fault, Msgp}
use go_plugins.Codec.MsgpackRpc.Encode.{encode_request, encode_response, encode_notification}
use go_plugins.Codec.MsgpackRpc.Decode.{
  decode_request, decode_response, decode_notification, Decoder,
}
use go_plugins.Codec.MsgpackRpc.Stream.{
  Link, Codec, send, request_of, response_of, notification_of, write, receive, keep_request,
  keep_response, keep_notification, read_header, read_value, read_body,
}
use go_plugins.Codec.MsgpackRpc.Layout.{IsFaithful}
use go_plugins.Codec.MsgpackRpc.RoundTrip.{
  behind, Starts, decode_request-encode_request, decode_response-encode_response,
  decode_notification-encode_notification,
}

-- What the header of the one message brings to the other.
abbrev pub filled : Message → Message → Message
filled m m0 = elim m.kind [
  | request ↦ record m0 { id = m.id; endpoint = m.endpoint }
  | response ↦ record m0 { id = m.id; error = m.error }
  | event ↦ record m0 { endpoint = m.endpoint }
  | other ↦ m0
]

-- The body that a message carries: none behind an error text.
abbrev pub carried : {V : Type 0} → Message → Option V → Option V
carried m b = elim m.kind [
  | request ↦ b
  | response ↦ if m.error == "" then b else none
  | event ↦ b
  | other ↦ none
]

module _ {V : Type 0} {ms : Msgp V} (f : IsFaithful ms) (k : Link) where
  abbrev pub HeaderArrives : (m0 m : Message) → Option V → Codec → Bytes → Bytes → Type 0
  HeaderArrives m0 m b c bytes rest =
      read_header ms k m0 m.kind (record c { input = bytes ++ rest }) ≡ (
        none,
        filled m m0,
        record {
          mt = m.kind;
          body = is_some (carried m b);
          input = k.left (bytes ++ rest) (some (behind f (carried m b) rest));
        },
      )

  send_sent : (o : Outcome Fault Bytes) {bytes : Bytes} → send ms k o ≡ ok bytes → o ≡ ok bytes
  unfolding send
  send_sent (ok b) h = elim (Option-cases (k.flush b)) [
    | inl e ↦ ground arith
    | inr (x, e) ↦ absurd (ground arith)
  ]
  send_sent (err e) h = absurd (cc)

  receive_lem :
      {R : Type 0} (decode : Decoder R (Unit {0})) (r r' : R) (input rest : Bytes)
      → decode r input ≡ (r', ok (tt, rest))
      → receive ms k decode r input ≡ (none, r', k.left input (some rest))
  unfolding receive
  receive_lem decode r r' input rest h = ground arith

  read_request :
      (m0 m : Message) (b : Option V) (c : Codec) (bytes rest : Bytes)
      → m.kind ≡ request
      → write ms k m b ≡ ok bytes
      → ms.short m.id ≡ true
      → ms.short m.endpoint ≡ true
      → HeaderArrives m0 m b c bytes rest
  unfolding write read_header keep_request request_of
  read_request m0 m b c bytes rest e h si se =
      let sent : encode_request ms (request_of m b) [] ≡ ok bytes = send_sent _ (rw e at h) in
      rw
        (
          e,
          read_header,
          receive_lem (decode_request ms) _ _ _ _
              (decode_request-encode_request f (request_of m b) bytes rest sent si se),
        )
        (ground arith)

  read_response :
      (m0 m : Message) (b : Option V) (c : Codec) (bytes rest : Bytes)
      → m.kind ≡ response
      → write ms k m b ≡ ok bytes
      → ms.short m.id ≡ true
      → ms.short m.error ≡ true
      → Starts f (carried m b) rest
      → HeaderArrives m0 m b c bytes rest
  unfolding write read_header keep_response response_of
  read_response m0 m b c bytes rest e h si se st =
      let sent : encode_response ms (response_of m b) [] ≡ ok bytes = send_sent _ (rw e at h) in
      let st' = rw e at st in
      rw
        (
          e,
          read_header,
          receive_lem (decode_response ms) _ _ _ _
              (decode_response-encode_response f (response_of m b) bytes rest sent si se st'),
        )
        (ground arith)

  read_event :
      (m0 m : Message) (b : Option V) (c : Codec) (bytes rest : Bytes)
      → m.kind ≡ event
      → write ms k m b ≡ ok bytes
      → ms.short m.endpoint ≡ true
      → HeaderArrives m0 m b c bytes rest
  unfolding write read_header keep_notification notification_of
  read_event m0 m b c bytes rest e h se =
      let sent : encode_notification ms (notification_of m b) [] ≡ ok bytes =
        send_sent _ (rw e at h) in
      rw
        (
          e,
          read_header,
          receive_lem (decode_notification ms) _ _ _ _
              (decode_notification-encode_notification f (notification_of m b) bytes rest sent se),
        )
        (ground arith)

  module _ (m0 m : Message) (b : Option V) (c : Codec) (bytes rest : Bytes)
      (written : write ms k m b ≡ ok bytes) (short_id : ms.short m.id ≡ true)
      (short_endpoint : ms.short m.endpoint ≡ true) (short_error : ms.short m.error ≡ true)
      (starts : Starts f (carried m b) rest) where
    by_kind : (mt : MessageType) → m.kind ≡ mt → HeaderArrives m0 m b c bytes rest
    by_kind request e = read_request m0 m b c bytes rest e written short_id short_endpoint
    by_kind response e = read_response m0 m b c bytes rest e written short_id short_error starts
    by_kind event e = read_event m0 m b c bytes rest e written short_endpoint
    by_kind other e = absurd (unfold write in ground arith)

    pub read_header-write : HeaderArrives m0 m b c bytes rest
    read_header-write = by_kind m.kind refl

    pub kind_known : (v : V) → carried m b ≡ some v → (mt : MessageType) → m.kind ≡ mt → mt ≢ other
    kind_known v e other q = λ w. ground arith
    kind_known v e request q = λ w. cc
    kind_known v e response q = λ w. cc
    kind_known v e event q = λ w. cc

  pub read_body_value :
      (x : V) (mt : MessageType) (input : Bytes)
      → ms.decodable x ≡ true
      → mt ≢ other
      → read_body ms k (some x) (record { mt = mt; body = true; input = input })
        ≡ read_value ms k x (record { mt = mt; body = true; input = input })
  unfolding read_body
  read_body_value x other input d ne = absurd (ne refl)
  read_body_value x request input d ne = refl
  read_body_value x response input d ne = refl
  read_body_value x event input d ne = refl
