-- ===== src/Client/Http/Publish.antt =====
-- client/http/http.go and message.go: `Publish`. The broker, the codecs and the variables of the
-- environment are arguments.
use go_plugins.Prelude.{
  String, ◌≡◌, refl, Bool, true, [], ◌∷◌, Option, none, some, ◌==◌, string_eq, if◌then◌else◌,
}
use go_plugins.Prelude.Dict.{Dict, lookup, insert}
use go_plugins.Client.Http.{Fault, internal}

-- A payload is a raw frame, or a value that the codec writes.
pub data Payload (M : Type 0) : Type 0 where
  frame : String → Payload M
  value : M → Payload M

pub record Message (M : Type 0) : Type 0 where
  pub topic : String
  pub content_type : String
  pub payload : Payload M

-- `newHTTPMessage`, with the option's content type, as `NewMessage` calls it.
unfoldable pub new_message : {M : Type 0} → String → Payload M → String → Message M
new_message topic payload option = record {
  topic = topic;
  content_type = if option == "" then "application/proto" else option;
  payload = payload;
}

-- `defaultRPCCodecs`, by what they are.
pub data Rpc : Type 0 where
  json_rpc proto_rpc : Rpc

abbrev pub default_codecs : Dict String Rpc
default_codecs =
    ("application/json", json_rpc)
    ∷ ("application/json-rpc", json_rpc)
    ∷ ("application/protobuf", proto_rpc)
    ∷ ("application/proto-rpc", proto_rpc)
    ∷ ("application/octet-stream", proto_rpc)
    ∷ []

-- A codec's writer, from the client's options or a default one.
pub record Codecs (M : Type 0) : Type 0 where
  pub options : Dict String (M → Option String)
  pub default : Rpc → M → Option String

-- `newCodec`.
unfoldable pub new_codec : {M : Type 0} → Codecs M → String → Option (M → Option String)
new_codec c content_type = elim (lookup content_type c.options) [
  | some w ↦ some w
  | none ↦ elim (lookup content_type default_codecs) [ none ↦ none | some r ↦ some (c.default r) ]
]

-- What goes to the broker.
pub record Sent : Type 0 where
  pub topic : String
  pub header : Dict String String
  pub body : String

unfoldable pub body_of : {M : Type 0} → (M → Option String) → Payload M → Option String
body_of w (frame d) = some d
body_of w (value x) = w x

-- The proxy before the option's exchange before the message's topic.
unfoldable pub topic_of : String → String → String → String
topic_of proxy exchange topic =
    let e = if proxy == "" then exchange else proxy in if e == "" then topic else e

-- `Publish`, with whether the broker has been told to connect: the error, that flag, and what the
-- broker is given. `takes` is
-- the broker's own answer.
unfoldable pub publish :
    {M : Type 0}
    → Codecs M
    → (Sent → Option Fault)
    → String
    → String
    → Dict String String
    → Message M
    → Bool
    → Option Fault × Bool × Option Sent
unfolding new_codec body_of topic_of
publish c takes proxy exchange md p connected = elim (new_codec c p.content_type) [
  | none ↦ (some internal, connected, none)
  | some w ↦ elim (body_of w p.payload) [
    | none ↦ (some internal, connected, none)
    | some b ↦
        let s : Sent = record {
          topic = topic_of proxy exchange p.topic;
          header = insert "Micro-Topic" p.topic (insert "Content-Type" p.content_type md);
          body = b;
        } in
        (takes s, true, some s)
  ]
]

-- A message without a content type of its own cannot be published: unless the client's options have a
-- codec for "application/proto", nothing is given to the broker, which is not connected either, and the
-- answer is an error, whatever the payload, be it a raw frame.
pub publish-new_message :
    {M : Type 0} (c : Codecs M) (takes : Sent → Option Fault) (proxy exchange topic : String)
    (md : Dict String String) (payload : Payload M) (connected : Bool)
    → lookup "application/proto" c.options ≡ none
    → publish c takes proxy exchange md (new_message topic payload "") connected
      ≡ (some internal, connected, none)
unfolding publish new_message
publish-new_message c takes proxy exchange topic md payload connected h =
    let unknown : lookup "application/proto" default_codecs ≡ none = unfold lookup in refl in
    rw (publish, new_codec, h, unknown) refl
