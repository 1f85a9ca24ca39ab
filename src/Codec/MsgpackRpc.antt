-- ===== src/Codec/MsgpackRpc.antt =====
-- codec/msgpackrpc/rpc.go: the three messages of msgpack-rpc. Encode and Decode write and read them,
-- Stream is the codec of codec.go; the other children hold proofs. The
-- Writer and the Reader of package msgp, and the bodies' own encoders, are a parameter.
pub mod Encode
pub mod Decode
pub mod Stream
pub mod Layout
pub mod RoundTrip
pub mod Exchange
pub mod Bodies
pub mod Exclusive
pub mod Examples
use go_plugins.Prelude.{ℤ, ℕ, String, Bool, List, Option}
use go_plugins.Prelude.Outcome.{Outcome}

abbrev pub Bytes : Type 0
Bytes = List ℕ

-- What `NextType` tells apart here.
pub data Kind : Type 0 where
  str nil other : Kind

-- The package's own errors, and an error of msgp or of the connection.
pub data Fault : Type 0 where
  bad_pack_size bad_message_type bad_error_type unexpected_params not_encodable not_decodable :
      Fault
  unrecognised : Fault
  wire : String → Fault

-- A value `V` behind an `interface{}` may satisfy `msgp.Encodable` and `msgp.Decodable`. The bytes of
-- each piece; whether the writer, with what it has written, refuses a piece; what the reader makes of
-- its input. A failed `unmarshal` too leaves a value. A text is `short` under 2 ^ 32 bytes.
pub record Msgp (V : Type 0) : Type 0 where
  pub encodable : V → Bool
  pub decodable : V → Bool
  pub array : ℕ → Bytes
  pub int : ℕ → Bytes
  pub string : String → Bytes
  pub null : Bytes
  pub marshal : V → Outcome String Bytes
  pub refuses : Bytes → Bytes → Option String
  pub read_array : Bytes → Outcome String (ℕ × Bytes)
  pub read_int : Bytes → Outcome String (ℤ × Bytes)
  pub read_string : Bytes → Outcome String (String × Bytes)
  pub next_type : Bytes → Outcome String Kind
  pub read_nil : Bytes → Outcome String Bytes
  pub unmarshal : V → Bytes → V × Outcome String Bytes
  pub short : String → Bool
  pub skip : Bytes → Outcome String Bytes

pub record Request (V : Type 0) : Type 0 where
  pub id : String
  pub method : String
  pub body : Option V
  pub has_body : Bool

pub record Response (V : Type 0) : Type 0 where
  pub id : String
  pub error : String
  pub body : Option V
  pub has_body : Bool

pub record Notification (V : Type 0) : Type 0 where
  pub method : String
  pub body : Option V
  pub has_body : Bool
