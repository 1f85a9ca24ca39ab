-- ===== src/Codec/MsgpackRpc/Bodies.antt =====
-- The whole exchange of a message with its body, and what a Reader with a buffer makes of it.
use go_plugins.Prelude.{
  String, ◌≡◌, ◌≢◌, refl, true, inl, inr, [], ◌++◌, Option, none, some, Option-cases, is_some,
}
use go_plugins.Prelude.Outcome.{ok, err, Outcome-cases}
use go_plugins.Codec.JsonRpc2.Json.{Message, MessageType, other}
use go_plugins.Codec.MsgpackRpc.{Bytes, Fault, wire, Msgp}
use go_plugins.Codec.MsgpackRpc.Stream.{
  Link, Codec, write, read_header, read_value, read_body, took,
}
use go_plugins.Codec.MsgpackRpc.Layout.{IsFaithful, bytes_of}
use go_plugins.Codec.MsgpackRpc.RoundTrip.{behind, Starts}
use go_plugins.Codec.MsgpackRpc.Exchange.{
  filled, carried, read_header-write, kind_known, read_body_value,
}

abbrev pub AreShort : {V : Type 0} → Msgp V → Message → Type 0
AreShort ms m = (ms.short m.id ≡ true) × (ms.short m.endpoint ≡ true) × (ms.short m.error ≡ true)

-- `ReadHeader` for a message of a type, on a connection with these bytes.
abbrev pub header_of :
    {V : Type 0}
    → Msgp V
    → Link
    → Message
    → MessageType
    → Codec
    → Bytes
    → Option Fault × Message × Codec
header_of ms k m0 mt c input = read_header ms k m0 mt (record c { input = input })

-- What `ReadBody` does behind a header on an input, for the body that the message carries. With none it
-- leaves the caller's value and the connection alone. Else it decodes with a new Reader from what is held
-- on the connection: what the first Reader left that decoded all before the body's bytes and the rest.
abbrev pub Receives : {V : Type 0} → Msgp V → Link → Bytes → Bytes → V → Option V → Codec → Type 0
Receives ms k input rest x none c = read_body ms k (some x) c ≡ (none, some x, c)
Receives ms k input rest x (some v) c =
    let held = k.left input (some (bytes_of ms v ++ rest)) in
    read_body ms k (some x) c ≡ (
      elim (ms.unmarshal x held).1 [ ok r ↦ none | err e ↦ some (wire e) ],
      some (ms.unmarshal x held).0,
      record c {
        input = k.left held (elim (ms.unmarshal x held).1 [ ok r ↦ some r | err e ↦ none ]);
      },
    )

module _ {V : Type 0} {ms : Msgp V} (f : IsFaithful ms) (k : Link) (m0 m : Message) (b : Option V)
    (c : Codec) (bytes rest : Bytes) (written : write ms k m b ≡ ok bytes) (short : AreShort ms m)
    (starts : Starts f (carried m b) rest) where
  header_lem : header_of ms k m0 m.kind c (bytes ++ rest) ≡ (
    none,
    filled m m0,
    record {
      mt = m.kind;
      body = is_some (carried m b);
      input = k.left (bytes ++ rest) (some (behind f (carried m b) rest));
    },
  )
  header_lem = read_header-write f k m0 m b c bytes rest written short.0 short.1 short.2 starts

  known : (v : V) → carried m b ≡ some v → m.kind ≢ other
  known v e =
      kind_known f k m0 m b c bytes rest written short.0 short.1 short.2 starts v e m.kind refl

  -- Whatever the buffers of the Readers take: `ReadHeader` on what `Write` sent for a message brings the
  -- fields that a message of its type carries and no error. Where the message carries no body, as behind
  -- an error text, `ReadBody` then does nothing and reports no error. Else it decodes into the caller's
  -- value what the connection still holds, which is what the Reader of the header has left that has
  -- decoded all but the body and what follows; it reports the decoder's error, and what the second Reader
  -- leaves stays on the connection. The caller's value can be decoded into.
  pub read_body-write :
      (x : V)
      → ms.decodable x ≡ true
      → ((header_of ms k m0 m.kind c (bytes ++ rest)).0 ≡ none)
        × ((header_of ms k m0 m.kind c (bytes ++ rest)).1 ≡ filled m m0)
        × Receives ms k
            (bytes ++ rest)
            rest
            x
            (carried m b)
            (header_of ms k m0 m.kind c (bytes ++ rest)).2
  unfolding read_value took
  read_body-write x d = rw header_lem (
    refl,
    refl,
    elim (Option-cases (carried m b)) [
      | inl e ↦ rw e (unfold read_body in refl)
      | inr (v, e) ↦
          let held = k.left (bytes ++ rest) (some (bytes_of ms v ++ rest)) in
          elim (Outcome-cases (ms.unmarshal x held).1) [
            | inl (r, u) ↦ rw (e, read_body_value f k x m.kind held d (known v e), d, u) refl
            | inr (o, u) ↦ rw (e, read_body_value f k x m.kind held d (known v e), d, u) refl
          ]
    ],
  )

  -- Where the Reader of the header takes into its buffer all that waits on the connection, the header
  -- of a message that carries a body is read as before, and `ReadBody` decodes the body from nothing:
  -- with the decoder's error on an empty input it fails. The caller's value can be decoded into.
  pub read_body_fails :
      (v x y : V) (e : String)
      → carried m b ≡ some v
      → ((i r : Bytes) → k.left i (some r) ≡ [])
      → ms.decodable x ≡ true
      → ms.unmarshal x [] ≡ (y, err e)
      → ((header_of ms k m0 m.kind c (bytes ++ rest)).0 ≡ none)
        × ((header_of ms k m0 m.kind c (bytes ++ rest)).1 ≡ filled m m0)
        × ((read_body ms k (some x) (header_of ms k m0 m.kind c (bytes ++ rest)).2).0
            ≡ some (wire e))
  unfolding read_value took
  read_body_fails v x y e has all d fails =
      rw header_lem
        (refl, refl, rw (has, all, read_body_value f k x m.kind [] d (known v has), d, fails) refl)
