-- ===== src/Codec/MsgpackRpc/Decode.antt =====
-- codec/msgpackrpc/rpc.go: the three messages are read. A decoder fills a message that may hold a value
-- for the body, and keeps what it has filled when it fails.
use Prim.Native.Nat.{ℕ}
use go_plugins.Prelude.{
  ℤ, pos, negsuc, ℕ, String, Bool, true, false, not, Option, none, some, ◌==◌, nat_eq,
  if◌then◌else◌, ltb,
}
use go_plugins.Prelude.Outcome.{Outcome, ok, err}
use go_plugins.Codec.MsgpackRpc.{
  Bytes, Kind, str, nil, other, Fault, bad_pack_size, bad_message_type, bad_error_type,
  unexpected_params, not_decodable, wire, Msgp, Request, Response, Notification,
}

-- The message and the input that is left.
abbrev pub Decoder : Type 0 → Type 0 → Type 0
Decoder R A = R → Bytes → R × Outcome Fault (A × Bytes)

abbrev pub proceed :
    {R A B : Type 0}
    → (A → Decoder R B)
    → R
    → Outcome Fault (A × Bytes)
    → R × Outcome Fault (B × Bytes)
proceed k r (ok (a, b)) = k a r b
proceed k r (err e) = (r, err e)

infixl 5 ◌>>=◌ ◌>>◌
abbrev pub ◌>>=◌ : {R A B : Type 0} → Decoder R A → (A → Decoder R B) → Decoder R B
◌>>=◌ m k r b = proceed k (m r b).0 (m r b).1

abbrev pub ◌>>◌ : {R B : Type 0} → Decoder R (Unit {0}) → Decoder R B → Decoder R B
m >> k = m >>= λ _. k

abbrev pub guard : {R : Type 0} → Bool → Fault → Decoder R (Unit {0})
guard true e r b = (r, ok (tt, b))
guard false e r b = (r, err e)

-- A read of msgp's Reader, whose error is passed on.
abbrev pub lift {ℓ} : {A : Type ℓ} → Outcome String A → Outcome Fault A
lift (ok a) = ok a
lift (err e) = err (wire e)

abbrev pub read : {R A : Type 0} → (Bytes → Outcome String (A × Bytes)) → Decoder R A
read f r b = (r, lift (f b))

-- `NextType` takes nothing from the input, `ReadNil` gives nothing but what is left.
abbrev pub beside : {A : Type 0} → Bytes → Outcome String A → Outcome String (A × Bytes)
beside b (ok a) = ok (a, b)
beside b (err e) = err e

abbrev pub peek : {R A : Type 0} → (Bytes → Outcome String A) → Decoder R A
peek f = read (λ b. beside b (f b))

abbrev pub with_unit : Outcome String Bytes → Outcome String (Unit {0} × Bytes)
with_unit (ok b) = ok (tt, b)
with_unit (err e) = err e

abbrev pub set : {R : Type 0} → (R → R) → Decoder R (Unit {0})
set f r b = (f r, ok (tt, b))

-- The test of a pack size is one of a number, that of a type one of an `int`.
unfoldable pub int_is : ℕ → ℤ → Bool
int_is n (pos k) = k == n
int_is n (negsuc k) = false

module _ {V : Type 0} (ms : Msgp V) where
  -- The value in the message cannot be decoded into.
  unfoldable pub not_readable : Option V → Bool
  not_readable none = false
  not_readable (some v) = not (ms.decodable v)

  abbrev pub with_rest : V × Outcome String Bytes → V × Outcome Fault (Unit {0} × Bytes)
  with_rest (v, ok b) = (v, ok (tt, b))
  with_rest (v, err e) = (v, err (wire e))

  -- `decodeBody`.
  unfoldable pub decode_body : V → Bytes → V × Outcome Fault (Unit {0} × Bytes)
  decode_body v b = if ms.decodable v then with_rest (ms.unmarshal v b) else (v, err not_decodable)

  -- The end of each decoder: without a value to decode into, the body stays in the input.
  unfoldable pub fill_body : {R : Type 0} → (Option V → R → R) → Option V → Decoder R (Unit {0})
  unfolding decode_body
  fill_body put none r b = (r, ok (tt, b))
  fill_body put (some v) r b = let (v', result) = decode_body v b in (put (some v') r, result)

  -- The body's array. `mark` sets the flag, `put` the body.
  unfoldable pub decode_params :
      {R : Type 0} → (R → R) → (Option V → R → R) → Option V → Decoder R (Unit {0})
  unfolding fill_body
  decode_params mark put body = do
    l ← read ms.read_array
    guard (not (ltb 1 l)) unexpected_params
    (if l == 0 then set (λ r. r) else (set mark >> fill_body put body))

  -- Behind the size and the type.
  unfoldable pub request_fields : Option V → Decoder (Request V) (Unit {0})
  unfolding decode_params
  request_fields body = do
    id ← read ms.read_string
    set (λ r. record r { id = id })
    method ← read ms.read_string
    set (λ r. record r { method = method })
    decode_params (λ r. record r { has_body = true }) (λ v r. record r { body = v }) body

  unfoldable pub fill_request : Option V → Decoder (Request V) (Unit {0})
  unfolding request_fields int_is
  fill_request body = do
    size ← read ms.read_array
    guard (size == 4) bad_pack_size
    typ ← read ms.read_int
    guard (int_is 0 typ) bad_message_type
    request_fields body

  -- `Request.DecodeMsg`.
  unfoldable pub decode_request : Decoder (Request V) (Unit {0})
  unfolding fill_request not_readable
  decode_request r = (guard (not (not_readable r.body)) not_decodable >> fill_request r.body) r

  -- The error of a response: nil or a text.
  unfoldable pub decode_error : Kind → Decoder (Response V) (Unit {0})
  decode_error str = do text ← read ms.read_string; set (λ r. record r { error = text })
  decode_error nil = do read (λ b. with_unit (ms.read_nil b)); set (λ r. record r { error = "" })
  decode_error other = guard false bad_error_type

  -- The body of a response: nil or a value.
  unfoldable pub decode_result : Option V → Kind → Decoder (Response V) (Unit {0})
  unfolding fill_body
  decode_result body nil = do
    set (λ r. record r { has_body = false })
    read (λ b. with_unit (ms.read_nil b))
  decode_result body str =
      set (λ r. record r { has_body = true }) >> fill_body (λ v r. record r { body = v }) body
  decode_result body other =
      set (λ r. record r { has_body = true }) >> fill_body (λ v r. record r { body = v }) body

  -- Behind the size and the type.
  unfoldable pub response_fields : Option V → Decoder (Response V) (Unit {0})
  unfolding decode_error decode_result
  response_fields body = do
    id ← read ms.read_string
    set (λ r. record r { id = id })
    kind ← peek ms.next_type
    decode_error kind
    kind' ← peek ms.next_type
    decode_result body kind'

  unfoldable pub fill_response : Option V → Decoder (Response V) (Unit {0})
  unfolding response_fields int_is
  fill_response body = do
    size ← read ms.read_array
    guard (size == 4) bad_pack_size
    typ ← read ms.read_int
    guard (int_is 1 typ) bad_message_type
    response_fields body

  -- `Response.DecodeMsg`.
  unfoldable pub decode_response : Decoder (Response V) (Unit {0})
  unfolding fill_response not_readable
  decode_response r = (guard (not (not_readable r.body)) not_decodable >> fill_response r.body) r

  -- Behind the size and the type.
  unfoldable pub notification_fields : Option V → Decoder (Notification V) (Unit {0})
  unfolding decode_params
  notification_fields body = do
    method ← read ms.read_string
    set (λ r. record r { method = method })
    decode_params (λ r. record r { has_body = true }) (λ v r. record r { body = v }) body

  unfoldable pub fill_notification : Option V → Decoder (Notification V) (Unit {0})
  unfolding notification_fields int_is
  fill_notification body = do
    size ← read ms.read_array
    guard (size == 3) bad_pack_size
    typ ← read ms.read_int
    guard (int_is 2 typ) bad_message_type
    notification_fields body

  -- `Notification.DecodeMsg`.
  unfoldable pub decode_notification : Decoder (Notification V) (Unit {0})
  unfolding fill_notification not_readable
  decode_notification r =
      (guard (not (not_readable r.body)) not_decodable >> fill_notification r.body) r
