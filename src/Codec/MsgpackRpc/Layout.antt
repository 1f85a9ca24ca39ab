-- ===== src/Codec/MsgpackRpc/Layout.antt =====
-- The bytes of a message that was written, and how the decoders read them.
use go_plugins.Prelude.{
  pos, ℕ, ◌<◌, ◌^◌, String, ◌≡◌, refl, true, inl, inr, [], ◌++◌, Option, none, some, ◌==◌,
  string_eq, nat_eq, if◌then◌else◌, append_assoc, arith, Bool-cases, Option-cases,
}
use go_plugins.Prelude.Outcome.{ok, err, Outcome-cases}
use go_plugins.Codec.MsgpackRpc.{Bytes, str, nil, Msgp, Request, Response, Notification}
use go_plugins.Codec.MsgpackRpc.Encode.{
  Encoder, ◌>>◌, write, encode_body, encode_params, encode_result, not_writable, encode_request,
  encode_response, encode_notification,
}

-- Each piece is read back as it was written, and nothing behind it is taken.
pub record IsFaithful {V : Type 0} (ms : Msgp V) : Type 0 where
  pub array_back :
      (n : ℕ) (rest : Bytes) → n < 2 ^ 32 → ms.read_array (ms.array n ++ rest) ≡ ok (n, rest)
  pub int_back :
      (n : ℕ) (rest : Bytes) → n < 2 ^ 63 → ms.read_int (ms.int n ++ rest) ≡ ok (pos n, rest)
  pub string_back :
      (s : String) (rest : Bytes)
      → ms.short s ≡ true
      → ms.read_string (ms.string s ++ rest) ≡ ok (s, rest)
  pub string_type : (s : String) (rest : Bytes) → ms.next_type (ms.string s ++ rest) ≡ ok str
  pub nil_type : (rest : Bytes) → ms.next_type (ms.null ++ rest) ≡ ok nil
  pub nil_back : (rest : Bytes) → ms.read_nil (ms.null ++ rest) ≡ ok rest

-- A successful encoder puts these bytes behind what is there.
abbrev pub Appends : Encoder → Bytes → Type 0
Appends e piece = (out bytes : Bytes) → e out ≡ ok bytes → bytes ≡ out ++ piece

then-Appends : {e f : Encoder} {p q : Bytes} → Appends e p → Appends f q → Appends (e >> f) (p ++ q)
then-Appends {e} {f} {p} {q} he hf out bytes h = elim (Outcome-cases (e out)) [
  | inl (mid, r) ↦ ground (arith, he out mid, hf mid bytes, append_assoc out p q)
  | inr (x, r) ↦ absurd (ground arith)
]

module _ {V : Type 0} (ms : Msgp V) where
  write-Appends : (piece : Bytes) → Appends (write ms piece) piece
  unfolding write
  write-Appends piece out bytes h = elim (Option-cases (ms.refuses out piece)) [
    | inl e ↦ ground arith
    | inr (x, e) ↦ absurd (ground arith)
  ]

  -- The bytes of a body, which has some where it was written.
  abbrev pub bytes_of : V → Bytes
  bytes_of v = elim (ms.marshal v) [ ok bs ↦ bs | err e ↦ [] ]

  encode_body-Appends : (v : V) → Appends (encode_body ms v) (bytes_of v)
  unfolding encode_body
  encode_body-Appends v out bytes h = elim (Outcome-cases (ms.marshal v)) [
    | inl (bs, e) ↦ ground (arith, write-Appends bs out bytes)
    | inr (x, e) ↦ absurd (ground arith)
  ]

  abbrev pub params_bytes : Option V → Bytes
  params_bytes none = ms.array 0
  params_bytes (some v) = ms.array 1 ++ bytes_of v

  encode_params-Appends : (b : Option V) → Appends (encode_params ms b) (params_bytes b)
  unfolding encode_params
  encode_params-Appends none = write-Appends (ms.array 0)
  encode_params-Appends (some v) = then-Appends (write-Appends (ms.array 1)) (encode_body-Appends v)

  -- The error of a response and its body, which stays out behind an error.
  abbrev pub kept_body : Response V → Option V
  kept_body r = if r.error == "" then r.body else none

  abbrev pub error_bytes : String → Bytes
  error_bytes e = if e == "" then ms.null else ms.string e

  abbrev pub value_bytes : Option V → Bytes
  value_bytes none = ms.null
  value_bytes (some v) = bytes_of v

  abbrev value_encoder : Option V → Encoder
  value_encoder none = write ms ms.null
  value_encoder (some v) = encode_body ms v

  value_encoder-Appends : (b : Option V) → Appends (value_encoder b) (value_bytes b)
  value_encoder-Appends none = write-Appends ms.null
  value_encoder-Appends (some v) = encode_body-Appends v

  encode_result_parts :
      (r : Response V)
      → encode_result ms r ≡ (write ms (error_bytes r.error) >> value_encoder (kept_body r))
  unfolding encode_result
  encode_result_parts r = elim (Bool-cases (r.error == "")) [
    | inl e ↦ rw e refl
    | inr e ↦ rw e refl
  ]

  encode_result-Appends :
      (r : Response V)
      → Appends (encode_result ms r) (error_bytes r.error ++ value_bytes (kept_body r))
  encode_result-Appends r =
      rw encode_result_parts
        (then-Appends (write-Appends (error_bytes r.error)) (value_encoder-Appends (kept_body r)))

  pub encode_request-Appends :
      (r : Request V)
      → Appends
          (encode_request ms r)
          (ms.array 4 ++ ms.int 0 ++ ms.string r.id ++ ms.string r.method ++ params_bytes r.body)
  unfolding encode_request
  encode_request-Appends r out bytes h = elim (Bool-cases (not_writable ms r.body)) [
    | inl e ↦ absurd (ground arith)
    | inr e ↦
        then-Appends
          (then-Appends
            (then-Appends (then-Appends (write-Appends (ms.array 4)) (write-Appends (ms.int 0)))
              (write-Appends (ms.string r.id)))
            (write-Appends (ms.string r.method)))
          (encode_params-Appends r.body) out bytes (rw e at h)
  ]

  pub encode_response-Appends :
      (r : Response V)
      → Appends (encode_response ms r) (
          ms.array 4
          ++ ms.int 1
          ++ ms.string r.id
          ++ (error_bytes r.error ++ value_bytes (kept_body r)))
  unfolding encode_response
  encode_response-Appends r out bytes h = elim (Bool-cases (not_writable ms r.body)) [
    | inl e ↦ absurd (ground arith)
    | inr e ↦
        then-Appends
          (then-Appends (then-Appends (write-Appends (ms.array 4)) (write-Appends (ms.int 1)))
            (write-Appends (ms.string r.id)))
          (encode_result-Appends r) out bytes (rw e at h)
  ]

  pub encode_notification-Appends :
      (n : Notification V)
      → Appends
          (encode_notification ms n)
          (ms.array 3 ++ ms.int 2 ++ ms.string n.method ++ params_bytes n.body)
  unfolding encode_notification
  encode_notification-Appends n out bytes h = elim (Bool-cases (not_writable ms n.body)) [
    | inl e ↦ absurd (ground arith)
    | inr e ↦
        then-Appends
          (then-Appends (then-Appends (write-Appends (ms.array 3)) (write-Appends (ms.int 2)))
            (write-Appends (ms.string n.method)))
          (encode_params-Appends n.body) out bytes (rw e at h)
  ]
