-- ===== src/Codec/MsgpackRpc/RoundTrip.antt =====
-- The decoders on the bytes of a message that was written.
use go_plugins.Prelude.{
  String, ◌≡◌, refl, true, false, ◌⊎◌, inl, inr, ◌++◌, [], Option, none, some, ◌==◌, string_eq,
  nat_eq, if◌then◌else◌, append_assoc, arith, Bool-cases, eq_iff, is_some,
}
use go_plugins.Prelude.Outcome.{ok}
use go_plugins.Codec.MsgpackRpc.{
  Bytes, Kind, str, nil, other, Msgp, Request, Response, Notification,
}
use go_plugins.Codec.MsgpackRpc.Encode.{encode_request, encode_response, encode_notification}
use go_plugins.Codec.MsgpackRpc.Decode.{
  int_is, fill_body, decode_params, fill_request, decode_error, decode_result, fill_response,
  fill_notification, not_readable, decode_request, decode_response, decode_notification,
}
use go_plugins.Codec.MsgpackRpc.Stream.{blank_request, blank_response, blank_notification}
use go_plugins.Codec.MsgpackRpc.Layout.{
  IsFaithful, encode_request-Appends, encode_response-Appends, encode_notification-Appends,
  bytes_of, params_bytes, kept_body, error_bytes, value_bytes,
}

regroup : (a b c d e : Bytes) → a ++ b ++ c ++ d ++ e ≡ a ++ (b ++ (c ++ (d ++ e)))
regroup a b c d e = simp append_assoc

regroup_error :
    (a b c d e r : Bytes) → a ++ b ++ c ++ (d ++ e) ++ r ≡ a ++ (b ++ (c ++ (d ++ (e ++ r))))
regroup_error a b c d e r = simp append_assoc

regroup_method :
    (a b c d e r : Bytes) → a ++ b ++ c ++ d ++ e ++ r ≡ a ++ (b ++ (c ++ (d ++ (e ++ r))))
regroup_method a b c d e r = simp append_assoc

module _ {V : Type 0} {ms : Msgp V} (f : IsFaithful ms) where
  -- What is behind the header of a message with this body.
  abbrev pub behind : Option V → Bytes → Bytes
  behind none rest = rest
  behind (some v) rest = bytes_of ms v ++ rest

  params_read :
      {R : Type 0} (mark : R → R) (put : Option V → R → R) (b : Option V) (r : R) (rest : Bytes)
      → decode_params ms mark put none r (params_bytes ms b ++ rest)
        ≡ ((if is_some b then mark r else r), ok (tt, behind b rest))
  unfolding decode_params fill_body
  params_read mark put none r rest = rw (f.array_back 0 rest (omega arith)) refl
  params_read mark put (some v) r rest =
      rw (append_assoc, f.array_back 1 (bytes_of ms v ++ rest) (omega arith)) refl

  request_read :
      (r : Request V) (rest : Bytes)
      → ms.short r.id ≡ true
      → ms.short r.method ≡ true
      → decode_request ms blank_request (
          ms.array 4
          ++ (ms.int 0
              ++ (ms.string r.id ++ (ms.string r.method ++ (params_bytes ms r.body ++ rest)))))
        ≡ (
          record { id = r.id; method = r.method; body = none; has_body = is_some r.body },
          ok (tt, behind r.body rest),
        )
  unfolding decode_request fill_request not_readable int_is
  request_read r rest si sm =
      let tail = params_bytes ms r.body ++ rest in
      rw
        (
          f.array_back 4 (ms.int 0 ++ (ms.string r.id ++ (ms.string r.method ++ tail)))
              (omega arith),
          f.int_back 0 (ms.string r.id ++ (ms.string r.method ++ tail)) (omega arith),
          f.string_back r.id (ms.string r.method ++ tail) si,
          f.string_back r.method tail sm,
          params_read,
        )
        (ground arith)

  notification_read :
      (n : Notification V) (rest : Bytes)
      → ms.short n.method ≡ true
      → decode_notification ms blank_notification
          (ms.array 3 ++ (ms.int 2 ++ (ms.string n.method ++ (params_bytes ms n.body ++ rest))))
        ≡ (
          record { method = n.method; body = none; has_body = is_some n.body },
          ok (tt, behind n.body rest),
        )
  unfolding decode_notification fill_notification not_readable int_is
  notification_read n rest sm =
      let tail = params_bytes ms n.body ++ rest in
      rw
        (
          f.array_back 3 (ms.int 2 ++ (ms.string n.method ++ tail)) (omega arith),
          f.int_back 2 (ms.string n.method ++ tail) (omega arith),
          f.string_back n.method tail sm,
          params_read,
        )
        (ground arith)

  error_type :
      (e : String) (rest : Bytes)
      → ms.next_type (error_bytes ms e ++ rest) ≡ ok (if e == "" then nil else str)
  error_type e rest = elim (Bool-cases (e == "")) [
    | inl h ↦ rw h (f.nil_type rest)
    | inr h ↦ rw h (f.string_type e rest)
  ]

  error_read :
      (r : Response V) (e : String) (rest : Bytes)
      → ms.short e ≡ true
      → decode_error ms (if e == "" then nil else str) r (error_bytes ms e ++ rest)
        ≡ (record r { error = e }, ok (tt, rest))
  unfolding decode_error
  error_read r e rest se = elim (Bool-cases (e == "")) [
    | inl h ↦ rw (h, f.nil_back rest) (ground (arith, eq_iff e ""))
    | inr h ↦ rw (h, f.string_back e rest se) refl
  ]

  -- A body whose bytes begin with nil is read as none.
  abbrev pub Starts : Option V → Bytes → Type 0
  Starts none rest = Unit
  Starts (some v) rest =
      (ms.next_type (bytes_of ms v ++ rest) ≡ ok str)
      ⊎ (ms.next_type (bytes_of ms v ++ rest) ≡ ok other)

  value_read :
      (b : Option V) (r : Response V) (rest : Bytes)
      → Starts b rest
      → (k : Kind) × (ms.next_type (value_bytes ms b ++ rest) ≡ ok k)
        × (decode_result ms none k r (value_bytes ms b ++ rest)
            ≡ (record r { has_body = is_some b }, ok (tt, behind b rest)))
  unfolding decode_result fill_body
  value_read none r rest h = (nil, f.nil_type rest, rw (f.nil_back rest) refl)
  value_read (some v) r rest (inl h) = (str, h, refl)
  value_read (some v) r rest (inr h) = (other, h, refl)

  response_read :
      (r : Response V) (rest : Bytes)
      → ms.short r.id ≡ true
      → ms.short r.error ≡ true
      → Starts (kept_body ms r) rest
      → decode_response ms blank_response (
          ms.array 4
          ++ (ms.int 1
              ++ (ms.string r.id
                  ++ (error_bytes ms r.error ++ (value_bytes ms (kept_body ms r) ++ rest)))))
        ≡ (
          record { id = r.id; error = r.error; body = none; has_body = is_some (kept_body ms r) },
          ok (tt, behind (kept_body ms r) rest),
        )
  unfolding decode_response fill_response not_readable int_is
  response_read r rest si se h =
      let tail = value_bytes ms (kept_body ms r) ++ rest in
      let (k, typed, reads) =
        value_read (kept_body ms r)
          (record { id = r.id; error = r.error; body = none; has_body = false }) rest h in
      rw
        (
          f.array_back 4 (ms.int 1 ++ (ms.string r.id ++ (error_bytes ms r.error ++ tail)))
              (omega arith),
          f.int_back 1 (ms.string r.id ++ (error_bytes ms r.error ++ tail)) (omega arith),
          f.string_back r.id (error_bytes ms r.error ++ tail) si,
          error_type r.error tail,
          error_read (record { id = r.id; error = ""; body = none; has_body = false }) r.error tail
              se,
          typed,
          reads,
        )
        refl

  pub decode_request-encode_request :
      (r : Request V) (bytes rest : Bytes)
      → encode_request ms r [] ≡ ok bytes
      → ms.short r.id ≡ true
      → ms.short r.method ≡ true
      → decode_request ms blank_request (bytes ++ rest) ≡ (
        record { id = r.id; method = r.method; body = none; has_body = is_some r.body },
        ok (tt, behind r.body rest),
      )
  decode_request-encode_request r bytes rest h si sm =
      rw (encode_request-Appends ms r [] bytes h, regroup_method) (request_read r rest si sm)

  pub decode_response-encode_response :
      (r : Response V) (bytes rest : Bytes)
      → encode_response ms r [] ≡ ok bytes
      → ms.short r.id ≡ true
      → ms.short r.error ≡ true
      → Starts (kept_body ms r) rest
      → decode_response ms blank_response (bytes ++ rest) ≡ (
        record { id = r.id; error = r.error; body = none; has_body = is_some (kept_body ms r) },
        ok (tt, behind (kept_body ms r) rest),
      )
  decode_response-encode_response r bytes rest h si se st =
      rw (encode_response-Appends ms r [] bytes h, regroup_error) (response_read r rest si se st)

  pub decode_notification-encode_notification :
      (n : Notification V) (bytes rest : Bytes)
      → encode_notification ms n [] ≡ ok bytes
      → ms.short n.method ≡ true
      → decode_notification ms blank_notification (bytes ++ rest) ≡ (
        record { method = n.method; body = none; has_body = is_some n.body },
        ok (tt, behind n.body rest),
      )
  decode_notification-encode_notification n bytes rest h sm =
      rw (encode_notification-Appends ms n [] bytes h, regroup) (notification_read n rest sm)
