-- ===== src/Codec/MsgpackRpc/Exclusive.antt =====
-- No input is taken for messages of two types.
use go_plugins.Prelude.{
  ℤ, pos, negsuc, ℕ, ◌≡◌, ◌≢◌, refl, Bool, true, false, ◌&&◌, inl, inr, ◌==◌, nat_eq, arith,
  Bool-cases, nat_beq_iff,
}
use go_plugins.Prelude.Outcome.{Outcome, ok, err, Outcome-cases}
use go_plugins.Codec.MsgpackRpc.{
  Bytes, Fault, bad_pack_size, bad_message_type, Msgp, Request, Response, Notification,
}
use go_plugins.Codec.MsgpackRpc.Decode.{
  Decoder, ◌>>=◌, ◌>>◌, guard, read, int_is, request_fields, response_fields, notification_fields,
  fill_request, fill_response, fill_notification, not_readable, decode_request, decode_response,
  decode_notification,
}

abbrev pub accepted : {R : Type 0} → R × Outcome Fault (Unit {0} × Bytes) → Bool
accepted (r, ok a) = true
accepted (r, err e) = false

-- The input begins with an array of a size and an `int`.
abbrev HasStart : {V : Type 0} → Msgp V → ℕ → ℕ → Bytes → Type 0
HasStart ms size typ b =
    (b1 : Bytes) × (b2 : Bytes) × (ms.read_array b ≡ ok (size, b1))
    × (ms.read_int b1 ≡ ok (pos typ, b2))

module _ {V : Type 0} (ms : Msgp V) where
  -- The start that the three decoders share.
  begin : {R : Type 0} → ℕ → ℕ → Decoder R (Unit {0}) → Decoder R (Unit {0})
  begin size typ more = do
    s ← read ms.read_array
    guard (s == size) bad_pack_size
    t ← read ms.read_int
    guard (int_is typ t) bad_message_type
    more

  int_is-pos : (n : ℕ) (t : ℤ) → int_is n t ≡ true → t ≡ pos n
  unfolding int_is
  int_is-pos n (pos j) h = ground (arith, nat_beq_iff j n)
  int_is-pos n (negsuc j) h = absurd (ground arith)

  begin_lem :
      {R : Type 0} (size typ : ℕ) (more : Decoder R (Unit {0})) (r : R) (b : Bytes)
      → accepted (begin size typ more r b) ≡ true
      → HasStart ms size typ b
  unfolding begin
  begin_lem size typ more r b h = elim (Outcome-cases (ms.read_array b)) [
    | inr (x, e) ↦ absurd (ground arith)
    | inl ((s, b1), e) ↦ elim (Bool-cases (s == size)) [
      | inr w ↦ absurd (ground arith)
      | inl w ↦ elim (Outcome-cases (ms.read_int b1)) [
        | inr (x, e') ↦ absurd (ground arith)
        | inl ((t, b2), e') ↦ elim (Bool-cases (int_is typ t)) [
          | inr w' ↦ absurd (ground arith)
          | inl w' ↦ (b1, b2, ground (arith, nat_beq_iff s size), ground (arith, int_is-pos typ t))
        ]
      ]
    ]
  ]

  request_start :
      (t : Request V) (b : Bytes) → accepted (decode_request ms t b) ≡ true → HasStart ms 4 0 b
  unfolding decode_request fill_request begin
  request_start t b h = elim (Bool-cases (not_readable ms t.body)) [
    | inl e ↦ absurd (ground arith)
    | inr e ↦ begin_lem 4 0 (request_fields ms t.body) t b (rw e at h)
  ]

  response_start :
      (t : Response V) (b : Bytes) → accepted (decode_response ms t b) ≡ true → HasStart ms 4 1 b
  unfolding decode_response fill_response begin
  response_start t b h = elim (Bool-cases (not_readable ms t.body)) [
    | inl e ↦ absurd (ground arith)
    | inr e ↦ begin_lem 4 1 (response_fields ms t.body) t b (rw e at h)
  ]

  notification_start :
      (t : Notification V) (b : Bytes)
      → accepted (decode_notification ms t b) ≡ true
      → HasStart ms 3 2 b
  unfolding decode_notification fill_notification begin
  notification_start t b h = elim (Bool-cases (not_readable ms t.body)) [
    | inl e ↦ absurd (ground arith)
    | inr e ↦ begin_lem 3 2 (notification_fields ms t.body) t b (rw e at h)
  ]

  clash : {s s' t t' : ℕ} {b : Bytes} → HasStart ms s t b → HasStart ms s' t' b → t ≢ t' → ⊥
  clash (b1, b2, e, f) (b1', b2', e', f') ne = ne (ground arith)

  apart : (x y : Bool) → (x ≡ true → y ≡ true → ⊥) → (x && y) ≡ false
  apart true true h = absurd (h refl refl)
  apart true false h = refl
  apart false y h = refl

  -- At most one of the decoders accepts an input, whatever the messages hold that they fill.
  pub decoders_exclude :
      (q : Request V) (r : Response V) (n : Notification V) (b : Bytes)
      → (accepted (decode_request ms q b) && accepted (decode_response ms r b) ≡ false)
        × (accepted (decode_request ms q b) && accepted (decode_notification ms n b) ≡ false)
        × (accepted (decode_response ms r b) && accepted (decode_notification ms n b) ≡ false)
  decoders_exclude q r n b = (
    apart _ _ (λ x y. clash (request_start q b x) (response_start r b y) (omega arith)),
    apart _ _ (λ x y. clash (request_start q b x) (notification_start n b y) (omega arith)),
    apart _ _ (λ x y. clash (response_start r b x) (notification_start n b y) (omega arith)),
  )
