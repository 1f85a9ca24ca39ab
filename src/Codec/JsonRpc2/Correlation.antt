-- ===== src/Codec/JsonRpc2/Correlation.antt =====
-- Proofs about codec/jsonrpc2/client.go: responses find their requests; which responses are accepted.
use go_plugins.Prelude.{
  ℕ, String, ◌≡◌, refl, Bool, true, false, List, [], ◌∷◌, Option, none, some, arith, ◌==◌,
  string_eq, nat_eq, eq_iff, if◌then◌else◌, or_else, is_some, Option-cases, inl, inr, ◌⊎◌, All, ◌∙◌,
  subst, sym,
}
use go_plugins.Prelude.Dict.{lookup, remove, lookup-insert, lookup-remove}
use go_plugins.Codec.JsonRpc2.Json.{Raw, Object, has, Message, Key, text, key_eq, key_same_iff}
use go_plugins.Codec.JsonRpc2.Client.{
  Json, Client, Response, id_text, id_number, id_structure, Param, panics, returns, seq_notify,
  params_of, send_request, write, unmarshal, bad_members, bad_error_member, kept_result, accept,
  read_header,
}

unfoldable pub is_notification : Json → Message → Bool
is_notification j m = j.parse_int m.id == seq_notify

pending-send_request :
    (j : Json) (m : Message) (p : Option Raw) (c : Client) (k : Key)
    → lookup k (send_request j m p c).1.pending ≡ (
        if is_notification j m
        then lookup k c.pending
        else if text m.id == k
        then some m.endpoint
        else lookup k c.pending)
unfolding send_request is_notification
pending-send_request j m p c k = ground (arith, lookup-insert (text m.id) k m.endpoint c.pending)

-- What a write can do to the pending methods.
pending-write :
    (j : Json) (m : Message) (x : Param) (c : Client) (k : Key)
    → (lookup k (write j m x c).1.pending ≡ lookup k c.pending)
      ⊎ ((text m.id == k) ≡ true) × (is_notification j m ≡ false)
unfolding write
pending-write j m x c k = elim (Option-cases (params_of x)) [
  | inl n ↦ rw (n, write) (inl refl)
  | inr (p, n) ↦ rw (n, write) (ground (arith, pending-send_request j m p c k))
]

pending-write_self :
    (j : Json) (m : Message) (x : Param) (c : Client)
    → (write j m x c).0 ≡ none
    → is_notification j m ≡ false
    → lookup (text m.id) (write j m x c).1.pending ≡ some m.endpoint
unfolding write
pending-write_self j m x c h n = elim (Option-cases (params_of x)) [
  | inl e ↦ absurd (ground arith)
  | inr (p, e) ↦
      rw (e, write)
        (ground
          (arith, pending-send_request j m p c (text m.id), key_same_iff (text m.id) (text m.id)))
]

-- Requests that are written one after another, whatever each returns.
unfoldable pub write_all : Json → List (Message × Param) → Client → Client
write_all j [] c = c
write_all j ((m, x) ∷ ms) c = write_all j ms (write j m x c).1

abbrev pub OtherIds : String → List (Message × Param) → Type 0
OtherIds s ms = All (λ (mx : Message × Param). (mx.0.id == s) ≡ false) ms

pending-write_all :
    (j : Json) (s : String) (ms : List (Message × Param)) (c : Client)
    → OtherIds s ms
    → lookup (text s) (write_all j ms c).pending ≡ lookup (text s) c.pending
unfolding write_all
pending-write_all j s [] c h = refl
pending-write_all j s ((m, x) ∷ ms) c h =
    pending-write_all j s ms (write j m x c).1 h.1
    ∙ ground (arith, pending-write j m x c (text s), h.0)

-- A request that was written, and is no notification, gets its method back: when a response with
-- its id is read, after any further requests with other ids, the message has the request's method
-- and id, and the id is no longer pending; no other pending id changes.
pub accept-write :
    (j : Json) (m m' : Message) (x : Param) (c : Client) (ms : List (Message × Param))
    (r : Response)
    → (write j m x c).0 ≡ none
    → is_notification j m ≡ false
    → OtherIds m.id ms
    → r.id ≡ id_text m.id
    → let c' = write_all j ms (write j m x c).1 in
      (d : Client) × (q : Message) × (accept j r m' c' ≡ returns (none, q, d))
      × (q.endpoint ≡ m.endpoint)
      × (q.id ≡ m.id)
      × ((k : Key) → lookup k d.pending ≡ (if text m.id == k then none else lookup k c'.pending))
unfolding accept
accept-write j m m' x c ms r ok n others same =
    let c' = write_all j ms (write j m x c).1 in
    (
      record c' { resp = r; pending = remove (text m.id) c'.pending },
      record m' {
        endpoint = or_else (lookup (text m.id) c'.pending) "";
        error = elim r.error [ none ↦ "" | some e ↦ j.error_text e ];
        id = m.id;
      },
      ground arith,
      ground (
        arith,
        pending-write_all j m.id ms (write j m x c).1 others,
        pending-write_self j m x c ok n,
      ),
      refl,
      λ k. lookup-remove (text m.id) k c'.pending,
    )

unmarshal_inversion :
    (j : Json) (raw : Raw) (o : Object) (r : Response)
    → j.into_object raw ≡ some o
    → unmarshal j raw ≡ some r
    → (q : Response) × (bad_members o ≡ false)
      × (q.version ≡ "2.0")
      × (bad_error_member j o ≡ false)
      × (r ≡ record q { result = kept_result o q })
unfolding unmarshal
unmarshal_inversion j raw o r p e = elim (Option-cases (j.into_response raw)) [
  | inl n ↦ absurd (ground arith)
  | inr (q, n) ↦
      (q, ground arith, ground (arith, eq_iff q.version "2.0"), ground arith, ground arith)
]

-- A response that is accepted has the version 2.0 and exactly one of a result and an error; a result
-- member is never lost, also when it is null.
pub unmarshal_exclusive :
    (j : Json) (raw : Raw) (o : Object) (r : Response)
    → j.into_object raw ≡ some o
    → unmarshal j raw ≡ some r
    → (r.version ≡ "2.0")
      × (((has "result" o ≡ true) × (has "error" o ≡ false) × (is_some r.result ≡ true))
          ⊎ ((has "result" o ≡ false) × (has "error" o ≡ true)))
unfolding bad_members kept_result
unmarshal_exclusive j raw o r p e =
    let (q, members, version, error, same) = unmarshal_inversion j raw o r p e in
    subst
      (λ (z : Response).
        (z.version ≡ "2.0")
        × (((has "result" o ≡ true) × (has "error" o ≡ false) × (is_some z.result ≡ true))
            ⊎ ((has "result" o ≡ false) × (has "error" o ≡ true))))
      (sym same) (version, ground arith)

-- A response whose id is not a string and not null makes `ReadHeader` panic, whatever is pending.
pub read_header_panics :
    (j : Json) (raw : Raw) (m : Message) (c : Client) (r : Response)
    → unmarshal j raw ≡ some r
    → ((n : ℕ) × (r.id ≡ id_number n)) ⊎ (r.id ≡ id_structure)
    → read_header j (some raw) m c ≡ panics
unfolding read_header
read_header_panics j raw m c r e h = ground arith
