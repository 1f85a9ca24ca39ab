-- ===== src/Codec/JsonRpc2/Pending.antt =====
-- Proofs about the sequence numbers and the pending ids of codec/jsonrpc2/server.go.
use go_plugins.Prelude.{
  ℕ, String, ◌≡◌, refl, List, [], ◌∷◌, ◌++◌, Option, none, some, arith, ◌==◌, string_eq, nat_eq,
  if◌then◌else◌, Option-cases, inl, inr, ◌⊎◌, ◌≢◌, subst, sym,
}
use go_plugins.Prelude.Dict.{lookup, lookup-insert}
use go_plugins.Codec.JsonRpc2.Json.{Raw, Message, Key, num, text, key_eq}
use go_plugins.Codec.JsonRpc2.Errors.{parse_error, invalid_request}
use go_plugins.Codec.JsonRpc2.Server.{
  Request, Json, Server, Fault, Value, Reply, refused, invalid_sequence, unmarshal, new_server,
  bump, read_header, write,
}

-- A request that is accepted is answered by nothing yet: its id is pending under the next number,
-- which the message carries in decimals with the method as its endpoint; every other pending id
-- stays.
pub read_header_accepts :
    (j : Json) (decimal : ℕ → String) (b : Raw) (m : Message) (c : Server) (r : Request) (k : Key)
    → unmarshal j b ≡ some r
    → let (e, m', c') = read_header j decimal (some b) m c in
      (e ≡ none)
      × (m'.id ≡ decimal (bump c.seq))
      × (m'.endpoint ≡ r.method)
      × (c'.seq ≡ bump c.seq)
      × (c'.sent ≡ c.sent)
      × (lookup k c'.pending ≡ (if num (bump c.seq) == k then some r.id else lookup k c.pending))
unfolding read_header
read_header_accepts j decimal b m c r k h =
    rw (h, read_header)
      (refl, refl, refl, refl, refl, lookup-insert (num (bump c.seq)) k r.id c.pending)

abbrev IsRefusal : List Reply → Type 0
IsRefusal l = (l ≡ refused parse_error ∷ []) ⊎ (l ≡ refused invalid_request ∷ [])

-- A header that is not accepted is answered by one refusal, a parse error or an invalid request,
-- and leaves the message, the numbers and the pending ids as they were.
pub read_header_refuses :
    (j : Json) (decimal : ℕ → String) (raw : Option Raw) (m : Message) (c : Server)
    → (read_header j decimal raw m c).0 ≢ none
    → let (e, m', c') = read_header j decimal raw m c in
      ((l : List Reply) × (c'.sent ≡ c.sent ++ l) × IsRefusal l)
      × (m' ≡ m)
      × (c'.seq ≡ c.seq)
      × (c'.pending ≡ c.pending)
unfolding read_header
read_header_refuses j decimal none m c h =
    ((refused parse_error ∷ [], refl, inl refl), refl, refl, refl)
read_header_refuses j decimal (some b) m c h = elim (Option-cases (unmarshal j b)) [
  | inl n ↦ rw (n, read_header) ((refused invalid_request ∷ [], refl, inr refl), refl, refl, refl)
  | inr (r, n) ↦ absurd (h (rw (n, read_header) refl))
]

-- No id is pending under a string.
abbrev pub IsNumbered : Server → Type 0
IsNumbered c = (s : String) → lookup (text s) c.pending ≡ none

read_header-IsNumbered :
    (j : Json) (decimal : ℕ → String) (raw : Option Raw) (m : Message) (c : Server)
    → IsNumbered c
    → IsNumbered (read_header j decimal raw m c).2
unfolding read_header
read_header-IsNumbered j decimal none m c h s = h s
read_header-IsNumbered j decimal (some b) m c h s = elim (Option-cases (unmarshal j b)) [
  | inl n ↦ rw (n, read_header) (h s)
  | inr (r, n) ↦
      rw (n, read_header)
        (ground (arith, lookup-insert (num (bump c.seq)) (text s) r.id c.pending, h s))
]

write_unknown :
    (j : Json) (m : Message) (x : Value) (c : Server)
    → IsNumbered c
    → write j m x c ≡ (some invalid_sequence, c)
unfolding write
write_unknown j m x c h = rw (h m.id, write)

-- What happens to a server: headers are read, responses written.
pub data Call : Type 0 where
  reads : Option Raw → Message → Call
  writes : Message → Value → Call

unfoldable pub step : Json → (ℕ → String) → Call → Server → Server
step j decimal (reads raw m) c = (read_header j decimal raw m c).2
step j decimal (writes m x) c = (write j m x c).1

unfoldable pub run : Json → (ℕ → String) → List Call → Server → Server
run j decimal [] c = c
run j decimal (a ∷ as') c = run j decimal as' (step j decimal a c)

step-IsNumbered :
    (j : Json) (decimal : ℕ → String) (a : Call) (c : Server)
    → IsNumbered c
    → IsNumbered (step j decimal a c)
unfolding step
step-IsNumbered j decimal (reads raw m) c h = read_header-IsNumbered j decimal raw m c h
step-IsNumbered j decimal (writes m x) c h =
    subst (λ (p : Option Fault × Server). IsNumbered p.1) (sym (write_unknown j m x c h)) h

run-IsNumbered :
    (j : Json) (decimal : ℕ → String) (as' : List Call) (c : Server)
    → IsNumbered c
    → IsNumbered (run j decimal as' c)
unfolding run
run-IsNumbered j decimal [] c h = h
run-IsNumbered j decimal (a ∷ as') c h =
    run-IsNumbered j decimal as' (step j decimal a c) (step-IsNumbered j decimal a c h)

new_server-IsNumbered : IsNumbered new_server
unfolding new_server lookup
new_server-IsNumbered s = refl

-- After any calls on a new server codec, every `Write` fails with an invalid sequence number and
-- sends nothing: ids are stored under numbers and looked up under strings.
pub write_always_fails :
    (j : Json) (decimal : ℕ → String) (calls : List Call) (m : Message) (x : Value)
    → write j m x (run j decimal calls new_server)
      ≡ (some invalid_sequence, run j decimal calls new_server)
write_always_fails j decimal calls m x =
    write_unknown j m x (run j decimal calls new_server)
      (run-IsNumbered j decimal calls new_server new_server-IsNumbered)
