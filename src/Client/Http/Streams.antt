-- ===== src/Client/Http/Streams.antt =====
-- client/http/http.go and stream.go: the loop of `Stream`, and the stream that it gives.
use go_plugins.Prelude.{
  ℕ, ◌+◌, zero, suc, String, ◌≡◌, refl, ap, Bool, true, false, List, [], ◌∷◌, map, ◌++◌, Option,
  none, some, ◌==◌, nat_eq, if◌then◌else◌, arith,
}
use go_plugins.Prelude.Dict.{Dict}
use go_plugins.Prelude.Outcome.{Outcome, ok, err}
use go_plugins.Client.Http.{
  Node, Fault, timeout, internal, Source, World, Mark, Retry, attempt, Coding, Post,
}

-- `stream` and `Send`'s errors.
pub data Broken : Type 0 where
  shutdown marshal_failed write_failed read_failed bad_status unmarshal_failed : Broken

-- `httpStream`. `written` is what went over the connection.
pub record Stream : Type 0 where
  pub address : String
  pub endpoint : String
  pub header : Dict String String
  pub closed : Bool
  pub fault : Option Broken
  pub written : List Post

-- `stream`: the codec of the content type, and whether the connection is made.
unfoldable pub open_stream :
    Bool → (String → Bool) → String → Dict String String → Node → Outcome Fault Stream
open_stream false dials endpoint header n = err internal
open_stream true dials endpoint header n =
    if dials n.address
    then ok (record {
      address = n.address;
      endpoint = endpoint;
      header = header;
      closed = false;
      fault = none;
      written = [];
    })
    else err internal

module _ {A : Type 0} where
  -- The loop of `Stream`. `Retry` is given the error of `next`, which is nil here, and not the attempt's.
  unfoldable pub rounds :
      World A → Source → Retry → ℕ → ℕ → Option Fault → Outcome (Option Fault) A × List Mark
  unfolding attempt
  rounds w s retry zero i last = (err last, [])
  rounds w s retry (suc n) i last =
      let (o, marks) = attempt w s i in
      let more = (λ (e : Fault). rounds w s retry n (i + 1) (some e)) in
      if w.ends i then (err (some timeout), marks) else (elim o [
        | ok a ↦ (ok a, marks)
        | err e ↦ elim (retry i none) [
          | err r ↦ (err (some r), marks)
          | ok false ↦ (err (some e), marks)
          | ok true ↦ ((more e).0, marks ++ (more e).1)
        ]
      ])

  -- `Stream` behind its options, as `call_all` is `Call`.
  unfoldable pub stream_all :
      World A → Outcome Fault Source → Bool → Retry → ℕ → Outcome (Option Fault) A × List Mark
  unfolding rounds
  stream_all w (err e) over retry retries = (err (some e), [])
  stream_all w (ok s) true retry retries = (err (some timeout), [])
  stream_all w (ok s) false retry retries = rounds w s retry retries 0 none

-- What comes back on the connection: a response with its status and body, or an error.
abbrev pub Response : Type 0
Response = Option (ℕ × String)

-- A caller's step; `Recv` with what is there to read.
pub data Op (M : Type 0) : Type 0 where
  send : M → Op M
  recv : Response → Op M
  close : Op M

module _ {M : Type 0} (c : Coding M) (writes : Post → Bool) where
  -- `Send`.
  unfoldable pub send_on : M → Stream → Outcome Broken (Option M) × Stream
  send_on x s =
      if s.closed then (err shutdown, record s { fault = some shutdown }) else (elim (c.marshal x) [
        | none ↦ (err marshal_failed, s)
        | some b ↦
            let p : Post = record {
              host = s.address;
              path = s.endpoint;
              header = s.header;
              body = b;
            } in
            if writes p
            then (ok none, record s { written = s.written ++ (p ∷ []) })
            else (err write_failed, s)
      ])

  -- `Recv`: here the status is read.
  unfoldable pub recv_on : Response → Stream → Outcome Broken (Option M) × Stream
  recv_on r s = if s.closed then (err shutdown, record s { fault = some shutdown }) else (elim r [
    | none ↦ (err read_failed, s)
    | some (status, b) ↦
        if status == 200
        then (elim (c.unmarshal b) [ none ↦ (err unmarshal_failed, s) | some x ↦ (ok (some x), s) ])
        else (err bad_status, s)
  ])

  -- A second `Close` does nothing.
  unfoldable pub step : Op M → Stream → Outcome Broken (Option M) × Stream
  unfolding send_on recv_on
  step (send x) s = send_on x s
  step (recv r) s = recv_on r s
  step close s = (ok none, record s { closed = true })

  unfoldable pub run : List (Op M) → Stream → List (Outcome Broken (Option M)) × Stream
  unfolding step
  run [] s = ([], s)
  run (o ∷ os) s = let (a, s') = step o s in let (as', s'') = run os s' in (a ∷ as', s'')

  -- What a closed stream answers.
  abbrev pub refusal : Op M → Outcome Broken (Option M)
  refusal close = ok none
  refusal (send x) = err shutdown
  refusal (recv r) = err shutdown

  run_closed :
      (os : List (Op M)) (s : Stream)
      → s.closed ≡ true
      → ((run os s).0 ≡ map refusal os)
        × ((run os s).1.written ≡ s.written)
        × ((run os s).1.closed ≡ true)
  unfolding run
  run_closed [] s h = (refl, refl, h)
  run_closed (send x ∷ os) s h = ground (arith, run_closed os (record s { fault = some shutdown }))
  run_closed (recv r ∷ os) s h = ground (arith, run_closed os (record s { fault = some shutdown }))
  run_closed (close ∷ os) s h = ground (arith, run_closed os (record s { closed = true }))

  -- Behind a `Close`, and whatever comes after it, every `Send` and `Recv` answers that the connection
  -- is shut down, a further `Close` succeeds, and nothing more is written.
  pub run_close :
      (os : List (Op M)) (s : Stream)
      → ((run (close ∷ os) s).0 ≡ ok none ∷ map refusal os)
        × ((run (close ∷ os) s).1.written ≡ s.written)
  unfolding run
  run_close os s =
      let (answers, written, closed) = run_closed os (record s { closed = true }) refl in
      (ap (λ as'. ok none ∷ as') answers, written)
