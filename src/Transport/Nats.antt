-- ===== src/Transport/Nats.antt =====
-- transport/nats/nats.go: the listener with its sockets, and the client. Messages that the connection
-- brings, the handlers' calls of `Recv`, and the goroutines that wait for a close are steps in any
-- order; each critical section is one step, and so is one turn of the loop in `Accept`, which alone
-- adds sockets. The sockets that were made have numbers.
pub mod Queue
pub mod Order
pub mod Ready
pub mod Calls
pub mod Answers
mod Examples
use go_plugins.Prelude.{
  ℕ, ◌+◌, ◌-◌, zero, suc, String, Bool, true, false, not, List, [], ◌∷◌, ◌++◌, Option, none, some,
  ◌==◌, nat_eq, string_eq, if◌then◌else◌, ltb, ◌&&◌,
}
use go_plugins.Prelude.Dict.{Dict, lookup, insert, remove}

-- `nats.Msg`, with its data as the codec reads it.
pub record Msg (D : Type 0) : Type 0 where
  pub subject : String
  pub reply : String
  pub body : D

-- `ntportSocket`: the channel `r`, which holds one message, and the backlog. `pending` counts the calls
-- of `Recv` that have taken a message and not yet looked at the backlog; `gone` is set when the
-- goroutine that waits for the close has deleted the socket.
pub record Socket (D : Type 0) : Type 0 where
  pub reply : String
  pub r : Option (Msg D)
  pub bl : List (Msg D)
  pub closed : Bool
  pub pending : ℕ
  pub gone : Bool

-- `ntportListener`: `so` leads from a reply subject to the number of a socket, and `at` holds the
-- sockets that were made, those below `count`.
pub record Listener (D : Type 0) : Type 0 where
  pub so : Dict String ℕ
  pub count : ℕ
  pub at : ℕ → Socket D

pub data Event (D : Type 0) : Type 0 where
  -- `NextMsg` in `Accept`.
  arrive : Msg D → Event D
  -- A call of `Recv` gets a message; and goes on to the backlog.
  take : ℕ → Event D
  refill : ℕ → Event D
  close : ℕ → Event D
  -- The goroutine behind `<-sock.close`.
  clear : ℕ → Event D

abbrev pub put : {A : Type 0} → ℕ → A → (ℕ → A) → ℕ → A
put i x f j = if i == j then x else f j

module _ {D : Type 0} where
  -- The head of the backlog goes into the channel, if that is free.
  unfoldable pub push : Socket D → Socket D
  push s = elim s.r [
    | some m ↦ s
    | none ↦ elim s.bl [ [] ↦ s | m ∷ ms ↦ record s { r = some m; bl = ms } ]
  ]

  -- The critical section of `Accept`.
  unfoldable pub hand : Msg D → Socket D → Socket D
  unfolding push
  hand m s = push (record s { bl = s.bl ++ (m ∷ []) })

  unfoldable pub new_socket : Msg D → Socket D
  new_socket m = record {
    reply = m.reply;
    r = none;
    bl = [];
    closed = false;
    pending = 0;
    gone = false;
  }

  -- A message for a socket: a closed one gets nothing.
  unfoldable pub deliver : Msg D → Socket D → Socket D
  unfolding hand
  deliver m s = if s.closed then s else hand m s

  -- One turn of the loop in `Accept`.
  unfoldable pub accept : Msg D → Listener D → Listener D
  unfolding deliver new_socket
  accept m l = elim (lookup m.reply l.so) [
    | none ↦ record {
      so = insert m.reply l.count l.so;
      count = l.count + 1;
      at = put l.count (deliver m (new_socket m)) l.at;
    }
    | some i ↦ record l { at = put i (deliver m (l.at i)) l.at }
  ]

  -- A step of a socket: none where it cannot be made. A take gives its message.
  unfoldable pub taken : Socket D → Option (Socket D × Msg D)
  taken s = elim s.r [
    | none ↦ none
    | some m ↦ some (record s { r = none; pending = s.pending + 1 }, m)
  ]

  unfoldable pub refilled : Socket D → Option (Socket D)
  unfolding push
  refilled s = if s.pending == 0 then none else some (push (record s { pending = s.pending - 1 }))

  abbrev pub at_socket : ℕ → Listener D → Socket D → Listener D
  at_socket i l s = record l { at = put i s l.at }

  -- A step, none where it cannot be made, with the message that a call of `Recv` takes. A second
  -- close does nothing.
  unfoldable pub step : Event D → Listener D → Option (Listener D × Option (ℕ × Msg D))
  unfolding accept taken refilled
  step (arrive m) l = some (accept m l, none)
  step (take i) l = elim (taken (l.at i)) [
    | none ↦ none
    | some (s, m) ↦ if ltb i l.count then some (at_socket i l s, some (i, m)) else none
  ]
  step (refill i) l = elim (refilled (l.at i)) [
    | none ↦ none
    | some s ↦ if ltb i l.count then some (at_socket i l s, none) else none
  ]
  step (close i) l =
      if ltb i l.count then some (at_socket i l (record (l.at i) { closed = true }), none) else none
  step (clear i) l =
      if ltb i l.count && (l.at i).closed && not (l.at i).gone
      then some (
        record (at_socket i l (record (l.at i) { gone = true })) {
          so = remove (l.at i).reply l.so;
        },
        none,
      )
      else none

  -- The steps in their order, with what the calls of `Recv` take.
  unfoldable pub run : List (Event D) → Listener D → Option (Listener D × List (ℕ × Msg D))
  unfolding step
  run [] l = some (l, [])
  run (e ∷ es) l = elim (step e l) [
    | none ↦ none
    | some (l', o) ↦ elim (run es l') [
      | none ↦ none
      | some (l'', os) ↦ some (l'', elim o [ none ↦ os | some p ↦ p ∷ os ])
    ]
  ]

  abbrev pub blank : Socket D
  blank = record { reply = ""; r = none; bl = []; closed = false; pending = 0; gone = false }

  -- The listener that `Listen` makes.
  abbrev pub no_sockets : Listener D
  no_sockets = record { so = []; count = 0; at = λ i. blank }
