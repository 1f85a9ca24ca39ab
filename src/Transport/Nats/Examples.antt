-- ===== src/Transport/Nats/Examples.antt =====
-- Tests of the transport's model, and its theorems at concrete inputs.
use go_plugins.Prelude.{
  ℕ, ◌<◌, ◌≡◌, ◌⊎◌, refl, true, false, List, [], ◌∷◌, ◌++◌, Option, none, some, nat_eq, string_eq,
  arith,
}
use go_plugins.Prelude.Outcome.{ok, err}
use go_plugins.Prelude.Dict.{lookup, insert}
use go_plugins.Transport.Nats.{Msg, Listener, Event, arrive, take, refill, step, run, no_sockets}
use go_plugins.Transport.Nats.Order.{view}
use go_plugins.Transport.Nats.Queue
use go_plugins.Transport.Nats.Queue.{no_queues}
use go_plugins.Transport.Nats.Calls.{
  Wire, Client, client_send, socket_send, listen, dial, empty_subject, subject_with_space,
  deadline_exceeded,
}
use go_plugins.Transport.Nats.Answers.{run-queues, first_is_taken, answer-client_send}

abbrev wire : Wire ℕ ℕ
wire = record { marshal = λ n. some n; unmarshal = λ n. some n; takes = λ m. true }

abbrev peer : Client
peer = record { addr = "go.micro.server"; id = "_INBOX.1" }

abbrev sends : ℕ → Msg ℕ
sends n = record { subject = "go.micro.server"; reply = "_INBOX.1"; body = n }

-- Three messages, and between them a call of `Recv`, which goes on to the backlog later.
abbrev busy : List (Event ℕ)
busy = arrive (sends 1) ∷ arrive (sends 2) ∷ take 0 ∷ arrive (sends 3) ∷ []

dialled : dial true true "_INBOX.1" "go.micro.server" ≡ ok peer
unfolding dial
dialled = refl

left_of : Option (Listener ℕ × List (ℕ × Msg ℕ)) → Listener ℕ
left_of none = no_sockets
left_of (some (l, out)) = l

abbrev reached : Listener ℕ
unfolding run lookup insert left_of
reached = left_of (run busy no_sockets)

got : run busy no_sockets ≡ some (reached, (0, sends 1) ∷ [])
unfolding run lookup insert left_of
got = refl

run-queues_example :
    Queue.run busy no_queues
    ≡ some (
      record { so = reached.so; count = reached.count; at = λ i. view (reached.at i) },
      (0, sends 1) ∷ [],
    )
run-queues_example = run-queues busy reached ((0, sends 1) ∷ []) got

one_socket : 0 < reached.count
unfolding run lookup insert left_of
one_socket = omega arith

second_waits : (view (reached.at 0)).waiting ≡ sends 2 ∷ sends 3 ∷ []
unfolding run lookup insert left_of
second_waits = refl

first_is_taken_example :
    ((l1 : Listener ℕ) × (step (take 0) reached ≡ some (l1, some (0, sends 2))))
    ⊎ ((l1 : Listener ℕ) × (l2 : Listener ℕ) × (step (refill 0) reached ≡ some (l1, none))
        × (step (take 0) l1 ≡ some (l2, some (0, sends 2))))
first_is_taken_example =
    first_is_taken busy reached ((0, sends 1) ∷ []) 0 (sends 2) (sends 3 ∷ []) got one_socket
      second_waits

abbrev later : Listener ℕ
unfolding run lookup insert left_of
later = left_of (run (busy ++ (take 0 ∷ [])) no_sockets)

abbrev answer : Msg ℕ
answer = record { subject = "_INBOX.1"; reply = ""; body = 9 }

sent : (client_send wire 0 false peer 2).1 ≡ some (sends 2)
unfolding client_send
sent = refl

took : step (take 0) reached ≡ some (later, some (0, sends 2))
unfolding run lookup insert left_of
took = refl

answered : (socket_send wire 60 true (later.at 0) 9).1 ≡ some answer
unfolding socket_send run lookup insert left_of
answered = refl

-- The deadline comes first, and the message is sent all the same.
too_late : (socket_send wire 60 true (later.at 0) 9).0 ≡ some deadline_exceeded
unfolding socket_send
too_late = refl

answer-client_send_example : answer.subject ≡ peer.id
answer-client_send_example =
    answer-client_send wire busy reached later ((0, sends 1) ∷ []) 0 (sends 2) answer peer 0 60
      false true 2 9 got sent took answered

spaced : listen {D = ℕ} true ":0" "_INBOX.2" "a b" ≡ err subject_with_space
unfolding listen
spaced = refl

unnamed : listen {D = ℕ} true ":0" "_INBOX.2" "" ≡ err empty_subject
unfolding listen
unnamed = refl

default_address : listen {D = ℕ} true ":0" "_INBOX.2" ":0" ≡ ok ("_INBOX.2", no_sockets)
unfolding listen
default_address = refl
