-- ===== src/Transport/Nats/Calls.antt =====
-- transport/nats/nats.go: the calls of the client and of a socket, `Dial` and `Listen`. The codec, the
-- connection and the clock are arguments.
use Prim.Native.Char.{code}
use go_plugins.Prelude.{
  ℕ, String, Bool, true, false, ◌||◌, Option, none, some, ◌==◌, string_eq, nat_eq, if◌then◌else◌,
}
use go_plugins.Prelude.Outcome.{Outcome, ok, err}
use go_plugins.Transport.Nats.{Msg, Socket, Listener, no_sockets}

pub data Fault : Type 0 where
  marshal_failed publish_failed deadline_exceeded unmarshal_failed closed connect_failed
        subscribe_failed empty_subject subject_with_space :
      Fault

-- The codec, of messages `M` and data `D`; whether the connection takes a publication.
pub record Wire (M D : Type 0) : Type 0 where
  pub marshal : M → Option D
  pub unmarshal : D → Option M
  pub takes : Msg D → Bool

-- `ntportClient`.
pub record Client : Type 0 where
  pub addr : String
  pub id : String

-- What comes first: a message, the deadline, or the error of a subscription.
pub data Wait (D : Type 0) : Type 0 where
  brought : Msg D → Wait D
  deadline : Wait D
  broken : Wait D

module _ {M D : Type 0} (w : Wire M D) where
  -- `Send` of both ends: the error, and what is published. With a timeout the deadline may come before
  -- the answer of the connection; the publication goes on.
  unfoldable pub send : ℕ → Bool → String → String → M → Option Fault × Option (Msg D)
  send timeout late subject reply x = elim (w.marshal x) [
    | none ↦ (some marshal_failed, none)
    | some d ↦
        let m : Msg D = record { subject = subject; reply = reply; body = d } in
        let fault = if w.takes m then none else some publish_failed in
        let kept = if w.takes m then some m else none in
        if timeout == 0
        then (fault, kept)
        else if late
        then (some deadline_exceeded, kept)
        else (fault, kept)
  ]

  unfoldable pub client_send : ℕ → Bool → Client → M → Option Fault × Option (Msg D)
  unfolding send
  client_send timeout late c x = send timeout late c.addr c.id x

  unfoldable pub socket_send : ℕ → Bool → Socket D → M → Option Fault × Option (Msg D)
  unfolding send
  socket_send timeout late s x = send timeout late s.reply "" x

  abbrev read : Msg D → Outcome Fault M
  read m = elim (w.unmarshal m.body) [ none ↦ err unmarshal_failed | some x ↦ ok x ]

  -- `Recv` of both ends, of what comes. The channel of a socket is never closed.
  unfoldable pub recv : Wait D → Outcome Fault M
  recv (brought m) = read m
  recv deadline = err deadline_exceeded
  recv broken = err closed

-- `strings.Contains(addr, " ")`.
unfoldable pub has_space : String → Bool
has_space String.[] = false
has_space (String.◌∷◌ c s) = code c == b' ' || has_space s

-- `Dial`: whether the connection and the subscription succeed, and a fresh inbox.
unfoldable pub dial : Bool → Bool → String → String → Outcome Fault Client
dial false subscribes inbox addr = err connect_failed
dial true false inbox addr = err subscribe_failed
dial true true inbox addr = ok (record { addr = addr; id = inbox })

-- `Listen`: the subject and the listener. The server's default address stands for a fresh inbox.
unfoldable pub listen :
    {D : Type 0} → Bool → String → String → String → Outcome Fault (String × Listener D)
unfolding has_space
listen false default inbox addr = err connect_failed
listen true default inbox addr =
    let subject = if addr == default then inbox else addr in
    if subject == ""
    then err empty_subject
    else if has_space subject
    then err subject_with_space
    else ok (subject, no_sockets)
