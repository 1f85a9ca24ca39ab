-- ===== src/Transport/Nats/Answers.antt =====
-- What a listener that was used in any order of steps does for its peers.
use go_plugins.Prelude.{
  ℕ, ◌+◌, ◌-◌, ◌<◌, String, ◌≡◌, refl, sym, ap, ◌∙◌, Bool, ◌⊎◌, inl, inr, List, ◌∷◌, ◌++◌, none,
  some, nat_eq, string_eq, ltb, arith, Bool-cases, Option-cases, nat_beq_iff,
}
use go_plugins.Transport.Nats.{
  Msg, Socket, Listener, Event, take, refill, put, push, taken, refilled, at_socket, step, run,
  no_sockets,
}
use go_plugins.Transport.Nats.Order.{in_channel, view, run_view}
use go_plugins.Transport.Nats.Queue
use go_plugins.Transport.Nats.Queue.{enqueue, no_queues}
use go_plugins.Transport.Nats.Ready.{
  IsReady, IsSound, taken-IsReady, run-IsSound, no_sockets-IsSound,
}
use go_plugins.Transport.Nats.Calls.{Wire, Client, client_send, socket_send, send}

module _ {D : Type 0} where
  -- Whatever order a new listener's messages, the calls of `Recv` and the closes come in: what the calls
  -- have taken, and what waits in each socket, are as if each socket were a queue, to whose end the
  -- messages for it go while it is open, and whose first message a call takes.
  pub run-queues :
      (es : List (Event D)) (l : Listener D) (out : List (ℕ × Msg D))
      → run es no_sockets ≡ some (l, out)
      → (Queue.run es no_queues
          ≡ some (record { so = l.so; count = l.count; at = λ i. view (l.at i) }, out))
  run-queues es l out h = run_view es no_sockets out l h

  first_of :
      (s : Socket D) (m : Msg D) (ms : List (Msg D))
      → IsReady s
      → in_channel s.r ++ s.bl ≡ m ∷ ms
      → ((t : Socket D) × (taken s ≡ some (t, m)))
        ⊎ ((t : Socket D) × (u : Socket D) × (refilled s ≡ some t) × (taken t ≡ some (u, m)))
  unfolding taken refilled push
  first_of s m ms v e = elim (Option-cases s.r) [
    | inl x ↦
        let here : s.bl ≡ m ∷ ms = rw x at e in
        elim (v.ready x) [
          | inl z ↦ absurd (ground arith)
          | inr p ↦ inr (
            record s { r = some m; bl = ms; pending = s.pending - 1 },
            record s { r = none; bl = ms; pending = s.pending - 1 + 1 },
            ground arith,
            refl,
          )
        ]
    | inr (y, x) ↦ inl (record s { r = none; pending = s.pending + 1 }, ground arith)
  ]

  take_of :
      (l : Listener D) (i : ℕ) (t : Socket D) (m : Msg D)
      → i < l.count
      → taken (l.at i) ≡ some (t, m)
      → step (take i) l ≡ some (at_socket i l t, some (i, m))
  unfolding step
  take_of l i t m b e = rw (step, e) (ground arith)

  refill_of :
      (l : Listener D) (i : ℕ) (t : Socket D)
      → i < l.count
      → refilled (l.at i) ≡ some t
      → step (refill i) l ≡ some (at_socket i l t, none)
  unfolding step
  refill_of l i t b e = rw (step, e) (ground arith)

  put_here : (i : ℕ) (t : Socket D) (f : ℕ → Socket D) → put i t f i ≡ t
  put_here i t f = rw ((nat_beq_iff i i).1 refl) refl

  -- From wherever a new listener comes to, no message is stuck: the first one that waits in a socket
  -- is what the next call of `Recv` takes, at once, or when a call that has taken a message before has
  -- looked at the backlog, which it then can do.
  pub first_is_taken :
      (es : List (Event D)) (l : Listener D) (out : List (ℕ × Msg D)) (i : ℕ) (m : Msg D)
      (ms : List (Msg D))
      → run es no_sockets ≡ some (l, out)
      → i < l.count
      → (view (l.at i)).waiting ≡ m ∷ ms
      → ((l1 : Listener D) × (step (take i) l ≡ some (l1, some (i, m))))
        ⊎ ((l1 : Listener D) × (l2 : Listener D) × (step (refill i) l ≡ some (l1, none))
            × (step (take i) l1 ≡ some (l2, some (i, m))))
  first_is_taken es l out i m ms h b e =
      elim (first_of (l.at i) m ms
        ((run-IsSound es no_sockets l out h no_sockets-IsSound).sockets i) e) [
          | inl (t, x) ↦ inl (at_socket i l t, take_of l i t m b x)
          | inr (t, u, x, y) ↦ inr (
            at_socket i l t,
            at_socket i (at_socket i l t) u,
            refill_of l i t b x,
            take_of (at_socket i l t) i u m b (rw (put_here i t l.at) y),
          )
        ]

  taken_reply :
      (l l' : Listener D) (i : ℕ) (m : Msg D)
      → IsSound l
      → step (take i) l ≡ some (l', some (i, m))
      → (l'.at i).reply ≡ m.reply
  unfolding step
  taken_reply l l' i m v h = elim (Option-cases (taken (l.at i))) [
    | inl e ↦ absurd (ground arith)
    | inr ((s, m'), e) ↦ elim (Bool-cases (ltb i l.count)) [
      | inr b ↦ absurd (ground arith)
      | inl b ↦
          let (r, from, same) = taken-IsReady (l.at i) s m' e (v.sockets i) in
          let q : at_socket i l s ≡ l' = ground arith in
          let w : m' ≡ m = ground arith in
          rw (← q, ← w) (ap (λ z. z.reply) (put_here i s l.at) ∙ same ∙ sym from)
    ]
  ]

  send_parts :
      {M : Type 0} (w : Wire M D) (timeout : ℕ) (late : Bool) (subject reply : String) (x : M)
      (m : Msg D)
      → (send w timeout late subject reply x).1 ≡ some m
      → (m.subject ≡ subject) × (m.reply ≡ reply)
  unfolding send
  send_parts w timeout late subject reply x m h = elim (Option-cases (w.marshal x)) [
    | inl e ↦ absurd (ground arith)
    | inr (d, e) ↦ ground arith
  ]

  -- From wherever a new listener comes to, a call of `Recv` that takes what a client has sent is on a
  -- socket whose `Send` publishes to that client's inbox: whenever it publishes, that is the subject.
  pub answer-client_send :
      {M : Type 0} (w : Wire M D) (es : List (Event D)) (l l' : Listener D) (out : List (ℕ × Msg D))
      (i : ℕ) (m a : Msg D) (c : Client) (timeout timeout' : ℕ) (late late' : Bool) (x y : M)
      → run es no_sockets ≡ some (l, out)
      → (client_send w timeout late c x).1 ≡ some m
      → step (take i) l ≡ some (l', some (i, m))
      → (socket_send w timeout' late' (l'.at i) y).1 ≡ some a
      → a.subject ≡ c.id
  unfolding client_send socket_send
  answer-client_send w es l l' out i m a c timeout timeout' late late' x y h sent took answered =
      (send_parts w timeout' late' (l'.at i).reply "" y a answered).0
      ∙ taken_reply l l' i m (run-IsSound es no_sockets l out h no_sockets-IsSound) took
      ∙ (send_parts w timeout late c.addr c.id x m sent).1
