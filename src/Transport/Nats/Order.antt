-- ===== src/Transport/Nats/Order.antt =====
-- The sockets are queues, whatever the order of the steps.
use go_plugins.Prelude.{
  ℕ, ◌+◌, ◌≡◌, refl, sym, ap, ◌∙◌, fun_ext, true, not, inl, inr, List, [], ◌∷◌, ◌++◌, Option, none,
  some, ◌==◌, nat_eq, string_eq, ltb, ◌&&◌, ◌-◌, arith, Bool-cases, Option-cases, nat_beq_iff,
  append_assoc,
}
use go_plugins.Prelude.Dict.{lookup, remove}
use go_plugins.Transport.Nats.{
  Msg, Socket, Listener, Event, arrive, take, refill, close, clear, put, push, hand, new_socket,
  deliver, accept, taken, refilled, at_socket, step, run,
}
use go_plugins.Transport.Nats.Queue
use go_plugins.Transport.Nats.Queue.{Queue, Queues, enqueue, new_queue, no_queues}

put_same : {A : Type 0} (i : ℕ) (f : ℕ → A) → put i (f i) f ≡ f
put_same i f = fun_ext λ j. elim (Bool-cases (i == j)) [
  | inl e ↦ rw e (ap f ((nat_beq_iff i j).0 e))
  | inr e ↦ rw e refl
]

module _ {D : Type 0} where
  abbrev pub in_channel : Option (Msg D) → List (Msg D)
  in_channel none = []
  in_channel (some m) = m ∷ []

  -- What waits in a socket: the channel's message before the backlog.
  abbrev pub view : Socket D → Queue D
  view s = record {
    reply = s.reply;
    waiting = in_channel s.r ++ s.bl;
    closed = s.closed;
    gone = s.gone;
  }

  abbrev pub view_all : Listener D → Queues D
  view_all l = record { so = l.so; count = l.count; at = λ i. view (l.at i) }

  view-push : (s : Socket D) → view (push s) ≡ view s
  unfolding push
  view-push s = ground arith

  view-hand :
      (m : Msg D) (s : Socket D)
      → view (hand m s) ≡ record (view s) { waiting = in_channel s.r ++ s.bl ++ m ∷ [] }
  unfolding hand
  view-hand m s =
      view-push (record s { bl = s.bl ++ (m ∷ []) })
      ∙ ap (λ w. record (view s) { waiting = w })
          (sym (append_assoc (in_channel s.r) s.bl (m ∷ [])))

  view-deliver : (m : Msg D) (s : Socket D) → view (deliver m s) ≡ enqueue m (view s)
  unfolding deliver
  view-deliver m s = ground (arith, view-hand m s)

  view-put :
      (i : ℕ) (s : Socket D) (f : ℕ → Socket D)
      → (λ j. view (put i s f j)) ≡ put i (view s) (λ j. view (f j))
  view-put i s f = fun_ext λ j. elim (Bool-cases (i == j)) [ inl e ↦ rw e refl | inr e ↦ rw e refl ]

  view_all-accept :
      (m : Msg D) (l : Listener D)
      → Queue.step (arrive m) (view_all l) ≡ some (view_all (accept m l), none)
  unfolding accept new_socket
  view_all-accept m l = elim (Option-cases (lookup m.reply l.so)) [
    | inl e ↦
        let placed = view-put l.count (deliver m (new_socket m)) l.at in
        rw (Queue.step, accept, e, placed, view-deliver m (new_socket m)) refl
    | inr (i, e) ↦
        let placed = view-put i (deliver m (l.at i)) l.at in
        rw (Queue.step, accept, e, placed, view-deliver m (l.at i)) refl
  ]

  abbrev lift_view :
      Option (Listener D × Option (ℕ × Msg D)) → Option (Queues D × Option (ℕ × Msg D))
  lift_view none = none
  lift_view (some (l, o)) = some (view_all l, o)

  placed :
      (i : ℕ) (s : Socket D) (l : Listener D) (o : Option (ℕ × Msg D))
      → some (Queue.at_queue i (view_all l) (view s), o) ≡ lift_view (some (at_socket i l s, o))
  placed i s l o = ap (λ f. some (record (view_all l) { at = f }, o)) (sym (view-put i s l.at))

  take_seen :
      (i : ℕ) (l : Listener D) {p : Listener D × Option (ℕ × Msg D)}
      → step (take i) l ≡ some p
      → Queue.step (take i) (view_all l) ≡ lift_view (some p)
  unfolding step taken
  take_seen i l h = elim (Option-cases (l.at i).r) [
    | inl e ↦ absurd (ground arith)
    | inr (m, e) ↦ elim (Bool-cases (ltb i l.count)) [
      | inl b ↦
          rw (Queue.step, e, b)
            (placed i (record (l.at i) { r = none; pending = (l.at i).pending + 1 }) l (some (i, m))
              ∙ ap lift_view (rw (step, e, b) at h))
      | inr b ↦ absurd (ground arith)
    ]
  ]

  refill_seen :
      (i : ℕ) (l : Listener D) {p : Listener D × Option (ℕ × Msg D)}
      → step (refill i) l ≡ some p
      → Queue.step (refill i) (view_all l) ≡ lift_view (some p)
  unfolding step refilled
  refill_seen i l h = elim (Bool-cases (ltb i l.count)) [
    | inr b ↦ absurd (ground arith)
    | inl b ↦ elim (Bool-cases ((l.at i).pending == 0)) [
      | inl z ↦ absurd (ground arith)
      | inr z ↦
          let s = record (l.at i) { pending = (l.at i).pending - 1 } in
          rw b (
            ap (λ f. some (record (view_all l) { at = f }, none)) (sym (put_same i (view_all l).at))
            ∙ ap (λ q. some (Queue.at_queue i (view_all l) q, none)) (sym (view-push s))
            ∙ placed i (push s) l none
            ∙ ap lift_view (rw (step, z, b) at h))
    ]
  ]

  clear_seen :
      (i : ℕ) (l : Listener D) {p : Listener D × Option (ℕ × Msg D)}
      → step (clear i) l ≡ some p
      → Queue.step (clear i) (view_all l) ≡ lift_view (some p)
  unfolding step
  clear_seen i l h = elim (Bool-cases (ltb i l.count && (l.at i).closed && not (l.at i).gone)) [
    | inr b ↦ absurd (ground arith)
    | inl b ↦ rw b (
        ap (λ f. some (record { so = remove (l.at i).reply l.so; count = l.count; at = f }, none))
          (sym (view-put i (record (l.at i) { gone = true }) l.at))
        ∙ ap lift_view (rw b at h))
  ]

  -- Each step of the listener is the step of the queues, with the same message taken.
  view_all-step :
      (e : Event D) (l : Listener D) {p : Listener D × Option (ℕ × Msg D)}
      → step e l ≡ some p
      → Queue.step e (view_all l) ≡ lift_view (some p)
  unfolding step
  view_all-step (arrive m) l h = view_all-accept m l ∙ ap lift_view h
  view_all-step (take i) l h = take_seen i l h
  view_all-step (refill i) l h = refill_seen i l h
  view_all-step (close i) l h = elim (Bool-cases (ltb i l.count)) [
    | inl b ↦ rw b (placed i (record (l.at i) { closed = true }) l none ∙ ap lift_view (rw b at h))
    | inr b ↦ absurd (ground arith)
  ]
  view_all-step (clear i) l h = clear_seen i l h

  pub run_view :
      (es : List (Event D)) (l : Listener D) (o : List (ℕ × Msg D)) (l' : Listener D)
      → run es l ≡ some (l', o)
      → Queue.run es (view_all l) ≡ some (view_all l', o)
  unfolding run Queue.run
  run_view [] l o l' h = ground arith
  run_view (e ∷ es) l o l' h = elim (Option-cases (step e l)) [
    | inl x ↦ absurd (ground arith)
    | inr ((m, p), x) ↦ elim (Option-cases (run es m)) [
      | inl y ↦ absurd (ground arith)
      | inr ((n, os), y) ↦ ground (arith, view_all-step e l x, run_view es m os n y)
    ]
  ]
