-- ===== src/Transport/Nats/Ready.antt =====
-- What waits in a socket is within reach of `Recv`, and came from the peer that the socket answers.
use go_plugins.Prelude.{
  ℕ, ◌+◌, ◌-◌, ◌<◌, String, ◌≡◌, refl, sym, ap, subst, ◌∙◌, Bool, true, false, not, ◌⊎◌, inl, inr,
  List, [], ◌∷◌, ◌++◌, Option, none, some, ◌==◌, nat_eq, string_eq, if◌then◌else◌, ltb, ◌&&◌, arith,
  Bool-cases, Option-cases, nat_beq_iff, append_assoc, All, All-append, eq_iff,
}
use go_plugins.Prelude.Dict.{lookup, insert, remove, lookup-insert, lookup-remove, lookup-nil}
use go_plugins.Transport.Nats.{
  Msg, Socket, Listener, Event, arrive, take, refill, close, clear, put, push, hand, new_socket,
  deliver, accept, taken, refilled, at_socket, step, run, no_sockets, blank,
}
use go_plugins.Transport.Nats.Order.{in_channel}

module _ {D : Type 0} where
  -- The channel is free only if the backlog is empty or a call of `Recv` is on its way to it. All that
  -- waits is from one peer.
  pub record IsReady (s : Socket D) : Type 0 where
    pub ready : s.r ≡ none → (s.bl ≡ []) ⊎ (0 < s.pending)
    pub from_peer : All (λ m. m.reply ≡ s.reply) (in_channel s.r ++ s.bl)

  push_parts :
      (reply : String) (r : Option (Msg D)) (bl : List (Msg D)) (closed : Bool) (pending : ℕ)
      (gone : Bool)
      → All (λ m. m.reply ≡ reply) (in_channel r ++ bl)
      → IsReady (
          push (record {
            reply = reply;
            r = r;
            bl = bl;
            closed = closed;
            pending = pending;
            gone = gone;
          }))
  unfolding push
  push_parts reply (some m) bl closed pending gone h = record { ready = λ e. cc; from_peer = h }
  push_parts reply none [] closed pending gone h = record { ready = λ e. inl refl; from_peer = h }
  push_parts reply none (m ∷ ms) closed pending gone h = record { ready = λ e. cc; from_peer = h }

  push-IsReady :
      (s : Socket D) → All (λ m. m.reply ≡ s.reply) (in_channel s.r ++ s.bl) → IsReady (push s)
  push-IsReady s h = push_parts s.reply s.r s.bl s.closed s.pending s.gone h

  deliver-IsReady :
      (m : Msg D) (s : Socket D) → m.reply ≡ s.reply → IsReady s → IsReady (deliver m s)
  unfolding deliver hand
  deliver-IsReady m s e v = ground (
    arith,
    push-IsReady (record s { bl = s.bl ++ (m ∷ []) }),
    All-append (λ (x : Msg D). x.reply ≡ s.reply) (in_channel s.r ++ s.bl) (m ∷ []),
    append_assoc (in_channel s.r) s.bl (m ∷ []),
  )

  pub taken-IsReady :
      (s s' : Socket D) (m : Msg D)
      → taken s ≡ some (s', m)
      → IsReady s
      → IsReady s' × (m.reply ≡ s.reply) × (s'.reply ≡ s.reply)
  unfolding taken
  taken-IsReady s s' m h v = elim (Option-cases s.r) [
    | inl e ↦ absurd (ground arith)
    | inr (x, e) ↦
        let g = rw e at v.from_peer in
        let t : record s { r = none; pending = s.pending + 1 } ≡ s' = ground arith in
        rw (← t) (record { ready = λ q. inr (omega arith); from_peer = g.1 }, ground arith, refl)
  ]

  refilled-IsReady :
      (s s' : Socket D) → refilled s ≡ some s' → IsReady s → IsReady s' × (s'.reply ≡ s.reply)
  unfolding refilled
  refilled-IsReady s s' h v = ground (arith, push-IsReady (record s { pending = s.pending - 1 }))

  deliver-reply : (m : Msg D) (s : Socket D) → (deliver m s).reply ≡ s.reply
  unfolding deliver hand push
  deliver-reply m s = ground arith

  -- Each socket is ready, and the map leads from a reply subject to a socket for it.
  pub record IsSound (l : Listener D) : Type 0 where
    pub sockets : (i : ℕ) → IsReady (l.at i)
    pub named : (k : String) (i : ℕ) → lookup k l.so ≡ some i → ((l.at i).reply ≡ k) × (i < l.count)

  put-IsReady :
      (i : ℕ) (s : Socket D) (f : ℕ → Socket D)
      → IsReady s
      → ((j : ℕ) → IsReady (f j))
      → (j : ℕ) → IsReady (put i s f j)
  put-IsReady i s f v h j = elim (Bool-cases (i == j)) [ inl e ↦ rw e v | inr e ↦ rw e (h j) ]

  -- A socket is put in the place of one for the same subject.
  at_socket-IsSound :
      (i : ℕ) (s : Socket D) (l : Listener D)
      → IsReady s
      → s.reply ≡ (l.at i).reply
      → IsSound l
      → IsSound (at_socket i l s)
  at_socket-IsSound i s l v e h = record {
    sockets = put-IsReady i s l.at v h.sockets;
    named = λ k j q. (
      elim (Bool-cases (i == j)) [
        | inl w ↦ rw w (e ∙ ap (λ n. (l.at n).reply) ((nat_beq_iff i j).0 w) ∙ (h.named k j q).0)
        | inr w ↦ rw w (h.named k j q).0
      ],
      (h.named k j q).1,
    );
  }

  new-IsReady : (m : Msg D) → IsReady (new_socket m)
  unfolding new_socket
  new-IsReady m = record { ready = λ e. inl refl; from_peer = tt }

  new_named :
      (m : Msg D) (s : Socket D) (l : Listener D) (k : String) (i : ℕ)
      → s.reply ≡ m.reply
      → IsSound l
      → lookup k (insert m.reply l.count l.so) ≡ some i
      → ((put l.count s l.at i).reply ≡ k) × (i < l.count + 1)
  new_named m s l k i e h q = elim (Bool-cases (m.reply == k)) [
    | inl w ↦
        let n : l.count ≡ i = ground (arith, lookup-insert m.reply k l.count l.so) in
        (rw ((nat_beq_iff l.count i).1 n) (e ∙ (eq_iff m.reply k).0 w), omega arith)
    | inr w ↦
        let old = h.named k i (ground (arith, lookup-insert m.reply k l.count l.so)) in
        let apart : (l.count == i) ≡ false = ground (arith, old.1) in
        (rw apart old.0, omega (arith, old.1))
  ]

  accept-IsSound : (m : Msg D) (l : Listener D) → IsSound l → IsSound (accept m l)
  unfolding accept
  accept-IsSound m l h = elim (Option-cases (lookup m.reply l.so)) [
    | inl e ↦
        let fresh = new_socket m in
        let same : fresh.reply ≡ m.reply = unfold new_socket in refl in
        rw (accept, e)
          (record {
            sockets =
                put-IsReady l.count (deliver m fresh) l.at
                  (deliver-IsReady m fresh (sym same) (new-IsReady m)) h.sockets;
            named = λ k i q. new_named m (deliver m fresh) l k i (deliver-reply m fresh ∙ same) h q;
          })
    | inr (i, e) ↦
        rw (accept, e)
          (at_socket-IsSound i (deliver m (l.at i)) l
            (deliver-IsReady m (l.at i) (sym (h.named m.reply i e).0) (h.sockets i))
            (deliver-reply m (l.at i)) h)
  ]

  clear-IsSound :
      (k : String) (l : Listener D) → IsSound l → IsSound (record l { so = remove k l.so })
  clear-IsSound k l h = record {
    sockets = h.sockets;
    named = λ j i q. h.named j i (ground (arith, lookup-remove k j l.so));
  }

  abbrev After : Option (Listener D × Option (ℕ × Msg D)) → Type 0
  After none = Unit
  After (some (l, o)) = IsSound l

  test-After :
      (b : Bool) (l : Listener D) (o : Option (ℕ × Msg D))
      → IsSound l
      → After (if b then some (l, o) else none)
  test-After true l o h = h
  test-After false l o h = tt

  close-IsReady : (s : Socket D) → IsReady s → IsReady (record s { closed = true })
  close-IsReady s v = record { ready = v.ready; from_peer = v.from_peer }

  gone-IsReady : (s : Socket D) → IsReady s → IsReady (record s { gone = true })
  gone-IsReady s v = record { ready = v.ready; from_peer = v.from_peer }

  step-After : (e : Event D) (l : Listener D) → IsSound l → After (step e l)
  unfolding step
  step-After (arrive m) l v = accept-IsSound m l v
  step-After (take i) l v = elim (Option-cases (taken (l.at i))) [
    | inl e ↦ rw (step, e) tt
    | inr ((s, m), e) ↦
        let (ready, from, same) = taken-IsReady (l.at i) s m e (v.sockets i) in
        rw (step, e)
          (test-After (ltb i l.count) (at_socket i l s) (some (i, m))
            (at_socket-IsSound i s l ready same v))
  ]
  step-After (refill i) l v = elim (Option-cases (refilled (l.at i))) [
    | inl e ↦ rw (step, e) tt
    | inr (s, e) ↦
        let (ready, same) = refilled-IsReady (l.at i) s e (v.sockets i) in
        rw (step, e)
          (test-After (ltb i l.count) (at_socket i l s) none (at_socket-IsSound i s l ready same v))
  ]
  step-After (close i) l v = test-After (ltb i l.count) _ none (
      at_socket-IsSound i (record (l.at i) { closed = true }) l
        (close-IsReady (l.at i) (v.sockets i)) refl v)
  step-After (clear i) l v =
      test-After (ltb i l.count && (l.at i).closed && not (l.at i).gone) _ none (
        clear-IsSound (l.at i).reply _ (
          at_socket-IsSound i (record (l.at i) { gone = true }) l
            (gone-IsReady (l.at i) (v.sockets i)) refl v))

  blank-IsReady : IsReady blank
  blank-IsReady = record { ready = λ e. inl refl; from_peer = tt }

  pub no_sockets-IsSound : IsSound no_sockets
  no_sockets-IsSound = record {
    sockets = λ i. blank-IsReady;
    named = λ k i h. absurd (ground (arith, lookup-nil {V = ℕ} k));
  }

  pub run-IsSound :
      (es : List (Event D)) (l l' : Listener D) (out : List (ℕ × Msg D))
      → run es l ≡ some (l', out)
      → IsSound l
      → IsSound l'
  unfolding run
  run-IsSound [] l l' out h v = subst IsSound (ground arith) v
  run-IsSound (e ∷ es) l l' out h v = elim (Option-cases (step e l)) [
    | inl x ↦ absurd (ground arith)
    | inr ((m, p), x) ↦ elim (Option-cases (run es m)) [
      | inl y ↦ absurd (ground arith)
      | inr ((n, os), y) ↦
          subst IsSound (ground arith) (run-IsSound es m n os y (rw x at (step-After e l v)))
    ]
  ]
