-- ===== src/Broker/Http/Subscribers.antt =====
-- Proofs about `subscribe` and `unsubscribe` of broker/http/http.go.
use go_plugins.Prelude.{
  ℕ, String, ◌≡◌, refl, false, List, [], ◌∷◌, ◌++◌, none, arith, ◌==◌, string_eq, nat_eq, eq_iff,
  if◌then◌else◌, All, ◌∙◌, append_assoc,
}
use go_plugins.Prelude.Dict.{lookup-insert}
use go_plugins.Broker.Http.State.{
  Broker, Subscriber, registers, deregisters, subscribers_of, subscribe, without_ref, dropped_calls,
  unsubscribe,
}

-- `ref` is not the pointer of any subscriber of the list.
abbrev pub Lacks : ℕ → List Subscriber → Type 0
Lacks r subs = All (λ (s : Subscriber). (s.ref == r) ≡ false) subs

without_ref-Lacks : (r : ℕ) (subs : List Subscriber) → Lacks r subs → without_ref r subs ≡ subs
unfolding without_ref
without_ref-Lacks r [] h = refl
without_ref-Lacks r (s ∷ subs) h = ground (arith, without_ref-Lacks r subs h.1)

dropped_calls-Lacks : (r : ℕ) (subs : List Subscriber) → Lacks r subs → dropped_calls r subs ≡ []
unfolding dropped_calls
dropped_calls-Lacks r [] h = refl
dropped_calls-Lacks r (s ∷ subs) h = ground (arith, dropped_calls-Lacks r subs h.1)

without_ref_snoc :
    (r : ℕ) (subs : List Subscriber) (s : Subscriber)
    → s.ref ≡ r
    → without_ref r (subs ++ s ∷ []) ≡ without_ref r subs
unfolding without_ref
without_ref_snoc r [] s e = ground arith
without_ref_snoc r (x ∷ subs) s e = ground (arith, without_ref_snoc r subs s e)

dropped_calls_snoc :
    (r : ℕ) (subs : List Subscriber) (s : Subscriber)
    → s.ref ≡ r
    → Lacks r subs
    → dropped_calls r (subs ++ s ∷ []) ≡ deregisters s.svc ∷ []
unfolding dropped_calls
dropped_calls_snoc r [] s e h = ground arith
dropped_calls_snoc r (x ∷ subs) s e h = ground (arith, dropped_calls_snoc r subs s e h.1)

module _ (s : Subscriber) (h : Broker) (new : Lacks s.ref (subscribers_of h s.topic)) where
  subscribers_of-subscribe :
      (t : String)
      → subscribers_of (subscribe none s h).1 t
        ≡ (if s.topic == t then subscribers_of h s.topic ++ s ∷ [] else subscribers_of h t)
  unfolding subscribe
  subscribers_of-subscribe t =
      ground (arith, lookup-insert s.topic t (subscribers_of h s.topic ++ s ∷ []) h.subscribers)

  subscribers_of-unsubscribe :
      (g : Broker) (t : String)
      → subscribers_of (unsubscribe s g) t ≡ (
          if s.topic == t then without_ref s.ref (subscribers_of g s.topic) else subscribers_of g t)
  unfolding unsubscribe
  subscribers_of-unsubscribe g t =
      ground (
        arith,
        lookup-insert s.topic t (without_ref s.ref (subscribers_of g s.topic)) g.subscribers,
      )

  calls-unsubscribe :
      (g : Broker)
      → (unsubscribe s g).calls ≡ g.calls ++ dropped_calls s.ref (subscribers_of g s.topic)
  unfolding unsubscribe
  calls-unsubscribe g = refl

  calls-subscribe : (subscribe none s h).1.calls ≡ h.calls ++ registers s.svc ∷ []
  unfolding subscribe
  calls-subscribe = refl

  -- A subscriber that is new to its topic's list, that the registry takes, and that is unsubscribed
  -- right after, leaves every topic's list as it was; its service was registered once and then
  -- deregistered once.
  pub unsubscribe-subscribe :
      (t : String)
      → (subscribers_of (unsubscribe s (subscribe none s h).1) t ≡ subscribers_of h t)
        × ((unsubscribe s (subscribe none s h).1).calls
            ≡ h.calls ++ registers s.svc ∷ deregisters s.svc ∷ [])
  unsubscribe-subscribe t = (
    ground (
      arith,
      subscribers_of-unsubscribe (subscribe none s h).1 t,
      subscribers_of-subscribe t,
      subscribers_of-subscribe s.topic,
      without_ref_snoc s.ref (subscribers_of h s.topic) s refl,
      without_ref-Lacks s.ref (subscribers_of h s.topic) new,
      eq_iff s.topic s.topic,
      eq_iff s.topic t,
    ),
    calls-unsubscribe (subscribe none s h).1
        ∙ rw (subscribers_of-subscribe s.topic) (
            rw ((eq_iff s.topic s.topic).1 refl) (
              rw (dropped_calls_snoc s.ref (subscribers_of h s.topic) s refl new, calls-subscribe)
                (append_assoc h.calls (registers s.svc ∷ []) _))),
  )
