-- ===== src/Broker/Grpc/Delivery.antt =====
-- Proofs about broker/grpc/grpc.go: to which handlers a published message comes.
use go_plugins.Prelude.{
  ℕ, ◌+◌, ◌%◌, String, ◌≡◌, refl, ap, Bool, true, false, not, ◌&&◌, List, [], ◌∷◌, ◌++◌, none, some,
  ◌==◌, string_eq, nat_eq, if◌then◌else◌, or_else, length, get_elem?, keep, map, any, arith, eq_iff,
  Bool-cases, inl, inr, keep-append, is_nil, List-cases, length-append,
}
use go_plugins.Prelude.Dict.{Dict, lookup, lookup-insert, lookup-insert_self}
use go_plugins.Registry.{Node, Service}
use go_plugins.Broker.Grpc.{
  Message, Subscriber, Broker, subscribers_of, broadcast_version, handle, subscribe, unsubscribe,
  new_subscriber, Sent, send, publish_from, publish,
}

-- No subscriber has the id.
abbrev pub IsUnused : String → List Subscriber → Type 0
IsUnused id ss = any (λ (s : Subscriber). id == s.id) ss ≡ false

keep-unused :
    (id : String) (ss : List Subscriber)
    → IsUnused id ss
    → keep (λ (s : Subscriber). id == s.id) ss ≡ []
keep-unused id [] h = refl
keep-unused id (s ∷ ss) h = ground (arith, keep-unused id ss (ground (arith, h)), h)

mod_one : (n : ℕ) → n % 1 ≡ 0
mod_one n = omega arith

only : (n : ℕ) (x : Node) → or_else (get_elem? (x ∷ []) (n % 1)) x ≡ x
only n x = ap (λ i. or_else (get_elem? (x ∷ []) i) x) (mod_one n)

sent_lem :
    (topic : String) (header : Dict String String) (body id advertised : String) (secure : Bool)
    → send topic header body (record {
      id = id;
      address = advertised;
      metadata = ("secure", if secure then "true" else "false") ∷ [];
    })
      ≡ record {
        tls = secure;
        address = advertised;
        message = record { topic = topic; id = id; header = header; body = body };
      }
unfolding send lookup
sent_lem topic header body id advertised true = refl
sent_lem topic header body id advertised false = refl

-- A subscriber with a new id whose registration succeeds, for a topic with a name: a message that is
-- published for the topic, when the registry answers with the service that was registered, is one call, to
-- the advertised address with TLS as the broker asks for it; and handed to the broker it runs the
-- subscriber's handler and no other.
pub handle-publish :
    (pick : ℕ → ℕ) (advertised id topic queue : String) (handler : ℕ) (secure : Bool)
    → (header : Dict String String) (body : String) (h : Broker) → (topic == "") ≡ false
    → IsUnused id (subscribers_of h topic)
    → let s = new_subscriber advertised id topic queue handler secure in
      let msg : Message = record { topic = topic; id = id; header = header; body = body } in
      (publish pick topic header body none (s.svc ∷ [])
        ≡ (none, record { tls = secure; address = advertised; message = msg } ∷ []))
      × (handle msg (subscribe none s h).1 ≡ some ((handler, msg) ∷ []))
unfolding publish publish_from handle subscribe new_subscriber lookup
handle-publish pick advertised id topic queue handler secure header body h named new =
    let s = new_subscriber advertised id topic queue handler secure in
    let node : Node = record {
      id = id;
      address = advertised;
      metadata = ("secure", if secure then "true" else "false") ∷ [];
    } in
    (
      ground (arith, only (pick 0) node, sent_lem topic header body id advertised secure),
      ground (
        arith,
        named,
        lookup-insert_self topic (subscribers_of h topic ++ s ∷ []) h.subscribers,
        keep-append (λ (x : Subscriber). id == x.id) (subscribers_of h topic) (s ∷ []),
        keep-unused id (subscribers_of h topic) new,
        eq_iff id id,
      ),
    )

-- What is sent for one service goes to its nodes; the queues and the broadcast differ.
unfoldable pub calls_for : Service → ℕ
calls_for s =
    if is_nil s.nodes then 0 else if s.version == broadcast_version then length s.nodes else 1

unfoldable pub total_calls : List Service → ℕ
unfolding calls_for
total_calls [] = 0
total_calls (s ∷ ss) = calls_for s + total_calls ss

length-map : {A B : Type 0} (f : A → B) (xs : List A) → length (map f xs) ≡ length xs
length-map f [] = refl
length-map f (x ∷ xs) = cc (length-map f xs)

length-publish_from :
    (pick : ℕ → ℕ) (n : ℕ) (f : Node → Sent) (ss : List Service)
    → length (publish_from pick n f ss) ≡ total_calls ss
unfolding publish_from total_calls calls_for
length-publish_from pick n f [] = refl
length-publish_from pick n f (s ∷ ss) = elim (List-cases s.nodes) [
  | inl e ↦ ground (arith, e, length-publish_from pick n f ss)
  | inr (x, xs, e) ↦ ground (
    arith,
    e,
    length-publish_from pick n f ss,
    length-publish_from pick (n + 1) f ss,
    length-append (map f xs) (publish_from pick n f ss),
    length-map f xs,
  )
]

-- A publication that the registry answers makes no call for a service without nodes, one for each node of a
-- service of the broadcast version, and one for every other service.
pub length-publish :
    (pick : ℕ → ℕ) (topic : String) (header : Dict String String) (body : String)
    (ss : List Service)
    → ((publish pick topic header body none ss).0 ≡ none)
      × (length (publish pick topic header body none ss).1 ≡ total_calls ss)
unfolding publish
length-publish pick topic header body ss =
    (refl, length-publish_from pick 0 (send topic header body) ss)

keep_kept :
    (id own : String) (ss : List Subscriber)
    → keep (λ (s : Subscriber). own == s.id) (keep (λ (s : Subscriber). not (s.id == id)) ss)
      ≡ (if own == id then [] else keep (λ (s : Subscriber). own == s.id) ss)
keep_kept id own [] = ground arith
keep_kept id own (s ∷ ss) =
    ground (arith, keep_kept id own ss, eq_iff s.id id, eq_iff own s.id, eq_iff own id)

-- After `unsubscribe` a message with the subscriber's id and topic runs no handler, and every other message
-- runs the handlers of before.
pub handle-unsubscribe :
    (s : Subscriber) (msg : Message) (h : Broker)
    → handle msg (unsubscribe s h) ≡ (
        if not (msg.topic == "") && (msg.topic == s.topic && msg.id == s.id)
        then some []
        else handle msg h)
unfolding handle unsubscribe
handle-unsubscribe s msg h = elim (Bool-cases (s.topic == msg.topic)) [
  | inl e ↦ ground (
    arith,
    e,
    eq_iff s.topic msg.topic,
    eq_iff msg.topic s.topic,
    lookup-insert s.topic msg.topic
        (keep (λ (x : Subscriber). not (x.id == s.id)) (subscribers_of h s.topic)) h.subscribers,
    ap (subscribers_of h) ((eq_iff s.topic msg.topic).0 e),
    keep_kept s.id msg.id (subscribers_of h s.topic),
  )
  | inr e ↦ ground (
    arith,
    e,
    eq_iff s.topic msg.topic,
    eq_iff msg.topic s.topic,
    lookup-insert s.topic msg.topic
        (keep (λ (x : Subscriber). not (x.id == s.id)) (subscribers_of h s.topic)) h.subscribers,
  )
]
