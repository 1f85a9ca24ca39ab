-- ===== src/Broker/Http/Backlog.antt =====
-- Proofs about `Publish` of broker/http/http.go over all services and the whole backlog.
use go_plugins.Prelude.{
  ◌<◌, String, ◌≡◌, refl, Bool, true, false, ◌||◌, List, [], ◌∷◌, arith, string_eq, eq_iff, length,
  is_nil, drop, subst, sym, not, Bool-cases, inl, inr,
}
use go_plugins.Registry.{Node, Service}
use go_plugins.Broker.Http.State.{max_inbox, messages, get_message}
use go_plugins.Broker.Http.Inbox.{IsBounded, get_message-split}
use go_plugins.Broker.Http.Publish.{World, Net, eligible, send_to, send, send_all, flush, backlog}
use go_plugins.Broker.Http.Delivery.{Settled, send_to-Settled, send_to-IsBounded}

-- Some service has a node for the topic.
abbrev pub has_eligible : String → List Service → Bool
has_eligible topic [] = false
has_eligible topic (s ∷ ss) = not (is_nil (eligible topic s.nodes)) || has_eligible topic ss

send-keeps_Settled :
    (w : World) (topic msg : String) (ss : List Service) (n : Net)
    → IsBounded n.broker
    → Settled topic msg n
    → Settled topic msg (send w topic ss msg n)
unfolding send
send-keeps_Settled w topic msg [] n b h = h
send-keeps_Settled w topic msg (s ∷ ss) n b h =
    let m = send_to w topic msg s.version (eligible topic s.nodes) n in
    send-keeps_Settled w topic msg ss m
      (send_to-IsBounded w topic msg s.version (eligible topic s.nodes) n b)
      (send_to-Settled w topic msg s.version (eligible topic s.nodes) n b (inl h))

send_to_none :
    (w : World) (topic msg version : String) (nodes : List Node) (n : Net)
    → is_nil nodes ≡ true
    → send_to w topic msg version nodes n ≡ n
unfolding send_to
send_to_none w topic msg version [] n h = refl
send_to_none w topic msg version (x ∷ nodes) n h = absurd (cc)

-- If some service has a node for the topic, no topic has more than 64 messages in the inbox and this
-- one has fewer, then whatever POSTs fail, the message is delivered to a node or waits in the inbox
-- afterwards.
pub send-Settled :
    (w : World) (topic msg : String) (ss : List Service) (n : Net)
    → IsBounded n.broker
    → length (messages n.broker topic) < max_inbox
    → has_eligible topic ss ≡ true
    → Settled topic msg (send w topic ss msg n)
unfolding send
send-Settled w topic msg [] n b room h = cc
send-Settled w topic msg (s ∷ ss) n b room h = elim (Bool-cases (is_nil (eligible topic s.nodes))) [
  | inl e ↦
      subst (λ m. Settled topic msg (send w topic ss msg m))
        (sym (send_to_none w topic msg s.version (eligible topic s.nodes) n e))
        (send-Settled w topic msg ss n b room (ground arith))
  | inr e ↦
      send-keeps_Settled w topic msg ss (send_to w topic msg s.version (eligible topic s.nodes) n)
        (send_to-IsBounded w topic msg s.version (eligible topic s.nodes) n b)
        (send_to-Settled w topic msg s.version (eligible topic s.nodes) n b (inr (e, room)))
]

send_none :
    (w : World) (topic msg : String) (ss : List Service) (n : Net)
    → has_eligible topic ss ≡ false
    → send w topic ss msg n ≡ n
unfolding send
send_none w topic msg [] n h = refl
send_none w topic msg (s ∷ ss) n h =
    rw (send_to_none w topic msg s.version (eligible topic s.nodes) n (ground arith))
      (send_none w topic msg ss n (ground arith))

send_all_none :
    (w : World) (topic : String) (ss : List Service) (msgs : List String) (n : Net)
    → has_eligible topic ss ≡ false
    → send_all w topic ss msgs n ≡ n
unfolding send_all
send_all_none w topic ss [] n h = refl
send_all_none w topic ss (msg ∷ msgs) n h =
    rw (send_none w topic msg ss n h) (send_all_none w topic ss msgs n h)

-- If no service has a node for the topic, the goroutine of `Publish` takes the eight oldest
-- messages out of the inbox, sends nothing, and does not put them back.
pub flush_drops :
    (w : World) (topic : String) (ss : List Service) (n : Net)
    → has_eligible topic ss ≡ false
    → ((flush w topic ss n).sent ≡ n.sent)
      × (messages (flush w topic ss n).broker topic ≡ drop backlog (messages n.broker topic))
unfolding flush
flush_drops w topic ss n h =
    rw (send_all_none w topic ss (get_message topic backlog n.broker).0 _ h)
      (refl, ground (arith, (get_message-split topic backlog n.broker).1 topic, eq_iff topic topic))
