-- ===== src/Broker/Http/Delivery.antt =====
-- Proofs about `Publish` of broker/http/http.go: who is sent a message, and when it is kept.
use go_plugins.Prelude.{
  ◌<◌, String, ◌≡◌, refl, Bool, true, false, ◌&&◌, ◌||◌, List, [], ◌∷◌, ◌++◌, arith, ◌==◌,
  string_eq, eq_iff, if◌then◌else◌, length, is_nil, any, any-append, append_assoc, append-nil, map,
  map-append, ◌∙◌, ◌⊎◌, subst, sym, ap, Bool-cases, inl, inr,
}
use go_plugins.Registry.{Node}
use go_plugins.Broker.Http.State.{Broker, max_inbox, messages}
use go_plugins.Broker.Http.Inbox.{IsBounded, messages-save_message, save_message-IsBounded}
use go_plugins.Broker.Http.Publish.{
  World, Net, uri, post_to, post_all, save_net, settle, pick_node, send_to, broadcast_version,
}

abbrev pub Post : Type 0
Post = String × String × Bool

-- Some POST of the message succeeded.
abbrev pub delivered : String → List Post → Bool
delivered msg sent = any (λ (e : Post). e.1 == msg && e.2) sent

-- The inbox holds the message for its topic.
abbrev pub waiting : String → String → Broker → Bool
waiting topic msg h = any (λ m. m == msg) (messages h topic)

-- A message is delivered, or it waits in the inbox.
abbrev pub Settled : String → String → Net → Type 0
Settled topic msg n = (delivered msg n.sent || waiting topic msg n.broker) ≡ true

abbrev pub targets : Net → List String
targets n = map (λ (e : Post). e.0) n.sent

module _ (w : World) (topic msg : String) where
  delivered-post_to :
      (x : Node) (n : Net)
      → delivered msg (post_to w x msg n).1.sent ≡ (delivered msg n.sent || (post_to w x msg n).0)
  unfolding post_to
  delivered-post_to x n = ground (
    arith,
    any-append (λ (e : Post). e.1 == msg && e.2) n.sent
        ((uri w x, msg, w.post (length n.sent) (uri w x) msg) ∷ []),
    eq_iff msg msg,
  )

  broker-post_to : (x : Node) (n : Net) → (post_to w x msg n).1.broker ≡ n.broker
  unfolding post_to
  broker-post_to x n = refl

  targets-post_to : (x : Node) (n : Net) → targets (post_to w x msg n).1 ≡ targets n ++ uri w x ∷ []
  unfolding post_to
  targets-post_to x n = map-append _ n.sent _

  broker-post_all :
      (nodes : List Node) (b : Bool) (n : Net) → (post_all w nodes msg b n).1.broker ≡ n.broker
  unfolding post_all
  broker-post_all [] b n = refl
  broker-post_all (x ∷ nodes) b n =
      broker-post_all nodes (if (post_to w x msg n).0 then true else b) (post_to w x msg n).1
      ∙ broker-post_to x n

  targets-post_all :
      (nodes : List Node) (b : Bool) (n : Net)
      → targets (post_all w nodes msg b n).1 ≡ targets n ++ map (uri w) nodes
  unfolding post_all
  targets-post_all [] b n = rw append-nil
  targets-post_all (x ∷ nodes) b n =
      targets-post_all nodes (if (post_to w x msg n).0 then true else b) (post_to w x msg n).1
      ∙ (rw (targets-post_to x n, append_assoc))

  -- It succeeds only if a POST did, and never undoes one.
  delivered-post_all :
      (nodes : List Node) (b : Bool) (n : Net)
      → delivered msg n.sent ≡ true
      → delivered msg (post_all w nodes msg b n).1.sent ≡ true
  unfolding post_all
  delivered-post_all [] b n h = h
  delivered-post_all (x ∷ nodes) b n h =
      delivered-post_all nodes (if (post_to w x msg n).0 then true else b) (post_to w x msg n).1
        (ground (arith, delivered-post_to x n))

  post_all_success :
      (nodes : List Node) (b : Bool) (n : Net)
      → (b ≡ true → delivered msg n.sent ≡ true)
      → (post_all w nodes msg b n).0 ≡ true
      → delivered msg (post_all w nodes msg b n).1.sent ≡ true
  unfolding post_all
  post_all_success [] b n k h = k h
  post_all_success (x ∷ nodes) b n k h =
      post_all_success nodes (if (post_to w x msg n).0 then true else b) (post_to w x msg n).1
        (λ t. ground (arith, delivered-post_to x n)) h

  save_net-waiting :
      (n : Net)
      → IsBounded n.broker
      → length (messages n.broker topic) < max_inbox
      → waiting topic msg (save_net topic msg n).broker ≡ true
  unfolding save_net
  save_net-waiting n b room = rw (messages-save_message topic topic msg n.broker (b topic)) (
      ground (
        arith,
        eq_iff topic topic,
        eq_iff msg msg,
        any-append (λ m. m == msg) (messages n.broker topic) (msg ∷ []),
      ))

  save_net-Settled :
      (n : Net)
      → IsBounded n.broker
      → Settled topic msg n
      → Settled topic msg (save_net topic msg n)
  unfolding save_net
  save_net-Settled n b s =
      rw (messages-save_message topic topic msg n.broker (b topic))
        (ground (arith, any-append (λ m. m == msg) (messages n.broker topic) (msg ∷ [])))

  -- A service of the broadcast version is sent one POST for each of its nodes, in their order,
  -- whatever comes of each.
  pub targets-send_to_broadcast :
      (version : String) (nodes : List Node) (n : Net)
      → (version == broadcast_version) ≡ true
      → targets (send_to w topic msg version nodes n) ≡ targets n ++ map (uri w) nodes
  unfolding send_to save_net
  targets-send_to_broadcast version [] n h = rw append-nil
  targets-send_to_broadcast version (x ∷ nodes) n h =
      ground (arith, targets-post_all (x ∷ nodes) false n)

  settle-Settled :
      (n : Net) (r : Bool × Net)
      → IsBounded n.broker
      → r.1.broker ≡ n.broker
      → (r.0 ≡ true → delivered msg r.1.sent ≡ true)
      → (delivered msg n.sent ≡ true → delivered msg r.1.sent ≡ true)
      → Settled topic msg n ⊎ (length (messages n.broker topic) < max_inbox)
      → Settled topic msg (settle topic msg r)
  unfolding settle
  settle-Settled n (true, m) b same done kept h = ground (arith, done refl)
  settle-Settled n (false, m) b same done kept (inl s) =
      save_net-Settled m (subst IsBounded (sym same) b)
        (ground (arith, ap (λ h. waiting topic msg h) same))
  settle-Settled n (false, m) b same done kept (inr room) = ground (
    arith,
    save_net-waiting m (subst IsBounded (sym same) b)
        (subst (λ h. length (messages h topic) < max_inbox) (sym same) room),
  )

  pub send_to-Settled :
      (version : String) (nodes : List Node) (n : Net)
      → IsBounded n.broker
      → Settled topic msg n
        ⊎ (is_nil nodes ≡ false) × (length (messages n.broker topic) < max_inbox)
      → Settled topic msg (send_to w topic msg version nodes n)
  unfolding send_to
  send_to-Settled version [] n b h = ground arith
  send_to-Settled version (x ∷ nodes) n b h = elim (Bool-cases (version == broadcast_version)) [
    | inl e ↦ rw e (
        settle-Settled n (post_all w (x ∷ nodes) msg false n) b
          (broker-post_all (x ∷ nodes) false n) (post_all_success (x ∷ nodes) false n (λ k. cc))
          (delivered-post_all (x ∷ nodes) false n) (ground arith))
    | inr e ↦ rw e (
        settle-Settled n (post_to w (pick_node w n x nodes) msg n) b
          (broker-post_to (pick_node w n x nodes) n)
          (λ k. ground (arith, delivered-post_to (pick_node w n x nodes) n))
          (λ k. ground (arith, delivered-post_to (pick_node w n x nodes) n)) (ground arith))
  ]

  settle-IsBounded : (r : Bool × Net) → IsBounded r.1.broker → IsBounded (settle topic msg r).broker
  unfolding settle save_net
  settle-IsBounded (true, m) b = b
  settle-IsBounded (false, m) b = save_message-IsBounded topic msg m.broker b

  pub send_to-IsBounded :
      (version : String) (nodes : List Node) (n : Net)
      → IsBounded n.broker
      → IsBounded (send_to w topic msg version nodes n).broker
  unfolding send_to
  send_to-IsBounded version [] n b = b
  send_to-IsBounded version (x ∷ nodes) n b = elim (Bool-cases (version == broadcast_version)) [
    | inl e ↦ rw e (settle-IsBounded (post_all w (x ∷ nodes) msg false n) (rw broker-post_all b))
    | inr e ↦
        rw e (settle-IsBounded (post_to w (pick_node w n x nodes) msg n) (rw broker-post_to b))
  ]
