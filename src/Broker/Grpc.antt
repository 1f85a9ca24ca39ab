-- ===== src/Broker/Grpc.antt =====
-- broker/grpc/grpc.go: the broker, its subscribers, `Publish` at both ends, Connect, Disconnect and Init.
-- The registry, the listener, gRPC and the random choice are answers. Each goroutine of a publication is
-- one call; which of them come through is not known to the code.
pub mod Delivery
mod Examples
use Prim.Native.String.{◌++◌ as str_append}
use go_plugins.Prelude.{
  ℕ, suc, ◌+◌, ◌%◌, String, Bool, true, false, not, ◌||◌, List, [], ◌∷◌, ◌++◌, Option, none, some,
  ◌==◌, string_eq, nat_eq, if◌then◌else◌, or_else, length, get_elem?, keep, map,
}
use go_plugins.Prelude.Dict.{Dict, lookup, insert}
use go_plugins.Registry.{Node, Service}

-- `proto.Message`.
pub record Message : Type 0 where
  pub topic : String
  pub id : String
  pub header : Dict String String
  pub body : String

-- The handler is named by a number.
pub record Subscriber : Type 0 where
  pub id : String
  pub topic : String
  pub handler : ℕ
  pub svc : Service

-- What the broker asks of its registry and of its cache.
pub data Call : Type 0 where
  registers deregisters : Service → Call
  stops_cache : Call

pub record Broker : Type 0 where
  pub id : String
  pub address : String
  pub secure : Bool
  pub subscribers : Dict String (List Subscriber)
  pub running : Bool
  -- Whether the registry is a cache.
  pub cached : Bool
  pub calls : List Call

abbrev pub subscribers_of : Broker → String → List Subscriber
subscribers_of h topic = or_else (lookup topic h.subscribers) []

abbrev pub broadcast_version : String
broadcast_version = "ff.grpc.broadcast"

-- The handler's `Publish`: which handlers run, with the message; an empty topic is an error.
unfoldable pub handle : Message → Broker → Option (List (ℕ × Message))
handle msg h =
    if msg.topic == ""
    then none
    else some (
        map (λ (s : Subscriber). (s.handler, msg))
          (keep (λ (s : Subscriber). msg.id == s.id) (subscribers_of h msg.topic)))

-- `subscribe`: the registry's error, if it has one.
unfoldable pub subscribe : Option ℕ → Subscriber → Broker → Option ℕ × Broker
subscribe (some e) s h = (some e, record h { calls = h.calls ++ registers s.svc ∷ [] })
subscribe none s h = (
  none,
  record h {
    calls = h.calls ++ registers s.svc ∷ [];
    subscribers = insert s.topic (subscribers_of h s.topic ++ s ∷ []) h.subscribers;
  },
)

-- The deregistrations of `unsubscribe`.
abbrev pub gone_calls : String → List Subscriber → List Call
gone_calls id [] = []
gone_calls id (s ∷ ss) =
    let rest = gone_calls id ss in if s.id == id then deregisters s.svc ∷ rest else rest

unfoldable pub unsubscribe : Subscriber → Broker → Broker
unsubscribe s h =
    let subs = subscribers_of h s.topic in
    record h {
      calls = h.calls ++ gone_calls s.id subs;
      subscribers =
          insert s.topic (keep (λ (x : Subscriber). not (x.id == s.id)) subs) h.subscribers;
    }

-- What `Subscribe` makes of the address that it advertises.
unfoldable pub new_subscriber : (advertised id topic queue : String) → ℕ → Bool → Subscriber
new_subscriber advertised id topic queue handler secure = record {
  id = id;
  topic = topic;
  handler = handler;
  svc = record {
    name = str_append "topic:" topic;
    version = if queue == "" then broadcast_version else queue;
    metadata = [];
    endpoints = [];
    nodes =
        record {
          id = id;
          address = advertised;
          metadata = ("secure", if secure then "true" else "false") ∷ [];
        }
        ∷ [];
  };
}

-- The call of one node: whether over TLS, the address and the message.
pub record Sent : Type 0 where
  pub tls : Bool
  pub address : String
  pub message : Message

unfoldable pub send : String → Dict String String → String → Node → Sent
send topic header body node = record {
  tls = or_else (lookup "secure" node.metadata) "" == "true";
  address = node.address;
  message = record { topic = topic; id = node.id; header = header; body = body };
}

-- `Publish`: the loop over the services. `pick n` is the n-th random number, `n` of them are used up.
unfoldable pub publish_from : (ℕ → ℕ) → ℕ → (Node → Sent) → List Service → List Sent
publish_from pick n pub_node [] = []
publish_from pick n pub_node (s ∷ ss) =
    let rest = publish_from pick n pub_node ss in
    let later = publish_from pick (n + 1) pub_node ss in
    elim s.nodes [
      | [] ↦ rest
      | x ∷ xs ↦
          if s.version == broadcast_version
          then pub_node x ∷ (map pub_node xs ++ rest)
          else pub_node (or_else (get_elem? (x ∷ xs) (pick n % suc (length xs))) x) ∷ later
    ]

-- `Publish`, given what the registry answers.
unfoldable pub publish :
    (ℕ → ℕ) → String → Dict String String → String → Option ℕ → List Service → Option ℕ × List Sent
unfolding publish_from send
publish pick topic header body (some e) ss = (some e, [])
publish pick topic header body none ss = (none, publish_from pick 0 (send topic header body) ss)

-- `Connect`, given the address of the listener or its error.
unfoldable pub connect : Option ℕ → String → Broker → Option ℕ × Broker
connect failed at h = if h.running then (none, h) else elim failed [
  | some e ↦ (some e, h)
  | none ↦ (none, record h { address = at; cached = true; running = true })
]

-- `Disconnect`: the listener's error on closing is handed on. The end of the goroutine, which comes later,
-- deregisters the subscribers and sets the address `back`.
unfoldable pub disconnect : Option ℕ → Broker → Option ℕ × Broker
disconnect closed h = if not h.running then (none, h) else (
  closed,
  record h { running = false; calls = if h.cached then h.calls ++ stops_cache ∷ [] else h.calls },
)

abbrev pub all_subscribers : Dict String (List Subscriber) → List Subscriber
all_subscribers [] = []
all_subscribers ((k, ss) ∷ m) = ss ++ all_subscribers m

unfoldable pub finish : String → Broker → Broker
finish back h = record h {
  address = back;
  calls = h.calls ++ map (λ (s : Subscriber). deregisters s.svc) (all_subscribers h.subscribers);
}

-- A tick of the heartbeat.
unfoldable pub heartbeat : Broker → Broker
heartbeat h = record h {
  calls = h.calls ++ map (λ (s : Subscriber). registers s.svc) (all_subscribers h.subscribers);
}
