-- ===== src/Broker/Http/Examples.antt =====
-- Tests of the HTTP broker's model, and its theorems at concrete inputs.
use go_plugins.Prelude.{
  ℕ, ◌+◌, String, ◌≡◌, ◌⊎◌, ◌≢◌, refl, false, List, [], ◌∷◌, Option, none, some, arith,
  if◌then◌else◌, ◌==◌, string_eq, nat_eq, map, ◌&&◌, eq_iff,
}
use go_plugins.Prelude.Dict.{Dict, lookup, insert}
use go_plugins.Prelude.Outcome.{ok}
use go_plugins.Registry.{Node, Service}
use go_plugins.Broker.Http.State.{
  Broker, Subscriber, messages, save_message, capped, subscribe, unsubscribe, registers,
  deregisters,
}
use go_plugins.Broker.Http.Inbox.{IsBounded, messages-save_message, save_message-IsBounded}
use go_plugins.Broker.Http.Publish.{
  World, Net, Message, send, with_topic, eligible, send_to, post_to, save_net, broadcast_version,
  uri,
}
use go_plugins.Broker.Http.Delivery.{Settled, targets, targets-send_to_broadcast}
use go_plugins.Broker.Http.Backlog.{send-Settled}
use go_plugins.Broker.Http.Subscribers.{unsubscribe-subscribe}
use go_plugins.Broker.Http.Serve.{Request, serve_http, serve_http-publish, serve_http_refuses}
use go_plugins.Broker.Http.Lifecycle.{Running, connect, disconnect, finish}
use go_plugins.Broker.Http.Locking.{jammed, over, disconnect_deadlock, disconnect_stuck}
use go_plugins.Broker.Http.Shutdown.{
  IsValid, after, finish-disconnect-connect, finish-connect_stale,
}

abbrev idle : Broker
idle = record {
  id = "b1";
  address = ":0";
  addrs = [];
  secure = false;
  subscribers = [];
  running = false;
  inbox = ("news", "m0" ∷ []) ∷ [];
  next_ref = 0;
  calls = [];
}

idle-IsBounded : IsBounded idle
unfolding lookup
idle-IsBounded t = ground arith

messages-save_message_example : messages (save_message "news" "m1" idle) "news" ≡ "m0" ∷ "m1" ∷ []
unfolding lookup
messages-save_message_example =
    messages-save_message "news" "news" "m1" idle (idle-IsBounded "news")

save_message-IsBounded_example : IsBounded (save_message "news" "m1" idle)
save_message-IsBounded_example = save_message-IsBounded "news" "m1" idle idle-IsBounded

-- Every POST fails but the second.
abbrev world : World
world = record {
  post = λ n uri msg. n == 1;
  pick = λ n. n + 3;
  marshal = λ m. some m.body;
  query = λ id. id;
}

abbrev node : String → String → String → Node
node id broker topic = record {
  id = id;
  address = "h:1";
  metadata = ("broker", broker) ∷ ("topic", topic) ∷ [];
}

abbrev service : String → List Node → Service
service version nodes = record {
  name = "go.micro.http.broker";
  version = version;
  metadata = [];
  endpoints = [];
  nodes = nodes;
}

abbrev services : List Service
services =
    service "queue" (node "a" "http" "news" ∷ node "b" "grpc" "news" ∷ [])
    ∷ service "queue" (node "c" "http" "sport" ∷ [])
    ∷ []

abbrev net : Net
net = record { broker = idle; sent = [] }

failed : messages (send world "news" services "m1" net).broker "news" ≡ "m0" ∷ "m1" ∷ []
unfolding send send_to eligible lookup save_message insert capped post_to save_net
failed = refl

send-Settled_example : Settled "news" "m1" (send world "news" services "m1" net)
unfolding eligible lookup
send-Settled_example = send-Settled world "news" "m1" services net idle-IsBounded (omega arith) refl

targets-send_to_broadcast_example :
    targets (
      send_to world "news" "m1" broadcast_version
        (node "a" "http" "news" ∷ node "d" "http" "news" ∷ [])
        net)
    ≡ map (uri world) (node "a" "http" "news" ∷ node "d" "http" "news" ∷ [])
targets-send_to_broadcast_example =
    targets-send_to_broadcast world "news" "m1" broadcast_version
      (node "a" "http" "news" ∷ node "d" "http" "news" ∷ []) net refl

abbrev sub : Subscriber
sub = record { ref = 0; id = "news-b1"; topic = "news"; handler = 5; svc = service "queue" [] }

unsubscribe-subscribe_example :
    (unsubscribe sub (subscribe none sub idle).1).calls
    ≡ registers (service "queue" []) ∷ deregisters (service "queue" []) ∷ []
unfolding lookup
unsubscribe-subscribe_example = (unsubscribe-subscribe sub idle tt "news").1

abbrev subscribed : Broker
subscribed = record idle { subscribers = ("news", sub ∷ []) ∷ [] }

abbrev silent : ℕ → Message → String → Option ℕ
silent n m t = none

-- A codec for messages with an empty body and no header but the topic.
abbrev encode_fields : Dict String String → String → Option String
encode_fields ((k, t) ∷ []) body = if k == ":topic" && body == "" then some t else none
encode_fields _ body = none

abbrev encode : Message → Option String
encode m = encode_fields m.header m.body

abbrev decode : String → Option Message
decode t = some (record { header = (":topic", t) ∷ []; body = "" })

encode_fields_sound :
    (header : Dict String String) (body t : String)
    → encode_fields header body ≡ some t
    → (header ≡ (":topic", t) ∷ []) × (body ≡ "")
encode_fields_sound ((k, v) ∷ []) body t h = ground (arith, eq_iff k ":topic", eq_iff body "")
encode_fields_sound [] body t h = absurd (cc)
encode_fields_sound ((k, v) ∷ kv ∷ r) body t h = absurd (cc)

decode-encode : (x : Message) (t : String) → encode x ≡ some t → decode t ≡ some x
decode-encode x t h = ground (arith, encode_fields_sound x.header x.body t h)

abbrev empty_message : Message
empty_message = record { header = []; body = "" }

encoded : encode (with_topic "news" empty_message) ≡ some "news"
unfolding with_topic insert
encoded = refl

serve_http-publish_example :
    (serve_http silent decode
      (record { method = "POST"; body = some "news"; form_id = "news-b1" })
      subscribed).status
    ≡ 200
serve_http-publish_example =
    (serve_http-publish silent encode decode "news-b1" "news" "news" empty_message subscribed
      decode-encode refl encoded).0

abbrev decode_none : String → Option Message
decode_none s = none

abbrev bad_method : Request
bad_method = record { method = "GET"; body = none; form_id = "" }

refused : (serve_http silent decode_none bad_method idle).status ≢ 200
unfolding serve_http
refused = omega arith

serve_http_refuses_example : (serve_http silent decode_none bad_method idle).runs ≡ []
serve_http_refuses_example = (serve_http_refuses silent decode_none bad_method idle refused).0

abbrev stopped : Running
stopped = record { broker = idle; loops = []; exiting = [] }

stopped-IsValid : IsValid stopped
stopped-IsValid = record { waits = λ h. cc; idle = λ h. refl }

finish-disconnect-connect_example :
    (finish (after stopped (disconnect none (connect (ok "h:9") stopped).1))).broker.address ≡ ":0"
finish-disconnect-connect_example = (finish-disconnect-connect "h:9" none stopped refl).1

finish-connect_stale_example :
    (finish
      (connect
        (ok "h:7")
        (after stopped (disconnect none (connect (ok "h:9") stopped).1))).1).broker.address
    ≡ ":0"
finish-connect_stale_example = (finish-connect_stale "h:9" "h:7" none stopped refl).1

disconnect_stuck_example : (jammed ≡ jammed) ⊎ (jammed ≡ over)
disconnect_stuck_example = disconnect_stuck jammed disconnect_deadlock.0 disconnect_deadlock.1
