-- ===== src/Broker/Grpc/Examples.antt =====
-- Tests of the gRPC broker's model, and its theorems at concrete inputs.
use go_plugins.Prelude.{◌≡◌, refl, true, [], ◌∷◌, none, some, string_eq, nat_eq, length}
use go_plugins.Prelude.Dict.{lookup}
use go_plugins.Broker.Grpc.{Message, Subscriber, Broker, handle, subscribe, new_subscriber, publish}
use go_plugins.Broker.Grpc.Delivery.{handle-publish, total_calls, length-publish}

abbrev broker : Broker
broker = record {
  id = "b";
  address = ":0";
  secure = true;
  subscribers = [];
  running = true;
  cached = true;
  calls = [];
}

abbrev message : Message
message = record { topic = "news"; id = "b.1"; header = []; body = "hi" }

abbrev subscriber : Subscriber
subscriber = new_subscriber "10.0.0.1:9" "b.1" "news" "q" 7 true

handle-publish_example :
    (publish
        (λ n. 5)
        "news"
        []
        "hi"
        none
        ((new_subscriber "10.0.0.1:9" "b.1" "news" "q" 7 true).svc ∷ [])
      ≡ (none, record { tls = true; address = "10.0.0.1:9"; message = message } ∷ []))
    × (handle message
          (subscribe none (new_subscriber "10.0.0.1:9" "b.1" "news" "q" 7 true) broker).1
        ≡ some ((7, message) ∷ []))
handle-publish_example =
    handle-publish (λ n. 5) "10.0.0.1:9" "b.1" "news" "q" 7 true [] "hi" broker refl
      (unfold lookup in refl)

length-publish_example :
    ((publish (λ n. 5) "news" [] "hi" none (subscriber.svc ∷ [])).0 ≡ none)
    × (length (publish (λ n. 5) "news" [] "hi" none (subscriber.svc ∷ [])).1
        ≡ total_calls (subscriber.svc ∷ []))
length-publish_example = length-publish (λ n. 5) "news" [] "hi" (subscriber.svc ∷ [])
