-- ===== src/Broker/Http/Lifecycle.antt =====
-- broker/http/http.go: `Connect`, `Disconnect`, `Init`, `run` and `Subscribe`. The listener that a
-- connect opens, the error of a close and the registry's answers are arguments. `Disconnect` only
-- hands the exit over: the goroutine of `Connect` deregisters and resets the address after it.
use Prim.Native.String.{◌++◌ as str_append, len}
use go_plugins.Prelude.{
  ℕ, ◌+◌, String, Bool, true, false, not, List, [], ◌∷◌, ◌++◌, Option, none, some, ◌==◌, string_eq,
  nat_eq, if◌then◌else◌, map,
}
use go_plugins.Prelude.Dict.{Dict}
use go_plugins.Prelude.Outcome.{Outcome, ok, err}
use go_plugins.Broker.Http.State.{Broker, Subscriber, registers, deregisters, subscribe}
use go_plugins.Broker.Http.Publish.{broadcast_version}

-- The broker with the goroutines that wait for an exit: each has the address to go back to.
pub record Running : Type 0 where
  pub broker : Broker
  pub loops : List String
  -- Goroutines that have received the exit, and not yet finished.
  pub exiting : List String

unfoldable pub connect : Outcome ℕ String → Running → Option ℕ × Running
connect listen r = if r.broker.running then (none, r) else elim listen [
  | err e ↦ (some e, r)
  | ok address ↦ (
    none,
    record r {
      broker = record (r.broker) { address = address; running = true };
      loops = r.broker.address ∷ r.loops;
    },
  )
]

-- `h.exit <- ch` blocks while no goroutine waits: `none`.
unfoldable pub disconnect : Option ℕ → Running → Option (Option ℕ × Running)
disconnect closes r = if not r.broker.running then some (none, r) else elim r.loops [
  | [] ↦ none
  | addr ∷ loops ↦ some (
    closes,
    record {
      broker = record (r.broker) { running = false };
      loops = loops;
      exiting = addr ∷ r.exiting;
    },
  )
]

abbrev all_subs : Dict String (List Subscriber) → List Subscriber
all_subs [] = []
all_subs ((t, subs) ∷ m) = subs ++ all_subs m

-- One tick of the heartbeat.
unfoldable pub heartbeat : Broker → Broker
heartbeat h = record h {
  calls = h.calls ++ map (λ (s : Subscriber). registers s.svc) (all_subs h.subscribers);
}

-- The end of the goroutine: deregister everything, then reset the addresses.
unfoldable pub finish : Running → Running
finish r = elim r.exiting [
  | [] ↦ r
  | addr ∷ rest ↦ record r {
    broker = record (r.broker) {
      calls =
          r.broker.calls
          ++ map (λ (s : Subscriber). deregisters s.svc) (all_subs r.broker.subscribers);
      addrs = addr ∷ [];
      address = addr;
    };
    exiting = rest;
  }
]

-- The first address, if there is one and it is not empty, or the one at hand.
unfoldable pub first_addr : List String → String → String
first_addr [] d = d
first_addr (a ∷ as') d = if len a == 0 then d else a

-- `Init`: the options are given as the address list and the security flag that they leave.
unfoldable pub init : List String → Bool → String → Broker → Bool × Broker
unfolding first_addr
init addrs secure fresh h = if h.running then (false, h) else (
  true,
  record h {
    addrs = addrs;
    secure = secure;
    address = first_addr addrs h.address;
    id = if len h.id == 0 then str_append "go.micro.http.broker-" fresh else h.id;
  },
)

-- `Subscribe`. The host and port of the broker's address (`none` if it does not split), the address
-- that stands for the host, and the registry's answer are arguments.
unfoldable pub subscriber_of : String → String → String → ℕ → Broker → Subscriber
subscriber_of queue topic address handler h =
    let id = str_append topic (str_append "-" h.id) in
    record {
      ref = h.next_ref;
      id = id;
      topic = topic;
      handler = handler;
      svc = record {
        name = "go.micro.http.broker";
        version = if len queue == 0 then broadcast_version else queue;
        metadata = [];
        endpoints = [];
        nodes =
            record {
              id = id;
              address = address;
              metadata =
                  ("secure", if h.secure then "true" else "false")
                  ∷ ("broker", "http")
                  ∷ ("topic", topic)
                  ∷ [];
            }
            ∷ [];
      };
    }

unfoldable pub subscribe_topic :
    Option String → Option ℕ → String → String → ℕ → Broker → Option Subscriber × Broker
unfolding subscribe subscriber_of
subscribe_topic address fault queue topic handler h = elim address [
  | none ↦ (none, h)
  | some a ↦
      let s = subscriber_of queue topic a handler h in
      let (e, g) = subscribe fault s (record h { next_ref = h.next_ref + 1 }) in
      elim e [ some _ ↦ (none, g) | none ↦ (some s, g) ]
]
