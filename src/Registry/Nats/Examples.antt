-- ===== src/Registry/Nats/Examples.antt =====
-- Tests of the NATS registry's model, and its theorems at concrete inputs.
use go_plugins.Prelude.{
  String, ◌≡◌, refl, List, [], ◌∷◌, ◌++◌, none, some, arith, length, ◌≤◌, ◌<◌, All,
}
use go_plugins.Prelude.Dict.{Dict, lookup, insert}
use go_plugins.Prelude.Outcome.{ok}
use go_plugins.Registry.{Node, Service}
use go_plugins.Registry.Nats.Util.{
  add_node, add_nodes, del_nodes, add_service, add_services, del_services,
}
use go_plugins.Registry.Nats.Merge.{
  find_node, find_last_node, or_old, find_version, merged, AreDistinct, HasNode,
  find_node-add_nodes, del_nodes-add_nodes, add_nodes-AreDistinct, del_services-HasNode,
}
use go_plugins.Registry.Nats.State.{
  NatsRegistry, new_registry, cached, register, cache_service, deregister, answer, get,
}
use go_plugins.Registry.Nats.Deregister.{
  IsValid, register_ok, answer-deregister, answer-register, register-IsValid, deregister-IsValid,
}
use go_plugins.Registry.Nats.Query.{
  Event, response, timed_out, collect, nodes_at, answered, nodes_at-collect, collect_quorum, query,
  absorb, responses,
}

abbrev node : String → String → Node
node id address = record { id = id; address = address; metadata = [] }

abbrev service : String → String → List Node → Service
service name version nodes = record {
  name = name;
  version = version;
  metadata = [];
  endpoints = [];
  nodes = nodes;
}

abbrev n1 : Node
n1 = node "n1" "10.0.0.1:80"

abbrev n1' : Node
n1' = node "n1" "10.0.0.9:80"

abbrev n2 : Node
n2 = node "n2" "10.0.0.2:80"

abbrev old_nodes : List Node
old_nodes = n1 ∷ n2 ∷ []

replaced : add_nodes old_nodes (n1' ∷ []) ≡ n1' ∷ n2 ∷ []
unfolding add_nodes add_node
replaced = refl

cut :
    del_services (service "s" "1" old_nodes ∷ []) (service "s" "1" (n1' ∷ []) ∷ [])
    ≡ service "s" "1" (n2 ∷ []) ∷ []
unfolding del_services
cut = refl

find_node-add_nodes_example :
    find_node "n1" (add_nodes old_nodes (n1' ∷ []))
    ≡ or_old (find_last_node "n1" (n1' ∷ [])) (find_node "n1" old_nodes)
find_node-add_nodes_example = find_node-add_nodes "n1" old_nodes (n1' ∷ [])

del_nodes-add_nodes_example :
    find_node "n2" (del_nodes (add_nodes old_nodes (n1' ∷ [])) (n1' ∷ [])) ≡ some n2
unfolding find_node
del_nodes-add_nodes_example = del_nodes-add_nodes "n2" old_nodes (n1' ∷ [])

add_nodes-AreDistinct_example : AreDistinct (add_nodes old_nodes (n1' ∷ n1' ∷ []))
add_nodes-AreDistinct_example = add_nodes-AreDistinct old_nodes (n1' ∷ n1' ∷ []) (refl, (refl, tt))

del_services-HasNode_example :
    All HasNode (del_services (service "s" "1" (n1 ∷ []) ∷ []) (service "s" "1" (n1' ∷ []) ∷ []))
del_services-HasNode_example =
    del_services-HasNode (service "s" "1" (n1 ∷ []) ∷ []) (service "s" "1" (n1' ∷ []) ∷ [])
      (refl, tt)

abbrev greeter : Service
greeter = service "greeter" "1.0" (n1 ∷ [])

abbrev registered : NatsRegistry
registered = (register (ok 7) none greeter new_registry).1

still_there : cached (deregister greeter registered) "greeter" ≡ greeter ∷ []
unfolding deregister register cache_service new_registry lookup insert add_services add_service
    add_nodes add_node
still_there = refl

answer-deregister_example :
    find_version "1.0" (answer (deregister greeter registered) "greeter" get "greeter")
    ≡ some (merged (find_version "1.0" (cached registered "greeter")) greeter)
answer-deregister_example = (answer-deregister greeter registered).0

answer-register_example :
    find_version "1.0" (answer registered "greeter" get "greeter")
    ≡ some (merged (find_version "1.0" (cached new_registry "greeter")) greeter)
answer-register_example =
    (answer-register (ok 7) none greeter new_registry (register_ok 7 greeter new_registry)).0

new_registry-IsValid : IsValid new_registry
unfolding new_registry lookup
new_registry-IsValid = record {
  cached_names = λ k c h. absurd (ground arith);
  made = λ k c h. absurd (ground arith);
  own = λ j k c h g. absurd (ground arith);
  held = λ c h. absurd (omega arith);
}

deregister-IsValid_example : IsValid (deregister greeter registered)
deregister-IsValid_example =
    deregister-IsValid greeter registered
      (register-IsValid (ok 7) none greeter new_registry new_registry-IsValid)

abbrev events : List Event
events = response greeter ∷ response (service "greeter" "1.0" (n2 ∷ [])) ∷ timed_out ∷ []

both :
    query 2 (response greeter ∷ response (service "greeter" "1.0" (n2 ∷ [])) ∷ [])
    ≡ some (service "greeter" "1.0" old_nodes ∷ [])
unfolding query collect absorb lookup insert
both = refl

abbrev result : Dict String Service
result = ("greeter-1.0", service "greeter" "1.0" old_nodes) ∷ []

collected : collect 0 events [] ≡ some result
unfolding collect absorb lookup insert
collected = refl

collected_two :
    collect 2 (responses (greeter ∷ service "greeter" "1.0" (n2 ∷ []) ∷ [])) [] ≡ some result
unfolding collect absorb lookup insert
collected_two = refl

nodes_at-collect_example :
    (r : Dict String Service) × (collect 0 events [] ≡ some r)
    × (nodes_at "greeter-1.0" r ≡ nodes_at "greeter-1.0" [] ++ answered "greeter-1.0" events)
nodes_at-collect_example = nodes_at-collect "greeter-1.0" events [] refl

collect_quorum_example : (k : String) × (0 < 2) × (2 ≤ length (nodes_at k result))
collect_quorum_example =
    collect_quorum 2 (responses (greeter ∷ service "greeter" "1.0" (n2 ∷ []) ∷ [])) [] result refl
      collected_two
