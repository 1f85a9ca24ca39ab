-- ===== src/Registry/Consul/WatchExamples.antt =====
-- Tests of the Consul watcher's model, and its theorems at concrete inputs.
use go_plugins.Prelude.{String, ◌≡◌, refl, List, [], ◌∷◌, ◌++◌, some, string_eq, nat_eq}
use go_plugins.Prelude.Dict.{lookup, insert}
use go_plugins.Registry.{Node}
use go_plugins.Registry.Consul.Tags.{
  decode_endpoints, decode_metadata, decode_endpoints_from, decode_metadata_from, decode_version,
}
use go_plugins.Registry.Consul.Find.{
  Entry, Found, add_entry, service_of, with_node, node_of, version_of,
}
use go_plugins.Registry.Consul.Watch.{
  update, delete, Notice, Watcher, service_handler, watched, compare_all, compare, gone_notices,
  missing_notices,
}
use go_plugins.Registry.Consul.Replay.{shows, replay}
use go_plugins.Registry.Consul.Handlers.{cached, replay-service_handler}
use go_plugins.Registry.Consul.Examples.{net}

abbrev watcher : Watcher
watcher = record { wanted = ""; watchers = "greeter" ∷ "gone" ∷ []; services = []; sent = [] }

abbrev bare : String → Entry
bare i = record {
  service = "greeter";
  id = i;
  tags = [];
  address = "10.0.0.2";
  node_address = "";
  port = 80;
  statuses = [];
}

abbrev bare_node : String → Node
bare_node i = record { id = i; address = "10.0.0.2"; metadata = [] }

-- A service without a version.
abbrev bare_found : List Node → Found
bare_found ns = record { name = "greeter"; version = ""; endpoints = []; nodes = ns }

-- The node a is cached; the node b has come in its place.
abbrev before : Watcher
before = record watcher { services = ("greeter", bare_found (bare_node "a" ∷ []) ∷ []) ∷ [] }

abbrev after : Watcher
after = record before {
  services = ("greeter", bare_found (bare_node "b" ∷ []) ∷ []) ∷ [];
  sent =
      record { action = delete; service = bare_found (bare_node "a" ∷ []) }
      ∷ record { action = update; service = bare_found (bare_node "b" ∷ []) }
      ∷ [];
}

after_lem : service_handler net (λ a p. a) (λ x. x) (bare "b" ∷ []) before ≡ some after
unfolding service_handler watched compare_all compare gone_notices missing_notices lookup insert
    add_entry service_of with_node node_of version_of decode_endpoints decode_endpoints_from
    decode_metadata decode_metadata_from decode_version
after_lem = refl

replay-service_handler_example :
    (xs : List Notice) × (after.sent ≡ before.sent ++ xs)
    × (replay "" "a" xs (shows "" "a" (cached "greeter" before))
        ≡ shows "" "a" (cached "greeter" after))
replay-service_handler_example =
    replay-service_handler net (λ a p. a) (λ x. x) (bare "b" ∷ []) before after "" "a" (λ x. refl)
      after_lem
