-- ===== src/Registry/Consul/Find.antt =====
-- registry/consul/consul.go: `GetService`, on the entries that the agent's health endpoint lists. Where
-- the tags of an entry make a decoding panic, so does the call: `none`.
use go_plugins.Prelude.{
  ℕ, String, Bool, not, List, [], ◌∷◌, ◌++◌, Option, none, some, ◌==◌, string_eq, nat_eq,
  if◌then◌else◌, or_else, any, map,
}
use go_plugins.Prelude.Dict.{Dict, lookup, insert}
use go_plugins.Registry.{Metadata, Endpoint, Node}
use go_plugins.Registry.Consul.Tags.{decode_endpoints, decode_metadata, decode_version}
use go_plugins.Registry.Consul.Agent.{Net}

-- `consul.ServiceEntry`, with the status of each check.
pub record Entry : Type 0 where
  pub service : String
  pub id : String
  pub tags : List String
  pub address : String
  pub node_address : String
  pub port : ℕ
  pub statuses : List String

-- The service of a version. An endpoint is a pointer, and may be nil.
pub record Found : Type 0 where
  pub name : String
  pub version : String
  pub endpoints : List (Option Endpoint)
  pub nodes : List Node

abbrev pub is_critical : Entry → Bool
is_critical e = any (λ st. st == "critical") e.statuses

unfoldable pub version_of : Net → Entry → String
version_of n e = or_else (decode_version n.codec e.tags) ""

unfoldable pub node_of : Net → Entry → Metadata → Node
node_of n e md = record {
  id = e.id;
  address = n.host_port (if e.address == "" then e.node_address else e.address) e.port;
  metadata = md;
}

-- The service that an entry belongs to: the one of its version, or a new one.
unfoldable pub service_of : Net → Entry → Dict String Found → Option Found
unfolding version_of
service_of n e m = elim (lookup (version_of n e) m) [
  | some svc ↦ some svc
  | none ↦ elim (decode_endpoints n.codec e.tags) [
    | none ↦ none
    | some en ↦
        some (record { name = e.service; version = version_of n e; endpoints = en; nodes = [] })
  ]
]

-- The service with the node of the entry, unless a check is critical.
unfoldable pub with_node : Net → Entry → Found → Option Found
unfolding node_of
with_node n e svc = if is_critical e then some svc else elim (decode_metadata n.codec e.tags) [
  | none ↦ none
  | some md ↦ some (record svc { nodes = svc.nodes ++ node_of n e md ∷ [] })
]

unfoldable pub add_entry : Net → Entry → Dict String Found → Option (Dict String Found)
unfolding service_of with_node
add_entry n e m = elim (service_of n e m) [
  | none ↦ none
  | some svc ↦ elim (with_node n e svc) [
    | none ↦ none
    | some svc' ↦ some (insert (version_of n e) svc' m)
  ]
]

-- The loop over the entries: those of another name are passed over.
unfoldable pub add_entries :
    Net → String → List Entry → Dict String Found → Option (Dict String Found)
unfolding add_entry
add_entries n name [] m = some m
add_entries n name (e ∷ es) m =
    if not (e.service == name)
    then add_entries n name es m
    else elim (add_entry n e m) [ none ↦ none | some m' ↦ add_entries n name es m' ]

pub data Reply : Type 0 where
  panics : Reply
  agent_error : ℕ → Reply
  services : List Found → Reply

-- `GetService`, given the agent's answer.
unfoldable pub get_service : Net → String → Option ℕ → List Entry → Reply
unfolding add_entries
get_service n name (some err) es = agent_error err
get_service n name none es = elim (add_entries n name es []) [
  | none ↦ panics
  | some m ↦ services (map (λ (kv : String × Found). kv.1) m)
]
