-- ===== src/Registry/Eureka.antt =====
-- registry/eureka: marshalling.go, the calls of eureka.go, and the updates of watcher.go. The connection of
-- fargo, encoding/json, strings.ToLower and package net are parameters.
pub mod Instances
mod Examples
use go_plugins.Prelude.{
  ℕ, String, Bool, true, false, List, [], ◌∷◌, ◌++◌, Option, none, some, ◌==◌, string_eq,
  if◌then◌else◌, or_else, map,
}
use go_plugins.Prelude.Dict.{Dict, lookup, insert}
use go_plugins.Registry.{Metadata, Endpoint, Node, Service}

-- `fargo.UP`, the three that mean deletion, and any other.
pub data Status : Type 0 where
  up out_of_service unknown down other : Status

-- `fargo.Instance`, with its metadata as strings.
pub record Instance : Type 0 where
  pub app : String
  pub host_name : String
  pub ip_addr : String
  pub port : ℕ
  -- What `Instance.Id` gives.
  pub id : String
  pub status : Status
  pub metadata : Dict String String

pub record Application : Type 0 where
  pub name : String
  pub instances : List Instance

-- What a failed reading leaves in the variable is an answer of it too. `split` gives the host, empty on an
-- error, and the port's number, 0 on an error. `join` is the format of an address, `unique` that of an id.
pub record Util : Type 0 where
  pub to_lower : String → String
  pub split : String → String × ℕ
  pub join : String → ℕ → String
  pub unique : String → String → String
  pub marshal_endpoints : List Endpoint → Option String
  pub unmarshal_endpoints : String → List Endpoint
  pub marshal_metadata : Metadata → Option String
  pub unmarshal_metadata : String → Metadata

pub data Fault : Type 0 where
  no_node : Fault
  connection : ℕ → Fault

abbrev set : String → Option String → Dict String String → Dict String String
set k none m = m
set k (some v) m = insert k v m

module _ (u : Util) where
  unfoldable pub endpoints_of : Instance → List Endpoint
  endpoints_of i = elim (lookup "endpoints" i.metadata) [
    | none ↦ []
    | some k ↦ u.unmarshal_endpoints k
  ]

  unfoldable pub metadata_of : Instance → Metadata
  metadata_of i = elim (lookup "metadata" i.metadata) [
    | none ↦ []
    | some k ↦ u.unmarshal_metadata k
  ]

  unfoldable pub node_of : Instance → Node
  unfolding metadata_of
  node_of i = record {
    id = i.id;
    address = u.join (u.split i.ip_addr).0 i.port;
    metadata = metadata_of i;
  }

  -- One instance that has a version. The variable of the version is never set.
  unfoldable pub add_instance : String → Instance → Dict String Service → Dict String Service
  unfolding endpoints_of node_of
  add_instance name i m =
      let version : String = "" in
      let service = or_else (lookup version m) (record {
        name = u.to_lower name;
        version = version;
        metadata = [];
        endpoints = endpoints_of i;
        nodes = [];
      }) in
      insert version (record service { nodes = service.nodes ++ node_of i ∷ [] }) m

  unfoldable pub add_instances : String → List Instance → Dict String Service → Dict String Service
  unfolding add_instance
  add_instances name [] m = m
  add_instances name (i ∷ is) m = elim (lookup "version" i.metadata) [
    | none ↦ add_instances name is m
    | some v ↦ add_instances name is (add_instance name i m)
  ]

  -- `appToService`.
  unfoldable pub app_to_service : Application → List Service
  unfolding add_instances
  app_to_service a = map (λ (kv : String × Service). kv.1) (add_instances a.name a.instances [])

  -- `serviceToInstance`.
  unfoldable pub service_to_instance : Service → Option Instance
  service_to_instance s = elim s.nodes [
    | [] ↦ none
    | node ∷ nodes ↦ some (record {
      app = s.name;
      host_name = node.address;
      ip_addr = node.address;
      port = (u.split node.address).1;
      id = u.unique node.address node.id;
      status = up;
      metadata = set "metadata" (u.marshal_metadata node.metadata) (
          set "endpoints" (u.marshal_endpoints s.endpoints)
            (("version", s.version) ∷ ("instanceId", node.id) ∷ []));
    })
  ]

  pub data Call : Type 0 where
    get_instance heart_beat registers deregisters : Instance → Call

  abbrev answered : Option ℕ → Option Fault
  answered none = none
  answered (some e) = some (connection e)

  -- `Register`: whether the instance is found, and the answer of the call that follows.
  unfoldable pub register : Bool → Option ℕ → Service → Option Fault × List Call
  unfolding service_to_instance
  register found answer s = elim (service_to_instance s) [
    | none ↦ (some no_node, [])
    | some i ↦
        (answered answer, get_instance i ∷ (if found then heart_beat i else registers i) ∷ [])
  ]

  unfoldable pub deregister : Option ℕ → Service → Option Fault × List Call
  unfolding service_to_instance
  deregister answer s = elim (service_to_instance s) [
    | none ↦ (some no_node, [])
    | some i ↦ (answered answer, deregisters i ∷ [])
  ]

  unfoldable pub list_services : List Application → List Service
  unfolding app_to_service
  list_services [] = []
  list_services (a ∷ apps) = app_to_service a ++ list_services apps

  -- An update of `watch`: each instance by itself, true for an update, false for a deletion.
  unfoldable pub updates : String → List Instance → List (Bool × Service)
  unfolding app_to_service
  updates name [] = []
  updates name (i ∷ is) =
      let rest = updates name is in
      elim i.status [
        | other ↦ rest
        | up ↦
            map (λ s. (true, s)) (app_to_service (record { name = name; instances = i ∷ [] }))
            ++ rest
        | out_of_service ↦
            map (λ s. (false, s)) (app_to_service (record { name = name; instances = i ∷ [] }))
            ++ rest
        | unknown ↦
            map (λ s. (false, s)) (app_to_service (record { name = name; instances = i ∷ [] }))
            ++ rest
        | down ↦
            map (λ s. (false, s)) (app_to_service (record { name = name; instances = i ∷ [] }))
            ++ rest
      ]
