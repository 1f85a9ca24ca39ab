-- ===== src/Registry.antt =====
-- The service records that the plugins exchange: `registry.Service`, `registry.Node`,
-- `registry.Endpoint` and `registry.Result`, with the fields that the plugins read and write.
pub mod Nats
pub mod Gossip
pub mod Consul
pub mod Kubernetes
pub mod Multi
pub mod Eureka
pub mod Zookeeper
use go_plugins.Prelude.{String, List}

abbrev pub Metadata : Type 0
Metadata = List (String × String)

mutual
  pub data Value : Type 0 where
    value : String → String → Values → Value

  pub data Values : Type 0 where
    nil : Values
    cons : Value → Values → Values

pub record Endpoint : Type 0 where
  pub name : String
  pub request : Value
  pub response : Value
  pub metadata : Metadata

pub record Node : Type 0 where
  pub id : String
  pub address : String
  pub metadata : Metadata

pub record Service : Type 0 where
  pub name : String
  pub version : String
  pub metadata : Metadata
  pub endpoints : List Endpoint
  pub nodes : List Node

-- What a watcher hands out.
pub record Result : Type 0 where
  pub action : String
  pub service : Service
