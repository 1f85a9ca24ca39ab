-- ===== src/Registry/Eureka/Instances.antt =====
-- Proofs about registry/eureka/marshalling.go: services as instances, and instances as services.
use go_plugins.Prelude.{
  String, ◌≡◌, refl, List, [], ◌∷◌, ◌++◌, some, string_eq, map, keep, is_some, arith, Option-cases,
  inl, inr, append_assoc, append-nil,
}
use go_plugins.Prelude.Dict.{lookup, insert}
use go_plugins.Registry.{Node, Service}
use go_plugins.Registry.Eureka.{
  Util, Instance, Application, up, endpoints_of, metadata_of, node_of, add_instance, add_instances,
  app_to_service, service_to_instance,
}

-- The instances that have a version.
abbrev pub versioned : List Instance → List Instance
versioned is = keep (λ (i : Instance). is_some (lookup "version" i.metadata)) is

module _ (u : Util) where
  -- One service, which has lost its version.
  unfoldable pub as_one : String → List Instance → List Service
  as_one name [] = []
  as_one name (i ∷ is) =
      record {
        name = u.to_lower name;
        version = "";
        metadata = [];
        endpoints = endpoints_of u i;
        nodes = node_of u i ∷ map (node_of u) is;
      }
      ∷ []

  add_instances_more :
      (name : String) (is : List Instance) (s : Service)
      → add_instances u name is (("", s) ∷ [])
        ≡ ("", record s { nodes = s.nodes ++ map (node_of u) (versioned is) }) ∷ []
  unfolding add_instances add_instance lookup insert
  add_instances_more name [] s = ground (arith, append-nil s.nodes)
  add_instances_more name (i ∷ is) s = elim (Option-cases (lookup "version" i.metadata)) [
    | inl e ↦ ground (arith, e, add_instances_more name is s)
    | inr (v, e) ↦ ground (
      arith,
      e,
      add_instances_more name is (record s { nodes = s.nodes ++ node_of u i ∷ [] }),
      append_assoc s.nodes (node_of u i ∷ []) (map (node_of u) (versioned is)),
    )
  ]

  add_instances_first :
      (name : String) (is : List Instance)
      → map (λ (kv : String × Service). kv.1) (add_instances u name is [])
        ≡ as_one name (versioned is)
  unfolding add_instances add_instance lookup insert as_one
  add_instances_first name [] = refl
  add_instances_first name (i ∷ is) = elim (Option-cases (lookup "version" i.metadata)) [
    | inl e ↦ ground (arith, e, add_instances_first name is)
    | inr (v, e) ↦ ground (
      arith,
      e,
      add_instances_more name is (record {
        name = u.to_lower name;
        version = "";
        metadata = [];
        endpoints = endpoints_of u i;
        nodes = node_of u i ∷ [];
      }),
    )
  ]

  -- An application without an instance that has a version gives no service; any other gives exactly one,
  -- whose version is empty, whatever the instances say, with the nodes of the instances that have a
  -- version, in their order, and the endpoints of the first of them.
  pub app_to_service_lem :
      (a : Application) → app_to_service u a ≡ as_one a.name (versioned a.instances)
  unfolding app_to_service
  app_to_service_lem a = add_instances_first a.name a.instances

  -- If the codecs read back what they wrote, the instance that is made of a service with a node gives back
  -- the service with that node alone: the endpoints and the metadata of the node as they were, under
  -- the id that was composed for Eureka, but without the version.
  pub app_to_service-service_to_instance :
      (s : Service) (node : Node) (nodes : List Node) (en md : String)
      → s.nodes ≡ node ∷ nodes
      → u.marshal_endpoints s.endpoints ≡ some en
      → u.unmarshal_endpoints en ≡ s.endpoints
      → u.marshal_metadata node.metadata ≡ some md
      → u.unmarshal_metadata md ≡ node.metadata
      → (i : Instance) × (service_to_instance u s ≡ some i)
        × (app_to_service u (record { name = s.name; instances = i ∷ [] })
            ≡ record {
              name = u.to_lower s.name;
              version = "";
              metadata = [];
              endpoints = s.endpoints;
              nodes =
                  record {
                    id = u.unique node.address node.id;
                    address = u.join (u.split node.address).0 (u.split node.address).1;
                    metadata = node.metadata;
                  }
                  ∷ [];
            }
              ∷ [])
  unfolding app_to_service add_instances add_instance service_to_instance endpoints_of node_of
      metadata_of lookup insert
  app_to_service-service_to_instance s node nodes en md n we re wm rm = (
    record {
      app = s.name;
      host_name = node.address;
      ip_addr = node.address;
      port = (u.split node.address).1;
      id = u.unique node.address node.id;
      status = up;
      metadata =
          ("version", s.version)
          ∷ ("instanceId", node.id)
          ∷ ("endpoints", en)
          ∷ ("metadata", md)
          ∷ [];
    },
    ground (arith, n, we, wm),
    ground (arith, re, rm),
  )
