-- ===== src/Registry/Consul/Listing.antt =====
-- Proofs about `GetService` of registry/consul/consul.go: against a listing of the entries, and on the
-- entry of a registration.
use go_plugins.Prelude.{
  ℕ, String, ◌≡◌, false, List, [], ◌∷◌, none, ◌==◌, string_eq, nat_eq, any, map, All, arith, eq_iff,
}
use go_plugins.Prelude.Dict.{Dict, lookup, insert}
use go_plugins.Registry.{Node, Service}
use go_plugins.Registry.Consul.Format.{IsLawful}
use go_plugins.Registry.Consul.RoundTrip.{written, AreNew, tags_round_trip}
use go_plugins.Registry.Consul.Agent.{Net, Consul, Registration, registration}
use go_plugins.Registry.Consul.Find.{
  Entry, Found, version_of, node_of, service_of, with_node, add_entry, add_entries, services,
  get_service,
}
use go_plugins.Registry.Consul.Joined.{HasOwnKeys, IsReadable, listed_service, add_entries_lem}

module _ (n : Net) where
  -- If the agent answers and the tags of the entries make no decoding panic, `GetService` returns the
  -- services of a map with each version once, and the map holds under a version a service if and only if
  -- there is an entry of the name with that version: the service with the name and the version, with the
  -- endpoints of the first such entry, and with the nodes of all of them, in their order, without those
  -- that have a critical check.
  pub get_service-live_nodes :
      (name : String) (es : List Entry)
      → All (IsReadable n) es
      → (m : Dict String Found) × (get_service n name none es
          ≡ services (map (λ (kv : String × Found). kv.1) m))
        × HasOwnKeys m
        × ((v : String) → lookup v m ≡ listed_service n name v es)
  unfolding get_service lookup
  get_service-live_nodes name es r =
      let (m, s, h, own) = add_entries_lem n name es [] r in (m, ground (arith, s), own tt, h)

-- The entry that the agent keeps for a registration, with the statuses of its checks.
abbrev pub entry_of : Registration → String → List String → Entry
entry_of r node_address statuses = record {
  service = r.name;
  id = r.id;
  tags = r.tags;
  address = r.address;
  node_address = node_address;
  port = r.port;
  statuses = statuses;
}

-- For a lawful codec, metadata with distinct keys and an address whose host is not empty and which
-- `mnet.HostPort` puts together again, `GetService` on the entry of a registration that is not critical
-- returns the service that was registered: its name, its version, the endpoints that encoding/json takes,
-- and its node as it was.
pub get_service-registration :
    (n : Net) (period : ℕ) (s : Service) (node : Node) (c : Consul) (at : String)
    (statuses : List String)
    → IsLawful n.codec
    → AreNew [] node.metadata
    → ((n.split node.address).0 == "") ≡ false
    → n.host_port (n.split node.address).0 (n.atoi (n.split node.address).1) ≡ node.address
    → any (λ st. st == "critical") statuses ≡ false
    → get_service n s.name none (entry_of (registration n period s node c) at statuses ∷ [])
      ≡ services (
          record {
            name = s.name;
            version = s.version;
            endpoints = written n.codec s.endpoints;
            nodes = node ∷ [];
          }
          ∷ [])
unfolding get_service add_entries add_entry service_of with_node node_of version_of registration
    lookup insert
get_service-registration n period s node c at statuses l new h j ok =
    let (md, en, v) = tags_round_trip n.codec l node.metadata s.endpoints s.version new in
    ground (arith, md, en, v, h, j, ok, eq_iff s.name s.name)
