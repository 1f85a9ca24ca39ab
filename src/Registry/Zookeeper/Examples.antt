-- ===== src/Registry/Zookeeper/Examples.antt =====
-- Tests of the ZooKeeper registry's model, and its theorems at concrete inputs.
use Prim.Native.String.{◌++◌ as str_append}
use go_plugins.Prelude.{
  String, ◌≡◌, refl, [], ◌∷◌, none, some, string_eq, nat_eq, if◌then◌else◌, ◌==◌, is_some, arith,
  Bool-cases, inl, inr,
}
use go_plugins.Prelude.Dict.{Dict, lookup, insert, remove, lookup-insert}
use go_plugins.Prelude.Outcome.{ok}
use go_plugins.Registry.{Service}
use go_plugins.Registry.Zookeeper.Query.{Reader, get_service}
use go_plugins.Registry.Zookeeper.Found.{held_by, Answers, get_service_lem}
use go_plugins.Registry.Zookeeper.{
  Client, Util, dashed, node_path, above, parents, create_parents, create_path, Registry,
  write_node, write_nodes, register,
}
use go_plugins.Registry.Zookeeper.Written.{IsLawful, written, register-written}

-- A tree as a dictionary; what exists is not created again.
abbrev client : Client
client = record {
  Tree = Dict String String;
  exists = λ p t. some (is_some (lookup p t));
  set = λ p x t. some (insert p x t);
  create = λ p x t. if is_some (lookup p t) then none else some (insert p x t);
  delete = λ p t. some (remove p t);
}

client-IsLawful : IsLawful client
client-IsLawful = record {
  at = λ p t. lookup p t;
  exists-at = λ p t b h. ground (arith, h);
  at-set = λ p x q t t' h. ground (arith, h, lookup-insert p q x t);
  at-create = λ p x q t t' h. elim (Bool-cases (is_some (lookup p t))) [
    | inl e ↦ absurd (ground (arith, e, h))
    | inr e ↦ ground (arith, e, h, lookup-insert p q x t)
  ];
}

abbrev util : Util
util = record {
  join = λ s i. str_append "/m/" (str_append s (str_append "/" i));
  marshal = λ s. some s.version;
  hash = λ s. some 7;
}

abbrev service : Service
service = record {
  name = "a/b";
  version = "1";
  metadata = [];
  endpoints = [];
  nodes = record { id = "n1"; address = "10.0.0.1:80"; metadata = [] } ∷ [];
}

abbrev fresh : Registry client
fresh = record { registered = []; tree = ("/m", "") ∷ [] }

registered : (register client util service fresh).0 ≡ none
unfolding register write_nodes write_node create_path create_parents parents above node_path dashed
    lookup insert
registered = refl

register-written_example :
    (client-IsLawful.at "/m/a-b/n1" (register client util service fresh).1.tree
      ≡ written client client-IsLawful util service "/m/a-b/n1" service.nodes
          (client-IsLawful.at "/m/a-b/n1" fresh.tree))
    × (register client util service (record (register client util service fresh).1 { tree = [] })
        ≡ (none, record (register client util service fresh).1 { tree = [] }))
register-written_example =
    register-written client client-IsLawful util service "/m/a-b/n1" 7 fresh [] refl
      (unfold lookup in refl) ((unfold parents above node_path dashed in refl), tt) registered

-- Two children of one version, and a path between that has children of its own.
abbrev reader : Reader
reader = record {
  children = λ p.
      if p == "/m/a-b"
      then some ("n1" ∷ "sub" ∷ "n2" ∷ [])
      else if p == "/m/a-b/sub"
      then some ("x" ∷ [])
      else some [];
  get = λ p. some p;
  decode = λ b. some (some (record service { metadata = ("path", b) ∷ [] }));
  prefix = "/m";
  service_path = λ s. "/m/a-b";
}

abbrev at_path : String → Service
at_path p = record service { metadata = ("path", p) ∷ [] }

read : held_by reader util "a/b" ≡ ok (at_path "/m/a-b/n1" ∷ at_path "/m/a-b/n2" ∷ [])
unfolding node_path dashed
read = refl

get_service_lem_example : Answers "1" (held_by reader util "a/b") (get_service reader util "a/b")
get_service_lem_example = get_service_lem reader util "a/b" "1"
