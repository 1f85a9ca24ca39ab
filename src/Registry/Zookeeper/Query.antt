-- ===== src/Registry/Zookeeper/Query.antt =====
-- registry/zookeeper/zookeeper.go: GetService and ListServices. The tree does not change while they read.
use go_plugins.Prelude.{
  String, List, [], ◌∷◌, ◌++◌, Option, none, some, string_eq, if◌then◌else◌, is_nil,
}
use go_plugins.Prelude.Outcome.{Outcome, ok, err}
use go_plugins.Prelude.Dict.{Dict, lookup, insert}
use go_plugins.Registry.{Service}
use go_plugins.Registry.Zookeeper.{Util, node_path}

-- The client's reading calls, which fail with `none`; the decoding of a service, which the JSON value null leaves nil; and the path of a
-- service, with the prefix.
pub record Reader : Type 0 where
  pub children : String → Option (List String)
  pub get : String → Option String
  pub decode : String → Option (Option Service)
  pub prefix : String
  pub service_path : String → String

-- Why nothing is answered; a nil service panics.
pub data Unread : Type 0 where
  client_failed decode_failed panics : Unread

-- What a path holds: nothing of interest where there are children.
unfoldable pub leaf : Reader → String → Outcome Unread (Option Service)
leaf r path = elim (r.children path) [
  | none ↦ err client_failed
  | some cs ↦
      if is_nil cs
      then (elim (r.get path) [
        | none ↦ err client_failed
        | some b ↦ elim (r.decode b) [
          | none ↦ err decode_failed
          | some none ↦ err panics
          | some (some s) ↦ ok (some s)
        ]
      ])
      else ok none
]

-- A service joins the one of its version.
unfoldable pub add_service : Service → Dict String Service → Dict String Service
add_service s m = elim (lookup s.version m) [
  | none ↦ insert s.version s m
  | some old ↦ insert s.version (record old { nodes = old.nodes ++ s.nodes }) m
]

-- The loop of `GetService`.
unfoldable pub collect :
    Reader
    → Util
    → String
    → List String
    → Dict String Service
    → Outcome Unread (Dict String Service)
unfolding leaf add_service
collect r u name [] m = ok m
collect r u name (n ∷ ns) m =
    let step = leaf r (node_path u name n) in
    let skip = collect r u name ns m in
    let add = (λ (s : Service). collect r u name ns (add_service s m)) in
    elim step [ err e ↦ err e | ok none ↦ skip | ok (some s) ↦ add s ]

-- `GetService`: the services by their versions, which Go's map yields in any order.
unfoldable pub get_service : Reader → Util → String → Outcome Unread (Dict String Service)
unfolding collect
get_service r u name = elim (r.children (r.service_path name)) [
  | none ↦ err client_failed
  | some ns ↦ collect r u name ns []
]

-- The loops of `ListServices`: a service is entered under its path, with the name of its last node.
unfoldable pub list_nodes :
    Reader → Util → String → List String → Dict String String → Outcome Unread (Dict String String)
unfolding leaf
list_nodes r u key [] m = ok m
list_nodes r u key (n ∷ ns) m =
    let step = leaf r (node_path u key n) in
    let skip = list_nodes r u key ns m in
    let add = (λ (s : Service). list_nodes r u key ns (insert (r.service_path key) s.name m)) in
    elim step [ err e ↦ err e | ok none ↦ skip | ok (some s) ↦ add s ]

unfoldable pub list_keys :
    Reader → Util → List String → Dict String String → Outcome Unread (Dict String String)
unfolding list_nodes
list_keys r u [] m = ok m
list_keys r u (key ∷ keys) m = elim (r.children (r.service_path key)) [
  | none ↦ err client_failed
  | some ns ↦
      let more = (λ (m' : Dict String String). list_keys r u keys m') in
      elim (list_nodes r u key ns m) [ err e ↦ err e | ok m' ↦ more m' ]
]

-- `ListServices`: names by paths.
unfoldable pub list_services : Reader → Util → Outcome Unread (Dict String String)
unfolding list_keys
list_services r u = elim (r.children r.prefix) [
  | none ↦ err client_failed
  | some keys ↦ list_keys r u keys []
]
