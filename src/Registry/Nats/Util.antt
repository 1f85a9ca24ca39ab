-- ===== src/Registry/Nats/Util.antt =====
-- registry/nats/util.go: the lists of services and nodes are merged and cut on copies (`cp`), so
-- values stand for the pointers of the source.
use go_plugins.Prelude.{
  String, Bool, true, false, List, [], ◌∷◌, ◌==◌, string_eq, if◌then◌else◌, is_nil, any, keep, not,
}
use go_plugins.Registry.{Node, Service}

-- The inner loop of `addNodes`: the first node of the same id is replaced, or the node appended.
unfoldable pub add_node : List Node → Node → List Node
add_node [] n = n ∷ []
add_node (o ∷ old) n = if o.id == n.id then n ∷ old else o ∷ add_node old n

unfoldable pub add_nodes : List Node → List Node → List Node
add_nodes old [] = old
add_nodes old (n ∷ neu) = add_nodes (add_node old n) neu

-- The inner loop of `addServices`: a service of the same version gives its nodes to the new one.
unfoldable pub add_service : List Service → Service → List Service
add_service [] s = s ∷ []
add_service (o ∷ old) s =
    if o.version == s.version
    then record s { nodes = add_nodes o.nodes s.nodes } ∷ old
    else o ∷ add_service old s

unfoldable pub add_services : List Service → List Service → List Service
add_services old [] = old
add_services old (s ∷ neu) = add_services (add_service old s) neu

-- The inner loop of `delNodes`: whether the node of this id is to be removed.
abbrev pub has_id : List Node → String → Bool
has_id del i = any (λ n. i == n.id) del

unfoldable pub del_nodes : List Node → List Node → List Node
del_nodes old del = keep (λ o. not (has_id del o.id)) old

-- One round of the inner loop of `delServices`, on the pair of the old service and `rem`.
unfoldable pub cut_service : Service → Bool → Service → Service × Bool
unfolding del_nodes
cut_service o rem s =
    if o.version == s.version
    then (let left = del_nodes o.nodes s.nodes in
        (record o { nodes = left }, if is_nil left then true else rem))
    else (o, rem)

unfoldable pub cut_services : Service → Bool → List Service → Service × Bool
unfolding cut_service
cut_services o rem [] = (o, rem)
cut_services o rem (s ∷ del) = cut_services (cut_service o rem s).0 (cut_service o rem s).1 del

unfoldable pub del_services : List Service → List Service → List Service
unfolding cut_services
del_services [] del = []
del_services (o ∷ old) del =
    let rest = del_services old del in
    if (cut_services o false del).1 then rest else (cut_services o false del).0 ∷ rest
