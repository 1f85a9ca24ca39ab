-- ===== src/Registry/Nats/Merge.antt =====
-- Proofs about registry/nats/util.go: what a merge holds, what a removal leaves.
use go_plugins.Prelude.{
  String, ◌≡◌, refl, Bool, true, false, ◌||◌, List, [], ◌∷◌, Option, none, some, arith, ◌==◌,
  string_eq, eq_iff, if◌then◌else◌, is_nil, ap, Bool-cases, inl, inr, All,
}
use go_plugins.Registry.{Node, Service}
use go_plugins.Registry.Nats.Util.{
  add_node, add_nodes, add_service, has_id, del_nodes, cut_service, cut_services, del_services,
}

-- The first node of an id.
unfoldable pub find_node : String → List Node → Option Node
find_node j [] = none
find_node j (o ∷ os) = if o.id == j then some o else find_node j os

-- The last node of an id.
unfoldable pub find_last_node : String → List Node → Option Node
find_last_node j [] = none
find_last_node j (o ∷ os) =
    let rest = find_last_node j os in
    elim rest [ some n ↦ some n | none ↦ if o.id == j then some o else none ]

-- The first service of a version.
unfoldable pub find_version : String → List Service → Option Service
find_version v [] = none
find_version v (o ∷ os) = if o.version == v then some o else find_version v os

pub or_old : Option Node → Option Node → Option Node
or_old (some n) o = some n
or_old none o = o

find_node-add_node :
    (j : String) (old : List Node) (n : Node)
    → find_node j (add_node old n) ≡ (if n.id == j then some n else find_node j old)
unfolding find_node add_node
find_node-add_node j [] n = refl
find_node-add_node j (o ∷ old) n =
    ground (arith, eq_iff o.id n.id, eq_iff o.id j, eq_iff n.id j, find_node-add_node j old n)

-- After a merge every id has the last new node of that id, and its old node if there is no new one.
pub find_node-add_nodes :
    (j : String) (old neu : List Node)
    → find_node j (add_nodes old neu) ≡ or_old (find_last_node j neu) (find_node j old)
unfolding add_nodes find_last_node or_old
find_node-add_nodes j old [] = refl
find_node-add_nodes j old (n ∷ neu) =
    ground (arith, find_node-add_nodes j (add_node old n) neu, find_node-add_node j old n)

-- Ids stand once.
abbrev pub AreDistinct : List Node → Type 0
AreDistinct [] = Unit {0}
AreDistinct (o ∷ os) = (has_id os o.id ≡ false) × AreDistinct os

has_id-add_node :
    (old : List Node) (n : Node) (j : String)
    → has_id (add_node old n) j ≡ (has_id old j || j == n.id)
unfolding add_node
has_id-add_node [] n j = ground arith
has_id-add_node (x ∷ old) n j =
    ground (arith, has_id-add_node old n j, eq_iff x.id n.id, eq_iff j x.id, eq_iff j n.id)

has_id_eq : (xs : List Node) {i j : String} → i ≡ j → has_id xs i ≡ has_id xs j
has_id_eq xs e = ap (has_id xs) e

add_node-AreDistinct : (old : List Node) (n : Node) → AreDistinct old → AreDistinct (add_node old n)
unfolding add_node
add_node-AreDistinct [] n d = (refl, tt)
add_node-AreDistinct (o ∷ old) n d = ground (
  arith,
  eq_iff o.id n.id,
  has_id_eq old {i = o.id} {j = n.id},
  has_id-add_node old n o.id,
  add_node-AreDistinct old n d.1,
)

-- A merge lists no id twice if the old list does not, whatever the new list holds.
pub add_nodes-AreDistinct :
    (old neu : List Node) → AreDistinct old → AreDistinct (add_nodes old neu)
unfolding add_nodes
add_nodes-AreDistinct old [] d = d
add_nodes-AreDistinct old (n ∷ neu) d =
    add_nodes-AreDistinct (add_node old n) neu (add_node-AreDistinct old n d)

-- A removal leaves exactly the nodes whose id is not removed.
pub find_node-del_nodes :
    (j : String) (old del : List Node)
    → find_node j (del_nodes old del) ≡ (if has_id del j then none else find_node j old)
unfolding del_nodes find_node
find_node-del_nodes j [] del = ground arith
find_node-del_nodes j (o ∷ old) del =
    ground (arith, find_node-del_nodes j old del, eq_iff o.id j, has_id_eq del {i = o.id} {j = j})

find_last_node-has_id :
    (j : String) (neu : List Node) → has_id neu j ≡ false → find_last_node j neu ≡ none
unfolding find_last_node
find_last_node-has_id j [] h = refl
find_last_node-has_id j (n ∷ neu) h =
    ground (arith, find_last_node-has_id j neu, eq_iff n.id j, eq_iff j n.id)

-- Removing what a merge added leaves, for every id, the old node if the id is not among the new.
pub del_nodes-add_nodes :
    (j : String) (old neu : List Node)
    → find_node j (del_nodes (add_nodes old neu) neu)
      ≡ (if has_id neu j then none else find_node j old)
unfolding or_old
del_nodes-add_nodes j old neu = ground (
  arith,
  find_node-del_nodes j (add_nodes old neu) neu,
  find_node-add_nodes j old neu,
  find_last_node-has_id j neu,
)

-- The service that a merge holds for a version: the new one, with the old nodes merged in.
pub merged : Option Service → Service → Service
merged none s = s
merged (some o) s = record s { nodes = add_nodes o.nodes s.nodes }

pub find_version-add_service :
    (v : String) (old : List Service) (s : Service)
    → find_version v (add_service old s)
      ≡ (if s.version == v then some (merged (find_version v old) s) else find_version v old)
unfolding find_version add_service merged
find_version-add_service v [] s = ground arith
find_version-add_service v (o ∷ old) s = ground (
  arith,
  find_version-add_service v old s,
  eq_iff o.version s.version,
  eq_iff o.version v,
  eq_iff s.version v,
)

-- Every service that a removal keeps was kept with a node: one that loses its last is dropped.
cut_service-nodes :
    (o : Service) (rem : Bool) (s : Service)
    → (cut_service o rem s).1 ≡ false
    → (is_nil o.nodes ≡ false)
    → is_nil (cut_service o rem s).0.nodes ≡ false
unfolding cut_service
cut_service-nodes o rem s h k = ground arith

cut_service-rem : (o : Service) (s : Service) → (cut_service o true s).1 ≡ true
unfolding cut_service
cut_service-rem o s = ground arith

cut_services-rem : (o : Service) (del : List Service) → (cut_services o true del).1 ≡ true
unfolding cut_services
cut_services-rem o [] = refl
cut_services-rem o (s ∷ del) =
    rw (cut_service-rem o s, cut_services) (cut_services-rem (cut_service o true s).0 del)

cut_services-nodes :
    (o : Service) (rem : Bool) (del : List Service)
    → (cut_services o rem del).1 ≡ false
    → is_nil o.nodes ≡ false
    → is_nil (cut_services o rem del).0.nodes ≡ false
unfolding cut_services
cut_services-nodes o rem [] h k = k
cut_services-nodes o rem (s ∷ del) h k = elim (Bool-cases (cut_service o rem s).1) [
  | inl gone ↦ cc (cut_services-rem (cut_service o rem s).0 del, gone, h)
  | inr left ↦
      cut_services-nodes (cut_service o rem s).0 (cut_service o rem s).1 del h
        (cut_service-nodes o rem s left k)
]

abbrev pub HasNode : Service → Type 0
HasNode s = is_nil s.nodes ≡ false

-- A removal of services leaves no service without a node, if there was none before.
pub del_services-HasNode :
    (old del : List Service) → All HasNode old → All HasNode (del_services old del)
unfolding del_services
del_services-HasNode [] del h = tt
del_services-HasNode (o ∷ old) del h = elim (Bool-cases (cut_services o false del).1) [
  | inl gone ↦ rw gone (del_services-HasNode old del h.1)
  | inr left ↦ rw left (cut_services-nodes o false del left h.0, del_services-HasNode old del h.1)
]
