-- ===== src/Registry/Zookeeper.antt =====
-- registry/zookeeper: Register and Deregister of zookeeper.go, and util.go. The client of ZooKeeper is an
-- interface over a state of its own; path.Join, encoding/json and hashstructure are parameters.
pub mod Written
pub mod Query
pub mod Found
mod Examples
use Prim.Native.Char.{code}
use Prim.Native.String.{◌++◌ as str_append}
use go_plugins.Prelude.{
  ℕ, String, Bool, true, false, List, [], ◌∷◌, Option, none, some, ◌==◌, string_eq, nat_eq,
  if◌then◌else◌, or_else,
}
use go_plugins.Prelude.Dict.{Dict, lookup, insert, remove}
use go_plugins.Registry.{Node, Service}

-- The calls of the client, which fail with `none`.
pub record Client : Type 1 where
  pub Tree : Type 0
  pub exists : String → Tree → Option Bool
  pub set : String → String → Tree → Option Tree
  pub create : String → String → Tree → Option Tree
  pub delete : String → Tree → Option Tree

pub record Util : Type 0 where
  pub join : String → String → String
  pub marshal : Service → Option String
  pub hash : Service → Option ℕ

pub data Fault : Type 0 where
  no_node hash_failed marshal_failed client_failed : Fault

-- `strings.Replace(s, "/", "-", -1)`.
unfoldable pub dashed : String → String
dashed String.[] = String.[]
dashed (String.◌∷◌ c s) =
    let rest = dashed s in if code c == b'/' then String.◌∷◌ "-" rest else String.◌∷◌ c rest

-- `nodePath`; `join` puts the prefix in front.
unfoldable pub node_path : Util → String → String → String
unfolding dashed
node_path u s id = u.join (dashed s) (dashed id)

-- The paths above a path, from what stands before each slash behind `done`.
unfoldable pub above : String → String → List String
above done String.[] = []
above done (String.◌∷◌ c s) =
    let rest = above (str_append done (String.◌∷◌ c String.[])) s in
    if code c == b'/' then done ∷ rest else rest

-- The paths that `createPath` makes on its way, for a path that begins with a slash.
unfoldable pub parents : String → List String
unfolding above
parents String.[] = []
parents (String.◌∷◌ c s) = above "/" s

module _ (z : Client) where
  -- The loop of `createPath`: whether it gets through, and the tree; an error of Exists counts as absent.
  unfoldable pub create_parents : List String → z.Tree → Bool × z.Tree
  create_parents [] t = (true, t)
  create_parents (p ∷ ps) t =
      if or_else (z.exists p t) false
      then create_parents ps t
      else elim (z.create p "" t) [ none ↦ (false, t) | some t' ↦ create_parents ps t' ]

  abbrev made : Option z.Tree → z.Tree → Bool × z.Tree
  made none t = (false, t)
  made (some t') t = (true, t')

  -- `createPath`.
  unfoldable pub create_path : String → String → z.Tree → Bool × z.Tree
  unfolding create_parents parents
  create_path p x t = elim (z.exists p t) [
    | none ↦ (false, t)
    | some true ↦ (true, t)
    | some false ↦
        let (through, t') = create_parents (parents p) t in
        if through then made (z.create p x t') t' else (false, t')
  ]

  pub record Registry : Type 0 where
    pub registered : Dict String ℕ
    pub tree : z.Tree

  -- The service with one node.
  abbrev pub single : Service → Node → Service
  single s node = record s { nodes = node ∷ [] }

  -- One node of `Register`.
  unfoldable pub write_node : Util → Service → Node → z.Tree → Option Fault × z.Tree
  unfolding create_path
  write_node u s node t =
      let path = node_path u s.name node.id in
      elim (z.exists path t) [
        | none ↦ (some client_failed, t)
        | some there ↦ elim (u.marshal (single s node)) [
          | none ↦ (some marshal_failed, t)
          | some b ↦
              let (through, t') = if there then made (z.set path b t) t else create_path path b t in
              (if through then none else some client_failed, t')
        ]
      ]

  unfoldable pub write_nodes : Util → Service → List Node → z.Tree → Option Fault × z.Tree
  unfolding write_node
  write_nodes u s [] t = (none, t)
  write_nodes u s (node ∷ nodes) t =
      let (fault, t') = write_node u s node t in
      let rest = write_nodes u s nodes t' in elim fault [ none ↦ rest | some e ↦ (some e, t') ]

  -- `Register`.
  unfoldable pub register : Util → Service → Registry → Option Fault × Registry
  unfolding write_nodes
  register u s r = elim s.nodes [
    | [] ↦ (some no_node, r)
    | node ∷ nodes ↦ elim (u.hash s) [
      | none ↦ (some hash_failed, r)
      | some h ↦
          if (elim (lookup s.name r.registered) [ none ↦ false | some v ↦ v == h ])
          then (none, r)
          else (let (fault, t) = write_nodes u s (node ∷ nodes) r.tree in
              elim fault [
                | none ↦ (none, record { registered = insert s.name h r.registered; tree = t })
                | some e ↦ (some e, record r { tree = t })
              ])
    ]
  ]

  unfoldable pub delete_nodes : Util → String → List Node → z.Tree → Option Fault × z.Tree
  delete_nodes u name [] t = (none, t)
  delete_nodes u name (node ∷ nodes) t = elim (z.delete (node_path u name node.id) t) [
    | none ↦ (some client_failed, t)
    | some t' ↦ delete_nodes u name nodes t'
  ]

  -- `Deregister`.
  unfoldable pub deregister : Util → Service → Registry → Option Fault × Registry
  unfolding delete_nodes
  deregister u s r = elim s.nodes [
    | [] ↦ (some no_node, r)
    | node ∷ nodes ↦
        let (fault, t) = delete_nodes u s.name (node ∷ nodes) r.tree in
        (fault, record { registered = remove s.name r.registered; tree = t })
  ]
