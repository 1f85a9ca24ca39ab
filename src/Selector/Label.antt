-- ===== src/Selector/Label.antt =====
-- client/selector/label/label.go: nodes in the order of a list of labels, and the closure that hands
-- them out in turn.
use go_plugins.Prelude.{
  ℕ, ◌+◌, String, Bool, true, false, not, ◌&&◌, List, [], ◌∷◌, ◌++◌, Option, none, some, ◌==◌,
  string_eq, nat_eq, if◌then◌else◌, length, leb, get_elem?, keep, is_nil, is_some,
}
use go_plugins.Prelude.Dict.{Dict, lookup, insert}
use go_plugins.Prelude.Outcome.{Outcome, ok, err}
use go_plugins.Registry.{Node, Service}

pub record Label : Type 0 where
  pub key : String
  pub val : String

-- The tests of the inner loop on a node that is not marked: it has metadata, and the label's value.
unfoldable pub matches : Label → Node → Bool
matches label node =
    not (is_nil node.metadata)
    && (elim (lookup label.key node.metadata) [ none ↦ false | some v ↦ label.val == v ])

abbrev pub Marks : Type 0
Marks = Dict String Bool

abbrev pub is_marked : Marks → Node → Bool
is_marked marked node = is_some (lookup node.id marked)

-- The inner loop for one label: the nodes that it appends, and the marks behind it.
unfoldable pub pick : Label → List Node → Marks → List Node × Marks
pick label [] marked = ([], marked)
pick label (node ∷ nodes) marked =
    let taken = not (is_marked marked node) && matches label node in
    let (picked, marked') =
      pick label nodes (if taken then insert node.id true marked else marked) in
    (if taken then node ∷ picked else picked, marked')

-- The loop over the labels, and the leftovers behind it.
unfoldable pub prioritise_from : List Label → List Node → Marks → List Node
prioritise_from [] nodes marked = keep (λ node. not (is_marked marked node)) nodes
prioritise_from (label ∷ labels) nodes marked =
    let (picked, marked') = pick label nodes marked in
    picked ++ prioritise_from labels nodes marked'

unfoldable pub prioritise : List Node → List Label → List Node
prioritise nodes labels = prioritise_from labels nodes []

-- One call of the closure of `next`: the node, if there is one at the index, and the next index.
unfoldable pub next : List Node → ℕ → Option Node × ℕ
next nodes i = let j = if leb (length nodes) i then 0 else i in (get_elem? nodes j, j + 1)

-- All nodes of a list of services, in order: the flattening of every selector.
unfoldable pub flatten : List Service → List Node
flatten [] = []
flatten (s ∷ ss) = s.nodes ++ flatten ss

pub data Fault : Type 0 where
  registry_fault : ℕ → Fault
  not_found : Fault

unfoldable pub apply_all : List (List Service → List Service) → List Service → List Service
apply_all [] ss = ss
apply_all (f ∷ fs) ss = apply_all fs (f ss)

-- `Select`, up to the closure: the nodes that it hands out. The labels are `none` where the context
-- has none.
unfoldable pub select :
    Outcome ℕ (List Service)
    → List (List Service → List Service)
    → Option (List Label)
    → Outcome Fault (List Node)
unfolding apply_all flatten prioritise
select (err e) filters labels = err (registry_fault e)
select (ok found) filters labels =
    let services = apply_all filters found in
    let nodes = flatten services in
    if is_nil services
    then err not_found
    else if is_nil nodes
    then err not_found
    else ok (elim labels [ none ↦ nodes | some ls ↦ prioritise nodes ls ])
