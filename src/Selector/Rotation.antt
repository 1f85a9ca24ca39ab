-- ===== src/Selector/Rotation.antt =====
-- Proofs about the closure that `next` of client/selector/label/label.go returns.
use go_plugins.Prelude.{
  ℕ, zero, suc, ◌+◌, ◌*◌, ◌≡◌, refl, ◌∙◌, ap, List, [], ◌∷◌, ◌++◌, Option, some, arith, length, map,
  get_elem?, append_assoc, append-nil, length-append,
}
use native.Mathlib.Nat.{suc-mul, add_comm, suc-add}
use go_plugins.Registry.{Node}
use go_plugins.Selector.Label.{next}

-- The nodes of `k` calls in a row, and the index behind them.
unfoldable pub turns : ℕ → List Node → ℕ → List (Option Node) × ℕ
turns zero nodes i = ([], i)
turns (suc k) nodes i = let (n, j) = next nodes i in let (ns, l) = turns k nodes j in (n ∷ ns, l)

unfoldable pub rounds : ℕ → List Node → List (Option Node)
rounds zero nodes = []
rounds (suc r) nodes = map some nodes ++ rounds r nodes

get_elem?-append :
    (xs : List Node) (n : Node) (ys : List Node) → get_elem? (xs ++ n ∷ ys) (length xs) ≡ some n
get_elem?-append [] n ys = refl
get_elem?-append (x ∷ xs) n ys = ground (arith, get_elem?-append xs n ys)

-- One call at an index in the list.
next-append :
    (xs : List Node) (n : Node) (ys : List Node)
    → next (xs ++ n ∷ ys) (length xs) ≡ (some n, length xs + 1)
unfolding next
next-append xs n ys = ground (arith, get_elem?-append xs n ys, length-append xs (n ∷ ys))

-- The rest of a round.
turns-append :
    (xs ys : List Node)
    → turns (length ys) (xs ++ ys) (length xs) ≡ (map some ys, length (xs ++ ys))
unfolding turns
turns-append xs [] = ground (arith, append-nil xs)
turns-append xs (n ∷ ys) = ground (
  arith,
  next-append xs n ys,
  turns-append (xs ++ n ∷ []) ys,
  append_assoc xs (n ∷ []) ys,
  length-append xs (n ∷ []),
)

turns-add :
    (a b : ℕ) (nodes : List Node) (i : ℕ)
    → turns (a + b) nodes i ≡ (
      (turns a nodes i).0 ++ (turns b nodes (turns a nodes i).1).0,
      (turns b nodes (turns a nodes i).1).1,
    )
unfolding turns
turns-add zero b nodes i = ground arith
turns-add (suc a) b nodes i =
    ap (λ k. turns k nodes i) (suc-add a b) ∙ ground (arith, turns-add a b nodes (next nodes i).1)

turns_none : (nodes : List Node) (i : ℕ) → turns 0 nodes i ≡ ([], i)
unfolding turns
turns_none nodes i = refl

suc_times : (r n : ℕ) → suc r * n ≡ n + r * n
suc_times r n = suc-mul r n ∙ add_comm (r * n) n

-- Behind the last node the closure starts again.
next-wraps : (n : Node) (ns : List Node) → next (n ∷ ns) (length (n ∷ ns)) ≡ next (n ∷ ns) 0
unfolding next
next-wraps n ns = ground arith

turns-wraps :
    (n : Node) (ns : List Node)
    → turns (length (n ∷ ns)) (n ∷ ns) (length (n ∷ ns)) ≡ turns (length (n ∷ ns)) (n ∷ ns) 0
unfolding turns
turns-wraps n ns = ground (arith, next-wraps n ns)

turns-again :
    (r : ℕ) (n : Node) (ns : List Node)
    → (turns (r * length (n ∷ ns)) (n ∷ ns) (length (n ∷ ns))).0 ≡ rounds r (n ∷ ns)
unfolding rounds
turns-again zero n ns = ground (arith, turns_none (n ∷ ns) (length (n ∷ ns)))
turns-again (suc r) n ns = ground (
  arith,
  turns-add (length (n ∷ ns)) (r * length (n ∷ ns)) (n ∷ ns) (length (n ∷ ns)),
  turns-wraps n ns,
  suc_times r (length (n ∷ ns)),
  turns-append [] (n ∷ ns),
  turns-again r n ns,
)

-- Calls of the closure hand out the nodes in their order, again and again: after `r` times as many
-- calls as there are nodes every node was handed out `r` times, each round in the order of the list.
pub turns-rounds :
    (r : ℕ) (nodes : List Node) → (turns (r * length nodes) nodes 0).0 ≡ rounds r nodes
unfolding rounds turns
turns-rounds zero nodes = ground (arith, turns_none nodes 0)
turns-rounds (suc r) [] = ground (arith, turns_none [] 0, turns-rounds r [])
turns-rounds (suc r) (n ∷ ns) = ground (
  arith,
  turns-add (length (n ∷ ns)) (r * length (n ∷ ns)) (n ∷ ns) 0,
  suc_times r (length (n ∷ ns)),
  turns-append [] (n ∷ ns),
  turns-again r n ns,
)
