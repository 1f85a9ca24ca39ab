-- ===== src/Selector/Shard.antt =====
-- client/selector/shard/shard.go: nodes by the score of their id, best first. The two slices of the
-- source, one as long as the other, are one list of pairs. The hash is a parameter.
use go_plugins.Prelude.{
  ℕ, zero, suc, ◌+◌, String, ◌&&◌, List, [], ◌∷◌, Option, none, some, if◌then◌else◌, leb, is_some,
  map,
}
use go_plugins.Registry.{Node, Service}
use go_plugins.Selector.Label.{flatten}

-- A possible node, `none` once it was taken, and its score.
abbrev pub Entry : Type 0
Entry = Option Node × ℕ

-- `ScoreNodes`.
unfoldable pub score_nodes : (String → ℕ) → List Service → List Entry
unfolding flatten
score_nodes hash services = map (λ (n : Node). (some n, hash n.id)) (flatten services)

-- The search for the best score: the index, `best` and `pos` before an entry.
unfoldable pub scan : ℕ → ℕ → Option ℕ → List Entry → ℕ × Option ℕ
scan i best pos [] = (best, pos)
scan i best pos (e ∷ es) =
    let better = leb best e.1 && is_some e.0 in
    scan (i + 1) (if better then e.1 else best) (if better then some i else pos) es

unfoldable pub node_at : ℕ → List Entry → Option Node
node_at i [] = none
node_at zero (e ∷ es) = e.0
node_at (suc i) (e ∷ es) = node_at i es

abbrev pub taken : Entry
taken = (none, 0)

unfoldable pub take_at : ℕ → List Entry → List Entry
take_at i [] = []
take_at zero (e ∷ es) = taken ∷ es
take_at (suc i) (e ∷ es) = e ∷ take_at i es

-- One call of the closure: `none` is the error that no node is left.
unfoldable pub next : List Entry → Option Node × List Entry
unfolding scan node_at take_at
next es = elim ((scan 0 0 none es).1) [ none ↦ (none, es) | some i ↦ (node_at i es, take_at i es) ]
