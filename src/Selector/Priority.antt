-- ===== src/Selector/Priority.antt =====
-- Proofs about `prioritise` of client/selector/label/label.go, against a definition with no marks.
use mathlib.Core.List.{Perm}
use mathlib.Core.List.Perm
use go_plugins.Prelude.{
  String, ◌≡◌, refl, Bool, true, false, not, ◌&&◌, ◌||◌, List, [], ◌∷◌, ◌++◌, Option, none, some,
  arith, ◌==◌, string_eq, eq_iff, if◌then◌else◌, keep, subst, is_nil, All, ap, ◌∙◌, sym,
}
use go_plugins.Prelude.Kept.{keep_cong, keep-keep, keep-All, All-both, keep-perm}
use go_plugins.Prelude.Dict.{lookup, insert, lookup-insert, lookup-insert_self}
use go_plugins.Prelude.Outcome.{Outcome, ok}
use go_plugins.Registry.{Node, Service}
use go_plugins.Selector.Label.{
  Label, matches, Marks, is_marked, pick, prioritise_from, prioritise, select, flatten, apply_all,
  Fault,
}

-- The order that is meant: the nodes of the first label, then those of the second among the rest,
-- and so on; each group, and the rest, in the order of the list.
unfoldable pub by_labels : List Label → List Node → List Node
by_labels [] nodes = nodes
by_labels (label ∷ labels) nodes =
    keep (matches label) nodes ++ by_labels labels (keep (λ n. not (matches label n)) nodes)

abbrev unmarked : Marks → Node → Bool
unmarked m n = not (is_marked m n)

-- The id stands in none of the nodes.
abbrev pub LacksId : String → List Node → Type 0
LacksId i nodes = All (λ (n : Node). (i == n.id) ≡ false) nodes

abbrev pub AreDistinct : List Node → Type 0
AreDistinct [] = Unit {0}
AreDistinct (n ∷ ns) = LacksId n.id ns × AreDistinct ns

-- A mark for another id changes nothing for nodes that lack that id.
marked-lacking :
    (b : Bool) (i : String) (m : Marks) (ns : List Node)
    → LacksId i ns
    → All (λ n. is_marked (if b then insert i true m else m) n ≡ is_marked m n) ns
marked-lacking b i m [] h = tt
marked-lacking b i m (n ∷ ns) h =
    (ground (arith, lookup-insert i n.id true m), marked-lacking b i m ns h.1)

abbrev takes : Label → Marks → Node → Bool
takes l m n = unmarked m n && matches l n

abbrev behind : Label → Node → Marks → Marks
behind l n m = if takes l m n then insert n.id true m else m

-- Marks for nodes of the list alone.
lookup-pick :
    (l : Label) (ns : List Node) (m : Marks) (i : String)
    → LacksId i ns
    → lookup i (pick l ns m).1 ≡ lookup i m
unfolding pick
lookup-pick l [] m i h = refl
lookup-pick l (n ∷ ns) m i h = ground (
  arith,
  lookup-pick l ns (behind l n m) i h.1,
  lookup-insert n.id i true m,
  eq_iff n.id i,
  eq_iff i n.id,
)

-- The nodes that a label takes.
pick-keep :
    (l : Label) (ns : List Node) (m : Marks)
    → AreDistinct ns
    → (pick l ns m).0 ≡ keep (λ n. takes l m n) ns
unfolding pick
pick-keep l [] m h = refl
pick-keep l (n ∷ ns) m h =
    let same = marked-lacking (takes l m n) n.id m ns h.0 in
    ground (
      arith,
      pick-keep l ns (behind l n m) h.1,
      keep_cong (takes l (behind l n m)) (takes l m) ns
          (All-both ns same same (λ x e _. ap (λ b. not b && matches l x) e)),
    )

not-or : (a b : Bool) → not (a || b) ≡ (not a && not b)
not-or a b = ground arith

-- The marks behind it.
marked-pick :
    (l : Label) (ns : List Node) (m : Marks)
    → AreDistinct ns
    → All (λ n. is_marked (pick l ns m).1 n ≡ (is_marked m n || matches l n)) ns
unfolding pick
marked-pick l [] m h = tt
marked-pick l (n ∷ ns) m h = (
  ground (arith, lookup-pick l ns (behind l n m) n.id h.0, lookup-insert_self n.id true m),
  All-both ns (marked-pick l ns (behind l n m) h.1) (marked-lacking (takes l m n) n.id m ns h.0)
      (λ x e d. e ∙ ap (λ b. b || matches l x) d),
)

unmarked-pick :
    (l : Label) (ns : List Node) (m : Marks)
    → AreDistinct ns
    → keep (λ n. unmarked (pick l ns m).1 n) ns
      ≡ keep (λ n. not (matches l n)) (keep (λ n. unmarked m n) ns)
unmarked-pick l ns m h =
    let both = marked-pick l ns m h in
    keep_cong (λ n. unmarked (pick l ns m).1 n) (λ n. unmarked m n && not (matches l n)) ns
      (All-both ns both both (λ x e _. ap not e ∙ not-or (is_marked m x) (matches l x)))
    ∙ sym (keep-keep (λ n. not (matches l n)) (λ n. unmarked m n) ns)

prioritise_from_lem :
    (ls : List Label) (ns : List Node) (m : Marks)
    → AreDistinct ns
    → prioritise_from ls ns m ≡ by_labels ls (keep (λ n. unmarked m n) ns)
unfolding prioritise_from by_labels
prioritise_from_lem [] ns m h = refl
prioritise_from_lem (l ∷ ls) ns m h = ground (
  arith,
  prioritise_from_lem ls ns (pick l ns m).1 h,
  unmarked-pick l ns m h,
  pick-keep l ns m h,
  keep-keep (matches l) (λ n. unmarked m n) ns,
)

All-unmarked : (ns : List Node) → All (λ n. unmarked [] n ≡ true) ns
unfolding lookup
All-unmarked [] = tt
All-unmarked (n ∷ ns) = (refl, All-unmarked ns)

-- Nodes with different ids are put in the order of the labels: first those that match the first label,
-- then those of the rest that match the second, and so on, and last those that match none; within each
-- group they keep their order.
pub prioritise_lem :
    (ns : List Node) (ls : List Label) → AreDistinct ns → prioritise ns ls ≡ by_labels ls ns
unfolding prioritise
prioritise_lem ns ls h =
    prioritise_from_lem ls ns [] h
    ∙ ap (by_labels ls) (keep-All (λ n. unmarked [] n) ns (All-unmarked ns))

by_labels-perm : (ls : List Label) (ns : List Node) → Perm (by_labels ls ns) ns
unfolding by_labels
by_labels-perm [] ns = Perm.refl ns
by_labels-perm (l ∷ ls) ns =
    Perm.trans
      (Perm.append_left (keep (matches l) ns)
        (by_labels-perm ls (keep (λ n. not (matches l n)) ns)))
      (keep-perm (matches l) ns)

-- Nodes with different ids are put in another order: none is lost and none comes twice.
pub prioritise-perm :
    (ns : List Node) (ls : List Label) → AreDistinct ns → Perm (prioritise ns ls) ns
prioritise-perm ns ls h = rw (prioritise_lem ns ls h) (by_labels-perm ls ns)

ok-inj : {a b : List Node} → Path (Outcome Fault (List Node)) (ok a) (ok b) → a ≡ b
ok-inj e = ground arith

-- When `Select` returns a closure, the closure has a node to hand out, and its nodes are those of the
-- services that the filters leave, in some order. The nodes have different ids.
pub select-perm :
    (found : List Service) (filters : List (List Service → List Service))
    (labels : Option (List Label)) (nodes : List Node)
    → select (ok found) filters labels ≡ ok nodes
    → AreDistinct (flatten (apply_all filters found))
    → Perm nodes (flatten (apply_all filters found))
      × (is_nil (flatten (apply_all filters found)) ≡ false)
unfolding select
select-perm found filters none nodes h d = (
  subst (λ l. Perm l (flatten (apply_all filters found))) (ok-inj (ground (arith, h))) Perm.rfl,
  ground (arith, h),
)
select-perm found filters (some ls) nodes h d = (
  subst (λ l. Perm l (flatten (apply_all filters found))) (ok-inj (ground (arith, h)))
      (prioritise-perm (flatten (apply_all filters found)) ls d),
  ground (arith, h),
)
