-- ===== src/Registry/Zookeeper/Written.antt =====
-- Proofs about registry/zookeeper: what a registration leaves in the tree.
use go_plugins.Prelude.{
  ℕ, String, ◌≡◌, refl, ap, subst, Bool, true, false, List, [], ◌∷◌, Option, none, some, ◌==◌,
  string_eq, nat_eq, nat_beq_iff, if◌then◌else◌, any, is_some, or_else, arith, Option-cases,
  List-cases, Bool-cases, inl, inr, All,
}
use go_plugins.Prelude.Dict.{lookup, lookup-insert_self}
use go_plugins.Registry.{Node, Service}
use go_plugins.Registry.Zookeeper.{
  Client, Util, node_path, parents, create_parents, create_path, Registry, single, write_node,
  write_nodes, register,
}

-- What the client promises of the text at a path: a call that succeeds writes it there, and nothing else.
pub record IsLawful (z : Client) : Type 0 where
  pub at : String → z.Tree → Option String
  pub exists-at :
      (p : String) (t : z.Tree) (b : Bool) → z.exists p t ≡ some b → is_some (at p t) ≡ b
  pub at-set :
      (p x q : String) (t t' : z.Tree)
      → z.set p x t ≡ some t'
      → at q t' ≡ (if p == q then some x else at q t)
  pub at-create :
      (p x q : String) (t t' : z.Tree)
      → z.create p x t ≡ some t'
      → at q t' ≡ (if p == q then some x else at q t)

module _ (z : Client) (l : IsLawful z) where
  create_parents_lem :
      (ps : List String) (q : String) (t : z.Tree)
      → any (λ p. p == q) ps ≡ false
      → l.at q (create_parents z ps t).1 ≡ l.at q t
  unfolding create_parents
  create_parents_lem [] q t new = refl
  create_parents_lem (p ∷ ps) q t new = elim (Bool-cases (or_else (z.exists p t) false)) [
    | inl e ↦ ground (arith, e, create_parents_lem ps q t (ground (arith, new)))
    | inr e ↦ elim (Option-cases (z.create p "" t)) [
      | inl c ↦ ground (arith, e, c)
      | inr (t', c) ↦ ground (
        arith,
        e,
        c,
        new,
        create_parents_lem ps q t' (ground (arith, new)),
        l.at-create p "" q t t' c,
      )
    ]
  ]

  create_path_lem :
      (p x q : String) (t : z.Tree)
      → z.exists p t ≡ some false
      → any (λ p. p == q) (parents p) ≡ false
      → (create_path z p x t).0 ≡ true
      → l.at q (create_path z p x t).1 ≡ (if p == q then some x else l.at q t)
  unfolding create_path
  create_path_lem p x q t e new ok =
      let v = (create_parents z (parents p) t).1 in
      elim (Bool-cases (create_parents z (parents p) t).0) [
        | inr f ↦ absurd (ground (arith, e, f, ok))
        | inl f ↦ elim (Option-cases (z.create p x v)) [
          | inl c ↦ absurd (ground (arith, e, f, c, ok))
          | inr (t', c) ↦
              ground
                (arith, e, f, c, l.at-create p x q v t' c, create_parents_lem (parents p) q t new)
        ]
      ]

  write_node_lem :
      (u : Util) (s : Service) (node : Node) (q : String) (t : z.Tree)
      → any (λ p. p == q) (parents (node_path u s.name node.id)) ≡ false
      → (write_node z u s node t).0 ≡ none
      → l.at q (write_node z u s node t).1
        ≡ (if node_path u s.name node.id == q then u.marshal (single z s node) else l.at q t)
  unfolding write_node
  write_node_lem u s node q t new ok =
      let path = node_path u s.name node.id in
      elim (Option-cases (z.exists path t)) [
        | inl e ↦ absurd (ground (arith, e, ok))
        | inr (there, e) ↦ elim (Option-cases (u.marshal (single z s node))) [
          | inl m ↦ absurd (ground (arith, e, m, ok))
          | inr (b, m) ↦ elim (Bool-cases there) [
            | inl yes_there ↦ elim (Option-cases (z.set path b t)) [
              | inl c ↦ absurd (ground (arith, e, m, yes_there, c, ok))
              | inr (t', c) ↦ ground (arith, e, m, yes_there, c, l.at-set path b q t t' c)
            ]
            | inr not_there ↦
                let done : (create_path z path b t).0 ≡ true =
                  ground (arith, e, m, not_there, ok) in
                ground (
                  arith,
                  e,
                  m,
                  not_there,
                  done,
                  create_path_lem path b q t (ground (arith, e, not_there)) new done,
                )
          ]
        ]
      ]

  -- The text at a path when the nodes are written one after the other onto `old`.
  unfoldable pub written : Util → Service → String → List Node → Option String → Option String
  written u s q [] old = old
  written u s q (node ∷ nodes) old =
      written u s q nodes
        (if node_path u s.name node.id == q then u.marshal (single z s node) else old)

  -- The path stands above none of the nodes.
  abbrev pub IsBelow : Util → Service → String → List Node → Type 0
  IsBelow u s q nodes =
      All (λ (x : Node). any (λ p. p == q) (parents (node_path u s.name x.id)) ≡ false) nodes

  -- The registry has this hash under the name.
  abbrev pub stores : String → ℕ → Registry z → Bool
  stores name h r = elim (lookup name r.registered) [ none ↦ false | some v ↦ v == h ]

  write_nodes_lem :
      (u : Util) (s : Service) (q : String) (nodes : List Node) (t : z.Tree)
      → IsBelow u s q nodes
      → (write_nodes z u s nodes t).0 ≡ none
      → l.at q (write_nodes z u s nodes t).1 ≡ written u s q nodes (l.at q t)
  unfolding write_nodes written
  write_nodes_lem u s q [] t h ok = refl
  write_nodes_lem u s q (node ∷ nodes) t h ok = elim (Option-cases (write_node z u s node t).0) [
    | inr (e, f) ↦ absurd (ground (arith, f, ok))
    | inl f ↦
        let v = (write_node z u s node t).1 in
        let one = write_node_lem u s node q t h.0 f in
        ground (
          arith,
          f,
          ap (λ o. written u s q nodes o) one,
          write_nodes_lem u s q nodes v h.1 (ground (arith, f, ok)),
        )
  ]

  -- A registration of a service whose hash is not the one that is stored under its name, if any is, and
  -- that returns no error leaves at every path that stands above
  -- no node of the service what the nodes in their order write there, each the service with that node
  -- alone, and at the paths of no node what was there. A second registration with the hash then succeeds
  -- without a call, whatever the tree has become.
  pub register-written :
      (u : Util) (s : Service) (q : String) (h : ℕ) (r : Registry z) (later : z.Tree)
      → u.hash s ≡ some h
      → stores s.name h r ≡ false
      → IsBelow u s q s.nodes
      → (register z u s r).0 ≡ none
      → (l.at q (register z u s r).1.tree ≡ written u s q s.nodes (l.at q r.tree))
        × (register z u s (record (register z u s r).1 { tree = later })
            ≡ (none, record (register z u s r).1 { tree = later }))
  unfolding register
  register-written u s q h r later e new below ok = elim (List-cases s.nodes) [
    | inl n ↦ absurd (ground (arith, n, ok))
    | inr (node, nodes, n) ↦ elim (Option-cases (write_nodes z u s (node ∷ nodes) r.tree).0) [
      | inr (f, w) ↦ absurd (ground (arith, n, e, new, w, ok))
      | inl w ↦ (
        ground (
          arith,
          n,
          e,
          new,
          w,
          write_nodes_lem u s q (node ∷ nodes) r.tree (subst (IsBelow u s q) n below) w,
          ap (λ ns. written u s q ns (l.at q r.tree)) n,
        ),
        ground (arith, n, e, new, w, lookup-insert_self s.name h r.registered, nat_beq_iff h h),
      )
    ]
  ]
