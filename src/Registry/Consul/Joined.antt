-- ===== src/Registry/Consul/Joined.antt =====
-- Proofs about the loop of `GetService` of registry/consul/consul.go over the entries of the agent.
use go_plugins.Prelude.{
  String, ◌≡◌, refl, sym, ap, subst, ◌∙◌, Option, true, false, not, ◌&&◌, List, [], ◌∷◌, ◌++◌, none,
  some, ◌==◌, string_eq, nat_eq, if◌then◌else◌, or_else, All, arith, append-nil, append_assoc,
  Option-cases, Bool-cases, inl, inr, eq_iff, is_some,
}
use go_plugins.Prelude.Dict.{Dict, lookup, insert, lookup-insert, lookup-insert_self}
use go_plugins.Registry.{Node}
use go_plugins.Registry.Consul.Tags.{decode_endpoints, decode_metadata}
use go_plugins.Registry.Consul.Agent.{Net}
use go_plugins.Registry.Consul.Find.{
  Entry, Found, is_critical, version_of, node_of, service_of, with_node, add_entry, add_entries,
}

-- Keys stand once, as in every map of Go.
abbrev pub HasOwnKeys : Dict String Found → Type 0
HasOwnKeys [] = Unit {0}
HasOwnKeys ((k, v) ∷ m) = All (λ (kv : String × Found). (kv.0 == k) ≡ false) m × HasOwnKeys m

insert_other :
    (j k : String) (x : Found) (m : Dict String Found)
    → (j == k) ≡ false
    → All (λ (kv : String × Found). (kv.0 == k) ≡ false) m
    → All (λ (kv : String × Found). (kv.0 == k) ≡ false) (insert j x m)
unfolding insert
insert_other j k x [] h a = (h, tt)
insert_other j k x ((i, y) ∷ m) h a = elim (Bool-cases (i == j)) [
  | inl e ↦ rw e a
  | inr e ↦ rw e (a.0, insert_other j k x m h a.1)
]

insert-HasOwnKeys :
    (j : String) (x : Found) (m : Dict String Found) → HasOwnKeys m → HasOwnKeys (insert j x m)
unfolding insert
insert-HasOwnKeys j x [] h = (tt, tt)
insert-HasOwnKeys j x ((i, y) ∷ m) h = elim (Bool-cases (i == j)) [
  | inl e ↦ rw e h
  | inr e ↦ rw e (
    insert_other j i x m (ground (arith, e, eq_iff i j, eq_iff j i)) h.0,
    insert-HasOwnKeys j x m h.1,
  )
]

module _ (n : Net) where
  -- The tags of the entry make no decoding panic.
  abbrev pub IsReadable : Entry → Type 0
  IsReadable e =
      (is_some (decode_endpoints n.codec e.tags) ≡ true)
      × (is_some (decode_metadata n.codec e.tags) ≡ true)

  -- The node of one entry, if it is of the version and not critical.
  abbrev listed : String → Entry → List Node
  listed v e =
      if version_of n e == v && not (is_critical e)
      then node_of n e (or_else (decode_metadata n.codec e.tags) []) ∷ []
      else []

  -- The nodes of the entries of a name and a version, in their order, without the critical ones.
  unfoldable pub live_nodes : String → String → List Entry → List Node
  live_nodes name v [] = []
  live_nodes name v (e ∷ es) =
      let rest = live_nodes name v es in if e.service == name then listed v e ++ rest else rest

  -- The first entry of a name and a version, critical or not.
  unfoldable pub first_entry : String → String → List Entry → Option Entry
  first_entry name v [] = none
  first_entry name v (e ∷ es) =
      let rest = first_entry name v es in
      if e.service == name && version_of n e == v then some e else rest

  -- The service of a version: its endpoints are those of the first entry, its nodes those of all.
  abbrev pub listed_service : String → String → List Entry → Option Found
  listed_service name v es = elim (first_entry name v es) [
    | none ↦ none
    | some e ↦ some (record {
      name = name;
      version = v;
      endpoints = or_else (decode_endpoints n.codec e.tags) [];
      nodes = live_nodes name v es;
    })
  ]

  -- The entries join what is there of the version.
  abbrev joined : String → String → List Entry → Option Found → Option Found
  joined name v es none = listed_service name v es
  joined name v es (some old) = some (record old { nodes = old.nodes ++ live_nodes name v es })

  abbrev joined_one : String → Entry → Option Found → Option Found
  joined_one v e none =
      if version_of n e == v
      then some (record {
        name = e.service;
        version = v;
        endpoints = or_else (decode_endpoints n.codec e.tags) [];
        nodes = listed v e;
      })
      else none
  joined_one v e (some old) = some (record old { nodes = old.nodes ++ listed v e })

  joined_nil : (name v : String) (o : Option Found) → o ≡ joined name v [] o
  unfolding live_nodes first_entry
  joined_nil name v none = refl
  joined_nil name v (some old) =
      ap (λ ns. some (record old { nodes = ns })) (sym (append-nil old.nodes))

  joined_cons :
      (name v : String) (e : Entry) (es : List Entry) (o : Option Found)
      → (e.service == name) ≡ true
      → joined name v es (joined_one v e o) ≡ joined name v (e ∷ es) o
  unfolding live_nodes first_entry
  joined_cons name v e es none h = ground (arith, eq_iff e.service name)
  joined_cons name v e es (some old) h = rw h (
      ap (λ ns. some (record old { nodes = ns }))
        (append_assoc old.nodes (listed v e) (live_nodes name v es)))

  joined_skip :
      (name v : String) (e : Entry) (es : List Entry) (o : Option Found)
      → (e.service == name) ≡ false
      → joined name v es o ≡ joined name v (e ∷ es) o
  unfolding live_nodes first_entry
  joined_skip name v e es none h = ground arith
  joined_skip name v e es (some old) h = ground arith

  -- The service that an entry begins.
  abbrev begun : Entry → Found
  begun e = record {
    name = e.service;
    version = version_of n e;
    endpoints = or_else (decode_endpoints n.codec e.tags) [];
    nodes = [];
  }

  service_of_lem :
      (e : Entry) (m : Dict String Found)
      → IsReadable e
      → service_of n e m ≡ some (or_else (lookup (version_of n e) m) (begun e))
  unfolding service_of
  service_of_lem e m r = elim (Option-cases (lookup (version_of n e) m)) [
    | inr (svc, h) ↦ ground (arith, h)
    | inl h ↦ elim (Option-cases (decode_endpoints n.codec e.tags)) [
      | inl d ↦ absurd (ground (arith, r.0))
      | inr (en, d) ↦ ground (arith, h, d)
    ]
  ]

  abbrev joined_node : Entry → Found → Found
  joined_node e svc = record svc { nodes = svc.nodes ++ listed (version_of n e) e }

  with_node_lem :
      (e : Entry) (svc : Found) → IsReadable e → with_node n e svc ≡ some (joined_node e svc)
  unfolding with_node
  with_node_lem e svc r = elim (Bool-cases (is_critical e)) [
    | inl c ↦ ground (arith, c, append-nil svc.nodes)
    | inr c ↦ elim (Option-cases (decode_metadata n.codec e.tags)) [
      | inl d ↦ absurd (ground (arith, r.1))
      | inr (md, d) ↦ ground (arith, c, d, eq_iff (version_of n e) (version_of n e))
    ]
  ]

  joined_one_other :
      (v : String) (e : Entry) (o : Option Found)
      → (version_of n e == v) ≡ false
      → o ≡ joined_one v e o
  joined_one_other v e none h = rw h refl
  joined_one_other v e (some old) h =
      rw h (ap (λ ns. some (record old { nodes = ns })) (sym (append-nil old.nodes)))

  joined_one_same :
      (e : Entry) (o : Option Found)
      → some (joined_node e (or_else o (begun e))) ≡ joined_one (version_of n e) e o
  joined_one_same e none = ground (arith, eq_iff (version_of n e) (version_of n e))
  joined_one_same e (some old) = refl

  lookup-joined :
      (v : String) (e : Entry) (m : Dict String Found)
      → lookup v (
          insert (version_of n e) (joined_node e (or_else (lookup (version_of n e) m) (begun e))) m)
        ≡ joined_one v e (lookup v m)
  lookup-joined v e m =
      let new = joined_node e (or_else (lookup (version_of n e) m) (begun e)) in
      elim (Bool-cases (version_of n e == v)) [
        | inr h ↦
            lookup-insert (version_of n e) v new m ∙ rw h (joined_one_other v e (lookup v m) h)
        | inl h ↦
            subst (λ k. lookup k (insert (version_of n e) new m) ≡ joined_one k e (lookup k m))
              ((eq_iff (version_of n e) v).0 h)
              (lookup-insert_self (version_of n e) new m
                ∙ joined_one_same e (lookup (version_of n e) m))
      ]

  add_entry_lem :
      (e : Entry) (m : Dict String Found)
      → IsReadable e
      → (m' : Dict String Found) × (add_entry n e m ≡ some m')
        × ((v : String) → lookup v m' ≡ joined_one v e (lookup v m))
        × (HasOwnKeys m → HasOwnKeys m')
  unfolding add_entry
  add_entry_lem e m r =
      let new = joined_node e (or_else (lookup (version_of n e) m) (begun e)) in
      (
        insert (version_of n e) new m,
        ground (
          arith,
          service_of_lem e m r,
          with_node_lem e (or_else (lookup (version_of n e) m) (begun e)) r,
        ),
        λ v. lookup-joined v e m,
        insert-HasOwnKeys (version_of n e) new m,
      )

  -- What the loop leaves in the map under each version.
  pub add_entries_lem :
      (name : String) (es : List Entry) (m : Dict String Found)
      → All IsReadable es
      → (m' : Dict String Found) × (add_entries n name es m ≡ some m')
        × ((v : String) → lookup v m' ≡ joined name v es (lookup v m))
        × (HasOwnKeys m → HasOwnKeys m')
  unfolding add_entries
  add_entries_lem name [] m r = (m, refl, λ v. joined_nil name v (lookup v m), λ h. h)
  add_entries_lem name (e ∷ es) m r = elim (Bool-cases (e.service == name)) [
    | inr h ↦
        let (m', s, rest, own) = add_entries_lem name es m r.1 in
        (m', ground (arith, h, s), λ v. rest v ∙ joined_skip name v e es (lookup v m) h, own)
    | inl h ↦
        let (m1, s1, first, own1) = add_entry_lem e m r.0 in
        let (m', s, rest, own) = add_entries_lem name es m1 r.1 in
        (
          m',
          ground (arith, h, s1, s),
          λ v. rest v ∙ ap (joined name v es) (first v) ∙ joined_cons name v e es (lookup v m) h,
          λ k. own (own1 k),
        )
  ]
