-- ===== src/Registry/Zookeeper/Found.antt =====
-- Proofs about registry/zookeeper: what GetService finds.
use go_plugins.Prelude.{
  String, ◌≡◌, refl, sym, ap, ◌∙◌, true, false, List, [], ◌∷◌, ◌++◌, append_assoc, append-nil,
  Option, none, some, ◌==◌, string_eq, if◌then◌else◌, arith, Option-cases, Bool-cases, inl, inr,
  eq_iff,
}
use go_plugins.Prelude.Outcome.{Outcome, ok, err, Outcome-cases}
use go_plugins.Prelude.Dict.{Dict, lookup, lookup-insert, lookup-nil}
use go_plugins.Registry.{Node, Service}
use go_plugins.Registry.Zookeeper.{Util, node_path}
use go_plugins.Registry.Zookeeper.Query.{
  Reader, Unread, client_failed, decode_failed, panics, leaf, add_service, collect, get_service,
}

-- What stands at a path: no service above other paths, else the one that its text holds.
abbrev pub service_at : Reader → String → Outcome Unread (List Service)
service_at r path = elim (r.children path) [
  | none ↦ err client_failed
  | some (c ∷ cs) ↦ ok []
  | some [] ↦ elim (r.get path) [
    | none ↦ err client_failed
    | some b ↦ elim (r.decode b) [
      | none ↦ err decode_failed
      | some none ↦ err panics
      | some (some s) ↦ ok (s ∷ [])
    ]
  ]
]

-- What the children of a service hold, in order, or the first error.
abbrev pub held : Reader → Util → String → List String → Outcome Unread (List Service)
held r u name [] = ok []
held r u name (n ∷ ns) =
    let rest = held r u name ns in
    elim (service_at r (node_path u name n)) [
      | err e ↦ err e
      | ok here ↦ elim rest [ err e ↦ err e | ok ss ↦ ok (here ++ ss) ]
    ]

-- What a service holds, by its children, if these can be listed.
abbrev pub held_by : Reader → Util → String → Outcome Unread (List Service)
held_by r u name = elim (r.children (r.service_path name)) [
  | none ↦ err client_failed
  | some ns ↦ held r u name ns
]

abbrev listed : Option Service → List Service
listed none = []
listed (some s) = s ∷ []

service_at-leaf :
    (r : Reader) (path : String)
    → service_at r path ≡ (elim (leaf r path) [ err e ↦ err e | ok o ↦ ok (listed o) ])
unfolding leaf
service_at-leaf r path = elim (Option-cases (r.children path)) [
  | inl c ↦ rw (service_at, leaf, c) refl
  | inr (x ∷ cs, c) ↦ rw (service_at, leaf, c) refl
  | inr ([], c) ↦ elim (Option-cases (r.get path)) [
    | inl g ↦ rw (service_at, leaf, c, g) refl
    | inr (b, g) ↦ elim (Option-cases (r.decode b)) [
      | inl d ↦ rw (service_at, leaf, c, g, d) refl
      | inr (none, d) ↦ rw (service_at, leaf, c, g, d) refl
      | inr (some s, d) ↦ rw (service_at, leaf, c, g, d) refl
    ]
  ]
]

-- Of a list of services, the first of a version, and the nodes of all of it.
abbrev pub first_of : String → List Service → Option Service
first_of v [] = none
first_of v (s ∷ ss) = let rest = first_of v ss in if s.version == v then some s else rest

abbrev pub nodes_of : String → List Service → List Node
nodes_of v [] = []
nodes_of v (s ∷ ss) = let rest = nodes_of v ss in if s.version == v then s.nodes ++ rest else rest

-- The service of a version: the first with the nodes of all.
abbrev pub merged : String → List Service → Option Service
merged v ss = elim (first_of v ss) [
  | none ↦ none
  | some s ↦ some (record s { nodes = nodes_of v ss })
]

abbrev add_all : List Service → Dict String Service → Dict String Service
add_all [] m = m
add_all (s ∷ ss) m = add_all ss (add_service s m)

-- Those of `ss` join what is there of the version.
abbrev joined : String → List Service → Option Service → Option Service
joined v ss none = merged v ss
joined v ss (some s) = some (record s { nodes = s.nodes ++ nodes_of v ss })

joined_nil : (v : String) (o : Option Service) → o ≡ joined v [] o
joined_nil v none = refl
joined_nil v (some s) = ap (λ ns. some (record s { nodes = ns })) (sym (append-nil s.nodes))

-- A service of another version does not matter, one of the version joins.
joined_other :
    (v : String) (s : Service) (ss : List Service) (o : Option Service)
    → (s.version == v) ≡ false
    → joined v ss o ≡ joined v (s ∷ ss) o
joined_other v s ss none e = ground arith
joined_other v s ss (some old) e = ground arith

joined_same :
    (v : String) (s : Service) (ss : List Service) (o : Option Service)
    → (s.version == v) ≡ true
    → joined v ss
        (elim o [ none ↦ some s | some old ↦ some (record old { nodes = old.nodes ++ s.nodes }) ])
      ≡ joined v (s ∷ ss) o
joined_same v s ss none e = ground arith
joined_same v s ss (some old) e =
    rw e
      (ap (λ ns. some (record old { nodes = ns })) (append_assoc old.nodes s.nodes (nodes_of v ss)))

lookup-added :
    (v : String) (s : Service) (m : Dict String Service)
    → lookup v (add_service s m) ≡ (
        if s.version == v
        then (elim (lookup v m) [
          | none ↦ some s
          | some old ↦ some (record old { nodes = old.nodes ++ s.nodes })
        ])
        else lookup v m)
unfolding add_service
lookup-added v s m = elim (Option-cases (lookup s.version m)) [
  | inl e ↦ ground (arith, lookup-insert s.version v s m, eq_iff s.version v)
  | inr (old, e) ↦ ground (
    arith,
    lookup-insert s.version v (record old { nodes = old.nodes ++ s.nodes }) m,
    eq_iff s.version v,
  )
]

lookup-add_service :
    (v : String) (s : Service) (ss : List Service) (m : Dict String Service)
    → joined v ss (lookup v (add_service s m)) ≡ joined v (s ∷ ss) (lookup v m)
lookup-add_service v s ss m = elim (Bool-cases (s.version == v)) [
  | inl e ↦ ap (joined v ss) (lookup-added v s m ∙ rw e refl) ∙ joined_same v s ss (lookup v m) e
  | inr e ↦ ap (joined v ss) (lookup-added v s m ∙ rw e refl) ∙ joined_other v s ss (lookup v m) e
]

lookup-add_all :
    (v : String) (ss : List Service) (m : Dict String Service)
    → lookup v (add_all ss m) ≡ joined v ss (lookup v m)
lookup-add_all v [] m = joined_nil v (lookup v m)
lookup-add_all v (s ∷ ss) m = lookup-add_all v ss (add_service s m) ∙ lookup-add_service v s ss m

-- The loop reads what the children hold, and adds it up.
abbrev totals :
    Outcome Unread (List Service) → Dict String Service → Outcome Unread (Dict String Service)
totals (err e) m = err e
totals (ok ss) m = ok (add_all ss m)

collect_lem :
    (r : Reader) (u : Util) (name : String) (ns : List String) (m : Dict String Service)
    → collect r u name ns m ≡ totals (held r u name ns) m
unfolding collect
collect_lem r u name [] m = refl
collect_lem r u name (n ∷ ns) m = elim (Outcome-cases (leaf r (node_path u name n))) [
  | inr (e, x) ↦ rw (collect, held, service_at-leaf r (node_path u name n), x) refl
  | inl (none, x) ↦ elim (Outcome-cases (held r u name ns)) [
    | inl (ss, y) ↦
        rw (collect, held, service_at-leaf r (node_path u name n), x, y)
          (collect_lem r u name ns m ∙ ap (λ h. totals h m) y)
    | inr (e, y) ↦
        rw (collect, held, service_at-leaf r (node_path u name n), x, y)
          (collect_lem r u name ns m ∙ ap (λ h. totals h m) y)
  ]
  | inl (some s, x) ↦ elim (Outcome-cases (held r u name ns)) [
    | inl (ss, y) ↦
        rw (collect, held, service_at-leaf r (node_path u name n), x, y)
          (collect_lem r u name ns (add_service s m) ∙ ap (λ h. totals h (add_service s m)) y)
    | inr (e, y) ↦
        rw (collect, held, service_at-leaf r (node_path u name n), x, y)
          (collect_lem r u name ns (add_service s m) ∙ ap (λ h. totals h (add_service s m)) y)
  ]
]

-- The answer for what is held: the service of a version, or the error.
abbrev pub Answers :
    String → Outcome Unread (List Service) → Outcome Unread (Dict String Service) → Type 0
Answers v (err e) o = o ≡ err e
Answers v (ok ss) o = (m : Dict String Service) × (o ≡ ok m) × (lookup v m ≡ merged v ss)

collected :
    (r : Reader) (u : Util) (name v : String) (ns : List String)
    → Answers v (held r u name ns) (collect r u name ns [])
collected r u name v ns = elim (Outcome-cases (held r u name ns)) [
  | inr (e, x) ↦ rw x (collect_lem r u name ns [] ∙ ap (λ o. totals o []) x)
  | inl (ss, x) ↦ rw x (
    add_all ss [],
    collect_lem r u name ns [] ∙ ap (λ o. totals o []) x,
    lookup-add_all v ss [] ∙ ap (joined v ss) (lookup-nil v),
  )
]

by_children :
    (r : Reader) (u : Util) (name v : String) (o : Option (List String))
    → Answers v
        (elim o [ none ↦ err client_failed | some ns ↦ held r u name ns ])
        (elim o [ none ↦ err client_failed | some ns ↦ collect r u name ns [] ])
by_children r u name v none = refl
by_children r u name v (some ns) = collected r u name v ns

-- `GetService` answers, if the children of a service can be listed and those of them that have no children
-- hold services that can be read, one service for each version that these have: the first of the version,
-- in the order of the children, with the nodes of all of it, in order. Otherwise it answers the first
-- error, that of the listing where this fails; a nil service stands for a panic.
pub get_service_lem :
    (r : Reader) (u : Util) (name v : String) → Answers v (held_by r u name) (get_service r u name)
unfolding get_service
get_service_lem r u name v = by_children r u name v (r.children (r.service_path name))
