-- ===== src/Registry/Kubernetes/Annotations.antt =====
-- Proofs about registry/kubernetes/kubernetes.go: the names of annotations, and what `GetService` reads.
use Prim.Native.Char.{Char, code}
use Prim.Native.String.{◌++◌ as str_append}
use go_plugins.Prelude.{
  ℕ, String, ◌≡◌, refl, ap, ◌∙◌, true, List, [], ◌∷◌, ◌++◌, none, some, ◌==◌, string_eq, nat_eq,
  if◌then◌else◌, ltb, map, All, arith, Option-cases, Bool-cases, inl, inr, eq_iff, ◌⊎◌, append-nil,
  append_assoc,
}
use go_plugins.Prelude.Dict.{Dict, lookup, insert, lookup-insert}
use go_plugins.Registry.{Node, Service}
use go_plugins.Registry.Kubernetes.Pods.{
  ref, Meta, Pod, Json, valid, blanks, service_name, annotation_key, register, held, nothing,
  unreadable, panics, holds, merge, collect, get_service, services,
}

service_name-cons :
    (c : Char) (s : String)
    → service_name (String.◌∷◌ c s)
      ≡ (if valid (code c) then String.◌∷◌ c (service_name s) else blanks (code c) (service_name s))
unfolding service_name
service_name-cons c s = refl

-- Every character is one that a label takes.
abbrev pub IsLabel : String → Type 0
IsLabel String.[] = Unit {0}
IsLabel (String.◌∷◌ c s) = (valid (code c) ≡ true) × IsLabel s

blanks-IsLabel : (c : ℕ) (s : String) → IsLabel s → IsLabel (blanks c s)
blanks-IsLabel c s h = elim (Bool-cases (ltb c 128)) [
  | inl e ↦ rw e (refl, h)
  | inr e ↦ elim (Bool-cases (ltb c 2048)) [
    | inl f ↦ rw (e, f) (refl, (refl, h))
    | inr f ↦ elim (Bool-cases (ltb c 65536)) [
      | inl g ↦ rw (e, f, g) (refl, (refl, (refl, h)))
      | inr g ↦ rw (e, f, g) (refl, (refl, (refl, (refl, h))))
    ]
  ]
]

service_name-IsLabel : (s : String) → IsLabel (service_name s)
unfolding service_name
service_name-IsLabel String.[] = tt
service_name-IsLabel (String.◌∷◌ c s) = elim (Bool-cases (valid (code c))) [
  | inl e ↦ rw e (e, service_name-IsLabel s)
  | inr e ↦ rw e (blanks-IsLabel (code c) (service_name s) (service_name-IsLabel s))
]

service_name-fixed : (s : String) → IsLabel s → service_name s ≡ s
unfolding service_name
service_name-fixed String.[] h = refl
service_name-fixed (String.◌∷◌ c s) h = ground (arith, h.0, service_name-fixed s h.1)

-- `serviceName` gives a name of characters that a label takes, and leaves a name of them as it is; so a
-- second pass changes nothing.
pub service_name_lem :
    (s : String)
    → IsLabel (service_name s)
      × (IsLabel s → service_name s ≡ s)
      × (service_name (service_name s) ≡ service_name s)
service_name_lem s = (
  service_name-IsLabel s,
  service_name-fixed s,
  service_name-fixed (service_name s) (service_name-IsLabel s),
)

annotation_key_lem :
    (x y : String) → service_name x ≡ service_name y → annotation_key x ≡ annotation_key y
unfolding annotation_key
annotation_key_lem x y e = ap (λ z. str_append "micro.mu/service-" z) e

register_sent :
    (j : Json) (s : Service) (sent : Meta) (node : Node) (nodes : List Node) (b : String)
    → s.nodes ≡ node ∷ nodes
    → j.marshal s ≡ some b
    → (register j none s).1 ≡ some (record { meta = some sent; phase = none })
    → lookup (annotation_key s.name) sent.annotations ≡ some (some (ref b))
unfolding register lookup
register_sent j s sent node nodes b n w p =
    ground (arith, n, w, p, eq_iff (annotation_key s.name) (annotation_key s.name))

-- A service that `Register` wrote is found by `GetService` on its running pod, once the pod's annotation
-- is the one that was sent and if encoding/json reads it back. It is found under every name that
-- `serviceName` makes the same, also where that is not the service's own.
pub get_service-register :
    (j : Json) (s : Service) (name : String) (sent m : Meta) (node : Node) (nodes : List Node)
    (b : String)
    → s.nodes ≡ node ∷ nodes
    → j.marshal s ≡ some b
    → j.unmarshal b ≡ some (some s)
    → (register j none s).1 ≡ some (record { meta = some sent; phase = none })
    → lookup (annotation_key s.name) m.annotations ≡ lookup (annotation_key s.name) sent.annotations
    → service_name name ≡ service_name s.name
    → get_service j name none (record { meta = some m; phase = some "Running" } ∷ [])
      ≡ services (s ∷ [])
unfolding get_service collect held insert lookup
get_service-register j s name sent m node nodes b n w r p l same =
    let found : lookup (annotation_key name) m.annotations ≡ some (some (ref b)) =
      ap (λ k. lookup k m.annotations) (annotation_key_lem name s.name same)
      ∙ l
      ∙ register_sent j s sent node nodes b n w p in
    ground (arith, found, r)

-- The pod is passed over, or its service can be read.
abbrev pub IsReadable : Json → String → Pod → Type 0
IsReadable j name p = (held j name p ≡ nothing) ⊎ ((s : Service) × (held j name p ≡ holds s))

abbrev pub nodes_under : String → Dict String Service → List Node
nodes_under v m = elim (lookup v m) [ none ↦ [] | some svc ↦ svc.nodes ]

-- The nodes of the services of a version that the pods hold, in the order of the pods.
unfoldable pub held_nodes : Json → String → String → List Pod → List Node
held_nodes j name v [] = []
held_nodes j name v (p ∷ ps) =
    let rest = held_nodes j name v ps in
    elim (held j name p) [
      | nothing ↦ rest
      | unreadable ↦ rest
      | panics ↦ rest
      | holds s ↦ if s.version == v then s.nodes ++ rest else rest
    ]

merge_lem :
    (v : String) (s : Service) (m : Dict String Service)
    → nodes_under v (merge s m)
      ≡ (if s.version == v then nodes_under v m ++ s.nodes else nodes_under v m)
merge_lem v s m = elim (Option-cases (lookup s.version m)) [
  | inl e ↦
      ground (arith, e, lookup-insert s.version v s m, ap (λ x. lookup x m), eq_iff s.version v)
  | inr (vs, e) ↦ ground (
    arith,
    e,
    lookup-insert s.version v (record vs { nodes = vs.nodes ++ s.nodes }) m,
    eq_iff s.version v,
  )
]

collect_lem :
    (j : Json) (name : String) (ps : List Pod) (svcs : Dict String Service)
    → All (IsReadable j name) ps
    → (m : Dict String Service) × (collect j name ps svcs
        ≡ services (map (λ (kv : String × Service). kv.1) m))
      × ((v : String) → nodes_under v m ≡ nodes_under v svcs ++ held_nodes j name v ps)
unfolding collect held_nodes
collect_lem j name [] svcs h = (svcs, refl, λ v. ground (arith, append-nil (nodes_under v svcs)))
collect_lem j name (p ∷ ps) svcs h = elim h.0 [
  | inl e ↦
      let (m, c, rest) = collect_lem j name ps svcs h.1 in
      (m, ground (arith, e, c), λ v. ground (arith, e, rest v))
  | inr (s, e) ↦
      let (m, c, rest) = collect_lem j name ps (merge s svcs) h.1 in
      (
        m,
        ground (arith, e, c),
        λ v. ground (
          arith,
          e,
          rest v,
          merge_lem v s svcs,
          append_assoc (nodes_under v svcs) s.nodes (held_nodes j name v ps),
        ),
      )
]

-- If ListPods gives at least one pod, and every pod is passed over or has a readable service, `GetService`
-- returns one service for every key of a map, and under each version the map holds the nodes of the
-- services of that version that running pods hold, in the order of the pods.
pub get_service-held_nodes :
    (j : Json) (name : String) (p : Pod) (ps : List Pod)
    → All (IsReadable j name) (p ∷ ps)
    → (m : Dict String Service) × (get_service j name none (p ∷ ps)
        ≡ services (map (λ (kv : String × Service). kv.1) m))
      × ((v : String) → nodes_under v m ≡ held_nodes j name v (p ∷ ps))
unfolding get_service lookup
get_service-held_nodes j name p ps h =
    let (m, c, rest) = collect_lem j name (p ∷ ps) [] h in (m, c, rest)
