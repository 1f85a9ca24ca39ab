-- ===== src/Registry/Consul/Handlers.antt =====
-- Proofs about registry/consul/watcher.go: what the handler of a service leaves, and what it reports.
use go_plugins.Prelude.{
  ℕ, String, ◌≡◌, refl, subst, ◌∙◌, List, [], ◌∷◌, ◌++◌, Option, some, ◌==◌, string_eq, nat_eq,
  or_else, map, arith, Option-cases, Bool-cases, inl, inr, eq_iff,
}
use go_plugins.Prelude.Dict.{Dict, lookup, insert, lookup-insert, lookup-insert_self}
use go_plugins.Registry.Consul.Agent.{Net}
use go_plugins.Registry.Consul.Find.{
  Entry, Found, is_critical, version_of, service_of, with_node, add_entry,
}
use go_plugins.Registry.Consul.Tags.{decode_endpoints, decode_metadata}
use go_plugins.Registry.Consul.Watch.{
  Notice, Watcher, compare_all, missing_notices, watched, name_of, service_handler,
}
use go_plugins.Registry.Consul.Replay.{
  shows, replay, IsKeyed, shows-map, replay-compare_all, replay-missing_notices, replay-append,
}

IsKeyed-lookup :
    (v : String) (m : Dict String Found) (svc : Found)
    → IsKeyed m
    → lookup v m ≡ some svc
    → svc.version ≡ v
unfolding lookup
IsKeyed-lookup v [] svc h e = absurd (ground (arith, e))
IsKeyed-lookup v ((k, x) ∷ m) svc (at, fresh, rest) e = elim (Bool-cases (k == v)) [
  | inl h ↦ ground (arith, h, e, at, (eq_iff k v).0 h)
  | inr h ↦ IsKeyed-lookup v m svc rest (ground (arith, h, e))
]

insert-IsKeyed :
    (v : String) (svc : Found) (m : Dict String Found)
    → svc.version ≡ v
    → IsKeyed m
    → IsKeyed (insert v svc m)
unfolding insert lookup
insert-IsKeyed v svc [] at h = (at, refl, tt)
insert-IsKeyed v svc ((k, x) ∷ m) at (old, fresh, rest) = elim (Bool-cases (k == v)) [
  | inl e ↦ rw e (ground (arith, at, (eq_iff k v).0 e), fresh, rest)
  | inr e ↦ rw e (
    old,
    ground (arith, lookup-insert v k svc m, fresh, e, eq_iff k v, eq_iff v k),
    insert-IsKeyed v svc m at rest,
  )
]

service_of-version :
    (n : Net) (e : Entry) (m : Dict String Found) (svc : Found)
    → IsKeyed m
    → service_of n e m ≡ some svc
    → svc.version ≡ version_of n e
unfolding service_of
service_of-version n e m svc h s = elim (Option-cases (lookup (version_of n e) m)) [
  | inr (x, l) ↦ IsKeyed-lookup (version_of n e) m svc h (ground (arith, l, s))
  | inl l ↦ elim (Option-cases (decode_endpoints n.codec e.tags)) [
    | inl d ↦ absurd (ground (arith, l, d, s))
    | inr (en, d) ↦ ground (arith, l, d, s)
  ]
]

with_node-version :
    (n : Net) (e : Entry) (svc new : Found)
    → with_node n e svc ≡ some new
    → new.version ≡ svc.version
unfolding with_node
with_node-version n e svc new w = elim (Bool-cases (is_critical e)) [
  | inl c ↦ ground (arith, c, w)
  | inr c ↦ elim (Option-cases (decode_metadata n.codec e.tags)) [
    | inl d ↦ absurd (ground (arith, c, d, w))
    | inr (md, d) ↦ ground (arith, c, d, w)
  ]
]

add_entry-IsKeyed :
    (n : Net) (e : Entry) (m m' : Dict String Found)
    → IsKeyed m
    → add_entry n e m ≡ some m'
    → IsKeyed m'
unfolding add_entry
add_entry-IsKeyed n e m m' h a = elim (Option-cases (service_of n e m)) [
  | inl s ↦ absurd (ground (arith, s, a))
  | inr (svc, s) ↦ elim (Option-cases (with_node n e svc)) [
    | inl w ↦ absurd (ground (arith, s, w, a))
    | inr (new, w) ↦ subst IsKeyed (ground (arith, s, w, a)) (
        insert-IsKeyed (version_of n e) new m
          (with_node-version n e svc new w ∙ service_of-version n e m svc h s) h)
  ]
]

watched-IsKeyed :
    (n : Net) (join : String → ℕ → String) (es : List Entry) (m m' : Dict String Found)
    → IsKeyed m
    → watched n join es m ≡ some m'
    → IsKeyed m'
unfolding watched
watched-IsKeyed n join [] m m' h a = subst IsKeyed (ground (arith, a)) h
watched-IsKeyed n join (e ∷ es) m m' h a =
    elim (Option-cases (add_entry (record n { host_port = join }) e m)) [
      | inl s ↦ absurd (ground (arith, s, a))
      | inr (x, s) ↦
          watched-IsKeyed n join es x m'
            (add_entry-IsKeyed (record n { host_port = join }) e m x h s) (ground (arith, s, a))
    ]

-- What a watcher has cached of a name.
abbrev pub cached : String → Watcher → List Found
cached name w = or_else (lookup name w.services) []

replay-set :
    (copy : Found → Found) (olds : Option (List Found)) (m : Dict String Found) (v i : String)
    → ((s : Found) → (copy s).version ≡ s.version)
    → IsKeyed m
    → replay v i
        (compare_all copy olds m ++ missing_notices (or_else olds []) m)
        (shows v i (or_else olds []))
      ≡ shows v i (map (λ (kv : String × Found). kv.1) m)
replay-set copy olds m v i keeps keyed =
    let b = shows v i (or_else olds []) in
    ground (
      arith,
      replay-append v i (compare_all copy olds m) (missing_notices (or_else olds []) m) b,
      replay-compare_all copy keeps v i olds m b keyed,
      replay-missing_notices v i (or_else olds []) m (replay v i (compare_all copy olds m) b),
      shows-map v i m keyed,
    )

-- If copies keep their version and the handler does not panic, then what it sends takes a client that has
-- the nodes cached under the name of the entries to the nodes that are cached there afterwards.
pub replay-service_handler :
    (n : Net) (join : String → ℕ → String) (copy : Found → Found) (es : List Entry) (w w' : Watcher)
    (v i : String)
    → ((s : Found) → (copy s).version ≡ s.version)
    → service_handler n join copy es w ≡ some w'
    → let name = name_of "" es in
      (xs : List Notice) × (w'.sent ≡ w.sent ++ xs)
      × (replay v i xs (shows v i (cached name w)) ≡ shows v i (cached name w'))
unfolding service_handler
replay-service_handler n join copy es w w' v i keeps s =
    elim (Option-cases (watched n join es [])) [
      | inl e ↦ absurd (ground (arith, e, s))
      | inr (m, e) ↦
          let olds = lookup (name_of "" es) w.services in
          (
            compare_all copy olds m ++ missing_notices (or_else olds []) m,
            ground (arith, e, s),
            ground (
              arith,
              e,
              s,
              replay-set copy olds m v i keeps (watched-IsKeyed n join es [] m tt e),
              lookup-insert_self (name_of "" es) (map (λ (kv : String × Found). kv.1) m) w.services,
            ),
          )
    ]
