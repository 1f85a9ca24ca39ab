-- ===== src/Registry/Consul/Listed.antt =====
-- Proofs about registry/consul/watcher.go: what the handler of the listed services leaves.
use go_plugins.Prelude.{
  String, ◌≡◌, refl, ap, Bool, ◌&&◌, ◌||◌, List, [], ◌∷◌, ◌++◌, none, ◌==◌, string_eq, nat_eq,
  if◌then◌else◌, keep, arith, Bool-cases, inl, inr, eq_iff, any-append,
}
use go_plugins.Prelude.Dict.{Dict, lookup}
use go_plugins.Registry.Consul.Find.{Found}
use go_plugins.Registry.Consul.Watch.{
  create, named, Watcher, mem, add_watchers, still_listed, handle,
}

mem-keep :
    (s : String) (ss xs : List String) → mem s (keep (λ x. mem x ss) xs) ≡ (mem s xs && mem s ss)
mem-keep s ss [] = refl
mem-keep s ss (x ∷ xs) = elim (Bool-cases (x == s)) [
  | inl h ↦ ground (arith, h, mem-keep s ss xs, ap (λ t. mem t ss) ((eq_iff x s).0 h))
  | inr h ↦ ground (arith, h, mem-keep s ss xs)
]

lookup-still_listed :
    (s : String) (ss : List String) (m : Dict String (List Found))
    → lookup s (still_listed ss m) ≡ (if mem s ss then lookup s m else none)
unfolding lookup still_listed
lookup-still_listed s ss [] = ground arith
lookup-still_listed s ss ((k, v) ∷ m) = elim (Bool-cases (k == s)) [
  | inl h ↦ ground (arith, h, lookup-still_listed s ss m, ap (λ t. mem t ss) ((eq_iff k s).0 h))
  | inr h ↦ ground (arith, h, lookup-still_listed s ss m)
]

-- Whether a watch for the service can be started.
abbrev watchable : (String → Bool) → String → Watcher → Bool
watchable parses s w = (w.wanted == "" || s == w.wanted) && parses s

mem-add_watchers :
    (parses : String → Bool) (s : String) (ss : List String) (w : Watcher)
    → mem s (add_watchers parses ss w).watchers
      ≡ (mem s w.watchers || (mem s ss && watchable parses s w))
unfolding add_watchers
mem-add_watchers parses s [] w = ground arith
mem-add_watchers parses s (x ∷ ss) w =
    let v = record w {
      watchers = w.watchers ++ x ∷ [];
      sent = w.sent ++ record { action = create; service = named x } ∷ [];
    } in
    elim (Bool-cases (x == s)) [
      | inl h ↦ ground (
        arith,
        h,
        mem-add_watchers parses s ss w,
        mem-add_watchers parses s ss v,
        any-append (λ y. y == s) w.watchers (x ∷ []),
        ap (λ t. mem t w.watchers) ((eq_iff x s).0 h),
        ap parses ((eq_iff x s).0 h),
        (eq_iff x s).0 h,
      )
      | inr h ↦ ground (
        arith,
        h,
        mem-add_watchers parses s ss w,
        mem-add_watchers parses s ss v,
        any-append (λ y. y == s) w.watchers (x ∷ []),
      )
    ]

add_watchers-services :
    (parses : String → Bool) (ss : List String) (w : Watcher)
    → (add_watchers parses ss w).services ≡ w.services
unfolding add_watchers
add_watchers-services parses [] w = refl
add_watchers-services parses (x ∷ ss) w =
    let v = record w {
      watchers = w.watchers ++ x ∷ [];
      sent = w.sent ++ record { action = create; service = named x } ∷ [];
    } in
    ground (arith, add_watchers-services parses ss w, add_watchers-services parses ss v)

-- After `handle` there is a watch for exactly the listed services that had one, or whose watch can be
-- started and which the watcher's option admits; and the cache has lost the services that are no longer
-- listed, and nothing else.
pub handle_lem :
    (parses : String → Bool) (ss : List String) (w : Watcher) (s : String)
    → (mem s (handle parses ss w).watchers
        ≡ (mem s ss && (mem s w.watchers || ((w.wanted == "" || s == w.wanted) && parses s))))
      × (lookup s (handle parses ss w).services ≡ (if mem s ss then lookup s w.services else none))
unfolding handle
handle_lem parses ss w s =
    let v = add_watchers parses ss w in
    (
      ground (arith, mem-keep s ss v.watchers, mem-add_watchers parses s ss w),
      ground (arith, lookup-still_listed s ss v.services, add_watchers-services parses ss w),
    )
