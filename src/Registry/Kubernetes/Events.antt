-- ===== src/Registry/Kubernetes/Events.antt =====
-- Proofs about registry/kubernetes/watcher.go: what an event sends and caches, and the pods that
-- `updateCache` leaves.
use go_plugins.Prelude.{
  String, ◌≡◌, refl, ap, ◌∙◌, Bool, true, false, ◌||◌, List, [], ◌∷◌, ◌++◌, Option, none, some,
  ◌==◌, string_eq, nat_eq, if◌then◌else◌, any, any-append, map, arith, append-nil,
}
use go_plugins.Prelude.Dict.{lookup, insert, remove, lookup-insert, lookup-remove}
use go_plugins.Registry.{Service}
use go_plugins.Registry.Kubernetes.Pods.{Ref, Strings, Meta, Pod, Json, is_service_key}
use go_plugins.Registry.Kubernetes.Watch.{
  delete, Result, annotations, present, ignored, absent, build_pod_results, loop_variable, own,
  Watcher, cached, update_cache, modified, deleted, all_deleted, modify, drop_pod, handle_event,
}
use go_plugins.Registry.Kubernetes.Changes.{
  In, In-append_right, HasNoNil, gone, absent_lem, In-gone, readable, news_of, present_lem,
  IsFresh-nil,
}

abbrev pub pod_of : Meta → String → Pod
pod_of m ph = record { meta = some m; phase = some ph }

abbrev pub delete_of : Option Service → Result
delete_of s = record { action = delete; service = s }

abbrev pub deletes_of : List (String × Option Service) → List Result
deletes_of ks = map (λ (x : String × Option Service). delete_of x.1) ks

all_deleted_lem :
    (ks : List (String × Option Service)) → all_deleted (map (news_of []) ks) ≡ deletes_of ks
all_deleted_lem [] = refl
all_deleted_lem (k ∷ ks) = cc (all_deleted_lem ks)

deletes_lem :
    (j : Json) (ann : Strings) → all_deleted (present j ann [] ++ []) ≡ deletes_of (readable j ann)
deletes_lem j ann =
    ap all_deleted (append-nil (present j ann []) ∙ present_lem j ann [] (IsFresh-nil ann))
    ∙ all_deleted_lem (readable j ann)

-- The deletion of a pod sends a delete for every service that its annotations hold, and takes the pod, and
-- no other, out of the cache; and the same deletes are sent for a pod that is modified and does not run.
pub deleted_lem :
    (j : Json) (m : Meta) (ph : String) (w : Watcher)
    → (ph == "Running") ≡ false
    → let deletes = deletes_of (readable j m.annotations) in
      ((w' : Watcher) × (handle_event j deleted (some (pod_of m ph)) w ≡ some w')
        × (w'.sent ≡ w.sent ++ deletes)
        × ((k : String) → cached k w' ≡ (if m.name == k then none else cached k w)))
      × ((w' : Watcher) × (handle_event j modified (some (pod_of m ph)) w ≡ some w')
          × (w'.sent ≡ w.sent ++ deletes))
unfolding handle_event drop_pod modify build_pod_results absent
deleted_lem j m ph w h =
    let sent = w.sent ++ all_deleted (present j m.annotations [] ++ []) in
    let deletes = ap (λ x. w.sent ++ x) (deletes_lem j m.annotations) in
    (
      (
        record w { sent = sent; pods = remove m.name w.pods },
        refl,
        deletes,
        λ k. ground (arith, lookup-remove m.name k w.pods),
      ),
      (
        record w { sent = sent; pods = insert m.name (own (pod_of m ph)) w.pods },
        ground (arith, h),
        deletes,
      ),
    )

-- The pods of `updateCache`, by their metadata.
abbrev pub pods_of : String → List Meta → List Pod
pods_of ph ms = map (λ m. pod_of m ph) ms

abbrev pub named : String → List Meta → Bool
named k ms = any (λ (m : Meta). m.name == k) ms

update_cache-looped :
    (j : Json) (ph : String) (ms : List Meta) (last : Meta) (w : Watcher)
    → (rs : List Result) × (w' : Watcher) × (update_cache j (pods_of ph ms ++ pod_of last ph ∷ []) w
        ≡ some (rs, w'))
      × (w'.sent ≡ w.sent)
      × (w'.loop_pod ≡ some (pod_of last ph))
      × ((k : String)
          → lookup k w'.pods
            ≡ (if named k ms || last.name == k then some loop_variable else lookup k w.pods))
unfolding update_cache build_pod_results absent
update_cache-looped j ph [] last w = (
  present j last.annotations [] ++ [] ++ [],
  record w { loop_pod = some (pod_of last ph); pods = insert last.name loop_variable w.pods },
  refl,
  refl,
  refl,
  λ k. lookup-insert last.name k loop_variable w.pods,
)
update_cache-looped j ph (m ∷ ms) last w =
    let v : Watcher = record w {
      loop_pod = some (pod_of m ph);
      pods = insert m.name loop_variable w.pods;
    } in
    let (rs, w', s, sent, pod, rest) = update_cache-looped j ph ms last v in
    (
      present j m.annotations [] ++ [] ++ rs,
      w',
      ground (arith, s),
      sent,
      pod,
      λ k. ground (arith, rest k, lookup-insert m.name k loop_variable w.pods),
    )

-- After `updateCache` on pods that have metadata, all of them stand in the cache for the last one: the
-- loop stores the address of its variable.
pub update_cache-cached :
    (j : Json) (ph : String) (ms : List Meta) (last : Meta) (w : Watcher) (k : String)
    → named k (ms ++ last ∷ []) ≡ true
    → (rs : List Result) × (w' : Watcher) × (update_cache j (pods_of ph ms ++ pod_of last ph ∷ []) w
        ≡ some (rs, w'))
      × (cached k w' ≡ some (pod_of last ph))
update_cache-cached j ph ms last w k h =
    let (rs, w', s, sent, pod, rest) = update_cache-looped j ph ms last w in
    (
      rs,
      w',
      s,
      ground (arith, rest k, pod, h, any-append (λ (m : Meta). m.name == k) ms (last ∷ [])),
    )

-- So the first event of a running pod that has the name of one of these makes the watcher send a delete
-- for each service of the last pod whose key this pod does not have, if no service annotation of the last
-- pod is nil.
pub first_event_deletes :
    (j : Json) (ms : List Meta) (m last : Meta) (w : Watcher) (key : String) (r : Ref)
    (s : Option Service)
    → named m.name (ms ++ last ∷ []) ≡ true
    → HasNoNil last.annotations
    → is_service_key key ≡ true
    → ignored key m.annotations ≡ false
    → lookup key last.annotations ≡ some (some r)
    → j.unmarshal r.text ≡ some s
    → (rs : List Result) × (v w' : Watcher) × (update_cache j
          (pods_of "Running" ms ++ pod_of last "Running" ∷ [])
          w
        ≡ some (rs, v))
      × (handle_event j modified (some (pod_of m "Running")) v ≡ some w')
      × In (delete_of s) w'.sent
unfolding handle_event modify build_pod_results
first_event_deletes j ms m last w key r s at nonil k new l u =
    let (rs, v, c, stands) = update_cache-cached j "Running" ms last w m.name at in
    let news = present j m.annotations last.annotations in
    (
      rs,
      v,
      record v {
        sent = v.sent ++ (news ++ gone j m.annotations last.annotations);
        pods = insert m.name (own (pod_of m "Running")) v.pods;
      },
      c,
      ground (arith, stands, absent_lem j m.annotations last.annotations nonil),
      In-append_right (delete_of s) v.sent _ (
          In-append_right (delete_of s) news _
            (In-gone j m.annotations last.annotations key r s k new l u)),
    )
