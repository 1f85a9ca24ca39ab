-- ===== src/Registry/Consul/Replay.antt =====
-- Proofs about registry/consul/watcher.go: a client that follows the results holds the nodes that Consul
-- lists.
use go_plugins.Prelude.{
  String, ◌≡◌, refl, sym, ap, subst, Bool, true, false, not, ◌&&◌, ◌||◌, List, [], ◌∷◌, ◌++◌,
  Option, none, some, ◌==◌, string_eq, nat_eq, if◌then◌else◌, or_else, any, map, keep, is_nil,
  is_some, arith, Bool-cases, inl, inr, eq_iff,
}
use go_plugins.Prelude.Dict.{Dict, lookup}
use go_plugins.Registry.{Node}
use go_plugins.Registry.Consul.Find.{Found}
use go_plugins.Registry.Consul.Watch.{
  create, update, delete, Notice, has_node, gone_notices, compare, compare_all, missing_notices,
}

-- Whether the services have a node of the id `i` under the version `v`.
abbrev pub shows : String → String → List Found → Bool
shows v i [] = false
shows v i (svc ∷ svcs) = (svc.version == v && has_node i svc.nodes) || shows v i svcs

-- What a client knows of that node, after the results: one that creates or updates shows the nodes of its
-- service, one that deletes hides them.
unfoldable pub replay : String → String → List Notice → Bool → Bool
replay v i [] b = b
replay v i (x ∷ xs) b =
    let here = x.service.version == v && has_node i x.service.nodes in
    replay v i xs
      (elim x.action [ create ↦ b || here | update ↦ b || here | delete ↦ b && not here ])

-- Each service stands once, under its version.
abbrev pub IsKeyed : Dict String Found → Type 0
IsKeyed [] = Unit {0}
IsKeyed ((k, svc) ∷ m) = (svc.version ≡ k) × (lookup k m ≡ none) × IsKeyed m

pub replay-append :
    (v i : String) (xs ys : List Notice) (b : Bool)
    → replay v i (xs ++ ys) b ≡ replay v i ys (replay v i xs b)
unfolding replay
replay-append v i [] ys b = refl
replay-append v i (x ∷ xs) ys b = replay-append v i xs ys _

has_node-keep :
    (i : String) (nodes new : List Node)
    → has_node i (keep (λ (x : Node). not (has_node x.id new)) nodes)
      ≡ (has_node i nodes && not (has_node i new))
has_node-keep i [] new = refl
has_node-keep i (x ∷ nodes) new = elim (Bool-cases (x.id == i)) [
  | inl h ↦ ground (
    arith,
    h,
    has_node-keep i nodes new,
    eq_iff x.id i,
    ap (λ t. has_node t new) ((eq_iff x.id i).0 h),
  )
  | inr h ↦ ground (arith, h, has_node-keep i nodes new)
]

-- What the new set shows of the node, if it has the version.
abbrev pub shown : String → Option Found → Bool → Bool
shown i none b = b
shown i (some new) b = has_node i new.nodes

has_node-is_nil : (i : String) (nodes : List Node) → is_nil nodes ≡ true → has_node i nodes ≡ false
has_node-is_nil i [] h = refl
has_node-is_nil i (x ∷ nodes) h = absurd (ground (arith, h))

pub shows-map :
    (v i : String) (m : Dict String Found)
    → IsKeyed m
    → shows v i (map (λ (kv : String × Found). kv.1) m) ≡ shown i (lookup v m) false
unfolding lookup
shows-map v i [] h = refl
shows-map v i ((k, svc) ∷ m) (at, fresh, rest) = elim (Bool-cases (k == v)) [
  | inl e ↦ ground (
    arith,
    e,
    shows-map v i m rest,
    subst (λ x. (x == v) ≡ true) (sym at) e,
    subst (λ x. lookup x m ≡ none) ((eq_iff k v).0 e) fresh,
  )
  | inr e ↦ ground (arith, e, shows-map v i m rest, subst (λ x. (x == v) ≡ false) (sym at) e)
]

-- Any copy of a service that keeps its version.
module _ (copy : Found → Found) (keeps : (s : Found) → (copy s).version ≡ s.version) where
  replay-gone_notices :
      (v i : String) (olds : List Found) (new : Found) (b : Bool)
      → replay v i (gone_notices copy olds new) b
        ≡ (if new.version == v then b && not (shows v i olds && not (has_node i new.nodes)) else b)
  unfolding replay gone_notices
  replay-gone_notices v i [] new b = ground arith
  replay-gone_notices v i (old ∷ olds) new b =
      let gone = keep (λ (x : Node). not (has_node x.id new.nodes)) old.nodes in
      elim (Bool-cases (old.version == new.version)) [
        | inr h ↦ ground (
          arith,
          h,
          replay-gone_notices v i olds new b,
          eq_iff old.version new.version,
          eq_iff old.version v,
          eq_iff new.version v,
        )
        | inl h ↦ ground (
          arith,
          h,
          keeps old,
          (eq_iff old.version new.version).0 h,
          has_node-keep i old.nodes new.nodes,
          has_node-is_nil i gone,
          replay-gone_notices v i olds new b,
          replay-gone_notices v i olds new (b && not (old.version == v && has_node i gone)),
        )
      ]

  replay-compare :
      (v i : String) (olds : Option (List Found)) (new : Found) (b : Bool)
      → replay v i (compare copy olds new) b ≡ (
          if new.version == v
          then has_node i new.nodes || (b && not (shows v i (or_else olds [])))
          else b)
  unfolding replay compare
  replay-compare v i none new b = ground arith
  replay-compare v i (some olds) new b = ground (
    arith,
    replay-append v i (gone_notices copy olds new)
        (record {
          action = if any (λ (x : Found). x.version == new.version) olds then update else create;
          service = new;
        }
          ∷ [])
        b,
    replay-gone_notices v i olds new b,
  )

  pub replay-compare_all :
      (v i : String) (olds : Option (List Found)) (m : Dict String Found) (b : Bool)
      → IsKeyed m
      → replay v i (compare_all copy olds m) b ≡ elim (lookup v m) [
        | none ↦ b
        | some new ↦ has_node i new.nodes || (b && not (shows v i (or_else olds [])))
      ]
  unfolding replay compare_all lookup
  replay-compare_all v i olds [] b h = refl
  replay-compare_all v i olds ((k, new) ∷ m) b (at, fresh, rest) =
      let c = replay v i (compare copy olds new) b in
      elim (Bool-cases (k == v)) [
        | inl e ↦ ground (
          arith,
          e,
          replay-append v i (compare copy olds new) (compare_all copy olds m) b,
          replay-compare v i olds new b,
          replay-compare_all v i olds m c rest,
          subst (λ x. (x == v) ≡ true) (sym at) e,
          subst (λ x. lookup x m ≡ none) ((eq_iff k v).0 e) fresh,
        )
        | inr e ↦ ground (
          arith,
          e,
          replay-append v i (compare copy olds new) (compare_all copy olds m) b,
          replay-compare v i olds new b,
          replay-compare_all v i olds m c rest,
          subst (λ x. (x == v) ≡ false) (sym at) e,
        )
      ]

pub replay-missing_notices :
    (v i : String) (olds : List Found) (m : Dict String Found) (b : Bool)
    → replay v i (missing_notices olds m) b
      ≡ (if is_some (lookup v m) then b else b && not (shows v i olds))
unfolding replay missing_notices
replay-missing_notices v i [] m b = ground arith
replay-missing_notices v i (old ∷ olds) m b = elim (Bool-cases (old.version == v)) [
  | inl e ↦ ground (
    arith,
    e,
    ap (λ x. is_some (lookup x m)) ((eq_iff old.version v).0 e),
    replay-missing_notices v i olds m b,
    replay-missing_notices v i olds m (b && not (has_node i old.nodes)),
  )
  | inr e ↦ ground (arith, e, replay-missing_notices v i olds m b)
]
