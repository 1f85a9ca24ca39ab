-- ===== src/Registry/Gossip/Stored.antt =====
-- Proofs about the services of registry/gossip/gossip.go: what is stored after an update or a call.
use go_plugins.Prelude.{
  ℕ, String, ◌≡◌, refl, List, [], ◌∷◌, ◌++◌, Option, none, some, arith, ◌==◌, string_eq, nat_eq,
  eq_iff, if◌then◌else◌, Option-cases, inl, inr,
}
use go_plugins.Prelude.Dict.{Dict, lookup, lookup-insert, lookup-remove}
use go_plugins.Registry.{Service, Result}
use go_plugins.Registry.Gossip.State.{
  Gossip, Util, Update, Action, create, delete, add_entry, cut_entry, set_or_delete,
}
use go_plugins.Registry.Gossip.Run.{
  results, publish, run_update, run_create, run_delete, register, get_service, no_ttl,
}

-- The list that a service is stored in.
abbrev pub joined : Util → Option (List Service) → Service → List Service
joined u none s = s ∷ []
joined u (some old) s = u.merge old (s ∷ [])

abbrev pub or_gone : List Service → Option (List Service)
or_gone [] = none
or_gone (s ∷ ss) = some (s ∷ ss)

abbrev pub taken : Util → Option (List Service) → Service → Option (List Service)
taken u none s = none
taken u (some old) s = or_gone (u.cut old (s ∷ []))

pub lookup-add_entry :
    (u : Util) (k : String) (s : Service) (m : Dict String (List Service))
    → lookup k (add_entry u s m)
      ≡ (if s.name == k then some (joined u (lookup k m) s) else lookup k m)
unfolding add_entry
lookup-add_entry u k s m = elim (Option-cases (lookup s.name m)) [
  | inl e ↦ rw (e, add_entry) (ground (arith, lookup-insert s.name k (s ∷ []) m, eq_iff s.name k))
  | inr (old, e) ↦
      rw (e, add_entry)
        (ground (arith, lookup-insert s.name k (u.merge old (s ∷ [])) m, eq_iff s.name k))
]

lookup-set_or_delete :
    (k name : String) (ss : List Service) (m : Dict String (List Service))
    → lookup k (set_or_delete name ss m) ≡ (if name == k then or_gone ss else lookup k m)
unfolding set_or_delete
lookup-set_or_delete k name [] m = lookup-remove name k m
lookup-set_or_delete k name (s ∷ ss) m = lookup-insert name k (s ∷ ss) m

lookup-cut_entry :
    (u : Util) (k : String) (s : Service) (m : Dict String (List Service))
    → lookup k (cut_entry u s m) ≡ (if s.name == k then taken u (lookup k m) s else lookup k m)
unfolding cut_entry
lookup-cut_entry u k s m = elim (Option-cases (lookup s.name m)) [
  | inl e ↦ rw (e, cut_entry) (ground (arith, eq_iff s.name k))
  | inr (old, e) ↦
      rw (e, cut_entry)
        (ground (arith, lookup-set_or_delete k s.name (u.cut old (s ∷ [])) m, eq_iff s.name k))
]

lookup-publish :
    (a : Action) (ss : List Service) (id : String) (m : Dict String (List Result))
    → lookup id (publish a ss m)
      ≡ (elim (lookup id m) [ none ↦ none | some sent ↦ some (sent ++ results a ss) ])
unfolding publish lookup
lookup-publish a ss id [] = refl
lookup-publish a ss id ((j, v) ∷ m) = ground (arith, lookup-publish a ss id m)

-- A create of a service does not panic. It stores the service under its name, merged into what is
-- there, leaves every other name as it was, and sends every watcher one result, the creation of that
-- service.
pub run_update_create :
    (u : Util) (s : Service) (x : Update) (g : Gossip) (k id : String)
    → x.pb.action ≡ create
    → x.service ≡ some s
    → let h = run_create u s x g in
      (run_update u x g ≡ some h)
      × (get_service k h
          ≡ (if s.name == k then some (joined u (get_service k g) s) else get_service k g))
      × (lookup id h.watchers ≡ (elim (lookup id g.watchers) [
        | none ↦ none
        | some sent ↦ some (sent ++ results create (s ∷ []))
      ]))
unfolding run_update get_service
run_update_create u s x g k id a v = (
  ground (arith, a, v),
  ground (arith, lookup-add_entry u k s g.services),
  ground (arith, lookup-publish create (s ∷ []) id g.watchers),
)

-- A delete of a service does not panic. It takes the service out of its name's list, and the name
-- out with its last service; every watcher is sent the deletion.
pub run_update_delete :
    (u : Util) (s : Service) (x : Update) (g : Gossip) (k id : String)
    → x.pb.action ≡ delete
    → x.service ≡ some s
    → let h = run_delete u s g in
      (run_update u x g ≡ some h)
      × (get_service k h ≡ (if s.name == k then taken u (get_service k g) s else get_service k g))
      × (lookup id h.watchers ≡ (elim (lookup id g.watchers) [
        | none ↦ none
        | some sent ↦ some (sent ++ results delete (s ∷ []))
      ]))
unfolding run_update get_service
run_update_delete u s x g k id a v = (
  ground (arith, a, v),
  ground (arith, lookup-cut_entry u k s g.services),
  ground (arith, lookup-publish delete (s ∷ []) id g.watchers),
)

-- `Register` without a TTL, where memberlist syncs at no interval, of a service that can be
-- marshalled, returns an error; the service is stored all the same, and neither broadcast, nor put on
-- the channel, nor entered for its expiry.
pub register_without_ttl :
    (u : Util) (now : ℕ) (s : Service) (g : Gossip) (b : String)
    → u.marshal s ≡ some b
    → g.tcp_interval ≡ 0
    → let r = register u now 0 s g in
      (r.0 ≡ some no_ttl)
      × (get_service s.name r.1 ≡ some (joined u (get_service s.name g) s))
      × (r.1.queue ≡ g.queue)
      × (r.1.pending ≡ g.pending)
      × (r.1.expiring ≡ g.expiring)
unfolding register get_service
register_without_ttl u now s g b m t =
    rw (m, register)
      (rw t (
        refl,
        ground (arith, lookup-add_entry u s.name s g.services, eq_iff s.name s.name),
        refl,
        refl,
        refl,
      ))
