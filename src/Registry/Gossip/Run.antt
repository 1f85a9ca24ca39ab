-- ===== src/Registry/Gossip/Run.antt =====
-- registry/gossip/gossip.go: one round of `run` for an update, one tick of the expiry loop, and the
-- registry's calls. `none` is a panic: the loop reads the name of a nil service.
use go_plugins.Prelude.{
  ℕ, ◌+◌, String, ◌&&◌, List, [], ◌∷◌, ◌++◌, Option, none, some, ◌==◌, string_eq, nat_eq,
  if◌then◌else◌, map, ltb,
}
use go_plugins.Prelude.Dict.{Dict, lookup, insert, remove}
use go_plugins.Registry.{Service, Result}
use go_plugins.Registry.Gossip.State.{
  Gossip, Util, Update, PbUpdate, Action, invalid, create, delete, update, sync, service_type,
  action_string, add_entry, cut_entry, json,
}

abbrev pub results : Action → List Service → List Result
results a ss = map (λ (s : Service). record { action = action_string a; service = s }) ss

-- `publish`: every watcher is sent every service.
unfoldable pub publish :
    Action → List Service → Dict String (List Result) → Dict String (List Result)
publish a ss m = map (λ (kv : String × List Result). (kv.0, kv.1 ++ results a ss)) m

-- The map of updates: a service is found by its hash, if it has one.
unfoldable pub remember : Option ℕ → Update → Dict ℕ Update → Dict ℕ Update
remember none x m = m
remember (some h) x m = insert h x m

unfoldable pub forget : Option ℕ → Dict ℕ Update → Dict ℕ Update
forget none m = m
forget (some h) m = remove h m

unfoldable pub run_create : Util → Service → Update → Gossip → Gossip
unfolding publish remember add_entry
run_create u s x g = record g {
  services = add_entry u s g.services;
  watchers = publish create (s ∷ []) g.watchers;
  expiring = if ltb 0 x.pb.expires then remember (u.hash s) x g.expiring else g.expiring;
}

unfoldable pub run_delete : Util → Service → Gossip → Gossip
unfolding publish forget cut_entry
run_delete u s g = record g {
  services = cut_entry u s g.services;
  watchers = publish delete (s ∷ []) g.watchers;
  expiring = forget (u.hash s) g.expiring;
}

-- The loop over all services of a sync.
unfoldable pub push_all : ℕ → Dict String (List Service) → Gossip → Gossip
unfolding publish
push_all c [] g = g
push_all c ((name, ss) ∷ m) g = push_all c m (record g {
  synced = g.synced ++ map (λ (s : Service). (c, s)) ss;
  watchers = publish create ss g.watchers;
})

unfoldable pub run_sync : Option ℕ → Gossip → Gossip
unfolding push_all
run_sync none g = g
run_sync (some c) g = let h = push_all c g.services g in record h { closed = c ∷ h.closed }

unfoldable pub run_action : Util → Action → Update → Gossip → Option Gossip
unfolding run_create run_delete run_sync
run_action u create x g = elim x.service [ none ↦ none | some s ↦ some (run_create u s x g) ]
run_action u delete x g = elim x.service [ none ↦ none | some s ↦ some (run_delete u s g) ]
run_action u sync x g = some (run_sync x.sync_chan g)
run_action u invalid x g = some g
run_action u update x g = some g

-- The body of `run`'s loop.
unfoldable pub run_update : Util → Update → Gossip → Option Gossip
unfolding run_action
run_update u x g = run_action u x.pb.action x g

-- The loop over the updates that are on the channel.
unfoldable pub drain : Util → List Update → Gossip → Option Gossip
drain u [] g = some g
drain u (x ∷ xs) g = elim (run_update u x g) [ none ↦ none | some h ↦ drain u xs h ]

unfoldable pub run : Util → Gossip → Option Gossip
unfolding drain
run u g = drain u g.pending (record g { pending = [] })

-- One tick of `expiryLoop` at the time `now`: what stays, and what is sent for deletion.
unfoldable pub unexpired : ℕ → Dict ℕ Update → Dict ℕ Update
unexpired now [] = []
unexpired now ((k, v) ∷ m) =
    let rest = unexpired now m in if ltb v.pb.expires now then rest else (k, v) ∷ rest

abbrev pub deletion : Update → Update
deletion v = record v { pb = record (v.pb) { action = delete } }

unfoldable pub expired : ℕ → Dict ℕ Update → List Update
expired now [] = []
expired now ((k, v) ∷ m) =
    let rest = expired now m in if ltb v.pb.expires now then deletion v ∷ rest else rest

unfoldable pub expiry_tick : ℕ → Gossip → Gossip
unfolding unexpired expired
expiry_tick now g = record g {
  expiring = unexpired now g.expiring;
  pending = g.pending ++ expired now g.expiring;
}

pub data Fault : Type 0 where
  marshal_failed no_ttl not_found : Fault

abbrev service_update : ℕ → Action → String → PbUpdate
service_update expires a b = record {
  expires = expires;
  action = a;
  kind = service_type;
  metadata = ("Content-Type", json) ∷ [];
  payload = b;
}

-- `Register` at the time `now`, with the option `ttl`.
unfoldable pub register : Util → ℕ → ℕ → Service → Gossip → Option Fault × Gossip
unfolding add_entry
register u now ttl s g = elim (u.marshal s) [
  | none ↦ (some marshal_failed, g)
  | some b ↦
      let h = record g { services = add_entry u s g.services } in
      let up = service_update (now + ttl) create b in
      if ttl == 0 && g.tcp_interval == 0 then (some no_ttl, h) else (
        none,
        record h {
          queue = h.queue ++ up ∷ [];
          pending = h.pending ++ record { pb = up; service = some s; sync_chan = none } ∷ [];
        },
      )
]

unfoldable pub deregister : Util → Service → Gossip → Option Fault × Gossip
unfolding cut_entry
deregister u s g = elim (u.marshal s) [
  | none ↦ (some marshal_failed, g)
  | some b ↦
      let up = service_update 0 delete b in
      (
        none,
        record g {
          services = cut_entry u s g.services;
          queue = g.queue ++ up ∷ [];
          pending = g.pending ++ record { pb = up; service = some s; sync_chan = none } ∷ [];
        },
      )
]

unfoldable pub get_service : String → Gossip → Option (List Service)
get_service name g = lookup name g.services

abbrev concat_services : Dict String (List Service) → List Service
concat_services [] = []
concat_services ((name, ss) ∷ m) = ss ++ concat_services m

unfoldable pub list_services : Gossip → List Service
list_services g = concat_services g.services
