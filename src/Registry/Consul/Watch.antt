-- ===== src/Registry/Consul/Watch.antt =====
-- registry/consul/watcher.go: the handlers of the two watches, on what Consul hands them. What is put on
-- the channel is collected; a handler waits while the channel is full, and each one is a single step here.
-- `none` is a panic. go-micro's `CopyService`, `fmt.Sprintf` and `watch.Parse` are parameters.
use go_plugins.Prelude.{
  ℕ, String, Bool, not, ◌&&◌, ◌||◌, List, [], ◌∷◌, ◌++◌, Option, none, some, ◌==◌, string_eq,
  nat_eq, if◌then◌else◌, or_else, any, map, keep, is_nil, is_some,
}
use go_plugins.Prelude.Dict.{Dict, lookup, insert}
use go_plugins.Registry.{Node}
use go_plugins.Registry.Consul.Agent.{Net}
use go_plugins.Registry.Consul.Find.{Entry, Found, add_entry}

pub data Action : Type 0 where
  create update delete : Action

pub record Notice : Type 0 where
  pub action : Action
  pub service : Found

pub record Watcher : Type 0 where
  -- The option of the service to watch, empty for all.
  pub wanted : String
  pub watchers : List String
  pub services : Dict String (List Found)
  pub sent : List Notice

abbrev pub has_node : String → List Node → Bool
has_node i nodes = any (λ (x : Node). x.id == i) nodes

module _ (copy : Found → Found) where
  -- A delete for every old service of the version, with the nodes that are gone.
  unfoldable pub gone_notices : List Found → Found → List Notice
  gone_notices [] new = []
  gone_notices (old ∷ olds) new =
      let rest = gone_notices olds new in
      let gone = keep (λ (x : Node). not (has_node x.id new.nodes)) old.nodes in
      if not (old.version == new.version) || is_nil gone
      then rest
      else record { action = delete; service = record (copy old) { nodes = gone } } ∷ rest

  -- The results for one service of the new set.
  unfoldable pub compare : Option (List Found) → Found → List Notice
  unfolding gone_notices
  compare none new = record { action = create; service = new } ∷ []
  compare (some olds) new =
      gone_notices olds new
      ++ record {
        action = if any (λ (x : Found). x.version == new.version) olds then update else create;
        service = new;
      }
        ∷ []

  unfoldable pub compare_all : Option (List Found) → Dict String Found → List Notice
  unfolding compare
  compare_all olds [] = []
  compare_all olds ((k, new) ∷ m) = compare olds new ++ compare_all olds m

-- A delete for every old version that is not in the new set.
unfoldable pub missing_notices : List Found → Dict String Found → List Notice
missing_notices [] m = []
missing_notices (old ∷ olds) m =
    let rest = missing_notices olds m in
    if is_some (lookup old.version m)
    then rest
    else record { action = delete; service = old } ∷ rest

-- The loop over the entries, by version; `join` prints an address and a port.
unfoldable pub watched :
    Net → (String → ℕ → String) → List Entry → Dict String Found → Option (Dict String Found)
unfolding add_entry
watched n join [] m = some m
watched n join (e ∷ es) m = elim (add_entry (record n { host_port = join }) e m) [
  | none ↦ none
  | some m' ↦ watched n join es m'
]

-- `serviceName`, the name of the last entry.
abbrev pub name_of : String → List Entry → String
name_of name [] = name
name_of name (e ∷ es) = name_of e.service es

-- `serviceHandler`.
unfoldable pub service_handler :
    Net → (String → ℕ → String) → (Found → Found) → List Entry → Watcher → Option Watcher
unfolding watched compare_all missing_notices
service_handler n join copy es w = elim (watched n join es []) [
  | none ↦ none
  | some m ↦
      let name = name_of "" es in
      let olds = lookup name w.services in
      some (record w {
        services = insert name (map (λ (kv : String × Found). kv.1) m) w.services;
        sent = w.sent ++ (compare_all copy olds m ++ missing_notices (or_else olds []) m);
      })
]

abbrev pub mem : String → List String → Bool
mem s ss = any (λ x. x == s) ss

-- A service by its name alone.
abbrev pub named : String → Found
named s = record { name = s; version = ""; endpoints = []; nodes = [] }

-- The first loop of `handle`: a watch for every new service.
unfoldable pub add_watchers : (String → Bool) → List String → Watcher → Watcher
add_watchers parses [] w = w
add_watchers parses (s ∷ ss) w =
    if not (w.wanted == "") && not (s == w.wanted)
    then add_watchers parses ss w
    else if mem s w.watchers || not (parses s)
    then add_watchers parses ss w
    else add_watchers parses ss (record w {
      watchers = w.watchers ++ s ∷ [];
      sent = w.sent ++ record { action = create; service = named s } ∷ [];
    })

-- The cached services that are no longer listed, and the others.
unfoldable pub unlisted : List String → Dict String (List Found) → Dict String (List Found)
unlisted ss [] = []
unlisted ss ((k, v) ∷ m) = let rest = unlisted ss m in if mem k ss then rest else (k, v) ∷ rest

unfoldable pub still_listed : List String → Dict String (List Found) → Dict String (List Found)
still_listed ss [] = []
still_listed ss ((k, v) ∷ m) =
    let rest = still_listed ss m in if mem k ss then (k, v) ∷ rest else rest

abbrev pub deletes : List Found → List Notice
deletes svcs = map (λ x. record { action = delete; service = x }) svcs

-- The last loop: the watches of services that are no longer listed end.
unfoldable pub end_notices : List String → Dict String (List Found) → List String → List Notice
end_notices ss deleted [] = []
end_notices ss deleted (s ∷ watchers) =
    let rest = end_notices ss deleted watchers in
    if mem s ss
    then rest
    else deletes (or_else (lookup s deleted) [])
      ++ record { action = delete; service = named s } ∷ rest

-- `handle`, on the names of the listed services.
unfoldable pub handle : (String → Bool) → List String → Watcher → Watcher
unfolding add_watchers unlisted still_listed end_notices
handle parses ss w =
    let v = add_watchers parses ss w in
    record v {
      watchers = keep (λ s. mem s ss) v.watchers;
      services = still_listed ss v.services;
      sent = v.sent ++ end_notices ss (unlisted ss v.services) v.watchers;
    }
