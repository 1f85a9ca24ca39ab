-- ===== src/Registry/Gossip/Refinement.antt =====
-- Proofs that the loop of `run` in registry/gossip/gossip.go keeps, for each name alone, the list that
-- the updates of that name make.
use go_plugins.Prelude.{
  ℕ, String, ◌≡◌, refl, List, [], ◌∷◌, Option, none, some, arith, ◌==◌, string_eq, if◌then◌else◌,
  is_some, true, All, Option-cases, inl, inr, ◌⊎◌,
}
use go_plugins.Prelude.Dict.{Dict}
use go_plugins.Registry.{Service}
use go_plugins.Registry.Gossip.State.{
  Gossip, Util, Update, Action, invalid, create, delete, update, sync,
}
use go_plugins.Registry.Gossip.Run.{
  run_update, run_create, run_delete, run_sync, push_all, drain, get_service,
}
use go_plugins.Registry.Gossip.Stored.{joined, taken, run_update_create, run_update_delete}

-- What an update makes of the list of the name `k`, where `none` is no entry.
unfoldable pub applied :
    Util → String → Action → Option Service → Option (List Service) → Option (List Service)
applied u k create (some s) l = if s.name == k then some (joined u l s) else l
applied u k delete (some s) l = if s.name == k then taken u l s else l
applied u k create none l = l
applied u k delete none l = l
applied u k sync s l = l
applied u k invalid s l = l
applied u k update s l = l

unfoldable pub all_applied :
    Util → String → List Update → Option (List Service) → Option (List Service)
all_applied u k [] l = l
all_applied u k (x ∷ xs) l = all_applied u k xs (applied u k x.pb.action x.service l)

-- Creates and deletes have a service; a sync has none.
abbrev pub Carries : Update → Type 0
Carries x = (x.pb.action ≡ create) ⊎ (x.pb.action ≡ delete) → is_some x.service ≡ true

services-push_all :
    (c : ℕ) (m : Dict String (List Service)) (g : Gossip) → (push_all c m g).services ≡ g.services
unfolding push_all
services-push_all c [] g = refl
services-push_all c ((name, ss) ∷ m) g = services-push_all c m _

services-run_sync : (c : Option ℕ) (g : Gossip) → (run_sync c g).services ≡ g.services
unfolding run_sync
services-run_sync none g = refl
services-run_sync (some c) g = services-push_all c g.services g

-- What a round of the loop comes to.
record Ran (u : Util) (x : Update) (g : Gossip) : Type 0 where
  behind : Gossip
  returns : run_update u x g ≡ some behind
  stored : (k : String) → get_service k behind ≡ applied u k x.pb.action x.service (get_service k g)

Ran-create :
    (u : Util) (x : Update) (s : Service) (g : Gossip)
    → x.pb.action ≡ create
    → x.service ≡ some s
    → Ran u x g
unfolding applied
Ran-create u x s g e v = record {
  behind = run_create u s x g;
  returns = (run_update_create u s x g "" "" e v).0;
  stored = λ k. ground (arith, e, v, (run_update_create u s x g k k e v).1);
}

Ran-delete :
    (u : Util) (x : Update) (s : Service) (g : Gossip)
    → x.pb.action ≡ delete
    → x.service ≡ some s
    → Ran u x g
unfolding applied
Ran-delete u x s g e v = record {
  behind = run_delete u s g;
  returns = (run_update_delete u s x g "" "" e v).0;
  stored = λ k. ground (arith, e, v, (run_update_delete u s x g k k e v).1);
}

Ran-action :
    (u : Util) (x : Update) (g : Gossip) (a : Action) → x.pb.action ≡ a → Carries x → Ran u x g
unfolding run_update applied get_service
Ran-action u x g create e c = elim (Option-cases x.service) [
  | inl v ↦ absurd (ground (arith, v, c (inl e)))
  | inr (s, v) ↦ Ran-create u x s g e v
]
Ran-action u x g delete e c = elim (Option-cases x.service) [
  | inl v ↦ absurd (ground (arith, v, c (inr e)))
  | inr (s, v) ↦ Ran-delete u x s g e v
]
Ran-action u x g sync e c = record {
  behind = run_sync x.sync_chan g;
  returns = ground (arith, e);
  stored = λ k. ground (arith, e, services-run_sync x.sync_chan g);
}
Ran-action u x g invalid e c = record {
  behind = g;
  returns = ground (arith, e);
  stored = λ k. ground (arith, e);
}
Ran-action u x g update e c = record {
  behind = g;
  returns = ground (arith, e);
  stored = λ k. ground (arith, e);
}

-- What the loop comes to: for each name what its updates make of its list, one after the other.
pub record Drained (u : Util) (xs : List Update) (g : Gossip) : Type 0 where
  pub final : Gossip
  pub returns : drain u xs g ≡ some final
  pub stored : (k : String) → get_service k final ≡ all_applied u k xs (get_service k g)

-- When every create and every delete carries a service, the loop of `run` gets through its updates
-- without a panic, and what is then stored under each name is what the creates and deletes of that name,
-- taken one after the other, make of what was stored: each create merges its service in or begins the
-- list, each delete cuts its service out and drops an empty list.
pub drain-Drained : (u : Util) (xs : List Update) (g : Gossip) → All Carries xs → Drained u xs g
unfolding drain all_applied
drain-Drained u [] g h = record { final = g; returns = refl; stored = λ k. refl }
drain-Drained u (x ∷ xs) g h =
    let r = Ran-action u x g x.pb.action refl h.0 in
    let d = drain-Drained u xs r.behind h.1 in
    record {
      final = d.final;
      returns = ground (arith, r.returns, d.returns);
      stored = λ k. ground (arith, r.stored k, d.stored k);
    }
