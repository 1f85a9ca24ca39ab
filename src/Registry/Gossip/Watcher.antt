-- ===== src/Registry/Gossip/Watcher.antt =====
-- registry/gossip/watcher.go and `subscribe` of gossip.go. The results on the watcher's channel come
-- as a list; `closed` tells that the channel or the stop channel is closed behind them.
use Prim.Native.String.{len}
use go_plugins.Prelude.{
  String, ◌≡◌, refl, Bool, true, false, ◌&&◌, not, List, [], ◌∷◌, arith, ◌==◌, string_eq, nat_eq,
  if◌then◌else◌, keep, subst, sym, Bool-cases, inl, inr,
}
use go_plugins.Prelude.Dict.{insert, remove}
use go_plugins.Registry.{Result}
use go_plugins.Registry.Gossip.State.{Gossip}

-- `subscribe`: a new watcher under a fresh id; its exit takes it out again.
unfoldable pub subscribe : String → Gossip → Gossip
subscribe id g = record g { watchers = insert id [] g.watchers }

unfoldable pub unsubscribe : String → Gossip → Gossip
unsubscribe id g = record g { watchers = remove id g.watchers }

-- The test that skips a result.
unfoldable pub skips : String → Result → Bool
skips wanted r = not (len wanted == 0) && not (r.service.name == wanted)

pub data Next : Type 0 where
  got : Result → List Result → Next
  stopped waits : Next

-- `Next`: the first result that is not skipped, with the results left on the channel.
unfoldable pub next : String → Bool → List Result → Next
unfolding skips
next wanted closed [] = if closed then stopped else waits
next wanted closed (r ∷ rs) =
    let later = next wanted closed rs in if skips wanted r then later else got r rs

-- The results that a watcher of a service is to see.
abbrev pub wanted_only : String → List Result → List Result
wanted_only wanted rs = keep (λ r. not (skips wanted r)) rs

-- What an outcome of `Next` says of those results.
abbrev pub Shows : String → List Result → Next → Type 0
Shows wanted kept (got r rs) = kept ≡ r ∷ wanted_only wanted rs
Shows wanted kept stopped = kept ≡ []
Shows wanted kept waits = kept ≡ []

wanted_only_skip :
    (wanted : String) (r : Result) (rs : List Result)
    → skips wanted r ≡ true
    → wanted_only wanted (r ∷ rs) ≡ wanted_only wanted rs
wanted_only_skip wanted r rs e = ground arith

wanted_only_take :
    (wanted : String) (r : Result) (rs : List Result)
    → skips wanted r ≡ false
    → wanted_only wanted (r ∷ rs) ≡ r ∷ wanted_only wanted rs
wanted_only_take wanted r rs e = ground arith

next-Shows_skip :
    (wanted : String) (closed : Bool) (r : Result) (rs : List Result)
    → skips wanted r ≡ true
    → Shows wanted (wanted_only wanted rs) (next wanted closed rs)
    → Shows wanted (wanted_only wanted (r ∷ rs)) (next wanted closed (r ∷ rs))
unfolding next
next-Shows_skip wanted closed r rs e ih = rw e (
    subst (λ kept. Shows wanted kept (next wanted closed rs)) (sym (wanted_only_skip wanted r rs e))
      ih)

next-Shows_take :
    (wanted : String) (closed : Bool) (r : Result) (rs : List Result)
    → skips wanted r ≡ false
    → Shows wanted (wanted_only wanted (r ∷ rs)) (next wanted closed (r ∷ rs))
unfolding next
next-Shows_take wanted closed r rs e = rw e (wanted_only_take wanted r rs e)

-- `Next` hands out the results for the wanted service one by one, in order, and skips all others;
-- it stops or waits only when none of them is left.
pub next-Shows :
    (wanted : String) (closed : Bool) (rs : List Result)
    → Shows wanted (wanted_only wanted rs) (next wanted closed rs)
unfolding next
next-Shows wanted true [] = refl
next-Shows wanted false [] = refl
next-Shows wanted closed (r ∷ rs) = elim (Bool-cases (skips wanted r)) [
  | inl e ↦ next-Shows_skip wanted closed r rs e (next-Shows wanted closed rs)
  | inr e ↦ next-Shows_take wanted closed r rs e
]
