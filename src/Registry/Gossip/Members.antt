-- ===== src/Registry/Gossip/Members.antt =====
-- registry/gossip/gossip.go: the member events, the reconnect loop, `connect`, `Stop` and
-- `configure`. A call of memberlist is given by its outcome.
use Prim.Native.String.{len}
use go_plugins.Prelude.{
  map, keep, not, String, ◌≡◌, refl, Bool, true, false, ◌&&◌, ◌||◌, List, [], ◌∷◌, Option, none,
  some, arith, ◌==◌, string_eq, nat_eq, eq_iff, if◌then◌else◌, length, is_some, ltb,
}
use go_plugins.Prelude.Dict.{Dict, lookup, insert, lookup-insert}
use go_plugins.Registry.Gossip.State.{Gossip, NodeAction, unknown, leave}

-- One event of `eventLoop`: only a known member is written.
unfoldable pub handle_event : String → NodeAction → Gossip → Gossip
handle_event node a g = elim (lookup node g.members) [
  | none ↦ g
  | some _ ↦ record g { members = insert node a g.members }
]

unfoldable pub has_left : NodeAction → Bool
has_left leave = true
has_left _ = false

-- The addresses that a tick of `connectLoop` collects.
unfoldable pub left_members : String → Dict String NodeAction → List String
left_members local [] = []
left_members local ((node, a) ∷ m) =
    let rest = left_members local m in
    if has_left a then (if node == local then rest else node ∷ rest) else rest

-- What `connect` is told: an attempt's success, the time-out, a closed channel.
pub data Signal : Type 0 where
  tick : Bool → Signal
  timeout closed : Signal

pub data Outcome : Type 0 where
  connected stopped timed_out : Outcome

-- The wait loop; `none` while it waits.
unfoldable pub wait_connect : List Signal → Option Outcome
wait_connect [] = none
wait_connect (closed ∷ ss) = some stopped
wait_connect (timeout ∷ ss) = some timed_out
wait_connect (tick true ∷ ss) = some connected
wait_connect (tick false ∷ ss) = wait_connect ss

unfoldable pub connect : List String → Bool → List Signal → Option Outcome
connect [] first ss = some connected
connect (a ∷ as') true ss = some connected
connect (a ∷ as') false ss = wait_connect ss

-- `Stop`.
unfoldable pub stop : Gossip → Gossip
stop g = if g.done then g else record g { done = true; member = false }

-- The non-empty trimmed addresses; `trim` is `strings.TrimSpace`.
unfoldable pub trimmed : (String → String) → List String → List String
trimmed trim [] = []
trimmed trim (a ∷ as') =
    let rest = trimmed trim as' in if ltb 0 (len (trim a)) then trim a ∷ rest else rest

unfoldable pub add_unknown : List String → Dict String NodeAction → Dict String NodeAction
add_unknown [] m = m
add_unknown (a ∷ as') m = add_unknown as' (insert a unknown m)

-- `configure` up to its call of `connect`: the addresses before and after the options, and whether
-- memberlist could be created. Its result tells an error from a return without one.
unfoldable pub configure :
    (String → String) → List String → List String → Bool → Gossip → Bool × Gossip
unfolding stop trimmed add_unknown
configure trim old neu created g =
    let addrs = trimmed trim neu in
    if length addrs == length (trimmed trim old) && g.member
    then (true, g)
    else (let h = record (stop g) { locked = true; done = false } in
        if created
        then (
          true,
          record h { members = add_unknown addrs h.members; member = true; locked = false },
        )
        else (false, h))

-- A tick reconnects exactly to the members whose last event was a leave, this node excepted, in the
-- order of the map.
pub left_members_lem :
    (local : String) (m : Dict String NodeAction)
    → left_members local m
      ≡ map
          (λ (kv : String × NodeAction). kv.0)
          (keep (λ (kv : String × NodeAction). has_left kv.1 && not (kv.0 == local)) m)
unfolding left_members
left_members_lem local [] = refl
left_members_lem local ((node, a) ∷ m) = ground (arith, left_members_lem local m)

-- An event changes the action of a known member alone, and adds no member.
pub members-handle_event :
    (node k : String) (a : NodeAction) (g : Gossip)
    → lookup k (handle_event node a g).members
      ≡ (if node == k && is_some (lookup k g.members) then some a else lookup k g.members)
unfolding handle_event
members-handle_event node k a g = ground (arith, lookup-insert node k a g.members, eq_iff node k)

-- If memberlist cannot be created, `configure` returns with the registry's lock held.
pub configure_fails_locked :
    (trim : String → String) (old neu : List String) (g : Gossip)
    → (configure trim old neu false g).0 ≡ false
    → ((configure trim old neu false g).1.locked ≡ true)
unfolding configure
configure_fails_locked trim old neu g h = ground arith

-- Stopping is idempotent, and a wait with a closed channel or a time-out comes to an end.
pub stop_idem : (g : Gossip) → stop (stop g) ≡ stop g
unfolding stop
stop_idem g = ground arith

ends : Signal → Bool
ends (tick b) = b
ends timeout = true
ends closed = true

abbrev any_ends : List Signal → Bool
any_ends [] = false
any_ends (s ∷ ss) = ends s || any_ends ss

wait_connect_ends : (ss : List Signal) → any_ends ss ≡ is_some (wait_connect ss)
unfolding wait_connect ends
wait_connect_ends [] = refl
wait_connect_ends (closed ∷ ss) = refl
wait_connect_ends (timeout ∷ ss) = refl
wait_connect_ends (tick true ∷ ss) = refl
wait_connect_ends (tick false ∷ ss) = wait_connect_ends ss
