-- ===== src/Wrapper/Select.antt =====
-- wrapper/select: the round-robin, shard and version wrappers of a client. The checksum of hash/crc32 is a
-- parameter. A call of the wrapped client may ask its `Next` for several nodes.
pub mod Turns
pub mod Version
mod Examples
use Prim.Native.Char.{code}
use Prim.Native.String
use go_plugins.Prelude.{
  ℕ, zero, suc, is_nil, ◌+◌, ◌-◌, ◌%◌, ◌^◌, String, Bool, true, false, List, [], ◌∷◌, ◌++◌, Option,
  none, some, ◌==◌, string_eq, nat_eq, if◌then◌else◌, ltb, length, get_elem?, or_else, keep,
}
use go_plugins.Prelude.Dict.{Dict, lookup, insert}
use go_plugins.Registry.{Node, Service}

-- What `Next` returns.
pub data Choice : Type 0 where
  none_available panics : Choice
  node : Node → Choice

-- The nodes of all services, in one list.
unfoldable pub flatten : List Service → List Node
flatten [] = []
flatten (s ∷ ss) = s.nodes ++ flatten ss

abbrev pub at : Option Node → Choice
at none = panics
at (some x) = node x

-- `nodes[rr%len(nodes)]`, where a count above 2 ^ 63 stands for a negative `int`.
abbrev pub turn : ℕ → List Node → Choice
turn rr nodes =
    let n = length nodes in
    if ltb rr (2 ^ 63)
    then at (get_elem? nodes (rr % n))
    else if (2 ^ 64 - rr) % n == 0
    then at (get_elem? nodes 0)
    else panics

-- The `Next` of the round robin, with the counters by service.
unfoldable pub next : String → List Service → Dict String ℕ → Choice × Dict String ℕ
unfolding flatten
next service services rr =
    let nodes = flatten services in
    let count = or_else (lookup service rr) 0 in
    if is_nil nodes then (none_available, rr) else elim (turn count nodes) [
      | none_available ↦ (none_available, rr)
      -- The panic comes before the count is saved.
      | panics ↦ (panics, rr)
      | node y ↦ (node y, insert service ((count + 1) % 2 ^ 64) rr)
    ]

-- The counters after some calls for one service.
unfoldable pub calls : String → List Service → ℕ → Dict String ℕ → Dict String ℕ
unfolding next
calls service services zero rr = rr
calls service services (suc k) rr = calls service services k (next service services rr).1

-- The shard wrapper's call: the client's own strategy, or always the node of the key's checksum, in the
-- arithmetic of `uint32`.
pub data Strategy : Type 0 where
  defer : Strategy
  always : (List Service → Choice) → Strategy

unfoldable pub shard_node : ℕ → List Service → Choice
unfolding flatten
shard_node cs services =
    let nodes = flatten services in
    let n = length nodes % 2 ^ 32 in
    if is_nil nodes
    then none_available
    else if n == 0
    then panics
    else at (get_elem? nodes (cs % n))

-- The header's metadata, if the context has any.
unfoldable pub shard_call : (String → ℕ) → String → Option (Dict String String) → Strategy
unfolding shard_node
shard_call crc key none = defer
shard_call crc key (some md) =
    let val = or_else (lookup key md) "" in
    if val == "" then defer else always (shard_node (crc val))

-- Go's order of strings, by bytes; that of code points is the same.
unfoldable pub before : String → String → Bool
before String.[] String.[] = false
before String.[] (String.◌∷◌ d t) = true
before (String.◌∷◌ c s) String.[] = false
before (String.◌∷◌ c s) (String.◌∷◌ d t) =
    let rest = before s t in
    if ltb (code c) (code d) then true else if code c == code d then rest else false

-- The last of the versions when `sort.Strings` has sorted them: the greatest.
unfoldable pub greatest : String → List Service → String
unfolding before
greatest v [] = v
greatest v (s ∷ ss) = greatest (if before v s.version then s.version else v) ss

-- `filterLatestVersion`.
unfoldable pub filter_latest : List Service → List Service
unfolding greatest
filter_latest [] = []
filter_latest (s ∷ []) = s ∷ []
filter_latest (s ∷ t ∷ ss) =
    let gt = greatest s.version (t ∷ ss) in keep (λ (x : Service). x.version == gt) (s ∷ t ∷ ss)
