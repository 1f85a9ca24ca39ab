-- ===== src/Wrapper/Select/Turns.antt =====
-- Proofs about wrapper/select/roundrobin and wrapper/select/shard: which node a call is given.
use native.Mathlib.Omega.{mod_fact}
use native.Mathlib.Nat.{mod-lt, mod-le}
use go_plugins.Prelude.{
  ℕ, zero, suc, ◌+◌, ◌%◌, ◌^◌, ◌<◌, ◌≤◌, String, ◌≡◌, refl, sym, ap, ◌∙◌, false, List, [], ◌∷◌,
  some, ◌==◌, string_eq, nat_eq, length, is_nil, get_elem?, or_else, arith,
}
use go_plugins.Prelude.Dict.{Dict, lookup, insert, lookup-insert_self}
use go_plugins.Registry.{Node, Service}
use go_plugins.Wrapper.Select.{Choice, node, flatten, next, calls, always, shard_node, shard_call}

get_elem?-some :
    (nodes : List Node) (i : ℕ) → i < length nodes → (x : Node) × (get_elem? nodes i ≡ some x)
get_elem?-some [] i h = absurd (omega arith)
get_elem?-some (x ∷ nodes) zero h = (x, refl)
get_elem?-some (x ∷ nodes) (suc i) h = get_elem?-some nodes i (omega arith)

mod_node :
    (nodes : List Node) (i : ℕ)
    → is_nil nodes ≡ false
    → (x : Node) × (get_elem? nodes (i % length nodes) ≡ some x)
mod_node [] i h = absurd (ground (arith, h))
mod_node (x ∷ nodes) i h =
    get_elem?-some (x ∷ nodes) (i % length (x ∷ nodes)) (mod_fact i (length nodes))

abbrev pub count : String → Dict String ℕ → ℕ
count service rr = or_else (lookup service rr) 0

filled : (nodes : List Node) (i : ℕ) (x : Node) → get_elem? nodes i ≡ some x → is_nil nodes ≡ false
filled [] i x h = absurd (ground (arith, h))
filled (y ∷ nodes) i x h = refl

small_mod : (n : ℕ) → n < 2 ^ 64 → n % 2 ^ 64 ≡ n
small_mod n h = omega arith

next_lem :
    (service : String) (services : List Service) (rr : Dict String ℕ)
    → is_nil (flatten services) ≡ false
    → count service rr < 2 ^ 63
    → (x : Node) × (get_elem? (flatten services) (count service rr % length (flatten services))
        ≡ some x)
      × (next service services rr ≡ (node x, insert service (count service rr + 1) rr))
unfolding next
next_lem service services rr h lt =
    let (x, e) = mod_node (flatten services) (count service rr) h in
    (x, e, ground (arith, h, e, small_mod (count service rr + 1) (omega arith)))

calls_lem :
    (service : String) (services : List Service) (k : ℕ) (rr : Dict String ℕ)
    → is_nil (flatten services) ≡ false
    → count service rr + k ≤ 2 ^ 63
    → count service (calls service services k rr) ≡ count service rr + k
unfolding calls
calls_lem service services zero rr h le = omega arith
calls_lem service services (suc k) rr h le =
    let (x, e, s) = next_lem service services rr h (omega arith) in
    let rr' = insert service (count service rr + 1) rr in
    let one : count service rr' ≡ count service rr + 1 =
      ap (λ o. or_else o 0) (lookup-insert_self service (count service rr + 1) rr) in
    let rest = calls_lem service services k rr' h (omega (arith, one)) in
    ap (λ (p : Choice × Dict String ℕ). count service (calls service services k p.1)) s
    ∙ rest
    ∙ omega (arith, one)

-- If the services have a node, then calls for one service take the nodes in turn: after `k` of them, while
-- the count plus `k` is an `int`, `Next` returns the node at the count plus `k`, modulo the number of
-- nodes, and does not panic.
pub next-calls :
    (service : String) (services : List Service) (k : ℕ) (rr : Dict String ℕ)
    → is_nil (flatten services) ≡ false
    → count service rr + k < 2 ^ 63
    → (x : Node) × (get_elem?
          (flatten services)
          ((count service rr + k) % length (flatten services))
        ≡ some x)
      × ((next service services (calls service services k rr)).0 ≡ node x)
next-calls service services k rr h lt =
    let same = calls_lem service services k rr h (omega arith) in
    let (x, e, s) =
      next_lem service services (calls service services k rr) h (omega (arith, same)) in
    (
      x,
      ap (λ c. get_elem? (flatten services) (c % length (flatten services))) (sym same) ∙ e,
      ap (λ (p : Choice × Dict String ℕ). p.0) s,
    )

-- A call with a value under the key is given, every time, one of the nodes, the one at the value's
-- checksum modulo their number, if that is not 0 as a `uint32`.
pub shard_call_lem :
    (crc : String → ℕ) (key val : String) (md : Dict String String) (services : List Service)
    → lookup key md ≡ some val
    → (val == "") ≡ false
    → (length (flatten services) % 2 ^ 32 == 0) ≡ false
    → (pick : List Service → Choice) × (x : Node) × (shard_call crc key (some md) ≡ always pick)
      × (pick services ≡ node x)
      × (get_elem? (flatten services) (crc val % (length (flatten services) % 2 ^ 32)) ≡ some x)
unfolding shard_call shard_node
shard_call_lem crc key val md services l v n =
    let m = length (flatten services) % 2 ^ 32 in
    let bound : crc val % m < m = mod-lt (crc val) (ground (arith, n)) in
    let (x, e) =
      get_elem?-some (flatten services) (crc val % m)
        (omega (arith, bound, mod-le (length (flatten services)) (2 ^ 32))) in
    let full : is_nil (flatten services) ≡ false = filled (flatten services) (crc val % m) x e in
    (shard_node (crc val), x, ground (arith, l, v), ground (arith, full, n, e), e)
