-- ===== src/Registry/Nats/Query.antt =====
-- registry/nats/nats.go: the loop of `query` over the answers and its time-out, `ListServices`,
-- and the address list of `setAddrs`. A quorum of 0 stands for none, as any `int` up to 0 does.
use Prim.Native.String.{◌++◌ as str_append, len}
use text.Mathlib.Text.{starts_with}
use go_plugins.Prelude.{
  ℕ, ◌≤◌, ◌<◌, String, ◌≡◌, refl, Bool, true, false, ◌&&◌, ◌||◌, List, [], ◌∷◌, ◌++◌, Option, none,
  some, arith, ◌==◌, string_eq, eq_iff, if◌then◌else◌, is_nil, is_some, Bool-cases, Option-cases,
  inl, inr, nat_eq, length, leb, ltb, append_assoc, append-nil, map, any,
}
use go_plugins.Prelude.Dict.{Dict, lookup, insert, lookup-insert}
use go_plugins.Registry.{Node, Service}

key : Service → String
key s = str_append s.name (str_append "-" s.version)

-- An answer, or the time-out.
pub data Event : Type 0 where
  response : Service → Event
  timed_out : Event

-- One answer goes into the map: the nodes of a known key grow.
grown : Option Service → Service → Service
grown (some srv) s = record srv { nodes = srv.nodes ++ s.nodes }
grown none s = s

unfoldable pub absorb : Service → Dict String Service → Dict String Service
unfolding key grown
absorb s m = insert (key s) (grown (lookup (key s) m) s) m

-- The nodes that a map holds for a key.
unfoldable pub nodes_at : String → Dict String Service → List Node
nodes_at k m = elim (lookup k m) [ some s ↦ s.nodes | none ↦ [] ]

abbrev reached : ℕ → Service → Dict String Service → Bool
reached quorum s m = ltb 0 quorum && leb quorum (length (nodes_at (key s) m))

-- The loop; `none` while it still waits.
unfoldable pub collect : ℕ → List Event → Dict String Service → Option (Dict String Service)
unfolding key nodes_at
collect quorum [] m = none
collect quorum (timed_out ∷ es) m = some m
collect quorum (response s ∷ es) m =
    let rest = collect quorum es (absorb s m) in
    if reached quorum s (absorb s m) then some (absorb s m) else rest

abbrev values : Dict String Service → List Service
values m = map (λ (kv : String × Service). kv.1) m

-- `query` once it has subscribed and published.
unfoldable pub query : ℕ → List Event → Option (List Service)
query quorum es = elim (collect quorum es []) [ some m ↦ some (values m) | none ↦ none ]

abbrev has_timeout : List Event → Bool
has_timeout [] = false
has_timeout (timed_out ∷ es) = true
has_timeout (response s ∷ es) = has_timeout es

-- The nodes of the answers for a key, up to the time-out.
unfoldable pub answered : String → List Event → List Node
unfolding key
answered k [] = []
answered k (timed_out ∷ es) = []
answered k (response s ∷ es) = (if key s == k then s.nodes else []) ++ answered k es

-- A time-out ends the loop, if nothing ended it before.
pub collect_ends :
    (quorum : ℕ) (es : List Event) (m : Dict String Service)
    → has_timeout es ≡ true
    → is_some (collect quorum es m) ≡ true
unfolding collect
collect_ends quorum [] m h = cc
collect_ends quorum (timed_out ∷ es) m h = refl
collect_ends quorum (response s ∷ es) m h = ground (arith, collect_ends quorum es (absorb s m) h)

nodes_at-absorb :
    (k : String) (s : Service) (m : Dict String Service)
    → nodes_at k (absorb s m) ≡ nodes_at k m ++ (if key s == k then s.nodes else [])
unfolding absorb nodes_at
nodes_at-absorb k s m = ground (
  arith,
  lookup-insert (key s) k (grown (lookup (key s) m) s) m,
  eq_iff (key s) k,
  append-nil (nodes_at k m),
)

nodes_at-collect_result :
    (k : String) (es : List Event) (m r : Dict String Service)
    → collect 0 es m ≡ some r
    → nodes_at k r ≡ nodes_at k m ++ answered k es
unfolding collect answered
nodes_at-collect_result k [] m r h = cc
nodes_at-collect_result k (timed_out ∷ es) m r h = ground (arith, append-nil (nodes_at k m))
nodes_at-collect_result k (response s ∷ es) m r h = ground (
  arith,
  nodes_at-collect_result k es (absorb s m) r,
  nodes_at-absorb k s m,
  append_assoc (nodes_at k m) (if key s == k then s.nodes else []) (answered k es),
)

collect-timeout :
    (es : List Event) (m : Dict String Service) → is_some (collect 0 es m) ≡ has_timeout es
unfolding collect
collect-timeout [] m = refl
collect-timeout (timed_out ∷ es) m = refl
collect-timeout (response s ∷ es) m = ground (arith, collect-timeout es (absorb s m))

-- With no quorum the loop ends once a time-out comes, and in its result every key has the nodes of
-- all the answers for it before the time-out, in the order in which they came, behind those that the
-- map held.
pub nodes_at-collect :
    (k : String) (es : List Event) (m : Dict String Service)
    → has_timeout es ≡ true
    → (r : Dict String Service) × (collect 0 es m ≡ some r)
      × (nodes_at k r ≡ nodes_at k m ++ answered k es)
nodes_at-collect k es m h = elim (Option-cases (collect 0 es m)) [
  | inl n ↦ absurd (ground (arith, n, collect-timeout es m))
  | inr (r, n) ↦ (r, n, nodes_at-collect_result k es m r n)
]

-- A run of answers.
abbrev pub responses : List Service → List Event
responses [] = []
responses (s ∷ ss) = response s ∷ responses ss

abbrev absorb_all : List Service → Dict String Service → Dict String Service
absorb_all [] m = m
absorb_all (s ∷ ss) m = absorb_all ss (absorb s m)

-- If no time-out has come and the loop has a result, there is a quorum, and some key of the result
-- has at least that many nodes.
pub collect_quorum :
    (quorum : ℕ) (es : List Event) (m r : Dict String Service)
    → has_timeout es ≡ false
    → collect quorum es m ≡ some r
    → (k : String) × (0 < quorum) × (quorum ≤ length (nodes_at k r))
unfolding collect
collect_quorum quorum [] m r t h = absurd (cc)
collect_quorum quorum (timed_out ∷ es) m r t h = absurd (cc)
collect_quorum quorum (response s ∷ es) m r t h =
    elim (Bool-cases (reached quorum s (absorb s m))) [
      | inl hit ↦ (key s, ground arith, ground arith)
      | inr miss ↦ collect_quorum quorum es (absorb s m) r t (ground arith)
    ]

-- `ListServices`: one service for each name, holding the name alone.
abbrev bare : String → Service
bare name = record { name = name; version = ""; metadata = []; endpoints = []; nodes = [] }

unfoldable pub name_map : List Service → Dict String Service → Dict String Service
name_map [] m = m
name_map (s ∷ ss) m = name_map ss (insert s.name (bare s.name) m)

unfoldable pub list_services : List Event → Option (List Service)
unfolding query name_map
list_services es = elim (query 0 es) [ some ss ↦ some (values (name_map ss [])) | none ↦ none ]

-- A name is listed exactly when some answer has it or it was there before.
pub lookup-name_map :
    (k : String) (ss : List Service) (m : Dict String Service)
    → is_some (lookup k (name_map ss m))
      ≡ (any (λ (s : Service). s.name == k) ss || is_some (lookup k m))
unfolding name_map
lookup-name_map k [] m = refl
lookup-name_map k (s ∷ ss) m = ground (
  arith,
  lookup-name_map k ss (insert s.name (bare s.name) m),
  lookup-insert s.name k (bare s.name) m,
  eq_iff s.name k,
)

-- `setAddrs`.
prefixed : String → String
prefixed addr = if starts_with addr "nats://" then addr else str_append "nats://" addr

add_scheme : List String → List String
unfolding prefixed
add_scheme [] = []
add_scheme (addr ∷ addrs) =
    let rest = add_scheme addrs in if len addr == 0 then rest else prefixed addr ∷ rest

unfoldable pub set_addrs : String → List String → List String
unfolding add_scheme
set_addrs default_url addrs = let c = add_scheme addrs in if is_nil c then default_url ∷ [] else c
