-- ===== src/Wrapper/Select/Examples.antt =====
-- Tests of the client wrappers' model, and its theorems at concrete inputs.
use go_plugins.Prelude.{
  ◌+◌, ◌%◌, ◌^◌, String, ◌≡◌, refl, false, List, [], ◌∷◌, some, ◌==◌, string_eq, nat_eq, length,
  get_elem?, keep, is_nil, arith,
}
use go_plugins.Prelude.Dict.{Dict, lookup}
use go_plugins.Registry.{Node, Service}
use go_plugins.Wrapper.Select.{
  Choice, node, flatten, next, calls, always, shard_call, before, greatest, filter_latest,
}
use go_plugins.Wrapper.Select.Turns.{count, next-calls, shard_call_lem}
use go_plugins.Wrapper.Select.Version.{IsLast, filter_latest_lem}

abbrev server : String → Node
server i = record { id = i; address = i; metadata = [] }

abbrev release : String → List Node → Service
release v ns = record { name = "greeter"; version = v; metadata = []; endpoints = []; nodes = ns }

abbrev releases : List Service
releases = release "1.9" (server "a" ∷ server "b" ∷ []) ∷ release "1.10" (server "c" ∷ []) ∷ []

-- By strings, 1.9 is later than 1.10.
filter_latest_test : filter_latest releases ≡ release "1.9" (server "a" ∷ server "b" ∷ []) ∷ []
unfolding filter_latest greatest before
filter_latest_test = refl

filter_latest_lem_example :
    (gt : String) × (filter_latest releases ≡ keep (λ (x : Service). x.version == gt) releases)
    × (is_nil (filter_latest releases) ≡ false)
    × IsLast gt releases
filter_latest_lem_example =
    filter_latest_lem (release "1.9" (server "a" ∷ server "b" ∷ []))
      (release "1.10" (server "c" ∷ []) ∷ [])

next-calls_example :
    (x : Node) × (get_elem?
        (flatten releases)
        ((count "greeter" [] + 4) % length (flatten releases))
      ≡ some x)
    × ((next "greeter" releases (calls "greeter" releases 4 [])).0 ≡ node x)
next-calls_example =
    next-calls "greeter" releases 4 [] (unfold flatten in refl) (unfold lookup in ground arith)

abbrev headers : Dict String String
headers = ("user", "eve") ∷ []

shard_call_lem_example :
    (pick : List Service → Choice) × (x : Node) × (shard_call (λ v. 5) "user" (some headers)
      ≡ always pick)
    × (pick releases ≡ node x)
    × (get_elem? (flatten releases) (5 % (length (flatten releases) % 2 ^ 32)) ≡ some x)
shard_call_lem_example =
    shard_call_lem (λ v. 5) "user" "eve" headers releases (unfold lookup in refl) refl
      (unfold flatten in refl)
