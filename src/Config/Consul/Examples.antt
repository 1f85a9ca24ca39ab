-- ===== src/Config/Consul/Examples.antt =====
-- Tests of the Consul source's model, and its theorems at concrete inputs.
use go_plugins.Prelude.{
  List, true, false, String, ◌≡◌, refl, [], ◌∷◌, ◌++◌, none, some, ◌==◌, string_eq, if◌then◌else◌,
}
use go_plugins.Config.Consul.{
  plain, dir, Fields, empty, field, made, undecoded, panics, Decoder, Pair, make_map,
}
use go_plugins.Config.Consul.Keys.{first, rest, find_at-make_map, make_map_panics}
use go_plugins.Config.Consul.Paths.{find_at}
use go_plugins.Config.Consul.Source.{
  Encoder, Watcher, Event, given, next, stop, pairs, waits, change_of, not_found, read_source,
  handle, sends, run,
}
use go_plugins.Config.Consul.Changes.{changes_of, held, run-changes}

-- An encoder that knows a few texts.
abbrev decoder : Decoder String
decoder = record {
  array = λ b. if b == "[1]" then some "1" else none;
  fields = λ b.
      if b == "{}"
      then some empty
      else if b == "{x}"
      then some (field "x" (plain "2") empty)
      else none;
}

abbrev list_at_a : Pair
list_at_a = record { key = "app/a"; value = "[1]" }

abbrev map_at_b : Pair
map_at_b = record { key = "app/b/c"; value = "{x}" }

abbrev list_at_b : Pair
list_at_b = record { key = "app/b/d"; value = "[1]" }

abbrev below_a : Pair
below_a = record { key = "app/a/e"; value = "{}" }

tree :
    make_map decoder (list_at_a ∷ map_at_b ∷ list_at_b ∷ []) "/app"
    ≡ made (
        field "a" (plain "1") (
          field "b"
            (dir (field "c" (dir (field "x" (plain "2") empty)) (field "d" (plain "1") empty)))
            empty))
unfolding make_map
tree = refl

root_is_skipped :
    make_map decoder (record { key = "app"; value = "7" } ∷ list_at_a ∷ []) "app"
    ≡ made (field "a" (plain "1") empty)
unfolding make_map
root_is_skipped = refl

number_fails : make_map decoder (record { key = "app/a"; value = "7" } ∷ []) "app" ≡ undecoded
unfolding make_map
number_fails = refl

-- The prefix is cut as text.
prefix_is_text :
    make_map decoder (record { key = "apple"; value = "[1]" } ∷ []) "app"
    ≡ made (field "le" (plain "1") empty)
unfolding make_map
prefix_is_text = refl

abbrev a_and_b : Fields String
a_and_b = field "b" (dir (field "d" (plain "1") empty)) (field "a" (plain "1") empty)

find_at-make_map_example :
    find_at (first "/app" list_at_b) (rest "/app" list_at_b) a_and_b ≡ some (plain "1")
unfolding make_map
find_at-make_map_example =
    find_at-make_map decoder "/app" [] list_at_b (list_at_a ∷ []) (plain "1") a_and_b refl refl
      (refl, tt) refl

make_map_panics_example :
    make_map decoder ((map_at_b ∷ []) ++ (list_at_a ∷ below_a ∷ list_at_b ∷ [])) "/app" ≡ panics
unfolding make_map
make_map_panics_example =
    make_map_panics decoder "/app" (map_at_b ∷ []) list_at_a below_a (list_at_b ∷ []) "1"
      (some (dir empty)) "e" []
      (field "b" (dir (field "c" (dir (field "x" (plain "2") empty)) empty)) empty) refl refl refl
      refl refl refl

abbrev encoder : Encoder String
encoder = record {
  decoder = decoder;
  encode = λ m. elim m [ empty ↦ some "{}" | field k v m' ↦ some k ];
  name = "test";
  sum = λ b. b;
}

-- Where no key is left, the watch hands an empty tree on, and Read fails.
empty_is_sent : handle encoder "/app" 3 (pairs []) ≡ sends (change_of encoder "/app" 3 "{}")
unfolding handle make_map
empty_is_sent = refl

empty_not_read : read_source encoder "/app" 3 (some []) ≡ not_found
unfolding read_source
empty_not_read = refl

-- The handler waits for a call of Next, also when the watcher is stopped.
abbrev events : List Event
events =
    given 1 (pairs (list_at_a ∷ []))
    ∷ stop
    ∷ next true
    ∷ next false
    ∷ given 2 (pairs (map_at_b ∷ []))
    ∷ []

abbrev at_end : Watcher
at_end = record {
  waiting = some (change_of encoder "/app" 2 "b");
  stopped = true;
  returned = change_of encoder "/app" 1 "a" ∷ [];
  errors = 1;
}

run-changes_example : at_end.returned ++ held at_end.waiting ≡ changes_of encoder "/app" events
unfolding run make_map
run-changes_example = run-changes encoder "/app" events at_end refl

handler_is_left : run encoder "/app" (given 3 (pairs []) ∷ []) at_end ≡ waits
unfolding run
handler_is_left = refl
