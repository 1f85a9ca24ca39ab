-- ===== src/Selector/Examples.antt =====
-- Tests of the selectors' models, and their theorems at concrete inputs.
use go_plugins.Prelude.{◌*◌, String, ◌≡◌, refl, false, List, [], ◌∷◌, none, some, is_nil}
use go_plugins.Prelude.Outcome.{ok}
use go_plugins.Prelude.Dict.{lookup, insert}
use go_plugins.Registry.{Node, Service}
use go_plugins.Selector.Label.{
  Label, prioritise, prioritise_from, pick, matches, select, flatten, apply_all,
}
use go_plugins.Selector.Priority.{by_labels, prioritise_lem, select-perm}
use go_plugins.Selector.Rotation.{turns, rounds, turns-rounds}
use go_plugins.Selector.Shard.{Entry}
use go_plugins.Selector.Shard as Shard
use go_plugins.Selector.Scores.{IsBest, next-IsBest}

abbrev node : String → String → Node
node id zone = record { id = id; address = id; metadata = ("zone", zone) ∷ [] }

abbrev a : Node
a = node "a" "east"

abbrev b : Node
b = node "b" "west"

abbrev c : Node
c = node "c" "east"

abbrev labels : List Label
labels = record { key = "zone"; val = "west" } ∷ record { key = "zone"; val = "east" } ∷ []

abbrev service : Service
service = record {
  name = "s";
  version = "1";
  metadata = [];
  endpoints = [];
  nodes = a ∷ b ∷ c ∷ [];
}

west_first : prioritise (a ∷ b ∷ c ∷ []) labels ≡ b ∷ a ∷ c ∷ []
unfolding prioritise prioritise_from pick matches lookup insert
west_first = refl

prioritise_lem_example : prioritise (a ∷ b ∷ c ∷ []) labels ≡ by_labels labels (a ∷ b ∷ c ∷ [])
prioritise_lem_example =
    prioritise_lem (a ∷ b ∷ c ∷ []) labels ((refl, (refl, tt)), ((refl, tt), (tt, tt)))

selected : select (ok (service ∷ [])) [] (some labels) ≡ ok (b ∷ a ∷ c ∷ [])
unfolding select prioritise prioritise_from pick matches lookup insert flatten apply_all
selected = refl

select-perm_example : is_nil (flatten (apply_all [] (service ∷ []))) ≡ false
unfolding flatten apply_all
select-perm_example =
    (select-perm (service ∷ []) [] (some labels) (b ∷ a ∷ c ∷ []) selected
      ((refl, (refl, tt)), ((refl, tt), (tt, tt)))).1

turns-rounds_example : (turns (2 * 3) (a ∷ b ∷ c ∷ []) 0).0 ≡ rounds 2 (a ∷ b ∷ c ∷ [])
turns-rounds_example = turns-rounds 2 (a ∷ b ∷ c ∷ [])

abbrev entries : List Entry
entries = (some a, 5) ∷ (some b, 9) ∷ (none, 0) ∷ (some c, 9) ∷ []

last_of_equals :
    Shard.next entries ≡ (some c, (some a, 5) ∷ (some b, 9) ∷ (none, 0) ∷ (none, 0) ∷ [])
unfolding Shard.next Shard.scan Shard.node_at Shard.take_at
last_of_equals = refl

next-IsBest_example : IsBest entries (Shard.next entries)
next-IsBest_example = next-IsBest entries
