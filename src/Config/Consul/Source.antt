-- ===== src/Config/Consul/Source.antt =====
-- config/source/consul/consul.go and watcher.go: Read, the handler of the watch, Next and Stop. The
-- listing of Consul, the clock, the encoder and the checksum are parameters. The plan of the watch runs
-- its handler in one goroutine, one call after the other.
use go_plugins.Prelude.{
  ℕ, String, Bool, true, false, List, [], ◌∷◌, ◌++◌, Option, none, some, ◌+◌, ◌&&◌, if◌then◌else◌,
}
use go_plugins.Config.Consul.{Fields, made, undecoded, panics, Decoder, Pair, make_map}

pub record Encoder (J : Type 0) : Type 0 where
  pub decoder : Decoder J
  pub encode : Fields J → Option String
  pub name : String
  pub sum : String → String

pub record ChangeSet : Type 0 where
  pub timestamp : ℕ
  pub format : String
  pub origin : String
  pub bytes : String
  pub checksum : String

-- What the watch hands to its handler: nothing, the pairs, or something else.
pub data Given : Type 0 where
  absent : Given
  pairs : List Pair → Given
  other : Given

pub data Answer : Type 0 where
  change : ChangeSet → Answer
  not_listed : Answer
  not_found : Answer
  not_decoded : Answer
  not_encoded : Answer
  crashed : Answer

-- What the handler does to its channel.
pub data Handled : Type 0 where
  silent : Handled
  sends : ChangeSet → Handled
  breaks : Handled

-- A watcher: the change that its handler waits to hand over, whether it is stopped, the changes and the
-- number of errors that its calls of `Next` have returned.
pub record Watcher : Type 0 where
  pub waiting : Option ChangeSet
  pub stopped : Bool
  pub returned : List ChangeSet
  pub errors : ℕ

-- A call of `Next` comes with the choice of its select, which counts where both cases are ready.
pub data Event : Type 0 where
  given : ℕ → Given → Event
  next : Bool → Event
  stop : Event

pub data Moved : Type 0 where
  moved : Watcher → Moved
  waits : Moved
  panicked : Moved

abbrev pub new_watcher : Watcher
new_watcher = record { waiting = none; stopped = false; returned = []; errors = 0 }

module _ {J : Type 0} (c : Encoder J) (strip : String) where
  abbrev pub change_of : ℕ → String → ChangeSet
  change_of now b = record {
    timestamp = now;
    format = c.name;
    origin = "consul";
    bytes = b;
    checksum = c.sum b;
  }

  abbrev pub read_pairs : ℕ → List Pair → Answer
  read_pairs now ps = elim (make_map c.decoder ps strip) [
    | undecoded ↦ not_decoded
    | panics ↦ crashed
    | made m ↦ elim (c.encode m) [ none ↦ not_encoded | some b ↦ change (change_of now b) ]
  ]

  -- `Read`, on what the client lists under the prefix.
  unfoldable pub read_source : ℕ → Option (List Pair) → Answer
  read_source now none = not_listed
  read_source now (some []) = not_found
  read_source now (some (p ∷ ps)) = read_pairs now (p ∷ ps)

  unfoldable pub handle : ℕ → Given → Handled
  handle now absent = silent
  handle now other = silent
  handle now (pairs ps) = elim (make_map c.decoder ps strip) [
    | undecoded ↦ silent
    | panics ↦ breaks
    | made m ↦ elim (c.encode m) [ none ↦ silent | some b ↦ sends (change_of now b) ]
  ]

  abbrev pub fail : Watcher → Watcher
  fail w = record w { errors = w.errors + 1 }

  unfoldable pub call_next : Bool → Watcher → Moved
  call_next exits w = elim w.waiting [
    | none ↦ if w.stopped then moved (fail w) else waits
    | some x ↦
        if w.stopped && exits
        then moved (fail w)
        else (moved (record w { waiting = none; returned = w.returned ++ (x ∷ []) }))
  ]

  -- The handler is called where it does not wait.
  unfoldable pub call_handle : ℕ → Given → Watcher → Moved
  unfolding handle
  call_handle now x w = elim w.waiting [
    | some y ↦ waits
    | none ↦ elim (handle now x) [
      | silent ↦ moved w
      | breaks ↦ panicked
      | sends y ↦ moved (record w { waiting = some y })
    ]
  ]

  unfoldable pub step : Event → Watcher → Moved
  unfolding call_next call_handle
  step (given now x) w = call_handle now x w
  step (next exits) w = call_next exits w
  step stop w = moved (record w { stopped = true })

  unfoldable pub run : List Event → Watcher → Moved
  unfolding step
  run [] w = moved w
  run (e ∷ es) w = elim (step e w) [ moved w' ↦ run es w' | waits ↦ waits | panicked ↦ panicked ]
