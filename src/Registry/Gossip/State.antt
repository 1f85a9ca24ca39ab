-- ===== src/Registry/Gossip/State.antt =====
-- registry/gossip/gossip.go: the registry's state, its updates, and the messages it takes from
-- memberlist. A dictionary of watchers holds what was sent to each; `pending` is the channel
-- `updates`, `queue` the broadcasts.
use Prim.Native.String.{len}
use go_plugins.Prelude.{
  ℕ, String, Bool, true, false, List, [], ◌∷◌, ◌++◌, Option, none, some, ◌==◌, string_eq, nat_eq,
  if◌then◌else◌, or_else,
}
use go_plugins.Prelude.Dict.{Dict, lookup, insert, remove}
use go_plugins.Registry.{Service, Result}

pub data Action : Type 0 where
  invalid create delete update sync : Action

unfoldable pub action_string : Action → String
action_string create = "create"
action_string delete = "delete"
action_string update = "update"
action_string sync = "sync"
action_string invalid = "invalid"

pub data UpdateType : Type 0 where
  invalid_type service_type : UpdateType

-- `pb.Update`.
pub record PbUpdate : Type 0 where
  pub expires : ℕ
  pub action : Action
  pub kind : UpdateType
  pub metadata : Dict String String
  pub payload : String

-- `update`: the service is `none` for a nil pointer; `sync` names the channel, if there is one.
pub record Update : Type 0 where
  pub pb : PbUpdate
  pub service : Option Service
  pub sync_chan : Option ℕ

pub data NodeAction : Type 0 where
  unknown join leave updated : NodeAction

pub record Gossip : Type 0 where
  pub services : Dict String (List Service)
  pub watchers : Dict String (List Result)
  pub members : Dict String NodeAction
  -- The map of `updates`, by hash.
  pub expiring : Dict ℕ Update
  pub pending : List Update
  pub queue : List PbUpdate
  -- What was pushed through sync channels, and the channels that were closed.
  pub synced : List (ℕ × Service)
  pub closed : List ℕ
  pub done : Bool
  pub member : Bool
  pub locked : Bool
  pub tcp_interval : ℕ

-- The functions of other packages: `regutil.Merge`, `regutil.Remove`, `hashstructure.Hash`, and
-- the codecs. A decoded service is `none` for the JSON value null.
pub record Util : Type 0 where
  pub merge : List Service → List Service → List Service
  pub cut : List Service → List Service → List Service
  pub hash : Service → Option ℕ
  pub marshal : Service → Option String
  pub unmarshal : String → Option (Option Service)
  pub unmarshal_pb : String → Option PbUpdate

abbrev pub json : String
json = "application/json"

-- `NotifyMsg`: the update that a message puts on the channel, if it does.
unfoldable pub decode_service : Util → PbUpdate → Option Update
decode_service u up =
    if or_else (lookup "Content-Type" up.metadata) "" == json
    then (elim (u.unmarshal up.payload) [
      | none ↦ none
      | some s ↦ some (record { pb = up; service = s; sync_chan = none })
    ])
    else none

unfoldable pub decode_update : Util → PbUpdate → Option Update
unfolding decode_service
decode_update u up = elim up.kind [ service_type ↦ decode_service u up | invalid_type ↦ none ]

unfoldable pub notify_msg : Util → String → Gossip → Gossip
notify_msg u b g = if len b == 0 then g else elim (u.unmarshal_pb b) [
  | none ↦ g
  | some up ↦ elim (decode_update u up) [
    | none ↦ g
    | some x ↦ record g { pending = g.pending ++ x ∷ [] }
  ]
]

-- A service that is stored under its name: alone, or merged into those that are there.
unfoldable pub add_entry : Util → Service → Dict String (List Service) → Dict String (List Service)
add_entry u s m = elim (lookup s.name m) [
  | none ↦ insert s.name (s ∷ []) m
  | some old ↦ insert s.name (u.merge old (s ∷ [])) m
]

unfoldable pub set_or_delete :
    String → List Service → Dict String (List Service) → Dict String (List Service)
set_or_delete name [] m = remove name m
set_or_delete name (s ∷ ss) m = insert name (s ∷ ss) m

-- A service that is taken out: the name goes with its last service.
unfoldable pub cut_entry : Util → Service → Dict String (List Service) → Dict String (List Service)
unfolding set_or_delete
cut_entry u s m = elim (lookup s.name m) [
  | none ↦ m
  | some old ↦ set_or_delete s.name (u.cut old (s ∷ [])) m
]

abbrev pub create_update : PbUpdate
create_update = record {
  expires = 0;
  action = create;
  kind = invalid_type;
  metadata = [];
  payload = "";
}

abbrev merged_updates : List Service → List Update
merged_updates [] = []
merged_updates (s ∷ ss) =
    record { pb = create_update; service = some s; sync_chan = none } ∷ merged_updates ss

-- `MergeRemoteState`, given what the buffer decodes to.
unfoldable pub merge_remote_state : Bool → Option (Dict String (List Service)) → Gossip → Gossip
merge_remote_state false services g = g
merge_remote_state true none g = g
merge_remote_state true (some []) g = g
merge_remote_state true (some ((name, ss) ∷ m)) g =
    merge_remote_state true (some m) (record g { pending = g.pending ++ merged_updates ss })
