-- ===== src/Registry/Gossip/Examples.antt =====
-- Tests of the gossip registry's model, and its theorems at concrete inputs.
use Prim.Native.String.{len}
use go_plugins.Prelude.{
  String, ◌≡◌, refl, true, false, [], ◌∷◌, ◌++◌, none, some, string_eq, nat_eq, inl,
}
use go_plugins.Prelude.Dict.{lookup, insert, remove}
use go_plugins.Registry.{Service}
use go_plugins.Registry.Gossip.State.{
  Gossip, Util, Update, PbUpdate, create, delete, service_type, json, notify_msg, unknown, leave,
  join,
}
use go_plugins.Registry.Gossip.Run.{
  results, run_update, run_create, run_delete, run, expiry_tick, register, get_service, no_ttl,
}
use go_plugins.Registry.Gossip.Members.{
  handle_event, has_left, left_members, configure, left_members_lem, members-handle_event,
  configure_fails_locked,
}
use go_plugins.Registry.Gossip.Watcher.{next, Shows, wanted_only, next-Shows}
use go_plugins.Registry.Gossip.Stored.{
  joined, taken, run_update_create, run_update_delete, register_without_ttl,
}
use go_plugins.Registry.Gossip.Refinement.{Drained, drain-Drained}
use go_plugins.Registry.Gossip.Expiry.{expiry_tick_lem, null_panics}
use go_plugins.Registry.Gossip.Channel.{Step, Reach, start, jammed, updates_deadlock}

abbrev service : String → String → Service
service name version = record {
  name = name;
  version = version;
  metadata = [];
  endpoints = [];
  nodes = [];
}

-- Services of one version are one; payloads are read as null.
abbrev util : Util
util = record {
  merge = λ old neu. old ++ neu;
  cut = λ old del. [];
  hash = λ s. some (len s.version);
  marshal = λ s. some s.name;
  unmarshal = λ b. some none;
  unmarshal_pb = λ b. some (record {
    expires = 0;
    action = create;
    kind = service_type;
    metadata = ("Content-Type", json) ∷ [];
    payload = b;
  });
}

abbrev empty : Gossip
empty = record {
  services = [];
  watchers = ("w", []) ∷ [];
  members = ("10.0.0.1:9", unknown) ∷ [];
  expiring = [];
  pending = [];
  queue = [];
  synced = [];
  closed = [];
  done = false;
  member = true;
  locked = false;
  tcp_interval = 0;
}

abbrev created : Update
created = record {
  pb = record { expires = 50; action = create; kind = service_type; metadata = []; payload = "" };
  service = some (service "s" "1");
  sync_chan = none;
}

abbrev deleted : Update
deleted = record created {
  pb = record { expires = 0; action = delete; kind = service_type; metadata = []; payload = "" };
}

abbrev one_service : Gossip
one_service = record empty {
  services = ("s", service "s" "1" ∷ []) ∷ [];
  watchers = ("w", results create (service "s" "1" ∷ [])) ∷ [];
  expiring = (1, created) ∷ [];
}

run_one : run_update util created empty ≡ some one_service
unfolding run_update run_create insert lookup
run_one = refl

run_update_create_example :
    get_service "s" (run_create util (service "s" "1") created empty)
    ≡ some (joined util (get_service "s" empty) (service "s" "1"))
run_update_create_example =
    (run_update_create util (service "s" "1") created empty "s" "w" refl refl).1

abbrev after_delete : Gossip
after_delete = record one_service {
  services = [];
  watchers =
      ("w", results create (service "s" "1" ∷ []) ++ results delete (service "s" "1" ∷ [])) ∷ [];
  expiring = [];
}

run_two : run_update util deleted one_service ≡ some after_delete
unfolding run_update run_delete remove lookup
run_two = refl

run_update_delete_example :
    get_service "s" (run_delete util (service "s" "1") one_service)
    ≡ taken util (get_service "s" one_service) (service "s" "1")
run_update_delete_example =
    (run_update_delete util (service "s" "1") deleted one_service "s" "w" refl refl).1

drain-Drained_example : Drained util (created ∷ deleted ∷ created ∷ []) one_service
drain-Drained_example =
    drain-Drained util (created ∷ deleted ∷ created ∷ []) one_service
      (λ _. refl, (λ _. refl, (λ _. refl, tt)))

expiry_tick_lem_example : lookup 1 (expiry_tick 51 one_service).expiring ≡ none
unfolding lookup
expiry_tick_lem_example = (expiry_tick_lem 51 1 one_service (tt, tt)).0

register_without_ttl_example : (register util 7 0 (service "s" "1") empty).0 ≡ some no_ttl
register_without_ttl_example = (register_without_ttl util 7 (service "s" "1") empty "s" refl refl).0

abbrev null_message : PbUpdate
null_message = record {
  expires = 0;
  action = create;
  kind = service_type;
  metadata = ("Content-Type", json) ∷ [];
  payload = "null";
}

content_type : lookup "Content-Type" null_message.metadata ≡ some json
unfolding lookup
content_type = refl

null_panics_example : run util (notify_msg util "null" empty) ≡ none
null_panics_example =
    null_panics util "null" null_message empty refl refl refl content_type refl (inl refl)

next-Shows_example :
    Shows "b"
      (wanted_only "b" (results create (service "a" "1" ∷ service "b" "2" ∷ [])))
      (next "b" true (results create (service "a" "1" ∷ service "b" "2" ∷ [])))
next-Shows_example = next-Shows "b" true (results create (service "a" "1" ∷ service "b" "2" ∷ []))

left_members_lem_example :
    left_members "10.0.0.1:9" (("10.0.0.1:9", leave) ∷ ("10.0.0.2:9", leave) ∷ [])
    ≡ "10.0.0.2:9" ∷ []
unfolding has_left
left_members_lem_example =
    left_members_lem "10.0.0.1:9" (("10.0.0.1:9", leave) ∷ ("10.0.0.2:9", leave) ∷ [])

members-handle_event_example :
    lookup "10.0.0.9:9" (handle_event "10.0.0.9:9" join empty).members ≡ none
unfolding lookup
members-handle_event_example = members-handle_event "10.0.0.9:9" "10.0.0.9:9" join empty

failed : (configure (λ a. a) [] ("10.0.0.1:9" ∷ []) false empty).0 ≡ false
unfolding configure
failed = refl

configure_fails_locked_example :
    (configure (λ a. a) [] ("10.0.0.1:9" ∷ []) false empty).1.locked ≡ true
configure_fails_locked_example = configure_fails_locked (λ a. a) [] ("10.0.0.1:9" ∷ []) empty failed

updates_deadlock_example : Reach 100 start (jammed 100) × ((t : _) → ¬ Step 100 (jammed 100) t)
updates_deadlock_example = updates_deadlock 99
