-- ===== src/Registry/Nats/State.antt =====
-- registry/nats/nats.go: the cache of own services and the query listeners. What the NATS server
-- answers (`dial` to a connect, `sub` to a subscribe, `sent` to a publish) is an argument of each
-- call. Channels are numbered; `closed` lists those that were closed.
use go_plugins.Prelude.{
  ℕ, ◌+◌, String, List, [], ◌∷◌, Option, none, some, ◌==◌, string_eq, if◌then◌else◌, is_nil,
  or_else,
}
use go_plugins.Prelude.Dict.{Dict, lookup, insert, remove}
use go_plugins.Prelude.Outcome.{Outcome, ok, err}
use go_plugins.Registry.{Service, Result}
use go_plugins.Registry.Nats.Util.{add_services}

pub data Fault : Type 0 where
  dial_failed subscribe_failed marshal_failed publish_failed : Fault

pub record NatsRegistry : Type 0 where
  pub conn : Option ℕ
  pub services : Dict String (List Service)
  pub listeners : Dict String ℕ
  pub next_chan : ℕ
  pub closed : List ℕ

unfoldable pub new_registry : NatsRegistry
new_registry = record { conn = none; services = []; listeners = []; next_chan = 0; closed = [] }

unfoldable pub get_conn : Outcome Fault ℕ → NatsRegistry → Outcome Fault ℕ × NatsRegistry
get_conn dial n = elim n.conn [
  | some c ↦ (ok c, n)
  | none ↦ elim dial [ ok c ↦ (ok c, record n { conn = some c }) | err e ↦ (err e, n) ]
]

abbrev pub cached : NatsRegistry → String → List Service
cached n name = or_else (lookup name n.services) []

-- The part of `register` behind the connection: the cache first, the listener if there is none.
unfoldable pub cache_service : Option Fault → Service → NatsRegistry → Option Fault × NatsRegistry
cache_service sub s n =
    let m = record n {
      services = insert s.name (add_services (cached n s.name) (s ∷ [])) n.services;
    } in
    elim (lookup s.name m.listeners) [
      | some c ↦ (none, m)
      | none ↦ elim sub [
        | some e ↦ (some e, m)
        | none ↦ (
          none,
          record m {
            listeners = insert s.name m.next_chan m.listeners;
            next_chan = m.next_chan + 1;
          },
        )
      ]
    ]

unfoldable pub register :
    Outcome Fault ℕ → Option Fault → Service → NatsRegistry → Option Fault × NatsRegistry
unfolding get_conn
register dial sub s n =
    let (c, m) = get_conn dial n in elim c [ err e ↦ (some e, m) | ok _ ↦ cache_service sub s m ]

unfoldable pub deregister : Service → NatsRegistry → NatsRegistry
deregister s n =
    let services = add_services (cached n s.name) (s ∷ []) in
    if is_nil services
    then (elim (lookup s.name n.listeners) [
      | some c ↦ record n {
        services = remove s.name n.services;
        listeners = remove s.name n.listeners;
        closed = c ∷ n.closed;
      }
      | none ↦ record n { services = remove s.name n.services }
    ])
    else record n { services = insert s.name services n.services }

-- What `Register` and `Deregister` do after the cache: marshal and publish on the watch topic. The
-- third part lists what was published.
unfoldable pub announce :
    Outcome Fault ℕ
    → Option Fault
    → String
    → Service
    → NatsRegistry
    → Option Fault × NatsRegistry × List Result
unfolding get_conn
announce dial sent action s n =
    let (c, m) = get_conn dial n in
    elim c [
      | err e ↦ (some e, m, [])
      | ok _ ↦ elim sent [
        | some e ↦ (some e, m, [])
        | none ↦ (none, m, record { action = action; service = s } ∷ [])
      ]
    ]

unfoldable pub register_service :
    Outcome Fault ℕ
    → Option Fault
    → Option Fault
    → Service
    → NatsRegistry
    → Option Fault × NatsRegistry × List Result
unfolding register announce
register_service dial sub sent s n =
    let (e, m) = register dial sub s n in
    elim e [ some f ↦ (some f, m, []) | none ↦ announce dial sent "create" s m ]

unfoldable pub deregister_service :
    Outcome Fault ℕ
    → Option Fault
    → Service
    → NatsRegistry
    → Option Fault × NatsRegistry × List Result
unfolding deregister announce
deregister_service dial sent s n = announce dial sent "delete" s (deregister s n)

pub data Action : Type 0 where
  get list other : Action

-- The query subscriber of the service `own`: what it sends to the reply topic. Services that
-- cannot be marshalled are not modelled.
unfoldable pub answer : NatsRegistry → String → Action → String → List Service
answer n own get asked = if asked == own then cached n own else []
answer n own list asked = cached n own
answer n own other asked = []
