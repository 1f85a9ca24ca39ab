-- ===== src/Registry/Consul/Agent.antt =====
-- registry/consul/consul.go: the registry's hashes and check times, `Register` and `Deregister`.
-- The agent's answers are arguments; times and durations are in nanoseconds.
use go_plugins.Prelude.{
  ℕ, ◌+◌, ◌-◌, ◌*◌, String, Bool, true, false, List, [], ◌∷◌, ◌++◌, Option, none, some, ◌==◌,
  string_eq, nat_eq, if◌then◌else◌, ltb, leb, or_else, any,
}
use go_plugins.Prelude.Dict.{Dict, lookup, insert, remove}
use go_plugins.Registry.{Node, Service}
use go_plugins.Registry.Consul.Tags.{Util, encode_endpoints, encode_metadata, encode_version}

abbrev pub second : ℕ
second = 1_000_000_000

abbrev pub minute : ℕ
minute = 60 * second

-- `getDeregisterTTL`.
unfoldable pub deregister_ttl : ℕ → ℕ
deregister_ttl t = let splay = second * 5 in if ltb t minute then minute + splay else t + splay

pub data Check : Type 0 where
  tcp : (address : String) (interval deregister_after : ℕ) → Check
  ttl : (period deregister_after : ℕ) → Check

pub record Registration : Type 0 where
  pub id : String
  pub name : String
  pub tags : List String
  pub port : ℕ
  pub address : String
  pub check : Option Check
  pub connect : Bool

-- The calls of the agent.
pub data Call : Type 0 where
  checks : String → Call
  pass_ttl : String → Call
  registers : Registration → Call
  deregisters : String → Call

pub record Consul : Type 0 where
  pub registered : Dict String ℕ
  pub last_checked : Dict String ℕ
  pub connect : Bool
  -- The option consul_tcp_check.
  pub tcp_check : Option ℕ
  pub calls : List Call

pub data Fault : Type 0 where
  no_node hash_failed : Fault
  agent_fault : ℕ → Fault

-- What the agent answers to the calls of one registration: the ids of the checks, the first PassTTL, the
-- registration and the last PassTTL, where `none` is no error.
pub record Answers : Type 0 where
  pub checked : Option (List String)
  pub refreshed : Option ℕ
  pub registers : Option ℕ
  pub passed : Option ℕ

-- Of other packages: the codecs, `hashstructure.Hash`, `net.SplitHostPort`, `strconv.Atoi` and
-- `mnet.HostPort`.
pub record Net : Type 0 where
  pub codec : Util
  pub hash : Service → Option ℕ
  pub split : String → String × String
  pub atoi : String → ℕ
  pub host_port : String → ℕ → String

abbrev interval : Consul → ℕ
interval c = or_else c.tcp_check 0

abbrev called : Call → Consul → Consul
called x c = record c { calls = c.calls ++ x ∷ [] }

-- The health check of the registration.
unfoldable pub check_of : ℕ → Node → Consul → Option Check
unfolding deregister_ttl
check_of period node c = elim c.tcp_check [
  | some i ↦ some (tcp node.address i (deregister_ttl i))
  | none ↦ if ltb 0 period then some (ttl period (deregister_ttl period)) else none
]

unfoldable pub registration : Net → ℕ → Service → Node → Consul → Registration
unfolding check_of
registration n period s node c =
    let (h, pt) = n.split node.address in
    record {
      id = node.id;
      name = s.name;
      tags =
          encode_metadata n.codec node.metadata
          ++ encode_endpoints n.codec s.endpoints
          ++ encode_version n.codec s.version;
      port = n.atoi pt;
      address = if h == "" then node.address else h;
      check = check_of period node c;
      connect = c.connect;
    }

-- The registration at the agent, behind the checks of an old one.
unfoldable pub register_fully :
    Net → Answers → (period now hash : ℕ) → Service → Node → Consul → Option Fault × Consul
unfolding registration
register_fully n a period now hash s node c =
    let d = called (registers (registration n period s node c)) c in
    elim a.registers [
      | some e ↦ (some (agent_fault e), d)
      | none ↦
          let e = record d {
            registered = insert s.name hash d.registered;
            last_checked = insert s.name now d.last_checked;
          } in
          if period == 0 then (none, e) else (
            elim a.passed [ none ↦ none | some x ↦ some (agent_fault x) ],
            called (pass_ttl node.id) e,
          )
    ]

-- Whether an old registration still stands, with the call that this takes.
unfoldable pub still_registered :
    Answers → (period now : ℕ) → Service → Node → Consul → Bool × Consul
still_registered a period now s node c =
    if period == 0
    then (if leb (now - or_else (lookup s.name c.last_checked) 0) (deregister_ttl (interval c))
        then (true, c)
        else (
          elim a.checked [ none ↦ false | some ids ↦ any (λ i. i == node.id) ids ],
          called (checks s.name) c,
        ))
    else (elim a.refreshed [ none ↦ true | some _ ↦ false ], called (pass_ttl node.id) c)

unfoldable pub register_node :
    Net → Answers → (period now hash : ℕ) → Service → Node → Consul → Option Fault × Consul
unfolding still_registered register_fully
register_node n a period now hash s node c =
    if (elim (lookup s.name c.registered) [ none ↦ false | some v ↦ v == hash ])
    then (let (stands, d) = still_registered a period now s node c in
        if stands then (none, d) else register_fully n a period now hash s node d)
    else register_fully n a period now hash s node c

-- `Register` at the time `now`, with the TTL `period`.
unfoldable pub register :
    Net → Answers → (period now : ℕ) → Service → Consul → Option Fault × Consul
unfolding register_node
register n a period now s c = elim s.nodes [
  | [] ↦ (some no_node, c)
  | node ∷ nodes ↦ elim (n.hash s) [
    | none ↦ (some hash_failed, c)
    | some hash ↦ register_node n a period now hash s node c
  ]
]

-- `Deregister`: the answer of the agent is handed on.
unfoldable pub deregister : Option ℕ → Service → Consul → Option Fault × Consul
deregister answer s c = elim s.nodes [
  | [] ↦ (some no_node, c)
  | node ∷ nodes ↦ (
    elim answer [ none ↦ none | some e ↦ some (agent_fault e) ],
    record c {
      registered = remove s.name c.registered;
      last_checked = remove s.name c.last_checked;
      calls = c.calls ++ deregisters node.id ∷ [];
    },
  )
]
