-- ===== src/Registry/Consul/Checks.antt =====
-- Proofs about registry/consul/consul.go: when a registration reaches the agent.
use go_plugins.Prelude.{
  ℕ, ◌+◌, ◌-◌, ◌*◌, ◌≤◌, String, ◌≡◌, List, [], ◌∷◌, ◌++◌, Option, none, some, string_eq, nat_eq,
  nat_beq_iff, if◌then◌else◌, leb, is_some, arith, eq_iff, Option-cases, List-cases, subst, sym,
  ◌⊎◌, inl, inr, or_else,
}
use go_plugins.Prelude.Dict.{lookup, lookup-insert, lookup-remove, lookup-insert_self}
use go_plugins.Registry.{Node, Service}
use go_plugins.Registry.Consul.Agent.{
  second, minute, deregister_ttl, Consul, Net, Answers, Fault, registers, register_fully,
  still_registered, register_node, register, deregister, registration,
}

-- The time after which Consul drops a failing service is five seconds more than the period of its check,
-- and than a minute if the period is shorter: never less than Consul's own minimum of a minute.
pub deregister_ttl_bounds :
    (t : ℕ)
    → (deregister_ttl t ≡ (if leb t minute then minute else t) + 5 * second)
      × (t + 5 * second ≤ deregister_ttl t)
      × (minute ≤ deregister_ttl t)
unfolding deregister_ttl
deregister_ttl_bounds t = ground arith

-- A name has a hash exactly when it has the time of its last check.
abbrev pub IsSynced : Consul → Type 0
IsSynced c = (k : String) → is_some (lookup k c.registered) ≡ is_some (lookup k c.last_checked)

register_fully-IsSynced :
    (n : Net) (a : Answers) (period now hash : ℕ) (s : Service) (node : Node) (c : Consul)
    → IsSynced c
    → IsSynced (register_fully n a period now hash s node c).1
unfolding register_fully
register_fully-IsSynced n a period now hash s node c h k = ground (
  arith,
  h k,
  lookup-insert s.name k hash c.registered,
  lookup-insert s.name k now c.last_checked,
)

still_registered-IsSynced :
    (a : Answers) (period now : ℕ) (s : Service) (node : Node) (c : Consul)
    → IsSynced c
    → IsSynced (still_registered a period now s node c).1
unfolding still_registered
still_registered-IsSynced a period now s node c h k = ground (arith, h k)

register_node-IsSynced :
    (n : Net) (a : Answers) (period now hash : ℕ) (s : Service) (node : Node) (c : Consul)
    → IsSynced c
    → IsSynced (register_node n a period now hash s node c).1
unfolding register_node
register_node-IsSynced n a period now hash s node c h k =
    let d = (still_registered a period now s node c).1 in
    let keeps = still_registered-IsSynced a period now s node c h in
    ground (
      arith,
      keeps k,
      register_fully-IsSynced n a period now hash s node d keeps k,
      register_fully-IsSynced n a period now hash s node c h k,
    )

register_hashed :
    (n : Net) (a : Answers) (period now : ℕ) (s : Service) (c : Consul)
    → ((register n a period now s c).1 ≡ c)
      ⊎ ((node : Node) × (hash : ℕ) × (n.hash s ≡ some hash)
          × (register n a period now s c ≡ register_node n a period now hash s node c))
unfolding register
register_hashed n a period now s c = elim (List-cases s.nodes) [
  | inl e ↦ inl (ground (arith, e))
  | inr (node, nodes, e) ↦ elim (Option-cases (n.hash s)) [
    | inl f ↦ inl (ground (arith, e, f))
    | inr (hash, f) ↦ inr (node, hash, f, ground (arith, e, f))
  ]
]

deregister-IsSynced :
    (answer : Option ℕ) (s : Service) (c : Consul) → IsSynced c → IsSynced (deregister answer s c).1
unfolding deregister
deregister-IsSynced answer s c h k =
    ground (arith, h k, lookup-remove s.name k c.registered, lookup-remove s.name k c.last_checked)

-- Every registration and deregistration, failed or not, keeps the hashes and the check times in step: a
-- name has one exactly when it has the other.
pub register-IsSynced :
    (n : Net) (a : Answers) (period now : ℕ) (answer : Option ℕ) (s : Service) (c : Consul)
    → IsSynced c
    → IsSynced (register n a period now s c).1 × IsSynced (deregister answer s c).1
register-IsSynced n a period now answer s c h = (
  elim (register_hashed n a period now s c) [
    | inl e ↦ subst IsSynced (sym e) h
    | inr (node, hash, f, e) ↦
        subst (λ (r : Option Fault × Consul). IsSynced r.1) (sym e)
          (register_node-IsSynced n a period now hash s node c h)
  ],
  deregister-IsSynced answer s c h,
)

module _ (n : Net) (hash : ℕ) (s : Service) (node : Node) (nodes : List Node)
    (e : s.nodes ≡ node ∷ nodes) (f : n.hash s ≡ some hash) where
  register_sent :
      (a : Answers) (period now : ℕ) (c : Consul)
      → lookup s.name c.registered ≡ none
      → register n a period now s c ≡ register_fully n a period now hash s node c
  unfolding register register_node
  register_sent a period now c g = ground (arith, e, f, g)

  register_stands :
      (a : Answers) (now then' : ℕ) (c : Consul)
      → lookup s.name c.registered ≡ some hash
      → lookup s.name c.last_checked ≡ some then'
      → now - then' ≤ deregister_ttl (or_else c.tcp_check 0)
      → register n a 0 now s c ≡ (none, c)
  unfolding register register_node still_registered
  register_stands a now then' c g l t = ground (arith, e, f, g, l, nat_beq_iff hash hash)

  -- A registration without a TTL that the agent took is not sent again: while the time after which Consul
  -- might have dropped it has not passed, a second one of the same service, which has its old hash, returns
  -- no error and makes no call at all.
  pub register_again :
      (a b : Answers) (now later : ℕ) (c : Consul)
      → lookup s.name c.registered ≡ none
      → a.registers ≡ none
      → later - now ≤ deregister_ttl (or_else c.tcp_check 0)
      → let d = (register n a 0 now s c).1 in
        (register n b 0 later s d ≡ (none, d))
        × (d.calls ≡ c.calls ++ registers (registration n 0 s node c) ∷ [])
  unfolding register_fully
  register_again a b now later c g ok t = rw (register_sent a 0 now c g) (
    register_stands b later now (register_fully n a 0 now hash s node c).1
        (ground (arith, ok, lookup-insert_self s.name hash c.registered))
        (ground (arith, ok, lookup-insert_self s.name now c.last_checked)) (ground (arith, ok, t)),
    ground (arith, ok),
  )

  -- After a deregistration of its name the next registration of a service is always sent to the agent, even
  -- if its hash is the one of before.
  pub register-deregister :
      (a : Answers) (answer : Option ℕ) (period now : ℕ) (c : Consul)
      → let d = (deregister answer s c).1 in
        register n a period now s d ≡ register_fully n a period now hash s node d
  unfolding deregister
  register-deregister a answer period now c =
      register_sent a period now (deregister answer s c).1
        (ground (arith, e, lookup-remove s.name s.name c.registered, eq_iff s.name s.name))
