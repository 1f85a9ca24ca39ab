-- ===== src/Registry/Nats/Deregister.antt =====
-- Proofs about the cache and the listeners of registry/nats/nats.go.
use mathlib.Core.List.{Mem}
use go_plugins.Prelude.{
  ℕ, ◌<◌, String, ◌≡◌, ◌⊎◌, inl, inr, Option-cases, Bool-cases, subst, sym, ap, ◌∙◌, nat_eq, ◌==◌,
  refl, true, false, List, [], ◌∷◌, Option, none, some, arith, string_eq, eq_iff, is_nil, is_some,
}
use go_plugins.Prelude.Dict.{lookup, insert, lookup-insert, lookup-insert_self}
use go_plugins.Prelude.Outcome.{Outcome, ok, err}
use go_plugins.Registry.{Service}
use go_plugins.Registry.Nats.Util.{add_service, add_services}
use go_plugins.Registry.Nats.Merge.{find_version, find_version-add_service, merged}
use go_plugins.Registry.Nats.State.{
  NatsRegistry, Fault, get_conn, cached, cache_service, register, deregister, answer, get,
}

add_service-ne-nil : (old : List Service) (s : Service) → is_nil (add_service old s) ≡ false
unfolding add_service
add_service-ne-nil [] s = refl
add_service-ne-nil (o ∷ old) s = ground arith

add_services_one :
    (old : List Service) (s : Service) → add_services old (s ∷ []) ≡ add_service old s
unfolding add_services
add_services_one old s = refl

-- `deregister` is the cache update of `register`: it always takes the branch that keeps the entry.
deregister_lem :
    (s : Service) (n : NatsRegistry)
    → deregister s n
      ≡ record n { services = insert s.name (add_service (cached n s.name) s) n.services }
unfolding deregister
deregister_lem s n =
    rw (add_services_one (cached n s.name) s, add_service-ne-nil (cached n s.name) s)

-- Deregistering never takes a service away. Whatever was cached, after `deregister s` the cache
-- still answers a query for the name of `s`, at the version of `s`, with `s` itself, and with the
-- cached nodes of that version merged in; no listener is removed and none is closed.
pub answer-deregister :
    (s : Service) (n : NatsRegistry)
    → (find_version s.version (answer (deregister s n) s.name get s.name)
        ≡ some (merged (find_version s.version (cached n s.name)) s))
      × ((deregister s n).listeners ≡ n.listeners)
      × ((deregister s n).closed ≡ n.closed)
unfolding answer
answer-deregister s n = rw deregister_lem (
  ground (
    arith,
    lookup-insert s.name s.name (add_service (cached n s.name) s) n.services,
    find_version-add_service s.version (cached n s.name) s,
    eq_iff s.name s.name,
    eq_iff s.version s.version,
  ),
  refl,
  refl,
)

-- A registration that returns no error leaves a cache that answers with the service, the cached
-- nodes of its version merged in, and a listener for its name.
pub answer-register :
    (dial : Outcome Fault ℕ) (sub : Option Fault) (s : Service) (n : NatsRegistry)
    → (register dial sub s n).0 ≡ none
    → (find_version s.version (answer (register dial sub s n).1 s.name get s.name)
        ≡ some (merged (find_version s.version (cached n s.name)) s))
      × (is_some (lookup s.name (register dial sub s n).1.listeners) ≡ true)
unfolding answer register cache_service
answer-register dial sub s n h = ground (
  arith,
  add_services_one (cached n s.name) s,
  lookup-insert s.name s.name (add_service (cached n s.name) s) n.services,
  lookup-insert s.name s.name n.next_chan n.listeners,
  find_version-add_service s.version (cached n s.name) s,
  eq_iff s.name s.name,
  eq_iff s.version s.version,
)

-- There is no error if the server takes the connection and the subscription.
pub register_ok : (c : ℕ) (s : Service) (n : NatsRegistry) → (register (ok c) none s n).0 ≡ none
unfolding register cache_service
register_ok c s n = ground arith

-- A channel that is some name's listener or was closed.
abbrev pub Holds : NatsRegistry → ℕ → Type 0
Holds n c = ((k : String) × (lookup k n.listeners ≡ some c)) ⊎ Mem c n.closed

-- Every listener is for a cached name, its channel was made, and no other name has it; and every channel
-- that was made is some name's listener or was closed.
pub record IsValid (n : NatsRegistry) : Type 0 where
  pub cached_names :
      (k : String) (c : ℕ) → lookup k n.listeners ≡ some c → is_some (lookup k n.services) ≡ true
  pub made : (k : String) (c : ℕ) → lookup k n.listeners ≡ some c → c < n.next_chan
  pub own :
      (j k : String) (c : ℕ) → lookup j n.listeners ≡ some c → lookup k n.listeners ≡ some c → j ≡ k
  pub held : (c : ℕ) → c < n.next_chan → Holds n c

module _ (n m : NatsRegistry) (c : ℕ) (closed : m.closed ≡ n.closed) where
  same_listeners : m.listeners ≡ n.listeners → Holds n c → Holds m c
  same_listeners e (inl (k, h)) = inl (k, ap (lookup k) e ∙ h)
  same_listeners e (inr h) = inr (subst (Mem c) (sym closed) h)

  new_listener :
      (name : String) (d : ℕ)
      → m.listeners ≡ insert name d n.listeners
      → lookup name n.listeners ≡ none
      → Holds n c
      → Holds m c
  new_listener name d e new (inr h) = inr (subst (Mem c) (sym closed) h)
  new_listener name d e new (inl (k, h)) =
      inl (k, ap (lookup k) e ∙ ground (arith, lookup-insert name k d n.listeners, eq_iff name k))

cache_service-Holds :
    (sub : Option Fault) (s : Service) (n : NatsRegistry) (c : ℕ)
    → ((c : ℕ) → c < n.next_chan → Holds n c)
    → c < (cache_service sub s n).1.next_chan
    → Holds (cache_service sub s n).1 c
unfolding cache_service
cache_service-Holds sub s n c h lt =
    let m = (cache_service sub s n).1 in
    elim (Option-cases (lookup s.name n.listeners)) [
      | inr (d, l) ↦ same_listeners n m c (ground arith) (ground arith) (h c (ground arith))
      | inl l ↦ elim (Option-cases sub) [
        | inr (e, x) ↦ same_listeners n m c (ground arith) (ground arith) (h c (ground arith))
        | inl x ↦
            let listeners : m.listeners ≡ insert s.name n.next_chan n.listeners = ground arith in
            elim (Bool-cases (c == n.next_chan)) [
              | inl new ↦ inl (
                s.name,
                ap (lookup s.name) listeners
                    ∙ ground (arith, lookup-insert_self s.name n.next_chan n.listeners),
              )
              | inr old ↦
                  new_listener n m c (ground arith) s.name n.next_chan listeners l
                    (h c (ground arith))
            ]
      ]
    ]

-- A connection changes nothing else.
get_conn_lem :
    (dial : Outcome Fault ℕ) (n : NatsRegistry)
    → ((get_conn dial n).1.listeners ≡ n.listeners)
      × ((get_conn dial n).1.closed ≡ n.closed)
      × ((get_conn dial n).1.next_chan ≡ n.next_chan)
unfolding get_conn
get_conn_lem dial n = ground arith

abbrev connected :
    Option Fault → Service → Outcome Fault ℕ × NatsRegistry → Option Fault × NatsRegistry
connected sub s (c, m) = elim c [ err e ↦ (some e, m) | ok _ ↦ cache_service sub s m ]

connected-Holds :
    (sub : Option Fault) (s : Service) (p : Outcome Fault ℕ × NatsRegistry) (c : ℕ)
    → ((c : ℕ) → c < p.1.next_chan → Holds p.1 c)
    → c < (connected sub s p).1.next_chan
    → Holds (connected sub s p).1 c
connected-Holds sub s (err e, m) c h = h c
connected-Holds sub s (ok d, m) c h = cache_service-Holds sub s m c h

register-Holds :
    (dial : Outcome Fault ℕ) (sub : Option Fault) (s : Service) (n : NatsRegistry) (c : ℕ)
    → ((c : ℕ) → c < n.next_chan → Holds n c)
    → c < (register dial sub s n).1.next_chan
    → Holds (register dial sub s n).1 c
unfolding register
register-Holds dial sub s n c h =
    let (listeners, closed, next) = get_conn_lem dial n in
    let m = (get_conn dial n).1 in
    connected-Holds sub s (get_conn dial n) c
      (λ d lt. same_listeners n m d closed listeners (h d (subst (λ x. d < x) next lt)))

module _ (dial : Outcome Fault ℕ) (sub : Option Fault) (s : Service) (n : NatsRegistry)
    (v : IsValid n) where
  pub register-IsValid : IsValid (register dial sub s n).1
  unfolding register cache_service
  register-IsValid = record {
    cached_names = λ k c h. ground (
      arith,
      lookup-insert s.name k (add_services (cached n s.name) (s ∷ [])) n.services,
      lookup-insert s.name k n.next_chan n.listeners,
      eq_iff s.name k,
      v.cached_names k c,
    );
    made = λ k c h.
        ground (arith, lookup-insert s.name k n.next_chan n.listeners, eq_iff s.name k, v.made k c);
    own = λ j k c h g. ground (
      arith,
      lookup-insert s.name j n.next_chan n.listeners,
      lookup-insert s.name k n.next_chan n.listeners,
      eq_iff s.name k,
      eq_iff s.name j,
      v.made j c,
      v.made k c,
      v.own j k c,
    );
    held = λ c h. register-Holds dial sub s n c v.held h;
  }

-- A deregistration keeps the listeners valid.
pub deregister-IsValid : (s : Service) (n : NatsRegistry) → IsValid n → IsValid (deregister s n)
deregister-IsValid s n v = rw deregister_lem (record {
  cached_names = λ k c h. ground (
    arith,
    lookup-insert s.name k (add_service (cached n s.name) s) n.services,
    eq_iff s.name k,
    v.cached_names k c,
  );
  made = v.made;
  own = v.own;
  held = v.held;
})
