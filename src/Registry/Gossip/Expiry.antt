-- ===== src/Registry/Gossip/Expiry.antt =====
-- Proofs about the expiry loop of registry/gossip/gossip.go, and about nil services.
use Prim.Native.String.{len}
use go_plugins.Prelude.{
  ℕ, String, ◌≡◌, refl, Bool, false, not, List, [], ◌∷◌, ◌++◌, Option, none, some, arith, ◌==◌,
  string_eq, nat_eq, nat_beq_iff, eq_iff, if◌then◌else◌, or_else, ltb, Option-cases, inl, inr, ◌⊎◌,
  All, map, keep, ap,
}
use go_plugins.Prelude.Dict.{Dict, lookup}
use go_plugins.Registry.Gossip.State.{
  Gossip, Util, Update, PbUpdate, create, delete, service_type, json, decode_update, notify_msg,
}
use go_plugins.Registry.Gossip.Run.{unexpired, expired, expiry_tick, run_update, run, drain}

-- A due update is one whose time lies before `now`.
abbrev is_due : ℕ → Update → Bool
is_due now v = ltb v.pb.expires now

-- Keys stand once, as in every map of Go.
abbrev pub Lacks : ℕ → Dict ℕ Update → Type 0
Lacks k m = All (λ (kv : ℕ × Update). (kv.0 == k) ≡ false) m

abbrev pub HasOwnKeys : Dict ℕ Update → Type 0
HasOwnKeys [] = Unit {0}
HasOwnKeys ((k, v) ∷ m) = Lacks k m × HasOwnKeys m

lookup-Lacks : (k : ℕ) (m : Dict ℕ Update) → Lacks k m → lookup k m ≡ none
unfolding lookup
lookup-Lacks k [] h = refl
lookup-Lacks k ((j, v) ∷ m) h = ground (arith, lookup-Lacks k m h.1)

-- An option that a test lets through.
abbrev pub keep_if : (Update → Bool) → Option Update → Option Update
keep_if p none = none
keep_if p (some v) = if p v then some v else none

lookup-unexpired :
    (now k : ℕ) (m : Dict ℕ Update)
    → HasOwnKeys m
    → lookup k (unexpired now m) ≡ keep_if (λ v. not (is_due now v)) (lookup k m)
unfolding lookup unexpired
lookup-unexpired now k [] h = refl
lookup-unexpired now k ((j, v) ∷ m) h =
    ground (arith, lookup-unexpired now k m h.1, lookup-Lacks j m h.0, nat_beq_iff j k)

-- What is sent for an update: itself with the action delete, its service and its time as they were.
abbrev pub withdrawn : Update → Update
withdrawn v = record {
  pb = record (v.pb) { action = delete };
  service = v.service;
  sync_chan = v.sync_chan;
}

-- The updates of a map, in its order.
abbrev pub updates_of : Dict ℕ Update → List Update
updates_of m = map (λ (kv : ℕ × Update). kv.1) m

expired_lem :
    (now : ℕ) (m : Dict ℕ Update)
    → expired now m ≡ map withdrawn (keep (λ v. ltb v.pb.expires now) (updates_of m))
unfolding expired
expired_lem now [] = refl
expired_lem now ((j, v) ∷ m) = ground (arith, expired_lem now m)

-- Where the map has each hash once, a tick keeps, under every hash, exactly the update that is not due;
-- it sends, for each update that is due and for no other, in the order of the map, the update with its
-- service and the action delete; it touches no stored service itself.
pub expiry_tick_lem :
    (now k : ℕ) (g : Gossip)
    → HasOwnKeys g.expiring
    → (lookup k (expiry_tick now g).expiring
        ≡ keep_if (λ v. not (ltb v.pb.expires now)) (lookup k g.expiring))
      × ((expiry_tick now g).pending
          ≡ g.pending ++ map withdrawn (keep (λ v. ltb v.pb.expires now) (updates_of g.expiring)))
      × ((expiry_tick now g).services ≡ g.services)
unfolding expiry_tick
expiry_tick_lem now k g own = (
  lookup-unexpired now k g.expiring own,
  ap (λ x. g.pending ++ x) (expired_lem now g.expiring),
  refl,
)

null_update : PbUpdate → Update
null_update up = record { pb = up; service = none; sync_chan = none }

decode_update_null :
    (u : Util) (up : PbUpdate)
    → up.kind ≡ service_type
    → lookup "Content-Type" up.metadata ≡ some json
    → u.unmarshal up.payload ≡ some none
    → decode_update u up ≡ some (null_update up)
unfolding decode_update null_update
decode_update_null u up k c n =
    ground (arith, eq_iff (or_else (lookup "Content-Type" up.metadata) "") json)

notify_msg_null :
    (u : Util) (b : String) (up : PbUpdate) (g : Gossip)
    → (len b == 0) ≡ false
    → u.unmarshal_pb b ≡ some up
    → up.kind ≡ service_type
    → lookup "Content-Type" up.metadata ≡ some json
    → u.unmarshal up.payload ≡ some none
    → notify_msg u b g ≡ record g { pending = g.pending ++ null_update up ∷ [] }
unfolding notify_msg null_update
notify_msg_null u b up g e p k c n =
    rw (e, p, notify_msg) (rw (decode_update_null u up k c n, notify_msg) refl)

run_update_null :
    (u : Util) (up : PbUpdate) (g : Gossip)
    → (up.action ≡ create) ⊎ (up.action ≡ delete)
    → run_update u (null_update up) g ≡ none
unfolding run_update null_update
run_update_null u up g a = ground arith

drain-append :
    (u : Util) (xs : List Update) (x : Update) (g : Gossip)
    → ((h : Gossip) → run_update u x h ≡ none)
    → drain u (xs ++ x ∷ []) g ≡ none
unfolding drain
drain-append u [] x g h = rw (h g, drain)
drain-append u (y ∷ xs) x g h = elim (Option-cases (run_update u y g)) [
  | inl e ↦ rw (e, drain)
  | inr (g', e) ↦ rw (e, drain) (drain-append u xs x g' h)
]

-- A message of a peer, to create or delete a service, whose JSON data is the value null, stops the registry: it is put on the
-- channel with a nil service, and the loop over the updates panics, whatever it holds before.
pub null_panics :
    (u : Util) (b : String) (up : PbUpdate) (g : Gossip)
    → (len b == 0) ≡ false
    → u.unmarshal_pb b ≡ some up
    → up.kind ≡ service_type
    → lookup "Content-Type" up.metadata ≡ some json
    → u.unmarshal up.payload ≡ some none
    → (up.action ≡ create) ⊎ (up.action ≡ delete)
    → run u (notify_msg u b g) ≡ none
unfolding run
null_panics u b up g e p k c n a =
    rw (notify_msg_null u b up g e p k c n)
      (drain-append u g.pending (null_update up) _ (λ h. run_update_null u up h a))
