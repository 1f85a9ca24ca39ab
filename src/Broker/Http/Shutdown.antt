-- ===== src/Broker/Http/Shutdown.antt =====
-- Proofs about `Connect` and `Disconnect` of broker/http/http.go in any order.
use go_plugins.Prelude.{
  ℕ, String, ◌≡◌, true, false, List, [], ◌∷◌, Option, none, some, arith, string_eq, nat_eq, length,
  is_some,
}
use go_plugins.Prelude.Outcome.{Outcome, ok}
use go_plugins.Broker.Http.Lifecycle.{Running, connect, disconnect, finish}

-- One goroutine waits for an exit while the broker runs, and none while it does not.
pub record IsValid (r : Running) : Type 0 where
  pub waits : r.broker.running ≡ true → length r.loops ≡ 1
  pub idle : r.broker.running ≡ false → r.loops ≡ []

pub connect-IsValid : (l : Outcome ℕ String) (r : Running) → IsValid r → IsValid (connect l r).1
unfolding connect
connect-IsValid l r v = record { waits = λ h. ground arith; idle = λ h. ground arith }

abbrev pub after : Running → Option (Option ℕ × Running) → Running
after r none = r
after r (some (e, q)) = q

disconnect-IsValid : (c : Option ℕ) (r : Running) → IsValid r → IsValid (after r (disconnect c r))
unfolding disconnect
disconnect-IsValid c r v = record { waits = λ h. ground arith; idle = λ h. ground arith }

finish-IsValid : (r : Running) → IsValid r → IsValid (finish r)
unfolding finish
finish-IsValid r v = record { waits = λ h. ground arith; idle = λ h. ground arith }

-- What happens to a broker: its calls, and the end of a goroutine, at any time.
pub data Event : Type 0 where
  connects : Outcome ℕ String → Event
  disconnects : Option ℕ → Event
  finishes : Event

unfoldable pub step : Event → Running → Running
step (connects l) r = (connect l r).1
step (disconnects c) r = after r (disconnect c r)
step finishes r = finish r

unfoldable pub run_events : List Event → Running → Running
run_events [] r = r
run_events (e ∷ es) r = run_events es (step e r)

step-IsValid : (e : Event) (r : Running) → IsValid r → IsValid (step e r)
unfolding step
step-IsValid (connects l) r v = connect-IsValid l r v
step-IsValid (disconnects c) r v = disconnect-IsValid c r v
step-IsValid finishes r v = finish-IsValid r v

run_events-IsValid : (es : List Event) (r : Running) → IsValid r → IsValid (run_events es r)
unfolding run_events
run_events-IsValid [] r v = v
run_events-IsValid (e ∷ es) r v = run_events-IsValid es (step e r) (step-IsValid e r v)

disconnect-IsSome : (c : Option ℕ) (r : Running) → IsValid r → is_some (disconnect c r) ≡ true
unfolding disconnect
disconnect-IsSome c r v = ground arith

-- After any history of connects, disconnects and ends of goroutines, from a broker for which one
-- goroutine waits exactly while it runs, a disconnect that finds the goroutine at its channels, and
-- not in a heartbeat, meets one that waits for the exit.
pub disconnect_returns :
    (es : List Event) (c : Option ℕ) (r : Running)
    → IsValid r
    → is_some (disconnect c (run_events es r)) ≡ true
disconnect_returns es c r v = disconnect-IsSome c (run_events es r) (run_events-IsValid es r v)

-- A connect, a disconnect and the end of its goroutine leave a broker that does not run, at the
-- address that it had before.
pub finish-disconnect-connect :
    (a : String) (c : Option ℕ) (r : Running)
    → r.broker.running ≡ false
    → let q = finish (after r (disconnect c (connect (ok a) r).1)) in
      (q.broker.running ≡ false)
      × (q.broker.address ≡ r.broker.address)
      × (q.loops ≡ r.loops)
      × (q.exiting ≡ r.exiting)
unfolding finish disconnect connect
finish-disconnect-connect a c r h = (ground arith, ground arith, ground arith, ground arith)

-- From a broker that does not run, the end of the goroutine may come after the next connect: then the
-- broker runs, and its address
-- is the one from before the first connect and not that of the listener.
pub finish-connect_stale :
    (a b : String) (c : Option ℕ) (r : Running)
    → r.broker.running ≡ false
    → let q = finish (connect (ok b) (after r (disconnect c (connect (ok a) r).1))).1 in
      (q.broker.running ≡ true) × (q.broker.address ≡ r.broker.address)
unfolding finish disconnect connect
finish-connect_stale a b c r h = (ground arith, ground arith)
