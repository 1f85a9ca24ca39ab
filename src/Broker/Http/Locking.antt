-- ===== src/Broker/Http/Locking.antt =====
-- broker/http/http.go: the broker's lock and the channel `exit`, between `Disconnect` and the heartbeat
-- of `run`. `Disconnect` sends on `exit` while it holds the lock; the heartbeat takes it for reading.
use go_plugins.Prelude.{◌≡◌, ◌≢◌, ◌⊎◌, inl, inr, refl, arith, Bool, true, false}

-- The goroutine: in its `select`, behind a tick, with the lock for reading, with the channel that the
-- exit brought, and behind it, where it deregisters the services.
pub data Loop : Type 0 where
  selecting ticked beating closing ended : Loop

-- The call: before the lock, with the lock and before the exit, waiting for the error, and over.
pub data Caller : Type 0 where
  calling sending waiting returned : Caller

pub record Lock : Type 0 where
  pub loop : Loop
  pub caller : Caller

pub data Step (s t : Lock) : Type 0 where
  tick : s.loop ≡ selecting → t ≡ record s { loop = ticked } → Step s t
  -- The lock for reading, which the call does not hold before it locks and behind its return.
  read_lock :
      s.loop ≡ ticked
      → (s.caller ≡ calling) ⊎ (s.caller ≡ returned)
      → t ≡ record s { loop = beating }
      → Step s t
  read_unlock : s.loop ≡ beating → t ≡ record s { loop = selecting } → Step s t
  lock : s.caller ≡ calling → s.loop ≢ beating → t ≡ record s { caller = sending } → Step s t
  -- `h.exit <- ch` meets `<-h.exit`.
  exit :
      s.caller ≡ sending
      → s.loop ≡ selecting
      → t ≡ record { loop = closing; caller = waiting }
      → Step s t
  -- `ch <- l.Close()` meets `<-ch`.
  close :
      s.caller ≡ waiting
      → s.loop ≡ closing
      → t ≡ record { loop = ended; caller = returned }
      → Step s t

pub data Reach (s : Lock) : Lock → Type 0 where
  here : Reach s s
  next : {t u : Lock} → Reach s t → Step t u → Reach s u

abbrev pub start : Lock
start = record { loop = selecting; caller = calling }

abbrev pub jammed : Lock
jammed = record { loop = ticked; caller = sending }

abbrev pub over : Lock
over = record { loop = ended; caller = returned }

jammed_stuck : (t : Lock) → ¬ Step jammed t
jammed_stuck t (tick l e) = cc
jammed_stuck t (read_lock l (inl c) e) = cc
jammed_stuck t (read_lock l (inr c) e) = cc
jammed_stuck t (read_unlock l e) = cc
jammed_stuck t (lock c l e) = cc
jammed_stuck t (exit c l e) = cc
jammed_stuck t (close c l e) = cc

-- From the start, a tick and then the call's lock lead to a state from which neither can make a step
-- again: `Disconnect` waits for the loop, and the loop for the lock.
pub disconnect_deadlock : Reach start jammed × ((t : Lock) → ¬ Step jammed t)
disconnect_deadlock = (next (next here (tick refl refl)) (lock refl (λ e. cc) refl), jammed_stuck)

-- The states of the two that go together.
abbrev fits : Loop → Caller → Bool
fits selecting calling = true
fits selecting sending = true
fits ticked calling = true
fits ticked sending = true
fits beating calling = true
fits closing waiting = true
fits ended returned = true
fits _ _ = false

step-fits : (s t : Lock) → fits s.loop s.caller ≡ true → Step s t → fits t.loop t.caller ≡ true
step-fits s t h (tick l e) = ground arith
step-fits s t h (read_lock l c e) = ground arith
step-fits s t h (read_unlock l e) = ground arith
step-fits s t h (lock c l e) = ground arith
step-fits s t h (exit c l e) = ground arith
step-fits s t h (close c l e) = ground arith

reach-fits : (s : Lock) → Reach start s → fits s.loop s.caller ≡ true
reach-fits s here = refl
reach-fits s (next {t = t} r x) = step-fits t s (reach-fits t r) x

abbrev Stuck : Lock → Type 0
Stuck s = (t : Lock) → ¬ Step s t

stuck :
    (l : Loop) (c : Caller)
    → fits l c ≡ true
    → Stuck (record { loop = l; caller = c })
    → (record { loop = l; caller = c } ≡ jammed) ⊎ (record { loop = l; caller = c } ≡ over)
stuck selecting c h halt = absurd (halt _ (tick refl refl))
stuck beating c h halt = absurd (halt _ (read_unlock refl refl))
stuck ticked calling h halt = absurd (halt _ (read_lock refl (inl refl) refl))
stuck ticked sending h halt = inl refl
stuck ticked waiting h halt = ground arith
stuck ticked returned h halt = ground arith
stuck closing waiting h halt = absurd (halt _ (close refl refl refl))
stuck closing calling h halt = ground arith
stuck closing sending h halt = ground arith
stuck closing returned h halt = ground arith
stuck ended returned h halt = inr refl
stuck ended calling h halt = ground arith
stuck ended sending h halt = ground arith
stuck ended waiting h halt = ground arith

-- Wherever a disconnect and the heartbeat come to from the start and cannot go on, the call has
-- returned and the goroutine has ended, or the goroutine wants the lock that the call holds.
pub disconnect_stuck :
    (s : Lock) → Reach start s → ((t : Lock) → ¬ Step s t) → (s ≡ jammed) ⊎ (s ≡ over)
disconnect_stuck s r halt = stuck s.loop s.caller (reach-fits s r) halt
