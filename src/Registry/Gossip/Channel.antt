-- ===== src/Registry/Gossip/Channel.antt =====
-- registry/gossip/gossip.go: the channel `updates` between `run`, `expiryLoop` and the callers. The
-- expiry loop sends on it while it holds the lock of the map of updates; `run` takes that lock for
-- an update that it has received. A state counts what is on the channel.
use go_plugins.Prelude.{ℕ, zero, suc, ◌+◌, ◌≤◌, ◌<◌, ◌≡◌, refl, arith}

pub data Runner : Type 0 where
  receiving handling : Runner

-- `sending n`: the expiry loop holds the lock, with n updates still to send.
pub data Expirer : Type 0 where
  outside : Expirer
  sending : ℕ → Expirer

pub record Channel : Type 0 where
  pub held : ℕ
  pub runner : Runner
  pub expirer : Expirer

pub data Step (capacity : ℕ) (s t : Channel) : Type 0 where
  -- A call or a message puts an update on the channel.
  put : s.held < capacity → t ≡ record s { held = s.held + 1 } → Step capacity s t
  -- `run` receives.
  receive :
      (n : ℕ)
      → s.held ≡ n + 1
      → s.runner ≡ receiving
      → t ≡ record s { held = n; runner = handling }
      → Step capacity s t
  -- `run` takes the lock, changes the map and gives the lock back.
  handle :
      s.runner ≡ handling
      → s.expirer ≡ outside
      → t ≡ record s { runner = receiving }
      → Step capacity s t
  -- A tick takes the lock and finds n updates due.
  tick : (n : ℕ) → s.expirer ≡ outside → t ≡ record s { expirer = sending n } → Step capacity s t
  -- It sends one of them.
  send :
      (n : ℕ)
      → s.expirer ≡ sending (n + 1)
      → s.held < capacity
      → t ≡ record s { held = s.held + 1; expirer = sending n }
      → Step capacity s t
  -- It gives the lock back.
  unlock : s.expirer ≡ sending 0 → t ≡ record s { expirer = outside } → Step capacity s t

pub data Reach (capacity : ℕ) (s : Channel) : Channel → Type 0 where
  here : Reach capacity s s
  next : {t u : Channel} → Reach capacity s t → Step capacity t u → Reach capacity s u

abbrev pub start : Channel
start = record { held = 0; runner = receiving; expirer = outside }

-- `run` has an update in hand and waits for the lock; the expiry loop has the lock, an update to
-- send, and no room on the channel.
abbrev pub jammed : ℕ → Channel
jammed capacity = record { held = capacity; runner = handling; expirer = sending 1 }

filled : (capacity n : ℕ) → n ≤ capacity → Reach capacity start (record start { held = n })
filled capacity zero h = here
filled capacity (suc n) h =
    next (filled capacity n (omega arith)) (put (omega arith) (ground arith))

jammed-Reach : (n : ℕ) → Reach (suc n) start (jammed (suc n))
jammed-Reach n =
    next
      (next (next (filled (suc n) (suc n) (omega arith)) (receive n (omega arith) refl refl))
        (tick 2 refl refl))
      (send 1 refl (omega arith) (ground arith))

jammed_stuck : (capacity : ℕ) (t : Channel) → ¬ Step capacity (jammed capacity) t
jammed_stuck capacity t (put h e) = omega arith
jammed_stuck capacity t (receive n p r e) = cc
jammed_stuck capacity t (handle r o e) = cc
jammed_stuck capacity t (tick n o e) = cc
jammed_stuck capacity t (send n o h e) = omega arith
jammed_stuck capacity t (unlock o e) = ground arith

-- With room for any number of updates on the channel, calls, one tick with two due updates and the
-- loop of `run` can come to a state from which none of them can ever make a step again.
pub updates_deadlock :
    (n : ℕ)
    → Reach (suc n) start (jammed (suc n)) × ((t : Channel) → ¬ Step (suc n) (jammed (suc n)) t)
updates_deadlock n = (jammed-Reach n, jammed_stuck (suc n))
