-- ===== src/Transport/Nats/Queue.antt =====
-- The specification of a socket: a queue of any length.
use go_plugins.Prelude.{
  ℕ, ◌+◌, String, Bool, true, false, not, List, [], ◌∷◌, ◌++◌, Option, none, some, nat_eq,
  string_eq, if◌then◌else◌, ltb, ◌&&◌,
}
use go_plugins.Prelude.Dict.{Dict, lookup, insert, remove}
use go_plugins.Transport.Nats.{Msg, Event, arrive, take, refill, close, clear, put}

pub record Queue (D : Type 0) : Type 0 where
  pub reply : String
  pub waiting : List (Msg D)
  pub closed : Bool
  pub gone : Bool

pub record Queues (D : Type 0) : Type 0 where
  pub so : Dict String ℕ
  pub count : ℕ
  pub at : ℕ → Queue D

module _ {D : Type 0} where
  -- A message goes to the end, a take has the first one, and a refill has nothing to do.
  abbrev pub enqueue : Msg D → Queue D → Queue D
  enqueue m q = if q.closed then q else record q { waiting = q.waiting ++ (m ∷ []) }

  abbrev pub new_queue : Msg D → Queue D
  new_queue m = record { reply = m.reply; waiting = []; closed = false; gone = false }

  abbrev pub at_queue : ℕ → Queues D → Queue D → Queues D
  at_queue i s q = record s { at = put i q s.at }

  abbrev pub step : Event D → Queues D → Option (Queues D × Option (ℕ × Msg D))
  step (arrive m) s = elim (lookup m.reply s.so) [
    | none ↦ some (
      record {
        so = insert m.reply s.count s.so;
        count = s.count + 1;
        at = put s.count (enqueue m (new_queue m)) s.at;
      },
      none,
    )
    | some i ↦ some (at_queue i s (enqueue m (s.at i)), none)
  ]
  step (take i) s = elim (s.at i).waiting [
    | [] ↦ none
    | m ∷ ms ↦
        if ltb i s.count
        then some (at_queue i s (record (s.at i) { waiting = ms }), some (i, m))
        else none
  ]
  step (refill i) s = if ltb i s.count then some (s, none) else none
  step (close i) s =
      if ltb i s.count then some (at_queue i s (record (s.at i) { closed = true }), none) else none
  step (clear i) s =
      if ltb i s.count && (s.at i).closed && not (s.at i).gone
      then some (
        record (at_queue i s (record (s.at i) { gone = true })) { so = remove (s.at i).reply s.so },
        none,
      )
      else none

  unfoldable pub run : List (Event D) → Queues D → Option (Queues D × List (ℕ × Msg D))
  run [] s = some (s, [])
  run (e ∷ es) s = elim (step e s) [
    | none ↦ none
    | some (s', o) ↦ elim (run es s') [
      | none ↦ none
      | some (s'', os) ↦ some (s'', elim o [ none ↦ os | some p ↦ p ∷ os ])
    ]
  ]

  abbrev pub no_queues : Queues D
  no_queues = record {
    so = [];
    count = 0;
    at = λ i. record { reply = ""; waiting = []; closed = false; gone = false };
  }
