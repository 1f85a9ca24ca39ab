-- ===== src/Broker/Http/State.antt =====
-- broker/http/http.go: the broker, its inbox of offline messages and its subscribers.
use go_plugins.Prelude.{
  ℕ, String, Bool, not, List, [], ◌∷◌, ◌++◌, Option, none, some, ◌==◌, string_eq, nat_eq,
  if◌then◌else◌, or_else, length, ltb, leb, take, drop, keep,
}
use go_plugins.Prelude.Dict.{Dict, lookup, insert}
use go_plugins.Registry.{Service}

-- A `*httpSubscriber`: `ref` is the pointer, by which subscribers are compared; `handler` names the
-- function.
pub record Subscriber : Type 0 where
  pub ref : ℕ
  pub id : String
  pub topic : String
  pub handler : ℕ
  pub svc : Service

-- What the broker asks of its registry.
pub data Call : Type 0 where
  registers deregisters : Service → Call

pub record Broker : Type 0 where
  pub id : String
  pub address : String
  pub addrs : List String
  pub secure : Bool
  pub subscribers : Dict String (List Subscriber)
  pub running : Bool
  pub inbox : Dict String (List String)
  pub next_ref : ℕ
  pub calls : List Call

abbrev pub max_inbox : ℕ
max_inbox = 64

abbrev pub messages : Broker → String → List String
messages h topic = or_else (lookup topic h.inbox) []

-- The cut of a queue that has grown past `limit`.
unfoldable pub capped : ℕ → List String → List String
capped limit c = if ltb limit (length c) then take limit c else c

-- `saveMessage`.
unfoldable pub save_message : String → String → Broker → Broker
save_message topic msg h = record h {
  inbox = insert topic (capped max_inbox (messages h topic ++ msg ∷ [])) h.inbox;
}

-- `getMessage`: at most `num` messages, which leave the inbox.
unfoldable pub get_message : String → ℕ → Broker → List String × Broker
get_message topic num h = elim (lookup topic h.inbox) [
  | none ↦ ([], h)
  | some c ↦
      if leb num (length c)
      then (take num c, record h { inbox = insert topic (drop num c) h.inbox })
      else (c, record h { inbox = insert topic [] h.inbox })
]

abbrev pub subscribers_of : Broker → String → List Subscriber
subscribers_of h topic = or_else (lookup topic h.subscribers) []

-- `subscribe`: `fault` is the registry's answer.
unfoldable pub subscribe : Option ℕ → Subscriber → Broker → Option ℕ × Broker
subscribe fault s h =
    let asked = record h { calls = h.calls ++ registers s.svc ∷ [] } in
    elim fault [
      | some e ↦ (some e, asked)
      | none ↦ (
        none,
        record asked {
          subscribers = insert s.topic (subscribers_of h s.topic ++ s ∷ []) h.subscribers;
        },
      )
    ]

-- The loop of `unsubscribe`: what is kept, and the services that are deregistered.
unfoldable pub without_ref : ℕ → List Subscriber → List Subscriber
without_ref r subs = keep (λ sub. not (sub.ref == r)) subs

unfoldable pub dropped_calls : ℕ → List Subscriber → List Call
dropped_calls r [] = []
dropped_calls r (sub ∷ subs) =
    let rest = dropped_calls r subs in if sub.ref == r then deregisters sub.svc ∷ rest else rest

unfoldable pub unsubscribe : Subscriber → Broker → Broker
unfolding without_ref dropped_calls
unsubscribe s h = record h {
  subscribers = insert s.topic (without_ref s.ref (subscribers_of h s.topic)) h.subscribers;
  calls = h.calls ++ dropped_calls s.ref (subscribers_of h s.topic);
}
