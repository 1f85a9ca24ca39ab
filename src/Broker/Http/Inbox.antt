-- ===== src/Broker/Http/Inbox.antt =====
-- Proofs about the inbox of broker/http/http.go: it is a bounded queue for each topic.
use go_plugins.Prelude.{
  zero, suc, ℕ, ◌≤◌, String, ◌≡◌, List, [], ◌∷◌, ◌++◌, arith, ◌==◌, string_eq, eq_iff,
  if◌then◌else◌, length, leb, take, drop, take-append, take_nil, drop_nil, take_all, drop_all,
  length-append, append-take-drop, length-drop, inl, inr, Option-cases,
}
use go_plugins.Prelude.Dict.{lookup, lookup-insert}
use go_plugins.Broker.Http.State.{Broker, max_inbox, messages, capped, save_message, get_message}

capped_snoc :
    (limit : ℕ) (c : List String) (msg : String)
    → length c ≤ limit
    → capped limit (c ++ msg ∷ []) ≡ (if leb limit (length c) then c else c ++ msg ∷ [])
unfolding capped
capped_snoc limit c msg h =
    ground (arith, length-append c (msg ∷ []), take-append limit c (msg ∷ []))

-- A full inbox drops the new message; one with room takes it at the end. Other topics are as before.
pub messages-save_message :
    (topic t msg : String) (h : Broker)
    → length (messages h topic) ≤ max_inbox
    → messages (save_message topic msg h) t ≡ (
        if topic == t
        then (if leb max_inbox (length (messages h topic))
            then messages h topic
            else messages h topic ++ msg ∷ [])
        else messages h t)
unfolding save_message
messages-save_message topic t msg h fits = ground (
  arith,
  lookup-insert topic t (capped max_inbox (messages h topic ++ msg ∷ [])) h.inbox,
  capped_snoc max_inbox (messages h topic) msg,
)

-- `getMessage` is the split of the topic's queue at `num`, whether or not the topic has a queue.
pub get_message-split :
    (topic : String) (num : ℕ) (h : Broker)
    → ((get_message topic num h).0 ≡ take num (messages h topic))
      × ((t : String)
          → messages (get_message topic num h).1 t
            ≡ (if topic == t then drop num (messages h topic) else messages h t))
unfolding get_message
get_message-split topic num h = elim (Option-cases (lookup topic h.inbox)) [
  | inl e ↦
      rw (e, get_message)
        (
          ground (arith, take_nil {A = String} num),
          λ t. ground (arith, drop_nil {A = String} num, eq_iff topic t),
        )
  | inr (c, e) ↦
      rw (e, get_message)
        (
          ground (arith, take_all num c),
          λ t. ground (
            arith,
            drop_all num c,
            lookup-insert topic t (drop num c) h.inbox,
            lookup-insert topic t [] h.inbox,
          ),
        )
]

length-take :
    {A : Type 0} (n : ℕ) (xs : List A)
    → length (take n xs) ≡ (if leb n (length xs) then n else length xs)
length-take zero xs = ground arith
length-take (suc n) [] = ground arith
length-take (suc n) (x ∷ xs) = ground (arith, length-take n xs)

-- `getMessage` takes the `num` oldest messages of its topic, or all where there are fewer; the rest
-- stay in order, and no other topic changes.
pub messages-get_message :
    (topic t : String) (num : ℕ) (h : Broker)
    → ((if topic == t then (get_message topic num h).0 else [])
          ++ messages (get_message topic num h).1 t
        ≡ messages h t)
      × (length (get_message topic num h).0
          ≡ (if leb num (length (messages h topic)) then num else length (messages h topic)))
messages-get_message topic t num h = ground (
  arith,
  (get_message-split topic num h).0,
  (get_message-split topic num h).1 t,
  append-take-drop num (messages h topic),
  length-take num (messages h topic),
  eq_iff topic t,
)

-- No topic holds more than 64 messages.
abbrev pub IsBounded : Broker → Type 0
IsBounded h = (t : String) → length (messages h t) ≤ max_inbox

-- When no topic has more than 64 messages, then it is so after a save.
pub save_message-IsBounded :
    (topic msg : String) (h : Broker) → IsBounded h → IsBounded (save_message topic msg h)
save_message-IsBounded topic msg h b t = ground (
  arith,
  messages-save_message topic t msg h (b topic),
  length-append (messages h topic) (msg ∷ []),
  b t,
  b topic,
)

pub get_message-IsBounded :
    (topic : String) (num : ℕ) (h : Broker) → IsBounded h → IsBounded (get_message topic num h).1
get_message-IsBounded topic num h b t =
    ground
      (arith, (get_message-split topic num h).1 t, length-drop num (messages h topic), b t, b topic)
