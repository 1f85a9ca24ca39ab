-- ===== src/Broker/Http/Publish.antt =====
-- broker/http/http.go: `Publish`. The HTTP client, the codec, the registry and the random choice
-- are a record of the answers that they give; each POST is one event of the network's log.
use Prim.Native.String.{◌++◌ as str_append}
use go_plugins.Prelude.{
  ℕ, suc, ◌%◌, String, Bool, true, false, ◌&&◌, List, [], ◌∷◌, ◌++◌, Option, none, some, ◌==◌,
  string_eq, if◌then◌else◌, or_else, length, keep, get_elem?,
}
use go_plugins.Prelude.Dict.{Dict, lookup, insert}
use go_plugins.Prelude.Outcome.{Outcome, ok, err}
use go_plugins.Registry.{Node, Service}
use go_plugins.Broker.Http.State.{Broker, save_message, get_message}

pub record Message : Type 0 where
  pub header : Dict String String
  pub body : String

-- The world outside: `post n uri msg` is whether the n-th POST succeeds, `pick n` the n-th random
-- number, `marshal` the codec, `query` the encoding of the form value `id`.
pub record World : Type 0 where
  pub post : ℕ → String → String → Bool
  pub pick : ℕ → ℕ
  pub marshal : Message → Option String
  pub query : String → String

-- The broker with the POSTs that it has made, each with its success, and the messages of which
-- every attempt is known.
pub record Net : Type 0 where
  pub broker : Broker
  pub sent : List (String × String × Bool)

abbrev pub meta : Node → String → String
meta node k = or_else (lookup k node.metadata) ""

-- `pub`'s target.
unfoldable pub uri : World → Node → String
uri w node =
    str_append (if meta node "secure" == "true" then "https" else "http")
      (str_append "://" (str_append node.address (str_append "/_sub?" (w.query node.id))))

-- `pub`: one POST.
unfoldable pub post_to : World → Node → String → Net → Bool × Net
unfolding uri
post_to w node msg n =
    let done = w.post (length n.sent) (uri w node) msg in
    (done, record n { sent = n.sent ++ (uri w node, msg, done) ∷ [] })

-- The nodes that `srv` uses.
unfoldable pub eligible : String → List Node → List Node
eligible topic nodes =
    keep (λ node. meta node "broker" == "http" && meta node "topic" == topic) nodes

-- The loop over all nodes; `success` as the loop leaves it.
unfoldable pub post_all : World → List Node → String → Bool → Net → Bool × Net
post_all w [] msg success n = (success, n)
post_all w (node ∷ nodes) msg success n =
    let (done, n') = post_to w node msg n in
    post_all w nodes msg (if done then true else success) n'

abbrev pub broadcast_version : String
broadcast_version = "ff.http.broadcast"

unfoldable pub save_net : String → String → Net → Net
save_net topic msg n = record n { broker = save_message topic msg n.broker }

-- `save_net` unless the attempt succeeded.
unfoldable pub settle : String → String → Bool × Net → Net
settle topic msg (true, n) = n
settle topic msg (false, n) = save_net topic msg n

-- `nodes[rand.Int()%len(nodes)]`, for a list that is not empty.
unfoldable pub pick_node : World → Net → Node → List Node → Node
pick_node w n node rest =
    or_else (get_elem? (node ∷ rest) (w.pick (length n.sent) % suc (length rest))) node

-- The body of `srv`'s loop, behind the filter.
unfoldable pub send_to : World → String → String → String → List Node → Net → Net
unfolding settle pick_node
send_to w topic msg version [] n = n
send_to w topic msg version (node ∷ rest) n =
    if version == broadcast_version
    then settle topic msg (post_all w (node ∷ rest) msg false n)
    else settle topic msg (post_to w (pick_node w n node rest) msg n)

-- `srv`.
unfoldable pub send : World → String → List Service → String → Net → Net
send w topic [] msg n = n
send w topic (s ∷ ss) msg n =
    send w topic ss msg (send_to w topic msg s.version (eligible topic s.nodes) n)

unfoldable pub send_all : World → String → List Service → List String → Net → Net
send_all w topic ss [] n = n
send_all w topic ss (msg ∷ msgs) n = send_all w topic ss msgs (send w topic ss msg n)

abbrev pub backlog : ℕ
backlog = 8

-- The goroutine of `Publish`.
unfoldable pub flush : World → String → List Service → Net → Net
flush w topic ss n =
    let (msgs, h) = get_message topic backlog n.broker in
    send_all w topic ss msgs (record n { broker = h })

-- The message as it is encoded: a copy of the header, with the topic.
unfoldable pub with_topic : String → Message → Message
with_topic topic m = record m { header = insert ":topic" topic m.header }

pub data PublishError : Type 0 where
  marshal_failed : PublishError
  registry_failed : ℕ → PublishError

-- `Publish`, with the goroutine run to its end; `found` is the registry's answer.
unfoldable pub publish :
    World → Outcome ℕ (List Service) → String → Message → Net → Option PublishError × Net
unfolding flush with_topic save_net
publish w found topic m n = elim (w.marshal (with_topic topic m)) [
  | none ↦ (some marshal_failed, n)
  | some b ↦ elim found [
    | err e ↦ (some (registry_failed e), save_net topic b n)
    | ok ss ↦ (none, flush w topic ss (save_net topic b n))
  ]
]
