-- ===== src/Broker/Http/Serve.antt =====
-- broker/http/http.go: `ServeHTTP` and the two kinds of handlers' results.
use Prim.Native.String.{len}
use go_plugins.Prelude.{
  ℕ, String, ◌≡◌, sym, ◌≢◌, refl, false, not, List, [], ◌∷◌, Option, none, some, arith, ◌==◌,
  string_eq, nat_eq, if◌then◌else◌, or_else, keep, map, All,
}
use go_plugins.Prelude.Dict.{
  lookup, insert, remove, lookup-remove, lookup-insert, lookup-insert_self,
}
use go_plugins.Broker.Http.State.{Broker, Subscriber, subscribers_of}
use go_plugins.Broker.Http.Publish.{Message, with_topic}

-- A request as the handler reads it: the body (`none` if it cannot be read) and the form value `id`.
pub record Request : Type 0 where
  pub method : String
  pub body : Option String
  pub form_id : String

-- What the caller and the handlers see: the status, the handlers run, in order, each with the
-- message and the topic, and the error that the event keeps.
pub record Reply : Type 0 where
  pub status : ℕ
  pub runs : List (ℕ × Message × String)
  pub error : Option ℕ

abbrev refuse : ℕ → Reply
refuse code = record { status = code; runs = []; error = none }

-- The subscribers that a request is for.
unfoldable pub addressed : String → List Subscriber → List Subscriber
addressed id subs = keep (λ s. not (not (id == s.id))) subs

-- The loop over the handlers; `run` is what a handler returns for a message.
unfoldable pub run_all :
    (ℕ → Message → String → Option ℕ) → Message → String → List Subscriber → Option ℕ → Option ℕ
run_all run m t [] e = e
run_all run m t (s ∷ ss) e = run_all run m t ss (run s.handler m t)

abbrev topic_of : Message → String
topic_of m = or_else (lookup ":topic" m.header) ""

unfoldable pub dispatch : (ℕ → Message → String → Option ℕ) → String → Message → Broker → Reply
unfolding addressed run_all
dispatch run id m h =
    let t = topic_of m in
    let m' = record m { header = remove ":topic" m.header } in
    if len t == 0
    then refuse 500
    else (let subs = addressed id (subscribers_of h t) in
        record {
          status = 200;
          runs = map (λ (s : Subscriber). (s.handler, m', t)) subs;
          error = run_all run m' t subs none;
        })

-- `ServeHTTP`; `decode` is the codec.
unfoldable pub serve_http :
    (ℕ → Message → String → Option ℕ) → (String → Option Message) → Request → Broker → Reply
unfolding dispatch
serve_http run decode req h = if not (req.method == "POST") then refuse 405 else elim req.body [
  | none ↦ refuse 500
  | some b ↦ elim (decode b) [ none ↦ refuse 500 | some m ↦ dispatch run req.form_id m h ]
]

lookup-with_topic : (topic : String) (m : Message) → topic_of (with_topic topic m) ≡ topic
unfolding with_topic
lookup-with_topic topic m = ground (arith, lookup-insert_self ":topic" topic m.header)

-- What a handler is given, when `m` was published for `topic`.
pub record Sees (topic : String) (m : Message) (run : ℕ × Message × String) : Type 0 where
  pub topic_is : run.2 ≡ topic
  pub body_is : run.1.body ≡ m.body
  pub header_is :
      (k : String) → lookup k run.1.header ≡ (if ":topic" == k then none else lookup k m.header)

map-Sees :
    (topic : String) (m m' : Message) (subs : List Subscriber)
    → ((s : Subscriber) → Sees topic m (s.handler, m', topic))
    → All (Sees topic m) (map (λ (s : Subscriber). (s.handler, m', topic)) subs)
map-Sees topic m m' [] h = tt
map-Sees topic m m' (s ∷ ss) h = (h s, map-Sees topic m m' ss h)

map-handler :
    (topic : String) (m : Message) (subs : List Subscriber)
    → map (λ (r : ℕ × Message × String). r.0) (map (λ (s : Subscriber). (s.handler, m, topic)) subs)
      ≡ map (λ (s : Subscriber). s.handler) subs
map-handler topic m [] = refl
map-handler topic m (s ∷ ss) = cc (map-handler topic m ss)

abbrev stripped : String → Message → Message
stripped topic m = let m' = with_topic topic m in record m' { header = remove ":topic" m'.header }

stripped-Sees :
    (topic : String) (m : Message) (s : Subscriber)
    → Sees topic m (s.handler, stripped topic m, topic)
unfolding with_topic
stripped-Sees topic m s = record {
  topic_is = refl;
  body_is = refl;
  header_is = λ k. ground (
    arith,
    lookup-remove ":topic" k (insert ":topic" topic m.header),
    lookup-insert ":topic" k topic m.header,
  );
}

dispatch-with_topic :
    (run : ℕ → Message → String → Option ℕ) (id topic : String) (m : Message) (h : Broker)
    → (len topic == 0) ≡ false
    → ((dispatch run id (with_topic topic m) h).status ≡ 200)
      × (map (λ (r : ℕ × Message × String). r.0) (dispatch run id (with_topic topic m) h).runs
          ≡ map (λ (s : Subscriber). s.handler) (addressed id (subscribers_of h topic)))
      × All (Sees topic m) (dispatch run id (with_topic topic m) h).runs
unfolding dispatch
dispatch-with_topic run id topic m h e =
    rw (lookup-with_topic topic m, dispatch)
      (rw e (
        refl,
        map-handler topic (stripped topic m) (addressed id (subscribers_of h topic)),
        map-Sees topic m (stripped topic m) (addressed id (subscribers_of h topic))
            (stripped-Sees topic m),
      ))

addressed_lem :
    (id : String) (subs : List Subscriber) → addressed id subs ≡ keep (λ s. id == s.id) subs
unfolding addressed
addressed_lem id [] = refl
addressed_lem id (s ∷ ss) = ground (arith, addressed_lem id ss)

-- A message that was encoded for a topic with a name, POSTed to a broker, is handed exactly to the broker's
-- subscribers of that topic with the request's id, in the order in which they subscribed; each sees
-- the topic, the body and the header of the published message. The codec decodes what it encodes.
pub serve_http-publish :
    (run : ℕ → Message → String → Option ℕ) (marshal : Message → Option String)
    (decode : String → Option Message) (id topic b : String) (m : Message) (h : Broker)
    → ((x : Message) (t : String) → marshal x ≡ some t → decode t ≡ some x)
    → (len topic == 0) ≡ false
    → marshal (with_topic topic m) ≡ some b
    → let r = serve_http run decode (record { method = "POST"; body = some b; form_id = id }) h in
      (r.status ≡ 200)
      × (map (λ (q : ℕ × Message × String). q.0) r.runs
          ≡ map (λ (s : Subscriber). s.handler) (keep (λ s. id == s.id) (subscribers_of h topic)))
      × All (Sees topic m) r.runs
unfolding serve_http
serve_http-publish run marshal decode id topic b m h codec e p =
    rw (codec (with_topic topic m) b p, serve_http, sym (addressed_lem id (subscribers_of h topic)))
      (dispatch-with_topic run id topic m h e)

-- A request that is not answered by 200 runs no handler.
pub serve_http_refuses :
    (run : ℕ → Message → String → Option ℕ) (decode : String → Option Message) (req : Request)
    (h : Broker)
    → (serve_http run decode req h).status ≢ 200
    → ((serve_http run decode req h).runs ≡ []) × ((serve_http run decode req h).error ≡ none)
unfolding serve_http dispatch
serve_http_refuses run decode req h e = ground arith
