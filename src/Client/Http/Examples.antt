-- ===== src/Client/Http/Examples.antt =====
-- Tests of the HTTP client's model, and its theorems at concrete inputs.
use go_plugins.Prelude.{
  ℕ, String, ◌≡◌, refl, true, false, [], ◌∷◌, none, some, ◌==◌, nat_eq, string_eq, if◌then◌else◌,
}
use go_plugins.Prelude.Dict.{lookup}
use go_plugins.Prelude.Outcome.{Outcome, ok, err}
use go_plugins.Client.Http.{
  Node, internal, not_found, no_service, fixed, remote, next, World, Mark, Retry, call_all, Coding,
  call,
}
use go_plugins.Client.Http.Retries.{stream_all_lem}
use go_plugins.Client.Http.Streams.{Stream, stream_all}
use go_plugins.Client.Http.Publish.{
  Codecs, frame, new_message, publish, publish-new_message, topic_of,
}

abbrev node : Node
node = remote "10.0.0.1:80"

-- The second attempt gets an answer.
abbrev world : World ℕ
world = record {
  ends = λ i. false;
  backs_off = λ i. true;
  reply = λ i n. if i == 1 then ok 7 else err internal;
}

-- `Retry` goes on at every error, and stops without one.
abbrev on_error : Retry
on_error i e = elim e [ none ↦ ok false | some f ↦ ok true ]

abbrev failed : Mark
failed = record { node = node; fault = some internal }

abbrev answered : Mark
answered = record { node = node; fault = none }

second : call_all world (ok (fixed node)) false on_error 3 ≡ (ok 7, failed ∷ answered ∷ [])
unfolding call_all
second = refl

spent : call_all world (ok (fixed node)) false on_error 1 ≡ (err (some internal), failed ∷ [])
unfolding call_all
spent = refl

-- Without retries no attempt is made, and no error is returned.
no_retries : call_all world (ok (fixed node)) false on_error 0 ≡ (err none, [])
unfolding call_all
no_retries = refl

first_only :
    stream_all world (ok (fixed node)) false on_error 3 ≡ (err (some internal), failed ∷ [])
unfolding stream_all
first_only = refl

abbrev never : Retry
never i e = ok false

stream_all_lem_example :
    (stream_all world (ok (fixed node)) false on_error 3
      ≡ call_all world (ok (fixed node)) false (λ i e. on_error i none) 3)
    × (stream_all world (ok (fixed node)) false on_error 3
        ≡ stream_all world (ok (fixed node)) false never 3)
stream_all_lem_example = stream_all_lem world (ok (fixed node)) false on_error never 3 (λ i. refl)

-- The proxy's address goes before the option's, and both before the selector.
by_proxy :
    next "" "proxy:9" "greeter" ("10.0.0.2" ∷ []) (λ s. err no_service)
    ≡ ok (fixed (remote "proxy:9"))
unfolding next
by_proxy = refl

nowhere : next "" "" "greeter" [] (λ s. err no_service) ≡ err not_found
unfolding next
nowhere = refl

abbrev coding : Coding String
coding = record { marshal = λ s. some s; unmarshal = λ s. some s }

-- A response with an error status is an answer.
status_unread : call (some coding) (λ p. some (500, "oops")) node "/hello" [] "hi" ≡ ok "oops"
unfolding call
status_unread = refl

abbrev stream : Stream
stream = record {
  address = "10.0.0.1:80";
  endpoint = "/hello";
  header = [];
  closed = false;
  fault = none;
  written = [];
}

abbrev no_codecs : Codecs ℕ
no_codecs = record { options = []; default = λ r n. some "" }

unlisted : lookup "application/proto" no_codecs.options ≡ none
unfolding lookup
unlisted = refl

publish-new_message_example :
    publish no_codecs (λ s. none) "" "" [] (new_message "news" (frame "raw") "") false
    ≡ (some internal, false, none)
publish-new_message_example =
    publish-new_message no_codecs (λ s. none) "" "" "news" [] (frame "raw") false unlisted

by_exchange : topic_of "" "exchange" "news" ≡ "exchange"
unfolding topic_of
by_exchange = refl
