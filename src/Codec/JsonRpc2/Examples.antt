-- ===== src/Codec/JsonRpc2/Examples.antt =====
-- Tests of the JSON-RPC codec's model, and its theorems at concrete inputs.
use go_plugins.Prelude.{
  ℕ, String, ◌≡◌, ◌≢◌, refl, true, false, [], ◌∷◌, none, some, ◌==◌, string_eq, nat_eq,
  if◌then◌else◌, length, inl,
}
use go_plugins.Prelude.Dict.{lookup}
use go_plugins.Codec.JsonRpc2.Json.{null, codes, Object, Message, response, num, text, key_eq}
use go_plugins.Codec.JsonRpc2.Errors.{looks_like_json, detect, method_not_found}
use go_plugins.Codec.JsonRpc2.Server
use go_plugins.Codec.JsonRpc2.Server.{
  Server, new_server, read_header, write, unmarshal, invalid_sequence, bump, value, nil, refused,
  bad_members, bad_params, bad_id, kept_id,
}
use go_plugins.Codec.JsonRpc2.Members.{IsWellFormed, unmarshal-IsWellFormed}
use go_plugins.Codec.JsonRpc2.Pending.{
  run, reads, read_header_accepts, read_header_refuses, write_always_fails,
}
use go_plugins.Codec.JsonRpc2.Client
use go_plugins.Codec.JsonRpc2.Client.{Client, Response, id_text, id_number, new_client, seq_notify}
use go_plugins.Codec.JsonRpc2.Correlation.{
  is_notification, accept-write, unmarshal_exclusive, read_header_panics, write_all,
}

wrapped : looks_like_json "{\"code\":1}" ≡ true
unfolding looks_like_json
wrapped = refl

plain :
    detect "rpc: can't find method Foo"
    ≡ record { code = method_not_found; message = "rpc: can't find method Foo" }
unfolding detect
plain = refl

abbrev ping : Server.Request
ping = record { version = "2.0"; method = "Ping"; params = none; id = some (codes "7") }

abbrev ping_object : Object
ping_object =
    ("jsonrpc", some (codes "2")) ∷ ("method", some (codes "P")) ∷ ("id", some (codes "7")) ∷ []

-- Every value reads as the same request.
abbrev server_json : Server.Json
server_json = record {
  into_request = λ b. some ping;
  into_object = λ b. some ping_object;
  into_value = λ b. true;
  writes = λ r. true;
  left_over = λ b. ping;
}

accepted : unmarshal server_json null ≡ some ping
unfolding unmarshal bad_members bad_params bad_id kept_id lookup
accepted = refl

unmarshal-IsWellFormed_example : IsWellFormed ping_object ping
unmarshal-IsWellFormed_example =
    unmarshal-IsWellFormed server_json null ping_object ping refl
      (((refl, (refl, tt)), ((refl, tt), (tt, tt)))) accepted

abbrev message : Message
message = record { id = "1"; kind = response; endpoint = "Ping"; error = "" }

abbrev decimal : ℕ → String
decimal n = if n == 1 then "1" else "2"

read_header_accepts_example :
    (read_header server_json decimal (some null) message new_server).1.id ≡ "1"
unfolding new_server
read_header_accepts_example =
    (read_header_accepts server_json decimal null message new_server ping (num 1) accepted).1

refuses : (read_header server_json decimal none message new_server).0 ≢ none
unfolding read_header
refuses e = cc

read_header_refuses_example : (read_header server_json decimal none message new_server).1 ≡ message
read_header_refuses_example =
    (read_header_refuses server_json decimal none message new_server refuses).1

write_always_fails_example :
    write server_json message
      (value null)
      (run server_json decimal (reads (some null) message ∷ []) new_server)
    ≡ (some invalid_sequence, run server_json decimal (reads (some null) message ∷ []) new_server)
write_always_fails_example =
    write_always_fails server_json decimal (reads (some null) message ∷ []) message (value null)

abbrev answer : Response
answer = record { version = "2.0"; id = id_text "1"; result = some null; error = none }

abbrev answer_object : Object
answer_object = ("jsonrpc", some (codes "2")) ∷ ("id", some (codes "1")) ∷ ("result", none) ∷ []

abbrev client_json : Client.Json
client_json = record {
  into_response = λ b. some (record {
    version = "2.0";
    id = if length b == 4 then id_text "1" else id_number 1;
    result = none;
    error = none;
  });
  into_object = λ b. some answer_object;
  into_value = λ b. true;
  writes = λ r. true;
  error_text = λ e. "";
  parse_int = λ s. 1;
  left_over = λ b. answer;
}

answered : Client.unmarshal client_json null ≡ some answer
unfolding Client.unmarshal Client.bad_members Client.bad_error_member Client.kept_result lookup
answered = refl

unmarshal_exclusive_example : answer.version ≡ "2.0"
unmarshal_exclusive_example =
    (unmarshal_exclusive client_json null answer_object answer refl answered).0

abbrev numbered : Response
numbered = record answer { id = id_number 1 }

numbered_read : Client.unmarshal client_json [] ≡ some numbered
unfolding Client.unmarshal Client.bad_members Client.bad_error_member Client.kept_result lookup
numbered_read = refl

read_header_panics_example :
    Client.read_header client_json (some []) message new_client ≡ Client.panics
read_header_panics_example =
    read_header_panics client_json [] message new_client numbered numbered_read (inl (1, refl))

written : (Client.write client_json message Client.nil new_client).0 ≡ none
unfolding Client.write Client.params_of
written = refl

no_notification : is_notification client_json message ≡ false
unfolding is_notification
no_notification = refl

accept-write_example :
    (d : Client) × (q : Message) × (Client.accept client_json answer message (
        write_all client_json
          ((record message { id = "2" }, Client.nil) ∷ [])
          (Client.write client_json message Client.nil new_client).1)
      ≡ Client.returns (none, q, d))
    × (q.endpoint ≡ "Ping")
    × (q.id ≡ "1")
    × ((k : _)
        → lookup k d.pending ≡ (
            if text "1" == k
            then none
            else lookup k
                (write_all client_json
                  ((record message { id = "2" }, Client.nil) ∷ [])
                  (Client.write client_json message Client.nil new_client).1).pending))
accept-write_example =
    accept-write client_json message message Client.nil new_client
      ((record message { id = "2" }, Client.nil) ∷ []) answer written no_notification (refl, tt)
      refl
