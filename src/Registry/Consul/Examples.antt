-- ===== src/Registry/Consul/Examples.antt =====
-- Tests of the Consul registry's model, and its theorems at concrete inputs.
use Prim.Native.Char.{code}
use go_plugins.Prelude.{
  ◌+◌, String, ◌≡◌, refl, ap, Bool, true, false, ◌&&◌, List, [], ◌∷◌, ◌++◌, Option, none, some,
  ◌==◌, string_eq, nat_eq, if◌then◌else◌, arith, Bool-cases, inl, inr, is_some, is_nil, eq_iff, map,
  leb, ◌*◌, ◌≤◌,
}
use go_plugins.Prelude.Dict.{lookup}
use go_plugins.Registry.{Metadata, Value, value, nil, cons, Endpoint, Node, Service}
use go_plugins.Registry.Consul.Tags.{
  Util, decode_endpoints, decode_metadata, decode_version, encode_metadata, encode_endpoints,
  encode_version,
}
use go_plugins.Registry.Consul.Format.{IsLawful}
use go_plugins.Registry.Consul.RoundTrip.{
  tags_round_trip, decode_endpoints_foreign, written, AreNew,
}
use go_plugins.Registry.Consul.Agent.{
  Net, Consul, Answers, registration, deregister_ttl, second, minute, register, register_fully,
  deregister,
}
use go_plugins.Registry.Consul.Checks.{deregister_ttl_bounds, register-deregister}
use go_plugins.Registry.Consul.Find.{Entry, Found, services, get_service}
use go_plugins.Registry.Consul.Listing.{get_service-live_nodes, get_service-registration, entry_of}
use go_plugins.Registry.Consul.Joined.{IsReadable, HasOwnKeys, listed_service}

-- A format for pairs: the characters of the key, each behind an x, then a y and the value.
abbrev mark : String → String → String
mark String.[] v = String.◌∷◌ "y" v
mark (String.◌∷◌ c k) v = String.◌∷◌ "x" (String.◌∷◌ c (mark k v))

abbrev unmark : String → Option (String × String)
unmark String.[] = none
unmark (String.◌∷◌ m String.[]) = if code m == b'y' then some ("", "") else none
unmark (String.◌∷◌ m (String.◌∷◌ c rest)) =
    if code m == b'y'
    then some ("", String.◌∷◌ c rest)
    else elim (unmark rest) [ none ↦ none | some (k, v) ↦ some (String.◌∷◌ c k, v) ]

unmark-mark : (k v : String) → unmark (mark k v) ≡ some (k, v)
unmark-mark String.[] String.[] = refl
unmark-mark String.[] (String.◌∷◌ c v) = refl
unmark-mark (String.◌∷◌ c k) v = ground (arith, unmark-mark k v)

abbrev empty_value : Value → Bool
empty_value (value a b nil) = a == "" && b == ""
empty_value (value a b (cons x xs)) = false

-- An endpoint of which only the name is set.
abbrev simple : String → Endpoint
simple x = record { name = x; request = value "" "" nil; response = value "" "" nil; metadata = [] }

empty_value_lem : (v : Value) → empty_value v ≡ true → v ≡ value "" "" nil
empty_value_lem (value a b nil) h = ground (arith, h, eq_iff a "", eq_iff b "")
empty_value_lem (value a b (cons x xs)) h = absurd (ground (arith, h))

abbrev is_simple : Endpoint → Bool
is_simple e = empty_value e.request && (empty_value e.response && is_nil e.metadata)

is_simple_lem : (e : Endpoint) → is_simple e ≡ true → simple e.name ≡ e
is_simple_lem e h = ground (
  arith,
  h,
  empty_value_lem e.request (ground (arith, h)),
  empty_value_lem e.response (ground (arith, h)),
)

simple_lem :
    (e : Endpoint) (b : String)
    → (if is_simple e then some e.name else none) ≡ some b
    → some (some (simple b)) ≡ some (some e)
simple_lem e b h = elim (Bool-cases (is_simple e)) [
  | inl t ↦ ground (arith, h, t, is_simple_lem e t)
  | inr t ↦ absurd (ground (arith, h, t))
]

-- Nothing is compressed; only simple endpoints can be written.
abbrev util : Util
util = record {
  deflate = some;
  inflate = some;
  to_hex = λ z. z;
  of_hex = some;
  marshal_endpoint = λ e. if is_simple e then some e.name else none;
  unmarshal_endpoint = λ b. some (some (simple b));
  marshal_pair = λ kv. some (mark kv.0 kv.1);
  unmarshal_pairs = λ b. elim (unmark b) [ none ↦ none | some kv ↦ some (kv ∷ []) ];
}

util-IsLawful : IsLawful util
util-IsLawful = record {
  deflates = λ b. refl;
  zlib = λ b z h. ground (arith, h);
  hex = λ z. refl;
  json_endpoint = simple_lem;
  writes_pair = λ kv. refl;
  json_pair = λ kv b h. ground (arith, h, unmark-mark kv.0 kv.1);
}

abbrev metadata : Metadata
metadata = ("zone", "a") ∷ ("rack", "7") ∷ []

abbrev endpoints : List Endpoint
endpoints = simple "Say.Hello" ∷ record (simple "Say.Bye") { request = value "in" "" nil } ∷ []

distinct : AreNew [] metadata
unfolding lookup
distinct = (refl, (refl, tt))

tags_round_trip_example :
    let tags =
      encode_metadata util metadata
      ++ encode_endpoints util endpoints
      ++ encode_version util "1.2" in
    (decode_metadata util tags ≡ some metadata)
    × (decode_endpoints util tags ≡ some (written util endpoints))
    × (decode_version util tags ≡ some "1.2")
tags_round_trip_example = tags_round_trip util util-IsLawful metadata endpoints "1.2" distinct

decode_endpoints_foreign_example :
    decode_endpoints util ("env=prod" ∷ encode_endpoints util endpoints)
    ≡ decode_endpoints util ("env=prod" ∷ [])
decode_endpoints_foreign_example = decode_endpoints_foreign util "n" "v=prod" endpoints refl refl

deregister_ttl_bounds_example :
    (deregister_ttl second ≡ (if leb second minute then minute else second) + 5 * second)
    × (second + 5 * second ≤ deregister_ttl second)
    × (minute ≤ deregister_ttl second)
deregister_ttl_bounds_example = deregister_ttl_bounds second

abbrev pub net : Net
net = record {
  codec = util;
  hash = λ s. some 7;
  split = λ a. if a == "10.0.0.1:80" then ("10.0.0.1", "80") else ("", "");
  atoi = λ p. if p == "80" then 80 else 0;
  host_port = λ h p. if p == 80 then "10.0.0.1:80" else h;
}

abbrev node : Node
node = record { id = "n1"; address = "10.0.0.1:80"; metadata = metadata }

abbrev service : Service
service = record {
  name = "greeter";
  version = "1.2";
  metadata = [];
  endpoints = endpoints;
  nodes = node ∷ [];
}

abbrev consul : Consul
consul = record {
  registered = [];
  last_checked = [];
  connect = false;
  tcp_check = none;
  calls = [];
}

-- The agent knows no check and takes the registration.
abbrev answers : Answers
answers = record { checked = some []; refreshed = some 500; registers = none; passed = none }

register-deregister_example :
    let d = (deregister none service consul).1 in
    register net answers 0 100 service d ≡ register_fully net answers 0 100 7 service node d
register-deregister_example =
    register-deregister net 7 service node [] refl refl answers none 0 100 consul

abbrev entry : Entry
entry = entry_of (registration net 0 service node consul) "10.0.0.9" ("passing" ∷ [])

abbrev down : Entry
down = record entry { id = "n2"; statuses = "passing" ∷ "critical" ∷ [] }

entry-IsReadable : IsReadable net entry
unfolding registration
entry-IsReadable =
    let (md, en, v) = tags_round_trip util util-IsLawful metadata endpoints "1.2" distinct in
    (ap is_some en, ap is_some md)

get_service-registration_example :
    get_service net "greeter" none (entry ∷ [])
    ≡ services (
        record {
          name = "greeter";
          version = "1.2";
          endpoints = written util endpoints;
          nodes = node ∷ [];
        }
        ∷ [])
get_service-registration_example =
    get_service-registration net 0 service node consul "10.0.0.9" ("passing" ∷ []) util-IsLawful
      distinct refl refl refl

get_service-live_nodes_example :
    (m : List (String × Found)) × (get_service net "greeter" none (down ∷ entry ∷ [])
      ≡ services (map (λ (kv : String × Found). kv.1) m))
    × HasOwnKeys m
    × ((v : String) → lookup v m ≡ listed_service net "greeter" v (down ∷ entry ∷ []))
get_service-live_nodes_example =
    get_service-live_nodes net "greeter" (down ∷ entry ∷ [])
      (entry-IsReadable, (entry-IsReadable, tt))
