-- ===== src/Micro/IpAllow/Examples.antt =====
-- Tests of the model of ip_allow, and its theorem at concrete inputs.
use go_plugins.Prelude.{
  String, ◌≡◌, refl, true, false, [], ◌∷◌, none, some, ◌==◌, string_eq, nat_eq, if◌then◌else◌, any,
}
use go_plugins.Prelude.Dict.{lookup, insert}
use go_plugins.Micro.IpAllow.{
  Ips, slashes, Allow, load_one, load, matches, forbidden, served, handle, empty,
}
use go_plugins.Micro.IpAllow.Matching.{lets_in, handle-load}

-- One network, and addresses that are their texts.
abbrev texts : Ips
texts = record {
  Ip = String;
  Network = String;
  parse_ip = λ s. if s == "" then none else some s;
  show_ip = λ o. elim o [ none ↦ "<nil>" | some s ↦ s ];
  parse_cidr = λ s. some s;
  show_network = λ n. n;
  contains = λ n o.
      if n == "10.0.0.0/8" then elim o [ none ↦ false | some s ↦ s == "10.1.2.3" ] else false;
  split_host_port = λ a. if a == "" then none else some a;
}

abbrev allowed : Allow texts
allowed = record { cidrs = ("10.0.0.0/8", "10.0.0.0/8") ∷ []; ips = ("1.1.1.1", true) ∷ [] }

loaded : load texts ("1.1.1.1" ∷ "10.0.0.0/8" ∷ []) (empty texts) ≡ some allowed
unfolding load load_one insert slashes
loaded = refl

handle-load_example : handle texts "10.1.2.3" allowed ≡ (
    if any (lets_in texts (λ m n e. e) "10.1.2.3") ("1.1.1.1" ∷ "10.0.0.0/8" ∷ [])
    then served
    else forbidden)
handle-load_example =
    handle-load texts (λ m n e. e) ("1.1.1.1" ∷ "10.0.0.0/8" ∷ []) allowed "10.1.2.3" loaded

handle_test : handle texts "2.2.2.2" allowed ≡ forbidden
unfolding handle matches lookup
handle_test = refl
