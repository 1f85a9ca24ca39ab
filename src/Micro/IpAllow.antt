-- ===== src/Micro/IpAllow.antt =====
-- micro/ip_allow/ip_allow.go: the list of addresses and networks, and the handler. The addresses and
-- networks of package net are parameters; `none` is the exit of a fatal log line.
pub mod Matching
mod Examples
use Prim.Native.Char.{code}
use go_plugins.Prelude.{
  ℕ, ◌+◌, String, Bool, true, false, ◌||◌, List, [], ◌∷◌, Option, none, some, ◌==◌, string_eq,
  nat_eq, if◌then◌else◌, or_else, any,
}
use go_plugins.Prelude.Dict.{Dict, lookup, insert}

-- `net.ParseIP`, whose nil is `none`, `IP.String`, `net.ParseCIDR`, `IPNet.String`, `IPNet.Contains` and
-- `net.SplitHostPort`.
pub record Ips : Type 1 where
  pub Ip : Type 0
  pub Network : Type 0
  pub parse_ip : String → Option Ip
  pub show_ip : Option Ip → String
  pub parse_cidr : String → Option Network
  pub show_network : Network → String
  pub contains : Network → Option Ip → Bool
  pub split_host_port : String → Option String

-- The number of slashes: one less than that of the parts.
unfoldable pub slashes : String → ℕ
slashes String.[] = 0
slashes (String.◌∷◌ c s) = let n = slashes s in if code c == b'/' then n + 1 else n

module _ (p : Ips) where
  pub record Allow : Type 0 where
    pub cidrs : Dict String p.Network
    pub ips : Dict String Bool

  -- The body of the loop of `load`.
  unfoldable pub load_one : String → Allow → Option Allow
  load_one ip w =
      if slashes ip == 0
      then some (record w { ips = insert ip true w.ips })
      else if slashes ip == 1
      then elim (p.parse_cidr ip) [
        | none ↦ none
        | some n ↦ some (record w { cidrs = insert (p.show_network n) n w.cidrs })
      ]
      else none

  unfoldable pub load : List String → Allow → Option Allow
  unfolding load_one
  load [] w = some w
  load (ip ∷ ips) w = elim (load_one ip w) [ none ↦ none | some w' ↦ load ips w' ]

  unfoldable pub matches : String → Allow → Bool
  matches ip w =
      let nip = p.parse_ip ip in
      or_else (lookup (p.show_ip nip) w.ips) false
      || any (λ (kv : String × p.Network). p.contains kv.1 nip) w.cidrs

  pub data Outcome : Type 0 where
    forbidden served : Outcome

  -- `Handler`, on the remote address.
  unfoldable pub handle : String → Allow → Outcome
  unfolding matches
  handle addr w = elim (p.split_host_port addr) [
    | none ↦ served
    | some ip ↦ if matches ip w then served else forbidden
  ]

  abbrev pub empty : Allow
  empty = record { cidrs = []; ips = [] }
