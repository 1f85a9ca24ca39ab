-- ===== src/Micro/Router.antt =====
-- micro/router: routes.go, sort.go and router.go. The order of the routes, the match with its random
-- weight, and what is written. Floating-point numbers and `sort.Sort` are parameters; a request is read by
-- what its header and its query answer for a key.
pub mod Choice
mod Examples
use Prim.Native.Char.{code}
use Prim.Native.String
use Prim.Native.String.{◌++◌ as str_append}
use go_plugins.Prelude.{
  ℕ, ℤ, pos, negsuc, ◌+◌, String, Bool, true, false, not, ◌&&◌, ◌||◌, List, [], ◌∷◌, ◌++◌, Option,
  none, some, ◌==◌, string_eq, nat_eq, if◌then◌else◌, is_some, ltb,
}

abbrev pub ltz : ℤ → ℤ → Bool
ltz (pos a) (pos b) = ltb a b
ltz (pos a) (negsuc b) = false
ltz (negsuc a) (pos b) = true
ltz (negsuc a) (negsuc b) = ltb b a

-- The tests on `float64` that the match makes.
pub record Floats : Type 1 where
  pub F : Type 0
  pub is_zero : F → Bool
  pub below : F → F → Bool

pub record Pattern : Type 0 where
  pub method : String
  pub header : List (String × String)
  pub host : String
  pub path : String
  pub query : List (String × String)

pub record Response : Type 0 where
  pub status : String
  pub status_code : ℕ
  pub header : List (String × String)
  pub body : String

pub record Url : Type 0 where
  pub scheme : String
  pub host : String
  pub path : String

pub record Route (F : Type 0) : Type 0 where
  pub request : Pattern
  pub response : Response
  pub proxy_url : Url
  pub priority : ℤ
  pub weight : F
  pub kind : String
  pub insecure : Bool

pub record Request : Type 0 where
  pub method : String
  pub host : String
  pub path : String
  pub header_get : String → String
  pub query_get : String → String

-- `Less` of sort.go.
abbrev pub less : {F : Type 0} → Route F → Route F → Bool
less r s = ltz r.priority s.priority

-- What follows a prefix; `strings.HasPrefix` is whether it is there.
unfoldable pub strip : String → String → Option String
strip String.[] s = some s
strip (String.◌∷◌ c p) String.[] = none
strip (String.◌∷◌ c p) (String.◌∷◌ d s) = if code c == code d then strip p s else none

-- `strings.Replace` with the count 1.
unfoldable pub replace_first : String → String → String → String
unfolding strip
replace_first old new String.[] = elim (strip old String.[]) [
  | none ↦ String.[]
  | some rest ↦ str_append new rest
]
replace_first old new (String.◌∷◌ c s) =
    let tail = replace_first old new s in
    elim (strip old (String.◌∷◌ c s)) [ none ↦ String.◌∷◌ c tail | some rest ↦ str_append new rest ]

abbrev pub agrees : (String → String) → List (String × String) → Bool
agrees get [] = true
agrees get ((k, v) ∷ kv) = get k == v && agrees get kv

-- What `Match` asks before the weight.
unfoldable pub fits : Pattern → Request → Bool
unfolding strip
fits p q =
    if p.method == "" || p.path == ""
    then false
    else (p.method == q.method && (p.host == q.host && is_some (strip p.path q.path)))
      && (agrees q.header_get p.header && agrees q.query_get p.query)

-- What happens to a request.
pub data Effect : Type 0 where
  set_header : String → String → Effect
  write_header : ℕ → Effect
  write : String → Effect
  -- The scheme, the host and the path of the proxied request, and whether certificates go unchecked.
  proxied : String → String → String → Bool → Effect
  default_handler : Effect

abbrev set_all : List (String × String) → List Effect
set_all [] = []
set_all ((k, v) ∷ kv) = set_header k v ∷ set_all kv

module _ (f : Floats) where
  -- `Match`. `draws` are the numbers that rand.Float64 gives, of which `n` are used up.
  unfoldable pub match : (ℕ → f.F) → Route f.F → Request → ℕ → Bool × ℕ
  unfolding fits
  match draws r q n =
      if not (fits r.request q) || f.is_zero r.weight
      then (false, n)
      else (not (f.below r.weight (draws n)), n + 1)

  -- `Write`.
  unfoldable pub write_route : Route f.F → Request → List Effect
  unfolding replace_first
  write_route r q =
      if r.kind == "proxy"
      then proxied r.proxy_url.scheme r.proxy_url.host
          (replace_first r.request.path r.proxy_url.path q.path) r.insecure
        ∷ []
      else set_all r.response.header
        ++ (write_header r.response.status_code
            ∷ write (if r.response.body == "" then r.response.status else r.response.body)
            ∷ [])

  -- The loop of `Handler`: the route that matches.
  unfoldable pub choose : (ℕ → f.F) → List (Route f.F) → Request → ℕ → Option (Route f.F)
  unfolding match
  choose draws [] q n = none
  choose draws (r ∷ rs) q n =
      let (matched, n') = match draws r q n in
      let rest = choose draws rs q n' in if matched then some r else rest

  unfoldable pub handle : (ℕ → f.F) → List (Route f.F) → Request → ℕ → List Effect
  unfolding choose write_route
  handle draws rs q n = elim (choose draws rs q n) [
    | none ↦ default_handler ∷ []
    | some r ↦ write_route r q
  ]

  -- What the watcher of `run` gives: routes, a value that cannot be scanned, or an error.
  pub data Event : Type 0 where
    scanned : List (Route f.F) → Event
    unscannable next_error : Event

  -- `update` with `sort.Sort`, and the loop of `run` on the events.
  unfoldable pub update :
      (List (Route f.F) → List (Route f.F)) → List (Route f.F) → List (Route f.F)
  update sort rs = sort rs

  unfoldable pub run :
      (List (Route f.F) → List (Route f.F)) → List Event → List (Route f.F) → List (Route f.F)
  unfolding update
  run sort [] routes = routes
  run sort (scanned rs ∷ es) routes = run sort es (update sort rs)
  run sort (unscannable ∷ es) routes = run sort es routes
  run sort (next_error ∷ es) routes = run sort es routes
