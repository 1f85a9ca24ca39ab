-- ===== src/Config/Consul.antt =====
-- config/source/consul/util.go: the keys of Consul become a tree of maps. The encoder's reading of a
-- value as an array or as a map is a parameter.
pub mod Paths
pub mod Keys
pub mod Source
pub mod Changes
mod Examples
use Prim.Native.Char.{Char, code}
use go_plugins.Prelude.{
  ℕ, String, Bool, true, false, List, [], ◌∷◌, Option, none, some, ◌==◌, string_eq, nat_eq,
  if◌then◌else◌, or_else,
}

-- A decoded value `J` that is no map, or a map.
mutual
  pub data Value (J : Type 0) : Type 0 where
    plain : J → Value J
    dir : Fields J → Value J

  pub data Fields (J : Type 0) : Type 0 where
    empty : Fields J
    field : String → Value J → Fields J → Fields J

-- A type assertion panics on a value that is no map; a value that cannot be decoded is an error.
pub data Result (J : Type 0) : Type 0 where
  made : Fields J → Result J
  undecoded : Result J
  panics : Result J

module _ {J : Type 0} where
  unfoldable pub find : String → Fields J → Option (Value J)
  find k empty = none
  find k (field j v m) = let rest = find k m in if j == k then some v else rest

  unfoldable pub set : String → Value J → Fields J → Fields J
  set k v empty = field k v empty
  set k v (field j w m) = let rest = set k v m in if j == k then field j v m else field j w rest

  -- The map at a key, made where there is none; no map where something else is there.
  unfoldable pub dir_at : String → Fields J → Option (Fields J)
  unfolding find
  dir_at k m = elim (find k m) [
    | none ↦ some empty
    | some (dir m') ↦ some m'
    | some (plain x) ↦ none
  ]

  -- From the root along the path, whose last part is the leaf. Without a value only the maps on the way
  -- are made.
  unfoldable pub place : String → List String → Option (Value J) → Fields J → Option (Fields J)
  unfolding set dir_at
  place leaf [] none m = some m
  place leaf [] (some v) m = some (set leaf v m)
  place d (e ∷ path) v m = elim (dir_at d m) [
    | none ↦ none
    | some m' ↦ elim (place e path v m') [ none ↦ none | some m'' ↦ some (set d (dir m'') m) ]
  ]

-- The encoder: a value as an array, or as a map.
pub record Decoder (J : Type 0) : Type 0 where
  pub array : String → Option J
  pub fields : String → Option (Fields J)

pub record Pair : Type 0 where
  pub key : String
  pub value : String

-- `strings.TrimPrefix`.
unfoldable pub dropped : String → String → Option String
dropped String.[] s = some s
dropped (String.◌∷◌ c p) String.[] = none
dropped (String.◌∷◌ c p) (String.◌∷◌ d s) =
    let rest = dropped p s in if code c == code d then rest else none

unfoldable pub trim : String → String → String
unfolding dropped
trim s p = or_else (dropped p s) s

abbrev before_first : Char → String × List String → String × List String
before_first c (w, ws) = (String.◌∷◌ c w, ws)

-- `strings.Split(s, "/")`, which has a first part.
unfoldable pub split : String → String × List String
split String.[] = ("", [])
split (String.◌∷◌ c s) =
    let (w, ws) = split s in if code c == b'/' then ("", w ∷ ws) else (String.◌∷◌ c w, ws)

unfoldable pub path_of : String → String → String
unfolding trim
path_of strip key = trim (trim key (trim strip "/")) "/"

module _ {J : Type 0} (d : Decoder J) where
  -- A value is decoded as an array if it can be, else as a map. There is none for an empty one.
  unfoldable pub read : String → Option (Option (Value J))
  read b = if b == "" then some none else (elim (d.array b) [
    | some x ↦ some (some (plain x))
    | none ↦ elim (d.fields b) [ some m ↦ some (some (dir m)) | none ↦ none ]
  ])

  -- One round of the loop.
  unfoldable pub add : String → Pair → Fields J → Result J
  unfolding read place split path_of
  add strip p m =
      let path = path_of strip p.key in
      if path == "" then made m else (elim (read p.value) [
        | none ↦ undecoded
        | some v ↦ elim (place (split path).0 (split path).1 v m) [
          | none ↦ panics
          | some m' ↦ made m'
        ]
      ])

  unfoldable pub add_all : String → List Pair → Fields J → Result J
  unfolding add
  add_all strip [] m = made m
  add_all strip (p ∷ ps) m = elim (add strip p m) [
    | made m' ↦ add_all strip ps m'
    | undecoded ↦ undecoded
    | panics ↦ panics
  ]

  -- `makeMap`.
  unfoldable pub make_map : List Pair → String → Result J
  unfolding add_all
  make_map ps strip = add_all strip ps empty
