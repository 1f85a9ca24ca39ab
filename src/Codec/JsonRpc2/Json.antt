-- ===== src/Codec/JsonRpc2/Json.antt =====
-- Raw JSON, as codec/jsonrpc2 handles it: the bytes of a value. encoding/json is a record of what
-- its calls return. In a decoded object a member that is null has the value `none`, as the nil
-- pointer of `map[string]*json.RawMessage`.
use Prim.Native.Char.{code}
use Prim.Native.String.{String}
use go_plugins.Prelude.{
  ℕ, ◌≡◌, Bool, true, false, List, [], ◌∷◌, Option, none, some, ◌==◌, Comparable, string_eq, nat_eq,
  is_some, ◌↔◌, arith, eq_iff, nat_beq_iff,
}
use go_plugins.Prelude.Dict.{Dict, lookup}

abbrev pub Raw : Type 0
Raw = List ℕ

abbrev pub codes : String → List ℕ
codes String.[] = []
codes (String.◌∷◌ c s) = code c ∷ codes s

abbrev pub null : Raw
null = codes "null"

abbrev pub Object : Type 0
Object = Dict String (Option Raw)

-- A member is there, be it null.
abbrev pub has : String → Object → Bool
has k o = is_some (lookup k o)

-- `o[k] == nil`: the member is not there, or null.
abbrev pub is_null : String → Object → Bool
is_null k o = elim (lookup k o) [ none ↦ true | some none ↦ true | some (some _) ↦ false ]

pub data MessageType : Type 0 where
  request response event other : MessageType

-- `codec.Message`, with the fields that the codec reads and writes.
pub record Message : Type 0 where
  pub id : String
  pub kind : MessageType
  pub endpoint : String
  pub error : String

-- A key of `map[interface{}]…`: equal only to a key of the same type.
pub data Key : Type 0 where
  num : ℕ → Key
  text : String → Key

abbrev pub key_same : Key → Key → Bool
key_same (num m) (num n) = m == n
key_same (text s) (text t) = s == t
key_same (num m) (text t) = false
key_same (text s) (num n) = false

pub key_same_iff : (j k : Key) → (key_same j k ≡ true) ↔ (j ≡ k)
key_same_iff (num m) (num n) = ground (arith, nat_beq_iff m n)
key_same_iff (text s) (text t) = ground (arith, eq_iff s t)
key_same_iff (num m) (text t) = ground arith
key_same_iff (text s) (num n) = ground arith

instance abbrev pub key_eq : Comparable Key
key_eq = record { same = key_same; same_iff = key_same_iff }
