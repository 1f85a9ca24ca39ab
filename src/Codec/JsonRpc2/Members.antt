-- ===== src/Codec/JsonRpc2/Members.antt =====
-- Proofs about `UnmarshalJSON` of codec/jsonrpc2/server.go: which requests are accepted.
use go_plugins.Prelude.{
  ℕ, ◌+◌, String, ◌≡◌, refl, Bool, true, false, ◌||◌, [], ◌∷◌, Option, none, some, arith, ◌==◌,
  string_eq, nat_eq, eq_iff, if◌then◌else◌, length, is_nil, All, Option-cases, inl, inr, ap, subst,
  sym,
}
use go_plugins.Prelude.Dict.{lookup}
use go_plugins.Codec.JsonRpc2.Json.{Raw, Object, has, is_null}
use go_plugins.Codec.JsonRpc2.Server.{
  Request, Json, starts_structure, starts_no_id, bad_members, bad_params, kept_id, bad_id,
  unmarshal,
}

-- The members that a request may have.
abbrev pub is_known : String → Bool
is_known k = k == "jsonrpc" || k == "method" || k == "id" || k == "params"

abbrev LacksKey : String → Object → Type 0
LacksKey k o = All (λ (kv : String × Option Raw). (kv.0 == k) ≡ false) o

-- Keys stand once, as in every map of Go.
abbrev pub HasOwnKeys : Object → Type 0
HasOwnKeys [] = Unit {0}
HasOwnKeys ((k, v) ∷ o) = LacksKey k o × HasOwnKeys o

-- How many members are not known.
unknowns : Object → ℕ
unknowns [] = 0
unknowns ((k, v) ∷ o) = (if is_known k then 0 else 1) + unknowns o

abbrev count : String → Object → ℕ
count k o = if has k o then 1 else 0

lookup-LacksKey : (k : String) (o : Object) → LacksKey k o → lookup k o ≡ none
unfolding lookup
lookup-LacksKey k [] h = refl
lookup-LacksKey k ((j, v) ∷ o) h = ground (arith, lookup-LacksKey k o h.1)

has_cons :
    (k j : String) (v : Option Raw) (o : Object)
    → LacksKey j o
    → count k ((j, v) ∷ o) ≡ (if j == k then 1 else 0) + count k o
unfolding lookup
has_cons k j v o h =
    ground (arith, eq_iff j k, lookup-LacksKey j o h, ap (λ i. lookup i o) {x = j} {y = k})

abbrev is_it : String → String → ℕ
is_it k j = if k == j then 1 else 0

one_kind :
    (k : String)
    → (if is_known k then 0 else 1)
        + is_it k "jsonrpc"
        + is_it k "method"
        + is_it k "id"
        + is_it k "params"
      ≡ 1
one_kind k = ground (
  arith,
  eq_iff k "jsonrpc",
  eq_iff k "method",
  eq_iff k "id",
  eq_iff k "params",
  eq_iff "jsonrpc" "method",
  eq_iff "jsonrpc" "id",
  eq_iff "jsonrpc" "params",
  eq_iff "method" "id",
  eq_iff "method" "params",
  eq_iff "id" "params",
)

-- Each member is one of the four, or unknown.
length_members :
    (o : Object)
    → HasOwnKeys o
    → length o ≡ unknowns o + count "jsonrpc" o + count "method" o + count "id" o + count "params" o
unfolding unknowns lookup
length_members [] h = refl
length_members ((k, v) ∷ o) h = omega (
  arith,
  one_kind k,
  length_members o h.1,
  has_cons "jsonrpc" k v o h.0,
  has_cons "method" k v o h.0,
  has_cons "id" k v o h.0,
  has_cons "params" k v o h.0,
)

no_unknowns :
    (o : Object) → unknowns o ≡ 0 → All (λ (kv : String × Option Raw). is_known kv.0 ≡ true) o
unfolding unknowns
no_unknowns [] h = tt
no_unknowns ((k, v) ∷ o) h = ground (arith, no_unknowns o)

-- The counting test of the source, with both required members there, leaves no unknown member.
good_members-unknowns : (o : Object) → HasOwnKeys o → bad_members o ≡ false → unknowns o ≡ 0
unfolding bad_members
good_members-unknowns o h g = ground (arith, length_members o h)

-- What an accepted request satisfies, with the object that it was read from.
pub record IsWellFormed (o : Object) (r : Request) : Type 0 where
  pub only_known : All (λ (kv : String × Option Raw). is_known kv.0 ≡ true) o
  pub required : (is_null "jsonrpc" o || is_null "method" o) ≡ false
  pub version_two : r.version ≡ "2.0"
  pub structured :
      has "params" o ≡ true → (p : Raw) × (r.params ≡ some p) × (starts_structure p ≡ true)
  pub identified :
      has "id" o ≡ true → (i : Raw) × (r.id ≡ some i) × (is_nil i || starts_no_id i) ≡ false

good_members-required :
    (o : Object) → bad_members o ≡ false → (is_null "jsonrpc" o || is_null "method" o) ≡ false
unfolding bad_members
good_members-required o h = ground arith

good_params :
    (o : Object) (r : Request)
    → bad_params o r ≡ false
    → has "params" o ≡ true
    → (p : Raw) × (r.params ≡ some p) × (starts_structure p ≡ true)
unfolding bad_params
good_params o r h e = elim (Option-cases r.params) [
  | inl n ↦ absurd (ground arith)
  | inr (p, n) ↦ (p, n, ground arith)
]

good_id :
    (o : Object) (k : Option Raw)
    → bad_id o k ≡ false
    → has "id" o ≡ true
    → (i : Raw) × (k ≡ some i) × ((is_nil i || starts_no_id i) ≡ false)
unfolding bad_id
good_id o none h e = absurd (ground arith)
good_id o (some i) h e = (i, refl, ground arith)

unmarshal_inversion :
    (j : Json) (raw : Raw) (o : Object) (q r : Request)
    → j.into_object raw ≡ some o
    → j.into_request raw ≡ some q
    → unmarshal j raw ≡ some r
    → (bad_members o ≡ false)
      × (q.version ≡ "2.0")
      × (bad_params o q ≡ false)
      × (bad_id o (kept_id o q) ≡ false)
      × (r ≡ record q { id = kept_id o q })
unfolding unmarshal
unmarshal_inversion j raw o q r p n e = ground (arith, eq_iff q.version "2.0")

-- A request that is accepted has the version 2.0 and the two required members, no member but the
-- four of the protocol, parameters that start an array or an object if there are any, and, if there
-- is an id, one that is kept and is no array, object or Boolean (a null id is kept as null).
pub unmarshal-IsWellFormed :
    (j : Json) (raw : Raw) (o : Object) (r : Request)
    → j.into_object raw ≡ some o
    → HasOwnKeys o
    → unmarshal j raw ≡ some r
    → IsWellFormed o r
unmarshal-IsWellFormed j raw o r p own e = elim (Option-cases (j.into_request raw)) [
  | inl n ↦ absurd (unfold unmarshal in ground arith)
  | inr (q, n) ↦
      let (members, version, params, id, result) = unmarshal_inversion j raw o q r p n e in
      subst (IsWellFormed o) (sym result) (record {
        only_known = no_unknowns o (good_members-unknowns o own members);
        required = good_members-required o members;
        version_two = version;
        structured = good_params o q params;
        identified = good_id o (kept_id o q) id;
      })
]
