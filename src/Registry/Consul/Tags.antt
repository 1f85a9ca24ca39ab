-- ===== src/Registry/Consul/Tags.antt =====
-- registry/consul/encoding.go: metadata, endpoints and the version of a service as Consul tags. A
-- string and a slice of bytes are the same text here; `none` is a panic, the index out of range of a
-- tag that is only one byte long. zlib, hex and encoding/json are parameters.
use Prim.Native.Char.{Char, code}
use go_plugins.Prelude.{
  ℕ, String, not, ◌&&◌, List, [], ◌∷◌, Option, none, some, ◌==◌, nat_eq, string_eq, if◌then◌else◌,
  ltb,
}
use go_plugins.Prelude.Dict.{insert}
use go_plugins.Registry.{Metadata, Endpoint}

-- Writing may fail, and so may each way back. The JSON value null is an endpoint `none`.
pub record Util : Type 0 where
  pub deflate : String → Option String
  pub inflate : String → Option String
  pub to_hex : String → String
  pub of_hex : String → Option String
  pub marshal_endpoint : Endpoint → Option String
  pub unmarshal_endpoint : String → Option (Option Endpoint)
  pub marshal_pair : String × String → Option String
  pub unmarshal_pairs : String → Option Metadata

-- The checks on a tag of the kind `kind`: skip it, panic, or its version byte and what follows.
pub data Reading : Type 0 where
  skip panic : Reading
  read : ℕ → String → Reading

unfoldable pub reading : (kind ver : ℕ) → String → Reading
reading kind ver String.[] = skip
reading kind ver (String.◌∷◌ c String.[]) = if not (code c == kind) then skip else panic
reading kind ver (String.◌∷◌ c (String.◌∷◌ d body)) =
    if not (code c == kind)
    then skip
    else if ltb 0 ver && not (code d == ver)
    then skip
    else read (code d) body

unfoldable pub add_pairs : Metadata → Metadata → Metadata
add_pairs md [] = md
add_pairs md ((k, v) ∷ kv) = add_pairs (insert k v md) kv

-- The tag of a kind in the new format: the kind, a dash, the text.
abbrev pub tagged : Char → String → String
tagged kind x = String.◌∷◌ kind (String.◌∷◌ "-" x)

module _ (u : Util) where
  unfoldable pub encode : String → String
  encode buf = elim (u.deflate buf) [ none ↦ "" | some b ↦ u.to_hex b ]

  -- A nil slice is the empty one.
  unfoldable pub decode : String → String
  decode d = elim (u.of_hex d) [
    | none ↦ ""
    | some hr ↦ elim (u.inflate hr) [ none ↦ "" | some buf ↦ buf ]
  ]

  unfoldable pub encode_endpoints : List Endpoint → List String
  unfolding encode
  encode_endpoints [] = []
  encode_endpoints (e ∷ en) =
      let tags = encode_endpoints en in
      elim (u.marshal_endpoint e) [ none ↦ tags | some b ↦ tagged "e" (encode b) ∷ tags ]

  unfoldable pub encode_metadata : Metadata → List String
  unfolding encode
  encode_metadata [] = []
  encode_metadata (kv ∷ md) =
      let tags = encode_metadata md in
      elim (u.marshal_pair kv) [ none ↦ tags | some b ↦ tagged "t" (encode b) ∷ tags ]

  unfoldable pub encode_version : String → List String
  unfolding encode
  encode_version v = tagged "v" (encode v) ∷ []

  -- The buffer of a tag with the version byte `d`.
  unfoldable pub buffer : ℕ → String → String
  unfolding decode
  buffer d body = if d == b'=' then body else if d == b'-' then decode body else ""

  -- The loop of `decodeEndpoints`, with the version byte `ver`, 0 at first.
  unfoldable pub decode_endpoints_from : ℕ → List String → Option (List (Option Endpoint))
  unfolding reading buffer
  decode_endpoints_from ver [] = some []
  decode_endpoints_from ver (tag ∷ tags) = elim (reading b'e' ver tag) [
    | skip ↦ decode_endpoints_from ver tags
    | panic ↦ none
    | read d body ↦ elim (decode_endpoints_from d tags) [
      | none ↦ none
      | some en ↦ elim (u.unmarshal_endpoint (buffer d body)) [
        | none ↦ some en
        | some e ↦ some (e ∷ en)
      ]
    ]
  ]

  unfoldable pub decode_endpoints : List String → Option (List (Option Endpoint))
  decode_endpoints tags = decode_endpoints_from 0 tags

  -- The loop of `decodeMetadata`.
  unfoldable pub decode_metadata_from : ℕ → Metadata → List String → Option Metadata
  unfolding reading buffer add_pairs
  decode_metadata_from ver md [] = some md
  decode_metadata_from ver md (tag ∷ tags) = elim (reading b't' ver tag) [
    | skip ↦ decode_metadata_from ver md tags
    | panic ↦ none
    | read d body ↦ elim (u.unmarshal_pairs (buffer d body)) [
      | none ↦ decode_metadata_from d md tags
      | some kv ↦ decode_metadata_from d (add_pairs md kv) tags
    ]
  ]

  unfoldable pub decode_metadata : List String → Option Metadata
  decode_metadata tags = decode_metadata_from 0 [] tags

  -- `decodeVersion` passes over tags shorter than two bytes.
  unfoldable pub decode_version : List String → Option String
  unfolding decode
  decode_version [] = none
  decode_version (String.[] ∷ tags) = decode_version tags
  decode_version (String.◌∷◌ c String.[] ∷ tags) = decode_version tags
  decode_version (String.◌∷◌ c (String.◌∷◌ d body) ∷ tags) =
      let rest = decode_version tags in
      if not (code c == b'v')
      then rest
      else if code d == b'='
      then some body
      else if code d == b'-'
      then some (decode body)
      else rest
