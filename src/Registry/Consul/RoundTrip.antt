-- ===== src/Registry/Consul/RoundTrip.antt =====
-- Proofs about registry/consul/encoding.go: what `Register` writes as tags is read back from them.
use Prim.Native.Char.{Char, code}
use go_plugins.Prelude.{
  ℕ, String, ◌≡◌, refl, false, List, [], ◌∷◌, ◌++◌, Option, none, some, ◌==◌, nat_eq, string_eq,
  arith, All-append, ◌∙◌, ◌⊎◌, inl, inr, Option-cases, append-nil, append_assoc,
}
use go_plugins.Prelude.Dict.{insert, lookup}
use go_plugins.Registry.{Metadata, Endpoint}
use go_plugins.Registry.Consul.Tags.{
  Util, encode, encode_endpoints, encode_metadata, encode_version, reading, decode_endpoints_from,
  decode_endpoints, add_pairs, tagged, decode_metadata_from, decode_metadata, decode_version,
}
use go_plugins.Registry.Consul.Format.{
  IsLawful, HasNo, hidden, reading-tagged, decode-encode, buffer-encode, encode_metadata-HasNo,
  encode_endpoints-HasNo, encode_version-HasNo, decode_endpoints_from-HasNo, decode_version-HasNo,
  reading-skip,
}

-- The endpoints that encoding/json takes.
abbrev pub written : Util → List Endpoint → List (Option Endpoint)
written u [] = []
written u (e ∷ en) = elim (u.marshal_endpoint e) [
  | none ↦ written u en
  | some b ↦ some e ∷ written u en
]

-- Every key stands once, and not in `old`.
abbrev pub AreNew : Metadata → Metadata → Type 0
AreNew old [] = Unit {0}
AreNew old ((k, v) ∷ md) = (lookup k old ≡ none) × AreNew (old ++ (k, v) ∷ []) md

module _ (u : Util) (l : IsLawful u) where
  decode_endpoints_from-none :
      (ver : ℕ) (rest : List String) → HasNo b'e' rest → decode_endpoints_from u ver rest ≡ some []
  unfolding decode_endpoints_from
  decode_endpoints_from-none ver [] h = refl
  decode_endpoints_from-none ver (tag ∷ rest) h =
      rw (reading-skip b'e' ver tag h.0, decode_endpoints_from)
        (decode_endpoints_from-none ver rest h.1)

  decode_endpoints_from-tagged :
      (ver : ℕ) (e : Endpoint) (b : String) (rest : List String) (en : List (Option Endpoint))
      → (ver ≡ 0) ⊎ (ver ≡ b'-')
      → u.marshal_endpoint e ≡ some b
      → decode_endpoints_from u b'-' rest ≡ some en
      → decode_endpoints_from u ver (tagged "e" (encode u b) ∷ rest) ≡ some (some e ∷ en)
  unfolding decode_endpoints_from
  decode_endpoints_from-tagged ver e b rest en h n d = rw (
    reading-tagged "e" ver (encode u b) h,
    d,
    buffer-encode u l b,
    l.json_endpoint e b n,
    decode_endpoints_from,
  )

  decode_endpoints-encode_endpoints :
      (ver : ℕ) (en : List Endpoint) (rest : List String)
      → (ver ≡ 0) ⊎ (ver ≡ b'-')
      → HasNo b'e' rest
      → decode_endpoints_from u ver (encode_endpoints u en ++ rest) ≡ some (written u en)
  unfolding encode_endpoints
  decode_endpoints-encode_endpoints ver [] rest h others =
      decode_endpoints_from-none ver rest others
  decode_endpoints-encode_endpoints ver (e ∷ en) rest h others =
      elim (Option-cases (u.marshal_endpoint e)) [
        | inl n ↦ ground (arith, n, decode_endpoints-encode_endpoints ver en rest h others)
        | inr (b, n) ↦ ground (
          arith,
          n,
          decode_endpoints_from-tagged ver e b (encode_endpoints u en ++ rest) (written u en) h n
              (decode_endpoints-encode_endpoints b'-' en rest (inr refl) others),
        )
      ]

  decode_metadata_from-none :
      (ver : ℕ) (md : Metadata) (rest : List String)
      → HasNo b't' rest
      → decode_metadata_from u ver md rest ≡ some md
  unfolding decode_metadata_from
  decode_metadata_from-none ver md [] h = refl
  decode_metadata_from-none ver md (tag ∷ rest) h =
      rw (reading-skip b't' ver tag h.0, decode_metadata_from)
        (decode_metadata_from-none ver md rest h.1)

  decode_metadata_from-tagged :
      (ver : ℕ) (md : Metadata) (kv : String × String) (b : String) (rest : List String)
      → (ver ≡ 0) ⊎ (ver ≡ b'-')
      → u.marshal_pair kv ≡ some b
      → decode_metadata_from u ver md (tagged "t" (encode u b) ∷ rest)
        ≡ decode_metadata_from u b'-' (add_pairs md (kv ∷ [])) rest
  unfolding decode_metadata_from
  decode_metadata_from-tagged ver md kv b rest h n = rw (
    reading-tagged "t" ver (encode u b) h,
    buffer-encode u l b,
    l.json_pair kv b n,
    decode_metadata_from,
  )

  insert_new :
      (k v : String) (md : Metadata) → lookup k md ≡ none → insert k v md ≡ md ++ (k, v) ∷ []
  unfolding insert lookup
  insert_new k v [] h = refl
  insert_new k v ((j, w) ∷ md) h = ground (arith, insert_new k v md)

  decode_metadata-encode_metadata :
      (ver : ℕ) (old md : Metadata) (rest : List String)
      → (ver ≡ 0) ⊎ (ver ≡ b'-')
      → AreNew old md
      → HasNo b't' rest
      → decode_metadata_from u ver old (encode_metadata u md ++ rest) ≡ some (old ++ md)
  unfolding encode_metadata add_pairs
  decode_metadata-encode_metadata ver old [] rest h k others =
      ground (arith, decode_metadata_from-none ver old rest others, append-nil old)
  decode_metadata-encode_metadata ver old ((k, v) ∷ md) rest h new others =
      elim (Option-cases (u.marshal_pair (k, v))) [
        | inl n ↦ absurd (ground (arith, n, l.writes_pair (k, v)))
        | inr (b, n) ↦ ground (
          arith,
          n,
          decode_metadata_from-tagged ver old (k, v) b (encode_metadata u md ++ rest) h n,
          insert_new k v old new.0,
          decode_metadata-encode_metadata b'-' (old ++ (k, v) ∷ []) md rest (inr refl) new.1 others,
          append_assoc old ((k, v) ∷ []) md,
        )
      ]

  decode_version-encode_version : (v : String) → decode_version u (encode_version u v) ≡ some v
  unfolding decode_version encode_version
  decode_version-encode_version v = ground (arith, decode-encode u l v)

  -- The tags that `Register` writes, for metadata whose keys are distinct, as in a map, are read back: the
  -- metadata and the version as they were, and of the endpoints, in order, those that encoding/json takes.
  pub tags_round_trip :
      (md : Metadata) (en : List Endpoint) (v : String)
      → AreNew [] md
      → let tags = encode_metadata u md ++ encode_endpoints u en ++ encode_version u v in
        (decode_metadata u tags ≡ some md)
        × (decode_endpoints u tags ≡ some (written u en))
        × (decode_version u tags ≡ some v)
  unfolding decode_metadata decode_endpoints
  tags_round_trip md en v new =
      let m = encode_metadata u md in
      let e = encode_endpoints u en in
      let w = encode_version u v in
      (
        rw append_assoc (
            decode_metadata-encode_metadata 0 [] md (e ++ w) (inl refl) new (
              All-append _ e w (encode_endpoints-HasNo u b't' en refl)
                (encode_version-HasNo u b't' v refl))),
        rw append_assoc (
            decode_endpoints_from-HasNo u 0 m (e ++ w) (encode_metadata-HasNo u b'e' md refl)
            ∙ decode_endpoints-encode_endpoints 0 en w (inl refl)
                (encode_version-HasNo u b'e' v refl)),
        decode_version-HasNo u (m ++ e) w (
              All-append _ m e (encode_metadata-HasNo u b'v' md refl)
                (encode_endpoints-HasNo u b'v' en refl))
            ∙ decode_version-encode_version v,
      )

-- A tag that begins with e, by whoever wrote it, with another second byte than the dash, hides all
-- endpoints that are written behind it.
pub decode_endpoints_foreign :
    (u : Util) (d : Char) (body : String) (en : List Endpoint)
    → (code d == 0) ≡ false
    → (code d == b'-') ≡ false
    → let foreign = String.◌∷◌ "e" (String.◌∷◌ d body) in
      decode_endpoints u (foreign ∷ encode_endpoints u en) ≡ decode_endpoints u (foreign ∷ [])
unfolding decode_endpoints decode_endpoints_from reading
decode_endpoints_foreign u d body en z h = ground (arith, hidden u (code d) en z h)

-- One tag that is the letter e alone makes the decoding of the endpoints panic.
pub decode_endpoints_panics :
    (u : Util) (pre rest : List String)
    → HasNo b'e' pre
    → decode_endpoints u (pre ++ String.◌∷◌ "e" String.[] ∷ rest) ≡ none
unfolding decode_endpoints
decode_endpoints_panics u pre rest h =
    decode_endpoints_from-HasNo u 0 pre (String.◌∷◌ "e" String.[] ∷ rest) h
    ∙ unfold decode_endpoints_from reading in refl
