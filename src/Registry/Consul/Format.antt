-- ===== src/Registry/Consul/Format.antt =====
-- Proofs about registry/consul/encoding.go: which tags are read, and in which format.
use Prim.Native.Char.{Char, code}
use go_plugins.Prelude.{
  ℕ, String, ◌≡◌, refl, true, false, List, [], ◌∷◌, ◌++◌, some, ◌==◌, nat_eq, string_eq, arith,
  is_some, nat_beq_iff, All, ◌⊎◌, inl, inr, Option-cases,
}
use go_plugins.Registry.{Metadata, Endpoint}
use go_plugins.Registry.Consul.Tags.{
  Util, encode, decode, encode_endpoints, encode_metadata, encode_version, buffer, skip, read,
  reading, decode_endpoints_from, tagged, decode_metadata_from, decode_version,
}

-- What the libraries promise: each way back undoes what was written, and a write into memory does not
-- fail.
pub record IsLawful (u : Util) : Type 0 where
  pub deflates : (b : String) → is_some (u.deflate b) ≡ true
  pub zlib : (b z : String) → u.deflate b ≡ some z → u.inflate z ≡ some b
  pub hex : (z : String) → u.of_hex (u.to_hex z) ≡ some z
  pub json_endpoint :
      (e : Endpoint) (b : String)
      → u.marshal_endpoint e ≡ some b
      → u.unmarshal_endpoint b ≡ some (some e)
  pub writes_pair : (kv : String × String) → is_some (u.marshal_pair kv) ≡ true
  pub json_pair :
      (kv : String × String) (b : String)
      → u.marshal_pair kv ≡ some b
      → u.unmarshal_pairs b ≡ some (kv ∷ [])

-- A tag is read when its kind fits, and the format is the first or the same as before.
pub reading-tagged :
    (kind : Char) (ver : ℕ) (x : String)
    → (ver ≡ 0) ⊎ (ver ≡ b'-')
    → reading (code kind) ver (tagged kind x) ≡ read b'-' x
unfolding reading
reading-tagged kind ver x h = ground (arith, nat_beq_iff (code kind) (code kind))

pub reading_other :
    (kind ver : ℕ) (c : Char) (x : String)
    → (code c == kind) ≡ false
    → reading kind ver (tagged c x) ≡ skip
unfolding reading
reading_other kind ver c x h = ground arith

-- No tag of the list is of the kind.
abbrev pub HasNo : ℕ → List String → Type 0
HasNo kind = All (λ tag. reading kind 0 tag ≡ skip)

pub reading-skip :
    (kind ver : ℕ) (tag : String) → reading kind 0 tag ≡ skip → reading kind ver tag ≡ skip
unfolding reading
reading-skip kind ver String.[] h = refl
reading-skip kind ver (String.◌∷◌ c String.[]) h = h
reading-skip kind ver (String.◌∷◌ c (String.◌∷◌ d body)) h = ground arith

module _ (u : Util) (l : IsLawful u) where
  pub decode-encode : (b : String) → decode u (encode u b) ≡ b
  unfolding decode encode
  decode-encode b = elim (Option-cases (u.deflate b)) [
    | inl n ↦ absurd (ground (arith, l.deflates b))
    | inr (z, n) ↦ ground (arith, l.hex z, l.zlib b z n)
  ]

  pub buffer-encode : (b : String) → buffer u b'-' (encode u b) ≡ b
  unfolding buffer
  buffer-encode b = decode-encode b

module _ (u : Util) where
  pub encode_metadata-HasNo :
      (kind : ℕ) (md : Metadata) → (b't' == kind) ≡ false → HasNo kind (encode_metadata u md)
  unfolding encode_metadata
  encode_metadata-HasNo kind [] h = tt
  encode_metadata-HasNo kind (kv ∷ md) h = elim (Option-cases (u.marshal_pair kv)) [
    | inl n ↦ rw (n, encode_metadata) (encode_metadata-HasNo kind md h)
    | inr (b, n) ↦
        rw (n, encode_metadata)
          (reading_other kind 0 "t" (encode u b) h, encode_metadata-HasNo kind md h)
  ]

  pub encode_endpoints-HasNo :
      (kind : ℕ) (en : List Endpoint) → (b'e' == kind) ≡ false → HasNo kind (encode_endpoints u en)
  unfolding encode_endpoints
  encode_endpoints-HasNo kind [] h = tt
  encode_endpoints-HasNo kind (e ∷ en) h = elim (Option-cases (u.marshal_endpoint e)) [
    | inl n ↦ rw (n, encode_endpoints) (encode_endpoints-HasNo kind en h)
    | inr (b, n) ↦
        rw (n, encode_endpoints)
          (reading_other kind 0 "e" (encode u b) h, encode_endpoints-HasNo kind en h)
  ]

  pub encode_version-HasNo :
      (kind : ℕ) (v : String) → (b'v' == kind) ≡ false → HasNo kind (encode_version u v)
  unfolding encode_version
  encode_version-HasNo kind v h = (reading_other kind 0 "v" (encode u v) h, tt)

  pub decode_endpoints_from-HasNo :
      (ver : ℕ) (pre rest : List String)
      → HasNo b'e' pre
      → decode_endpoints_from u ver (pre ++ rest) ≡ decode_endpoints_from u ver rest
  unfolding decode_endpoints_from
  decode_endpoints_from-HasNo ver [] rest h = refl
  decode_endpoints_from-HasNo ver (tag ∷ pre) rest h =
      rw (reading-skip b'e' ver tag h.0, decode_endpoints_from)
        (decode_endpoints_from-HasNo ver pre rest h.1)

  pub decode_metadata_from-HasNo :
      (ver : ℕ) (md : Metadata) (pre rest : List String)
      → HasNo b't' pre
      → decode_metadata_from u ver md (pre ++ rest) ≡ decode_metadata_from u ver md rest
  unfolding decode_metadata_from
  decode_metadata_from-HasNo ver md [] rest h = refl
  decode_metadata_from-HasNo ver md (tag ∷ pre) rest h =
      rw (reading-skip b't' ver tag h.0, decode_metadata_from)
        (decode_metadata_from-HasNo ver md pre rest h.1)

  pub decode_version-HasNo :
      (pre rest : List String)
      → HasNo b'v' pre
      → decode_version u (pre ++ rest) ≡ decode_version u rest
  unfolding decode_version reading
  decode_version-HasNo [] rest h = refl
  decode_version-HasNo (String.[] ∷ pre) rest h = decode_version-HasNo pre rest h.1
  decode_version-HasNo (String.◌∷◌ c String.[] ∷ pre) rest h = decode_version-HasNo pre rest h.1
  decode_version-HasNo (String.◌∷◌ c (String.◌∷◌ d body) ∷ pre) rest h =
      ground (arith, decode_version-HasNo pre rest h.1)

  -- With another format in force no endpoint is read.
  pub hidden :
      (ver : ℕ) (en : List Endpoint)
      → (ver == 0) ≡ false
      → (ver == b'-') ≡ false
      → decode_endpoints_from u ver (encode_endpoints u en) ≡ some []
  unfolding decode_endpoints_from encode_endpoints reading
  hidden ver [] z h = refl
  hidden ver (e ∷ en) z h = ground (arith, hidden ver en z h)
