-- ===== src/Codec/JsonRpc2/Dispatch.antt =====
-- codec/jsonrpc2/jsonrpc2.go: the codec, which hands a message to the server's or the client's half
-- by its type. The halves' own calls are arguments; an event is written and read as it is.
use go_plugins.Prelude.{◌≡◌, ◌⊎◌, refl, [], arith}
use go_plugins.Codec.JsonRpc2.Json.{Raw, MessageType, request, response, event, other}

-- Which part serves a call.
pub data Half : Type 0 where
  client server stream nobody : Half

-- The part that `Write` hands a message of a type to.
unfoldable pub writer : MessageType → Half
writer request = client
writer response = server
writer event = stream
writer other = nobody

-- The part that `ReadHeader` and `ReadBody` read a message of a type by.
unfoldable pub reader : MessageType → Half
reader request = server
reader response = client
reader event = stream
reader other = nobody

-- The codec's own state: the type that was read last, and the bytes of an event.
pub record State : Type 0 where
  pub mt : MessageType
  pub buf : Raw

pub data Answer {ℓ} (A : Type ℓ) : Type ℓ where
  unrecognised : Answer A
  handed : A → Answer A

-- `ReadHeader`: `stream` holds the bytes of the connection, `reads` is the half's own result.
unfoldable pub read_header {ℓ} :
    {A : Type ℓ} → MessageType → Raw → (Half → A) → State → Answer A × State
unfolding reader
read_header request bytes reads s = (handed (reads server), record { mt = request; buf = [] })
read_header response bytes reads s = (handed (reads client), record { mt = response; buf = [] })
read_header event bytes reads s = (handed (reads stream), record { mt = event; buf = bytes })
read_header other bytes reads s = (unrecognised, record { mt = other; buf = [] })

-- `ReadBody` goes by the type that `ReadHeader` kept.
unfoldable pub read_body {ℓ} : {A : Type ℓ} → (Half → A) → State → Answer A
read_body reads s = elim s.mt [
  | request ↦ handed (reads server)
  | response ↦ handed (reads client)
  | event ↦ handed (reads stream)
  | other ↦ unrecognised
]

abbrev by_half {ℓ} : {A : Type ℓ} → (Half → A) → Half → Answer A
by_half reads nobody = unrecognised
by_half reads client = handed (reads client)
by_half reads server = handed (reads server)
by_half reads stream = handed (reads stream)

-- A body is read by the half that read the header before it, and never by the one that would have
-- written a message of that type, except for an event.
pub read_body-read_header {ℓ} :
    {A : Type ℓ} (mt : MessageType) (bytes : Raw) (reads : Half → A) (s : State)
    → (read_body reads (read_header mt bytes reads s).1 ≡ (read_header mt bytes reads s).0)
      × ((read_header mt bytes reads s).0 ≡ by_half reads (reader mt))
      × (reader mt ≡ writer mt → (reader mt ≡ stream) ⊎ (reader mt ≡ nobody))
unfolding read_body read_header reader writer
read_body-read_header request bytes reads s = (refl, refl, λ e. ground arith)
read_body-read_header response bytes reads s = (refl, refl, λ e. ground arith)
read_body-read_header event bytes reads s = (refl, refl, λ e. ground arith)
read_body-read_header other bytes reads s = (refl, refl, λ e. ground arith)
