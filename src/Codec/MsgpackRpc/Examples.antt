-- ===== src/Codec/MsgpackRpc/Examples.antt =====
-- Tests of the msgpack-rpc codec's model, and its theorems at concrete inputs.
use go_plugins.Prelude.{
  pos, ℕ, String, ◌≡◌, refl, Bool, true, false, ◌||◌, inr, [], ◌∷◌, ◌++◌, none, some, ◌==◌,
  string_eq, nat_eq, if◌then◌else◌, arith, eq_iff, ltb,
}
use go_plugins.Prelude.Outcome.{Outcome, ok, err}
use go_plugins.Codec.JsonRpc2.Json.{Message, response}
use go_plugins.Codec.MsgpackRpc.{
  Bytes, Kind, str, nil, other, wire, Msgp, Request, Response, Notification, not_encodable,
}
use go_plugins.Codec.MsgpackRpc.Encode.{encode_response}
use go_plugins.Codec.MsgpackRpc.Decode.{decode_response}
use go_plugins.Codec.MsgpackRpc.Stream.{Link, Codec, write, read_header, read_body}
use go_plugins.Codec.MsgpackRpc.Layout.{IsFaithful}
use go_plugins.Codec.MsgpackRpc.Bodies.{Receives, read_body-write, read_body_fails, header_of}

-- A toy format: each piece is a tag and a number.
abbrev take : ℕ → Bytes → Outcome String (ℕ × Bytes)
take tag (a ∷ n ∷ rest) = if a == tag then ok (n, rest) else err "type"
take tag (a ∷ []) = err "EOF"
take tag [] = err "EOF"

abbrev text_of : ℕ → String
text_of n = if n == 0 then "" else if n == 1 then "7" else "Ping"

abbrev number_of : String → ℕ
number_of s = if s == "" then 0 else if s == "7" then 1 else 2

abbrev texts : String → Bool
texts s = s == "" || s == "7" || s == "Ping"

abbrev kind_of : Bytes → Outcome String Kind
kind_of [] = err "EOF"
kind_of (a ∷ rest) = ok (if a == 3 then str else if a == 4 then nil else other)

abbrev toy : Msgp ℕ
toy = record {
  encodable = λ v. ltb v 100;
  decodable = λ v. true;
  array = λ n. 1 ∷ n ∷ [];
  int = λ n. 2 ∷ n ∷ [];
  string = λ s. 3 ∷ number_of s ∷ [];
  null = 4 ∷ 0 ∷ [];
  marshal = λ v. ok (5 ∷ v ∷ []);
  refuses = λ out piece. none;
  read_array = take 1;
  read_int = λ b. elim (take 2 b) [ ok (n, rest) ↦ ok (pos n, rest) | err e ↦ err e ];
  read_string = λ b. elim (take 3 b) [ ok (n, rest) ↦ ok (text_of n, rest) | err e ↦ err e ];
  next_type = kind_of;
  read_nil = λ b. elim (take 4 b) [ ok (n, rest) ↦ ok rest | err e ↦ err e ];
  unmarshal = λ v b. elim (take 5 b) [ ok (n, rest) ↦ (n, ok rest) | err e ↦ (v, err e) ];
  short = texts;
  skip = λ b. elim (take 5 b) [ ok (n, rest) ↦ ok rest | err e ↦ err e ];
}

toy_text : (s : String) → texts s ≡ true → text_of (number_of s) ≡ s
toy_text s h = ground (arith, eq_iff s "", eq_iff s "7", eq_iff s "Ping")

toy-IsFaithful : IsFaithful toy
toy-IsFaithful = record {
  array_back = λ n rest h. refl;
  int_back = λ n rest h. refl;
  string_back = λ s rest h. rw (toy_text s h) refl;
  string_type = λ s rest. refl;
  nil_type = λ rest. refl;
  nil_back = λ rest. refl;
}

-- A connection that gives up what is decoded, and one below a buffer that takes all.
abbrev exact : Link
exact = record { left = λ i r. elim r [ none ↦ [] | some b ↦ b ]; flush = λ out. none }

abbrev greedy : Link
greedy = record { left = λ i r. []; flush = λ out. none }

abbrev reply : Message
reply = record { id = "7"; kind = response; endpoint = ""; error = "" }

abbrev blank : Message
blank = record { id = ""; kind = response; endpoint = ""; error = "" }

abbrev fresh : Codec
fresh = record { mt = response; body = false; input = [] }

abbrev reply_bytes : Bytes
reply_bytes = 1 ∷ 4 ∷ 2 ∷ 1 ∷ 3 ∷ 1 ∷ 4 ∷ 0 ∷ 5 ∷ 9 ∷ []

sent : (k : Link) → k.flush reply_bytes ≡ none → write toy k reply (some 9) ≡ ok reply_bytes
unfolding write encode_response
sent k h = rw h refl

too_large : write toy exact reply (some 100) ≡ err not_encodable
unfolding write encode_response
too_large = refl

-- A text behind which the body is left out.
failed :
    write toy exact (record reply { error = "Ping" }) (some 9)
    ≡ ok (1 ∷ 4 ∷ 2 ∷ 1 ∷ 3 ∷ 1 ∷ 3 ∷ 2 ∷ 4 ∷ 0 ∷ [])
unfolding write encode_response
failed = refl

-- A Reader that has looked at the first piece of the body.
abbrev peeking : Link
peeking = record {
  left = λ i r. elim r [ none ↦ [] | some [] ↦ [] | some (a ∷ b) ↦ b ];
  flush = λ out. none;
}

read_body-write_example :
    ((header_of toy peeking blank response fresh (reply_bytes ++ (8 ∷ []))).0 ≡ none)
    × ((header_of toy peeking blank response fresh (reply_bytes ++ (8 ∷ []))).1 ≡ reply)
    × Receives toy peeking
        (reply_bytes ++ (8 ∷ []))
        (8 ∷ [])
        0
        (some 9)
        (header_of toy peeking blank response fresh (reply_bytes ++ (8 ∷ []))).2
read_body-write_example =
    read_body-write toy-IsFaithful peeking blank reply (some 9) fresh reply_bytes (8 ∷ [])
      (sent peeking refl) (refl, refl, refl) (inr refl) 0 refl

waiting :
    (header_of toy peeking blank response fresh (reply_bytes ++ (8 ∷ []))).2.input ≡ 9 ∷ 8 ∷ []
unfolding read_header decode_response
waiting = refl

read_body_fails_example :
    ((header_of toy greedy blank response fresh (reply_bytes ++ (8 ∷ []))).0 ≡ none)
    × ((header_of toy greedy blank response fresh (reply_bytes ++ (8 ∷ []))).1 ≡ reply)
    × ((read_body toy greedy
          (some 0)
          (header_of toy greedy blank response fresh (reply_bytes ++ (8 ∷ []))).2).0
        ≡ some (wire "EOF"))
read_body_fails_example =
    read_body_fails toy-IsFaithful greedy blank reply (some 9) fresh reply_bytes (8 ∷ [])
      (sent greedy refl) (refl, refl, refl) (inr refl) 9 0 0 "EOF" refl (λ i r. refl) refl refl

abbrev target : Request ℕ
target = record { id = ""; method = ""; body = some 3; has_body = false }

abbrev answer : Response ℕ
answer = record { id = ""; error = ""; body = none; has_body = false }

abbrev notice : Notification ℕ
notice = record { method = ""; body = none; has_body = true }
