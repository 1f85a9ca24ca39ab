-- ===== src/Client/Http.antt =====
-- client/http/http.go: which nodes a request goes to, one call of a node, and the loop over the retries
-- in `Call`. The selector, the codecs, net/http and the caller's context are parameters; the time that
-- a back-off sleeps is left out.
pub mod Streams
pub mod Publish
pub mod Retries
mod Examples
use go_plugins.Prelude.{
  ℕ, ◌+◌, zero, suc, String, Bool, true, false, List, [], ◌∷◌, ◌++◌, Option, none, some, ◌==◌,
  string_eq, if◌then◌else◌,
}
use go_plugins.Prelude.Dict.{Dict, lookup, insert}
use go_plugins.Prelude.Outcome.{Outcome, ok, err}

-- `registry.Node`, its address.
pub record Node : Type 0 where
  pub address : String
  pub metadata : Dict String String

-- The client's errors by their codes, and an error of the caller's own functions.
pub data Fault : Type 0 where
  not_found internal timeout : Fault
  own : String → Fault

-- An error of the selector.
pub data Missing : Type 0 where
  no_service failed : Missing

unfoldable pub fault_of : Missing → Fault
fault_of no_service = not_found
fault_of failed = internal

-- What `next` answers: one address for every call, or a selector's `Next`, by the number of the call.
pub data Source : Type 0 where
  fixed : Node → Source
  selected : (ℕ → Outcome Missing Node) → Source

abbrev pub Selector : Type 0
Selector = String → Outcome Missing (ℕ → Outcome Missing Node)

-- The node of an address that is given.
unfoldable pub remote : String → Node
remote address = record { address = address; metadata = ("protocol", "http") ∷ [] }

unfoldable pub fixed_or :
    List String → Outcome Missing (ℕ → Outcome Missing Node) → Outcome Fault Source
unfolding remote fault_of
fixed_or (a ∷ as') s = ok (fixed (remote a))
fixed_or [] (ok f) = ok (selected f)
fixed_or [] (err e) = err (fault_of e)

-- `next`: the variables MICRO_PROXY and MICRO_PROXY_ADDRESS, the service, and the option's addresses.
-- The selector looks only at nodes with the label of the protocol.
unfoldable pub next : String → String → String → List String → Selector → Outcome Fault Source
unfolding fixed_or
next proxy proxy_address service addresses select =
    fixed_or (if proxy_address == "" then addresses else proxy_address ∷ [])
      (select (if proxy == "" then service else proxy))

unfoldable pub node_at : Source → ℕ → Outcome Missing Node
node_at (fixed n) i = ok n
node_at (selected f) i = f i

-- A request for net/http.
pub record Post : Type 0 where
  pub host : String
  pub path : String
  pub header : Dict String String
  pub body : String

-- A codec, and net/http: the response's status and body, or an error.
pub record Coding (M : Type 0) : Type 0 where
  pub marshal : M → Option String
  pub unmarshal : String → Option M

abbrev pub Exchange : Type 0
Exchange = Post → Option (ℕ × String)

unfoldable pub set_all : Dict String String → Dict String String → Dict String String
set_all [] h = h
set_all ((k, v) ∷ md) h = set_all md (insert k v h)

-- The headers of a call: the metadata, the timeout and the content type, under keys as net/http spells
-- them.
unfoldable pub header_of : Dict String String → String → String → Dict String String
unfolding set_all
header_of md nanoseconds content_type =
    insert "Content-Type" content_type (insert "Timeout" nanoseconds (set_all md []))

unfoldable pub post_of : Node → String → Dict String String → String → Post
post_of node endpoint header body = record {
  host = node.address;
  path = endpoint;
  header = header;
  body = body;
}

module _ {M : Type 0} where
  -- `call`: the codec of the content type, if there is one. The status of the response is not read.
  unfoldable pub call :
      Option (Coding M) → Exchange → Node → String → Dict String String → M → Outcome Fault M
  unfolding post_of
  call none http node endpoint header x = err internal
  call (some c) http node endpoint header x = elim (c.marshal x) [
    | none ↦ err internal
    | some b ↦ elim (http (post_of node endpoint header b)) [
      | none ↦ err internal
      | some (status, b') ↦ elim (c.unmarshal b') [ none ↦ err internal | some y ↦ ok y ]
    ]
  ]

-- What an attempt meets: whether the context ends before its answer, whether the back-off is granted,
-- and what the call, with its wrappers, makes of a node.
pub record World (A : Type 0) : Type 0 where
  pub ends : ℕ → Bool
  pub backs_off : ℕ → Bool
  pub reply : ℕ → Node → Outcome Fault A

-- `Retry` with the attempt's error: go on or not, or an error.
abbrev pub Retry : Type 0
Retry = ℕ → Option Fault → Outcome Fault Bool

-- A call of the selector's `Mark`.
pub record Mark : Type 0 where
  pub node : Node
  pub fault : Option Fault

module _ {A : Type 0} where
  unfoldable pub mark_of : Node → Outcome Fault A → Mark
  mark_of n (ok a) = record { node = n; fault = none }
  mark_of n (err e) = record { node = n; fault = some e }

  -- One attempt, the function `call` inside `Call`, with what it marks.
  unfoldable pub attempt : World A → Source → ℕ → Outcome Fault A × List Mark
  unfolding mark_of node_at fault_of
  attempt w s i =
      if w.backs_off i
      then (elim (node_at s i) [
        | err e ↦ (err (fault_of e), [])
        | ok n ↦ (w.reply i n, mark_of n (w.reply i n) ∷ [])
      ])
      else (err internal, [])

  -- The loop of `Call`, with the rounds left, and the error of the last one. The goroutine of an attempt
  -- that the context overtakes runs on and marks its node, perhaps after `Call` has returned.
  unfoldable pub rounds :
      World A → Source → Retry → ℕ → ℕ → Option Fault → Outcome (Option Fault) A × List Mark
  unfolding attempt
  rounds w s retry zero i last = (err last, [])
  rounds w s retry (suc n) i last =
      let (o, marks) = attempt w s i in
      let more = (λ (e : Fault). rounds w s retry n (i + 1) (some e)) in
      if w.ends i then (err (some timeout), marks) else (elim o [
        | ok a ↦ (ok a, marks)
        | err e ↦ elim (retry i (some e)) [
          | err r ↦ (err (some r), marks)
          | ok false ↦ (err (some e), marks)
          | ok true ↦ ((more e).0, marks ++ (more e).1)
        ]
      ])

  -- `Call` behind its options: the result of `next`, a context that has ended, and the number of
  -- retries. Its answer `err none` is the nil error of a call that was never made.
  unfoldable pub call_all :
      World A → Outcome Fault Source → Bool → Retry → ℕ → Outcome (Option Fault) A × List Mark
  unfolding rounds
  call_all w (err e) over retry retries = (err (some e), [])
  call_all w (ok s) true retry retries = (err (some timeout), [])
  call_all w (ok s) false retry retries = rounds w s retry retries 0 none
