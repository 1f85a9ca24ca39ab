-- ===== src/Registry/Multi.antt =====
-- registry/multi/multi.go: the calls that go to several registries at once. Each registry is asked by a
-- goroutine; a collector takes their answers in the order in which they come, as a run of steps.
pub mod AnyOrder
mod Examples
use go_plugins.Prelude.{ℕ, List, [], ◌∷◌, ◌++◌, Option, none, some, ◌≡◌}
use go_plugins.Registry.{Service}

pub data Fault : Type 0 where
  not_found : Fault
  other : ℕ → Fault

-- What one registry answers. A call without a list answers with the empty one.
pub record Answer : Type 0 where
  pub fault : Option Fault
  pub services : List Service

pub record Collected : Type 0 where
  pub errs : List Fault
  pub svcs : List Service

abbrev pub nothing : Collected
nothing = record { errs = []; svcs = [] }

-- The collector on one answer, in `Register`, `Deregister` and `ListServices`: any error is kept.
unfoldable pub absorb : Answer → Collected → Collected
absorb a c = elim a.fault [
  | none ↦ record c { svcs = c.svcs ++ a.services }
  | some e ↦ record c { errs = c.errs ++ e ∷ [] }
]

-- In `GetService` the error of a service that is not found is none.
unfoldable pub absorb_found : Answer → Collected → Collected
absorb_found a c = elim a.fault [
  | none ↦ record c { svcs = c.svcs ++ a.services }
  | some not_found ↦ record c { svcs = c.svcs ++ a.services }
  | some (other e) ↦ record c { errs = c.errs ++ other e ∷ [] }
]

-- The answers still to come, what is collected, and what is collected in the end: each step takes any one.
pub data Run (take : Answer → Collected → Collected)
    : List Answer → Collected → Collected → Type 0 where
  done : {c : Collected} → Run take [] c c
  next :
      {all : List Answer} {c d : Collected} (xs : List Answer) (a : Answer) (ys : List Answer)
      → all ≡ xs ++ a ∷ ys
      → Run take (xs ++ ys) (take a c) d
      → Run take all c d

-- `errs[0]`, in `Register` and `Deregister`.
unfoldable pub first_error : Collected → Option Fault
first_error c = elim c.errs [ [] ↦ none | e ∷ es ↦ some e ]

-- `missing` is ErrNotFound.
pub data Reply : Type 0 where
  missing : Reply
  failed : Fault → Reply
  found : List Service → Reply

-- The end of `ListServices`, and that of `GetService`.
unfoldable pub list_reply : Collected → Reply
list_reply c = elim c.errs [ [] ↦ found c.svcs | e ∷ es ↦ failed e ]

unfoldable pub get_reply : Collected → Reply
get_reply c = elim c.errs [
  | [] ↦ elim c.svcs [ [] ↦ missing | s ∷ ss ↦ found (s ∷ ss) ]
  | e ∷ es ↦ failed e
]
