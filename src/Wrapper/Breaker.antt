-- ===== src/Wrapper/Breaker.antt =====
-- wrapper/breaker/gobreaker: `Call`. A circuit breaker of package gobreaker is an interface over a state of
-- its own; the error that go-micro parses is a code and an id.
pub mod Reports
mod Examples
use Prim.Native.String.{◌++◌ as str_append}
use go_plugins.Prelude.{
  ℕ, String, Bool, true, false, Option, none, some, ◌==◌, string_eq, nat_eq, if◌then◌else◌, or_else,
  leb,
}
use go_plugins.Prelude.Dict.{Dict, lookup, insert}

-- `Allow`, which may refuse, and the call back with its success.
pub record Breakers : Type 1 where
  pub Breaker : Type 0
  pub new : Breaker
  pub allow : Breaker → Option Breaker
  pub report : Bool → Breaker → Breaker

pub data Method : Type 0 where
  by_service by_endpoint : Method

pub record Fault : Type 0 where
  pub code : ℕ
  pub id : String

pub data Reply : Type 0 where
  done : Reply
  refused : Reply
  failed : Fault → Reply

-- The key of the breaker.
unfoldable pub key : Method → (service endpoint : String) → String
key by_service service endpoint = service
key by_endpoint service endpoint = str_append service (str_append "." endpoint)

-- The switch: an error without a code is unavailable; only another one is given the missing id.
unfoldable pub completed : String → Fault → Fault
completed service e =
    if e.code == 0
    then record e { code = 503 }
    else if e.id == ""
    then record e { id = service }
    else e

module _ (b : Breakers) where
  -- `Call`, given the error of the client's own call, if it has one.
  unfoldable pub call :
      Method
      → (service endpoint : String) → Option Fault
      → Dict String b.Breaker
      → Reply × Dict String b.Breaker
  unfolding key completed
  call m service endpoint answer cbs =
      let svc = key m service endpoint in
      let cb = or_else (lookup svc cbs) b.new in
      elim (b.allow cb) [
        | none ↦ (refused, insert svc cb cbs)
        | some through ↦ elim answer [
          | none ↦ (done, insert svc (b.report true through) cbs)
          | some e ↦
              let e' = completed service e in
              (
                failed e',
                insert svc (b.report (if leb 500 e'.code then false else true) through) cbs,
              )
        ]
      ]
