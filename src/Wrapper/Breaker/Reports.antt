-- ===== src/Wrapper/Breaker/Reports.antt =====
-- Proofs about wrapper/breaker/gobreaker: what is reported to which breaker.
use go_plugins.Prelude.{
  String, ◌≡◌, Bool, true, false, Option, none, some, ◌==◌, string_eq, nat_eq, if◌then◌else◌,
  or_else, ltb, arith, ◌&&◌, not,
}
use go_plugins.Prelude.Dict.{Dict, lookup, lookup-insert}
use go_plugins.Wrapper.Breaker.{Breakers, Method, Fault, key, completed, call}

-- The call counts as a success: it has no error, or one with a code that is not 0 and below 500.
abbrev pub is_success : Option Fault → Bool
is_success none = true
is_success (some e) = ltb e.code 500 && not (e.code == 0)

-- A call that its breaker lets through reports to it, and to no other breaker, whether the client's call had
-- no error or one with a code that is not 0 and below 500.
pub call-report :
    (b : Breakers) (m : Method) (service endpoint : String) (answer : Option Fault)
    (cbs : Dict String b.Breaker)
    → (through : b.Breaker) (other : String)
    → b.allow (or_else (lookup (key m service endpoint) cbs) b.new) ≡ some through
    → lookup other (call b m service endpoint answer cbs).1 ≡ (
        if key m service endpoint == other
        then some (b.report (is_success answer) through)
        else lookup other cbs)
unfolding call completed
call-report b m service endpoint none cbs through other a =
    ground (arith, a, lookup-insert (key m service endpoint) other (b.report true through) cbs)
call-report b m service endpoint (some e) cbs through other a = ground (
  arith,
  a,
  lookup-insert (key m service endpoint) other (b.report true through) cbs,
  lookup-insert (key m service endpoint) other (b.report false through) cbs,
)
