-- ===== src/Wrapper/Breaker/Examples.antt =====
-- Tests of the circuit breaker's model, and its theorem at concrete inputs.
use go_plugins.Prelude.{ℕ, ◌+◌, none, some, string_eq, nat_eq, if◌then◌else◌, ltb}
use go_plugins.Wrapper.Breaker.{Breakers}

-- A breaker that counts failures, and refuses after three.
abbrev counters : Breakers
counters = record {
  Breaker = ℕ;
  new = 0;
  allow = λ n. if ltb n 3 then some n else none;
  report = λ ok n. if ok then 0 else n + 1;
}
