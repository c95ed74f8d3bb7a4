-- ===== src/Middleware/Breaker/Tests.antt =====
-- The breaker on concrete requests, and the theorems about it at inputs.
use jorm.Base.{ℕ, ◌+◌, ◌≡◌, refl, true, false, List, [], ◌∷◌, length, ltb, arith, if◌then◌else◌}
use jorm.Middleware.Breaker.{Breaker, closed, open_state, new_circuit_breaker, process}
use jorm.Middleware.Breaker.Laws.{Event, enters, leaves, run, Inv, new_circuit_breaker-Inv}
use jorm.Middleware.Breaker.Probes.{run_failing, state-run_failing, arrivals, second_probe}

abbrev tripped : Breaker
tripped = record {
  threshold = 2;
  reset_timeout = 100;
  state = open_state;
  failures = 2;
  last_failure = 20;
  half_open_passed = false;
}

two_failures : run_failing ((0, 10) ∷ (15, 20) ∷ []) (new_circuit_breaker 2 100) ≡ tripped
unfolding run_failing new_circuit_breaker
two_failures = refl

recovers : (process 121 130 false tripped).0.state ≡ closed
unfolding process
recovers = refl

abbrev overlapping : List Event
overlapping =
    enters 0 ∷ enters 1 ∷ leaves 5 true ∷ leaves 6 true ∷ enters 200 ∷ leaves 210 false ∷ []

new_circuit_breaker-Inv_example : Inv (run (new_circuit_breaker 2 100) overlapping)
new_circuit_breaker-Inv_example = new_circuit_breaker-Inv 2 100 overlapping (omega arith)

abbrev times : List (ℕ × ℕ)
times = (0, 10) ∷ (15, 20) ∷ []

state-run_failing_example :
    let m = new_circuit_breaker 2 100 in
    ((run_failing times m).failures ≡ m.failures + length times)
    × ((run_failing times m).state
        ≡ (if ltb (m.failures + length times) m.threshold then closed else open_state))
unfolding new_circuit_breaker
state-run_failing_example =
    state-run_failing times (new_circuit_breaker 2 100) refl (omega arith) (omega arith)

second_probe_example : (arrivals (121 ∷ 122 ∷ 123 ∷ []) tripped).1 ≡ 2
second_probe_example = second_probe tripped 121 122 123 refl (omega arith)
