-- ===== src/Middleware/Breaker.antt =====
-- middleware/circuit_breaker.go. `Process` holds the lock in two parts, before and after the call of
-- `next`, so requests that run at once are a sequence of such parts: `enter` and `leave`. Times are
-- nanoseconds, and the counter of failures does not wrap.
mod Laws
mod Probes
mod Tests
use jorm.Base.{ℕ, zero, suc, ◌+◌, ◌-◌, Bool, true, false, List, [], ◌∷◌, ltb, leb, if◌then◌else◌}

pub data State : Type 0 where
  closed open_state half_open : State

pub record Breaker : Type 0 where
  pub threshold : ℕ
  pub reset_timeout : ℕ
  pub state : State
  pub failures : ℕ
  pub last_failure : ℕ
  pub half_open_passed : Bool

-- `NewCircuitBreaker`
unfoldable pub new_circuit_breaker : ℕ → ℕ → Breaker
new_circuit_breaker threshold reset_timeout = record {
  threshold = threshold;
  reset_timeout = reset_timeout;
  state = closed;
  failures = 0;
  last_failure = 0;
  half_open_passed = false;
}

-- The `switch` at the start of `Process`; `false` is ErrCircuitOpen, and `next` is not called.
enter_in : State → ℕ → Breaker → Breaker × Bool
enter_in closed now m = (m, true)
enter_in open_state now m =
    if ltb m.reset_timeout (now - m.last_failure)
    then (record m { state = half_open; half_open_passed = false }, true)
    else (m, false)
enter_in half_open now m =
    if m.half_open_passed then (m, false) else (record m { half_open_passed = true }, true)

unfoldable pub enter : ℕ → Breaker → Breaker × Bool
unfolding enter_in
enter now m = enter_in m.state now m

failed_in : State → Breaker → Breaker
failed_in closed m = if leb m.threshold m.failures then record m { state = open_state } else m
failed_in half_open m = record m { state = open_state; half_open_passed = false }
failed_in open_state m = m

-- `recordFailure`
unfoldable pub record_failure : ℕ → Breaker → Breaker
unfolding failed_in
record_failure now m =
    let counted = record m { failures = suc m.failures; last_failure = now } in
    failed_in counted.state counted

succeeded_in : State → Breaker → Breaker
succeeded_in half_open m = record m { state = closed; failures = 0; half_open_passed = false }
succeeded_in closed m = record m { failures = 0 }
succeeded_in open_state m = m

-- `recordSuccess`
unfoldable pub record_success : Breaker → Breaker
unfolding succeeded_in
record_success m = succeeded_in m.state m

-- The part of `Process` after `next`, which failed or not.
unfoldable pub leave : ℕ → Bool → Breaker → Breaker
unfolding record_failure record_success
leave now failed m = if failed then record_failure now m else record_success m

-- `Process` for one request that no other overlaps; `next` fails or not, and ends at `later`. The
-- Boolean is whether `next` was called.
unfoldable pub process : ℕ → ℕ → Bool → Breaker → Breaker × Bool
unfolding enter leave
process now later failed m =
    let (m', admitted) = enter now m in
    if admitted then (leave later failed m', true) else (m', false)
