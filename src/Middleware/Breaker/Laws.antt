-- ===== src/Middleware/Breaker/Laws.antt =====
-- What holds of the breaker over any interleaving of requests.
use jorm.Base.{ℕ, ◌≤◌, ◌<◌, ◌≡◌, ◌⊎◌, Bool, List, [], ◌∷◌, arith}
use jorm.Middleware.Breaker.{
  Breaker, closed, open_state, half_open, enter, leave, new_circuit_breaker,
}

-- The two parts of requests, in the order in which they take the lock.
pub data Event : Type 0 where
  enters : ℕ → Event
  leaves : ℕ → Bool → Event

unfoldable pub step : Breaker → Event → Breaker
step m (enters now) = (enter now m).0
step m (leaves now failed) = leave now failed m

unfoldable pub run : Breaker → List Event → Breaker
unfolding step
run m [] = m
run m (e ∷ es) = run (step m e) es

-- Closed exactly while the failures counted are below the threshold.
pub record Inv (m : Breaker) : Type 0 where
  pub below : m.state ≡ closed → m.failures < m.threshold
  pub reached : (m.state ≡ open_state) ⊎ (m.state ≡ half_open) → m.threshold ≤ m.failures

step-Inv : (m : Breaker) (e : Event) → 0 < m.threshold → Inv m → Inv (step m e)
unfolding step enter leave
step-Inv m (enters now) h v = ground arith
step-Inv m (leaves now failed) h v = ground arith

threshold-step : (m : Breaker) (e : Event) → (step m e).threshold ≡ m.threshold
unfolding step enter leave
threshold-step m (enters now) = ground arith
threshold-step m (leaves now failed) = ground arith

run-Inv : (m : Breaker) (es : List Event) → 0 < m.threshold → Inv m → Inv (run m es)
unfolding run
run-Inv m [] h v = v
run-Inv m (e ∷ es) h v =
    run-Inv (step m e) es (omega (arith, threshold-step m e)) (step-Inv m e h v)

-- From a new breaker with a positive threshold, after any interleaving of requests: it is closed
-- only with fewer counted failures than the threshold, and open or half open only with at least as
-- many.
pub new_circuit_breaker-Inv :
    (threshold timeout : ℕ) (es : List Event)
    → 0 < threshold
    → Inv (run (new_circuit_breaker threshold timeout) es)
new_circuit_breaker-Inv threshold timeout es h =
    run-Inv (new_circuit_breaker threshold timeout) es (unfold new_circuit_breaker in h)
      (unfold new_circuit_breaker in ground arith)
