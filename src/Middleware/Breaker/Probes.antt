-- ===== src/Middleware/Breaker/Probes.antt =====
-- When the breaker opens, whom it rejects, and whom it lets through to probe the database.
use jorm.Base.{
  ℕ, suc, ◌+◌, ◌-◌, ◌≤◌, ◌<◌, ◌≡◌, refl, true, false, List, [], ◌∷◌, length, All, arith, Bool-cases,
  inl, inr, ltb, leb, if◌then◌else◌,
}
use jorm.Middleware.Breaker.{Breaker, closed, open_state, half_open, enter, process}

-- Requests one after another, whose `next` fails; each with the times at which it starts and ends.
unfoldable pub run_failing : List (ℕ × ℕ) → Breaker → Breaker
unfolding process
run_failing [] m = m
run_failing ((now, later) ∷ rest) m = run_failing rest (process now later true m).0

failing_step :
    (now later : ℕ) (m : Breaker)
    → m.state ≡ closed
    → let m' = (process now later true m).0 in
      (m'.failures ≡ suc m.failures)
      × (m'.threshold ≡ m.threshold)
      × (m'.state ≡ (if leb m.threshold (suc m.failures) then open_state else closed))
unfolding process
failing_step now later m h = ground arith

run_failing-closed :
    (ts : List (ℕ × ℕ)) (m : Breaker)
    → m.state ≡ closed
    → m.failures + length ts < m.threshold
    → ((run_failing ts m).state ≡ closed) × ((run_failing ts m).failures ≡ m.failures + length ts)
unfolding run_failing
run_failing-closed [] m h lt = (h, omega arith)
run_failing-closed ((now, later) ∷ ts) m h lt =
    let s = failing_step now later m h in
    let ih =
      run_failing-closed ts (process now later true m).0 (ground (arith, s)) (omega (arith, s)) in
    (ih.0, omega (arith, s, ih.1))

run_failing_open :
    (ts : List (ℕ × ℕ)) (m : Breaker)
    → m.state ≡ closed
    → m.failures < m.threshold
    → m.failures + length ts ≡ m.threshold
    → ((run_failing ts m).state ≡ open_state)
      × ((run_failing ts m).failures ≡ m.failures + length ts)
unfolding run_failing
run_failing_open [] m h lt e = absurd (omega arith)
run_failing_open ((now, later) ∷ []) m h lt e =
    let s = failing_step now later m h in (ground (arith, s), omega (arith, s))
run_failing_open ((now, later) ∷ t ∷ ts) m h lt e =
    let s = failing_step now later m h in
    let ih =
      run_failing_open (t ∷ ts) (process now later true m).0 (ground (arith, s)) (omega (arith, s))
        (omega (arith, s)) in
    (ih.0, omega (arith, s, ih.1))

-- From a closed breaker, requests that fail one after another, no more of them than the threshold
-- leaves room for, are all counted: the breaker is then closed while the count is below the
-- threshold, and open once the count has reached it.
pub state-run_failing :
    (ts : List (ℕ × ℕ)) (m : Breaker)
    → m.state ≡ closed
    → m.failures < m.threshold
    → m.failures + length ts ≤ m.threshold
    → ((run_failing ts m).failures ≡ m.failures + length ts)
      × ((run_failing ts m).state
          ≡ (if ltb (m.failures + length ts) m.threshold then closed else open_state))
state-run_failing ts m h lt fits = elim (Bool-cases (ltb (m.failures + length ts) m.threshold)) [
  | inl below ↦ let r = run_failing-closed ts m h (ground arith) in (r.1, rw below (r.0))
  | inr reached ↦ let r = run_failing_open ts m h lt (ground arith) in (r.1, rw reached (r.0))
]

-- Arrivals, before the result of any request comes in; counts those let through.
unfoldable pub arrivals : List ℕ → Breaker → Breaker × ℕ
unfolding enter
arrivals [] m = (m, 0)
arrivals (now ∷ rest) m =
    let (m', admitted) = enter now m in
    let (m'', n) = arrivals rest m' in (m'', if admitted then suc n else n)

-- Every arrival of a list is within the timeout.
abbrev pub Within : Breaker → ℕ → Type 0
Within m now = now - m.last_failure ≤ m.reset_timeout

-- While the timeout of an open breaker has not passed, every request is rejected without a call of
-- `next`, and the breaker does not change.
pub arrivals-Within :
    (ts : List ℕ) (m : Breaker) → m.state ≡ open_state → All (Within m) ts → arrivals ts m ≡ (m, 0)
unfolding arrivals
arrivals-Within [] m h w = refl
arrivals-Within (now ∷ ts) m h (w, ws) = ground (arith, arrivals-Within ts m h ws)

arrivals_passed :
    (ts : List ℕ) (m : Breaker)
    → m.state ≡ half_open
    → m.half_open_passed ≡ true
    → arrivals ts m ≡ (m, 0)
unfolding arrivals
arrivals_passed [] m h p = refl
arrivals_passed (now ∷ ts) m h p = ground (arith, arrivals_passed ts m h p)

arrivals_fresh :
    (ts : List ℕ) (m : Breaker)
    → m.state ≡ half_open
    → m.half_open_passed ≡ false
    → (arrivals ts m).1 ≤ 1
unfolding arrivals
arrivals_fresh [] m h p = omega arith
arrivals_fresh (now ∷ ts) m h p =
    ground (arith, arrivals_passed ts (record m { half_open_passed = true }) h refl)

-- Before a result comes in, an open breaker lets at most two requests through, however many arrive.
pub arrivals_at_most_two :
    (ts : List ℕ) (m : Breaker) → m.state ≡ open_state → (arrivals ts m).1 ≤ 2
unfolding arrivals
arrivals_at_most_two [] m h = omega arith
arrivals_at_most_two (now ∷ ts) m h = ground (
  arith,
  arrivals_at_most_two ts m h,
  arrivals_fresh ts (record m { state = half_open; half_open_passed = false }) refl refl,
)

-- Once the timeout has passed, an open breaker lets two requests through before it rejects the
-- third, where the comment in the source promises one.
pub second_probe :
    (m : Breaker) (first second third : ℕ)
    → m.state ≡ open_state
    → m.reset_timeout < first - m.last_failure
    → (arrivals (first ∷ second ∷ third ∷ []) m).1 ≡ 2
unfolding arrivals
second_probe m first second third h passed = ground arith
