-- ===== src/Core/Retry.antt =====
-- core/db.go: the loop of `Open` that pings the database, after the pool was set up. Durations are
-- nanoseconds of 64 bits. The database is the function that answers the ping of each round.
use native.Mathlib.Nat.{zero-add}
use jorm.Base.{
  ℕ, zero, suc, ◌+◌, ◌*◌, ◌^◌, ◌%◌, ◌<◌, ◌≤◌, ◌≡◌, ◌≢◌, ap, ◌∙◌, Option, none, some, List, [], ◌∷◌,
  ℤ, pos, negsuc, arith, ltb, leb, if◌then◌else◌,
}

abbrev pub second : ℕ
second = 1000000000

-- `retryDelay * (1 << uint(i))`, capped at 30 seconds. A sleep of a negative duration ends at once.
unfoldable pub actual_delay : ℕ → ℕ → ℕ
actual_delay retry_delay i =
    let raw = (retry_delay * 2 ^ i) % 2 ^ 64 in
    if leb (2 ^ 63) raw then 0 else if ltb (30 * second) raw then 30 * second else raw

-- How the loop ends: the sleeps it took, and whether the last ping failed.
unfoldable pub rounds : {E : Type 0} → (ℕ → Option E) → ℕ → ℕ → ℕ → List ℕ × Option E
unfolding actual_delay
rounds ping retry_delay i zero = ([], ping i)
rounds ping retry_delay i (suc left) =
    let (sleeps, ping_err) = rounds ping retry_delay (i + 1) left in
    elim (ping i) [ none ↦ ([], none) | some err ↦ (actual_delay retry_delay i ∷ sleeps, ping_err) ]

-- `for i := 0; i <= maxRetries; i++`, which does not ping at all for a negative number of retries.
unfoldable pub connect : {E : Type 0} → (ℕ → Option E) → ℕ → ℤ → List ℕ × Option E
unfolding rounds
connect ping retry_delay (negsuc n) = ([], none)
connect ping retry_delay (pos max_retries) = rounds ping retry_delay 0 max_retries

actual_delay-capped : (retry_delay i : ℕ) → actual_delay retry_delay i ≤ 30 * second
unfolding actual_delay
actual_delay-capped retry_delay i = ground arith

-- Without overflow the delay doubles from round to round, up to 30 seconds.
actual_delay-doubles :
    (retry_delay i : ℕ)
    → retry_delay * 2 ^ i < 2 ^ 63
    → actual_delay retry_delay i
      ≡ (if leb (retry_delay * 2 ^ i) (30 * second) then retry_delay * 2 ^ i else 30 * second)
unfolding actual_delay
actual_delay-doubles retry_delay i h = ground arith

unfoldable pub delays : ℕ → ℕ → ℕ → List ℕ
unfolding actual_delay
delays retry_delay i zero = []
delays retry_delay i (suc n) = actual_delay retry_delay i ∷ delays retry_delay (i + 1) n

module _ {E : Type 0} (ping : ℕ → Option E) (retry_delay : ℕ) where
  rounds_success :
      (n i k left : ℕ)
      → i + n ≡ k
      → n ≤ left
      → ((j : ℕ) → i ≤ j → j < k → ping j ≢ none)
      → ping k ≡ none
      → rounds ping retry_delay i left ≡ (delays retry_delay i n, none)
  unfolding rounds delays
  rounds_success zero i k zero e h fails ok = ap (λ x. ([], ping x)) e' ∙ ap (λ x. ([], x)) ok
    where
      e' : i ≡ k
      e' = omega arith
  rounds_success zero i k (suc left) e h fails ok = ground (arith, ap ping e'')
    where
      e'' : i ≡ k
      e'' = omega arith
  rounds_success (suc n) i k (suc left) e h fails ok = ground (
    arith,
    fails i (omega arith) (omega arith),
    rounds_success n (i + 1) k left (omega arith) (omega arith) (λ j l. fails j (omega arith)) ok,
  )
  rounds_success (suc n) i k zero e h fails ok = absurd (omega arith)

  rounds_failure :
      (left i : ℕ)
      → ((j : ℕ) → i ≤ j → j ≤ i + left → ping j ≢ none)
      → rounds ping retry_delay i left ≡ (delays retry_delay i left, ping (i + left))
  unfolding rounds delays
  rounds_failure zero i fails = ap (λ x. ([], ping x)) e
    where
      e : i ≡ i + 0
      e = omega arith
  rounds_failure (suc left) i fails = ground (
    arith,
    fails i (omega arith) (omega arith),
    rounds_failure left (i + 1) (λ j l l'. fails j (omega arith) (omega arith)),
    ap ping e,
  )
    where
      e : i + 1 + left ≡ i + suc left
      e = omega arith

-- `Open` with no negative number of retries, whose delays are `delays retry_delay 0`: where some ping
-- of the first `max_retries + 1` succeeds, the first that does ends the loop without an error, after
-- one sleep for each failure; where none does, all of them were tried, and the error is that of the
-- last.
pub connect-delays :
    {E : Type 0} (ping : ℕ → Option E) (retry_delay max_retries : ℕ)
    → ((k : ℕ)
        → k ≤ max_retries
        → ((j : ℕ) → j < k → ping j ≢ none)
        → ping k ≡ none
        → connect ping retry_delay (pos max_retries) ≡ (delays retry_delay 0 k, none))
      × (((j : ℕ) → j ≤ max_retries → ping j ≢ none)
          → connect ping retry_delay (pos max_retries)
            ≡ (delays retry_delay 0 max_retries, ping max_retries))
unfolding connect
connect-delays ping retry_delay max_retries = (
  λ k h fails ok.
      rounds_success ping retry_delay k 0 k max_retries (omega arith) h (λ j l. fails j) ok,
  λ fails.
      rounds_failure ping retry_delay max_retries 0 (λ j l l'. fails j (omega arith))
      ∙ ap (λ n. (delays retry_delay 0 max_retries, ping n)) (zero-add max_retries),
)

-- No sleep of `Open` is longer than 30 seconds, and without overflow the delay of round `i` is the
-- first delay times 2 to the `i`, or 30 seconds if that is less.
pub actual_delay-bounds :
    (retry_delay i : ℕ)
    → (actual_delay retry_delay i ≤ 30 * second)
      × (retry_delay * 2 ^ i < 2 ^ 63
          → actual_delay retry_delay i ≡ (
              if leb (retry_delay * 2 ^ i) (30 * second) then retry_delay * 2 ^ i else 30 * second))
actual_delay-bounds retry_delay i =
    (actual_delay-capped retry_delay i, actual_delay-doubles retry_delay i)
