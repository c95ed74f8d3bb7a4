-- ===== src/Middleware/SlowLogLaws.antt =====
-- What middleware/slow_log.go does to a query after Init.
use jorm.Base.{
  ℕ, ◌≡◌, refl, String, Option, none, some, List, [], ◌∷◌, map, ltb, arith, str_eq, Bool-cases, inl,
  inr, if◌then◌else◌,
}
use jorm.Base.Fallible.{ok}
use jorm.Middleware.SlowLog.{
  SlowLog, Line, Result, Statement, opened_at, init_logger, init, logged_sql, log_line, with_line,
  process,
}

-- What Init sets.
abbrev Ready : SlowLog → SlowLog → Type 0
Ready m n = (w : ℕ) × (n.logger ≡ some w) × (n.threshold ≡ m.threshold)

opened_at-Ready : (file : Option ℕ) (m n : SlowLog) → opened_at file m ≡ some n → Ready m n
unfolding opened_at
opened_at-Ready none m n h = cc
opened_at-Ready (some f) m n h = (f, ground arith, ground arith)

init_logger-Ready :
    (open_file : String → Option ℕ) (l : Option ℕ) (m n : SlowLog)
    → m.logger ≡ l
    → init_logger open_file l m ≡ some n
    → Ready m n
unfolding init_logger
init_logger-Ready open_file (some w) m n e h = (w, ground arith, ground arith)
init_logger-Ready open_file none m n e h = elim (Bool-cases (str_eq m.log_path "")) [
  | inl blank ↦ (0, ground arith, ground arith)
  | inr given ↦ opened_at-Ready (open_file m.log_path) m n (rw given at h)
]

module _ {D V E : Type 0} where
  slow_line : SlowLog → ℕ → ℕ → Statement V → Result D E → Line V E
  unfolding logged_sql
  slow_line m w duration q r = record {
    to = w;
    duration = duration;
    sql = (logged_sql q).0;
    args = (logged_sql q).1;
    rows = r.rows_affected;
    error = r.error;
  }

  -- Once Init has succeeded, a query whose `next` has given a result comes back as it was, and is logged
  -- exactly if it took longer than the threshold, in one line with its time and rows.
  pub process-init :
      (open_file : String → Option ℕ) (m n : SlowLog) (duration : ℕ) (q : Statement V)
      (r : Result D E) (e : Option E)
      → init open_file m ≡ some n
      → (lines : List (Line V E)) × (process n duration q (some r, e) ≡ ok ((some r, e), lines))
        × (map {B = ℕ × ℕ} (λ l. (l.duration, l.rows)) lines
            ≡ (if ltb m.threshold duration then (duration, r.rows_affected) ∷ [] else []))
  unfolding init process log_line with_line slow_line
  process-init open_file m n duration q r e h =
      let (w, set, same) = init_logger-Ready open_file m.logger m n refl h in
      elim (Bool-cases (ltb m.threshold duration)) [
        | inl slow ↦ (slow_line n w duration q r ∷ [], rw (same, slow, set) refl, rw slow refl)
        | inr fast ↦ ([], rw (same, fast) refl, rw fast refl)
      ]
