-- ===== src/Core/Health.antt =====
-- core/db.go: `checkHealth` and `reportError`. Times are nanoseconds after a start, and the clock
-- does not run backwards.
use mathlib.Core.List.{reverse-cons}
use jorm.Base.{
  ℕ, ◌-◌, ◌*◌, reverse, ◌≡◌, refl, ◌∙◌, Bool, false, ◌||◌, String, Option, none, some, List, [],
  ◌∷◌, ◌++◌, arith, ltb, contains, if◌then◌else◌,
}

-- An error: its text, and whether `errors.Is(err, ErrConnectionFailed)`.
pub record Error : Type 0 where
  pub message : String
  pub wraps_connection_failed : Bool

-- The health of a `DB`.
pub record Db : Type 0 where
  pub last_err : Option Error
  pub last_err_time : ℕ
  pub cooldown_time : ℕ

-- Whether the error triggers a cooldown.
unfoldable pub is_connection_error : Error → Bool
unfolding contains
is_connection_error err =
    contains err.message "connection refused"
    || contains err.message "i/o timeout"
    || contains err.message "reset by peer"
    || contains err.message "broken pipe"
    || err.wraps_connection_failed

-- True where `checkHealth` returns an error.
unfoldable pub check_health : ℕ → Db → Bool
check_health now db = elim db.last_err [
  | none ↦ false
  | some err ↦ ltb (now - db.last_err_time) db.cooldown_time
]

unfoldable pub report_error : ℕ → Option Error → Db → Db
unfolding is_connection_error
report_error now none db = record db { last_err = none }
report_error now (some err) db =
    if is_connection_error err then record db { last_err = some err; last_err_time = now } else db

-- `Open`: 5 seconds.
abbrev pub opened : Db
opened = record { last_err = none; last_err_time = 0; cooldown_time = 5 * 1000000000 }

-- Reports with their times, one after another.
unfoldable pub reports : List (ℕ × Option Error) → Db → Db
unfolding report_error
reports [] db = db
reports ((now, err) ∷ rest) db = reports rest (report_error now err db)

-- The time of the failure that counts, given the reports from the last to the first: that of the
-- last connection error with no success after it.
unfoldable pub last_failure : List (ℕ × Option Error) → Option ℕ
unfolding is_connection_error
last_failure [] = none
last_failure ((now, none) ∷ earlier) = none
last_failure ((now, some err) ∷ earlier) =
    let before = last_failure earlier in if is_connection_error err then some now else before

-- Whether a failure is less than `c` ago.
unfoldable pub cools_down : ℕ → ℕ → Option ℕ → Bool
cools_down now c none = false
cools_down now c (some t) = ltb (now - t) c

-- The failure that a `DB` remembers.
remembered : Db → Option ℕ
remembered db = elim db.last_err [ none ↦ none | some err ↦ some db.last_err_time ]

check_health-remembered :
    (now : ℕ) (db : Db) → check_health now db ≡ cools_down now db.cooldown_time (remembered db)
unfolding check_health remembered cools_down
check_health-remembered now db = ground arith

reports-append :
    (es es' : List (ℕ × Option Error)) (db : Db)
    → reports (es ++ es') db ≡ reports es' (reports es db)
unfolding reports
reports-append [] es' db = refl
reports-append ((now, err) ∷ es) es' db = reports-append es es' (report_error now err db)

remembered-report_error :
    (now : ℕ) (err : Option Error) (db : Db) (earlier : List (ℕ × Option Error))
    → remembered db ≡ last_failure earlier
    → (remembered (report_error now err db) ≡ last_failure ((now, err) ∷ earlier))
      × ((report_error now err db).cooldown_time ≡ db.cooldown_time)
unfolding remembered report_error last_failure
remembered-report_error now none db earlier h = (refl, refl)
remembered-report_error now (some err) db earlier h = ground arith

reports-last :
    (now : ℕ) (err : Option Error) (earlier : List (ℕ × Option Error)) (db : Db)
    → reports (reverse ((now, err) ∷ earlier)) db
      ≡ report_error now err (reports (reverse earlier) db)
unfolding reports
reports-last now err earlier db =
    rw (reverse-cons (now, err) earlier) (reports-append (reverse earlier) ((now, err) ∷ []) db)

remembered-reports :
    (latest_first : List (ℕ × Option Error))
    → (remembered (reports (reverse latest_first) opened) ≡ last_failure latest_first)
      × ((reports (reverse latest_first) opened).cooldown_time ≡ opened.cooldown_time)
remembered-reports [] = unfold reports remembered last_failure in (refl, refl)
remembered-reports ((now, err) ∷ earlier) =
    let (r, c) = remembered-reports earlier in
    let (r', c') = remembered-report_error now err (reports (reverse earlier) opened) earlier r in
    rw (reports-last now err earlier opened) (r', c' ∙ c)

-- A `DB` that was opened, after any reports, refuses a query exactly while its last connection
-- error that no success followed is less than five seconds ago.
pub check_health-last_failure :
    (now : ℕ) (latest_first : List (ℕ × Option Error))
    → check_health now (reports (reverse latest_first) opened)
      ≡ cools_down now (5 * 1000000000) (last_failure latest_first)
check_health-last_failure now latest_first =
    let (r, c) = remembered-reports latest_first in
    check_health-remembered now (reports (reverse latest_first) opened) ∙ rw (r, c) refl
