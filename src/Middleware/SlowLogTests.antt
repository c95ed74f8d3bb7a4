-- ===== src/Middleware/SlowLogTests.antt =====
-- A slow query, and a query that is traced.
use jorm.Base.{ℕ, ◌≡◌, refl, String, Option, none, some, List, [], ◌∷◌, map, str_eq, if◌then◌else◌}
use jorm.Base.Fallible.{ok, panics}
use jorm.Logger.{other, new_std_logger}
use jorm.Middleware.SlowLog
use jorm.Middleware.SlowLog.{SlowLog, Line, Result, Statement, new_slow_log}
use jorm.Middleware.SlowLogLaws.{process-init}
use jorm.Middleware.Tracing

abbrev opens : String → Option ℕ
opens path = some 3

abbrev fresh : SlowLog
fresh = new_slow_log 100 "slow.log"

abbrev ready : SlowLog
ready = record fresh { file = some 3; logger = some 3 }

abbrev statement : Statement ℕ
statement = record { last_sql = "SELECT 1"; last_args = []; select_sql = ("", []) }

abbrev result : Result ℕ String
result = record { value = 7; rows_affected = 2; error = none }

ready_runs : SlowLog.init opens fresh ≡ some ready
unfolding SlowLog.init
ready_runs = refl

process-init_example :
    (lines : List (Line ℕ String)) × (SlowLog.process ready 250 statement (some result, none)
      ≡ ok ((some result, none), lines))
    × (map {B = ℕ × ℕ} (λ l. (l.duration, l.rows)) lines ≡ (250, 2) ∷ [])
process-init_example = process-init opens fresh ready 250 statement result none ready_runs

-- A slow log that was not initialised panics at a slow query.
no_init-test : SlowLog.process {D = ℕ} {E = String} fresh 250 statement (some result, none) ≡ panics
unfolding SlowLog.process
no_init-test = refl

abbrev request : String → Option ℕ
request key = if str_eq key "request_id" then some 9 else none

traced-test :
    Tracing.process request (some new_std_logger)
    ≡ some (record new_std_logger { fields = ("request_id", other 9) ∷ [] })
unfolding Tracing.process
traced-test = refl
