-- ===== src/Middleware/SlowLog.antt =====
-- middleware/slow_log.go. A file is a number, and `os.Stdout` is 0. The elapsed time of `next` is an
-- argument.
use jorm.Base.{ℕ, String, Option, none, some, List, [], ◌∷◌, ltb, str_eq, if◌then◌else◌}
use jorm.Base.Fallible.{Fallible, ok, panics}

pub record SlowLog : Type 0 where
  pub threshold : ℕ
  pub log_path : String
  pub logger : Option ℕ
  pub file : Option ℕ

-- A line of the log: where it goes, the time, the statement with its arguments, the rows and the error.
pub record Line (V E : Type 0) : Type 0 where
  pub to : ℕ
  pub duration : ℕ
  pub sql : String
  pub args : List V
  pub rows : ℕ
  pub error : Option E

-- `core.Result`, as far as it is logged, and what `next` returns; nil is none.
pub record Result (D E : Type 0) : Type 0 where
  pub value : D
  pub rows_affected : ℕ
  pub error : Option E

abbrev pub Answer : Type 0 → Type 0 → Type 0
Answer D E = Option (Result D E) × Option E

abbrev pub new_slow_log : ℕ → String → SlowLog
new_slow_log threshold log_path = record {
  threshold = threshold;
  log_path = log_path;
  logger = none;
  file = none;
}

unfoldable pub set_output : ℕ → SlowLog → SlowLog
set_output w m = record m { logger = some w }

-- The file that `os.OpenFile` opens at a path, or none.
unfoldable pub opened_at : Option ℕ → SlowLog → Option SlowLog
opened_at none m = none
opened_at (some f) m = some (record m { file = some f; logger = some f })

unfoldable pub init_logger : (String → Option ℕ) → Option ℕ → SlowLog → Option SlowLog
unfolding opened_at
init_logger open_file (some w) m = some m
init_logger open_file none m =
    if str_eq m.log_path ""
    then some (record m { logger = some 0 })
    else opened_at (open_file m.log_path) m

-- `Init`, which fails with the error of the file.
unfoldable pub init : (String → Option ℕ) → SlowLog → Option SlowLog
unfolding init_logger
init open_file m = init_logger open_file m.logger m

-- The file that `Shutdown` closes.
unfoldable pub shutdown : SlowLog → Option ℕ
shutdown m = m.file

-- The statement of the query, with what `GetSelectSQL` builds.
pub record Statement (V : Type 0) : Type 0 where
  pub last_sql : String
  pub last_args : List V
  pub select_sql : String × List V

unfoldable pub logged_sql : {V : Type 0} → Statement V → String × List V
logged_sql q = if str_eq q.last_sql "" then q.select_sql else (q.last_sql, q.last_args)

module _ {D V E : Type 0} where
  -- `Printf` on the logger, of the fields of the result.
  unfoldable pub log_line : ℕ → Statement V → Option ℕ → Option (Result D E) → Option (Line V E)
  unfolding logged_sql
  log_line duration q none res = none
  log_line duration q (some w) none = none
  log_line duration q (some w) (some r) = some (record {
    to = w;
    duration = duration;
    sql = (logged_sql q).0;
    args = (logged_sql q).1;
    rows = r.rows_affected;
    error = r.error;
  })

  unfoldable pub with_line :
      Answer D E → Option (Line V E) → Fallible E (Answer D E × List (Line V E))
  with_line answer none = panics
  with_line answer (some line) = ok (answer, line ∷ [])

  -- `Process`, after `next` has returned.
  unfoldable pub process :
      SlowLog → ℕ → Statement V → Answer D E → Fallible E (Answer D E × List (Line V E))
  unfolding log_line with_line
  process m duration q answer =
      if ltb m.threshold duration
      then with_line answer (log_line duration q m.logger answer.0)
      else ok (answer, [])
