-- ===== src/Core/Tests.antt =====
-- The engine on concrete databases, and the theorems about it at inputs.
use jorm.Base.{
  suc, ◌-◌, inr, negsuc, ℤ, ℕ, ◌+◌, ◌*◌, ◌<◌, ◌≡◌, ◌≢◌, refl, true, false, Option, none, some, List,
  [], ◌∷◌, All, arith, pos, ◌⧺◌, reverse, ltb, if◌then◌else◌,
}
use jorm.Core.Health.{
  Error, Db, opened, reports, check_health, cools_down, last_failure, check_health-last_failure,
  is_connection_error,
}
use jorm.Core.Retry.{delays, second, actual_delay}
use jorm.Dialect.Mysql
use jorm.Dialect.Registry.{get, init as dialects}
use jorm.Core.Open.{
  Options, set_max_open_conns, settings, retries_of, delay_of, connected, open_db, open_db-connects,
}
use jorm.Core.Transaction.{
  Ended, returns, Driver, transaction, Isolates, Commits, transaction-atomic, transaction-Commits,
  panics,
}
use jorm.Core.Chain.{execute_with_middleware, nested, add, execute_with_middleware-nested}
use jorm.Core.Migrate.{Migration, State, Server, migrate, init, applied}
use jorm.Core.MigrateLaws.{migrate-idempotent, Applied}
use jorm.Core.Paginate.{per_page_of, Counts, paginate-Counts}

abbrev refused_by : Error
refused_by = record { message = "connection refused"; wraps_connection_failed = false }

abbrev duplicate_key : Error
duplicate_key = record { message = "duplicate key"; wraps_connection_failed = false }

abbrev latest_first : List (ℕ × Option Error)
latest_first = (90, some duplicate_key) ∷ (70, some refused_by) ∷ (50, none) ∷ []

check_health-last_failure_example : check_health 80 (reports (reverse latest_first) opened) ≡ true
unfolding check_health reports is_connection_error last_failure cools_down
check_health-last_failure_example = check_health-last_failure 80 latest_first

-- Three failures and then a success.
abbrev ping : ℕ → Option Error
ping i = if ltb i 3 then some refused_by else none

fails_at_first : (j : ℕ) → j < 3 → ping j ≢ none
fails_at_first j h e = ground arith

abbrev options : Options
options = record {
  max_open_conns = pos 10;
  max_idle_conns = pos 0;
  conn_max_lifetime = negsuc 0;
  max_retries = pos 5;
  retry_delay = pos 0;
}

open_db-connects_example : open_db dialects "mysql" (some options) none ping ≡ (
  connected Mysql.dialect opened,
  some (record {
    settings = set_max_open_conns 10 ∷ [];
    sleeps = second ∷ 2 * second ∷ 4 * second ∷ [];
    closed = false;
  }),
)
unfolding get dialects settings retries_of delay_of delays
open_db-connects_example =
    (open_db-connects dialects "mysql" (some options) Mysql.dialect ping 5 refl refl).0 3
      (omega arith) fails_at_first refl

-- The delay of one second is negative in the 35th round.
delay_overflows : actual_delay second 34 ≡ 0
unfolding actual_delay
delay_overflows = refl

-- A database whose world is the committed value and the value in the transaction.
abbrev driver : Driver (ℕ × ℕ)
driver = record {
  begin = λ w. (none, (w.0, w.0));
  commit = λ w. (none, (w.1, w.1));
  rollback = λ w. (none, (w.0, w.0));
}

-- It writes 7, and then fails.
abbrev failing : Db → ℕ × ℕ → Ended × Db × (ℕ × ℕ)
failing db w = (returns (some duplicate_key), db, (w.0, 7))

abbrev succeeding : Db → ℕ × ℕ → Ended × Db × (ℕ × ℕ)
succeeding db w = (returns none, db, (w.0, 7))

-- A connection: what is committed, what the transaction sees, and the number of open transactions.
abbrev counting : Driver (ℕ × ℕ × ℕ)
counting = record {
  begin = λ w. (none, (w.0, w.0, suc w.2));
  commit = λ w. (none, (w.1, w.1, w.2 - 1));
  rollback = λ w. (none, (w.0, w.0, w.2 - 1));
}

-- A function that writes 7 in the transaction and then ends.
abbrev writes_and : Ended → Db → ℕ × ℕ × ℕ → Ended × Db × (ℕ × ℕ × ℕ)
writes_and end db w = (end, db, (w.0, 7, w.2))

counting-Isolates : (end : Ended) → Isolates counting (λ w. w.0) (λ w. w.2) (writes_and end)
counting-Isolates end = record {
  begin-view = λ w. refl;
  begin-opens = λ w h. refl;
  begin-fails = λ w e h. ground (arith, h);
  fn-view = λ db w. refl;
  fn-opens = λ db w. refl;
  rollback-view = λ w. refl;
  rollback-ends = λ w. refl;
  commit-ends = λ w. refl;
}

abbrev writes_and_fails : Db → ℕ × ℕ × ℕ → Ended × Db × (ℕ × ℕ × ℕ)
writes_and_fails = writes_and (returns (some duplicate_key))

abbrev writes_and_panics : Db → ℕ × ℕ × ℕ → Ended × Db × (ℕ × ℕ × ℕ)
writes_and_panics = writes_and (panics "index out of range")

fails_not_nil :
    (transaction counting refused_by writes_and_fails 1 2 opened (3, 4, 0)).0 ≢ returns none
unfolding transaction
fails_not_nil e = ground (arith, e)

transaction-atomic_example :
    ((transaction counting refused_by writes_and_fails 1 2 opened (3, 4, 0)).2.0 ≡ 3)
    × ((transaction counting refused_by writes_and_fails 1 2 opened (3, 4, 0)).2.2 ≡ 0)
transaction-atomic_example =
    transaction-atomic counting (λ w. w.0) (λ w. w.2) writes_and_fails (counting-Isolates _)
      refused_by 1 2 opened (3, 4, 0) fails_not_nil (λ h. ground (arith, h))

transaction-Commits_example :
    (check_health 1 opened ≡ false) × Commits driver succeeding opened (3, 4) (7, 7)
unfolding transaction check_health
transaction-Commits_example =
    transaction-Commits driver refused_by succeeding 1 2 opened (3, 4) refl

execute_with_middleware-nested_example :
    (execute_with_middleware ((λ next s. "(" ⧺ next s ⧺ ")") ∷ []) (λ s. s) ≡ (λ s. "(" ⧺ s ⧺ ")"))
    × (execute_with_middleware
          (add ((λ next s. "(" ⧺ next s ⧺ ")") ∷ []) ((λ next s. next ("x" ⧺ s)) ∷ []))
          (λ s. s)
        ≡ (λ s. "(" ⧺ ("x" ⧺ s) ⧺ ")"))
unfolding nested execute_with_middleware
execute_with_middleware-nested_example =
    execute_with_middleware-nested ((λ next s. "(" ⧺ next s ⧺ ")") ∷ [])
      ((λ next s. next ("x" ⧺ s)) ∷ []) (λ s. s)

abbrev server : Server (ℕ × ℕ)
server = record {
  driver = driver;
  exec = λ sql args db w. (none, db, (w.0, w.1 + 1));
  query = λ sql w. (inr (inr (pos 0) ∷ []), w);
  clock = λ w. 1;
  refused = refused_by;
}

abbrev first_migration : Migration (ℕ × ℕ)
first_migration = record { version = pos 1; description = "users"; up = succeeding; down = failing }

abbrev unmigrated : State (ℕ × ℕ)
unmigrated = record { history = []; db = opened; world = (3, 3) }

abbrev migrated : State (ℕ × ℕ)
migrated = record { history = pos 1 ∷ pos 0 ∷ []; db = opened; world = (8, 8) }

migrate-idempotent_example :
    All (Applied server migrated) (first_migration ∷ [])
    × ((v : ℤ) → applied v [] ≡ true → applied v (pos 1 ∷ pos 0 ∷ []) ≡ true)
    × (migrate server (first_migration ∷ []) migrated
        ≡ (returns (init server migrated).0, (init server migrated).1))
unfolding migrate
migrate-idempotent_example = migrate-idempotent server (first_migration ∷ []) unmigrated refl

-- 25 items on pages of 10, and the third page.
paginate-Counts_example : Counts 10 25 2
unfolding per_page_of
paginate-Counts_example = paginate-Counts (pos 0) 24 2 (omega arith) (omega arith)
