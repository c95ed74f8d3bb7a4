-- ===== src/Core/Migrate.antt =====
-- core/migration.go: `Init`, `Migrate` and `Rollback`. A statement run by `Exec`, the query of the pool
-- for the versions, and the clock are those of the database.
use jorm.Base.{
  ℕ, Bool, false, Option, none, some, List, [], ◌∷◌, if◌then◌else◌, String, ◌⧺◌, ℤ, pos, negsuc,
  Value, int, str, ◌==◌, ◌||◌, decimal, suc, ◌⊎◌, inl, inr,
}
use jorm.Core.Health.{Db, Error}
use jorm.Core.Transaction.{Ended, returns, panics, Driver, wrapped, transaction}

unfoldable pub int_eq : ℤ → ℤ → Bool
int_eq (pos a) (pos b) = a == b
int_eq (negsuc a) (negsuc b) = a == b
int_eq _ _ = false

-- `m.history[version]`, of the versions that are true in it.
unfoldable pub applied : ℤ → List ℤ → Bool
unfolding int_eq
applied v [] = false
applied v (v' ∷ history) = int_eq v' v || applied v history

-- `delete(m.history, version)`
unfoldable pub forget : ℤ → List ℤ → List ℤ
unfolding int_eq
forget v [] = []
forget v (v' ∷ history) = let rest = forget v history in if int_eq v' v then rest else v' ∷ rest

-- `Up` and `Down` get the `DB` itself, and not the transaction.
pub record Migration (W : Type 0) : Type 0 where
  pub version : ℤ
  pub description : String
  pub up : Db → W → Ended × Db × W
  pub down : Db → W → Ended × Db × W

-- The history, the `DB` and the world.
pub record State (W : Type 0) : Type 0 where
  pub history : List ℤ
  pub db : Db
  pub world : W

-- The database: its transactions, `Exec`, the query of the pool, whose rows can be scanned or not, the
-- clock, and the error of `checkHealth`.
pub record Server (W : Type 0) : Type 0 where
  pub driver : Driver W
  pub exec : String → List Value → Db → W → Option Error × Db × W
  pub query : String → W → (Error ⊎ List (Error ⊎ ℤ)) × W
  pub clock : W → ℕ
  pub refused : Error

-- `%d`
unfoldable pub number : ℤ → String
unfolding decimal
number (pos n) = decimal n
number (negsuc n) = "-" ⧺ decimal (suc n)

-- `fmt.Errorf("failed to … migration %d (%s): %w", …)`
unfoldable pub failed : {W : Type 0} → String → Migration W → Error → Error
unfolding number
failed what mig err =
    wrapped
      ("failed to " ⧺ what ⧺ " migration " ⧺ number mig.version ⧺ " (" ⧺ mig.description ⧺ "): ")
      err

unfoldable pub not_applied : {W : Type 0} → Migration W → Error
unfolding number
not_applied mig = record {
  message = "migration " ⧺ number mig.version ⧺ " not applied";
  wraps_connection_failed = false;
}

-- The versions that the rows hold, up to the first that cannot be scanned; that the rows end by an error
-- is not seen, since `rows.Err` is not read.
unfoldable pub read_history : List (Error ⊎ ℤ) → List ℤ → Option Error × List ℤ
read_history [] history = (none, history)
read_history (inl e ∷ rows) history = (some e, history)
read_history (inr version ∷ rows) history = read_history rows (version ∷ history)

unfoldable pub with_rows : Error ⊎ List (Error ⊎ ℤ) → List ℤ → Option Error × List ℤ
unfolding read_history
with_rows (inl e) history = (some (wrapped "failed to fetch migration history: " e), history)
with_rows (inr rows) history = read_history rows history

abbrev pub create_table_sql : String
create_table_sql =
    "\n\t\tCREATE TABLE IF NOT EXISTS jorm_migrations (\n\t\t\tversion INTEGER PRIMARY KEY,\n\t\t\tdescription TEXT,\n\t\t\tapplied_at TIMESTAMP DEFAULT CURRENT_TIMESTAMP\n\t\t)"

module _ {W : Type 0} (server : Server W) where
  -- What follows the CREATE TABLE.
  unfoldable pub then_select : List ℤ → Option Error × Db × W → Option Error × State W
  unfolding with_rows
  then_select history (some e, db, w) = (
    some (wrapped "failed to initialize migration table: " e),
    record { history = history; db = db; world = w },
  )
  then_select history (none, db, w) =
      let (rows, w') = server.query "SELECT version FROM jorm_migrations" w in
      let (err, read) = with_rows rows history in
      (err, record { history = read; db = db; world = w' })

  unfoldable pub init : State W → Option Error × State W
  unfolding then_select
  init s = then_select s.history (server.exec create_table_sql [] s.db s.world)

  -- The function that `Migrate` and `Rollback` run in a transaction: `Up` or `Down`, and then the
  -- statement on the table of migrations.
  unfoldable pub recorded : String → List Value → Ended × Db × W → Ended × Db × W
  recorded sql args (returns none, db, w) =
      let (err, db', w') = server.exec sql args db w in (returns err, db', w')
  recorded sql args end = end

  unfoldable pub in_transaction :
      (Db → W → Ended × Db × W) → String → List Value → State W → Ended × Db × W
  unfolding recorded transaction
  in_transaction change sql args s =
      transaction server.driver server.refused (λ db w. recorded sql args (change db w))
        (server.clock s.world) (server.clock (server.driver.begin s.world).1) s.db s.world

  unfoldable pub insert_migration : Migration W → State W → Ended × Db × W
  unfolding in_transaction
  insert_migration mig s =
      in_transaction mig.up "INSERT INTO jorm_migrations (version, description) VALUES (?, ?)"
        (int mig.version ∷ str mig.description ∷ []) s

  -- What follows the transaction of a migration; `next` is the rest of the loop.
  unfoldable pub proceed :
      Migration W → (State W → Ended × State W) → List ℤ → Ended × Db × W → Ended × State W
  proceed mig next history (returns none, db, w) =
      next (record { history = mig.version ∷ history; db = db; world = w })
  proceed mig next history (returns (some e), db, w) =
      (returns (some (failed "apply" mig e)), record { history = history; db = db; world = w })
  proceed mig next history (panics p, db, w) =
      (panics p, record { history = history; db = db; world = w })

  -- The loop of `Migrate`.
  unfoldable pub migrate_each : List (Migration W) → State W → Ended × State W
  unfolding applied insert_migration proceed failed
  migrate_each [] s = (returns none, s)
  migrate_each (mig ∷ rest) s =
      let skip = migrate_each rest s in
      let run = proceed mig (λ s'. migrate_each rest s') s.history (insert_migration mig s) in
      if applied mig.version s.history then skip else run

  unfoldable pub initialized : List (Migration W) → Option Error × State W → Ended × State W
  unfolding migrate_each
  initialized migs (some e, s) = (returns (some e), s)
  initialized migs (none, s) = migrate_each migs s

  unfoldable pub migrate : List (Migration W) → State W → Ended × State W
  unfolding init initialized
  migrate migs s = initialized migs (init s)

  -- `Rollback`.
  unfoldable pub forgotten : Migration W → List ℤ → Ended × Db × W → Ended × State W
  unfolding forget failed
  forgotten mig history (returns none, db, w) =
      (returns none, record { history = forget mig.version history; db = db; world = w })
  forgotten mig history (returns (some e), db, w) =
      (returns (some (failed "rollback" mig e)), record { history = history; db = db; world = w })
  forgotten mig history (panics p, db, w) =
      (panics p, record { history = history; db = db; world = w })

  unfoldable pub rollback : Migration W → State W → Ended × State W
  unfolding applied in_transaction forgotten not_applied
  rollback mig s =
      let run = forgotten mig s.history (
        in_transaction mig.down "DELETE FROM jorm_migrations WHERE version = ?"
          (int mig.version ∷ []) s) in
      if applied mig.version s.history then run else (returns (some (not_applied mig)), s)
