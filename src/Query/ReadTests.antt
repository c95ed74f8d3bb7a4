-- ===== src/Query/ReadTests.antt =====
-- Reads of a table with two rows.
use jorm.Base.{ℕ, ◌≡◌, refl, some, none, List, [], ◌∷◌, int, pos, inr}
use jorm.Base.Fallible.{ok, fails}
use jorm.Core.Health.{opened}
use jorm.Core.Transaction.{wrapped}
use jorm.Model.{Model}
use jorm.Dialect.Mysql
use jorm.Builder.State.{Builder, new_builder, set_table, reset, pool_get}
use jorm.Query.Step.{State, failed, Executor}
use jorm.Query.Scan.{scan_time, text}
use jorm.Query.ReadLaws.{Found, FoundFirst, find-Found, first-Found}
use jorm.Query.Read.{Rows, Reader, not_found, first, find}

abbrev pub rows_of : List ℕ → Rows ℕ
rows_of rs = record { columns = inr ("id" ∷ []); rows = rs; end_error = none }

abbrev pub executor : Executor ℕ
executor = record { exec = λ statement w. (failed not_found, w); clock = λ w. w }

abbrev pub users : Model
users = record { table_name = "users"; fields = []; pk_field = none }

-- The rows are those of the world, and each query counts.
abbrev pub reader : List ℕ → Reader ℕ ℕ ℕ
reader rs = record {
  executor = executor;
  query = λ statement w. (inr (rows_of rs), w);
  model = inr users;
  new_object = 0;
  scan_row = λ plan r t. inr r;
  after_find = none;
}

abbrev pub start : State ℕ Unit
start = record { world = 9; db = opened; last = none; objects = tt }

abbrev pub builder : Builder
builder = set_table "users" (new_builder Mysql.dialect []).0

first-test :
    ((first (reader (4 ∷ 5 ∷ [])) builder 0 start).0 ≡ ok 4)
    × ((first (reader (4 ∷ 5 ∷ [])) builder 0 start).1.last
        ≡ some ("SELECT * FROM `users` LIMIT ?", int (pos 1) ∷ []))
    × ((first (reader []) builder 0 start).0 ≡ fails (wrapped "First failed: " not_found))
unfolding first reset pool_get new_builder set_table Mysql.quote Mysql.placeholder
first-test = (refl, refl, refl)

find-test : (find (reader (4 ∷ 5 ∷ [])) builder (3 ∷ []) start).0 ≡ ok (3 ∷ 4 ∷ 5 ∷ [])
unfolding find set_table new_builder
find-test = refl

times-test :
    (scan_time (λ layout s. none) (λ layout s. some 5) (text "2024-01-02") ≡ some (some 5))
    × (scan_time (λ layout s. none) (λ layout s. some 5) (text "0000-00-00") ≡ some none)
unfolding scan_time
times-test = (refl, refl)

-- The state after the reads below.
abbrev found_state : State ℕ Unit
found_state = record start { last = some ("SELECT * FROM `users`", []) }

find_runs : find (reader (4 ∷ 5 ∷ [])) builder (3 ∷ []) start ≡ (ok (3 ∷ 4 ∷ 5 ∷ []), found_state)
unfolding find set_table new_builder Mysql.quote
find_runs = refl

find-Found_example : Found (reader (4 ∷ 5 ∷ [])) builder (3 ∷ []) start (3 ∷ 4 ∷ 5 ∷ []) found_state
find-Found_example =
    find-Found (reader (4 ∷ 5 ∷ [])) builder (3 ∷ []) (3 ∷ 4 ∷ 5 ∷ []) start found_state find_runs

abbrev first_state : State ℕ Unit
first_state = record start { last = some ("SELECT * FROM `users` LIMIT ?", int (pos 1) ∷ []) }

first_runs : first (reader (4 ∷ 5 ∷ [])) builder 0 start ≡ (ok 4, first_state)
unfolding first reset pool_get new_builder set_table Mysql.quote Mysql.placeholder
first_runs = refl

first-Found_example : FoundFirst (reader (4 ∷ 5 ∷ [])) builder 0 start 4 first_state
first-Found_example = first-Found (reader (4 ∷ 5 ∷ [])) builder 0 4 start first_state first_runs
