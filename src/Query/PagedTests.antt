-- ===== src/Query/PagedTests.antt =====
-- A chain of calls and a page of a table with two rows.
use jorm.Base.{ℕ, ℤ, ◌≡◌, refl, pos, some, none, List, [], ◌∷◌, ◌⊎◌, inr, int}
use jorm.Base.Fallible.{ok}
use jorm.Core.Health.{Error}
use jorm.Core.Paginate.{Pagination, paginate}
use jorm.Dialect.{Statement}
use jorm.Dialect.Mysql
use jorm.Builder.State
use jorm.Builder.State.{new_builder, reset, pool_get}
use jorm.Builder.Calls.{Call, run}
use jorm.Query.Step.{State}
use jorm.Query.ReadTests.{executor, reader, start, builder}
use jorm.Query.ReadLaws.{Found}
use jorm.Query.Fluent.{Query, new_query, with_builder}
use jorm.Query.Paged.{paginate_query}
use jorm.Query.PagedLaws.{Counted, call_all, call_all-run, paginate_query-Found}

abbrev users : Query Unit
users = new_query builder

abbrev calls : List Call
calls = Call.wheres "age > ?" (int (pos 3) ∷ []) ∷ Call.limit (pos 5) ∷ []

call_all-run_example : call_all calls users ≡ with_builder users (run calls builder)
call_all-run_example = call_all-run calls users

abbrev read_two : Statement → ℕ → (Error ⊎ ℤ) × ℕ
read_two statement w = (inr (pos 2), w)

abbrev page_state : State ℕ Unit
page_state = record start {
  last = some ("SELECT * FROM `users` LIMIT ? OFFSET ?", int (pos 10) ∷ int (pos 0) ∷ []);
}

abbrev pages : Pagination
pages = record { item_total = pos 2; total_page = pos 1; page = 1; per_page = 10 }

paginate_runs :
    paginate_query (reader (4 ∷ 5 ∷ [])) read_two [] (pos 0) (pos 0) users [] start
    ≡ (ok (pages, 4 ∷ 5 ∷ []), page_state)
unfolding paginate_query reset pool_get new_builder State.set_table Mysql.quote Mysql.placeholder
paginate_runs = refl

-- The total, the state after the count, and what Paginate then did.
abbrev Paged : Type 0
Paged =
    (users.err ≡ none)
    × (total : ℤ) × (mid : State ℕ Unit) × Counted executor read_two (State.clone builder []).0
        start total mid
    × (pages ≡ (paginate (pos 0) (pos 0) total builder).0)
    × Found (reader (4 ∷ 5 ∷ [])) (paginate (pos 0) (pos 0) total builder).1 [] mid (4 ∷ 5 ∷ [])
        page_state

paginate_query-Found_example : Paged
paginate_query-Found_example =
    paginate_query-Found (reader (4 ∷ 5 ∷ [])) read_two [] (pos 0) (pos 0) users [] (4 ∷ 5 ∷ [])
      pages start page_state paginate_runs
