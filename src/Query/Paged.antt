-- ===== src/Query/Paged.antt =====
-- `Find`, `First`, `Count`, `Paginate`, `Scan` and `Exec` of core/query.go on a query, with no middleware
-- registered and nothing to preload.
use jorm.Base.{ℤ, false, List, ◌⊎◌, str_eq, if◌then◌else◌}
use jorm.Core.Health.{Error}
use jorm.Core.Paginate.{Pagination, paginate}
use jorm.Dialect.{Statement}
use jorm.Builder.State.{BuilderPool}
use jorm.Query.Step.{State, Step, ◌>>=◌, answer, unreported}
use jorm.Query.Read.{Reader, query_row, query_rows, first, find, count, exec_result}
use jorm.Query.Fluent.{Query, clone, unless_failed}

-- Where `Scan` puts rows: an object, a slice, or a value that is no pointer.
pub data Dest (T : Type 0) : Type 0 where
  object : T → Dest T
  slice : List T → Dest T
  no_pointer : Dest T

module _ {W R T X : Type 0} (reader : Reader W R T) where
  unfoldable pub scan_into : Statement → Dest T → Step (State W X) (Dest T)
  unfolding query_row query_rows
  scan_into statement (object t) = do u ← query_row reader statement t; answer (object u)
  scan_into statement (slice ts) = do us ← query_rows reader statement ts; answer (slice us)
  scan_into statement no_pointer =
      unreported (record { message = "dest must be a pointer"; wraps_connection_failed = false })

module _ {P W R T X : Type 0} (reader : Reader W R T) where
  unfoldable pub find_query : Query P → List T → Step (State W X) (List T)
  unfolding find
  find_query q dest = unless_failed q.err (find reader q.builder dest)

  unfoldable pub first_query : Query P → T → Step (State W X) T
  unfolding first
  first_query q dest = unless_failed q.err (first reader q.builder dest)

  -- `read` is what the row of the count scans to.
  unfoldable pub count_query : (Statement → W → (Error ⊎ ℤ) × W) → Query P → Step (State W X) ℤ
  unfolding count
  count_query read q = unless_failed q.err (count reader.executor read q.builder)

  -- `Paginate`: the count of a clone, and then the page.
  unfoldable pub paginate_query :
      (Statement → W → (Error ⊎ ℤ) × W)
      → BuilderPool
      → ℤ
      → ℤ
      → Query P
      → List T
      → Step (State W X) (Pagination × List T)
  unfolding count_query find_query clone paginate
  paginate_query read pool page per_page q dest = do
    total ← count_query read (clone pool q)
    let paged = paginate page per_page total q.builder
    ts ← find_query (record q { builder = paged.1 }) dest
    answer (paged.0, ts)

  -- `Scan`, whatever error the query holds.
  unfoldable pub scan_query : Query P → Dest T → Step (State W X) (Dest T)
  unfolding scan_into
  scan_query q dest =
      if str_eq q.raw_sql ""
      then unreported (record { message = "raw sql is empty"; wraps_connection_failed = false })
      else scan_into reader (q.raw_sql, q.raw_args) dest

  -- `Exec`
  unfoldable pub exec : Query P → Step (State W X) ℤ
  unfolding exec_result
  exec q = do a ← exec_result reader.executor (q.raw_sql, q.raw_args); answer a.rows_affected
