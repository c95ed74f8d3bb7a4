-- ===== src/Builder/Inserts.antt =====
-- The insert statements of the dialects against the numbering of core/builder.go.
use text.Mathlib.TextLemmas.{append-nil}
use native.Mathlib.Nat.{add-zero}
use jorm.Base.{
  ℕ, zero, suc, ◌+◌, ◌*◌, ◌≡◌, refl, sym, ap, ◌∙◌, String, List, [], ◌∷◌, ◌⧺◌, join, length, marks,
  marks-append, marks-join, marks_all, arith,
}
use jorm.Dialect.Placeholders.{
  repeated, numbered, parenthesised, batch_insert_text, repeated_rows, numbered_rows,
}
use jorm.Builder.Numbering.{
  substitute, substitute-append, substitute_no_marks, replace_placeholders-substitute,
}
use jorm.Builder.Replace.{replace_placeholders}
use jorm.Dialect.Mysql
use jorm.Dialect.Postgres
use jorm.Dialect.Sqlite3
use jorm.Dialect.Sqlserver
use jorm.Dialect.Laws.{
  mysql-KeepsMarks, sqlite3-KeepsMarks, postgres-KeepsMarks, sqlserver-KeepsMarks,
}

-- The statement of an insert of `count` rows, with `?` for every value.
abbrev pub marked : String → List String → ℕ → String
marked table columns count = batch_insert_text table columns (repeated_rows "?" columns count)

marks-repeated : (columns : List String) → marks_all (repeated "?" columns) ≡ length columns
unfolding repeated marks
marks-repeated [] = omega arith
marks-repeated (c ∷ cs) = omega (arith, marks-repeated cs)

marks-row : (columns : List String) → marks (parenthesised (repeated "?" columns)) ≡ length columns
marks-row columns =
    simp (marks-append, marks-join ", " (repeated "?" columns) (unfold marks in refl))
      (unfold marks in omega (arith, marks-repeated columns))

marks_all-rows :
    (columns : List String) (count : ℕ)
    → marks_all (repeated_rows "?" columns count) ≡ count * length columns
unfolding repeated_rows
marks_all-rows columns zero = omega arith
marks_all-rows columns (suc count) = omega (arith, marks-row columns, marks_all-rows columns count)

mark_one : marks "?" ≡ 1
unfolding marks
mark_one = refl

module _ (p : ℕ → String) where
  substitute_mark : (i : ℕ) → substitute p i "?" ≡ p i
  unfolding substitute
  substitute_mark i = append-nil (p i)

  around : (i : ℕ) (s t : String) → marks s ≡ 0 → substitute p i (s ⧺ t) ≡ s ⧺ substitute p i t
  around i s t h = substitute-append p i s t ∙ rw (substitute_no_marks p i s h, h, add-zero) refl

  -- The numbers after a text go on from its marks.
  separated :
      (i : ℕ) (s t : String)
      → substitute p i (s ⧺ ", " ⧺ t) ≡ substitute p i s ⧺ ", " ⧺ substitute p (i + marks s) t
  separated i s t =
      substitute-append p i s (", " ⧺ t)
      ∙ ap (λ u. substitute p i s ⧺ u) (around (i + marks s) ", " t (unfold marks in refl))

  join-numbered :
      (i : ℕ) (columns : List String)
      → join ", " (numbered p i columns) ≡ substitute p i (join ", " (repeated "?" columns))
  unfolding numbered repeated join
  join-numbered i [] = unfold substitute in refl
  join-numbered i (c ∷ []) = sym (substitute_mark i)
  join-numbered i (c ∷ c' ∷ cs) = sym (
      separated i "?" (join ", " (repeated "?" (c' ∷ cs)))
      ∙ rw (substitute_mark i, mark_one, sym (join-numbered (i + 1) (c' ∷ cs))) refl)

  -- A row of numbered placeholders.
  row-numbered :
      (i : ℕ) (columns : List String)
      → parenthesised (numbered p i columns) ≡ substitute p i (parenthesised (repeated "?" columns))
  row-numbered i columns = sym (
      around i "(" (join ", " (repeated "?" columns) ⧺ ")") (unfold marks in refl)
      ∙ ap (λ u. "(" ⧺ u)
          (substitute-append p i (join ", " (repeated "?" columns)) ")"
            ∙ rw
                (
                  sym (join-numbered i columns),
                  substitute_no_marks p (i + marks (join ", " (repeated "?" columns))) ")"
                      (unfold marks in refl),
                )
                refl))

  rows-numbered :
      (i : ℕ) (columns : List String) (count : ℕ)
      → join ", " (numbered_rows parenthesised p i columns count)
        ≡ substitute p i (join ", " (repeated_rows "?" columns count))
  unfolding numbered_rows repeated_rows join
  rows-numbered i columns zero = unfold substitute in refl
  rows-numbered i columns (suc zero) = row-numbered i columns
  rows-numbered i columns (suc (suc count)) = sym (
      separated i (parenthesised (repeated "?" columns))
        (join ", " (repeated_rows "?" columns (suc count)))
      ∙ rw
          (
            sym (row-numbered i columns),
            marks-row columns,
            sym (rows-numbered (i + length columns) columns (suc count)),
          )
          refl)

  -- The statement of a batch with numbered placeholders is that with `?`, numbered from 1.
  batch_insert_text-numbered :
      (table : String) (columns : List String) (count : ℕ)
      → marks table ≡ 0
      → marks (join ", " columns) ≡ 0
      → batch_insert_text table columns (numbered_rows parenthesised p 1 columns count)
        ≡ substitute p 1 (marked table columns count)
  unfolding batch_insert_text
  batch_insert_text-numbered table columns count h k =
      let rows = join ", " (repeated_rows "?" columns count) in
      rw (rows-numbered 1 columns count) (
        sym (
          rw
            (
              around 1 "INSERT INTO " (table ⧺ " (" ⧺ join ", " columns ⧺ ") VALUES " ⧺ rows)
                  (unfold marks in refl),
              around 1 table (" (" ⧺ join ", " columns ⧺ ") VALUES " ⧺ rows) h,
              around 1 " (" (join ", " columns ⧺ ") VALUES " ⧺ rows) (unfold marks in refl),
              around 1 (join ", " columns) (") VALUES " ⧺ rows) k,
              around 1 ") VALUES " rows (unfold marks in refl),
            )
            refl))

-- A batch has as many `?` as values, beside those of the names.
marks-marked :
    (table : String) (columns : List String) (count : ℕ)
    → marks table ≡ 0
    → marks (join ", " columns) ≡ 0
    → marks (marked table columns count) ≡ count * length columns
unfolding batch_insert_text
marks-marked table columns count h k =
    let rows = join ", " (repeated_rows "?" columns count) in
    simp marks-append (
      unfold marks in
      omega (
        arith,
        h,
        k,
        marks-join ", " (repeated_rows "?" columns count) refl,
        marks_all-rows columns count,
      ))

-- For a table and columns without `?` in their names: the batch insert of MySQL and of SQLite has a
-- `?` for each value of each row, and that of Postgres and of SQL Server is the text with `?` for
-- each value, with the table quoted their way, as `replacePlaceholders` numbers it.
pub batch_insert_sql-numbered :
    (table sb : String) (columns : List String) (count : ℕ)
    → marks table ≡ 0
    → marks (join ", " columns) ≡ 0
    → (marks (Mysql.batch_insert_sql table columns count).0 ≡ count * length columns)
      × (marks (Sqlite3.batch_insert_sql table columns count).0 ≡ count * length columns)
      × (Postgres.batch_insert_sql table columns count ≡ (
        (replace_placeholders Postgres.dialect sb (marked (Postgres.quote table) columns count)).0,
        [],
      ))
      × (Sqlserver.batch_insert_sql table columns count ≡ (
        (replace_placeholders Sqlserver.dialect sb
            (marked (Sqlserver.quote table) columns count)).0,
        [],
      ))
unfolding Mysql.batch_insert_sql Sqlite3.batch_insert_sql Postgres.batch_insert_sql
    Sqlserver.batch_insert_sql
batch_insert_sql-numbered table sb columns count h k = (
  marks-marked (Mysql.quote table) columns count (mysql-KeepsMarks table ∙ h) k,
  marks-marked (Sqlite3.quote table) columns count (sqlite3-KeepsMarks table ∙ h) k,
  ap (λ t. (t, []))
      (batch_insert_text-numbered Postgres.placeholder (Postgres.quote table) columns count
          (postgres-KeepsMarks table ∙ h) k
        ∙ sym (
            replace_placeholders-substitute Postgres.dialect sb
              (marked (Postgres.quote table) columns count))),
  ap (λ t. (t, []))
      (batch_insert_text-numbered Sqlserver.placeholder (Sqlserver.quote table) columns count
          (sqlserver-KeepsMarks table ∙ h) k
        ∙ sym (
            replace_placeholders-substitute Sqlserver.dialect sb
              (marked (Sqlserver.quote table) columns count))),
)
