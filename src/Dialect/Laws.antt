-- ===== src/Dialect/Laws.antt =====
-- What the builder relies on in a dialect, and the five dialects of the repository.
use Prim.Native.Char.{Char}
use jorm.Base.{
  ℕ, ◌≡◌, refl, ◌∙◌, String, ◌⧺◌, marks, marks-append, is_mark, marks-decimal, decimal,
  decimal-injective, to_upper, upper_char, code-ascii, code, arith, ◌-◌,
}
use text.Mathlib.TextLemmas.{append_cancel_left}
use jorm.Dialect.{Dialect}
use jorm.Dialect.Mysql
use jorm.Dialect.Postgres
use jorm.Dialect.Sqlite3
use jorm.Dialect.Sqlserver
use jorm.Dialect.Oracle

-- Quoting a name adds and drops no `?`.
abbrev pub KeepsMarks : Dialect → Type 0
KeepsMarks d = (name : String) → marks (d.quote name) ≡ marks name

-- Every placeholder is `?`.
abbrev pub IsPositional : Dialect → Type 0
IsPositional d = (i : ℕ) → d.placeholder i ≡ "?"

-- A placeholder shows its number.
pub record IsNumbered (d : Dialect) : Type 0 where
  pub no_marks : (i : ℕ) → marks (d.placeholder i) ≡ 0
  pub distinct : (i j : ℕ) → d.placeholder i ≡ d.placeholder j → i ≡ j

marks-wrapped :
    (left right name : String)
    → marks left ≡ 0
    → marks right ≡ 0
    → marks (left ⧺ name ⧺ right) ≡ marks name
marks-wrapped left right name h k = simp marks-append (omega arith)

is_mark-upper_char : (c : Char) → is_mark (upper_char c) ≡ is_mark c
unfolding upper_char
is_mark-upper_char c = ground (arith, code-ascii (code c - 32))

marks-to_upper : (s : String) → marks (to_upper s) ≡ marks s
unfolding marks to_upper
marks-to_upper String.[] = refl
marks-to_upper (String.◌∷◌ c s) = rw is_mark-upper_char (ground (arith, marks-to_upper s))

pub mysql-KeepsMarks : KeepsMarks Mysql.dialect
unfolding Mysql.quote
mysql-KeepsMarks name = marks-wrapped "`" "`" name (unfold marks in refl) (unfold marks in refl)

pub postgres-KeepsMarks : KeepsMarks Postgres.dialect
unfolding Postgres.quote
postgres-KeepsMarks name =
    marks-wrapped "\"" "\"" name (unfold marks in refl) (unfold marks in refl)

pub sqlite3-KeepsMarks : KeepsMarks Sqlite3.dialect
unfolding Sqlite3.quote
sqlite3-KeepsMarks name = marks-wrapped "`" "`" name (unfold marks in refl) (unfold marks in refl)

pub sqlserver-KeepsMarks : KeepsMarks Sqlserver.dialect
unfolding Sqlserver.quote
sqlserver-KeepsMarks name = marks-wrapped "[" "]" name (unfold marks in refl) (unfold marks in refl)

pub oracle-KeepsMarks : KeepsMarks Oracle.dialect
unfolding Oracle.quote
oracle-KeepsMarks name =
    marks-wrapped "\"" "\"" (to_upper name) (unfold marks in refl) (unfold marks in refl)
    ∙ marks-to_upper name

pub mysql-IsPositional : IsPositional Mysql.dialect
unfolding Mysql.placeholder
mysql-IsPositional i = refl

pub sqlite3-IsPositional : IsPositional Sqlite3.dialect
unfolding Sqlite3.placeholder
sqlite3-IsPositional i = refl

-- A prefix and the number.
marks-prefixed : (prefix : String) (i : ℕ) → marks prefix ≡ 0 → marks (prefix ⧺ decimal i) ≡ 0
marks-prefixed prefix i h = rw marks-append (omega (arith, marks-decimal i))

prefixed-injective : (prefix : String) (i j : ℕ) → prefix ⧺ decimal i ≡ prefix ⧺ decimal j → i ≡ j
prefixed-injective prefix i j e = decimal-injective i j (append_cancel_left prefix _ _ e)

pub postgres-IsNumbered : IsNumbered Postgres.dialect
unfolding Postgres.placeholder
postgres-IsNumbered = record {
  no_marks = λ i. marks-prefixed "$" i (unfold marks in refl);
  distinct = prefixed-injective "$";
}

pub sqlserver-IsNumbered : IsNumbered Sqlserver.dialect
unfolding Sqlserver.placeholder
sqlserver-IsNumbered = record {
  no_marks = λ i. marks-prefixed "@p" i (unfold marks in refl);
  distinct = prefixed-injective "@p";
}

pub oracle-IsNumbered : IsNumbered Oracle.dialect
unfolding Oracle.placeholder
oracle-IsNumbered = record {
  no_marks = λ i. marks-prefixed ":" i (unfold marks in refl);
  distinct = prefixed-injective ":";
}
