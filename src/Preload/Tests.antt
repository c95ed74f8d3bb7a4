-- ===== src/Preload/Tests.antt =====
-- The preloads of two parents, and the theorems about them at this input.
use jorm.Base.{
  ℕ, ◌≡◌, ◌↔◌, refl, ap, sym, String, true, false, Option, some, none, List, [], ◌∷◌, Value, int,
  pos, map, ◌==◌, arith, filter, str_eq, if◌then◌else◌,
}
use jorm.Model.{Field, Model, Kind, basic}
use jorm.Model.Relation.{RelationType, has_many, belongs_to, many_to_many}
use jorm.Dialect.{Statement}
use jorm.Dialect.Mysql
use jorm.Builder.State.{
  new_builder, select, set_table, set_alias, where_in, and_where, add_condition, reset, pool_get,
}
use jorm.Builder.Build.{build_select, select_args, finish}
use jorm.Preload.Keys.{Keys}
use jorm.Preload.Groups.{with_key, group_rows, append_to, store, find}
use jorm.Preload.Load.{
  Fallible, ok, panics, Fetch, related_statement, join_statement, customised, column_name,
  has_column, column_of_name, all_refs,
}
use jorm.Preload.Execute.{
  Level, several, assign_has, put_group, put_found, execute_has, execute_belongs_to,
  execute_many_to_many, execute, last,
}
use jorm.Preload.Selected.{member}
use jorm.Preload.Laws.{Answers, owner, execute_has-each, execute_belongs_to-each}
use jorm.Preload.References.{found_among}
use jorm.Preload.Joined.{joined_to, JoinAnswers, execute_many_to_many-each}

abbrev key_of : Value → ℕ
key_of (int (pos n)) = n
key_of v = 0

same_iff : (a b : ℕ) → ((a == b) ≡ true) ↔ (a ≡ b)
same_iff a b = ground arith

abbrev numbers : Keys ℕ
numbers = record {
  same = λ a b. a == b;
  same_iff = same_iff;
  is_zero = λ a. a == 0;
  argument = λ a. int (pos a);
}

-- A row of the related table: its key, and that of its parent.
abbrev Row : Type 0
Row = ℕ × ℕ

record Parent : Type 0 where
  id : ℕ
  owner_id : ℕ
  rows : List Row

abbrev field : String → String → Field
field name column = record {
  name = name;
  column = column;
  go_type = basic Kind.int64;
  index = 0;
  nested_idx = 0 ∷ [];
  is_pk = false;
  is_auto = false;
  auto_time = false;
  auto_update = false;
  is_unique = false;
  size = 0;
  not_null = false;
  default = "";
  sql_type = "";
  tag = "";
}

abbrev users : Model
users = record {
  table_name = "users";
  fields = field "ID" "id" ∷ [];
  pk_field = some (field "ID" "id");
}

abbrev orders : Model
orders = record {
  table_name = "orders";
  fields = field "ID" "id" ∷ field "UserID" "user_id" ∷ [];
  pk_field = some (field "ID" "id");
}

abbrev table : List Row
table = (10, 1) ∷ (11, 2) ∷ (12, 1) ∷ (13, 3) ∷ []

abbrev pairs : List (ℕ × ℕ)
pairs = (2, 11) ∷ (1, 13) ∷ (1, 10) ∷ (4, 12) ∷ []

abbrev answer_by : (Row → ℕ) → Fetch Unit Row
answer_by column s = ok (filter (λ r. member numbers (column r) (map key_of s.1)) table)

abbrev related : RelationType → String → String → (Row → ℕ) → Level ℕ Unit Parent Row
related type key refs column = record {
  main = users;
  related = orders;
  relation = record {
    name = "Orders";
    relation_type = type;
    foreign_key = key;
    references = refs;
    join_table = "user_orders";
    join_fk = "user_id";
    join_ref = "order_id";
  };
  custom = none;
  fetch = answer_by column;
  fetch_pairs = λ s. ok (filter (λ p. member numbers p.0 (map key_of s.1)) pairs);
  value = λ f p. if str_eq f.column "id" then p.id else p.owner_id;
  child_key = λ c r. if str_eq c "id" then r.0 else r.1;
  put = λ cs p. record p { rows = cs };
  put_one = λ c p. record p { rows = c ∷ [] };
  held = λ p. several false p.rows;
  put_held = λ content p. p;
}

abbrev parents : List Parent
parents =
    record { id = 1; owner_id = 12; rows = [] }
    ∷ record { id = 2; owner_id = 0; rows = [] }
    ∷ record { id = 5; owner_id = 99; rows = (7, 7) ∷ [] }
    ∷ []

abbrev has : Level ℕ Unit Parent Row
has = related has_many "UserID" "" (λ r. r.1)

abbrev owned : Level ℕ Unit Parent Row
owned = related belongs_to "OwnerID" "id" (λ r. r.0)

abbrev joined : Level ℕ Unit Parent Row
joined = related many_to_many "" "" (λ r. r.0)

abbrev fetched : {E A : Type 0} → Fetch E A → Option Statement → Fallible E (List A)
fetched fetch none = panics
fetched fetch (some s) = fetch s

has-Answers : Answers Mysql.dialect [] numbers has "user_id" (1 ∷ 2 ∷ 5 ∷ []) table
unfolding Answers related_statement customised build_select new_builder select set_table where_in
    and_where select_args finish reset pool_get add_condition
has-Answers s e = ap (fetched has.fetch) (sym e)

execute_has-each_example :
    execute_has Mysql.dialect [] numbers has (some (field "ID" "id")) parents
    ≡ ok (
        record { id = 1; owner_id = 12; rows = (10, 1) ∷ (12, 1) ∷ [] }
        ∷ record { id = 2; owner_id = 0; rows = (11, 2) ∷ [] }
        ∷ record { id = 5; owner_id = 99; rows = (7, 7) ∷ [] }
        ∷ [])
unfolding assign_has put_group with_key filter column_name has_column column_of_name
execute_has-each_example =
    execute_has-each Mysql.dialect [] numbers has refl (field "ID" "id") table parents has-Answers

owned-Answers : Answers Mysql.dialect [] numbers owned "id" (12 ∷ 99 ∷ []) table
unfolding Answers related_statement customised build_select new_builder select set_table where_in
    and_where select_args finish reset pool_get add_condition
owned-Answers s e = ap (fetched owned.fetch) (sym e)

execute_belongs_to-each_example :
    execute_belongs_to Mysql.dialect [] numbers owned (some (field "OwnerID" "owner_id")) parents
    ≡ ok (
        record { id = 1; owner_id = 12; rows = (12, 1) ∷ [] }
        ∷ record { id = 2; owner_id = 0; rows = [] }
        ∷ record { id = 5; owner_id = 99; rows = (7, 7) ∷ [] }
        ∷ [])
unfolding put_found owner with_key filter column_name has_column column_of_name
execute_belongs_to-each_example =
    execute_belongs_to-each Mysql.dialect [] numbers owned refl (field "OwnerID" "owner_id") table
      parents owned-Answers

joined-Answers : Answers Mysql.dialect [] numbers joined "id" (11 ∷ 13 ∷ 10 ∷ []) table
unfolding Answers related_statement customised build_select new_builder select set_table where_in
    and_where select_args finish reset pool_get add_condition
joined-Answers s e = ap (fetched joined.fetch) (sym e)

pairs-JoinAnswers : JoinAnswers Mysql.dialect [] numbers joined (1 ∷ 2 ∷ 5 ∷ []) pairs
unfolding JoinAnswers join_statement build_select new_builder select set_table set_alias where_in
    and_where select_args finish reset pool_get add_condition
pairs-JoinAnswers s e = ap (fetched joined.fetch_pairs) (sym e)

execute_many_to_many-each_example :
    execute_many_to_many Mysql.dialect [] numbers joined (some (field "ID" "id")) parents
    ≡ ok (
        record { id = 1; owner_id = 12; rows = (13, 3) ∷ (10, 1) ∷ [] }
        ∷ record { id = 2; owner_id = 0; rows = (11, 2) ∷ [] }
        ∷ record { id = 5; owner_id = 99; rows = (7, 7) ∷ [] }
        ∷ [])
unfolding put_group joined_to found_among with_key filter all_refs group_rows append_to store find
    member
execute_many_to_many-each_example =
    execute_many_to_many-each Mysql.dialect [] numbers joined (field "ID" "id") parents pairs table
      refl (field "ID" "id") refl pairs-JoinAnswers joined-Answers

-- The whole path: the relation's kind chooses, and `Orders` is assigned in place.
execute-test :
    execute Mysql.dialect [] numbers
      (last has)
      (several true (record { id = 2; owner_id = 0; rows = [] } ∷ []))
    ≡ ok (several true (record { id = 2; owner_id = 0; rows = (11, 2) ∷ [] } ∷ []))
unfolding execute member add_condition
execute-test = refl
