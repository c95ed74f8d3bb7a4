-- ===== src/Query/Tests.antt =====
-- Writes of a user, and the theorems about them at this input.
use jorm.Base.{
  ℕ, ℤ, ◌≡◌, refl, arith, String, Bool, true, false, Option, some, none, List, [], ◌∷◌, ◌++◌, Value,
  null, int, str, pos, str_eq, ◌==◌, inr, length, map, filter, if◌then◌else◌,
}
use jorm.Base.Fallible.{ok}
use jorm.Core.Health.{opened, report_error}
use jorm.Model.{Field, Model, GoType, basic, struct_of}
use jorm.Model
use jorm.Dialect.{Statement}
use jorm.Dialect.Mysql
use jorm.Builder.State.{Builder, new_builder, reset, pool_get}
use jorm.Query.Step.{State, done, Executor}
use jorm.Query.Values.{Reflection, get_model_values}
use jorm.Query.Write.{Kind, insert, update, update_map, delete, delete_matching}
use jorm.Query.Batch.{batch_insert}
use jorm.Query.Once.{Ran}
use jorm.Query.Laws.{writes-Ran}
use jorm.Query.Stored.{Keeps, Apart, is_stored, get_model_values-stored}
use jorm.Query.BatchLaws.{batch_insert-Sent}

record User : Type 0 where
  id : ℤ
  name : String
  created : Option ℕ

abbrev field : String → GoType → Bool → Bool → Field
field column type key time = record {
  name = column;
  column = column;
  go_type = type;
  index = 0;
  nested_idx = 0 ∷ [];
  is_pk = key;
  is_auto = key;
  auto_time = time;
  auto_update = false;
  is_unique = false;
  size = 0;
  not_null = false;
  default = "";
  sql_type = "";
  tag = "";
}

abbrev id_field : Field
id_field = field "id" (basic Model.Kind.int64) true false

abbrev name_field : Field
name_field = field "name" (basic Model.Kind.string) false false

abbrev time_field : Field
time_field = field "created" (struct_of "Time") false true

abbrev users : Model
users = record {
  table_name = "users";
  fields = id_field ∷ name_field ∷ time_field ∷ [];
  pk_field = some id_field;
}

abbrev time_value : Option ℕ → Value
time_value none = null
time_value (some t) = int (pos t)

abbrev no_time : Option ℕ → Bool
no_time none = true
no_time (some t) = false

abbrev no_id : ℤ → Bool
no_id (pos n) = n == 0
no_id n = false

abbrev reflection : Reflection User
reflection = record {
  interface = λ f u.
      if str_eq f.column "id"
      then int u.id
      else if str_eq f.column "name"
      then str u.name
      else time_value u.created;
  can_set = λ f u. true;
  is_zero = λ f u.
      if str_eq f.column "id"
      then no_id u.id
      else if str_eq f.column "name"
      then str_eq u.name ""
      else no_time u.created;
  is_time = λ f. str_eq f.column "created";
  set_now =
      λ now f u. if str_eq f.column "created" then some (record u { created = some now }) else none;
  set_int = λ id f u. record u { id = id };
}

abbrev user_kind : Kind User
user_kind = record {
  model = inr users;
  accessed = reflection;
  indexed = reflection;
  before_insert = none;
  after_insert = λ id. none;
  before_update = none;
  after_update = none;
  before_delete = none;
  after_delete = none;
}

-- A database that keeps the statements, and counts them as its time.
abbrev executor : Executor (List Statement)
executor = record {
  exec = λ statement w. (
    done (record { last_insert_id = pos 7; rows_affected = pos 1; rows_error = none }),
    w ++ statement ∷ [],
  );
  clock = λ w. length w;
}

abbrev ann : User
ann = record { id = pos 0; name = "ann"; created = none }

abbrev start : {X : Type 0} → X → State (List Statement) X
start x = record { world = ("BEGIN", []) ∷ []; db = opened; last = none; objects = x }

abbrev builder : Builder
builder = (new_builder Mysql.dialect []).0

insert-test : insert executor user_kind builder (start ann) ≡ (
  ok (record { last_insert_id = pos 7; rows_affected = pos 0 }),
  record {
    world =
        ("BEGIN", [])
        ∷ ("INSERT INTO `users` (name, created) VALUES (?, ?)", str "ann" ∷ int (pos 1) ∷ [])
        ∷ [];
    db = opened;
    last = some ("INSERT INTO `users` (name, created) VALUES (?, ?)", str "ann" ∷ int (pos 1) ∷ []);
    objects = record { id = pos 7; name = "ann"; created = some 1 };
  },
)
unfolding insert report_error reset pool_get new_builder Mysql.insert_sql
insert-test = refl

writes-Ran_example :
    Ran executor (start ann) (insert executor user_kind builder (start ann))
    × Ran executor (start ann) (update executor user_kind builder (start ann))
    × Ran executor (start ann) (update_map executor user_kind builder none [] (start ann))
    × Ran executor (start ann) (delete executor user_kind Mysql.dialect builder (start ann))
    × Ran executor (start ann) (delete_matching executor user_kind builder none (start ann))
writes-Ran_example = writes-Ran executor user_kind Mysql.dialect builder none [] (start ann)

apart : Apart reflection users.fields
unfolding Apart Keeps
apart = (
  (λ now t t' h. ground arith, (λ now t t' h. ground arith, tt)),
  ((λ now t t' h. ground arith, tt), (tt, tt)),
)

get_model_values-stored_example :
    ("name" ∷ "created" ∷ []
      ≡ map
          (λ f. f.column)
          (filter (is_stored reflection false (record ann { created = some 5 })) users.fields))
    × (str "ann" ∷ int (pos 5) ∷ []
        ≡ map
            (λ f. reflection.interface f (record ann { created = some 5 }))
            (filter (is_stored reflection false (record ann { created = some 5 })) users.fields))
unfolding get_model_values
get_model_values-stored_example =
    get_model_values-stored reflection false 5 users.fields ann (record ann { created = some 5 })
      ("name" ∷ "created" ∷ []) (str "ann" ∷ int (pos 5) ∷ []) apart refl

abbrev two : State (List Statement) (List User)
two = start (ann ∷ ann ∷ [])

batch_insert-Sent_example :
    (args : List Value) × ((batch_insert executor user_kind Mysql.dialect two).1.last
      ≡ some ("INSERT INTO `users` (name, created) VALUES (?, ?), (?, ?)", args))
    × (length args ≡ 4)
    × Ran executor two (batch_insert executor user_kind Mysql.dialect two)
unfolding batch_insert Mysql.batch_insert_sql
batch_insert-Sent_example =
    batch_insert-Sent executor user_kind Mysql.dialect users two ann (ann ∷ [])
      (record { last_insert_id = pos 0; rows_affected = pos 1 }) refl refl refl
