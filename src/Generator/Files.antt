-- ===== src/Generator/Files.antt =====
-- `modelTemplate`, `generateModel` and `main` of cmd/jorm-gen/main.go. A file is its text under its
-- path, or none; the flags are a record.
use jorm.Base.{
  ℕ, String, Bool, true, false, ◌&&◌, not, Option, none, some, List, [], ◌∷◌, str_eq, ◌⧺◌, to_lower,
  if◌then◌else◌,
}
use jorm.Generator.{Field, snake_to_camel}
use jorm.Generator.Rows.{Catalog, fetch_all_tables, fetch_table_info}

pub record Flags : Type 0 where
  pub driver_name : String
  pub dsn : String
  pub table_name : String
  pub pkg_name : String
  pub out_dir : String
  pub overwrite : Bool

pub record ModelData : Type 0 where
  pub package_name : String
  pub struct_name : String
  pub raw_table_name : String
  pub fields : List (Field × String)

abbrev comment_text : String → String
comment_text comment = if str_eq comment "" then "" else "// " ⧺ comment

-- The `range` of the template, and what follows it.
unfoldable pub field_lines : List (Field × String) → String → String
field_lines [] rest = rest
field_lines ((f, tag) ∷ fields) rest =
    "\n\t"
    ⧺ (f.name
        ⧺ (" "
            ⧺ (f.go_type
                ⧺ (" `json:\""
                    ⧺ (f.column
                        ⧺ ("\" jorm:\""
                            ⧺ (tag
                                ⧺ ("\"` "
                                    ⧺ (comment_text f.comment ⧺ field_lines fields rest)))))))))

unfoldable pub render : ModelData → String
unfolding field_lines
render d =
    "package "
    ⧺ (d.package_name
        ⧺ ("\n\nimport (\n\t\"time\"\n)\n\n// "
            ⧺ (d.struct_name
                ⧺ (" 代表数据库表 "
                    ⧺ (d.raw_table_name
                        ⧺ (" 的模型\ntype "
                            ⧺ (d.struct_name
                                ⧺ (" struct {"
                                    ⧺ field_lines d.fields (
                                        "\n}\n\n// TableName 返回真实的数据库表名\nfunc (m *"
                                        ⧺ (d.struct_name
                                            ⧺ (") TableName() string {\n\treturn \""
                                                ⧺ (d.raw_table_name ⧺ "\"\n}\n"))))))))))))

abbrev pub Disk : Type 0
Disk = String → Option String

abbrev pub put_file : String → String → Disk → Disk
put_file path text disk p = if str_eq p path then some text else disk p

-- What the program uses of the operating system: the path of a name in a folder, whether `os.Create`
-- opens a path, and what of a text reaches the file, with whether all of it did.
pub record Os : Type 0 where
  pub path : String → String → String
  pub mkdir_all : String → Bool
  pub creates : String → Bool
  pub writes : String → String → String × Bool

-- How a run of `main` ends: by the usage text, by `log.Fatalf`, or with the tables that failed.
pub data Exit : Type 0 where
  usage fatal : Exit
  done : List String → Exit

abbrev pub exists : Option String → Bool
exists none = false
exists (some text) = true

module _ (sscanf : String → Option ℕ) (os : Os) (flags : Flags) where
  abbrev pub file_name : String → String
  file_name table = os.path flags.out_dir (to_lower table ⧺ ".go")

  abbrev pub model_data : String → List (Field × String) → ModelData
  model_data table fields = record {
    package_name = flags.pkg_name;
    struct_name = snake_to_camel table true;
    raw_table_name = table;
    fields = fields;
  }

  -- `os.Create` and the template; the second is whether no error occurred.
  unfoldable pub write_model : String → ModelData → Disk → Disk × Bool
  unfolding render
  write_model path d disk =
      if os.creates path
      then (put_file path (os.writes path (render d)).0 disk, (os.writes path (render d)).1)
      else (disk, false)

  unfoldable pub with_fields : String → Option (List (Field × String)) → Disk → Disk × Bool
  unfolding write_model snake_to_camel
  with_fields table none disk = (disk, false)
  with_fields table (some fields) disk =
      if exists (disk (file_name table)) && not flags.overwrite
      then (disk, true)
      else write_model (file_name table) (model_data table fields) disk

  unfoldable pub generate_model : Catalog → String → Disk → Disk × Bool
  unfolding with_fields fetch_table_info
  generate_model db table disk =
      with_fields table (fetch_table_info sscanf db flags.driver_name table) disk

  -- The loop of `main`, with the tables whose generation failed.
  unfoldable pub generate_all : Catalog → List String → Disk → Disk × List String
  unfolding generate_model
  generate_all db [] disk = (disk, [])
  generate_all db (table ∷ tables) disk =
      let (after, generated) = generate_model db table disk in
      let (last, failed) = generate_all db tables after in
      (last, if generated then failed else table ∷ failed)

  unfoldable pub tables_of : Catalog → Option (List String)
  unfolding fetch_all_tables
  tables_of db =
      if str_eq flags.table_name ""
      then fetch_all_tables db flags.driver_name
      else some (flags.table_name ∷ [])

  unfoldable pub with_tables : Catalog → Option (List String) → Disk → Disk × Exit
  unfolding generate_all
  with_tables db none disk = (disk, fatal)
  with_tables db (some tables) disk =
      let (last, failed) = generate_all db tables disk in
      if os.mkdir_all flags.out_dir then (last, done failed) else (disk, fatal)

  unfoldable pub with_database : Option Catalog → Disk → Disk × Exit
  unfolding tables_of with_tables
  with_database none disk = (disk, fatal)
  with_database (some db) disk = with_tables db (tables_of db) disk

  -- The database is none if `sql.Open` fails.
  unfoldable pub main : Option Catalog → Disk → Disk × Exit
  unfolding with_database
  main opened disk = if str_eq flags.dsn "" then (disk, usage) else with_database opened disk
