-- ===== src/Generator/FileLaws.antt =====
-- What the program of cmd/jorm-gen/main.go leaves on the disk.
use jorm.Base.{
  ℕ, ◌≡◌, refl, sym, ap, ◌∙◌, true, false, not, ◌&&◌, String, Option, none, some, List, [], ◌∷◌,
  ◌++◌, str_eq, eq_iff, All, arith, Bool-cases, inl, inr,
}
use jorm.Generator.{Field}
use jorm.Generator.Rows.{Catalog, fetch_table_info}
use jorm.Generator.Files.{
  Flags, Os, Disk, exists, file_name, model_data, write_model, with_fields, generate_model,
  generate_all, tables_of, with_tables, with_database, main, render,
}

module _ (sscanf : String → Option ℕ) (os : Os) (flags : Flags) where
  abbrev path_of : String → String
  path_of table = file_name sscanf os flags table

  -- A file that a table's generation does not name stays as it is.
  with_fields-other :
      (table : String) (fields : Option (List (Field × String))) (disk : Disk) (p : String)
      → str_eq p (path_of table) ≡ false
      → (with_fields sscanf os flags table fields disk).0 p ≡ disk p
  unfolding with_fields write_model
  with_fields-other table none disk p h = refl
  with_fields-other table (some fields) disk p h = ground arith

  -- Without `-overwrite`, a file that is there stays as it is.
  with_fields-keeps :
      (table : String) (fields : Option (List (Field × String))) (disk : Disk) (p text : String)
      → flags.overwrite ≡ false
      → disk p ≡ some text
      → (with_fields sscanf os flags table fields disk).0 p ≡ some text
  unfolding with_fields write_model
  with_fields-keeps table none disk p text kept there = there
  with_fields-keeps table (some fields) disk p text kept there =
      elim (Bool-cases (str_eq p (path_of table))) [
        | inl same ↦
            let e = (eq_iff p (path_of table)).0 same in rw (sym (ap disk e) ∙ there, kept) there
        | inr other ↦ with_fields-other table (some fields) disk p other ∙ there
      ]

  generate_all-keeps :
      (db : Catalog) (tables : List String) (disk : Disk) (p text : String)
      → flags.overwrite ≡ false
      → disk p ≡ some text
      → (generate_all sscanf os flags db tables disk).0 p ≡ some text
  unfolding generate_all generate_model
  generate_all-keeps db [] disk p text kept there = there
  generate_all-keeps db (table ∷ tables) disk p text kept there =
      generate_all-keeps db tables _ p text kept (
        with_fields-keeps table (fetch_table_info sscanf db flags.driver_name table) disk p text
          kept there)

  with_tables-keeps :
      (db : Catalog) (tables : Option (List String)) (disk : Disk) (p text : String)
      → flags.overwrite ≡ false
      → disk p ≡ some text
      → (with_tables sscanf os flags db tables disk).0 p ≡ some text
  unfolding with_tables
  with_tables-keeps db none disk p text kept there = there
  with_tables-keeps db (some tables) disk p text kept there =
      ground (arith, generate_all-keeps db tables disk p text kept there)

  -- Without `-overwrite`, a run changes no file that is there before it, however it ends.
  pub main-keeps :
      (opened : Option Catalog) (disk : Disk) (p text : String)
      → flags.overwrite ≡ false
      → disk p ≡ some text
      → (main sscanf os flags opened disk).0 p ≡ some text
  unfolding main with_database
  main-keeps none disk p text kept there = ground (arith, there)
  main-keeps (some db) disk p text kept there =
      ground
        (arith, there, with_tables-keeps db (tables_of sscanf os flags db) disk p text kept there)

  -- The tables whose files are not a table's file.
  abbrev Others : String → List String → Type 0
  Others table tables = All (λ u. str_eq (path_of table) (path_of u) ≡ false) tables

  generate_all-Others :
      (db : Catalog) (table : String) (tables : List String) (disk : Disk)
      → Others table tables
      → (generate_all sscanf os flags db tables disk).0 (path_of table) ≡ disk (path_of table)
  unfolding generate_all generate_model
  generate_all-Others db table [] disk h = refl
  generate_all-Others db table (u ∷ tables) disk (differs, h) =
      generate_all-Others db table tables _ h
      ∙ with_fields-other u (fetch_table_info sscanf db flags.driver_name u) disk (path_of table)
          differs

  -- The text that a table's file is to hold.
  abbrev text_of : String → List (Field × String) → String
  text_of table fields =
      (os.writes (path_of table) (render (model_data sscanf os flags table fields))).0

  with_fields-writes :
      (table : String) (fields : List (Field × String)) (disk : Disk)
      → os.creates (path_of table) ≡ true
      → exists (disk (path_of table)) && not flags.overwrite ≡ false
      → (with_fields sscanf os flags table (some fields) disk).0 (path_of table)
        ≡ some (text_of table fields)
  unfolding with_fields write_model
  with_fields-writes table fields disk creates free =
      rw (free, creates, (eq_iff (path_of table) (path_of table)).1 refl) refl

  generate_all-writes :
      (db : Catalog) (before after : List String) (table : String) (fields : List (Field × String))
      (disk : Disk)
      → fetch_table_info sscanf db flags.driver_name table ≡ some fields
      → os.creates (path_of table) ≡ true
      → exists (disk (path_of table)) && not flags.overwrite ≡ false
      → Others table before
      → Others table after
      → (generate_all sscanf os flags db (before ++ table ∷ after) disk).0 (path_of table)
        ≡ some (text_of table fields)
  unfolding generate_all generate_model
  generate_all-writes db [] after table fields disk fetched creates free hb ha =
      generate_all-Others db table after _ ha
      ∙ rw fetched (with_fields-writes table fields disk creates free)
  generate_all-writes db (u ∷ before) after table fields disk fetched creates free (differs, hb)
        ha =
      let kept =
        with_fields-other u (fetch_table_info sscanf db flags.driver_name u) disk (path_of table)
          differs in
      generate_all-writes db before after table fields _ fetched creates
        (ap (λ o. exists o && not flags.overwrite) kept ∙ free) hb ha

  -- A table among those of a run has its file, with the text of its model as far as it was written, where
  -- a DSN is given, the folder is made, its columns can be read, the file can be created, it was not there
  -- or may be overwritten, and no other table has a file of that name. This is so whatever fails for the
  -- other tables.
  pub main-writes :
      (db : Catalog) (before after : List String) (table : String) (fields : List (Field × String))
      (disk : Disk)
      → str_eq flags.dsn "" ≡ false
      → tables_of sscanf os flags db ≡ some (before ++ table ∷ after)
      → os.mkdir_all flags.out_dir ≡ true
      → fetch_table_info sscanf db flags.driver_name table ≡ some fields
      → os.creates (path_of table) ≡ true
      → exists (disk (path_of table)) && not flags.overwrite ≡ false
      → Others table before
      → Others table after
      → (main sscanf os flags (some db) disk).0 (path_of table) ≡ some (text_of table fields)
  unfolding main with_database with_tables
  main-writes db before after table fields disk given listed made fetched creates free hb ha =
      rw (given, listed, made)
        (generate_all-writes db before after table fields disk fetched creates free hb ha)
