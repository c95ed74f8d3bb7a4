-- ===== src/Logger/Tests.antt =====
-- Runs of a logger, and the theorem at an input that meets its hypotheses.
use jorm.Base.{ℕ, ◌≡◌, refl, String, some, List, [], ◌∷◌, ◌⧺◌, decimal, ascii}
use jorm.Logger.{
  BaseLogger, Arg, str, many, other, Printing, json_format, new_std_logger, set_level, set_format,
  set_level_output, with_fields, info, log_sql, parse_level, get_sql_color, value_at,
}
use jorm.Logger.Laws.{warn_call, run, writes_to, writes_to-run}

abbrev shown : List (Arg ℕ) → String
shown [] = ""
shown (str s ∷ rest) = s ⧺ shown rest
shown (many vs ∷ rest) = "[]" ⧺ shown rest
shown (other n ∷ rest) = decimal n ⧺ shown rest

abbrev keys : List (String × Arg ℕ) → String
keys [] = ""
keys ((k, a) ∷ rest) = k ⧺ (" " ⧺ keys rest)

abbrev printing : Printing ℕ
printing = record {
  sprintf = λ fmt xs. fmt ⧺ ("!" ⧺ shown xs);
  marshal = keys;
  sprint_fields = keys;
  rfc3339 = λ now. "now";
  date_time = λ now. "now";
  duration_string = λ d. "1s";
}

-- Warnings also go to the writer 2.
abbrev warning : BaseLogger ℕ
warning = set_level_output 2 (some 2) (set_level 2 new_std_logger)

writes_to-run_example : writes_to 2 (run printing warning 7 (warn_call "slow" [])) ≡ 1
unfolding set_level_output set_level parse_level value_at
writes_to-run_example = writes_to-run printing warning 7 (warn_call "slow" []) 2

-- A message without arguments is a format in the text, and is not in JSON.
text-test :
    info printing (set_level 3 new_std_logger) 7 "50%" [] ≡ (1, "[JORM] now | INFO |  50%!\n") ∷ []
unfolding info set_level ascii
text-test = refl

json-test :
    info printing
      (with_fields (("level", other 3) ∷ []) (set_format json_format (set_level 3 new_std_logger)))
      7
      "50%"
      []
    ≡ (1, "level time msg \n") ∷ []
unfolding info set_level set_format with_fields ascii
json-test = refl

sql-test :
    log_sql printing (set_level 4 new_std_logger) 7 "delete from t" 5 (1 ∷ [])
    ≡ (
      1,
      "[JORM] now | DEBUG |  "
          ⧺ (get_sql_color "DELETE" ⧺ "%v | %s | args: %v!5delete from t[]\u{1b}[0m\n"),
    )
      ∷ []
unfolding log_sql set_level get_sql_color ascii decimal
sql-test = refl
