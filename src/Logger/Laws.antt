-- ===== src/Logger/Laws.antt =====
-- Whom the loggers of logger/logger.go write to.
use jorm.Base.{
  ℕ, suc, ◌≡◌, refl, Bool, ◌||◌, ◌&&◌, String, Option, none, some, List, [], ◌∷◌, ◌++◌, map, leb,
  ◌==◌, arith, if◌then◌else◌,
}
use jorm.Logger.{
  BaseLogger, Arg, Printing, level_error, level_warn, level_info, level_debug, parse_level,
  same_writer, level_writer, writer_list, writers_for, value_at, emit, info, warn, error, log_sql,
  sql_format, sql_args,
}

-- How often a writer is written to.
unfoldable pub writes_to : ℕ → List (ℕ × String) → ℕ
writes_to w [] = 0
writes_to w ((v, line) ∷ rest) = if v == w then suc (writes_to w rest) else writes_to w rest

-- The calls of a logger.
pub data Call (V : Type 0) : Type 0 where
  info_call warn_call error_call : String → List (Arg V) → Call V
  sql_call : String → V → List V → Call V

abbrev pub level_of : {V : Type 0} → Call V → ℕ
level_of (info_call fmt xs) = level_info
level_of (warn_call fmt xs) = level_warn
level_of (error_call fmt xs) = level_error
level_of (sql_call sql d vs) = level_debug

module _ {V : Type 0} (p : Printing V) where
  abbrev pub run : BaseLogger V → ℕ → Call V → List (ℕ × String)
  run l now (info_call fmt xs) = info p l now fmt xs
  run l now (warn_call fmt xs) = warn p l now fmt xs
  run l now (error_call fmt xs) = error p l now fmt xs
  run l now (sql_call sql d vs) = log_sql p l now sql d vs

  -- Whether a writer is the logger's or that of the level.
  abbrev pub is_writer : BaseLogger V → ℕ → ℕ → Bool
  is_writer l level w = same_writer l.writer w || same_writer (value_at level l.level_writers) w

  writes_to-line :
      (default own : Option ℕ) (line : String) (w : ℕ)
      → writes_to w (map (λ v. (v, line)) (writer_list default ++ level_writer default own))
        ≡ (if same_writer default w || same_writer own w then 1 else 0)
  unfolding writes_to
  writes_to-line none none line w = refl
  writes_to-line (some v) none line w = ground arith
  writes_to-line none (some u) line w = ground arith
  writes_to-line (some v) (some u) line w = ground arith

  writes_to-emit :
      (l : BaseLogger V) (now : ℕ) (level fmt : String) (xs : List (Arg V)) (w : ℕ)
      → writes_to w (emit p l now level fmt xs)
        ≡ (if is_writer l (parse_level level) w then 1 else 0)
  unfolding emit writers_for
  writes_to-emit l now level fmt xs w =
      writes_to-line l.writer (value_at (parse_level level) l.level_writers) _ w

  when-leb :
      (n m : ℕ) (b : Bool) (out : List (ℕ × String)) (w : ℕ)
      → writes_to w out ≡ (if b then 1 else 0)
      → writes_to w (if leb n m then out else []) ≡ (if leb n m && b then 1 else 0)
  unfolding writes_to
  when-leb n m b out w h = ground (arith, h)

  -- A call of Info, Warn, Error or SQL writes once to the writer of the logger and to the one of the
  -- call's level, which may be the same, and to no other, if the level of the logger is that of the call
  -- or above it, and else to none.
  pub writes_to-run :
      (l : BaseLogger V) (now : ℕ) (c : Call V) (w : ℕ)
      → writes_to w (run l now c)
        ≡ (if leb (level_of c) l.level && is_writer l (level_of c) w then 1 else 0)
  unfolding info warn error log_sql parse_level
  writes_to-run l now (info_call fmt xs) w =
      when-leb level_info l.level _ _ w (writes_to-emit l now "INFO" fmt xs w)
  writes_to-run l now (warn_call fmt xs) w =
      when-leb level_warn l.level _ _ w (writes_to-emit l now "WARN" fmt xs w)
  writes_to-run l now (error_call fmt xs) w =
      when-leb level_error l.level _ _ w (writes_to-emit l now "ERROR" fmt xs w)
  writes_to-run l now (sql_call sql d vs) w =
      when-leb level_debug l.level _ _ w
        (writes_to-emit l now "SQL" (sql_format p l.format) (sql_args p l.format sql d vs) w)
