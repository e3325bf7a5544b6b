-- ===== src/Config/Logs.antt =====
-- config/config.go, initLogger: the logger that a configuration sets up.
use tcg.Common.{
  ℕ, List, [], ◌∷◌, ◌++◌, ℤ, pos, negsuc, ltb_ℤ, Outcome, returns, panics, ◌>>=◌, str_eq,
  if◌then◌else◌,
}
use tcg.Config.{Config, Connector}
use tcg.Logger.{Level}
use tcg.Logger.File.{no_file}
use tcg.Logger.Writers.{
  LogOption, with_last_errors, with_level, with_log_file, with_condense, with_colors,
  with_time_format, Globals, new_logger_writer,
}

-- The level of zerolog at an index of the array; a negative one panics, and one above 4 is 4.
unfoldable pub level_at : ℤ → Outcome Level
level_at (negsuc n) = panics
level_at (pos ℕ.zero) = returns (pos 3)
level_at (pos (ℕ.suc ℕ.zero)) = returns (pos 2)
level_at (pos (ℕ.suc (ℕ.suc ℕ.zero))) = returns (pos 1)
level_at (pos (ℕ.suc (ℕ.suc (ℕ.suc ℕ.zero)))) = returns (pos 0)
level_at (pos (ℕ.suc (ℕ.suc (ℕ.suc (ℕ.suc n))))) = returns (negsuc 0)

abbrev pub size_of : ℤ → ℕ
size_of (pos n) = n
size_of (negsuc n) = 0

-- A rotation that is negative renames the file once, as 1 does.
abbrev pub copies_of : ℤ → ℕ
copies_of (pos n) = n
copies_of (negsuc n) = 1

abbrev pub file_option : Connector → List LogOption
file_option c =
    if str_eq c.log_file ""
    then []
    else with_log_file (record {
      file = no_file;
      file_size = 0;
      max_size = size_of c.log_file_max_size;
      rotation = copies_of c.log_file_rotate;
    })
      ∷ []

-- Debugging turns condensing off.
abbrev pub condense_of : Connector → Level → ℤ
condense_of c lvl = if ltb_ℤ (pos 0) lvl then c.log_condense else pos 0

unfoldable pub log_options : Connector → Level → List LogOption
log_options c lvl =
    (with_colors c.log_colors ∷ with_condense (condense_of c lvl) ∷ [])
    ++ with_last_errors (pos 10)
      ∷ with_level lvl
      ∷ with_time_format c.log_time_format
      ∷ file_option c

unfoldable pub init_logger : Config → Globals → Outcome Globals
unfolding level_at log_options new_logger_writer
init_logger c g =
    level_at c.connector.log_level >>= λ lvl. new_logger_writer (log_options c.connector lvl) g
