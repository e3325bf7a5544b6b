-- ===== src/Logger/Writers.antt =====
-- logzer/logzer.go, logzer/slog.go and logzer/zlog.go: the writers, and the logger that they make. The
-- cache of the records, go-cache, is the argument `Cache`; regular expressions are functions.
use tcg.Common.{
  ℕ, Bool, false, not, ◌&&◌, ◌||◌, Option, none, some, List, [], ◌∷◌, ◌++◌, ℤ, pos, negsuc, ltb_ℤ,
  eq_ℤ, Bytes, String, ltb, ◌==◌, Outcome, returns, ◌>>=◌, if◌then◌else◌,
}
use tcg.Logger.{Level, LogRecord, LogBuffer, resize, records, write_level}
use tcg.Logger.File.{LogFile}

-- FilterWriter: each expression with its replacement, in the order in which the map yields them.
unfoldable pub filtered : List (Bytes → Bytes) → Bytes → Bytes
filtered [] p = p
filtered (replace ∷ rest) p = filtered rest (replace p)

-- What a writer hands to the one below it: a record, or the number of those that were condensed.
pub data Output : Type 0 where
  entry : Level → Bytes → Output
  condensed : Level → Bytes → ℕ → Output

-- The keys are a level and what the expression for the caller finds, nothing for nil.
pub record Key : Type 0 where
  pub lvl : Level
  pub caller : Bytes

pub record Cache (C : Type 0) : Type 0 where
  pub delete_expired : C → List (Key × ℕ) × C
  pub get : Key → C → Bool
  pub increment : Key → C → C
  pub add : Key → C → C

-- onEvicted
unfoldable pub evicted : List (Key × ℕ) → List Output
evicted [] = []
evicted ((k, v) ∷ rest) =
    let outs = evicted rest in if ltb 0 v then condensed k.lvl k.caller v ∷ outs else outs

module _ {C : Type 0} (cache : Cache C) (find_caller : Bytes → Bytes) where
  unfoldable pub after_expired : Key → Level → Bytes → List (Key × ℕ) × C → List Output × C
  unfolding evicted
  after_expired k lvl p (gone, c) =
      if cache.get k c
      then (evicted gone, cache.increment k c)
      else (evicted gone ++ entry lvl p ∷ [], cache.add k c)

  -- CondenseWriter.WriteLevel
  unfoldable pub condense : ℤ → Level → Bytes → C → List Output × C
  unfolding after_expired
  condense limit lvl p c =
      if ltb_ℤ (pos 0) limit
      then after_expired (record { lvl = lvl; caller = find_caller p }) lvl p
          (cache.delete_expired c)
      else (entry lvl p ∷ [], c)

-- Option
pub data LogOption : Type 0 where
  with_last_errors : ℤ → LogOption
  with_level : Level → LogOption
  with_log_file : LogFile → LogOption
  with_condense : ℤ → LogOption
  with_colors : Bool → LogOption
  with_time_format : String → LogOption

-- The variables of the package and of zerolog that a logger is made of.
pub record Globals : Type 0 where
  pub err_buffer : LogBuffer
  pub log_file : Option LogFile
  pub condense : ℤ
  pub global_level : Level
  pub no_color : Bool
  pub time_format : String
  pub to_file : Option LogFile

unfoldable pub apply_option : LogOption → Globals → Globals
unfolding resize
apply_option (with_last_errors n) g = record g { err_buffer = resize n g.err_buffer }
apply_option (with_level l) g = record g { global_level = l }
apply_option (with_log_file f) g = record g { log_file = some f }
apply_option (with_condense d) g = record g { condense = d }
apply_option (with_colors b) g = record g { no_color = not b }
apply_option (with_time_format s) g = record g { time_format = s }

unfoldable pub apply_options : List LogOption → Globals → Globals
unfolding apply_option
apply_options [] g = g
apply_options (o ∷ os) g = apply_options os (apply_option o g)

unfoldable pub write_records : List LogRecord → LogBuffer → Outcome LogBuffer
unfolding write_level
write_records [] b = returns b
write_records (r ∷ rs) b = write_level r.lvl r.buf b >>= λ c. write_records rs c

-- `formatter.Out` writes to the file only from where there is one.
abbrev pub with_out : Globals → Globals
with_out g = elim g.log_file [ none ↦ g | some f ↦ record g { to_file = some f } ]

unfoldable pub rewritten : List LogRecord → Globals → Outcome Globals
unfolding write_records
rewritten rs g =
    write_records rs g.err_buffer >>= λ b. returns (with_out (record g { err_buffer = b }))

-- NewLoggerWriter: the file of before is closed, and the last errors are read before the options.
unfoldable pub new_logger_writer : List LogOption → Globals → Outcome Globals
unfolding records apply_options rewritten
new_logger_writer opts g = records g.err_buffer >>= λ r.
    rewritten (r.1) (apply_options opts (record g { err_buffer = r.0; log_file = none }))

-- WriteLogBuffer: what is handed to the filter.
unfoldable pub write_log_buffer : Level → List LogRecord → List Output
write_log_buffer lvl [] = []
write_log_buffer lvl (r ∷ rs) =
    let outs = write_log_buffer lvl rs in if ltb_ℤ r.lvl lvl then outs else entry r.lvl r.buf ∷ outs

-- slog's levels, and zerolog's for them.
unfoldable pub zerolog_level : ℤ → Level
zerolog_level l =
    if eq_ℤ l (negsuc 3)
    then pos 0
    else if eq_ℤ l (pos 0)
    then pos 1
    else if eq_ℤ l (pos 4)
    then pos 2
    else if eq_ℤ l (pos 8)
    then pos 3
    else pos 1

-- SLogHandler.Enabled
unfoldable pub enabled : Level → ℤ → Bool
unfolding zerolog_level
enabled global l = not (ltb_ℤ (zerolog_level l) global)

pub record SLogHandler (Attr : Type 0) : Type 0 where
  pub attrs : List Attr
  pub groups : List String

unfoldable pub with_attrs : {Attr : Type 0} → List Attr → SLogHandler Attr → SLogHandler Attr
with_attrs attrs h = record h { attrs = h.attrs ++ attrs }

unfoldable pub with_group : {Attr : Type 0} → String → SLogHandler Attr → SLogHandler Attr
with_group name h = record h { groups = h.groups ++ name ∷ [] }

abbrev pub last_is : ℕ → Bytes → Bool
last_is k [] = false
last_is k (c ∷ []) = c == k
last_is k (c ∷ d ∷ p) = last_is k (d ∷ p)

-- ZlogStrOrJSON.IsJSON
unfoldable pub is_json : Bytes → Bool
is_json [] = false
is_json (c ∷ p) = (c == 123 && last_is 125 p) || (c == 91 && last_is 93 p)
