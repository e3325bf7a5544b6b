-- ===== src/Config/Logged.antt =====
-- config/config.go, initLogger: where it does not panic.
use tcg.Common.{
  ℕ, zero, suc, ◌≡◌, refl, ap, ◌∙◌, inl, inr, [], ◌∷◌, pos, All, returns, ◌>>=◌, str_eq, Bool-cases,
}
use tcg.Config.{Config, Connector}
use tcg.Config.Logs.{init_logger, level_at, log_options, condense_of, file_option}
use tcg.Logger.{Level}
use tcg.Logger.Recent.{History, recent, held_history}
use tcg.Logger.Writers.{
  Globals, with_level, with_time_format, with_colors, with_condense, new_logger_writer,
}
use tcg.Logger.Kept.{IsAtLeast, LeavesBuffer, new_logger_writer_keeps}

level_of_pos : (n : ℕ) → (lvl : Level) × (level_at (pos n) ≡ returns lvl)
unfolding level_at
level_of_pos zero = (_, refl)
level_of_pos (suc zero) = (_, refl)
level_of_pos (suc (suc zero)) = (_, refl)
level_of_pos (suc (suc (suc zero))) = (_, refl)
level_of_pos (suc (suc (suc (suc n)))) = (_, refl)

file_option-LeavesBuffer : (c : Connector) → All LeavesBuffer (file_option c)
file_option-LeavesBuffer c = elim (Bool-cases (str_eq c.log_file "")) [
  | inl e ↦ rw e tt
  | inr e ↦ rw e (tt, tt)
]

-- On a level that is not negative initLogger returns, where the buffer of the last errors has a history
-- of records of its level or above.
pub init_logger_total :
    (c : Config) (g : Globals) (n : ℕ) (level : Level) (hist : History)
    → c.connector.log_level ≡ pos n
    → g.err_buffer ≡ held_history level hist
    → All (IsAtLeast level) (recent hist)
    → (f : Globals) × (init_logger c g ≡ returns f)
unfolding init_logger log_options
init_logger_total c g n level hist e b h =
    let (lvl, at) = level_of_pos n in
    let conn = c.connector in
    let (f, made, kept) =
      new_logger_writer_keeps level hist g
        (with_colors conn.log_colors ∷ with_condense (condense_of conn lvl) ∷ [])
        (with_level lvl ∷ with_time_format conn.log_time_format ∷ file_option conn) 9 b h
        (tt, (tt, file_option-LeavesBuffer conn)) in
    (f, ap (λ o. o >>= λ l. new_logger_writer (log_options conn l) g) (ap level_at e ∙ at) ∙ made)
