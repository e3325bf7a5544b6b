-- ===== src/Logger/Kept.antt =====
-- logzer/logzer.go, NewLoggerWriter: the last errors of the logger before.
use tcg.Common.{
  ℕ, suc, ◌≡◌, refl, ap, sym, ◌∙◌, false, Option, none, some, List, [], ◌∷◌, ◌++◌, pos, ltb_ℤ, All,
  Outcome, returns, ◌>>=◌,
}
use mathlib.Core.List.{append_assoc, append-nil}
use tcg.Logger.{empty_slots, Level, LogRecord, LogBuffer, records, write_level, resize}
use tcg.Logger.Recent.{
  window_empty, emptied, History, recent, held_history, records-held, held, write_level-held, note,
}
use tcg.Logger.File.{LogFile}
use tcg.Logger.Writers.{
  LogOption, with_last_errors, with_level, with_log_file, with_condense, with_colors,
  with_time_format, Globals, rewritten, with_out, apply_option, apply_options, write_records,
  new_logger_writer,
}

-- The level of a record that is kept.
abbrev pub IsAtLeast : Level → LogRecord → Type 0
IsAtLeast level r = ltb_ℤ r.lvl level ≡ false

written :
    (level : Level) (m : ℕ) (kept : List LogRecord) (r : LogRecord)
    → IsAtLeast level r
    → write_level r.lvl r.buf (held level (suc m) kept)
      ≡ returns (held level (suc m) (kept ++ r ∷ []))
unfolding note
written level m kept r h = write_level-held level m kept r.lvl r.buf ∙ rw h refl

write_records-held :
    (level : Level) (m : ℕ) (kept rs : List LogRecord)
    → All (IsAtLeast level) rs
    → write_records rs (held level (suc m) kept) ≡ returns (held level (suc m) (kept ++ rs))
unfolding write_records
write_records-held level m kept [] h =
    ap (λ l. returns (held level (suc m) l)) (sym (append-nil kept))
write_records-held level m kept (r ∷ rs) h =
    ap (λ o. o >>= λ c. write_records rs c) (written level m kept r (h.0))
    ∙ write_records-held level m (kept ++ r ∷ []) rs (h.1)
    ∙ ap (λ l. returns (held level (suc m) l)) (append_assoc kept (r ∷ []) rs)

-- An option that leaves the buffer alone.
abbrev pub LeavesBuffer : LogOption → Type 0
LeavesBuffer (with_last_errors n) = ⊥
LeavesBuffer _ = Unit

buffer_left :
    (os : List LogOption) (g : Globals)
    → All LeavesBuffer os
    → (apply_options os g).err_buffer ≡ g.err_buffer
unfolding apply_options
buffer_left [] g h = refl
buffer_left (o ∷ os) g h = buffer_left os (apply_option o g) (h.1) ∙ left o (h.0)
  where
    left : (o : LogOption) → LeavesBuffer o → (apply_option o g).err_buffer ≡ g.err_buffer
    left (with_last_errors n) h = absurd h
    left (with_level l) h = refl
    left (with_log_file f) h = refl
    left (with_condense d) h = refl
    left (with_colors b) h = refl
    left (with_time_format s) h = refl

level_left :
    (os : List LogOption) (g : Globals) → (apply_options os g).err_buffer.level ≡ g.err_buffer.level
unfolding apply_options
level_left [] g = refl
level_left (o ∷ os) g = level_left os (apply_option o g) ∙ left o
  where
    left : (o : LogOption) → (apply_option o g).err_buffer.level ≡ g.err_buffer.level
    left (with_last_errors n) = refl
    left (with_level l) = refl
    left (with_log_file f) = refl
    left (with_condense d) = refl
    left (with_colors b) = refl
    left (with_time_format s) = refl

apply_options-append :
    (os ps : List LogOption) (g : Globals)
    → apply_options (os ++ ps) g ≡ apply_options ps (apply_options os g)
unfolding apply_options
apply_options-append [] ps g = refl
apply_options-append (o ∷ os) ps g = apply_options-append os ps (apply_option o g)

-- The buffer after options of which one, and none later, sets its size.
sized_buffer :
    (os ps : List LogOption) (n : ℕ) (g : Globals)
    → All LeavesBuffer ps
    → (apply_options (os ++ with_last_errors (pos (suc n)) ∷ ps) g).err_buffer
      ≡ held g.err_buffer.level (suc n) []
unfolding apply_options apply_option resize
sized_buffer os ps n g h =
    ap (λ f. f.err_buffer) (apply_options-append os (with_last_errors (pos (suc n)) ∷ ps) g)
    ∙ buffer_left ps (apply_option (with_last_errors (pos (suc n))) (apply_options os g)) h
    ∙ ap (λ l. emptied l (suc n) (empty_slots (suc n))) (level_left os g)
    ∙ ap (emptied g.err_buffer.level (suc n)) (window_empty (suc n))

out_left :
    (g : Globals) (o : Option LogFile)
    → (elim o as (λ x. Globals) [ none ↦ g | some f ↦ record g { to_file = some f } ]).err_buffer
      ≡ g.err_buffer
out_left g none = refl
out_left g (some f) = refl

rewritten-held :
    (level : Level) (n : ℕ) (rs : List LogRecord) (g : Globals)
    → g.err_buffer ≡ held level (suc n) []
    → All (IsAtLeast level) rs
    → (f : Globals) × (rewritten rs g ≡ returns f) × (f.err_buffer ≡ held level (suc n) rs)
unfolding rewritten
rewritten-held level n rs g e h =
    let finish : LogBuffer → Outcome Globals =
      λ b. returns (with_out (record g { err_buffer = b })) in
    let full = held level (suc n) rs in
    (
      with_out (record g { err_buffer = full }),
      ap (λ b. write_records rs b >>= finish) e
          ∙ ap (λ o. o >>= finish) (write_records-held level n [] rs h),
      out_left (record g { err_buffer = full }) g.log_file,
    )

-- NewLoggerWriter keeps the last errors: where the buffer before has a history whose records are of
-- its level or above, and the options set the size of the buffer and do not set it again, the new
-- buffer gives the last ones, as many as its new size, of the records that the one before gave.
pub new_logger_writer_keeps :
    (level : Level) (h : History) (g : Globals) (os ps : List LogOption) (n : ℕ)
    → g.err_buffer ≡ held_history level h
    → All (IsAtLeast level) (recent h)
    → All LeavesBuffer ps
    → (f : Globals) × (new_logger_writer (os ++ with_last_errors (pos (suc n)) ∷ ps) g ≡ returns f)
      × (records f.err_buffer
          ≡ returns (f.err_buffer, recent (record { size = suc n; kept = recent h })))
unfolding new_logger_writer
new_logger_writer_keeps level h g os ps n e l s =
    let opts = os ++ with_last_errors (pos (suc n)) ∷ ps in
    let g1 : Globals = record g { err_buffer = held_history level h; log_file = none } in
    let (f, made, buffer) =
      rewritten-held level n (recent h) (apply_options opts g1) (sized_buffer os ps n g1 s) l in
    (
      f,
      ap
            (λ o. o >>= λ r.
              rewritten (r.1) (apply_options opts (record g { err_buffer = r.0; log_file = none })))
            (ap records e ∙ records-held level h)
          ∙ made,
      ap records buffer
          ∙ records-held level (record { size = suc n; kept = recent h })
          ∙ ap (λ b. returns (b, recent (record { size = suc n; kept = recent h }))) (sym buffer),
    )
