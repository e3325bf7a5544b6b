-- ===== src/Logger/Tests.antt =====
-- logzer on given records.
use tcg.Common.{
  ◌≡◌, refl, ◌≤◌, ◌⊎◌, true, none, some, List, [], ◌∷◌, ◌++◌, pos, Bytes, length, returns, arith,
}
use tcg.Logger.{LogBuffer, Op, write_op, new_buffer, run, records}
use tcg.Logger.Recent.{recent, noted, run-recent, held_history, History}
use tcg.Logger.File.{Disk, write}
use tcg.Logger.File.Rotation.{counted, willing, write_bounded}
use tcg.Logger.Writers.{Globals, with_last_errors, with_colors, new_logger_writer, is_json}
use tcg.Logger.Kept.{new_logger_writer_keeps}

abbrev three : List Op
three = write_op (pos 1) (1 ∷ []) ∷ write_op (pos 3) (3 ∷ []) ∷ write_op (pos 4) (4 ∷ []) ∷ []

run-recent_example :
    (b : LogBuffer) × (run (write_op (pos 3) (2 ∷ []) ∷ three) (new_buffer (pos 3) (pos 2))
      ≡ returns b)
    × (records b
        ≡ returns (
          b,
          recent
              (noted (pos 3) (write_op (pos 3) (2 ∷ []) ∷ three) (record { size = 2; kept = [] })),
        ))
run-recent_example =
    run-recent (pos 3) 1 (write_op (pos 3) (2 ∷ [])) three (tt, (tt, (tt, (tt, tt))))

last_two :
    recent (noted (pos 3) (write_op (pos 3) (2 ∷ []) ∷ three) (record { size = 2; kept = [] }))
    ≡ (record { buf = 3 ∷ []; lvl = pos 3 }) ∷ (record { buf = 4 ∷ []; lvl = pos 4 }) ∷ []
unfolding noted
last_two = refl

abbrev disk : Disk
disk = record { current = some (1 ∷ 2 ∷ []); numbered = λ i. none }

limited_write :
    (e : Disk) × (before : Bytes) × (write (willing true true true) (3 ∷ 4 ∷ []) (counted 3 2 disk)
      ≡ (true, counted 3 2 e))
    × (e.current ≡ some (before ++ 3 ∷ 4 ∷ []))
    × ((length (before ++ 3 ∷ 4 ∷ []) ≤ 3) ⊎ (before ≡ []))
limited_write = write_bounded true true true (3 ∷ 4 ∷ []) 3 2 disk (omega arith)

abbrev history : History
history = record { size = 2; kept = (record { buf = 3 ∷ []; lvl = pos 3 }) ∷ [] }

abbrev globals : Globals
globals = record {
  err_buffer = held_history (pos 3) history;
  log_file = none;
  condense = pos 0;
  global_level = pos 1;
  no_color = true;
  time_format = "";
  to_file = none;
}

new_logger_writer_keeps_example :
    (f : Globals) × (new_logger_writer (with_colors true ∷ with_last_errors (pos 1) ∷ []) globals
      ≡ returns f)
    × (records f.err_buffer
        ≡ returns (f.err_buffer, recent (record { size = 1; kept = recent history })))
new_logger_writer_keeps_example =
    new_logger_writer_keeps (pos 3) history globals (with_colors true ∷ []) [] 0 refl (refl, tt) tt

an_object : is_json (123 ∷ 125 ∷ []) ≡ true
unfolding is_json
an_object = refl
