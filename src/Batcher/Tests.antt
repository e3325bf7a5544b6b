-- ===== src/Batcher/Tests.antt =====
-- batcher/batcher.go at given payloads.
use tcg.Common.{true, ℕ, ◌≤◌, ◌≡◌, refl, List, [], ◌∷◌, ◌++◌, returns, Bytes, All}
use tcg.Batcher.{Batcher, Builder, append, swap, deliver, process, batch, add}
use tcg.Batcher.Critical.{Section, appends, swaps, clears, resizes, run, run_conserves}
use tcg.Batcher.Bounds.{NonEmpty, total, add_bounds}

abbrev hello : Bytes
hello = 104 ∷ 105 ∷ []

abbrev bye : Bytes
bye = 98 ∷ 121 ∷ 101 ∷ []

abbrev holding : List Bytes → ℕ → Batcher
holding buf n = record { buf = buf; buf_size = n; max_bytes = 4; period = 10; running = true }

abbrev schedule : List Section
schedule = appends bye ∷ swaps ∷ appends hello ∷ resizes 9 ∷ clears ∷ appends bye ∷ []

run_conserves_example :
    (run schedule (holding (hello ∷ []) 2)).1 ++ (run schedule (holding (hello ∷ []) 2)).0.buf
    ≡ hello ∷ bye ∷ hello ∷ bye ∷ []
run_conserves_example = run_conserves schedule (holding (hello ∷ []) 2)

-- A builder that hands an empty payload on after the others.
abbrev with_empty : Builder
with_empty n buf = returns (buf ++ [] ∷ [])

add_bounds_example :
    ((holding [] 0).buf_size ≡ total [])
    × (total [] ≤ 4)
    × ((holding [] 0).max_bytes ≡ (holding (hello ∷ []) 2).max_bytes)
    × All NonEmpty (hello ∷ bye ∷ [])
unfolding add append batch process swap deliver
add_bounds_example =
    add_bounds with_empty bye (holding (hello ∷ []) 2) (holding [] 0) (hello ∷ bye ∷ []) refl refl
