-- ===== src/Batcher/Critical.antt =====
-- batcher/batcher.go: the sections that hold the lock, in any interleaving.
use mathlib.Core.List.{append-nil, append_assoc}
use tcg.Common.{ℕ, ◌+◌, ◌≡◌, refl, sym, ap, ◌∙◌, List, [], ◌∷◌, ◌++◌, arith, Bytes, length}
use tcg.Batcher.{Batcher, append, swap, clear}

-- A section: the append of Add, the swap of Batch, Clear, and the write of `maxBytes` in Reset.
pub data Section : Type 0 where
  appends : Bytes → Section
  swaps clears : Section
  resizes : ℕ → Section

-- The new state, and what the section took out of the buffer: a swap to send it, Clear to drop it.
unfoldable pub enter : Section → Batcher → Batcher × List Bytes
unfolding append swap clear
enter (appends p) bt = (append p bt, [])
enter swaps bt = ((swap bt).1, (swap bt).0)
enter clears bt = (clear bt, bt.buf)
enter (resizes n) bt = (record bt { max_bytes = n }, [])

unfoldable pub run : List Section → Batcher → Batcher × List Bytes
unfolding enter
run [] bt = (bt, [])
run (x ∷ xs) bt = let (bt', out) = enter x bt in let (end, outs) = run xs bt' in (end, out ++ outs)

-- The payloads that a schedule appends.
abbrev pub appended : List Section → List Bytes
appended [] = []
appended (appends p ∷ xs) = p ∷ appended xs
appended (_ ∷ xs) = appended xs

-- Whatever the order of the sections, the payloads taken out, sent or dropped by Clear, and then those
-- still in the buffer are the payloads that were in it and then those added, in their order.
pub run_conserves :
    (xs : List Section) (bt : Batcher) → (run xs bt).1 ++ (run xs bt).0.buf ≡ bt.buf ++ appended xs
unfolding run
run_conserves [] bt = sym (append-nil bt.buf)
run_conserves (appends p ∷ xs) bt =
    run_conserves xs (append p bt) ∙ append_assoc bt.buf (p ∷ []) (appended xs)
run_conserves (swaps ∷ xs) bt =
    append_assoc bt.buf _ _ ∙ ap (λ ys. bt.buf ++ ys) (run_conserves xs ((swap bt).1))
run_conserves (clears ∷ xs) bt =
    append_assoc bt.buf _ _ ∙ ap (λ ys. bt.buf ++ ys) (run_conserves xs (clear bt))
run_conserves (resizes n ∷ xs) bt = run_conserves xs (record bt { max_bytes = n })

abbrev pub total : List Bytes → ℕ
total [] = 0
total (p ∷ ps) = length p + total ps

pub total-append : (xs ys : List Bytes) → total (xs ++ ys) ≡ total xs + total ys
total-append [] ys = omega arith
total-append (x ∷ xs) ys = omega (arith, total-append xs ys)

-- `bufSize` is the number of bytes in `buf`.
abbrev pub IsSized : Batcher → Type 0
IsSized bt = bt.buf_size ≡ total bt.buf

enter-IsSized : (x : Section) (bt : Batcher) → IsSized bt → IsSized (enter x bt).0
unfolding enter
enter-IsSized (appends p) bt h = omega (arith, total-append bt.buf (p ∷ []))
enter-IsSized swaps bt h = refl
enter-IsSized clears bt h = refl
enter-IsSized (resizes n) bt h = h

-- Whatever the order of the sections, `bufSize` stays the number of bytes in the buffer.
pub run-IsSized : (xs : List Section) (bt : Batcher) → IsSized bt → IsSized (run xs bt).0
unfolding run
run-IsSized [] bt h = h
run-IsSized (x ∷ xs) bt h = run-IsSized xs (enter x bt).0 (enter-IsSized x bt h)
