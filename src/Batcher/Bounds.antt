-- ===== src/Batcher/Bounds.antt =====
-- batcher/batcher.go: the buffer that Add and Batch leave, and the payloads they send.
use tcg.Common.{
  OnReturn, ℕ, ◌+◌, ◌≤◌, ◌<◌, ◌≡◌, refl, subst, inl, inr, List, [], ◌∷◌, ◌++◌, returns, arith,
  Bytes, length, ltb, ltb→le, ltb→lt, Bool-cases, All, Outcome, panics, ◌>>=◌,
}
use tcg.Batcher.{Batcher, Builder, append, clear, deliver, process, batch, add}

abbrev pub NonEmpty : Bytes → Type 0
NonEmpty q = 0 < length q

deliver-NonEmpty : (ps : List Bytes) → All NonEmpty (deliver ps)
unfolding deliver
deliver-NonEmpty [] = tt
deliver-NonEmpty (p ∷ ps) = elim (Bool-cases (ltb 0 (length p))) [
  | inl t ↦ rw t (ltb→lt 0 (length p) t, deliver-NonEmpty ps)
  | inr f ↦ rw f (deliver-NonEmpty ps)
]

abbrev Clean : List Bytes → Type 0
Clean sent = All NonEmpty sent

out-Clean : (o : Outcome (List Bytes)) → OnReturn Clean (o >>= λ out. returns (deliver out))
out-Clean (returns out) = deliver-NonEmpty out
out-Clean panics = tt

-- The bytes of the buffer.
abbrev pub total : List Bytes → ℕ
total [] = 0
total (p ∷ ps) = length p + total ps

total-append : (ps : List Bytes) (p : Bytes) → total (ps ++ p ∷ []) ≡ total ps + length p
total-append [] p = omega arith
total-append (q ∷ ps) p = omega (arith, total-append ps p)

module _ (build : Builder) where
  process-Clean : (n : ℕ) (ps : List Bytes) → OnReturn Clean (process build n ps)
  unfolding process
  process-Clean n [] = tt
  process-Clean n (p ∷ ps) = out-Clean (build n (p ∷ ps))

  -- The buffer is emptied, the rest is kept, and what is sent is nonempty.
  abbrev Emptied : Batcher → Batcher × List Bytes → Type 0
  Emptied bt (bt', sent) = (bt' ≡ clear bt) × All NonEmpty sent

  sent-Emptied :
      (bt : Batcher) (o : Outcome (List Bytes))
      → OnReturn Clean o
      → OnReturn (Emptied bt) (o >>= λ sent. returns (clear bt, sent))
  sent-Emptied bt (returns sent) h = (refl, h)
  sent-Emptied bt panics h = tt

  batch-Emptied : (bt : Batcher) → OnReturn (Emptied bt) (batch build bt)
  unfolding batch clear
  batch-Emptied bt =
      sent-Emptied bt (process build bt.max_bytes bt.buf) (process-Clean bt.max_bytes bt.buf)

  -- If Batch returns, the buffer is empty, the limit, the period and the running flag are what they
  -- were, and the handler was called for nonempty payloads only.
  pub batch_lem :
      (bt bt' : Batcher) (sent : List Bytes)
      → batch build bt ≡ returns (bt', sent)
      → (bt' ≡ clear bt) × All NonEmpty sent
  batch_lem bt bt' sent h = subst (OnReturn (Emptied bt)) h (batch-Emptied bt)

  abbrev Within : Batcher → Batcher × List Bytes → Type 0
  Within bt (bt', sent) =
      (bt'.buf_size ≡ total bt'.buf)
      × (total bt'.buf ≤ bt'.max_bytes)
      × (bt'.max_bytes ≡ bt.max_bytes)
      × All NonEmpty sent

  Emptied-Within :
      (p : Bytes) (bt : Batcher) (o : Outcome (Batcher × List Bytes))
      → OnReturn (Emptied (append p bt)) o
      → OnReturn (Within bt) o
  unfolding append clear
  Emptied-Within p bt (returns (bt', sent)) (e, h) = rw e (refl, omega arith, refl, h)
  Emptied-Within p bt panics h = tt

  add-Within :
      (p : Bytes) (bt : Batcher)
      → bt.buf_size ≡ total bt.buf
      → OnReturn (Within bt) (add build p bt)
  unfolding add append
  add-Within p bt e = elim (Bool-cases (ltb bt.max_bytes (bt.buf_size + length p))) [
    | inl over ↦ rw over (Emptied-Within p bt _ (batch-Emptied (append p bt)))
    | inr under ↦
        (let sum = total-append bt.buf p in
          let small = ltb→le bt.max_bytes (bt.buf_size + length p) under in
          rw under (omega (arith, sum, e), omega (arith, sum, e, small), refl, tt))
  ]

  -- Where the size that the batcher counts is that of its buffer, it is so after Add returns, and
  -- then the payloads of the buffer have together no more bytes than the limit, which is what it was,
  -- and every payload for which the handler was called is nonempty.
  pub add_bounds :
      (p : Bytes) (bt bt' : Batcher) (sent : List Bytes)
      → bt.buf_size ≡ total bt.buf
      → add build p bt ≡ returns (bt', sent)
      → (bt'.buf_size ≡ total bt'.buf)
        × (total bt'.buf ≤ bt'.max_bytes)
        × (bt'.max_bytes ≡ bt.max_bytes)
        × All NonEmpty sent
  add_bounds p bt bt' sent e h = subst (OnReturn (Within bt)) h (add-Within p bt e)
