-- ===== src/Taskqueue/Fifo.antt =====
-- taskqueue/taskqueue.go: pushes interleaved with the worker's moves.
use mathlib.Core.List.{append-nil, append_assoc, map-append}
use tcg.Common.{
  ◌≡◌, refl, sym, ap, ◌∙◌, inl, inr, Option, none, some, List, [], ◌∷◌, ◌++◌, String, returns,
  panics, Outcome, ◌>>=◌, OnReturn, OnReturn-bind, arith, map, subst, Bool-cases, Option-cases,
}
use tcg.Taskqueue.{
  Task, TaskQueue, Push, accepted, commit, put_ring, can_send, receive, finish, enqueue,
}

-- A move of the queue's threads: the locked part of PushAsync for a prepared task, the worker's
-- receive, and the handler's return.
pub data Move : Type 0 where
  pushes : Task → Move
  receives finishes : Move

-- The tasks that a push accepted.
abbrev pub accepted_by : Push → List Task
accepted_by (accepted t) = t ∷ []
accepted_by _ = []

module _ (handler : Task → Option String) where
  -- The new state, and the tasks that were accepted.
  unfoldable pub move : Move → TaskQueue → Outcome (TaskQueue × List Task)
  move (pushes t) q = commit t q >>= λ r. returns (r.0, accepted_by r.1)
  move receives q = returns (receive q, [])
  move finishes q = returns (finish handler q, [])

  unfoldable pub run : List Move → TaskQueue → Outcome (TaskQueue × List Task)
  unfolding move
  run [] q = returns (q, [])
  run (m ∷ ms) q = move m q >>= λ r. run ms r.0 >>= λ s. returns (s.0, r.1 ++ s.1)

  abbrev in_hand : Option Task → List Task
  in_hand none = []
  in_hand (some t) = t ∷ []

  -- All tasks that the queue ever accepted and has not forgotten, oldest first.
  abbrev pub history : TaskQueue → List Task
  history q = map (λ d. d.0) q.done ++ (in_hand q.busy ++ q.queue)

  -- The history grows by the accepted tasks, and each completed task has its handler's result.
  abbrev Grows : TaskQueue → TaskQueue × List Task → Type 0
  Grows q r = history r.0 ≡ history q ++ r.1

  push-Grows :
      (t : Task) (q : TaskQueue) (o : Outcome (List (Option Task)))
      → OnReturn
          (Grows q)
          (o >>= (λ r. returns (enqueue t q r)) >>= λ r. returns (r.0, accepted_by r.1))
  push-Grows t q (returns r) = simp append_assoc
  push-Grows t q panics = tt

  commit-Grows : (t : Task) (q : TaskQueue) → OnReturn (Grows q) (move (pushes t) q)
  unfolding commit move
  commit-Grows t q = elim (Bool-cases (can_send q)) [
    | inl send ↦ rw send (push-Grows t q (put_ring t q.ring))
    | inr full ↦ rw full (sym (append-nil (history q)))
  ]

  history-receive : (q : TaskQueue) → history (receive q) ≡ history q
  unfolding receive
  history-receive q = ground arith

  history-finish : (q : TaskQueue) → history (finish handler q) ≡ history q
  unfolding finish
  history-finish q = elim (Option-cases q.busy) [
    | inl e ↦ rw e refl
    | inr (t, e) ↦ rw e (simp (map-append, append_assoc))
  ]

  move-Grows : (m : Move) (q : TaskQueue) → OnReturn (Grows q) (move m q)
  move-Grows (pushes t) q = commit-Grows t q
  move-Grows receives q = unfold move in history-receive q ∙ sym (append-nil (history q))
  move-Grows finishes q = unfold move in history-finish q ∙ sym (append-nil (history q))

  run-Grows : (ms : List Move) (q : TaskQueue) → OnReturn (Grows q) (run ms q)
  unfolding run
  run-Grows [] q = sym (append-nil (history q))
  run-Grows (m ∷ ms) q = OnReturn-bind (Grows q) (Grows q) (move m q) _ (move-Grows m q) λ r h.
      OnReturn-bind (Grows r.0) (Grows q) (run ms r.0) _ (run-Grows ms r.0)
        λ s k. k ∙ ap (λ ts. ts ++ s.1) h ∙ append_assoc (history q) r.1 s.1

  -- Whatever the interleaving of pushes and of the worker's moves, the tasks completed, in hand and
  -- waiting, in this order, are those that were there and then those accepted, in their order.
  pub run_fifo :
      (ms : List Move) (q q' : TaskQueue) (ts : List Task)
      → run ms q ≡ returns (q', ts)
      → history q' ≡ history q ++ ts
  run_fifo ms q q' ts h = subst (OnReturn (Grows q)) h (run-Grows ms q)
