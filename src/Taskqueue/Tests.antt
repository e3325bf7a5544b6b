-- ===== src/Taskqueue/Tests.antt =====
-- taskqueue/taskqueue.go at given tasks.
use tcg.Common.{◌≡◌, refl, Option, none, some, List, [], ◌∷◌, String, returns, arith}
use tcg.Taskqueue.{
  Task, TaskQueue, Push, new_task_queue, push_async, prepare, commit, put_ring, can_send, receive,
  finish, next_idx,
}
use tcg.Taskqueue.Invariant.{Inv, Reached, made, pushed, push_async-keeps}
use tcg.Taskqueue.Fifo.{Move, pushes, receives, finishes, run, move, history, run_fifo}

abbrev two_slots : TaskQueue
two_slots = record {
  capacity = 2;
  handlers = "config" ∷ "exit" ∷ [];
  idx = 0;
  queue = [];
  ring = none ∷ none ∷ [];
  busy = none;
  done = [];
}

two_slots_new : new_task_queue 2 ("config" ∷ "exit" ∷ []) ≡ two_slots
unfolding new_task_queue
two_slots_new = refl

abbrev no_slots : TaskQueue
no_slots = record two_slots { capacity = 0; ring = [] }

abbrev exit_task : Task
exit_task = record { args = []; idx = 1; subject = "exit" }

abbrev config_task : Task
config_task = record { args = []; idx = 2; subject = "config" }

one_pushed :
    Reached 2
      ("config" ∷ "exit" ∷ [])
      (record two_slots { idx = 1; queue = exit_task ∷ []; ring = none ∷ some exit_task ∷ [] })
unfolding push_async prepare commit put_ring can_send next_idx new_task_queue
one_pushed = pushed "exit" [] two_slots _ made refl

push_async-keeps_example :
    (r : TaskQueue × Push) × (push_async "config" []
        (record two_slots { idx = 1; queue = exit_task ∷ []; ring = none ∷ some exit_task ∷ [] })
      ≡ returns r)
    × Inv r.0
push_async-keeps_example =
    push_async-keeps 2 ("config" ∷ "exit" ∷ []) "config" [] _ (omega arith) one_pushed

abbrev answer : Task → Option String
answer t = none

abbrev moves : List Move
moves = pushes exit_task ∷ receives ∷ pushes config_task ∷ finishes ∷ []

abbrev moved : TaskQueue
moved = record two_slots {
  idx = 2;
  queue = config_task ∷ [];
  ring = some exit_task ∷ some config_task ∷ [];
  done = (exit_task, none) ∷ [];
}

run_fifo_example : history answer moved ≡ exit_task ∷ config_task ∷ []
unfolding run move commit can_send put_ring next_idx receive finish
run_fifo_example = run_fifo answer moves two_slots moved (exit_task ∷ config_task ∷ []) refl
