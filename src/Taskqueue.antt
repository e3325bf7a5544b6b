-- ===== src/Taskqueue.antt =====
-- taskqueue/taskqueue.go. A task's result channel is the pair of the task and its result among the
-- completions; the alarm only logs and is left out. Subjects are the map's text keys.
pub mod Invariant
pub mod Fifo
mod Tests
use tcg.Common.{
  ℕ, zero, suc, ◌+◌, ◌%◌, Bool, true, false, ◌&&◌, ◌||◌, Option, none, some, List, [], ◌∷◌, ◌++◌,
  String, Outcome, returns, panics, ◌>>=◌, Bytes, length, ltb, ◌==◌, is_none, str_eq, if◌then◌else◌,
}

pub record Task : Type 0 where
  pub args : List Bytes
  pub idx : ℕ
  pub subject : String

-- The ring stands with its current slot first. `busy` is the task that the worker handles, and
-- `done` lists the completed tasks with their results, none for no error.
pub record TaskQueue : Type 0 where
  pub capacity : ℕ
  pub handlers : List String
  pub idx : ℕ
  pub queue : List Task
  pub ring : List (Option Task)
  pub busy : Option Task
  pub done : List (Task × Option String)

abbrev pub default_capacity : ℕ
default_capacity = 8

abbrev slots : ℕ → List (Option Task)
slots zero = []
slots (suc n) = none ∷ slots n

-- NewTaskQueue with the capacity, a uint8, and the subjects of the handlers.
unfoldable pub new_task_queue : ℕ → List String → TaskQueue
new_task_queue capacity handlers = record {
  capacity = capacity;
  handlers = handlers;
  idx = 0;
  queue = [];
  ring = slots capacity;
  busy = none;
  done = [];
}

unfoldable pub has_handler : String → List String → Bool
has_handler subj [] = false
has_handler subj (s ∷ ss) = str_eq s subj || has_handler subj ss

pub data Push : Type 0 where
  accepted : Task → Push
  undefined_subject : Push
  exhausted : List Task → Push

-- The part of PushAsync before the lock: the handler is looked up and `idx` read; uint8 wraps.
unfoldable pub prepare : String → List Bytes → TaskQueue → Option Task
unfolding has_handler
prepare subj args q =
    if has_handler subj q.handlers
    then some (record { args = args; idx = (q.idx + 1) % 256; subject = subj })
    else none

-- Whether a send would not block: there is room, or the channel has none and the worker waits.
unfoldable pub can_send : TaskQueue → Bool
can_send q = ltb (length q.queue) q.capacity || (q.capacity == 0 && is_none q.busy)

-- `ring.Do`, past the slots never written.
unfoldable pub last_tasks : List (Option Task) → List Task
last_tasks [] = []
last_tasks (none ∷ r) = last_tasks r
last_tasks (some t ∷ r) = t ∷ last_tasks r

-- The current slot is written and the next one becomes current; a ring of no slot is nil.
unfoldable pub put_ring : Task → List (Option Task) → Outcome (List (Option Task))
put_ring t [] = panics
put_ring t (_ ∷ r) = returns (r ++ some t ∷ [])

unfoldable pub next_idx : ℕ → ℕ
next_idx i = if ltb 254 i then 0 else i

abbrev pub enqueue : Task → TaskQueue → List (Option Task) → TaskQueue × Push
enqueue t q ring =
    (record q { idx = next_idx t.idx; queue = q.queue ++ t ∷ []; ring = ring }, accepted t)

-- The part of PushAsync under the lock.
unfoldable pub commit : Task → TaskQueue → Outcome (TaskQueue × Push)
commit t q =
    if can_send q
    then (put_ring t q.ring >>= λ r. returns (enqueue t q r))
    else returns (q, exhausted (last_tasks q.ring))

unfoldable pub push_async : String → List Bytes → TaskQueue → Outcome (TaskQueue × Push)
push_async subj args q = elim (prepare subj args q) [
  | none ↦ returns (q, undefined_subject)
  | some t ↦ commit t q
]

-- runQueue: the worker takes the next task when it has none.
unfoldable pub receive : TaskQueue → TaskQueue
receive q = elim q.busy [
  | some t ↦ q
  | none ↦ elim q.queue [ [] ↦ q | t ∷ ts ↦ record q { queue = ts; busy = some t } ]
]

module _ (handler : Task → Option String) where
  -- The handler returns, and its result goes to the task's channel.
  unfoldable pub finish : TaskQueue → TaskQueue
  finish q = elim q.busy [
    | none ↦ q
    | some t ↦ record q { busy = none; done = q.done ++ (t, handler t) ∷ [] }
  ]
