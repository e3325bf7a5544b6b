-- ===== src/Taskqueue/Invariant.antt =====
-- taskqueue/taskqueue.go: the state of the queue between two of its operations.
use tcg.Common.{
  ℕ, zero, suc, ◌+◌, ◌≤◌, ◌≡◌, refl, ap, subst, inl, inr, true, Option, none, some, List, [], ◌∷◌,
  String, Outcome, ◌<◌, returns, panics, ◌∙◌, ◌>>=◌, OnReturn, arith, Bytes, length, length-append,
  Bool-cases, Option-cases,
}
use tcg.Taskqueue.{
  Task, TaskQueue, Push, enqueue, undefined_subject, commit, can_send, put_ring, push_async,
  prepare, receive, finish, enqueue, new_task_queue, slots, next_idx,
}

-- The index leaves room for one more, the channel is within its capacity, and the ring has as many
-- slots.
pub record Inv (q : TaskQueue) : Type 0 where
  pub idx_small : q.idx ≤ 254
  pub bounded : length q.queue ≤ q.capacity
  pub ring_size : length q.ring ≡ q.capacity

length-slots : (n : ℕ) → length (slots n) ≡ n
length-slots zero = refl
length-slots (suc n) = ap suc (length-slots n)

-- A new queue satisfies the invariant.
pub new_task_queue-Inv :
    (capacity : ℕ) (handlers : List String) → Inv (new_task_queue capacity handlers)
unfolding new_task_queue
new_task_queue-Inv capacity handlers = record {
  idx_small = omega arith;
  bounded = omega arith;
  ring_size = length-slots capacity;
}

abbrev pub InvPush : TaskQueue × Push → Type 0
InvPush (q, r) = Inv q

accept : Task → TaskQueue → List (Option Task) → Outcome (TaskQueue × Push)
accept t q ring = put_ring t ring >>= λ r. returns (enqueue t q r)

next_idx_small : (i : ℕ) → i ≤ 255 → next_idx i ≤ 254
unfolding next_idx
next_idx_small i h = ground arith

accept-Inv :
    (t : Task) (q : TaskQueue) (ring : List (Option Task))
    → can_send q ≡ true
    → t.idx ≤ 255
    → Inv q
    → length ring ≡ q.capacity
    → OnReturn InvPush (accept t q ring)
unfolding accept put_ring can_send
accept-Inv t q [] send h v e = tt
accept-Inv t q (_ ∷ r) send h v e = record {
  idx_small = next_idx_small t.idx h;
  bounded = ground (arith, length-append q.queue (t ∷ []));
  ring_size = omega (arith, length-append r (some t ∷ []), e);
}

commit-Inv : (t : Task) (q : TaskQueue) → t.idx ≤ 255 → Inv q → OnReturn InvPush (commit t q)
unfolding commit accept
commit-Inv t q h v = elim (Bool-cases (can_send q)) [
  | inl send ↦ rw (send) (accept-Inv t q q.ring send h v v.ring_size)
  | inr full ↦ rw full v
]

prepare_idx :
    (subj : String) (args : List Bytes) (q : TaskQueue) (t : Task)
    → Inv q
    → prepare subj args q ≡ some t
    → (t.idx ≡ q.idx + 1) × (t.idx ≤ 255)
unfolding prepare
prepare_idx subj args q t v e = ground arith

push_async-some :
    (subj : String) (args : List Bytes) (q : TaskQueue) (t : Task)
    → prepare subj args q ≡ some t
    → push_async subj args q ≡ commit t q
unfolding push_async
push_async-some subj args q t e = rw (e, push_async)

push_async-none :
    (subj : String) (args : List Bytes) (q : TaskQueue)
    → prepare subj args q ≡ none
    → push_async subj args q ≡ returns (q, undefined_subject)
unfolding push_async
push_async-none subj args q e = rw (e, push_async)

pub push_async-Inv :
    (subj : String) (args : List Bytes) (q : TaskQueue)
    → Inv q
    → OnReturn InvPush (push_async subj args q)
push_async-Inv subj args q v = elim (Option-cases (prepare subj args q)) [
  | inl e ↦ rw (push_async-none subj args q e) v
  | inr (t, e) ↦
      rw (push_async-some subj args q t e) (commit-Inv t q (prepare_idx subj args q t v e).1 v)
]

receive-Inv : (q : TaskQueue) → Inv q → Inv (receive q)
unfolding receive
receive-Inv q v = ground arith

finish-Inv : (handler : Task → Option String) (q : TaskQueue) → Inv q → Inv (finish handler q)
unfolding finish
finish-Inv handler q v = ground arith

accept_total :
    (t : Task) (q : TaskQueue) (ring : List (Option Task))
    → 0 < length ring
    → (r : TaskQueue × Push) × (accept t q ring ≡ returns r)
unfolding accept put_ring
accept_total t q [] h = absurd (omega arith)
accept_total t q (_ ∷ r) h = (_, refl)

commit_total :
    (t : Task) (q : TaskQueue)
    → Inv q
    → 0 < q.capacity
    → (r : TaskQueue × Push) × (commit t q ≡ returns r)
unfolding commit accept
commit_total t q v h = elim (Bool-cases (can_send q)) [
  | inl send ↦ rw send (accept_total t q q.ring (omega (arith, v.ring_size)))
  | inr full ↦ rw full (_, refl)
]

push_async_total :
    (subj : String) (args : List Bytes) (q : TaskQueue)
    → Inv q
    → 0 < q.capacity
    → (r : TaskQueue × Push) × (push_async subj args q ≡ returns r)
push_async_total subj args q v h = elim (Option-cases (prepare subj args q)) [
  | inl e ↦ (_, push_async-none subj args q e)
  | inr (t, e) ↦ rw (push_async-some subj args q t e) (commit_total t q v h)
]

-- The states of a queue that NewTaskQueue made, through any calls of PushAsync that return and any
-- moves of the worker.
pub data Reached (capacity : ℕ) (handlers : List String) : TaskQueue → Type 0 where
  made : Reached capacity handlers (new_task_queue capacity handlers)
  pushed :
      (subj : String) (args : List Bytes) (q : TaskQueue) (r : TaskQueue × Push)
      → Reached capacity handlers q
      → push_async subj args q ≡ returns r
      → Reached capacity handlers r.0
  received : (q : TaskQueue) → Reached capacity handlers q → Reached capacity handlers (receive q)
  finished :
      (handler : Task → Option String) (q : TaskQueue)
      → Reached capacity handlers q
      → Reached capacity handlers (finish handler q)

capacity-put :
    (t : Task) (q : TaskQueue) (ring : List (Option Task))
    → OnReturn (λ r. r.0.capacity ≡ q.capacity) (accept t q ring)
unfolding accept put_ring
capacity-put t q [] = tt
capacity-put t q (_ ∷ r) = refl

capacity-push_async :
    (subj : String) (args : List Bytes) (q : TaskQueue)
    → OnReturn (λ r. r.0.capacity ≡ q.capacity) (push_async subj args q)
unfolding commit accept
capacity-push_async subj args q = elim (Option-cases (prepare subj args q)) [
  | inl e ↦ rw (push_async-none subj args q e) refl
  | inr (t, e) ↦ rw (push_async-some subj args q t e) (elim (Bool-cases (can_send q)) [
    | inl send ↦ rw send (capacity-put t q q.ring)
    | inr full ↦ rw full refl
  ])
]

pub Reached-Kept :
    (capacity : ℕ) (handlers : List String) (q : TaskQueue)
    → Reached capacity handlers q
    → Inv q × (q.capacity ≡ capacity)
unfolding new_task_queue receive finish
Reached-Kept capacity handlers _ made = (new_task_queue-Inv capacity handlers, refl)
Reached-Kept capacity handlers _ (pushed subj args q r h e) =
    let (v, c) = Reached-Kept capacity handlers q h in
    (
      subst (OnReturn InvPush) e (push_async-Inv subj args q v),
      subst (OnReturn (λ r. r.0.capacity ≡ q.capacity)) e (capacity-push_async subj args q) ∙ c,
    )
Reached-Kept capacity handlers _ (received q h) =
    let (v, c) = Reached-Kept capacity handlers q h in (receive-Inv q v, ground arith)
Reached-Kept capacity handlers _ (finished handler q h) =
    let (v, c) = Reached-Kept capacity handlers q h in (finish-Inv handler q v, ground arith)

-- On a queue that NewTaskQueue made with a capacity above 0, after any calls of PushAsync that
-- returned and any moves of the worker, PushAsync returns, and after it, whatever it answers, the
-- index is at most 254, the channel is within its capacity and the ring has as many slots.
pub push_async-keeps :
    (capacity : ℕ) (handlers : List String) (subj : String) (args : List Bytes) (q : TaskQueue)
    → 0 < capacity
    → Reached capacity handlers q
    → (r : TaskQueue × Push) × (push_async subj args q ≡ returns r) × Inv r.0
push_async-keeps capacity handlers subj args q h reached =
    let (v, c) = Reached-Kept capacity handlers q reached in
    let (r, e) = push_async_total subj args q v (omega (arith, c)) in
    (r, e, subst (OnReturn InvPush) e (push_async-Inv subj args q v))

nil_of_length {ℓ} : {A : Type ℓ} (xs : List A) → length xs ≡ 0 → xs ≡ []
nil_of_length [] h = refl
nil_of_length (x ∷ xs) h = absurd (omega arith)

-- With capacity 0 a task that the waiting worker could take makes PushAsync panic: the ring is nil.
pub zero_capacity_panics :
    (subj : String) (args : List Bytes) (q : TaskQueue) (t : Task)
    → Inv q
    → q.capacity ≡ 0
    → q.busy ≡ none
    → prepare subj args q ≡ some t
    → push_async subj args q ≡ panics
unfolding commit can_send put_ring
zero_capacity_panics subj args q t v c idle e =
    push_async-some subj args q t e ∙ blocked (nil_of_length q.ring (omega (arith, v.ring_size)))
  where
    blocked : q.ring ≡ [] → commit t q ≡ panics
    blocked h = ground (arith, nil_of_length q.queue (omega (arith, v.bounded)))
