-- ===== src/Platform/MessageLoop/Tasks.antt =====
-- ecs/platform/message_loop/message_loop.h and message_loop.cpp: `PostTask`, `PostTaskP` and the
-- loop inside `Run` that calls the tasks.
use engi_cs.Base.{
  ℕ, zero, suc, ◌+◌, ◌<◌, ◌≤◌, inl, inr, ◌≡◌, refl, ap, Bool, Option, none, some, List, [], ◌∷◌,
  ◌++◌, if◌then◌else◌, count, count-append, Option-cases, Bool-cases, arith,
}
use engi_cs.ErrorCode.{queue_full}
use engi_cs.Pool.WorkerLoop.{Result, succeeded, unexpected}

abbrev pub total : (ℕ → ℕ) → List ℕ → ℕ
total w [] = 0
total w (x ∷ xs) = w x + total w xs

-- `moodycamel::ConcurrentQueue<Task*>` with no other thread at work: a task that is dequeued is any
-- of those that are in the queue, and there is one if there are any.
pub record LoopQueue : Type 1 where
  pub Queue : Type 0
  pub items : Queue → List ℕ
  pub enqueue : Queue → ℕ → Option Queue  -- `none` where it returns false
  pub try_dequeue : Queue → Option (ℕ × Queue)  -- `none` where it returns false
  pub enqueue_lem :
      (q : Queue) (x : ℕ) (r : Queue) → enqueue q x ≡ some r → items r ≡ items q ++ (x ∷ [])
  pub try_dequeue_none : (q : Queue) → try_dequeue q ≡ none → items q ≡ []
  pub try_dequeue_some :
      (q : Queue) (x : ℕ) (r : Queue)
      → try_dequeue q ≡ some (x, r)
      → (xs ys : List ℕ) × (items q ≡ xs ++ (x ∷ ys)) × (items r ≡ xs ++ ys)

-- What tasks do: whether a task returns or throws, and the tasks that it makes and posts. A task
-- weighs more than those that it posts together, so that no task starts an endless chain.
pub record Behaviour : Type 0 where
  pub returns : ℕ → Bool
  pub posts : ℕ → List ℕ
  pub weight : ℕ → ℕ
  pub posts_lighter : (x : ℕ) → total weight (posts x) < weight x

module _ (queues : LoopQueue) where
  open queues use {Queue, enqueue}

  -- The queue, and what has happened: tasks that `PostTaskP` took and refused, tasks that were
  -- called, and tasks that were destroyed.
  pub record Tasks : Type 0 where
    pub queue : Queue
    pub accepted : List ℕ
    pub refused : List ℕ
    pub called : List ℕ
    pub destroyed : List ℕ

  unfoldable pub post_task_p : Tasks → ℕ → Result × Tasks
  post_task_p s task = elim (enqueue s.queue task) [
    | none ↦ (unexpected queue_full, record s { refused = task ∷ s.refused })
    | some q ↦ (succeeded, record s { queue = q; accepted = task ∷ s.accepted })
  ]

  abbrev pub destroy : ℕ → Tasks → Tasks
  destroy task s = record s { destroyed = task ∷ s.destroyed }

  abbrev after_post : ℕ → Result × Tasks → Result × Tasks
  after_post task (succeeded, s) = (succeeded, s)
  after_post task (unexpected code, s) = (unexpected code, destroy task s)

  unfoldable pub post_task : Tasks → ℕ → Result × Tasks
  unfolding post_task_p
  post_task s task = after_post task (post_task_p s task)

  unfoldable pub post_each : Tasks → List ℕ → Tasks
  post_each s [] = s
  post_each s (x ∷ xs) = post_each (post_task s x).1 xs

module _ (queues : LoopQueue) (tasks : Behaviour) where
  open queues use {items, try_dequeue, enqueue, enqueue_lem, try_dequeue_none, try_dequeue_some}
  open tasks use {returns, posts, weight, posts_lighter}

  -- A task is called; only if it returns it is destroyed.
  unfoldable pub work : ℕ → Tasks queues → Tasks queues
  work task s =
      let s' = post_each queues (record s { called = task ∷ s.called }) (posts task) in
      if returns task then destroy queues task s' else s'

  -- The inner loop of `Run`; `none` means that the fuel ran out.
  unfoldable pub drain : ℕ → Tasks queues → Option (Tasks queues)
  drain zero s = none
  drain (suc n) s = elim (try_dequeue s.queue) [
    | none ↦ some s
    | some (task, q) ↦ drain n (work task (record s { queue = q }))
  ]

  -- Each task that was taken is in the queue or was called, and those are destroyed that were
  -- refused or returned.
  abbrev pub IsBalanced : Tasks queues → Type 0
  IsBalanced s =
      (x : ℕ)
      → (count x s.accepted ≡ count x (items s.queue) + count x s.called)
        × (count x s.destroyed ≡ count x s.refused + (if returns x then count x s.called else 0))

  total-append : (xs ys : List ℕ) → total weight (xs ++ ys) ≡ total weight xs + total weight ys
  total-append [] ys = omega arith
  total-append (x ∷ xs) ys = omega (arith, total-append xs ys)

  -- What posting leaves of the counts and of the weight in the queue.
  abbrev Posted : Tasks queues → ℕ → Tasks queues → Type 0
  Posted s added s' =
      ((x : ℕ)
        → (count x s'.accepted + count x (items s.queue)
            ≡ count x s.accepted + count x (items s'.queue))
          × (count x s'.destroyed + count x s.refused ≡ count x s.destroyed + count x s'.refused)
          × (count x s'.called ≡ count x s.called))
      × (total weight (items s'.queue) ≤ total weight (items s.queue) + added)

  post_task_lem : (s : Tasks queues) (task : ℕ) → Posted s (weight task) (post_task queues s task).1
  unfolding post_task post_task_p
  post_task_lem s task = elim (Option-cases (enqueue s.queue task)) [
    | inl e ↦ rw (e, post_task_p) (λ x. (refl, omega arith, refl), omega arith)
    | inr (q, e) ↦
        rw (e, post_task_p)
          (
            λ x. (
              omega (
                arith,
                ap (λ l. count x l) (enqueue_lem s.queue task q e),
                count-append x (items s.queue) (task ∷ []),
              ),
              refl,
              refl,
            ),
            omega (
              arith,
              ap (λ l. total weight l) (enqueue_lem s.queue task q e),
              total-append (items s.queue) (task ∷ []),
            ),
          )
  ]

  post_each_lem :
      (s : Tasks queues) (xs : List ℕ) → Posted s (total weight xs) (post_each queues s xs)
  unfolding post_each
  post_each_lem s [] = (λ x. (refl, refl, refl), omega arith)
  post_each_lem s (task ∷ xs) =
      let first = post_task_lem s task in
      let rest = post_each_lem (post_task queues s task).1 xs in
      (
        λ x.
            let (a, d, c) = first.0 x in
            let (a', d', c') = rest.0 x in (omega arith, omega arith, omega arith),
        omega (arith, first.1, rest.1),
      )

  dequeued :
      (s : Tasks queues) (task : ℕ) (q : LoopQueue.Queue queues)
      → try_dequeue s.queue ≡ some (task, q)
      → ((x : ℕ) → count x (items s.queue) ≡ count x (task ∷ items q))
        × (total weight (items s.queue) ≡ weight task + total weight (items q))
  dequeued s task q e =
      let (xs, ys, before, after) = try_dequeue_some s.queue task q e in
      (
        λ x.
            rw (before, after) (omega (arith, count-append x xs (task ∷ ys), count-append x xs ys)),
        rw (before, after) (omega (arith, total-append xs (task ∷ ys), total-append xs ys)),
      )

  work_queue :
      (task : ℕ) (s : Tasks queues)
      → (work task s).queue
        ≡ (post_each queues (record s { called = task ∷ s.called }) (posts task)).queue
  unfolding work
  work_queue task s = ground arith

  work_lem :
      (task : ℕ) (s : Tasks queues) (q : LoopQueue.Queue queues)
      → try_dequeue s.queue ≡ some (task, q)
      → IsBalanced s
      → let s' = work task (record s { queue = q }) in
        IsBalanced s' × (total weight (items s'.queue) < total weight (items s.queue))
  unfolding work
  work_lem task s q e h =
      let called : Tasks queues = record s { queue = q; called = task ∷ s.called } in
      let posted = post_each_lem called (posts task) in
      let (one_less, weight_less) = dequeued s task q e in
      (
        λ x.
            let (a, d, c) = posted.0 x in
            let (taken, gone) = h x in
            elim (Bool-cases (returns task)) [
              | inl p ↦ rw p (ground (arith, one_less x, p), ground (arith, p))
              | inr p ↦ rw p (ground (arith, one_less x, p), ground (arith, p))
            ],
        rw (work_queue task (record s { queue = q }))
            (omega (arith, posted.1, posts_lighter task, weight_less)),
      )

  -- The inner loop of `Run` ends if the tasks in the queue weigh less than its fuel, whatever they
  -- post and whether they return or throw. The queue is then empty, and if at the start every task
  -- that was taken was called or in the queue, and those destroyed that were refused or returned,
  -- then at the end every task that was taken, those posted meanwhile included, was called as often
  -- as it was taken; a task that returns was destroyed after each call, and one that throws only
  -- where it was refused.
  pub drain_ends :
      (fuel : ℕ) (s : Tasks queues)
      → IsBalanced s
      → total weight (items s.queue) < fuel
      → (s' : Tasks queues) × (drain fuel s ≡ some s')
        × (items s'.queue ≡ [])
        × ((x : ℕ)
            → (count x s'.called ≡ count x s'.accepted)
              × (count x s'.destroyed
                  ≡ count x s'.refused + (if returns x then count x s'.accepted else 0)))
  unfolding drain
  drain_ends zero s h less = absurd (omega arith)
  drain_ends (suc n) s h less = elim (Option-cases (try_dequeue s.queue)) [
    | inl e ↦
        let empty = try_dequeue_none s.queue e in
        (
          s,
          rw (e, drain) refl,
          empty,
          λ x.
              let all_called : count x s.called ≡ count x s.accepted =
                omega (arith, (h x).0, ap (λ l. count x l) empty) in
              (all_called, rw (← all_called) (h x).1),
        )
    | inr ((task, q), e) ↦
        let (h', lighter) = work_lem task s q e h in
        let (s', eq, empty, all) =
          drain_ends n (work task (record s { queue = q })) h' (omega arith) in
        (s', rw (e, drain) eq, empty, all)
  ]

  -- The same as an invariant of the loop.
  pub drain-IsBalanced :
      (fuel : ℕ) (s : Tasks queues)
      → IsBalanced s
      → total weight (items s.queue) < fuel
      → (s' : Tasks queues) × (drain fuel s ≡ some s') × (items s'.queue ≡ []) × IsBalanced s'
  drain-IsBalanced fuel s h less =
      let (s', eq, empty, all) = drain_ends fuel s h less in
      (
        s',
        eq,
        empty,
        λ x. (omega (arith, (all x).0, ap (λ l. count x l) empty), rw (all x).0 (all x).1),
      )
