-- ===== src/Pool/Tests.antt =====
-- The pool over a shared queue of four places, at concrete inputs.
use engi_cs.Base.{
  ℕ, zero, suc, ◌+◌, ◌*◌, ◌≤◌, ◌≡◌, ◌≢◌, refl, false, Option, none, some, List, [], ◌∷◌, ◌++◌,
  length, count, count-append, ltb, if◌then◌else◌, arith, true,
}
use engi_cs.Base.Int.{pos, negsuc}
use engi_cs.Deque.{Wsq}
use engi_cs.Deque.Refine.{IsValid}
use engi_cs.Pool.TaskQueue.{TaskQueue}
use engi_cs.Pool.Asio.{Asio}
use engi_cs.Pool.WorkerLoop
use engi_cs.Pool.WorkerLoop.{
  Result, Worker, spinning, waiting, exited, WorkerLoop, find_task, has_work, pass, shut_down,
}
use engi_cs.Pool.WorkerLoop.Held.{AllValid, Ready, one}
use engi_cs.Pool.WorkerLoop.Conserve.{total, stored, Placed, post_task_conserves}
use engi_cs.Pool.WorkerLoop.Find.{find_task_conserves}
use engi_cs.Pool.WorkerLoop.Wakeup.{passes, Named, shut_down_strands}
use engi_cs.Pool.Config.{thread, is_thread_token}
use engi_cs.Pool.Threadpool.{Threadpool, post_task}
use engi_cs.Pool.Threadpool.Bound.{BoundTo, bind_thread_lem}
use engi_cs.Pool.Threadpool.Copies.{Places, post_task-Places}

abbrev put : List ℕ → ℕ → Option (List ℕ)
put q x = if ltb (length q) 4 then some (q ++ (x ∷ [])) else none

abbrev take_first : List ℕ → Option (ℕ × List ℕ)
take_first [] = none
take_first (x ∷ q) = some (x, q)

put_lem :
    (q : List ℕ) (x : ℕ) {r : List ℕ} → put q x ≡ some r → (y : ℕ) → count y r ≡ count y (x ∷ q)
put_lem q x h y = ground (arith, count-append y q (x ∷ []))

take_first_lem :
    (q : List ℕ) {x : ℕ} {r : List ℕ}
    → take_first q ≡ some (x, r)
    → (y : ℕ) → count y q ≡ count y (x ∷ r)
take_first_lem [] h y = cc
take_first_lem (x ∷ q) h y = ground arith

abbrev list_queue : TaskQueue
list_queue = record {
  Queue = List ℕ;
  items = λ q. q;
  enqueue = put;
  try_dequeue = take_first;
  size_approx = length;
  enqueue_lem = put_lem;
  try_dequeue_lem = take_first_lem;
}

abbrev list_asio : Asio
list_asio = record {
  Context = List ℕ;
  pending = λ c. c;
  post = λ c x. x ∷ c;
  post_lem = λ c x y. refl;
}

abbrev local : List ℕ → ℕ → Wsq
local xs n = record { resource = some 1; buffer = some xs; capacity = 2; top = 0; bottom = n }

abbrev local-IsValid : (x y n : ℕ) → n ≤ 2 → IsValid (local (x ∷ y ∷ []) n)
local-IsValid x y n h = record {
  storage = x ∷ y ∷ [];
  allocated = refl;
  fits = omega arith;
  positive = omega arith;
  ordered = omega arith;
  bounded = omega arith;
  small = omega arith;
}

-- Worker 0 holds task 5 and spins; worker 1 waits with an empty queue.
abbrev loop : WorkerLoop list_queue
loop = record {
  threads = local (5 ∷ 0 ∷ []) 1 ∷ local (0 ∷ 0 ∷ []) 0 ∷ [];
  global = [];
  shutdown = false;
  workers = λ i. elim i [ zero ↦ spinning 0 | suc _ ↦ waiting 128 ];
}

abbrev loop-Ready : Ready loop.threads
loop-Ready = (
  local-IsValid 5 0 1 (omega arith),
  omega arith,
  (local-IsValid 0 0 0 (omega arith), omega arith, tt),
)

abbrev pool : Threadpool list_queue list_asio
pool = record { worker_loop = loop; event_loop = []; thread_nums = 2; ticket = 1 }

post_task_conserves_example :
    (r : Result × WorkerLoop list_queue) × (WorkerLoop.post_task list_queue loop
        (some 0)
        7
        (negsuc 0)
      ≡ some r)
    × AllValid r.1.threads
    × Placed list_queue loop (some 0) 7 r
    × ((y : ℕ) → total list_queue y r.1 ≡ stored r.0 * one y 7 + total list_queue y loop)
post_task_conserves_example = post_task_conserves list_queue loop (some 0) 7 (negsuc 0) loop-Ready

find_task_conserves_example :
    (x : ℕ) × (w : WorkerLoop list_queue) × (find_task list_queue loop 1 (λ _. false) ≡ some (x, w))
    × AllValid w.threads
    × ((y : ℕ) → y ≢ 0 → total list_queue y loop ≡ one y x + total list_queue y w)
find_task_conserves_example =
    find_task_conserves list_queue loop 1 (λ _. false) {q = local (0 ∷ 0 ∷ []) 0} refl loop-Ready

abbrev posted : Result × WorkerLoop list_queue
posted = (WorkerLoop.succeeded, record loop { global = 7 ∷ [] })

shut_down_strands_example :
    (r : WorkerLoop list_queue) × (passes list_queue
        (shut_down list_queue loop)
        ((0, λ _. false) ∷ (1, λ _. false) ∷ [])
      ≡ some r)
    × ((j n : ℕ)
        → loop.workers j ≡ spinning n
        → Named list_queue j ((0, λ _. false) ∷ (1, λ _. false) ∷ [])
        → r.workers j ≡ exited)
    × ((j n : ℕ)
        → loop.workers j ≡ waiting n
        → has_work list_queue loop j ≡ true
        → Named list_queue j ((0, λ _. false) ∷ (1, λ _. false) ∷ [])
        → r.workers j ≡ exited)
    × ((j n : ℕ)
        → loop.workers j ≡ waiting n
        → has_work list_queue loop j ≡ false
        → r.workers j ≡ waiting n)
shut_down_strands_example =
    shut_down_strands list_queue loop ((0, λ _. false) ∷ (1, λ _. false) ∷ []) refl

bind_thread_lem_example :
    (t : ℕ) × (q : Threadpool list_queue list_asio) × BoundTo list_queue list_asio pool none 7
      (thread (negsuc 0))
      t
      q
    × (is_thread_token (thread (negsuc 0)) ≡ true → thread (pos t) ≡ thread (negsuc 0))
    × (is_thread_token (thread (negsuc 0)) ≡ false → t ≤ pool.thread_nums)
bind_thread_lem_example =
    bind_thread_lem list_queue list_asio pool none 7 (thread (negsuc 0)) (omega arith) (omega arith)
      loop-Ready (omega arith)

post_task-Places_example :
    Places list_queue list_asio
      (negsuc 0)
      7
      pool
      (post_task list_queue list_asio pool none 7 (thread (negsuc 0)))
post_task-Places_example =
    post_task-Places list_queue list_asio pool none 7 (thread (negsuc 0)) loop-Ready (omega arith)
