-- ===== src/Platform/MessageLoop/Tests.antt =====
-- The message loop at concrete inputs: two listeners and a handler for one type of event, one
-- listener for another. Maps are functions, and the queue of tasks is a list.
use engi_cs.Base.{
  ℕ, ◌+◌, ◌≡◌, ◌<◌, refl, true, not, Option, none, some, List, [], ◌∷◌, ◌++◌, ◌==◌, inr, ◌↔◌,
  if◌then◌else◌, count, arith,
}
use mathlib.Core.Option
use engi_cs.Platform.Events.{Msg}
use engi_cs.Platform.MessageLoop.FunctionMaps.{function_maps}
use engi_cs.Platform.MessageLoop.Schedulers.{
  EventTypes, Function, Scheduler, Call, handled, listened, schedule_dispatch,
}
use engi_cs.Platform.MessageLoop.{
  Loop, Action, listen, handle, receive, new_loop, native_msg, index_each, dispatch, act, run, on,
  handle_by,
}
use engi_cs.Platform.MessageLoop.Invariant.{IsIndexed, new_loop-IsIndexed}
use engi_cs.Platform.MessageLoop.History.{
  listeners, handler, listeners_of, handler_of, run_remembers,
}
use engi_cs.Platform.MessageLoop.Calls.{Hears, listeners_called}
use engi_cs.Platform.MessageLoop.Window.{Windows, Answer, window_proc, window_proc_lem}
use engi_cs.Platform.MessageLoop.Tasks.{
  LoopQueue, Behaviour, Tasks, total, drain, IsBalanced, drain_ends,
}
use engi_cs.Platform.MessageLoop.Run.{Running, run_loop, run_ends}

-- Two types of events: their converters read `wparam`, and both name the message 5.
abbrev number_types : EventTypes
number_types = record {
  Event = λ t. ℕ;
  converter = λ t. record {
    from_native = λ m. m.wparam + t;
    to_native = λ e m. m;
    native_msg = 5 ∷ (t + 6) ∷ [];
  };
  handle = λ id state t e. (not (e == 7), state + 1);
}

abbrev first : Function
first = record { id = 1; state = 0 }

abbrev second : Function
second = record { id = 2; state = 0 }

abbrev refuser : Function
refuser = record { id = 9; state = 0 }

abbrev seven : Msg
seven = record { hwnd = 1; message = 5; wparam = 7; lparam = 0 }

abbrev history : List (Action number_types function_maps)
history =
    listen 0 first ∷ receive seven 5 ∷ handle 0 refuser ∷ listen 1 first ∷ listen 0 second ∷ []

listeners_called_example :
    Hears number_types function_maps history seven 5 0
      (listened 0 first 7 ∷ listened 0 second 7 ∷ [])
unfolding listeners_of native_msg
listeners_called_example = listeners_called number_types function_maps history seven 5 0 refl

run_remembers_example :
    (r : Loop number_types function_maps × List (Call number_types)) × (run number_types
        function_maps
        (new_loop number_types function_maps)
        history
      ≡ some r)
    × IsIndexed number_types function_maps r.0
    × ((t : ℕ)
        → (listeners (r.0.storage t) ≡ listeners_of number_types function_maps t history)
          × (handler (r.0.storage t) ≡ handler_of number_types function_maps t history none))
run_remembers_example = run_remembers number_types function_maps history

five_once : (u : ℕ) → count 5 (native_msg number_types function_maps u) ≡ 1
unfolding native_msg
five_once u = ground arith

window_proc_lem_example :
    (before : Loop number_types function_maps × List (Call number_types)) × (after : Answer
      × Loop number_types function_maps
      × List (Call number_types))
    × (run number_types function_maps (new_loop number_types function_maps) history ≡ some before)
    × (window_proc number_types function_maps before.0 seven ≡ some after)
    × ((after.0 ≡ Answer.def_window_proc) ↔ (
        (u : ℕ) (s : Scheduler)
        → before.0.storage u ≡ some s
        → count 5 (native_msg number_types function_maps u) ≡ 1
        → (schedule_dispatch number_types u s seven).0 ≡ true))
window_proc_lem_example =
    window_proc_lem number_types function_maps history seven (λ u. inr (five_once u))

-- After the history the handler refuses the message, and all three listeners hear of it.
refused :
    let as' = history ++ (receive seven 5 ∷ []) in
    Option.map (λ r. r.1) (run number_types function_maps (new_loop number_types function_maps) as')
    ≡ some (
        listened 0 first 7
        ∷ handled 0 refuser 7
        ∷ listened 0 first 7
        ∷ listened 0 second 7
        ∷ listened 1 first 8
        ∷ [])
unfolding run act on handle_by dispatch native_msg index_each
refused = refl

-- A queue of tasks as a list. Task 1 posts 2 and 3, and task 2 throws.
abbrev split : List ℕ → Option (ℕ × List ℕ)
split [] = none
split (x ∷ xs) = some (x, xs)

split-none : (q : List ℕ) → split q ≡ none → q ≡ []
split-none [] e = refl
split-none (x ∷ xs) e = cc

split-some :
    (q : List ℕ) (x : ℕ) (r : List ℕ)
    → split q ≡ some (x, r)
    → (xs ys : List ℕ) × (q ≡ xs ++ (x ∷ ys)) × (r ≡ xs ++ ys)
split-some [] x r e = cc
split-some (y ∷ ys) x r e = ([], ys, ground arith, ground arith)

appended : (q : List ℕ) (x : ℕ) (r : List ℕ) → some (q ++ (x ∷ [])) ≡ some r → r ≡ q ++ (x ∷ [])
appended q x r e = ground arith

abbrev list_queue : LoopQueue
list_queue = record {
  Queue = List ℕ;
  items = λ q. q;
  enqueue = λ q x. some (q ++ (x ∷ []));
  try_dequeue = split;
  enqueue_lem = appended;
  try_dequeue_none = split-none;
  try_dequeue_some = split-some;
}

abbrev posts : ℕ → List ℕ
posts x = if x == 1 then 2 ∷ 3 ∷ [] else []

abbrev weight : ℕ → ℕ
weight x = if x == 1 then 3 else 1

lighter : (x : ℕ) → total weight (posts x) < weight x
lighter x = ground arith

abbrev three_tasks : Behaviour
three_tasks = record {
  returns = λ x. not (x == 2);
  posts = posts;
  weight = weight;
  posts_lighter = lighter;
}

abbrev one_posted : Tasks list_queue
one_posted = record { queue = 1 ∷ []; accepted = 1 ∷ []; refused = []; called = []; destroyed = [] }

one_posted-IsBalanced : IsBalanced list_queue three_tasks one_posted
one_posted-IsBalanced x = (omega arith, ground arith)

drain_ends_example :
    (s' : Tasks list_queue) × (drain list_queue three_tasks 4 one_posted ≡ some s')
    × (s'.queue ≡ [])
    × ((x : ℕ)
        → (count x s'.called ≡ count x s'.accepted)
          × (count x s'.destroyed
              ≡ count x s'.refused + (if not (x == 2) then count x s'.accepted else 0)))
drain_ends_example =
    drain_ends list_queue three_tasks 4 one_posted one_posted-IsBalanced (omega arith)

-- Windows with a list of what `PeekMessage` finds.
abbrev peek : List (Option Msg) → Option Msg × List (Option Msg)
peek [] = (none, [])
peek (m ∷ ms) = (m, ms)

abbrev listed : Windows
listed = record {
  System = List (Option Msg);
  post_message = λ sys m. some (sys ++ (some m ∷ []));
  last_error = λ sys. 0;
  peek_message = peek;
  to_window = λ m. m.hwnd == 1;
  wm_quit = 0x12;
  wm_quit_not_null = refl;
}

abbrev quit : Msg
quit = record { hwnd = 0; message = 0x12; wparam = 0; lparam = 0 }

abbrev started : Running number_types function_maps listed list_queue three_tasks
started = record {
  loop = new_loop number_types function_maps;
  system = some seven ∷ none ∷ some quit ∷ [];
  work = one_posted;
  calls = [];
}

run_ends_example :
    (r' : Running number_types function_maps listed list_queue three_tasks) × (run_loop number_types
        function_maps listed list_queue three_tasks 3 4 started
      ≡ some r')
    × (◌≡◌ {A = ℕ} 2 0 → r'.work ≡ one_posted)
    × (0 < 2 → r'.work.queue ≡ [])
    × IsBalanced list_queue three_tasks r'.work
run_ends_example =
    run_ends number_types function_maps listed list_queue three_tasks 3 4 2 started
      (new_loop-IsIndexed number_types function_maps) one_posted-IsBalanced (refl, (refl, refl))
      (omega arith) (omega arith)
