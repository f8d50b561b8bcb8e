-- ===== src/Platform/MessageLoop/Window.antt =====
-- ecs/platform/win32/event_loop/message_loop.cpp: messages between Windows and the message loop.
-- The loop is that of the thread, which its constructor has stored; the user data of a window, which
-- `WindowProc` sets at `WM_CREATE`, is a parameter of the converters.
use engi_cs.Base.{
  ℕ, zero, suc, ◌≡◌, refl, ◌↔◌, inl, inr, Bool, true, false, not, Option, none, some, List, [],
  ◌==◌, if◌then◌else◌, count, ◌⊎◌, arith,
}
use engi_cs.Platform.Events.{Msg, EventConverter}
use engi_cs.Platform.MessageLoop.Containers.{Maps}
use engi_cs.Platform.MessageLoop.Schedulers.{EventTypes, Scheduler, Call, schedule_dispatch}
use engi_cs.Platform.MessageLoop.{Loop, Action, new_loop, native_msg, dispatch, run}
use engi_cs.Platform.MessageLoop.Dispatch.{times}
use engi_cs.Platform.MessageLoop.Delivery.{dispatch_lem}
use engi_cs.Platform.MessageLoop.History.{run_remembers}

-- The message queue of Windows. `to_window` says whether a message goes to a window of the engine,
-- so that `DispatchMessage` calls `WindowProc` with it.
pub record Windows : Type 1 where
  pub System : Type 0
  pub post_message : System → Msg → Option System
  pub last_error : System → ℕ
  pub peek_message : System → Option Msg × System
  pub to_window : Msg → Bool
  pub wm_quit : ℕ
  pub wm_quit_not_null : (wm_quit == 0) ≡ false

pub data Sent : Type 0 where
  succeeded : Sent
  system_error : ℕ → Sent

-- Who answers a message: the procedure of Windows, or the engine with `S_OK`.
pub data Answer : Type 0 where
  def_window_proc s_ok : Answer

module _ (windows : Windows) where
  open windows use {System, post_message, last_error}

  unfoldable pub sent_message : System → Msg → Sent × System
  sent_message sys m = elim (post_message sys m) [
    | some sys' ↦ (succeeded, sys')
    | none ↦ (system_error (last_error sys), sys)
  ]

module _ (windows : Windows) (types : EventTypes) where
  open windows use {System}
  open types use {Event, converter}

  -- `buffer` is what the memory of the message held.
  unfoldable pub post : (t : ℕ) → Event t → Msg → System → Sent × System
  unfolding sent_message
  post t event buffer sys =
      sent_message windows sys (EventConverter.to_native (converter t) event buffer)

module _ (types : EventTypes) (maps : Maps Scheduler) where
  unfoldable pub window_proc :
      Loop types maps → Msg → Option (Answer × Loop types maps × List (Call types))
  window_proc l msg = elim (dispatch types maps l msg msg.message) [
    | none ↦ none
    | some (true, l', calls) ↦ some (def_window_proc, l', calls)
    | some (false, l', calls) ↦ some (s_ok, l', calls)
  ]

  -- `PoolEvent`, and the calls that it makes. With no message `msg` keeps its zeros. What
  -- `TranslateMessage` does is left to the system.
  unfoldable pub pool_event :
      (windows : Windows)
      → Loop types maps × Windows.System windows
      → Option (Bool × (Loop types maps × Windows.System windows) × List (Call types))
  unfolding window_proc
  pool_event windows (l, sys) =
      let (peeked, sys') = Windows.peek_message windows sys in
      elim peeked [
        | none ↦ some (not (0 == Windows.wm_quit windows), (l, sys'), [])
        | some msg ↦
            let goes_on = not (msg.message == Windows.wm_quit windows) in
            if Windows.to_window windows msg
            then elim (window_proc l msg) [
              | none ↦ none
              | some (answer, l', calls) ↦ some (goes_on, (l', sys'), calls)
            ]
            else some (goes_on, (l, sys'), [])
      ]

  open maps use {find}

  pub answered :
      (l : Loop types maps) (msg : Msg) (r : Bool × Loop types maps × List (Call types))
      → dispatch types maps l msg msg.message ≡ some r
      → (after : Answer × Loop types maps × List (Call types)) × (window_proc l msg ≡ some after)
        × (after.1 ≡ r.1)
        × ((after.0 ≡ def_window_proc) ↔ (r.0 ≡ true))
  unfolding window_proc
  answered l msg (true, l', calls) e =
      ((def_window_proc, l', calls), rw (e, window_proc) refl, refl, (λ p. refl, λ p. refl))
  answered l msg (false, l', calls) e =
      ((s_ok, l', calls), rw (e, window_proc) refl, refl, (λ p. cc, λ p. cc))

  accepts_once :
      (n u : ℕ) (s : Scheduler) (msg : Msg)
      → (n ≡ 0) ⊎ (n ≡ 1)
      → ((times types n u s msg).0 ≡ true) ↔ (n ≡ 1 → (schedule_dispatch types u s msg).0 ≡ true)
  unfolding times
  accepts_once zero u s msg at_most = (λ p one. absurd (omega arith), λ p. refl)
  accepts_once (suc zero) u s msg at_most = (λ p one. ground arith, λ p. ground (arith, p refl))
  accepts_once (suc (suc n)) u s msg (inl e) = absurd (omega arith)
  accepts_once (suc (suc n)) u s msg (inr e) = absurd (omega arith)

  -- After any history, a message is answered, and by the procedure of Windows exactly if every
  -- scheduler accepts it whose type's converter names it, provided that no converter names a message
  -- twice; a scheduler accepts by the result of its handler, or if it has none.
  pub window_proc_lem :
      (as' : List (Action types maps)) (msg : Msg)
      → ((u : ℕ)
          → (count msg.message (native_msg types maps u) ≡ 0)
            ⊎ (count msg.message (native_msg types maps u) ≡ 1))
      → (before : Loop types maps × List (Call types)) × (after : Answer
          × Loop types maps
          × List (Call types))
        × (run types maps (new_loop types maps) as' ≡ some before)
        × (window_proc before.0 msg ≡ some after)
        × ((after.0 ≡ def_window_proc) ↔ (
            (u : ℕ) (s : Scheduler)
            → find before.0.storage u ≡ some s
            → count msg.message (native_msg types maps u) ≡ 1
            → (schedule_dispatch types u s msg).0 ≡ true))
  window_proc_lem as' msg distinct =
      let (before, ran, indexed, known) = run_remembers types maps as' in
      let (r, eq, (same_index, nothing, something, iff)) =
        dispatch_lem types maps before.0 msg msg.message indexed in
      let (after, procedure, same, by_result) = answered before.0 msg r eq in
      let once = λ (u : ℕ) (s : Scheduler).
        accepts_once (count msg.message (native_msg types maps u)) u s msg (distinct u) in
      (
        before,
        after,
        ran,
        procedure,
        (
          λ p u s e. (once u s).0 (iff.0 (by_result.0 p) u s e),
          λ a. by_result.1 (iff.1 (λ u s e. (once u s).1 (a u s e))),
        ),
      )
