-- ===== src/Platform/MessageLoop/Posted.antt =====
-- ecs/platform/message_loop/message_loop.h: `Post` with the converters of
-- ecs/platform/win32/event_loop, and what the listeners make of its message.
use mathlib.Core.Path.{subst}
use engi_cs.Base.{◌≢◌, ℕ, ◌^◌, ◌≡◌, ◌<◌, Bool, true, List, [], ◌∷◌, map, get_or, count, arith}
use engi_cs.Platform.Win32.{Wm, Win32}
use engi_cs.Platform.Events.{Msg, EventBase, EventConverter, base_converter}
use engi_cs.Platform.Events.Window.{
  CloseEvent, ResizeEvent, MoveEvent, FocusEvent, LostFocusEvent, close_converter, resize_converter,
  move_converter, focus_converter, lost_focus_converter,
}
use engi_cs.Platform.Events.Mouse.{
  MouseButton, MouseMoveEvent, MousePressEvent, MouseReleaseEvent, MouseWheelEvent, message_of,
  mouse_move_converter, mouse_press_converter, mouse_release_converter, mouse_wheel_converter,
}
use engi_cs.Platform.Events.Keyboard.{
  KeyPressEvent, KeyReleaseEvent, KeyCharEvent, key_press_converter, key_release_converter,
  key_char_converter,
}
use engi_cs.Platform.Events.RoundTrip.{mouse_press_round_trip}
use engi_cs.Platform.MessageLoop.Containers.{Maps}
use engi_cs.Platform.MessageLoop.Schedulers.{EventTypes, Scheduler, listened}
use engi_cs.Platform.MessageLoop.{Action, native_msg}
use engi_cs.Platform.MessageLoop.History.{listeners_of}
use engi_cs.Platform.MessageLoop.Calls.{Hears, listeners_called, listeners_spared}

-- An event with its converter.
abbrev pub Converted : Type 1
Converted = (Event : Type 0) × EventConverter Event

-- The numbers of the types in the list below.
abbrev pub mouse_press : ℕ
mouse_press = 6

abbrev pub mouse_wheel : ℕ
mouse_wheel = 8

module _ (win : Win32) where
  open win use {wm, wm_injective, user_data, native_handle, Float, of_short, is_zero}

  abbrev pub converted : ℕ → Converted
  converted t =
      get_or
        ((CloseEvent, close_converter win)
          ∷ (ResizeEvent, resize_converter win)
          ∷ (MoveEvent, move_converter win)
          ∷ (FocusEvent, focus_converter win)
          ∷ (LostFocusEvent, lost_focus_converter win)
          ∷ (MouseMoveEvent win, mouse_move_converter win)
          ∷ (MousePressEvent win, mouse_press_converter win)
          ∷ (MouseReleaseEvent win, mouse_release_converter win)
          ∷ (MouseWheelEvent win, mouse_wheel_converter win)
          ∷ (KeyPressEvent, key_press_converter win)
          ∷ (KeyReleaseEvent, key_release_converter win)
          ∷ (KeyCharEvent, key_char_converter win)
          ∷ [])
        t (EventBase, base_converter win)

  -- The types of events of the engine, with what their handlers do.
  abbrev pub win32_types : ((id state t : ℕ) → (converted t).0 → Bool × ℕ) → EventTypes
  win32_types handle = record {
    Event = λ t. (converted t).0;
    converter = λ t. (converted t).1;
    handle = handle;
  }

  -- The message of a button stands once among four different messages.
  button_once :
      (l r mid x : Wm) (b : MouseButton)
      → wm r ≢ wm l
      → wm mid ≢ wm l
      → wm mid ≢ wm r
      → wm x ≢ wm l
      → wm x ≢ wm r
      → wm x ≢ wm mid
      → count (message_of win l r mid x b) (wm l ∷ wm r ∷ wm mid ∷ wm x ∷ []) ≡ 1
  button_once l r mid x MouseButton.left rl ml mr xl xr xm = ground arith
  button_once l r mid x MouseButton.right rl ml mr xl xr xm = ground arith
  button_once l r mid x MouseButton.middle rl ml mr xl xr xm = ground arith
  button_once l r mid x MouseButton.x1 rl ml mr xl xr xm = ground arith
  button_once l r mid x MouseButton.x2 rl ml mr xl xr xm = ground arith

  wm_differ : {a b : Wm} → a ≢ b → wm a ≢ wm b
  wm_differ h e = h (wm_injective _ _ e)

  module _ (handlers : (id state t : ℕ) → (converted t).0 → Bool × ℕ) (maps : Maps Scheduler) where
    abbrev pub types : EventTypes
    types = win32_types handlers

    press_named :
        (e : MousePressEvent win) (m : Msg)
        → count
            (EventConverter.to_native (mouse_press_converter win) e m).message
            (native_msg types maps mouse_press)
          ≡ 1
    unfolding mouse_press_converter native_msg
    press_named e m =
        button_once Wm.l_button_down Wm.r_button_down Wm.m_button_down Wm.x_button_down e.button
          (wm_differ (ground arith)) (wm_differ (ground arith)) (wm_differ (ground arith))
          (wm_differ (ground arith)) (wm_differ (ground arith)) (wm_differ (ground arith))

    -- After any history, the message that `Post` makes of a press of a mouse button, whatever its
    -- buffer held, is heard by every listener for presses, once each and in order, and each is given
    -- the event that was posted, if its window is the user data of the window's handle and its
    -- position is a pair of `short`.
    pub press_delivered :
        (as' : List (Action types maps)) (buffer : Msg) (window : ℕ) (b : MouseButton) (x y : ℕ)
        → user_data (native_handle window) ≡ window
        → x < 2 ^ 16
        → y < 2 ^ 16
        → let event : MousePressEvent win = record {
          base = record { window = window };
          button = b;
          x = of_short x;
          y = of_short y;
        } in
          let posted = EventConverter.to_native (mouse_press_converter win) event buffer in
          Hears types maps as' posted posted.message mouse_press
            (map (λ f. listened mouse_press f event) (listeners_of types maps mouse_press as'))
    press_delivered as' buffer window b x y known hx hy =
        let event : MousePressEvent win = record {
          base = record { window = window };
          button = b;
          x = of_short x;
          y = of_short y;
        } in
        let posted = EventConverter.to_native (mouse_press_converter win) event buffer in
        subst
          (λ (e : MousePressEvent win).
            Hears types maps as' posted posted.message mouse_press
              (map (λ f. listened mouse_press f e) (listeners_of types maps mouse_press as')))
          (mouse_press_round_trip win window b x y buffer known hx hy)
          (listeners_called types maps as' posted posted.message mouse_press
            (press_named event buffer))

    wheel_unnamed :
        (e : MouseWheelEvent win) (m : Msg)
        → is_zero e.delta_x ≡ true
        → count
            (EventConverter.to_native (mouse_wheel_converter win) e m).message
            (native_msg types maps mouse_wheel)
          ≡ 0
    unfolding mouse_wheel_converter native_msg
    wheel_unnamed e m vertical =
        rw vertical (grind (arith, wm_injective Wm.mouse_wheel Wm.mouse_h_wheel))

    -- After any history, the message that `Post` makes of a scroll with no horizontal part, whatever
    -- its buffer held, is heard by none of the listeners for scrolls.
    pub vertical_unheard :
        (as' : List (Action types maps)) (buffer : Msg) (event : MouseWheelEvent win)
        → is_zero event.delta_x ≡ true
        → let posted = EventConverter.to_native (mouse_wheel_converter win) event buffer in
          Hears types maps as' posted posted.message mouse_wheel []
    vertical_unheard as' buffer event vertical =
        let posted = EventConverter.to_native (mouse_wheel_converter win) event buffer in
        listeners_spared types maps as' posted posted.message mouse_wheel
          (wheel_unnamed event buffer vertical)
