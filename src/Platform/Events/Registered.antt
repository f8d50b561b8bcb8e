-- ===== src/Platform/Events/Registered.antt =====
-- ecs/platform/win32/event_loop/event_converter.cpp: `nativeMsg`, by which the message loop finds
-- the handlers of a message.
use engi_cs.Base.{
  ℕ, ◌≡◌, refl, List, [], ◌∷◌, Bool, true, false, ◌==◌, not, ==_iff, if◌then◌else◌, arith,
}
use engi_cs.Platform.Win32.{Wm, Win32}
use engi_cs.Platform.Events.{Msg, EventConverter, has_message}
use engi_cs.Platform.Events.Window.{
  CloseEvent, ResizeEvent, MoveEvent, FocusEvent, LostFocusEvent, close_converter, resize_converter,
  move_converter, focus_converter, lost_focus_converter,
}
use engi_cs.Platform.Events.Mouse.{
  MouseButton, MouseMoveEvent, MousePressEvent, MouseReleaseEvent, MouseWheelEvent, message_of,
  mouse_move_converter, mouse_press_converter, mouse_release_converter, mouse_wheel_converter,
}
use engi_cs.Platform.Events.Keyboard.{
  KeyPressEvent, KeyReleaseEvent, KeyCharEvent, key_press_converter, key_release_converter,
  key_char_converter,
}

-- Whether the message that an event becomes is one of those that its converter names.
pub registered : {E : Type 0} → EventConverter E → E → Msg → Bool
registered c e m =
    has_message (EventConverter.to_native c e m).message (EventConverter.native_msg c)

self_equal : (n : ℕ) → (n == n) ≡ true
self_equal n = (==_iff n n).1 refl

wm_same : (n : ℕ) (ns : List ℕ) → has_message n (n ∷ ns) ≡ true
wm_same n ns = rw (self_equal n) refl

module _ (win : Win32) where
  open win use {wm, wm_injective, Float, is_zero}

  -- An event of a window or of the keyboard, and a move of the mouse, becomes a message that its
  -- converter names.
  pub events_registered :
      (m : Msg)
      → ((e : CloseEvent) → registered (close_converter win) e m ≡ true)
        × ((e : ResizeEvent) → registered (resize_converter win) e m ≡ true)
        × ((e : MoveEvent) → registered (move_converter win) e m ≡ true)
        × ((e : FocusEvent) → registered (focus_converter win) e m ≡ true)
        × ((e : LostFocusEvent) → registered (lost_focus_converter win) e m ≡ true)
        × ((e : MouseMoveEvent win) → registered (mouse_move_converter win) e m ≡ true)
        × ((e : KeyPressEvent) → registered (key_press_converter win) e m ≡ true)
        × ((e : KeyReleaseEvent) → registered (key_release_converter win) e m ≡ true)
        × ((e : KeyCharEvent) → registered (key_char_converter win) e m ≡ true)
  unfolding registered close_converter resize_converter move_converter focus_converter
      lost_focus_converter mouse_move_converter key_press_converter key_release_converter
      key_char_converter
  events_registered m = (
    λ e. wm_same (wm Wm.close) [],
    λ e. wm_same (wm Wm.size) [],
    λ e. wm_same (wm Wm.move) [],
    λ e. wm_same (wm Wm.set_focus) [],
    λ e. wm_same (wm Wm.kill_focus) [],
    λ e. wm_same (wm Wm.mouse_move) [],
    λ e. wm_same (wm Wm.key_down) [],
    λ e. wm_same (wm Wm.key_up) [],
    λ e. wm_same (wm Wm.char) [],
  )

  button_message :
      (l r mid x : Wm) (b : MouseButton)
      → has_message (message_of win l r mid x b) (wm l ∷ wm r ∷ wm mid ∷ wm x ∷ []) ≡ true
  button_message l r mid x MouseButton.left = ground arith
  button_message l r mid x MouseButton.right = ground arith
  button_message l r mid x MouseButton.middle = ground arith
  button_message l r mid x MouseButton.x1 = ground arith
  button_message l r mid x MouseButton.x2 = ground arith

  -- A press and a release of any button become messages that their converters name.
  pub buttons_registered :
      (m : Msg)
      → ((e : MousePressEvent win) → registered (mouse_press_converter win) e m ≡ true)
        × ((e : MouseReleaseEvent win) → registered (mouse_release_converter win) e m ≡ true)
  unfolding registered mouse_press_converter mouse_release_converter
  buttons_registered m = (
    λ e.
        button_message Wm.l_button_down Wm.r_button_down Wm.m_button_down Wm.x_button_down e.button,
    λ e. button_message Wm.l_button_up Wm.r_button_up Wm.m_button_up Wm.x_button_up e.button,
  )

  wheel_message :
      (b : Bool)
      → has_message
          (if b then wm Wm.mouse_wheel else wm Wm.mouse_h_wheel)
          (wm Wm.mouse_h_wheel ∷ [])
        ≡ not b
  wheel_message true = grind (arith, wm_injective Wm.mouse_wheel Wm.mouse_h_wheel)
  wheel_message false = wm_same (wm Wm.mouse_h_wheel) []

  -- A wheel event becomes a message that its converter names exactly when it has a horizontal
  -- scroll: `WM_MOUSEWHEEL`, the message of a vertical one, is not named.
  pub wheel_registered :
      (m : Msg) (e : MouseWheelEvent win)
      → registered (mouse_wheel_converter win) e m ≡ not (is_zero e.delta_x)
  unfolding registered mouse_wheel_converter
  wheel_registered m e = wheel_message (is_zero e.delta_x)
