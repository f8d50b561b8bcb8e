-- ===== src/Platform/Events/Mouse.antt =====
-- ecs/platform/win32/event_loop/event_converter.cpp: the converters of the events of the mouse.
use engi_cs.Base.{ℕ, [], ◌∷◌, ◌==◌, if◌then◌else◌}
use engi_cs.Platform.Win32.{Wm, Win32}
use engi_cs.Platform.Events.{Msg, EventBase, EventConverter, base_from_native, base_to_native}

pub data MouseButton : Type 0 where
  left right middle x1 x2 : MouseButton

module _ (win : Win32) where
  open win use {
    wm, loword, hiword, makelong, makewparam, xbutton1, xbutton2, Float, zero_float, is_zero,
    negate, of_short, long_word, wheel_of_short, short_of_wheel,
  }

  pub record MouseMoveEvent : Type 0 where
    pub base : EventBase
    pub x : Float
    pub y : Float

  pub record MousePressEvent : Type 0 where
    pub base : EventBase
    pub button : MouseButton
    pub x : Float
    pub y : Float

  pub record MouseReleaseEvent : Type 0 where
    pub base : EventBase
    pub button : MouseButton
    pub x : Float
    pub y : Float

  pub record MouseWheelEvent : Type 0 where
    pub base : EventBase
    pub delta_x : Float
    pub delta_y : Float
    pub x : Float
    pub y : Float

  abbrev mouse_move_from_native : Msg → MouseMoveEvent
  mouse_move_from_native m = record {
    base = base_from_native win m;
    x = of_short (loword m.lparam);
    y = of_short (hiword m.lparam);
  }

  abbrev mouse_move_to_native : MouseMoveEvent → Msg → Msg
  mouse_move_to_native e m =
      let n = base_to_native win e.base m in
      record {
        hwnd = n.hwnd;
        message = wm Wm.mouse_move;
        wparam = n.wparam;
        lparam = makelong (long_word e.x) (long_word e.y);
      }

  unfoldable pub mouse_move_converter : EventConverter MouseMoveEvent
  mouse_move_converter = record {
    from_native = mouse_move_from_native;
    to_native = mouse_move_to_native;
    native_msg = wm Wm.mouse_move ∷ [];
  }

  -- The switch on the message: of the left, the right, the middle and the extra buttons.
  abbrev pub button_of : Wm → Wm → Wm → Wm → Msg → MouseButton
  button_of l r mid x m =
      if m.message == wm l
      then MouseButton.left
      else if m.message == wm r
      then MouseButton.right
      else if m.message == wm mid
      then MouseButton.middle
      else if m.message == wm x
      then if hiword m.wparam == xbutton1 then MouseButton.x1 else MouseButton.x2
      else MouseButton.left

  -- The switch on the button, with the message numbers in the same order, and what it writes to
  -- `message` and `wParam`.
  abbrev pub message_of : Wm → Wm → Wm → Wm → MouseButton → ℕ
  message_of l r mid x MouseButton.left = wm l
  message_of l r mid x MouseButton.right = wm r
  message_of l r mid x MouseButton.middle = wm mid
  message_of l r mid x MouseButton.x1 = wm x
  message_of l r mid x MouseButton.x2 = wm x

  abbrev pub wparam_of : MouseButton → ℕ → ℕ
  wparam_of MouseButton.x1 w = makewparam 0 xbutton1
  wparam_of MouseButton.x2 w = makewparam 0 xbutton2
  wparam_of _ w = w

  abbrev mouse_press_from_native : Msg → MousePressEvent
  mouse_press_from_native m = record {
    base = base_from_native win m;
    button = button_of Wm.l_button_down Wm.r_button_down Wm.m_button_down Wm.x_button_down m;
    x = of_short (loword m.lparam);
    y = of_short (hiword m.lparam);
  }

  abbrev mouse_press_to_native : MousePressEvent → Msg → Msg
  mouse_press_to_native e m =
      let n = base_to_native win e.base m in
      record {
        hwnd = n.hwnd;
        message =
            message_of Wm.l_button_down Wm.r_button_down Wm.m_button_down Wm.x_button_down e.button;
        wparam = wparam_of e.button n.wparam;
        lparam = makelong (long_word e.x) (long_word e.y);
      }

  unfoldable pub mouse_press_converter : EventConverter MousePressEvent
  mouse_press_converter = record {
    from_native = mouse_press_from_native;
    to_native = mouse_press_to_native;
    native_msg =
        wm Wm.l_button_down ∷ wm Wm.r_button_down ∷ wm Wm.m_button_down ∷ wm Wm.x_button_down ∷ [];
  }

  abbrev mouse_release_from_native : Msg → MouseReleaseEvent
  mouse_release_from_native m = record {
    base = base_from_native win m;
    button = button_of Wm.l_button_up Wm.r_button_up Wm.m_button_up Wm.x_button_up m;
    x = of_short (loword m.lparam);
    y = of_short (hiword m.lparam);
  }

  abbrev mouse_release_to_native : MouseReleaseEvent → Msg → Msg
  mouse_release_to_native e m =
      let n = base_to_native win e.base m in
      record {
        hwnd = n.hwnd;
        message = message_of Wm.l_button_up Wm.r_button_up Wm.m_button_up Wm.x_button_up e.button;
        wparam = wparam_of e.button n.wparam;
        lparam = makelong (long_word e.x) (long_word e.y);
      }

  unfoldable pub mouse_release_converter : EventConverter MouseReleaseEvent
  mouse_release_converter = record {
    from_native = mouse_release_from_native;
    to_native = mouse_release_to_native;
    native_msg = wm Wm.l_button_up ∷ wm Wm.r_button_up ∷ wm Wm.m_button_up ∷ wm Wm.x_button_up ∷ [];
  }

  abbrev mouse_wheel_from_native : Msg → MouseWheelEvent
  mouse_wheel_from_native m =
      let delta = wheel_of_short (hiword m.wparam) in
      let horizontal = m.message == wm Wm.mouse_h_wheel in
      record {
        base = base_from_native win m;
        delta_x = if horizontal then negate delta else zero_float;
        delta_y = if horizontal then zero_float else delta;
        x = of_short (loword m.lparam);
        y = of_short (hiword m.lparam);
      }

  abbrev mouse_wheel_to_native : MouseWheelEvent → Msg → Msg
  mouse_wheel_to_native e m =
      let n = base_to_native win e.base m in
      record {
        hwnd = n.hwnd;
        message = if is_zero e.delta_x then wm Wm.mouse_wheel else wm Wm.mouse_h_wheel;
        wparam = makewparam 0 (
            if is_zero e.delta_x
            then short_of_wheel e.delta_y
            else short_of_wheel (negate e.delta_x));
        lparam = makelong (long_word e.x) (long_word e.y);
      }

  unfoldable pub mouse_wheel_converter : EventConverter MouseWheelEvent
  mouse_wheel_converter = record {
    from_native = mouse_wheel_from_native;
    to_native = mouse_wheel_to_native;
    native_msg = wm Wm.mouse_h_wheel ∷ [];
  }
