-- ===== src/Platform/Tests.antt =====
-- Messages at concrete inputs, with the documented numbers of Windows: `float` is a 16-bit pattern,
-- and a window is its own handle.
use engi_cs.Base.{
  Bool, List, [], ◌∷◌, ℕ, ◌+◌, ◌-◌, ◌*◌, ◌/◌, ◌%◌, ◌^◌, ◌≡◌, refl, true, false, ◌||◌, ◌==◌, arith,
}
use engi_cs.Base.Int.{pos, negsuc}
use engi_cs.Platform.Win32.{Wm, Win32, documented_vk}
use engi_cs.Platform.Key.{Key, key_value}
use engi_cs.Platform.Events.{Msg, EventBase, EventConverter}
use engi_cs.Platform.Events.Mouse.{
  MouseButton, MousePressEvent, MouseWheelEvent, mouse_press_converter, mouse_wheel_converter,
}
use engi_cs.Platform.Events.Keyboard.{has_bit30, key_press_converter}
use engi_cs.Platform.Events.RoundTrip.{IsShort}
use engi_cs.Platform.Events.KeyTrip.{read_back, key_press_reads_back}
use engi_cs.Platform.MessageLoop.FunctionMaps.{function_maps}
use engi_cs.Platform.MessageLoop.Schedulers.{listened}
use engi_cs.Platform.MessageLoop.{Action, listen}
use engi_cs.Platform.MessageLoop.History.{listeners_of}
use engi_cs.Platform.MessageLoop.Calls.{Hears}
use engi_cs.Platform.MessageLoop.Posted.{
  mouse_press, mouse_wheel, converted, win32_types, press_delivered, vertical_unheard,
}

abbrev numbers : Wm → ℕ
numbers Wm.null = 0x0
numbers Wm.close = 0x10
numbers Wm.size = 0x5
numbers Wm.move = 0x3
numbers Wm.set_focus = 0x7
numbers Wm.kill_focus = 0x8
numbers Wm.mouse_move = 0x200
numbers Wm.l_button_down = 0x201
numbers Wm.r_button_down = 0x204
numbers Wm.m_button_down = 0x207
numbers Wm.x_button_down = 0x20b
numbers Wm.l_button_up = 0x202
numbers Wm.r_button_up = 0x205
numbers Wm.m_button_up = 0x208
numbers Wm.x_button_up = 0x20c
numbers Wm.mouse_wheel = 0x20a
numbers Wm.mouse_h_wheel = 0x20e
numbers Wm.key_down = 0x100
numbers Wm.key_up = 0x101
numbers Wm.char = 0x102

numbers_injective : (a b : Wm) → numbers a ≡ numbers b → a ≡ b
numbers_injective a b h = ground arith

abbrev low : ℕ → ℕ
low n = n % 2 ^ 16

abbrev high : ℕ → ℕ
high n = n / 2 ^ 16 % 2 ^ 16

abbrev make : ℕ → ℕ → ℕ
make a b = a % 2 ^ 16 + b % 2 ^ 16 * 2 ^ 16

low-make : (a b : ℕ) → low (make a b) ≡ a % 2 ^ 16
low-make a b = omega arith

high-make : (a b : ℕ) → high (make a b) ≡ b % 2 ^ 16
high-make a b = omega arith

one_two : ◌≡◌ {A = ℕ} 1 2 → ⊥
one_two h = omega arith

abbrev windows : Win32
windows = record {
  wm = numbers;
  wm_injective = numbers_injective;
  vk = documented_vk;
  vk_documented = λ k. refl;
  loword = low;
  hiword = high;
  makelong = make;
  loword-makelong = low-make;
  hiword-makelong = high-make;
  makewparam = make;
  hiword-makewparam = high-make;
  xbutton1 = 1;
  xbutton2 = 2;
  xbutton1_word = refl;
  xbutton2_word = refl;
  xbuttons_differ = one_two;
  user_data = λ h. h;
  native_handle = λ w. w;
  Float = ℕ;
  zero_float = 0;
  is_zero = λ x. x == 0;
  negate = λ x. (2 ^ 16 - x) % 2 ^ 16;
  of_short = λ w. w;
  long_word = λ x. x;
  long_word-of_short = λ w h. refl;
  wheel_of_short = λ w. w;
  short_of_wheel = λ x. x;
}

-- a message with other contents, and a window
abbrev used : Msg
used = record { hwnd = 9; message = 0x201; wparam = 1; lparam = 2 ^ 30 + 5 }

abbrev main_window : EventBase
main_window = record { window = 3 }

left_of : IsShort (negsuc 7)
unfolding IsShort
left_of = omega arith

below : IsShort (pos 12)
unfolding IsShort
below = omega arith

-- a press of `+` on the number pad, into a message that had bit 30 set
key_press_reads_back_example :
    EventConverter.from_native (key_press_converter windows) (
      EventConverter.to_native
        (key_press_converter windows)
        (record { base = main_window; key_code = key_value Key.numpad_add; is_repeat = false })
        used)
    ≡ record {
      base = main_window;
      key_code = key_value (read_back Key.numpad_add);
      is_repeat = false || has_bit30 used.lparam;
    }
key_press_reads_back_example = key_press_reads_back windows 3 Key.numpad_add false used refl

added_multiplies : key_value (read_back Key.numpad_add) ≡ key_value Key.numpad_multiply
unfolding read_back
added_multiplies = refl

-- a vertical scroll
abbrev scroll : MouseWheelEvent windows
scroll = record { base = main_window; delta_x = 0; delta_y = 120; x = 4; y = 5 }

abbrev accepting : (id state t : ℕ) → (converted windows t).0 → Bool × ℕ
accepting id state t event = (true, state)

abbrev two_listeners : List (Action (win32_types windows accepting) function_maps)
two_listeners =
    listen mouse_press (record { id = 1; state = 0 })
    ∷ listen mouse_wheel (record { id = 2; state = 0 })
    ∷ listen mouse_press (record { id = 3; state = 0 })
    ∷ []

press_delivered_example :
    let event : MousePressEvent windows = record {
      base = main_window;
      button = MouseButton.x2;
      x = 40;
      y = 50;
    } in
    let posted = EventConverter.to_native (mouse_press_converter windows) event used in
    Hears
      (win32_types windows accepting)
      function_maps
      two_listeners
      posted
      posted.message
      mouse_press
      (listened mouse_press (record { id = 1; state = 0 }) event
        ∷ listened mouse_press (record { id = 3; state = 0 }) event
        ∷ [])
unfolding listeners_of
press_delivered_example =
    press_delivered windows accepting function_maps two_listeners used 3 MouseButton.x2 40 50 refl
      (omega arith) (omega arith)

abbrev vertical : MouseWheelEvent windows
vertical = record { base = main_window; delta_x = 0; delta_y = 1; x = 40; y = 50 }

vertical_unheard_run :
    let posted = EventConverter.to_native (mouse_wheel_converter windows) vertical used in
    Hears
      (win32_types windows accepting)
      function_maps
      two_listeners
      posted
      posted.message
      mouse_wheel
      []
vertical_unheard_run =
    vertical_unheard windows accepting function_maps two_listeners used vertical refl
