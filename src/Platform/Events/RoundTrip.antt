-- ===== src/Platform/Events/RoundTrip.antt =====
-- ecs/platform/win32/event_loop/event_converter.cpp: an event that is written into a message and
-- read back from it.
use engi_cs.Base.{ℕ, ◌%◌, ◌^◌, ◌≡◌, ◌≢◌, ◌<◌, refl, ap, ◌∙◌, ◌⊎◌, inl, inr, arith}
use engi_cs.Base.Int.{ℤ, pos, negsuc, short_of_word, word_of_int}
use engi_cs.Platform.Win32.{Wm, Win32}
use engi_cs.Platform.Events.{Msg, EventConverter}
use engi_cs.Platform.Events.Window.{resize_converter, move_converter}
use engi_cs.Platform.Events.Mouse.{
  MouseButton, button_of, message_of, wparam_of, mouse_press_converter, mouse_release_converter,
}

-- What a `short` holds.
unfoldable pub IsShort : ℤ → Type 0
IsShort (pos n) = n < 2 ^ 15
IsShort (negsuc n) = n < 2 ^ 15

word_short : (x : ℤ) → IsShort x → short_of_word (word_of_int x % 2 ^ 16) ≡ x
unfolding IsShort
word_short (pos n) h = ground arith
word_short (negsuc n) h = ground arith

word_word : {w : ℕ} → w < 2 ^ 16 → w % 2 ^ 16 % 2 ^ 16 ≡ w
word_word h = omega arith

module _ (win : Win32) where
  open win use {
    wm, wm_injective, loword, hiword, makelong, makewparam, loword-makelong, hiword-makelong,
    hiword-makewparam, xbutton1, xbutton2, xbutton1_word, xbutton2_word, xbuttons_differ, user_data,
    native_handle, Float, of_short, long_word, long_word-of_short,
  }

  low_short :
      {x : ℤ} (y : ℤ)
      → IsShort x
      → short_of_word (loword (makelong (word_of_int x) (word_of_int y))) ≡ x
  low_short {x} y h = ap short_of_word (loword-makelong _ _) ∙ word_short x h

  high_short :
      {y : ℤ} (x : ℤ)
      → IsShort y
      → short_of_word (hiword (makelong (word_of_int x) (word_of_int y))) ≡ y
  high_short {y} x h = ap short_of_word (hiword-makelong _ _) ∙ word_short y h

  low_float :
      {x : ℕ} (y : Float)
      → x < 2 ^ 16
      → of_short (loword (makelong (long_word (of_short x)) (long_word y))) ≡ of_short x
  low_float {x} y h =
      ap of_short (loword-makelong _ _) ∙ rw (long_word-of_short x h) (ap of_short (omega arith))

  high_float :
      {y : ℕ} (x : Float)
      → y < 2 ^ 16
      → of_short (hiword (makelong (long_word x) (long_word (of_short y)))) ≡ of_short y
  high_float {y} x h =
      ap of_short (hiword-makelong _ _) ∙ rw (long_word-of_short y h) (ap of_short (omega arith))

  -- A resize event that is written into any message is read back, if its window is the user data
  -- of the window's handle and its size fits in 16 bits.
  pub resize_round_trip :
      (window w h : ℕ) (m : Msg)
      → user_data (native_handle window) ≡ window
      → w < 2 ^ 16
      → h < 2 ^ 16
      → EventConverter.from_native (resize_converter win) (
          EventConverter.to_native
            (resize_converter win)
            (record { base = record { window = window }; width = pos w; height = pos h })
            m)
        ≡ record { base = record { window = window }; width = pos w; height = pos h }
  unfolding resize_converter
  resize_round_trip window w h m eq hw hh = λ i. record {
    base = record { window = eq i };
    width = pos ((loword-makelong (w % 2 ^ 16) (h % 2 ^ 16) ∙ word_word hw) i);
    height = pos ((hiword-makelong (w % 2 ^ 16) (h % 2 ^ 16) ∙ word_word hh) i);
  }

  -- A move event that is written into any message is read back, if its window is the user data of
  -- the window's handle and its position is a pair of `short`.
  pub move_round_trip :
      (window : ℕ) (x y : ℤ) (m : Msg)
      → user_data (native_handle window) ≡ window
      → IsShort x
      → IsShort y
      → EventConverter.from_native (move_converter win) (
          EventConverter.to_native
            (move_converter win)
            (record { base = record { window = window }; x = x; y = y })
            m)
        ≡ record { base = record { window = window }; x = x; y = y }
  unfolding move_converter
  move_round_trip window x y m eq hx hy =
      λ i. record { base = record { window = eq i }; x = low_short y hx i; y = high_short x hy i }

  -- The button that is read back, by the messages of the left, right, middle and extra buttons.
  button_lem :
      (l r mid x : Wm) (b : MouseButton) (m : Msg)
      → wm r ≢ wm l
      → wm mid ≢ wm l
      → wm mid ≢ wm r
      → wm x ≢ wm l
      → wm x ≢ wm r
      → wm x ≢ wm mid
      → m.message ≡ message_of win l r mid x b
      → (hiword m.wparam ≡ xbutton1) ⊎ (b ≢ MouseButton.x1)
      → (hiword m.wparam ≡ xbutton2) ⊎ (b ≢ MouseButton.x2)
      → button_of win l r mid x m ≡ b
  button_lem l r mid x MouseButton.left m rl ml mr xl xr xm e e1 e2 = ground arith
  button_lem l r mid x MouseButton.right m rl ml mr xl xr xm e e1 e2 = ground arith
  button_lem l r mid x MouseButton.middle m rl ml mr xl xr xm e e1 e2 = ground arith
  button_lem l r mid x MouseButton.x1 m rl ml mr xl xr xm e e1 e2 = ground arith
  button_lem l r mid x MouseButton.x2 m rl ml mr xl xr xm e e1 e2 = ground (arith, xbuttons_differ)

  wm_differ : {a b : Wm} → a ≢ b → wm a ≢ wm b
  wm_differ h e = h (wm_injective _ _ e)

  x1_word :
      (b : MouseButton) (w : ℕ) → (hiword (wparam_of win b w) ≡ xbutton1) ⊎ (b ≢ MouseButton.x1)
  x1_word MouseButton.x1 w = inl (hiword-makewparam 0 xbutton1 ∙ xbutton1_word)
  x1_word MouseButton.left w = inr (ground arith)
  x1_word MouseButton.right w = inr (ground arith)
  x1_word MouseButton.middle w = inr (ground arith)
  x1_word MouseButton.x2 w = inr (ground arith)

  x2_word :
      (b : MouseButton) (w : ℕ) → (hiword (wparam_of win b w) ≡ xbutton2) ⊎ (b ≢ MouseButton.x2)
  x2_word MouseButton.x2 w = inl (hiword-makewparam 0 xbutton2 ∙ xbutton2_word)
  x2_word MouseButton.left w = inr (ground arith)
  x2_word MouseButton.right w = inr (ground arith)
  x2_word MouseButton.middle w = inr (ground arith)
  x2_word MouseButton.x1 w = inr (ground arith)

  -- A press of any of the five buttons is read back, whatever message it is written into, if its
  -- window is the user data of the window's handle: the button, and the position, which is a pair of
  -- `short` made `float`.
  pub mouse_press_round_trip :
      (window : ℕ) (b : MouseButton) (x y : ℕ) (m : Msg)
      → user_data (native_handle window) ≡ window
      → x < 2 ^ 16
      → y < 2 ^ 16
      → EventConverter.from_native (mouse_press_converter win) (
          EventConverter.to_native
            (mouse_press_converter win)
            (record {
              base = record { window = window };
              button = b;
              x = of_short x;
              y = of_short y;
            })
            m)
        ≡ record { base = record { window = window }; button = b; x = of_short x; y = of_short y }
  unfolding mouse_press_converter
  mouse_press_round_trip window b x y m eq hx hy = λ i. record {
    base = record { window = eq i };
    button =
        button_lem Wm.l_button_down Wm.r_button_down Wm.m_button_down Wm.x_button_down b
          (EventConverter.to_native (mouse_press_converter win)
            (record {
              base = record { window = window };
              button = b;
              x = of_short x;
              y = of_short y;
            })
            m)
          (wm_differ (ground arith)) (wm_differ (ground arith)) (wm_differ (ground arith))
          (wm_differ (ground arith)) (wm_differ (ground arith)) (wm_differ (ground arith)) refl
          (x1_word b m.wparam) (x2_word b m.wparam) i;
    x = low_float (of_short y) hx i;
    y = high_float (of_short x) hy i;
  }

  -- A release of any of the five buttons is read back, whatever message it is written into, if its
  -- window is the user data of the window's handle: the button, and the position, which is a pair of
  -- `short` made `float`.
  pub mouse_release_round_trip :
      (window : ℕ) (b : MouseButton) (x y : ℕ) (m : Msg)
      → user_data (native_handle window) ≡ window
      → x < 2 ^ 16
      → y < 2 ^ 16
      → EventConverter.from_native (mouse_release_converter win) (
          EventConverter.to_native
            (mouse_release_converter win)
            (record {
              base = record { window = window };
              button = b;
              x = of_short x;
              y = of_short y;
            })
            m)
        ≡ record { base = record { window = window }; button = b; x = of_short x; y = of_short y }
  unfolding mouse_release_converter
  mouse_release_round_trip window b x y m eq hx hy = λ i. record {
    base = record { window = eq i };
    button =
        button_lem Wm.l_button_up Wm.r_button_up Wm.m_button_up Wm.x_button_up b
          (EventConverter.to_native (mouse_release_converter win)
            (record {
              base = record { window = window };
              button = b;
              x = of_short x;
              y = of_short y;
            })
            m)
          (wm_differ (ground arith)) (wm_differ (ground arith)) (wm_differ (ground arith))
          (wm_differ (ground arith)) (wm_differ (ground arith)) (wm_differ (ground arith)) refl
          (x1_word b m.wparam) (x2_word b m.wparam) i;
    x = low_float (of_short y) hx i;
    y = high_float (of_short x) hy i;
  }
