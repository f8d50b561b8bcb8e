-- ===== src/Platform/Events/KeyTrip.antt =====
-- ecs/platform/win32/event_loop/event_converter.cpp: the event of a key that is written into a
-- message and read back from it, and the numbers that `Key` and Windows give to one key.
use mathlib.Core.Path.{fun_ext}
use engi_cs.Base.{ℕ, ◌%◌, ◌^◌, ◌≡◌, ◌<◌, refl, ap, ◌∙◌, Bool, ◌||◌, if◌then◌else◌, arith}
use engi_cs.Platform.Win32.{Vk, Win32, documented_vk}
use engi_cs.Platform.Key.{Key, key_value, key_from_wparam}
use engi_cs.Platform.Events.{Msg, EventConverter}
use engi_cs.Platform.Events.Keyboard.{has_bit30, set_bit30, key_press_converter, key_char_converter}

-- The key that a message with a key's own number stands for.
unfoldable pub read_back : Key → Key
read_back Key.numpad_add = Key.numpad_multiply
read_back Key.numpad_subtract = Key.numpad_add
read_back Key.numpad_divide = Key.numpad_subtract
read_back Key.numpad_enter = Key.numpad_divide
read_back k = k

documented_key : (k : Key) → key_from_wparam documented_vk (key_value k) ≡ key_value (read_back k)
unfolding key_from_wparam documented_vk key_value read_back
documented_key Key.backspace = refl
documented_key Key.tab = refl
documented_key Key.enter = refl
documented_key Key.escape = refl
documented_key Key.space = refl
documented_key Key.left = refl
documented_key Key.up = refl
documented_key Key.right = refl
documented_key Key.down = refl
documented_key Key.f1 = refl
documented_key Key.f2 = refl
documented_key Key.f3 = refl
documented_key Key.f4 = refl
documented_key Key.f5 = refl
documented_key Key.f6 = refl
documented_key Key.f7 = refl
documented_key Key.f8 = refl
documented_key Key.f9 = refl
documented_key Key.f10 = refl
documented_key Key.f11 = refl
documented_key Key.f12 = refl
documented_key Key.page_up = refl
documented_key Key.page_down = refl
documented_key Key.end = refl
documented_key Key.home = refl
documented_key Key.insert = refl
documented_key Key.delete = refl
documented_key Key.numpad0 = refl
documented_key Key.numpad1 = refl
documented_key Key.numpad2 = refl
documented_key Key.numpad3 = refl
documented_key Key.numpad4 = refl
documented_key Key.numpad5 = refl
documented_key Key.numpad6 = refl
documented_key Key.numpad7 = refl
documented_key Key.numpad8 = refl
documented_key Key.numpad9 = refl
documented_key Key.numpad_add = refl
documented_key Key.numpad_subtract = refl
documented_key Key.numpad_multiply = refl
documented_key Key.numpad_divide = refl
documented_key Key.numpad_decimal = refl
documented_key Key.numpad_enter = refl
documented_key Key.l_shift = refl
documented_key Key.r_shift = refl
documented_key Key.l_control = refl
documented_key Key.r_control = refl
documented_key Key.l_alt = refl
documented_key Key.r_alt = refl
documented_key Key.l_system = refl
documented_key Key.r_system = refl

key_lem :
    {vk : Vk → ℕ}
    → ((v : Vk) → vk v ≡ documented_vk v)
    → (k : Key) → key_from_wparam vk (key_value k) ≡ key_value (read_back k)
key_lem h k = ap (λ vk. key_from_wparam vk (key_value k)) (fun_ext h) ∙ documented_key k

bit30_set : (l : ℕ) (b : Bool) → has_bit30 (if b then set_bit30 l else l) ≡ (b || has_bit30 l)
bit30_set l b = ground arith

word32_lem : {c : ℕ} → c < 2 ^ 32 → c % 2 ^ 32 ≡ c
word32_lem h = omega arith

module _ (win : Win32) where
  open win use {vk, vk_documented, user_data, native_handle}

  -- A press of a key that is written into a message `m` is read back, if its window is the user data
  -- of the window's handle, with the key of `read_back`, which differs for four keys of the number
  -- pad, and as a repeat if it was one or if bit 30 of `m`'s `lParam` was set.
  pub key_press_reads_back :
      (window : ℕ) (k : Key) (again : Bool) (m : Msg)
      → user_data (native_handle window) ≡ window
      → EventConverter.from_native (key_press_converter win) (
          EventConverter.to_native
            (key_press_converter win)
            (record {
              base = record { window = window };
              key_code = key_value k;
              is_repeat = again;
            })
            m)
        ≡ record {
          base = record { window = window };
          key_code = key_value (read_back k);
          is_repeat = again || has_bit30 m.lparam;
        }
  unfolding key_press_converter
  key_press_reads_back window k again m eq = λ i. record {
    base = record { window = eq i };
    key_code = key_lem vk_documented k i;
    is_repeat = bit30_set m.lparam again i;
  }

  -- A character of 32 bits that is written into any message is read back, if its window is the user
  -- data of the window's handle.
  pub key_char_round_trip :
      (window c : ℕ) (m : Msg)
      → user_data (native_handle window) ≡ window
      → c < 2 ^ 32
      → EventConverter.from_native (key_char_converter win) (
          EventConverter.to_native
            (key_char_converter win)
            (record { base = record { window = window }; character = c })
            m)
        ≡ record { base = record { window = window }; character = c }
  unfolding key_char_converter
  key_char_round_trip window c m eq h =
      λ i. record { base = record { window = eq i }; character = word32_lem h i }
