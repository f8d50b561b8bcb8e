-- ===== src/Platform/Events/Keyboard.antt =====
-- ecs/platform/win32/event_loop/event_converter.cpp: the converters of the events of the keyboard.
use engi_cs.Base.{ℕ, ◌+◌, ◌/◌, ◌%◌, ◌^◌, [], ◌∷◌, Bool, ◌==◌, if◌then◌else◌}
use engi_cs.Platform.Win32.{Wm, Win32}
use engi_cs.Platform.Key.{key_from_wparam}
use engi_cs.Platform.Events.{Msg, EventBase, EventConverter, base_from_native, base_to_native}

-- `key_code` is a `uint16_t`, that of an enumerator of `Key` or another.
pub record KeyPressEvent : Type 0 where
  pub base : EventBase
  pub key_code : ℕ
  pub is_repeat : Bool

pub record KeyReleaseEvent : Type 0 where
  pub base : EventBase
  pub key_code : ℕ

pub record KeyCharEvent : Type 0 where
  pub base : EventBase
  pub character : ℕ

abbrev pub has_bit30 : ℕ → Bool
has_bit30 l = (l / 2 ^ 30) % 2 == 1

-- `|= (1 << 30)`
abbrev pub set_bit30 : ℕ → ℕ
set_bit30 l = if has_bit30 l then l else l + 2 ^ 30

module _ (win : Win32) where
  open win use {wm, vk}

  abbrev key_press_from_native : Msg → KeyPressEvent
  key_press_from_native m = record {
    base = base_from_native win m;
    key_code = key_from_wparam vk m.wparam;
    is_repeat = has_bit30 m.lparam;
  }

  abbrev key_press_to_native : KeyPressEvent → Msg → Msg
  key_press_to_native e m =
      let n = base_to_native win e.base m in
      record {
        hwnd = n.hwnd;
        message = wm Wm.key_down;
        wparam = e.key_code;
        lparam = if e.is_repeat then set_bit30 n.lparam else n.lparam;
      }

  unfoldable pub key_press_converter : EventConverter KeyPressEvent
  key_press_converter = record {
    from_native = key_press_from_native;
    to_native = key_press_to_native;
    native_msg = wm Wm.key_down ∷ [];
  }

  abbrev key_release_from_native : Msg → KeyReleaseEvent
  key_release_from_native m = record {
    base = base_from_native win m;
    key_code = key_from_wparam vk m.wparam;
  }

  abbrev key_release_to_native : KeyReleaseEvent → Msg → Msg
  key_release_to_native e m =
      let n = base_to_native win e.base m in
      record { hwnd = n.hwnd; message = wm Wm.key_up; wparam = e.key_code; lparam = n.lparam }

  unfoldable pub key_release_converter : EventConverter KeyReleaseEvent
  key_release_converter = record {
    from_native = key_release_from_native;
    to_native = key_release_to_native;
    native_msg = wm Wm.key_up ∷ [];
  }

  abbrev key_char_from_native : Msg → KeyCharEvent
  key_char_from_native m = record { base = base_from_native win m; character = m.wparam % 2 ^ 32 }

  abbrev key_char_to_native : KeyCharEvent → Msg → Msg
  key_char_to_native e m =
      let n = base_to_native win e.base m in
      record { hwnd = n.hwnd; message = wm Wm.char; wparam = e.character; lparam = n.lparam }

  unfoldable pub key_char_converter : EventConverter KeyCharEvent
  key_char_converter = record {
    from_native = key_char_from_native;
    to_native = key_char_to_native;
    native_msg = wm Wm.char ∷ [];
  }
