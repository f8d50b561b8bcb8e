-- ===== src/Platform/Events.antt =====
-- ecs/platform/message_loop/event.h (`EventBase`) and ecs/platform/win32/event_loop/: the
-- interface `EventConverter` of an event, and its instance for `EventBase`.
pub mod Window
pub mod Mouse
pub mod Keyboard
pub mod RoundTrip
pub mod KeyTrip
pub mod Registered
use engi_cs.Base.{ℕ, List, [], ◌∷◌, Bool, false, ◌==◌, ◌||◌}
use engi_cs.Platform.Win32.{Wm, Win32}

-- `MSG`, the fields that the converters use. A handle is a number.
pub record Msg : Type 0 where
  pub hwnd : ℕ
  pub message : ℕ
  pub wparam : ℕ
  pub lparam : ℕ

-- `window` is a pointer, as a number.
pub record EventBase : Type 0 where
  pub window : ℕ

-- `to_native` writes into the message that it is given.
pub record EventConverter (Event : Type 0) : Type 0 where
  pub from_native : Msg → Event
  pub to_native : Event → Msg → Msg
  pub native_msg : List ℕ

-- Whether a message's number is one of a list.
abbrev pub has_message : ℕ → List ℕ → Bool
has_message m [] = false
has_message m (n ∷ ns) = m == n || has_message m ns

module _ (win : Win32) where
  open win use {wm, user_data, native_handle}

  abbrev pub base_from_native : Msg → EventBase
  base_from_native m = record { window = user_data m.hwnd }

  abbrev pub base_to_native : EventBase → Msg → Msg
  base_to_native e m = record {
    hwnd = native_handle e.window;
    message = wm Wm.null;
    wparam = m.wparam;
    lparam = m.lparam;
  }

  unfoldable pub base_converter : EventConverter EventBase
  base_converter = record {
    from_native = base_from_native;
    to_native = base_to_native;
    native_msg = wm Wm.null ∷ [];
  }
