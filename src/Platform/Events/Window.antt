-- ===== src/Platform/Events/Window.antt =====
-- ecs/platform/win32/event_loop/event_converter.cpp: the converters of the events of a window.
use engi_cs.Base.{[], ◌∷◌}
use engi_cs.Base.Int.{ℤ, pos, short_of_word, word_of_int}
use engi_cs.Platform.Win32.{Wm, Win32}
use engi_cs.Platform.Events.{Msg, EventBase, EventConverter, base_from_native, base_to_native}

pub record CloseEvent : Type 0 where
  pub base : EventBase

pub record ResizeEvent : Type 0 where
  pub base : EventBase
  pub width : ℤ
  pub height : ℤ

pub record MoveEvent : Type 0 where
  pub base : EventBase
  pub x : ℤ
  pub y : ℤ

pub record FocusEvent : Type 0 where
  pub base : EventBase

pub record LostFocusEvent : Type 0 where
  pub base : EventBase

module _ (win : Win32) where
  open win use {wm, loword, hiword, makelong}

  abbrev close_to_native : CloseEvent → Msg → Msg
  close_to_native e m =
      let n = base_to_native win e.base m in
      record { hwnd = n.hwnd; message = wm Wm.close; wparam = n.wparam; lparam = n.lparam }

  unfoldable pub close_converter : EventConverter CloseEvent
  close_converter = record {
    from_native = λ m. record { base = base_from_native win m };
    to_native = close_to_native;
    native_msg = wm Wm.close ∷ [];
  }

  abbrev resize_from_native : Msg → ResizeEvent
  resize_from_native m = record {
    base = base_from_native win m;
    width = pos (loword m.lparam);
    height = pos (hiword m.lparam);
  }

  abbrev resize_to_native : ResizeEvent → Msg → Msg
  resize_to_native e m =
      let n = base_to_native win e.base m in
      record {
        hwnd = n.hwnd;
        message = wm Wm.size;
        wparam = n.wparam;
        lparam = makelong (word_of_int e.width) (word_of_int e.height);
      }

  unfoldable pub resize_converter : EventConverter ResizeEvent
  resize_converter = record {
    from_native = resize_from_native;
    to_native = resize_to_native;
    native_msg = wm Wm.size ∷ [];
  }

  abbrev move_from_native : Msg → MoveEvent
  move_from_native m = record {
    base = base_from_native win m;
    x = short_of_word (loword m.lparam);
    y = short_of_word (hiword m.lparam);
  }

  abbrev move_to_native : MoveEvent → Msg → Msg
  move_to_native e m =
      let n = base_to_native win e.base m in
      record {
        hwnd = n.hwnd;
        message = wm Wm.move;
        wparam = n.wparam;
        lparam = makelong (word_of_int e.x) (word_of_int e.y);
      }

  unfoldable pub move_converter : EventConverter MoveEvent
  move_converter = record {
    from_native = move_from_native;
    to_native = move_to_native;
    native_msg = wm Wm.move ∷ [];
  }

  abbrev focus_to_native : FocusEvent → Msg → Msg
  focus_to_native e m =
      let n = base_to_native win e.base m in
      record { hwnd = n.hwnd; message = wm Wm.set_focus; wparam = n.wparam; lparam = 0 }

  unfoldable pub focus_converter : EventConverter FocusEvent
  focus_converter = record {
    from_native = λ m. record { base = base_from_native win m };
    to_native = focus_to_native;
    native_msg = wm Wm.set_focus ∷ [];
  }

  abbrev lost_focus_to_native : LostFocusEvent → Msg → Msg
  lost_focus_to_native e m =
      let n = base_to_native win e.base m in
      record { hwnd = n.hwnd; message = wm Wm.kill_focus; wparam = n.wparam; lparam = 0 }

  unfoldable pub lost_focus_converter : EventConverter LostFocusEvent
  lost_focus_converter = record {
    from_native = λ m. record { base = base_from_native win m };
    to_native = lost_focus_to_native;
    native_msg = wm Wm.kill_focus ∷ [];
  }
