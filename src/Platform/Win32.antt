-- ===== src/Platform/Win32.antt =====
-- What the code takes from the Windows headers and from the processor, none of which is in the
-- repository: message numbers, virtual keys, the macros on message parameters, the user data of a
-- window, and `float`.

use engi_cs.Base.{ℕ, ◌%◌, ◌^◌, ◌≡◌, ◌<◌, Bool}

pub data Wm : Type 0 where
  null close size move set_focus kill_focus mouse_move : Wm
  l_button_down r_button_down m_button_down x_button_down : Wm
  l_button_up r_button_up m_button_up x_button_up : Wm
  mouse_wheel mouse_h_wheel key_down key_up char : Wm

pub data Vk : Type 0 where
  back tab return escape space left up right down prior next end home insert delete : Vk
  f1 f2 f3 f4 f5 f6 f7 f8 f9 f10 f11 f12 : Vk
  numpad0 numpad1 numpad2 numpad3 numpad4 numpad5 numpad6 numpad7 numpad8 numpad9 : Vk
  add subtract multiply divide decimal shift control menu : Vk

-- The documented virtual-key codes.
unfoldable pub documented_vk : Vk → ℕ
documented_vk back = 0x8
documented_vk tab = 0x9
documented_vk return = 0xd
documented_vk escape = 0x1b
documented_vk space = 0x20
documented_vk left = 0x25
documented_vk up = 0x26
documented_vk right = 0x27
documented_vk down = 0x28
documented_vk prior = 0x21
documented_vk next = 0x22
documented_vk end = 0x23
documented_vk home = 0x24
documented_vk insert = 0x2d
documented_vk delete = 0x2e
documented_vk f1 = 0x70
documented_vk f2 = 0x71
documented_vk f3 = 0x72
documented_vk f4 = 0x73
documented_vk f5 = 0x74
documented_vk f6 = 0x75
documented_vk f7 = 0x76
documented_vk f8 = 0x77
documented_vk f9 = 0x78
documented_vk f10 = 0x79
documented_vk f11 = 0x7a
documented_vk f12 = 0x7b
documented_vk numpad0 = 0x60
documented_vk numpad1 = 0x61
documented_vk numpad2 = 0x62
documented_vk numpad3 = 0x63
documented_vk numpad4 = 0x64
documented_vk numpad5 = 0x65
documented_vk numpad6 = 0x66
documented_vk numpad7 = 0x67
documented_vk numpad8 = 0x68
documented_vk numpad9 = 0x69
documented_vk add = 0x6b
documented_vk subtract = 0x6d
documented_vk multiply = 0x6a
documented_vk divide = 0x6f
documented_vk decimal = 0x6e
documented_vk shift = 0x10
documented_vk control = 0x11
documented_vk menu = 0x12

pub record Win32 : Type 1 where
  pub wm : Wm → ℕ
  pub wm_injective : (a b : Wm) → wm a ≡ wm b → a ≡ b
  pub vk : Vk → ℕ
  pub vk_documented : (k : Vk) → vk k ≡ documented_vk k
  pub loword : ℕ → ℕ
  pub hiword : ℕ → ℕ
  pub makelong : ℕ → ℕ → ℕ
  pub loword-makelong : (a b : ℕ) → loword (makelong a b) ≡ a % 2 ^ 16
  pub hiword-makelong : (a b : ℕ) → hiword (makelong a b) ≡ b % 2 ^ 16
  pub makewparam : ℕ → ℕ → ℕ
  pub hiword-makewparam : (a b : ℕ) → hiword (makewparam a b) ≡ b % 2 ^ 16
  pub xbutton1 : ℕ
  pub xbutton2 : ℕ
  pub xbutton1_word : xbutton1 % 2 ^ 16 ≡ xbutton1
  pub xbutton2_word : xbutton2 % 2 ^ 16 ≡ xbutton2
  pub xbuttons_differ : xbutton1 ≡ xbutton2 → ⊥
  -- `GetWindowLongPtrW(hwnd, GWLP_USERDATA)` and `IWindow::NativeHandle`
  pub user_data : ℕ → ℕ
  pub native_handle : ℕ → ℕ
  -- `float`: that of a `short`, given by its 16-bit pattern, and the low word of its `LONG`
  pub Float : Type 0
  pub zero_float : Float
  pub is_zero : Float → Bool
  pub negate : Float → Float
  pub of_short : ℕ → Float
  pub long_word : Float → ℕ
  pub long_word-of_short : (w : ℕ) → w < 2 ^ 16 → long_word (of_short w) ≡ w
  -- division and multiplication by `WHEEL_DELTA`
  pub wheel_of_short : ℕ → Float
  pub short_of_wheel : Float → ℕ
