-- ===== src/Platform/Key.antt =====
-- `enum class Key` of ecs/platform/message_loop/event.h, and `GetKeyFromWParam` of
-- ecs/platform/win32/event_loop/event_converter.cpp.

use engi_cs.Base.{ℕ, ◌%◌, ◌^◌, Option, none, some, List, [], ◌∷◌, ◌==◌, if◌then◌else◌}
use engi_cs.Platform.Win32.{Vk}

pub data Key : Type 0 where
  backspace tab enter escape space left up right : Key
  down f1 f2 f3 f4 f5 f6 f7 : Key
  f8 f9 f10 f11 f12 page_up page_down end : Key
  home insert delete numpad0 numpad1 numpad2 numpad3 numpad4 : Key
  numpad5 numpad6 numpad7 numpad8 numpad9 numpad_add numpad_subtract numpad_multiply : Key
  numpad_divide numpad_decimal numpad_enter l_shift r_shift l_control r_control l_alt : Key
  r_alt l_system r_system : Key

-- The enumerators' values.
unfoldable pub key_value : Key → ℕ
key_value backspace = 0x8
key_value tab = 0x9
key_value enter = 0xd
key_value escape = 0x1b
key_value space = 0x20
key_value left = 0x25
key_value up = 0x26
key_value right = 0x27
key_value down = 0x28
key_value f1 = 0x70
key_value f2 = 0x71
key_value f3 = 0x72
key_value f4 = 0x73
key_value f5 = 0x74
key_value f6 = 0x75
key_value f7 = 0x76
key_value f8 = 0x77
key_value f9 = 0x78
key_value f10 = 0x79
key_value f11 = 0x7a
key_value f12 = 0x7b
key_value page_up = 0x21
key_value page_down = 0x22
key_value end = 0x23
key_value home = 0x24
key_value insert = 0x2d
key_value delete = 0x2e
key_value numpad0 = 0x60
key_value numpad1 = 0x61
key_value numpad2 = 0x62
key_value numpad3 = 0x63
key_value numpad4 = 0x64
key_value numpad5 = 0x65
key_value numpad6 = 0x66
key_value numpad7 = 0x67
key_value numpad8 = 0x68
key_value numpad9 = 0x69
key_value numpad_add = 0x6a
key_value numpad_subtract = 0x6b
key_value numpad_multiply = 0x6c
key_value numpad_divide = 0x6d
key_value numpad_decimal = 0x6e
key_value numpad_enter = 0x6f
key_value l_shift = 0xa0
key_value r_shift = 0xa1
key_value l_control = 0xa2
key_value r_control = 0xa3
key_value l_alt = 0xa4
key_value r_alt = 0xa5
key_value l_system = 0xa6
key_value r_system = 0xa7

-- The cases of the switch, in order.
abbrev key_cases : List (Vk × Key)
key_cases =
    (Vk.back, backspace)
    ∷ (Vk.tab, tab)
    ∷ (Vk.return, enter)
    ∷ (Vk.escape, escape)
    ∷ (Vk.space, space)
    ∷ (Vk.left, left)
    ∷ (Vk.up, up)
    ∷ (Vk.right, right)
    ∷ (Vk.down, down)
    ∷ (Vk.prior, page_up)
    ∷ (Vk.next, page_down)
    ∷ (Vk.end, end)
    ∷ (Vk.home, home)
    ∷ (Vk.insert, insert)
    ∷ (Vk.delete, delete)
    ∷ (Vk.f1, f1)
    ∷ (Vk.f2, f2)
    ∷ (Vk.f3, f3)
    ∷ (Vk.f4, f4)
    ∷ (Vk.f5, f5)
    ∷ (Vk.f6, f6)
    ∷ (Vk.f7, f7)
    ∷ (Vk.f8, f8)
    ∷ (Vk.f9, f9)
    ∷ (Vk.f10, f10)
    ∷ (Vk.f11, f11)
    ∷ (Vk.f12, f12)
    ∷ (Vk.numpad0, numpad0)
    ∷ (Vk.numpad1, numpad1)
    ∷ (Vk.numpad2, numpad2)
    ∷ (Vk.numpad3, numpad3)
    ∷ (Vk.numpad4, numpad4)
    ∷ (Vk.numpad5, numpad5)
    ∷ (Vk.numpad6, numpad6)
    ∷ (Vk.numpad7, numpad7)
    ∷ (Vk.numpad8, numpad8)
    ∷ (Vk.numpad9, numpad9)
    ∷ (Vk.add, numpad_add)
    ∷ (Vk.subtract, numpad_subtract)
    ∷ (Vk.multiply, numpad_multiply)
    ∷ (Vk.divide, numpad_divide)
    ∷ (Vk.decimal, numpad_decimal)
    ∷ (Vk.shift, l_shift)
    ∷ (Vk.control, l_control)
    ∷ (Vk.menu, l_alt)
    ∷ []

switch : (Vk → ℕ) → List (Vk × Key) → ℕ → Option Key
switch vk [] w = none
switch vk ((v, k) ∷ cases) w = if w == vk v then some k else switch vk cases w

abbrev key_or_cast : ℕ → Option Key → ℕ
key_or_cast w none = w % 2 ^ 16
key_or_cast w (some k) = key_value k

-- A key is its `uint16_t` value, which by the default case may be that of no enumerator.
unfoldable pub key_from_wparam : (Vk → ℕ) → ℕ → ℕ
unfolding switch
key_from_wparam vk w = key_or_cast w (switch vk key_cases w)
