-- ===== src/Rhi/Vulkan/SwapChain.antt =====
-- ecs/rhi/vulkan/swap_chain.cpp: what `VkSwapChain::Create` chooses from what a surface offers.
pub mod Choices
use engi_cs.Base.{
  ℕ, ◌+◌, ◌-◌, ◌%◌, ◌^◌, min, max, Bool, true, false, Option, none, some, List, [], ◌∷◌, ltb, ◌==◌,
  ◌&&◌, if◌then◌else◌,
}
use engi_cs.Rhi.Vulkan.Headers.{VkFormat, VkColorSpace, VkPresentMode, Vulkan}

-- `vk::SurfaceCapabilitiesKHR`, the fields that are read.
pub record Capabilities : Type 0 where
  pub current_width : ℕ
  pub current_height : ℕ
  pub min_width : ℕ
  pub min_height : ℕ
  pub max_width : ℕ
  pub max_height : ℕ
  pub min_image_count : ℕ
  pub max_image_count : ℕ

unfoldable pub choose_extent : Capabilities → ℕ → ℕ → ℕ × ℕ
choose_extent c width height =
    if c.current_width == 2 ^ 32 - 1
    then (max c.min_width (min c.max_width width), max c.min_height (min c.max_height height))
    else (c.current_width, c.current_height)

unfoldable pub choose_image_count : Capabilities → ℕ
choose_image_count c =
    let count = (c.min_image_count + 1) % 2 ^ 32 in
    if ltb 0 c.max_image_count && ltb c.max_image_count count then c.max_image_count else count

-- Whether a list has a pair of a format and a colour space, and a mode.
unfoldable pub has_pair : ℕ × ℕ → List (ℕ × ℕ) → Bool
has_pair p [] = false
has_pair p (q ∷ qs) = if q.0 == p.0 && q.1 == p.1 then true else has_pair p qs

unfoldable pub has_mode : ℕ → List ℕ → Bool
has_mode m [] = false
has_mode m (n ∷ ns) = if n == m then true else has_mode m ns

module _ (vulkan : Vulkan) where
  open vulkan use {format_value, color_space_value, present_mode_value}

  abbrev pub preferred : ℕ × ℕ
  preferred = (format_value VkFormat.b8g8r8a8_srgb, color_space_value VkColorSpace.srgb_nonlinear)

  -- The loop for the preferred pair, and `availableFormats[0]`, which faults on an empty list.
  abbrev pub search_format : List (ℕ × ℕ) → Option (ℕ × ℕ)
  search_format [] = none
  search_format (q ∷ qs) = if has_pair preferred (q ∷ qs) then some preferred else some q

  unfoldable pub choose_surface_format : List (ℕ × ℕ) → Option (ℕ × ℕ)
  choose_surface_format [] = none
  choose_surface_format (q ∷ []) =
      if q.0 == format_value VkFormat.undefined then some preferred else search_format (q ∷ [])
  choose_surface_format (q ∷ r ∷ qs) = search_format (q ∷ r ∷ qs)

  unfoldable pub choose_present_mode : List ℕ → ℕ
  choose_present_mode modes =
      if has_mode (present_mode_value VkPresentMode.mailbox) modes
      then present_mode_value VkPresentMode.mailbox
      else if has_mode (present_mode_value VkPresentMode.immediate) modes
      then present_mode_value VkPresentMode.immediate
      else present_mode_value VkPresentMode.fifo
