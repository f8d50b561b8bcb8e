-- ===== src/Rhi/Vulkan/SwapChain/Choices.antt =====
-- ecs/rhi/vulkan/swap_chain.cpp: the choices against what the surface offers.
use mathlib.Core.Path.{subst}
use engi_cs.Base.{
  ℕ, ◌+◌, ◌-◌, ◌^◌, ◌≤◌, ◌<◌, ◌≡◌, refl, ◌⊎◌, inl, inr, min, max, true, false, Bool-cases, none,
  some, List, [], ◌∷◌, ◌==◌, arith,
}
use engi_cs.Rhi.Vulkan.Headers.{VkFormat, VkPresentMode, Vulkan, documented}
use engi_cs.Rhi.Vulkan.Format.{pixel_format_from_vulkan}
use engi_cs.Rhi.Vulkan.SwapChain.{
  Capabilities, choose_extent, choose_image_count, has_pair, has_mode, preferred,
  choose_surface_format, choose_present_mode,
}

-- Limits that are in order, where a greatest number of images of 0 means that there is none.
pub record IsSensible (c : Capabilities) : Type 0 where
  pub widths : c.min_width ≤ c.max_width
  pub heights : c.min_height ≤ c.max_height
  pub counts : (c.max_image_count ≡ 0) ⊎ (c.min_image_count ≤ c.max_image_count)
  pub small : c.min_image_count + 1 < 2 ^ 32

clamp_lem :
    (lo hi x : ℕ)
    → lo ≤ hi
    → (lo ≤ max lo (min hi x))
      × (max lo (min hi x) ≤ hi)
      × (((x < lo) ⊎ (hi < x)) ⊎ (max lo (min hi x) ≡ x))
clamp_lem lo hi x h = ground arith

count_lem :
    (c : Capabilities)
    → IsSensible c
    → (c.min_image_count ≤ choose_image_count c)
      × ((c.max_image_count ≡ 0) ⊎ (choose_image_count c ≤ c.max_image_count))
      × (((choose_image_count c ≡ c.min_image_count + 1)
            × ((c.max_image_count ≡ 0) ⊎ (c.min_image_count < c.max_image_count)))
          ⊎ ((choose_image_count c ≡ c.max_image_count) × (c.max_image_count ≡ c.min_image_count)))
unfolding choose_image_count
count_lem c s = ground (arith, s.counts, s.small)

-- For a surface whose extent is the swap chain's to choose, the extent chosen lies within the
-- surface's limits and is the wanted one in each direction where that does; and the number of images
-- is at least the least and at most the greatest if there is one: it is one more than the least where
-- there is no greatest or the greatest is above the least, and is the greatest where the two are equal.
pub choices_fit :
    (c : Capabilities) (width height : ℕ)
    → IsSensible c
    → c.current_width ≡ 2 ^ 32 - 1
    → let (w, h) = choose_extent c width height in
      let n = choose_image_count c in
      ((c.min_width ≤ w) × (w ≤ c.max_width))
      × ((c.min_height ≤ h) × (h ≤ c.max_height))
      × (((width < c.min_width) ⊎ (c.max_width < width)) ⊎ (w ≡ width))
      × (((height < c.min_height) ⊎ (c.max_height < height)) ⊎ (h ≡ height))
      × (c.min_image_count ≤ n)
      × ((c.max_image_count ≡ 0) ⊎ (n ≤ c.max_image_count))
      × (((n ≡ c.min_image_count + 1)
            × ((c.max_image_count ≡ 0) ⊎ (c.min_image_count < c.max_image_count)))
          ⊎ ((n ≡ c.max_image_count) × (c.max_image_count ≡ c.min_image_count)))
unfolding choose_extent choose_image_count
choices_fit c width height s free =
    let own : (c.current_width == 2 ^ 32 - 1) ≡ true = ground arith in
    let (w₀, w₁, w₂) = clamp_lem c.min_width c.max_width width s.widths in
    let (h₀, h₁, h₂) = clamp_lem c.min_height c.max_height height s.heights in
    let (n₀, n₁, n₂) = count_lem c s in rw own ((w₀, w₁), (h₀, h₁), w₂, h₂, n₀, n₁, n₂)

aborts : pixel_format_from_vulkan documented (preferred documented).0 ≡ none
unfolding pixel_format_from_vulkan
aborts = refl

chosen :
    (vulkan : Vulkan) (formats : List (ℕ × ℕ))
    → has_pair (preferred vulkan) formats ≡ true
    → choose_surface_format vulkan formats ≡ some (preferred vulkan)
unfolding choose_surface_format has_pair
chosen vulkan [] offered = cc
chosen vulkan (q ∷ []) offered = elim (Bool-cases (q.0 == vulkan.format_value VkFormat.undefined)) [
  | inl alone ↦ rw alone refl
  | inr other ↦ rw (other, offered) refl
]
chosen vulkan (q ∷ r ∷ qs) offered = rw offered refl

module _ (vulkan : Vulkan) where
  -- The mode chosen is one that the surface offers, or it is FIFO, which every surface has; it is
  -- the mailbox mode whenever that is offered.
  pub mode_offered :
      (modes : List ℕ)
      → ((has_mode (choose_present_mode vulkan modes) modes ≡ true)
          ⊎ (choose_present_mode vulkan modes ≡ vulkan.present_mode_value VkPresentMode.fifo))
        × ((has_mode (vulkan.present_mode_value VkPresentMode.mailbox) modes ≡ false)
            ⊎ (choose_present_mode vulkan modes ≡ vulkan.present_mode_value VkPresentMode.mailbox))
  unfolding choose_present_mode
  mode_offered modes =
      elim (Bool-cases (has_mode (vulkan.present_mode_value VkPresentMode.mailbox) modes)) [
        | inl there ↦ rw there (inl there, inr refl)
        | inr missing ↦
            elim (Bool-cases (has_mode (vulkan.present_mode_value VkPresentMode.immediate) modes)) [
              | inl there ↦ rw (missing, there) (inl there, inl refl)
              | inr missing' ↦ rw (missing, missing') (inr refl, inl refl)
            ]
      ]

  -- With the documented headers: wherever a surface offers the sRGB format that the swap chain
  -- prefers, that one is chosen, and the conversion of the chosen format to the engine's aborts.
  pub preferred_aborts :
      (formats : List (ℕ × ℕ))
      → documented ≡ vulkan
      → has_pair (preferred vulkan) formats ≡ true
      → (choose_surface_format vulkan formats ≡ some (preferred vulkan))
        × (pixel_format_from_vulkan vulkan (preferred vulkan).0 ≡ none)
  preferred_aborts formats headers offered = (
    chosen vulkan formats offered,
    subst (λ v. pixel_format_from_vulkan v (preferred v).0 ≡ none) headers aborts,
  )
