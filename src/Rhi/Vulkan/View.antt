-- ===== src/Rhi/Vulkan/View.antt =====
-- ecs/rhi/vulkan/defs.cpp: views of images, their aspects and swizzles, and numbers of samples.
use engi_cs.Base.{ℕ, ◌^◌, ◌%◌, Option, none, some, List, [], ◌∷◌, Bool, false}
use engi_cs.Rhi.Defs.{ImageAspect}
use engi_cs.Rhi.Vulkan.Headers.{VkViewType, VkAspect, VkSwizzle, Vulkan}
use engi_cs.Rhi.Vulkan.Enums.{ImageViewType, SwizzleMapping}
use engi_cs.Rhi.Vulkan.Table.{switch_on, translate}

-- `EImageAspectFlagBits`: the number of each bit.
abbrev pub aspect_type_bit : ImageAspect → ℕ
aspect_type_bit ImageAspect.color = 0
aspect_type_bit ImageAspect.depth = 1
aspect_type_bit ImageAspect.stencil = 2

-- `ESampleCountFlagBits` is a `uint8_t`, and the flags of both are cast.
unfoldable pub samples_from_vulkan : ℕ → ℕ
samples_from_vulkan bits = bits % 2 ^ 8

unfoldable pub samples_to_vulkan : ℕ → ℕ
samples_to_vulkan bits = bits

module _ (vulkan : Vulkan) where
  open vulkan use {view_type_value, aspect_bit, swizzle_value}

  unfoldable pub view_type_from_vulkan : ℕ → Option ImageViewType
  view_type_from_vulkan n =
      switch_on view_type_value
        ((VkViewType.d1, ImageViewType.d1)
          ∷ (VkViewType.d2, ImageViewType.d2)
          ∷ (VkViewType.d3, ImageViewType.d3)
          ∷ (VkViewType.cube, ImageViewType.cube)
          ∷ (VkViewType.d1_array, ImageViewType.d1_array)
          ∷ (VkViewType.d2_array, ImageViewType.d2_array)
          ∷ (VkViewType.cube_array, ImageViewType.cube_array)
          ∷ [])
        none n

  unfoldable pub view_type_to_vulkan : ImageViewType → Option ℕ
  view_type_to_vulkan ImageViewType.d1 = some (view_type_value VkViewType.d1)
  view_type_to_vulkan ImageViewType.d2 = some (view_type_value VkViewType.d2)
  view_type_to_vulkan ImageViewType.d3 = some (view_type_value VkViewType.d3)
  view_type_to_vulkan ImageViewType.cube = some (view_type_value VkViewType.cube)
  view_type_to_vulkan ImageViewType.d1_array = some (view_type_value VkViewType.d1_array)
  view_type_to_vulkan ImageViewType.d2_array = some (view_type_value VkViewType.d2_array)
  view_type_to_vulkan ImageViewType.cube_array = some (view_type_value VkViewType.cube_array)

  unfoldable pub aspect_from_vulkan : ℕ → Option ImageAspect
  aspect_from_vulkan n =
      switch_on (λ v. 2 ^ aspect_bit v)
        ((VkAspect.color, ImageAspect.color)
          ∷ (VkAspect.depth, ImageAspect.depth)
          ∷ (VkAspect.stencil, ImageAspect.stencil)
          ∷ [])
        none n

  unfoldable pub aspect_to_vulkan : ImageAspect → Option ℕ
  aspect_to_vulkan ImageAspect.color = some (2 ^ aspect_bit VkAspect.color)
  aspect_to_vulkan ImageAspect.depth = some (2 ^ aspect_bit VkAspect.depth)
  aspect_to_vulkan ImageAspect.stencil = some (2 ^ aspect_bit VkAspect.stencil)

  abbrev pub aspects_from_vulkan_rows : List (ℕ × ℕ)
  aspects_from_vulkan_rows =
      (aspect_bit VkAspect.color, aspect_type_bit ImageAspect.color)
      ∷ (aspect_bit VkAspect.depth, aspect_type_bit ImageAspect.depth)
      ∷ (aspect_bit VkAspect.stencil, aspect_type_bit ImageAspect.stencil)
      ∷ []

  unfoldable pub aspects_from_vulkan : (ℕ → Bool) → ℕ → Bool
  aspects_from_vulkan bits = translate aspects_from_vulkan_rows bits (λ j. false)

  abbrev pub aspects_to_vulkan_rows : List (ℕ × ℕ)
  aspects_to_vulkan_rows =
      (aspect_type_bit ImageAspect.color, aspect_bit VkAspect.color)
      ∷ (aspect_type_bit ImageAspect.depth, aspect_bit VkAspect.depth)
      ∷ (aspect_type_bit ImageAspect.stencil, aspect_bit VkAspect.stencil)
      ∷ []

  unfoldable pub aspects_to_vulkan : (ℕ → Bool) → ℕ → Bool
  aspects_to_vulkan bits = translate aspects_to_vulkan_rows bits (λ j. false)

  unfoldable pub swizzle_from_vulkan : ℕ → Option SwizzleMapping
  swizzle_from_vulkan n =
      switch_on swizzle_value
        ((VkSwizzle.identity, SwizzleMapping.identity)
          ∷ (VkSwizzle.zero, SwizzleMapping.zero)
          ∷ (VkSwizzle.one, SwizzleMapping.one)
          ∷ (VkSwizzle.r, SwizzleMapping.r)
          ∷ (VkSwizzle.g, SwizzleMapping.g)
          ∷ (VkSwizzle.b, SwizzleMapping.b)
          ∷ (VkSwizzle.a, SwizzleMapping.a)
          ∷ [])
        none n

  unfoldable pub swizzle_to_vulkan : SwizzleMapping → Option ℕ
  swizzle_to_vulkan SwizzleMapping.identity = some (swizzle_value VkSwizzle.identity)
  swizzle_to_vulkan SwizzleMapping.zero = some (swizzle_value VkSwizzle.zero)
  swizzle_to_vulkan SwizzleMapping.one = some (swizzle_value VkSwizzle.one)
  swizzle_to_vulkan SwizzleMapping.r = some (swizzle_value VkSwizzle.r)
  swizzle_to_vulkan SwizzleMapping.g = some (swizzle_value VkSwizzle.g)
  swizzle_to_vulkan SwizzleMapping.b = some (swizzle_value VkSwizzle.b)
  swizzle_to_vulkan SwizzleMapping.a = some (swizzle_value VkSwizzle.a)
