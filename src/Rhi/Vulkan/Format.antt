-- ===== src/Rhi/Vulkan/Format.antt =====
-- ecs/rhi/vulkan/defs.cpp: the formats of pixels and of vertices.
use engi_cs.Base.{ℕ, Option, none, some, [], ◌∷◌}
use engi_cs.Rhi.Vulkan.Headers.{VkFormat, Vulkan}
use engi_cs.Rhi.Vulkan.Enums.{PixelFormat, VertexFormat}
use engi_cs.Rhi.Vulkan.Table.{switch_on}

module _ (vulkan : Vulkan) where
  open vulkan use {format_value}

  unfoldable pub pixel_format_to_vulkan : PixelFormat → Option ℕ
  pixel_format_to_vulkan PixelFormat.r8g8b8a8_unorm = some (format_value VkFormat.r8g8b8a8_unorm)
  pixel_format_to_vulkan PixelFormat.b8g8r8a8_unorm = some (format_value VkFormat.b8g8r8a8_unorm)
  pixel_format_to_vulkan PixelFormat.r16g16b16a16_sfloat =
      some (format_value VkFormat.r16g16b16a16_sfloat)
  pixel_format_to_vulkan PixelFormat.d32_sfloat = some (format_value VkFormat.d32_sfloat)
  pixel_format_to_vulkan PixelFormat.d24_unorm_s8_uint =
      some (format_value VkFormat.d24_unorm_s8_uint)
  pixel_format_to_vulkan PixelFormat.unknown = none

  unfoldable pub pixel_format_from_vulkan : ℕ → Option PixelFormat
  pixel_format_from_vulkan n =
      switch_on format_value
        ((VkFormat.r8g8b8a8_unorm, PixelFormat.r8g8b8a8_unorm)
          ∷ (VkFormat.b8g8r8a8_unorm, PixelFormat.b8g8r8a8_unorm)
          ∷ (VkFormat.r16g16b16a16_sfloat, PixelFormat.r16g16b16a16_sfloat)
          ∷ (VkFormat.d32_sfloat, PixelFormat.d32_sfloat)
          ∷ (VkFormat.d24_unorm_s8_uint, PixelFormat.d24_unorm_s8_uint)
          ∷ [])
        none n

  unfoldable pub vertex_format_from_vulkan : ℕ → Option VertexFormat
  vertex_format_from_vulkan n =
      switch_on format_value
        ((VkFormat.r32_sfloat, VertexFormat.float32)
          ∷ (VkFormat.r32g32_sfloat, VertexFormat.float32x2)
          ∷ (VkFormat.r32g32b32_sfloat, VertexFormat.float32x3)
          ∷ (VkFormat.r32g32b32a32_sfloat, VertexFormat.float32x4)
          ∷ (VkFormat.r32_uint, VertexFormat.uint32)
          ∷ (VkFormat.r32g32_uint, VertexFormat.uint32x2)
          ∷ (VkFormat.r32g32b32_uint, VertexFormat.uint32x3)
          ∷ (VkFormat.r32g32b32a32_uint, VertexFormat.uint32x4)
          ∷ [])
        (some VertexFormat.undefined) n

  unfoldable pub vertex_format_to_vulkan : VertexFormat → Option ℕ
  vertex_format_to_vulkan VertexFormat.undefined = some (format_value VkFormat.undefined)
  vertex_format_to_vulkan VertexFormat.float32 = some (format_value VkFormat.r32_sfloat)
  vertex_format_to_vulkan VertexFormat.float32x2 = some (format_value VkFormat.r32g32_sfloat)
  vertex_format_to_vulkan VertexFormat.float32x3 = some (format_value VkFormat.r32g32b32_sfloat)
  vertex_format_to_vulkan VertexFormat.float32x4 = some (format_value VkFormat.r32g32b32a32_sfloat)
  vertex_format_to_vulkan VertexFormat.uint32 = some (format_value VkFormat.r32_uint)
  vertex_format_to_vulkan VertexFormat.uint32x2 = some (format_value VkFormat.r32g32_uint)
  vertex_format_to_vulkan VertexFormat.uint32x3 = some (format_value VkFormat.r32g32b32_uint)
  vertex_format_to_vulkan VertexFormat.uint32x4 = some (format_value VkFormat.r32g32b32a32_uint)
