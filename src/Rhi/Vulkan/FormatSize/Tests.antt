-- ===== src/Rhi/Vulkan/FormatSize/Tests.antt =====
-- Sizes of formats.
use engi_cs.Base.{◌*◌, ◌≡◌}
use engi_cs.Rhi.Vulkan.FormatSize.{VkFormat, medium, format_size, format_size_lem}
use engi_cs.Rhi.Vulkan.FormatSize.Medium.{MediumFormat}

format_size_lem_example : 8 * format_size (medium MediumFormat.b8g8r8a8_srgb) ≡ 32
unfolding engi_cs.Rhi.Vulkan.FormatSize.Medium.medium_channels
format_size_lem_example = format_size_lem (medium MediumFormat.b8g8r8a8_srgb)
