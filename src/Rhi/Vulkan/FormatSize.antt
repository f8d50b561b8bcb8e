-- ===== src/Rhi/Vulkan/FormatSize.antt =====
-- ecs/rhi/vulkan/utils/format_size.cpp: `FormatSize`, the bytes of a texel of a format.
pub mod Channels
pub mod Small
pub mod Medium
pub mod Large
mod Tests
use engi_cs.Base.{ℕ, ◌+◌, ◌*◌, ◌≡◌, refl, List, [], ◌∷◌}
use Channels.{total_bits}
use Small.{SmallFormat, small_size, small_channels, small_size_lem}
use Medium.{MediumFormat, medium_size, medium_channels, medium_size_lem}
use Large.{LargeFormat, large_size, large_channels, large_size_lem}

-- `VkFormat`: the enumerators that the switch names, in three parts, and all others.
pub data VkFormat : Type 0 where
  small : SmallFormat → VkFormat
  medium : MediumFormat → VkFormat
  large : LargeFormat → VkFormat
  other : ℕ → VkFormat

unfoldable pub format_size : VkFormat → ℕ
format_size (small f) = small_size f
format_size (medium f) = medium_size f
format_size (large f) = large_size f
format_size (other n) = 0

-- The widths of the channels in bits, which the name of a format gives.
abbrev pub channels : VkFormat → List ℕ
channels (small f) = small_channels f
channels (medium f) = medium_channels f
channels (large f) = large_channels f
channels (other n) = []

-- The size that the code gives for a format is that of its channels together, in whole bytes, for
-- each format that it lists; to every other format it gives 0.
pub format_size_lem : (f : VkFormat) → 8 * format_size f ≡ total_bits (channels f)
unfolding format_size
format_size_lem (small f) = small_size_lem f
format_size_lem (medium f) = medium_size_lem f
format_size_lem (large f) = large_size_lem f
format_size_lem (other n) = refl
