-- ===== src/Rhi/Vulkan/FormatSize/Channels.antt =====
-- ecs/rhi/vulkan/utils/format_size.cpp: the bits of the channels of a format together.
use engi_cs.Base.{ℕ, ◌+◌, List, [], ◌∷◌}

abbrev pub total_bits : List ℕ → ℕ
total_bits [] = 0
total_bits (x ∷ xs) = x + total_bits xs
