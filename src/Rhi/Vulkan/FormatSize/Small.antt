-- ===== src/Rhi/Vulkan/FormatSize/Small.antt =====
-- ecs/rhi/vulkan/utils/format_size.cpp: the first part of the switch of `FormatSize`.
use engi_cs.Base.{ℕ, ◌*◌, ◌≡◌, refl, List, [], ◌∷◌}
use engi_cs.Rhi.Vulkan.FormatSize.Channels.{total_bits}

pub data SmallFormat : Type 0 where
  undefined r4g4_unorm_pack8 r4g4b4a4_unorm_pack16 b4g4r4a4_unorm_pack16 : SmallFormat
  r5g6b5_unorm_pack16 b5g6r5_unorm_pack16 r5g5b5a1_unorm_pack16 b5g5r5a1_unorm_pack16 : SmallFormat
  a1r5g5b5_unorm_pack16 r8_unorm r8_snorm r8_uscaled r8_sscaled r8_uint r8_sint r8_srgb :
      SmallFormat
  r8g8_unorm r8g8_snorm r8g8_uscaled r8g8_sscaled r8g8_uint r8g8_sint r8g8_srgb : SmallFormat
  r8g8b8_unorm r8g8b8_snorm r8g8b8_uscaled r8g8b8_sscaled r8g8b8_uint r8g8b8_sint : SmallFormat
  r8g8b8_srgb b8g8r8_unorm b8g8r8_snorm b8g8r8_uscaled b8g8r8_sscaled b8g8r8_uint : SmallFormat
  b8g8r8_sint b8g8r8_srgb r8g8b8a8_unorm r8g8b8a8_snorm r8g8b8a8_uscaled r8g8b8a8_sscaled :
      SmallFormat
  r8g8b8a8_uint r8g8b8a8_sint r8g8b8a8_srgb : SmallFormat

unfoldable pub small_size : SmallFormat → ℕ
small_size undefined = 0
small_size r4g4_unorm_pack8 = 1
small_size r4g4b4a4_unorm_pack16 = 2
small_size b4g4r4a4_unorm_pack16 = 2
small_size r5g6b5_unorm_pack16 = 2
small_size b5g6r5_unorm_pack16 = 2
small_size r5g5b5a1_unorm_pack16 = 2
small_size b5g5r5a1_unorm_pack16 = 2
small_size a1r5g5b5_unorm_pack16 = 2
small_size r8_unorm = 1
small_size r8_snorm = 1
small_size r8_uscaled = 1
small_size r8_sscaled = 1
small_size r8_uint = 1
small_size r8_sint = 1
small_size r8_srgb = 1
small_size r8g8_unorm = 2
small_size r8g8_snorm = 2
small_size r8g8_uscaled = 2
small_size r8g8_sscaled = 2
small_size r8g8_uint = 2
small_size r8g8_sint = 2
small_size r8g8_srgb = 2
small_size r8g8b8_unorm = 3
small_size r8g8b8_snorm = 3
small_size r8g8b8_uscaled = 3
small_size r8g8b8_sscaled = 3
small_size r8g8b8_uint = 3
small_size r8g8b8_sint = 3
small_size r8g8b8_srgb = 3
small_size b8g8r8_unorm = 3
small_size b8g8r8_snorm = 3
small_size b8g8r8_uscaled = 3
small_size b8g8r8_sscaled = 3
small_size b8g8r8_uint = 3
small_size b8g8r8_sint = 3
small_size b8g8r8_srgb = 3
small_size r8g8b8a8_unorm = 4
small_size r8g8b8a8_snorm = 4
small_size r8g8b8a8_uscaled = 4
small_size r8g8b8a8_sscaled = 4
small_size r8g8b8a8_uint = 4
small_size r8g8b8a8_sint = 4
small_size r8g8b8a8_srgb = 4

-- The widths of the channels, by the name of the format.
unfoldable pub small_channels : SmallFormat → List ℕ
small_channels undefined = []
small_channels r4g4_unorm_pack8 = 4 ∷ 4 ∷ []
small_channels r4g4b4a4_unorm_pack16 = 4 ∷ 4 ∷ 4 ∷ 4 ∷ []
small_channels b4g4r4a4_unorm_pack16 = 4 ∷ 4 ∷ 4 ∷ 4 ∷ []
small_channels r5g6b5_unorm_pack16 = 5 ∷ 6 ∷ 5 ∷ []
small_channels b5g6r5_unorm_pack16 = 5 ∷ 6 ∷ 5 ∷ []
small_channels r5g5b5a1_unorm_pack16 = 5 ∷ 5 ∷ 5 ∷ 1 ∷ []
small_channels b5g5r5a1_unorm_pack16 = 5 ∷ 5 ∷ 5 ∷ 1 ∷ []
small_channels a1r5g5b5_unorm_pack16 = 1 ∷ 5 ∷ 5 ∷ 5 ∷ []
small_channels r8_unorm = 8 ∷ []
small_channels r8_snorm = 8 ∷ []
small_channels r8_uscaled = 8 ∷ []
small_channels r8_sscaled = 8 ∷ []
small_channels r8_uint = 8 ∷ []
small_channels r8_sint = 8 ∷ []
small_channels r8_srgb = 8 ∷ []
small_channels r8g8_unorm = 8 ∷ 8 ∷ []
small_channels r8g8_snorm = 8 ∷ 8 ∷ []
small_channels r8g8_uscaled = 8 ∷ 8 ∷ []
small_channels r8g8_sscaled = 8 ∷ 8 ∷ []
small_channels r8g8_uint = 8 ∷ 8 ∷ []
small_channels r8g8_sint = 8 ∷ 8 ∷ []
small_channels r8g8_srgb = 8 ∷ 8 ∷ []
small_channels r8g8b8_unorm = 8 ∷ 8 ∷ 8 ∷ []
small_channels r8g8b8_snorm = 8 ∷ 8 ∷ 8 ∷ []
small_channels r8g8b8_uscaled = 8 ∷ 8 ∷ 8 ∷ []
small_channels r8g8b8_sscaled = 8 ∷ 8 ∷ 8 ∷ []
small_channels r8g8b8_uint = 8 ∷ 8 ∷ 8 ∷ []
small_channels r8g8b8_sint = 8 ∷ 8 ∷ 8 ∷ []
small_channels r8g8b8_srgb = 8 ∷ 8 ∷ 8 ∷ []
small_channels b8g8r8_unorm = 8 ∷ 8 ∷ 8 ∷ []
small_channels b8g8r8_snorm = 8 ∷ 8 ∷ 8 ∷ []
small_channels b8g8r8_uscaled = 8 ∷ 8 ∷ 8 ∷ []
small_channels b8g8r8_sscaled = 8 ∷ 8 ∷ 8 ∷ []
small_channels b8g8r8_uint = 8 ∷ 8 ∷ 8 ∷ []
small_channels b8g8r8_sint = 8 ∷ 8 ∷ 8 ∷ []
small_channels b8g8r8_srgb = 8 ∷ 8 ∷ 8 ∷ []
small_channels r8g8b8a8_unorm = 8 ∷ 8 ∷ 8 ∷ 8 ∷ []
small_channels r8g8b8a8_snorm = 8 ∷ 8 ∷ 8 ∷ 8 ∷ []
small_channels r8g8b8a8_uscaled = 8 ∷ 8 ∷ 8 ∷ 8 ∷ []
small_channels r8g8b8a8_sscaled = 8 ∷ 8 ∷ 8 ∷ 8 ∷ []
small_channels r8g8b8a8_uint = 8 ∷ 8 ∷ 8 ∷ 8 ∷ []
small_channels r8g8b8a8_sint = 8 ∷ 8 ∷ 8 ∷ 8 ∷ []
small_channels r8g8b8a8_srgb = 8 ∷ 8 ∷ 8 ∷ 8 ∷ []

pub small_size_lem : (f : SmallFormat) → 8 * small_size f ≡ total_bits (small_channels f)
unfolding small_size small_channels
small_size_lem undefined = refl
small_size_lem r4g4_unorm_pack8 = refl
small_size_lem r4g4b4a4_unorm_pack16 = refl
small_size_lem b4g4r4a4_unorm_pack16 = refl
small_size_lem r5g6b5_unorm_pack16 = refl
small_size_lem b5g6r5_unorm_pack16 = refl
small_size_lem r5g5b5a1_unorm_pack16 = refl
small_size_lem b5g5r5a1_unorm_pack16 = refl
small_size_lem a1r5g5b5_unorm_pack16 = refl
small_size_lem r8_unorm = refl
small_size_lem r8_snorm = refl
small_size_lem r8_uscaled = refl
small_size_lem r8_sscaled = refl
small_size_lem r8_uint = refl
small_size_lem r8_sint = refl
small_size_lem r8_srgb = refl
small_size_lem r8g8_unorm = refl
small_size_lem r8g8_snorm = refl
small_size_lem r8g8_uscaled = refl
small_size_lem r8g8_sscaled = refl
small_size_lem r8g8_uint = refl
small_size_lem r8g8_sint = refl
small_size_lem r8g8_srgb = refl
small_size_lem r8g8b8_unorm = refl
small_size_lem r8g8b8_snorm = refl
small_size_lem r8g8b8_uscaled = refl
small_size_lem r8g8b8_sscaled = refl
small_size_lem r8g8b8_uint = refl
small_size_lem r8g8b8_sint = refl
small_size_lem r8g8b8_srgb = refl
small_size_lem b8g8r8_unorm = refl
small_size_lem b8g8r8_snorm = refl
small_size_lem b8g8r8_uscaled = refl
small_size_lem b8g8r8_sscaled = refl
small_size_lem b8g8r8_uint = refl
small_size_lem b8g8r8_sint = refl
small_size_lem b8g8r8_srgb = refl
small_size_lem r8g8b8a8_unorm = refl
small_size_lem r8g8b8a8_snorm = refl
small_size_lem r8g8b8a8_uscaled = refl
small_size_lem r8g8b8a8_sscaled = refl
small_size_lem r8g8b8a8_uint = refl
small_size_lem r8g8b8a8_sint = refl
small_size_lem r8g8b8a8_srgb = refl
