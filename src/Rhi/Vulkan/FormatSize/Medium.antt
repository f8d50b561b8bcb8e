-- ===== src/Rhi/Vulkan/FormatSize/Medium.antt =====
-- ecs/rhi/vulkan/utils/format_size.cpp: the second part of the switch of `FormatSize`.
use engi_cs.Base.{ℕ, ◌*◌, ◌≡◌, refl, List, [], ◌∷◌}
use engi_cs.Rhi.Vulkan.FormatSize.Channels.{total_bits}

pub data MediumFormat : Type 0 where
  b8g8r8a8_unorm b8g8r8a8_snorm b8g8r8a8_uscaled b8g8r8a8_sscaled b8g8r8a8_uint : MediumFormat
  b8g8r8a8_sint b8g8r8a8_srgb a8b8g8r8_unorm_pack32 a8b8g8r8_snorm_pack32 : MediumFormat
  a8b8g8r8_uscaled_pack32 a8b8g8r8_sscaled_pack32 a8b8g8r8_uint_pack32 : MediumFormat
  a8b8g8r8_sint_pack32 a8b8g8r8_srgb_pack32 a2r10g10b10_unorm_pack32 : MediumFormat
  a2r10g10b10_snorm_pack32 a2r10g10b10_uscaled_pack32 a2r10g10b10_sscaled_pack32 : MediumFormat
  a2r10g10b10_uint_pack32 a2r10g10b10_sint_pack32 a2b10g10r10_unorm_pack32 : MediumFormat
  a2b10g10r10_snorm_pack32 a2b10g10r10_uscaled_pack32 a2b10g10r10_sscaled_pack32 : MediumFormat
  a2b10g10r10_uint_pack32 a2b10g10r10_sint_pack32 r16_unorm r16_snorm r16_uscaled : MediumFormat
  r16_sscaled r16_uint r16_sint r16_sfloat r16g16_unorm r16g16_snorm r16g16_uscaled : MediumFormat
  r16g16_sscaled r16g16_uint r16g16_sint r16g16_sfloat r16g16b16_unorm r16g16b16_snorm :
      MediumFormat
  r16g16b16_uscaled r16g16b16_sscaled r16g16b16_uint r16g16b16_sint r16g16b16_sfloat : MediumFormat
  r16g16b16a16_unorm r16g16b16a16_snorm r16g16b16a16_uscaled r16g16b16a16_sscaled : MediumFormat
  r16g16b16a16_uint r16g16b16a16_sint r16g16b16a16_sfloat : MediumFormat

unfoldable pub medium_size : MediumFormat → ℕ
medium_size b8g8r8a8_unorm = 4
medium_size b8g8r8a8_snorm = 4
medium_size b8g8r8a8_uscaled = 4
medium_size b8g8r8a8_sscaled = 4
medium_size b8g8r8a8_uint = 4
medium_size b8g8r8a8_sint = 4
medium_size b8g8r8a8_srgb = 4
medium_size a8b8g8r8_unorm_pack32 = 4
medium_size a8b8g8r8_snorm_pack32 = 4
medium_size a8b8g8r8_uscaled_pack32 = 4
medium_size a8b8g8r8_sscaled_pack32 = 4
medium_size a8b8g8r8_uint_pack32 = 4
medium_size a8b8g8r8_sint_pack32 = 4
medium_size a8b8g8r8_srgb_pack32 = 4
medium_size a2r10g10b10_unorm_pack32 = 4
medium_size a2r10g10b10_snorm_pack32 = 4
medium_size a2r10g10b10_uscaled_pack32 = 4
medium_size a2r10g10b10_sscaled_pack32 = 4
medium_size a2r10g10b10_uint_pack32 = 4
medium_size a2r10g10b10_sint_pack32 = 4
medium_size a2b10g10r10_unorm_pack32 = 4
medium_size a2b10g10r10_snorm_pack32 = 4
medium_size a2b10g10r10_uscaled_pack32 = 4
medium_size a2b10g10r10_sscaled_pack32 = 4
medium_size a2b10g10r10_uint_pack32 = 4
medium_size a2b10g10r10_sint_pack32 = 4
medium_size r16_unorm = 2
medium_size r16_snorm = 2
medium_size r16_uscaled = 2
medium_size r16_sscaled = 2
medium_size r16_uint = 2
medium_size r16_sint = 2
medium_size r16_sfloat = 2
medium_size r16g16_unorm = 4
medium_size r16g16_snorm = 4
medium_size r16g16_uscaled = 4
medium_size r16g16_sscaled = 4
medium_size r16g16_uint = 4
medium_size r16g16_sint = 4
medium_size r16g16_sfloat = 4
medium_size r16g16b16_unorm = 6
medium_size r16g16b16_snorm = 6
medium_size r16g16b16_uscaled = 6
medium_size r16g16b16_sscaled = 6
medium_size r16g16b16_uint = 6
medium_size r16g16b16_sint = 6
medium_size r16g16b16_sfloat = 6
medium_size r16g16b16a16_unorm = 8
medium_size r16g16b16a16_snorm = 8
medium_size r16g16b16a16_uscaled = 8
medium_size r16g16b16a16_sscaled = 8
medium_size r16g16b16a16_uint = 8
medium_size r16g16b16a16_sint = 8
medium_size r16g16b16a16_sfloat = 8

-- The widths of the channels, by the name of the format.
unfoldable pub medium_channels : MediumFormat → List ℕ
medium_channels b8g8r8a8_unorm = 8 ∷ 8 ∷ 8 ∷ 8 ∷ []
medium_channels b8g8r8a8_snorm = 8 ∷ 8 ∷ 8 ∷ 8 ∷ []
medium_channels b8g8r8a8_uscaled = 8 ∷ 8 ∷ 8 ∷ 8 ∷ []
medium_channels b8g8r8a8_sscaled = 8 ∷ 8 ∷ 8 ∷ 8 ∷ []
medium_channels b8g8r8a8_uint = 8 ∷ 8 ∷ 8 ∷ 8 ∷ []
medium_channels b8g8r8a8_sint = 8 ∷ 8 ∷ 8 ∷ 8 ∷ []
medium_channels b8g8r8a8_srgb = 8 ∷ 8 ∷ 8 ∷ 8 ∷ []
medium_channels a8b8g8r8_unorm_pack32 = 8 ∷ 8 ∷ 8 ∷ 8 ∷ []
medium_channels a8b8g8r8_snorm_pack32 = 8 ∷ 8 ∷ 8 ∷ 8 ∷ []
medium_channels a8b8g8r8_uscaled_pack32 = 8 ∷ 8 ∷ 8 ∷ 8 ∷ []
medium_channels a8b8g8r8_sscaled_pack32 = 8 ∷ 8 ∷ 8 ∷ 8 ∷ []
medium_channels a8b8g8r8_uint_pack32 = 8 ∷ 8 ∷ 8 ∷ 8 ∷ []
medium_channels a8b8g8r8_sint_pack32 = 8 ∷ 8 ∷ 8 ∷ 8 ∷ []
medium_channels a8b8g8r8_srgb_pack32 = 8 ∷ 8 ∷ 8 ∷ 8 ∷ []
medium_channels a2r10g10b10_unorm_pack32 = 2 ∷ 10 ∷ 10 ∷ 10 ∷ []
medium_channels a2r10g10b10_snorm_pack32 = 2 ∷ 10 ∷ 10 ∷ 10 ∷ []
medium_channels a2r10g10b10_uscaled_pack32 = 2 ∷ 10 ∷ 10 ∷ 10 ∷ []
medium_channels a2r10g10b10_sscaled_pack32 = 2 ∷ 10 ∷ 10 ∷ 10 ∷ []
medium_channels a2r10g10b10_uint_pack32 = 2 ∷ 10 ∷ 10 ∷ 10 ∷ []
medium_channels a2r10g10b10_sint_pack32 = 2 ∷ 10 ∷ 10 ∷ 10 ∷ []
medium_channels a2b10g10r10_unorm_pack32 = 2 ∷ 10 ∷ 10 ∷ 10 ∷ []
medium_channels a2b10g10r10_snorm_pack32 = 2 ∷ 10 ∷ 10 ∷ 10 ∷ []
medium_channels a2b10g10r10_uscaled_pack32 = 2 ∷ 10 ∷ 10 ∷ 10 ∷ []
medium_channels a2b10g10r10_sscaled_pack32 = 2 ∷ 10 ∷ 10 ∷ 10 ∷ []
medium_channels a2b10g10r10_uint_pack32 = 2 ∷ 10 ∷ 10 ∷ 10 ∷ []
medium_channels a2b10g10r10_sint_pack32 = 2 ∷ 10 ∷ 10 ∷ 10 ∷ []
medium_channels r16_unorm = 16 ∷ []
medium_channels r16_snorm = 16 ∷ []
medium_channels r16_uscaled = 16 ∷ []
medium_channels r16_sscaled = 16 ∷ []
medium_channels r16_uint = 16 ∷ []
medium_channels r16_sint = 16 ∷ []
medium_channels r16_sfloat = 16 ∷ []
medium_channels r16g16_unorm = 16 ∷ 16 ∷ []
medium_channels r16g16_snorm = 16 ∷ 16 ∷ []
medium_channels r16g16_uscaled = 16 ∷ 16 ∷ []
medium_channels r16g16_sscaled = 16 ∷ 16 ∷ []
medium_channels r16g16_uint = 16 ∷ 16 ∷ []
medium_channels r16g16_sint = 16 ∷ 16 ∷ []
medium_channels r16g16_sfloat = 16 ∷ 16 ∷ []
medium_channels r16g16b16_unorm = 16 ∷ 16 ∷ 16 ∷ []
medium_channels r16g16b16_snorm = 16 ∷ 16 ∷ 16 ∷ []
medium_channels r16g16b16_uscaled = 16 ∷ 16 ∷ 16 ∷ []
medium_channels r16g16b16_sscaled = 16 ∷ 16 ∷ 16 ∷ []
medium_channels r16g16b16_uint = 16 ∷ 16 ∷ 16 ∷ []
medium_channels r16g16b16_sint = 16 ∷ 16 ∷ 16 ∷ []
medium_channels r16g16b16_sfloat = 16 ∷ 16 ∷ 16 ∷ []
medium_channels r16g16b16a16_unorm = 16 ∷ 16 ∷ 16 ∷ 16 ∷ []
medium_channels r16g16b16a16_snorm = 16 ∷ 16 ∷ 16 ∷ 16 ∷ []
medium_channels r16g16b16a16_uscaled = 16 ∷ 16 ∷ 16 ∷ 16 ∷ []
medium_channels r16g16b16a16_sscaled = 16 ∷ 16 ∷ 16 ∷ 16 ∷ []
medium_channels r16g16b16a16_uint = 16 ∷ 16 ∷ 16 ∷ 16 ∷ []
medium_channels r16g16b16a16_sint = 16 ∷ 16 ∷ 16 ∷ 16 ∷ []
medium_channels r16g16b16a16_sfloat = 16 ∷ 16 ∷ 16 ∷ 16 ∷ []

pub medium_size_lem : (f : MediumFormat) → 8 * medium_size f ≡ total_bits (medium_channels f)
unfolding medium_size medium_channels
medium_size_lem b8g8r8a8_unorm = refl
medium_size_lem b8g8r8a8_snorm = refl
medium_size_lem b8g8r8a8_uscaled = refl
medium_size_lem b8g8r8a8_sscaled = refl
medium_size_lem b8g8r8a8_uint = refl
medium_size_lem b8g8r8a8_sint = refl
medium_size_lem b8g8r8a8_srgb = refl
medium_size_lem a8b8g8r8_unorm_pack32 = refl
medium_size_lem a8b8g8r8_snorm_pack32 = refl
medium_size_lem a8b8g8r8_uscaled_pack32 = refl
medium_size_lem a8b8g8r8_sscaled_pack32 = refl
medium_size_lem a8b8g8r8_uint_pack32 = refl
medium_size_lem a8b8g8r8_sint_pack32 = refl
medium_size_lem a8b8g8r8_srgb_pack32 = refl
medium_size_lem a2r10g10b10_unorm_pack32 = refl
medium_size_lem a2r10g10b10_snorm_pack32 = refl
medium_size_lem a2r10g10b10_uscaled_pack32 = refl
medium_size_lem a2r10g10b10_sscaled_pack32 = refl
medium_size_lem a2r10g10b10_uint_pack32 = refl
medium_size_lem a2r10g10b10_sint_pack32 = refl
medium_size_lem a2b10g10r10_unorm_pack32 = refl
medium_size_lem a2b10g10r10_snorm_pack32 = refl
medium_size_lem a2b10g10r10_uscaled_pack32 = refl
medium_size_lem a2b10g10r10_sscaled_pack32 = refl
medium_size_lem a2b10g10r10_uint_pack32 = refl
medium_size_lem a2b10g10r10_sint_pack32 = refl
medium_size_lem r16_unorm = refl
medium_size_lem r16_snorm = refl
medium_size_lem r16_uscaled = refl
medium_size_lem r16_sscaled = refl
medium_size_lem r16_uint = refl
medium_size_lem r16_sint = refl
medium_size_lem r16_sfloat = refl
medium_size_lem r16g16_unorm = refl
medium_size_lem r16g16_snorm = refl
medium_size_lem r16g16_uscaled = refl
medium_size_lem r16g16_sscaled = refl
medium_size_lem r16g16_uint = refl
medium_size_lem r16g16_sint = refl
medium_size_lem r16g16_sfloat = refl
medium_size_lem r16g16b16_unorm = refl
medium_size_lem r16g16b16_snorm = refl
medium_size_lem r16g16b16_uscaled = refl
medium_size_lem r16g16b16_sscaled = refl
medium_size_lem r16g16b16_uint = refl
medium_size_lem r16g16b16_sint = refl
medium_size_lem r16g16b16_sfloat = refl
medium_size_lem r16g16b16a16_unorm = refl
medium_size_lem r16g16b16a16_snorm = refl
medium_size_lem r16g16b16a16_uscaled = refl
medium_size_lem r16g16b16a16_sscaled = refl
medium_size_lem r16g16b16a16_uint = refl
medium_size_lem r16g16b16a16_sint = refl
medium_size_lem r16g16b16a16_sfloat = refl
