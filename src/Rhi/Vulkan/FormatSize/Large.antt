-- ===== src/Rhi/Vulkan/FormatSize/Large.antt =====
-- ecs/rhi/vulkan/utils/format_size.cpp: the third part of the switch of `FormatSize`.
use engi_cs.Base.{ℕ, ◌*◌, ◌≡◌, refl, List, [], ◌∷◌}
use engi_cs.Rhi.Vulkan.FormatSize.Channels.{total_bits}

pub data LargeFormat : Type 0 where
  r32_uint r32_sint r32_sfloat r32g32_uint r32g32_sint r32g32_sfloat r32g32b32_uint : LargeFormat
  r32g32b32_sint r32g32b32_sfloat r32g32b32a32_uint r32g32b32a32_sint r32g32b32a32_sfloat :
      LargeFormat
  r64_uint r64_sint r64_sfloat r64g64_uint r64g64_sint r64g64_sfloat r64g64b64_uint : LargeFormat
  r64g64b64_sint r64g64b64_sfloat r64g64b64a64_uint r64g64b64a64_sint r64g64b64a64_sfloat :
      LargeFormat
  b10g11r11_ufloat_pack32 e5b9g9r9_ufloat_pack32 : LargeFormat

unfoldable pub large_size : LargeFormat → ℕ
large_size r32_uint = 4
large_size r32_sint = 4
large_size r32_sfloat = 4
large_size r32g32_uint = 8
large_size r32g32_sint = 8
large_size r32g32_sfloat = 8
large_size r32g32b32_uint = 12
large_size r32g32b32_sint = 12
large_size r32g32b32_sfloat = 12
large_size r32g32b32a32_uint = 16
large_size r32g32b32a32_sint = 16
large_size r32g32b32a32_sfloat = 16
large_size r64_uint = 8
large_size r64_sint = 8
large_size r64_sfloat = 8
large_size r64g64_uint = 16
large_size r64g64_sint = 16
large_size r64g64_sfloat = 16
large_size r64g64b64_uint = 24
large_size r64g64b64_sint = 24
large_size r64g64b64_sfloat = 24
large_size r64g64b64a64_uint = 32
large_size r64g64b64a64_sint = 32
large_size r64g64b64a64_sfloat = 32
large_size b10g11r11_ufloat_pack32 = 4
large_size e5b9g9r9_ufloat_pack32 = 4

-- The widths of the channels, by the name of the format.
unfoldable pub large_channels : LargeFormat → List ℕ
large_channels r32_uint = 32 ∷ []
large_channels r32_sint = 32 ∷ []
large_channels r32_sfloat = 32 ∷ []
large_channels r32g32_uint = 32 ∷ 32 ∷ []
large_channels r32g32_sint = 32 ∷ 32 ∷ []
large_channels r32g32_sfloat = 32 ∷ 32 ∷ []
large_channels r32g32b32_uint = 32 ∷ 32 ∷ 32 ∷ []
large_channels r32g32b32_sint = 32 ∷ 32 ∷ 32 ∷ []
large_channels r32g32b32_sfloat = 32 ∷ 32 ∷ 32 ∷ []
large_channels r32g32b32a32_uint = 32 ∷ 32 ∷ 32 ∷ 32 ∷ []
large_channels r32g32b32a32_sint = 32 ∷ 32 ∷ 32 ∷ 32 ∷ []
large_channels r32g32b32a32_sfloat = 32 ∷ 32 ∷ 32 ∷ 32 ∷ []
large_channels r64_uint = 64 ∷ []
large_channels r64_sint = 64 ∷ []
large_channels r64_sfloat = 64 ∷ []
large_channels r64g64_uint = 64 ∷ 64 ∷ []
large_channels r64g64_sint = 64 ∷ 64 ∷ []
large_channels r64g64_sfloat = 64 ∷ 64 ∷ []
large_channels r64g64b64_uint = 64 ∷ 64 ∷ 64 ∷ []
large_channels r64g64b64_sint = 64 ∷ 64 ∷ 64 ∷ []
large_channels r64g64b64_sfloat = 64 ∷ 64 ∷ 64 ∷ []
large_channels r64g64b64a64_uint = 64 ∷ 64 ∷ 64 ∷ 64 ∷ []
large_channels r64g64b64a64_sint = 64 ∷ 64 ∷ 64 ∷ 64 ∷ []
large_channels r64g64b64a64_sfloat = 64 ∷ 64 ∷ 64 ∷ 64 ∷ []
large_channels b10g11r11_ufloat_pack32 = 10 ∷ 11 ∷ 11 ∷ []
large_channels e5b9g9r9_ufloat_pack32 = 5 ∷ 9 ∷ 9 ∷ 9 ∷ []

pub large_size_lem : (f : LargeFormat) → 8 * large_size f ≡ total_bits (large_channels f)
unfolding large_size large_channels
large_size_lem r32_uint = refl
large_size_lem r32_sint = refl
large_size_lem r32_sfloat = refl
large_size_lem r32g32_uint = refl
large_size_lem r32g32_sint = refl
large_size_lem r32g32_sfloat = refl
large_size_lem r32g32b32_uint = refl
large_size_lem r32g32b32_sint = refl
large_size_lem r32g32b32_sfloat = refl
large_size_lem r32g32b32a32_uint = refl
large_size_lem r32g32b32a32_sint = refl
large_size_lem r32g32b32a32_sfloat = refl
large_size_lem r64_uint = refl
large_size_lem r64_sint = refl
large_size_lem r64_sfloat = refl
large_size_lem r64g64_uint = refl
large_size_lem r64g64_sint = refl
large_size_lem r64g64_sfloat = refl
large_size_lem r64g64b64_uint = refl
large_size_lem r64g64b64_sint = refl
large_size_lem r64g64b64_sfloat = refl
large_size_lem r64g64b64a64_uint = refl
large_size_lem r64g64b64a64_sint = refl
large_size_lem r64g64b64a64_sfloat = refl
large_size_lem b10g11r11_ufloat_pack32 = refl
large_size_lem e5b9g9r9_ufloat_pack32 = refl
