-- ===== src/Rhi/Vulkan/Flags.antt =====
-- ecs/rhi/vulkan/defs.cpp: flags that are converted to Vulkan and back, bit by bit. The engine's
-- uses of images have the bits below 6, those of buffers the bits below 7.
use mathlib.Core.Path.{subst}
use engi_cs.Base.{ℕ, ◌≡◌, ◌∙◌, Bool, false, ◌&&◌, ◌||◌, ltb, ◌==◌, arith}
use engi_cs.Rhi.Vulkan.Headers.{Vulkan, documented}
use engi_cs.Rhi.Vulkan.Table.{translate_twice}
use engi_cs.Rhi.Vulkan.Queue.{
  queues_to_vulkan_rows, queues_from_vulkan_rows, shaders_to_vulkan_rows, shaders_from_vulkan_rows,
  queues_to_vulkan, queues_from_vulkan, shaders_to_vulkan, shaders_from_vulkan,
}
use engi_cs.Rhi.Vulkan.Usage.{
  image_usages_to_vulkan_rows, image_usages_from_vulkan_rows, buffer_usages_to_vulkan_rows,
  buffer_usages_from_vulkan_rows, image_usages_to_vulkan, image_usages_from_vulkan,
  buffer_usages_to_vulkan, buffer_usages_from_vulkan,
}
use engi_cs.Rhi.Vulkan.View.{
  aspects_to_vulkan_rows, aspects_from_vulkan_rows, aspects_to_vulkan, aspects_from_vulkan,
}

aspects_documented :
    (bits : ℕ → Bool) (j : ℕ)
    → aspects_from_vulkan documented (aspects_to_vulkan documented bits) j ≡ (ltb j 3 && bits j)
unfolding aspects_from_vulkan aspects_to_vulkan
aspects_documented bits j =
    translate_twice (aspects_to_vulkan_rows documented) (aspects_from_vulkan_rows documented) bits
      (λ i. false) j
    ∙ ground arith

shaders_documented :
    (result bits : ℕ → Bool) (j : ℕ)
    → shaders_from_vulkan documented result (shaders_to_vulkan documented bits) j
      ≡ (result j || (ltb j 6 && bits j))
unfolding shaders_from_vulkan shaders_to_vulkan
shaders_documented result bits j =
    translate_twice (shaders_to_vulkan_rows documented) (shaders_from_vulkan_rows documented) bits
      result j
    ∙ ground arith

image_usages_documented :
    (result bits : ℕ → Bool) (j : ℕ)
    → image_usages_from_vulkan documented result (image_usages_to_vulkan documented bits) j
      ≡ (result j || (ltb j 6 && bits j))
unfolding image_usages_from_vulkan image_usages_to_vulkan
image_usages_documented result bits j =
    translate_twice (image_usages_to_vulkan_rows documented)
      (image_usages_from_vulkan_rows documented) bits result j
    ∙ ground arith

buffer_usages_documented :
    (result bits : ℕ → Bool) (j : ℕ)
    → buffer_usages_from_vulkan documented result (buffer_usages_to_vulkan documented bits) j
      ≡ (result j || (ltb j 7 && bits j))
unfolding buffer_usages_from_vulkan buffer_usages_to_vulkan
buffer_usages_documented result bits j =
    translate_twice (buffer_usages_to_vulkan_rows documented)
      (buffer_usages_from_vulkan_rows documented) bits result j
    ∙ ground arith

queues_documented :
    (result bits : ℕ → Bool) (j : ℕ)
    → queues_from_vulkan documented result (queues_to_vulkan documented bits) j
      ≡ (result j || (ltb j 3 && (bits j || (j == 0 && bits 3))))
unfolding queues_from_vulkan queues_to_vulkan
queues_documented result bits j =
    translate_twice (queues_to_vulkan_rows documented) (queues_from_vulkan_rows documented) bits
      result j
    ∙ ground arith

module _ (vulkan : Vulkan) (headers : documented ≡ vulkan) where
  -- With the documented headers, aspects that are converted to Vulkan and back keep their three
  -- named bits and no other.
  pub aspects_round_trip :
      (bits : ℕ → Bool) (j : ℕ)
      → aspects_from_vulkan vulkan (aspects_to_vulkan vulkan bits) j ≡ (ltb j 3 && bits j)
  aspects_round_trip bits j =
      subst (λ v. aspects_from_vulkan v (aspects_to_vulkan v bits) j ≡ (ltb j 3 && bits j)) headers
        (aspects_documented bits j)

  -- With the documented headers, the flags of shaders, of uses of images and of uses of buffers
  -- that are converted to Vulkan and back keep their named bits and no other, but for the bits that
  -- `result` happened to hold before the conversion back, which stay set.
  pub flags_round_trip :
      (result bits : ℕ → Bool) (j : ℕ)
      → (shaders_from_vulkan vulkan result (shaders_to_vulkan vulkan bits) j
          ≡ (result j || (ltb j 6 && bits j)))
        × (image_usages_from_vulkan vulkan result (image_usages_to_vulkan vulkan bits) j
            ≡ (result j || (ltb j 6 && bits j)))
        × (buffer_usages_from_vulkan vulkan result (buffer_usages_to_vulkan vulkan bits) j
            ≡ (result j || (ltb j 7 && bits j)))
  flags_round_trip result bits j = (
    subst
        (λ v.
          shaders_from_vulkan v result (shaders_to_vulkan v bits) j
          ≡ (result j || (ltb j 6 && bits j)))
        headers (shaders_documented result bits j),
    subst
        (λ v.
          image_usages_from_vulkan v result (image_usages_to_vulkan v bits) j
          ≡ (result j || (ltb j 6 && bits j)))
        headers (image_usages_documented result bits j),
    subst
        (λ v.
          buffer_usages_from_vulkan v result (buffer_usages_to_vulkan v bits) j
          ≡ (result j || (ltb j 7 && bits j)))
        headers (buffer_usages_documented result bits j),
  )

  -- With the documented headers, kinds of queues that are converted to Vulkan and back keep
  -- `eDirect`, `eCompute` and `eTransfer`, and `eDirect` comes back also for `ePresent`, which is
  -- lost; the bits that `result` happened to hold before the conversion back stay set.
  pub queues_round_trip :
      (result bits : ℕ → Bool) (j : ℕ)
      → queues_from_vulkan vulkan result (queues_to_vulkan vulkan bits) j
        ≡ (result j || (ltb j 3 && (bits j || (j == 0 && bits 3))))
  queues_round_trip result bits j =
      subst
        (λ v.
          queues_from_vulkan v result (queues_to_vulkan v bits) j
          ≡ (result j || (ltb j 3 && (bits j || (j == 0 && bits 3)))))
        headers (queues_documented result bits j)
