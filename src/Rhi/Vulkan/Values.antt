-- ===== src/Rhi/Vulkan/Values.antt =====
-- ecs/rhi/vulkan/defs.cpp: a value that is converted to Vulkan and back, for the enumerations.
use mathlib.Core.Path.{subst}
use engi_cs.Base.{ℕ, ◌^◌, ◌≡◌, ◌<◌, some, arith}
use engi_cs.Rhi.Defs.{ImageAspect, LoadOp, StoreOp}
use engi_cs.Rhi.Vulkan.Headers.{Vulkan, documented}
use engi_cs.Rhi.Vulkan.Enums.{
  QueueTypeBits, ShaderTypeBits, ImageUsageBits, BufferUsageBits, PixelFormat, VertexFormat,
  ImageViewType, SwizzleMapping,
}
use engi_cs.Rhi.Vulkan.Queue.{
  queue_to_vulkan, queue_from_vulkan, shader_to_vulkan, shader_from_vulkan,
}
use engi_cs.Rhi.Vulkan.Usage.{
  image_usage_to_vulkan, image_usage_from_vulkan, buffer_usage_to_vulkan, buffer_usage_from_vulkan,
}
use engi_cs.Rhi.Vulkan.Format.{
  pixel_format_to_vulkan, pixel_format_from_vulkan, vertex_format_to_vulkan,
  vertex_format_from_vulkan,
}
use engi_cs.Rhi.Vulkan.View.{
  view_type_to_vulkan, view_type_from_vulkan, aspect_to_vulkan, aspect_from_vulkan,
  swizzle_to_vulkan, swizzle_from_vulkan, samples_to_vulkan, samples_from_vulkan,
}
use engi_cs.Rhi.Vulkan.Attachments.{
  load_op_to_vulkan, load_op_from_vulkan, store_op_to_vulkan, store_op_from_vulkan,
}
use engi_cs.Rhi.Vulkan.Documented.{
  round_trip, queue_read_back, buffer_read_back, image_read_back, pixel_read_back, queue_documented,
  shader_documented, image_usage_documented, buffer_usage_documented, pixel_format_documented,
  vertex_format_documented, view_type_documented, aspect_documented, swizzle_documented,
  load_op_documented, store_op_documented,
}

module _ (vulkan : Vulkan) (headers : documented ≡ vulkan) where
  -- With the documented headers, the kind of a shader, a format of vertices, a type of view, an
  -- aspect, a swizzle, a load operation and a store operation that are converted to Vulkan are read
  -- back, and no conversion faults.
  pub values_round_trip :
      ((x : ShaderTypeBits)
        → round_trip (shader_to_vulkan vulkan) (shader_from_vulkan vulkan) x ≡ some x)
      × ((x : VertexFormat)
          → round_trip (vertex_format_to_vulkan vulkan) (vertex_format_from_vulkan vulkan) x
            ≡ some x)
      × ((x : ImageViewType)
          → round_trip (view_type_to_vulkan vulkan) (view_type_from_vulkan vulkan) x ≡ some x)
      × ((x : ImageAspect)
          → round_trip (aspect_to_vulkan vulkan) (aspect_from_vulkan vulkan) x ≡ some x)
      × ((x : SwizzleMapping)
          → round_trip (swizzle_to_vulkan vulkan) (swizzle_from_vulkan vulkan) x ≡ some x)
      × ((x : LoadOp)
          → round_trip (load_op_to_vulkan vulkan) (load_op_from_vulkan vulkan) x ≡ some x)
      × ((x : StoreOp)
          → round_trip (store_op_to_vulkan vulkan) (store_op_from_vulkan vulkan) x ≡ some x)
  values_round_trip = (
    λ x.
        subst (λ v. round_trip (shader_to_vulkan v) (shader_from_vulkan v) x ≡ some x) headers
          (shader_documented x),
    λ x.
        subst (λ v. round_trip (vertex_format_to_vulkan v) (vertex_format_from_vulkan v) x ≡ some x)
          headers (vertex_format_documented x),
    λ x.
        subst (λ v. round_trip (view_type_to_vulkan v) (view_type_from_vulkan v) x ≡ some x) headers
          (view_type_documented x),
    λ x.
        subst (λ v. round_trip (aspect_to_vulkan v) (aspect_from_vulkan v) x ≡ some x) headers
          (aspect_documented x),
    λ x.
        subst (λ v. round_trip (swizzle_to_vulkan v) (swizzle_from_vulkan v) x ≡ some x) headers
          (swizzle_documented x),
    λ x.
        subst (λ v. round_trip (load_op_to_vulkan v) (load_op_from_vulkan v) x ≡ some x) headers
          (load_op_documented x),
    λ x.
        subst (λ v. round_trip (store_op_to_vulkan v) (store_op_from_vulkan v) x ≡ some x) headers
          (store_op_documented x),
  )

  -- With the documented headers, a format of pixels that is converted to Vulkan is read back, and
  -- the conversion faults on the unknown format alone.
  pub formats_round_trip :
      (x : PixelFormat)
      → round_trip (pixel_format_to_vulkan vulkan) (pixel_format_from_vulkan vulkan) x
        ≡ pixel_read_back x
  formats_round_trip x =
      subst
        (λ v.
          round_trip (pixel_format_to_vulkan v) (pixel_format_from_vulkan v) x ≡ pixel_read_back x)
        headers (pixel_format_documented x)

  -- With the documented headers, a kind of queue, a use of images and a use of buffers that are
  -- converted to Vulkan are read back as themselves, but for four: `ePresent` comes back as
  -- `eDirect`, the undefined use of images as `eStorageImage`, the indirect use of buffers as
  -- `eIndexBuffer`, and the undefined use of buffers faults.
  pub uses_read_back :
      ((x : QueueTypeBits)
        → round_trip (queue_to_vulkan vulkan) (queue_from_vulkan vulkan) x
          ≡ some (queue_read_back x))
      × ((x : ImageUsageBits)
          → round_trip (image_usage_to_vulkan vulkan) (image_usage_from_vulkan vulkan) x
            ≡ some (image_read_back x))
      × ((x : BufferUsageBits)
          → round_trip (buffer_usage_to_vulkan vulkan) (buffer_usage_from_vulkan vulkan) x
            ≡ buffer_read_back x)
  uses_read_back = (
    λ x.
        subst
          (λ v. round_trip (queue_to_vulkan v) (queue_from_vulkan v) x ≡ some (queue_read_back x))
          headers (queue_documented x),
    λ x.
        subst
          (λ v.
            round_trip (image_usage_to_vulkan v) (image_usage_from_vulkan v) x
            ≡ some (image_read_back x))
          headers (image_usage_documented x),
    λ x.
        subst
          (λ v.
            round_trip (buffer_usage_to_vulkan v) (buffer_usage_from_vulkan v) x
            ≡ buffer_read_back x)
          headers (buffer_usage_documented x),
  )

-- A number of samples below 256 survives the way through the engine's 8-bit enumeration.
pub samples_round_trip : (n : ℕ) → n < 2 ^ 8 → samples_to_vulkan (samples_from_vulkan n) ≡ n
unfolding samples_to_vulkan samples_from_vulkan
samples_round_trip n h = omega arith
