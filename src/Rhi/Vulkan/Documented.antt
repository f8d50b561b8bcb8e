-- ===== src/Rhi/Vulkan/Documented.antt =====
-- ecs/rhi/vulkan/defs.cpp: each enumeration converted to Vulkan and back, with the documented
-- headers.
use engi_cs.Base.{ℕ, ◌≡◌, refl, Option, none, some}
use engi_cs.Rhi.Defs.{ImageAspect, LoadOp, StoreOp}
use engi_cs.Rhi.Vulkan.Headers.{documented}
use engi_cs.Rhi.Vulkan.Enums.{
  QueueTypeBits, ShaderTypeBits, ImageUsageBits, BufferUsageBits, PixelFormat, VertexFormat,
  ImageViewType, SwizzleMapping,
}
use engi_cs.Rhi.Vulkan.Queue.{
  queue_to_vulkan, queue_from_vulkan, shader_to_vulkan, shader_from_vulkan,
}
use engi_cs.Rhi.Vulkan.Usage.{
  image_usage_to_vulkan, image_usage_from_vulkan, buffer_usage_to_vulkan, buffer_usage_from_vulkan,
}
use engi_cs.Rhi.Vulkan.Format.{
  pixel_format_to_vulkan, pixel_format_from_vulkan, vertex_format_to_vulkan,
  vertex_format_from_vulkan,
}
use engi_cs.Rhi.Vulkan.View.{
  view_type_to_vulkan, view_type_from_vulkan, aspect_to_vulkan, aspect_from_vulkan,
  swizzle_to_vulkan, swizzle_from_vulkan,
}
use engi_cs.Rhi.Vulkan.Attachments.{
  load_op_to_vulkan, load_op_from_vulkan, store_op_to_vulkan, store_op_from_vulkan,
}

-- One conversion after the other; `none` is a fault of either.
abbrev pub round_trip : {E : Type 0} → (E → Option ℕ) → (ℕ → Option E) → E → Option E
round_trip to from e = elim (to e) [ none ↦ none | some n ↦ from n ]

-- The queue that a kind of queue is read back as.
pub queue_read_back : QueueTypeBits → QueueTypeBits
queue_read_back QueueTypeBits.present = QueueTypeBits.direct
queue_read_back q = q

-- The use that a use of buffers is read back as, if it has a number in Vulkan.
pub buffer_read_back : BufferUsageBits → Option BufferUsageBits
buffer_read_back BufferUsageBits.undefined = none
buffer_read_back BufferUsageBits.indirect_buffer = some BufferUsageBits.index_buffer
buffer_read_back u = some u

-- The use that a use of images is read back as.
pub image_read_back : ImageUsageBits → ImageUsageBits
image_read_back ImageUsageBits.undefined = ImageUsageBits.storage_image
image_read_back u = u

-- The format that a format is read back as, if it has a number in Vulkan.
pub pixel_read_back : PixelFormat → Option PixelFormat
pixel_read_back PixelFormat.unknown = none
pixel_read_back f = some f

pub queue_documented :
    (x : QueueTypeBits)
    → round_trip (queue_to_vulkan documented) (queue_from_vulkan documented) x
      ≡ some (queue_read_back x)
unfolding queue_to_vulkan queue_from_vulkan queue_read_back
queue_documented QueueTypeBits.direct = refl
queue_documented QueueTypeBits.compute = refl
queue_documented QueueTypeBits.transfer = refl
queue_documented QueueTypeBits.present = refl

pub shader_documented :
    (x : ShaderTypeBits)
    → round_trip (shader_to_vulkan documented) (shader_from_vulkan documented) x ≡ some x
unfolding shader_to_vulkan shader_from_vulkan
shader_documented ShaderTypeBits.vertex = refl
shader_documented ShaderTypeBits.fragment = refl
shader_documented ShaderTypeBits.compute = refl
shader_documented ShaderTypeBits.geometry = refl
shader_documented ShaderTypeBits.tessellation_control = refl
shader_documented ShaderTypeBits.tessellation_evaluation = refl

pub image_usage_documented :
    (x : ImageUsageBits)
    → round_trip (image_usage_to_vulkan documented) (image_usage_from_vulkan documented) x
      ≡ some (image_read_back x)
unfolding image_usage_to_vulkan image_usage_from_vulkan image_read_back
image_usage_documented ImageUsageBits.undefined = refl
image_usage_documented ImageUsageBits.sampled_image = refl
image_usage_documented ImageUsageBits.storage_image = refl
image_usage_documented ImageUsageBits.color_attachment = refl
image_usage_documented ImageUsageBits.depth_stencil_attachment = refl
image_usage_documented ImageUsageBits.transfer_src = refl
image_usage_documented ImageUsageBits.transfer_dst = refl

pub buffer_usage_documented :
    (x : BufferUsageBits)
    → round_trip (buffer_usage_to_vulkan documented) (buffer_usage_from_vulkan documented) x
      ≡ buffer_read_back x
unfolding buffer_usage_to_vulkan buffer_usage_from_vulkan buffer_read_back
buffer_usage_documented BufferUsageBits.undefined = refl
buffer_usage_documented BufferUsageBits.vertex_buffer = refl
buffer_usage_documented BufferUsageBits.index_buffer = refl
buffer_usage_documented BufferUsageBits.uniform_buffer = refl
buffer_usage_documented BufferUsageBits.storage_buffer = refl
buffer_usage_documented BufferUsageBits.indirect_buffer = refl
buffer_usage_documented BufferUsageBits.transfer_src = refl
buffer_usage_documented BufferUsageBits.transfer_dst = refl

pub pixel_format_documented :
    (x : PixelFormat)
    → round_trip (pixel_format_to_vulkan documented) (pixel_format_from_vulkan documented) x
      ≡ pixel_read_back x
unfolding pixel_format_to_vulkan pixel_format_from_vulkan pixel_read_back
pixel_format_documented PixelFormat.unknown = refl
pixel_format_documented PixelFormat.r8g8b8a8_unorm = refl
pixel_format_documented PixelFormat.b8g8r8a8_unorm = refl
pixel_format_documented PixelFormat.r16g16b16a16_sfloat = refl
pixel_format_documented PixelFormat.d32_sfloat = refl
pixel_format_documented PixelFormat.d24_unorm_s8_uint = refl

pub vertex_format_documented :
    (x : VertexFormat)
    → round_trip (vertex_format_to_vulkan documented) (vertex_format_from_vulkan documented) x
      ≡ some x
unfolding vertex_format_to_vulkan vertex_format_from_vulkan
vertex_format_documented VertexFormat.undefined = refl
vertex_format_documented VertexFormat.float32 = refl
vertex_format_documented VertexFormat.float32x2 = refl
vertex_format_documented VertexFormat.float32x3 = refl
vertex_format_documented VertexFormat.float32x4 = refl
vertex_format_documented VertexFormat.uint32 = refl
vertex_format_documented VertexFormat.uint32x2 = refl
vertex_format_documented VertexFormat.uint32x3 = refl
vertex_format_documented VertexFormat.uint32x4 = refl

pub view_type_documented :
    (x : ImageViewType)
    → round_trip (view_type_to_vulkan documented) (view_type_from_vulkan documented) x ≡ some x
unfolding view_type_to_vulkan view_type_from_vulkan
view_type_documented ImageViewType.d1 = refl
view_type_documented ImageViewType.d2 = refl
view_type_documented ImageViewType.d3 = refl
view_type_documented ImageViewType.cube = refl
view_type_documented ImageViewType.d1_array = refl
view_type_documented ImageViewType.d2_array = refl
view_type_documented ImageViewType.cube_array = refl

pub aspect_documented :
    (x : ImageAspect)
    → round_trip (aspect_to_vulkan documented) (aspect_from_vulkan documented) x ≡ some x
unfolding aspect_to_vulkan aspect_from_vulkan
aspect_documented ImageAspect.color = refl
aspect_documented ImageAspect.depth = refl
aspect_documented ImageAspect.stencil = refl

pub swizzle_documented :
    (x : SwizzleMapping)
    → round_trip (swizzle_to_vulkan documented) (swizzle_from_vulkan documented) x ≡ some x
unfolding swizzle_to_vulkan swizzle_from_vulkan
swizzle_documented SwizzleMapping.identity = refl
swizzle_documented SwizzleMapping.zero = refl
swizzle_documented SwizzleMapping.one = refl
swizzle_documented SwizzleMapping.r = refl
swizzle_documented SwizzleMapping.g = refl
swizzle_documented SwizzleMapping.b = refl
swizzle_documented SwizzleMapping.a = refl

pub load_op_documented :
    (x : LoadOp)
    → round_trip (load_op_to_vulkan documented) (load_op_from_vulkan documented) x ≡ some x
unfolding load_op_to_vulkan load_op_from_vulkan
load_op_documented LoadOp.undefined = refl
load_op_documented LoadOp.load = refl
load_op_documented LoadOp.clear = refl
load_op_documented LoadOp.discard = refl

pub store_op_documented :
    (x : StoreOp)
    → round_trip (store_op_to_vulkan documented) (store_op_from_vulkan documented) x ≡ some x
unfolding store_op_to_vulkan store_op_from_vulkan
store_op_documented StoreOp.undefined = refl
store_op_documented StoreOp.store = refl
store_op_documented StoreOp.discard = refl
