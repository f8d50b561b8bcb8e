-- ===== src/Rhi/Vulkan/Enums.antt =====
-- ecs/rhi/defs.h: the enumerations that the Vulkan back end converts. The value of a flag is two to
-- the power of its bit's number; `undefined` is 0, which has no bit.
use engi_cs.Base.{ℕ}

-- `EQueueTypeBits`
pub data QueueTypeBits : Type 0 where
  direct compute transfer present : QueueTypeBits

abbrev pub queue_type_bit : QueueTypeBits → ℕ
queue_type_bit direct = 0
queue_type_bit compute = 1
queue_type_bit transfer = 2
queue_type_bit present = 3

-- `EShaderTypeBits`
pub data ShaderTypeBits : Type 0 where
  vertex fragment compute geometry tessellation_control tessellation_evaluation : ShaderTypeBits

abbrev pub shader_type_bit : ShaderTypeBits → ℕ
shader_type_bit vertex = 0
shader_type_bit fragment = 1
shader_type_bit compute = 2
shader_type_bit geometry = 3
shader_type_bit tessellation_control = 4
shader_type_bit tessellation_evaluation = 5

-- `EImageUsageBits`
pub data ImageUsageBits : Type 0 where
  sampled_image storage_image color_attachment depth_stencil_attachment transfer_src transfer_dst
        undefined :
      ImageUsageBits

-- the bits of its flags
abbrev pub image_use_sampled_image_bit : ℕ
image_use_sampled_image_bit = 0

abbrev pub image_use_storage_image_bit : ℕ
image_use_storage_image_bit = 1

abbrev pub image_use_color_attachment_bit : ℕ
image_use_color_attachment_bit = 2

abbrev pub image_use_depth_stencil_attachment_bit : ℕ
image_use_depth_stencil_attachment_bit = 3

abbrev pub image_use_transfer_src_bit : ℕ
image_use_transfer_src_bit = 4

abbrev pub image_use_transfer_dst_bit : ℕ
image_use_transfer_dst_bit = 5

-- `EBufferUsageBits`
pub data BufferUsageBits : Type 0 where
  vertex_buffer index_buffer uniform_buffer storage_buffer indirect_buffer transfer_src transfer_dst
        undefined :
      BufferUsageBits

-- the bits of its flags
abbrev pub buffer_use_vertex_buffer_bit : ℕ
buffer_use_vertex_buffer_bit = 0

abbrev pub buffer_use_index_buffer_bit : ℕ
buffer_use_index_buffer_bit = 1

abbrev pub buffer_use_uniform_buffer_bit : ℕ
buffer_use_uniform_buffer_bit = 2

abbrev pub buffer_use_storage_buffer_bit : ℕ
buffer_use_storage_buffer_bit = 3

abbrev pub buffer_use_indirect_buffer_bit : ℕ
buffer_use_indirect_buffer_bit = 4

abbrev pub buffer_use_transfer_src_bit : ℕ
buffer_use_transfer_src_bit = 5

abbrev pub buffer_use_transfer_dst_bit : ℕ
buffer_use_transfer_dst_bit = 6

-- `EPixelFormat`
pub data PixelFormat : Type 0 where
  unknown r8g8b8a8_unorm b8g8r8a8_unorm r16g16b16a16_sfloat d32_sfloat d24_unorm_s8_uint :
      PixelFormat

-- `EVertexFormat`
pub data VertexFormat : Type 0 where
  undefined float32 float32x2 float32x3 float32x4 uint32 uint32x2 uint32x3 uint32x4 : VertexFormat

-- `EImageViewType`
pub data ImageViewType : Type 0 where
  d1 d2 d3 cube d1_array d2_array cube_array : ImageViewType

-- `ESwizzleMapping`
pub data SwizzleMapping : Type 0 where
  identity zero one r g b a : SwizzleMapping
