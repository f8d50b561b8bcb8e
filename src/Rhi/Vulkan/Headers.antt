-- ===== src/Rhi/Vulkan/Headers.antt =====
-- What ecs/rhi/vulkan/defs.cpp and swap_chain.cpp take from the Vulkan headers, which are not in
-- the repository: the numbers of the enumerators that they name, and of a flag the number of its
-- bit.
use engi_cs.Base.{ℕ}

pub data VkQueue : Type 0 where
  graphics compute transfer : VkQueue

abbrev documented_queue : VkQueue → ℕ
documented_queue graphics = 0
documented_queue compute = 1
documented_queue transfer = 2

pub data VkStage : Type 0 where
  vertex tessellation_control tessellation_evaluation geometry fragment compute : VkStage

abbrev documented_stage : VkStage → ℕ
documented_stage vertex = 0
documented_stage tessellation_control = 1
documented_stage tessellation_evaluation = 2
documented_stage geometry = 3
documented_stage fragment = 4
documented_stage compute = 5

pub data VkImageUsage : Type 0 where
  transfer_src transfer_dst sampled storage color_attachment depth_stencil_attachment : VkImageUsage

abbrev documented_image_usage : VkImageUsage → ℕ
documented_image_usage transfer_src = 0
documented_image_usage transfer_dst = 1
documented_image_usage sampled = 2
documented_image_usage storage = 3
documented_image_usage color_attachment = 4
documented_image_usage depth_stencil_attachment = 5

pub data VkBufferUsage : Type 0 where
  transfer_src transfer_dst uniform_buffer storage_buffer index_buffer vertex_buffer
        indirect_buffer :
      VkBufferUsage

abbrev documented_buffer_usage : VkBufferUsage → ℕ
documented_buffer_usage transfer_src = 0
documented_buffer_usage transfer_dst = 1
documented_buffer_usage uniform_buffer = 4
documented_buffer_usage storage_buffer = 5
documented_buffer_usage index_buffer = 6
documented_buffer_usage vertex_buffer = 7
documented_buffer_usage indirect_buffer = 8

pub data VkAspect : Type 0 where
  color depth stencil : VkAspect

abbrev documented_aspect : VkAspect → ℕ
documented_aspect color = 0
documented_aspect depth = 1
documented_aspect stencil = 2

pub data VkFormat : Type 0 where
  undefined r8g8b8a8_unorm b8g8r8a8_unorm b8g8r8a8_srgb r16g16b16a16_sfloat r32_uint r32_sfloat
        r32g32_uint r32g32_sfloat r32g32b32_uint r32g32b32_sfloat r32g32b32a32_uint
        r32g32b32a32_sfloat d32_sfloat d24_unorm_s8_uint :
      VkFormat

abbrev documented_format : VkFormat → ℕ
documented_format undefined = 0
documented_format r8g8b8a8_unorm = 37
documented_format b8g8r8a8_unorm = 44
documented_format b8g8r8a8_srgb = 50
documented_format r16g16b16a16_sfloat = 97
documented_format r32_uint = 98
documented_format r32_sfloat = 100
documented_format r32g32_uint = 101
documented_format r32g32_sfloat = 103
documented_format r32g32b32_uint = 104
documented_format r32g32b32_sfloat = 106
documented_format r32g32b32a32_uint = 107
documented_format r32g32b32a32_sfloat = 109
documented_format d32_sfloat = 126
documented_format d24_unorm_s8_uint = 129

pub data VkColorSpace : Type 0 where
  srgb_nonlinear : VkColorSpace

abbrev documented_color_space : VkColorSpace → ℕ
documented_color_space srgb_nonlinear = 0

pub data VkPresentMode : Type 0 where
  immediate mailbox fifo : VkPresentMode

abbrev documented_present_mode : VkPresentMode → ℕ
documented_present_mode immediate = 0
documented_present_mode mailbox = 1
documented_present_mode fifo = 2

pub data VkViewType : Type 0 where
  d1 d2 d3 cube d1_array d2_array cube_array : VkViewType

abbrev documented_view_type : VkViewType → ℕ
documented_view_type d1 = 0
documented_view_type d2 = 1
documented_view_type d3 = 2
documented_view_type cube = 3
documented_view_type d1_array = 4
documented_view_type d2_array = 5
documented_view_type cube_array = 6

pub data VkSwizzle : Type 0 where
  identity zero one r g b a : VkSwizzle

abbrev documented_swizzle : VkSwizzle → ℕ
documented_swizzle identity = 0
documented_swizzle zero = 1
documented_swizzle one = 2
documented_swizzle r = 3
documented_swizzle g = 4
documented_swizzle b = 5
documented_swizzle a = 6

pub data VkLoadOp : Type 0 where
  load clear dont_care op_none : VkLoadOp

abbrev documented_load_op : VkLoadOp → ℕ
documented_load_op load = 0
documented_load_op clear = 1
documented_load_op dont_care = 2
documented_load_op op_none = 1000400000

pub data VkStoreOp : Type 0 where
  store dont_care op_none : VkStoreOp

abbrev documented_store_op : VkStoreOp → ℕ
documented_store_op store = 0
documented_store_op dont_care = 1
documented_store_op op_none = 1000301000

pub data VkLayout : Type 0 where
  undefined general color_attachment_optimal depth_stencil_attachment_optimal
        depth_stencil_read_only_optimal shader_read_only_optimal transfer_src_optimal
        transfer_dst_optimal present_src :
      VkLayout

abbrev documented_layout : VkLayout → ℕ
documented_layout undefined = 0
documented_layout general = 1
documented_layout color_attachment_optimal = 2
documented_layout depth_stencil_attachment_optimal = 3
documented_layout depth_stencil_read_only_optimal = 4
documented_layout shader_read_only_optimal = 5
documented_layout transfer_src_optimal = 6
documented_layout transfer_dst_optimal = 7
documented_layout present_src = 1000001002

pub record Vulkan : Type 0 where
  pub queue_bit : VkQueue → ℕ
  pub stage_bit : VkStage → ℕ
  pub image_usage_bit : VkImageUsage → ℕ
  pub buffer_usage_bit : VkBufferUsage → ℕ
  pub aspect_bit : VkAspect → ℕ
  pub format_value : VkFormat → ℕ
  pub color_space_value : VkColorSpace → ℕ
  pub present_mode_value : VkPresentMode → ℕ
  pub view_type_value : VkViewType → ℕ
  pub swizzle_value : VkSwizzle → ℕ
  pub load_op_value : VkLoadOp → ℕ
  pub store_op_value : VkStoreOp → ℕ
  pub layout_value : VkLayout → ℕ

-- The headers as they are documented.
abbrev pub documented : Vulkan
documented = record {
  queue_bit = documented_queue;
  stage_bit = documented_stage;
  image_usage_bit = documented_image_usage;
  buffer_usage_bit = documented_buffer_usage;
  aspect_bit = documented_aspect;
  format_value = documented_format;
  color_space_value = documented_color_space;
  present_mode_value = documented_present_mode;
  view_type_value = documented_view_type;
  swizzle_value = documented_swizzle;
  load_op_value = documented_load_op;
  store_op_value = documented_store_op;
  layout_value = documented_layout;
}
