-- ===== src/Rhi/Defs.antt =====
-- ecs/rhi/defs.h: the enumerations that describe render passes, with the enumerators' values,
-- which `==` compares.
use engi_cs.Base.{ℕ}

pub data ImageLayout : Type 0 where
  undefined common uninitialized render_target depth_stencil_write depth_stencil_read
        shader_resource unordered_access copy_source copy_destination present resolve_source
        resolve_destination :
      ImageLayout

abbrev pub layout_value : ImageLayout → ℕ
layout_value undefined = 0
layout_value common = 1
layout_value uninitialized = 2
layout_value render_target = 3
layout_value depth_stencil_write = 4
layout_value depth_stencil_read = 5
layout_value shader_resource = 6
layout_value unordered_access = 7
layout_value copy_source = 8
layout_value copy_destination = 9
layout_value present = 10
layout_value resolve_source = 11
layout_value resolve_destination = 12

pub data LoadOp : Type 0 where
  undefined load clear discard : LoadOp

abbrev pub load_op_value : LoadOp → ℕ
load_op_value undefined = 0
load_op_value load = 1
load_op_value clear = 2
load_op_value discard = 3

pub data StoreOp : Type 0 where
  undefined store discard : StoreOp

abbrev pub store_op_value : StoreOp → ℕ
store_op_value undefined = 0
store_op_value store = 1
store_op_value discard = 2

pub data AttachmentType : Type 0 where
  color depth depth_stencil : AttachmentType

abbrev pub attachment_type_value : AttachmentType → ℕ
attachment_type_value color = 0
attachment_type_value depth = 1
attachment_type_value depth_stencil = 2

-- `EImageAspectFlagBits`
pub data ImageAspect : Type 0 where
  color depth stencil : ImageAspect
