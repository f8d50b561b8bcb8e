-- ===== src/Rhi/Vulkan/Attachments.antt =====
-- ecs/rhi/vulkan/defs.cpp: what a pass does with an attachment, and the layouts of images.
use engi_cs.Base.{ℕ, Option, some, [], ◌∷◌}
use engi_cs.Rhi.Defs.{LoadOp, StoreOp, ImageLayout}
use engi_cs.Rhi.Vulkan.Headers.{VkLoadOp, VkStoreOp, VkLayout, Vulkan}
use engi_cs.Rhi.Vulkan.Table.{switch_on}

module _ (vulkan : Vulkan) where
  open vulkan use {load_op_value, store_op_value, layout_value}

  unfoldable pub load_op_from_vulkan : ℕ → Option LoadOp
  load_op_from_vulkan n =
      switch_on load_op_value
        ((VkLoadOp.load, LoadOp.load)
          ∷ (VkLoadOp.clear, LoadOp.clear)
          ∷ (VkLoadOp.dont_care, LoadOp.discard)
          ∷ [])
        (some LoadOp.undefined) n

  unfoldable pub load_op_to_vulkan : LoadOp → Option ℕ
  load_op_to_vulkan LoadOp.load = some (load_op_value VkLoadOp.load)
  load_op_to_vulkan LoadOp.clear = some (load_op_value VkLoadOp.clear)
  load_op_to_vulkan LoadOp.discard = some (load_op_value VkLoadOp.dont_care)
  load_op_to_vulkan LoadOp.undefined = some (load_op_value VkLoadOp.op_none)

  unfoldable pub store_op_from_vulkan : ℕ → Option StoreOp
  store_op_from_vulkan n =
      switch_on store_op_value
        ((VkStoreOp.store, StoreOp.store) ∷ (VkStoreOp.dont_care, StoreOp.discard) ∷ [])
        (some StoreOp.undefined) n

  unfoldable pub store_op_to_vulkan : StoreOp → Option ℕ
  store_op_to_vulkan StoreOp.store = some (store_op_value VkStoreOp.store)
  store_op_to_vulkan StoreOp.discard = some (store_op_value VkStoreOp.dont_care)
  store_op_to_vulkan StoreOp.undefined = some (store_op_value VkStoreOp.op_none)

  unfoldable pub layout_to_vulkan : ImageLayout → Option ℕ
  layout_to_vulkan ImageLayout.undefined = some (layout_value VkLayout.undefined)
  layout_to_vulkan ImageLayout.common = some (layout_value VkLayout.general)
  layout_to_vulkan ImageLayout.unordered_access = some (layout_value VkLayout.general)
  layout_to_vulkan ImageLayout.uninitialized = some (layout_value VkLayout.undefined)
  layout_to_vulkan ImageLayout.render_target = some (layout_value VkLayout.color_attachment_optimal)
  layout_to_vulkan ImageLayout.depth_stencil_write =
      some (layout_value VkLayout.depth_stencil_attachment_optimal)
  layout_to_vulkan ImageLayout.depth_stencil_read =
      some (layout_value VkLayout.depth_stencil_read_only_optimal)
  layout_to_vulkan ImageLayout.shader_resource =
      some (layout_value VkLayout.shader_read_only_optimal)
  layout_to_vulkan ImageLayout.copy_source = some (layout_value VkLayout.transfer_src_optimal)
  layout_to_vulkan ImageLayout.copy_destination = some (layout_value VkLayout.transfer_dst_optimal)
  layout_to_vulkan ImageLayout.present = some (layout_value VkLayout.present_src)
  layout_to_vulkan ImageLayout.resolve_source = some (layout_value VkLayout.transfer_src_optimal)
  layout_to_vulkan ImageLayout.resolve_destination =
      some (layout_value VkLayout.transfer_src_optimal)
