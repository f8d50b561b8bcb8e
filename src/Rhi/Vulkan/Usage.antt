-- ===== src/Rhi/Vulkan/Usage.antt =====
-- ecs/rhi/vulkan/defs.cpp: the uses of images and of buffers.
use engi_cs.Base.{ℕ, ◌^◌, Option, none, some, List, [], ◌∷◌, Bool, false}
use engi_cs.Rhi.Vulkan.Headers.{VkImageUsage, VkBufferUsage, Vulkan}
use engi_cs.Rhi.Vulkan.Enums.{
  ImageUsageBits, BufferUsageBits, image_use_sampled_image_bit, image_use_storage_image_bit,
  image_use_color_attachment_bit, image_use_depth_stencil_attachment_bit,
  image_use_transfer_src_bit, image_use_transfer_dst_bit, buffer_use_vertex_buffer_bit,
  buffer_use_index_buffer_bit, buffer_use_uniform_buffer_bit, buffer_use_storage_buffer_bit,
  buffer_use_indirect_buffer_bit, buffer_use_transfer_src_bit, buffer_use_transfer_dst_bit,
}
use engi_cs.Rhi.Vulkan.Table.{switch_on, translate}

module _ (vulkan : Vulkan) where
  open vulkan use {image_usage_bit, buffer_usage_bit}

  unfoldable pub image_usage_from_vulkan : ℕ → Option ImageUsageBits
  image_usage_from_vulkan n =
      switch_on (λ v. 2 ^ image_usage_bit v)
        ((VkImageUsage.transfer_src, ImageUsageBits.transfer_src)
          ∷ (VkImageUsage.transfer_dst, ImageUsageBits.transfer_dst)
          ∷ (VkImageUsage.sampled, ImageUsageBits.sampled_image)
          ∷ (VkImageUsage.storage, ImageUsageBits.storage_image)
          ∷ (VkImageUsage.color_attachment, ImageUsageBits.color_attachment)
          ∷ (VkImageUsage.depth_stencil_attachment, ImageUsageBits.depth_stencil_attachment)
          ∷ [])
        none n

  unfoldable pub image_usage_to_vulkan : ImageUsageBits → Option ℕ
  image_usage_to_vulkan ImageUsageBits.undefined = some (2 ^ image_usage_bit VkImageUsage.storage)
  image_usage_to_vulkan ImageUsageBits.sampled_image =
      some (2 ^ image_usage_bit VkImageUsage.sampled)
  image_usage_to_vulkan ImageUsageBits.storage_image =
      some (2 ^ image_usage_bit VkImageUsage.storage)
  image_usage_to_vulkan ImageUsageBits.color_attachment =
      some (2 ^ image_usage_bit VkImageUsage.color_attachment)
  image_usage_to_vulkan ImageUsageBits.depth_stencil_attachment =
      some (2 ^ image_usage_bit VkImageUsage.depth_stencil_attachment)
  image_usage_to_vulkan ImageUsageBits.transfer_src =
      some (2 ^ image_usage_bit VkImageUsage.transfer_src)
  image_usage_to_vulkan ImageUsageBits.transfer_dst =
      some (2 ^ image_usage_bit VkImageUsage.transfer_dst)

  abbrev pub image_usages_from_vulkan_rows : List (ℕ × ℕ)
  image_usages_from_vulkan_rows =
      (image_usage_bit VkImageUsage.storage, image_use_storage_image_bit)
      ∷ (image_usage_bit VkImageUsage.sampled, image_use_sampled_image_bit)
      ∷ (image_usage_bit VkImageUsage.transfer_src, image_use_transfer_src_bit)
      ∷ (image_usage_bit VkImageUsage.transfer_dst, image_use_transfer_dst_bit)
      ∷ (image_usage_bit VkImageUsage.color_attachment, image_use_color_attachment_bit)
      ∷ (
        image_usage_bit VkImageUsage.depth_stencil_attachment,
        image_use_depth_stencil_attachment_bit,
      )
      ∷ []

  -- `result` is not initialised: its bits are an argument.
  unfoldable pub image_usages_from_vulkan : (ℕ → Bool) → (ℕ → Bool) → ℕ → Bool
  image_usages_from_vulkan result bits = translate image_usages_from_vulkan_rows bits result

  abbrev pub image_usages_to_vulkan_rows : List (ℕ × ℕ)
  image_usages_to_vulkan_rows =
      (image_use_storage_image_bit, image_usage_bit VkImageUsage.storage)
      ∷ (image_use_sampled_image_bit, image_usage_bit VkImageUsage.sampled)
      ∷ (image_use_transfer_src_bit, image_usage_bit VkImageUsage.transfer_src)
      ∷ (image_use_transfer_dst_bit, image_usage_bit VkImageUsage.transfer_dst)
      ∷ (image_use_color_attachment_bit, image_usage_bit VkImageUsage.color_attachment)
      ∷ (
        image_use_depth_stencil_attachment_bit,
        image_usage_bit VkImageUsage.depth_stencil_attachment,
      )
      ∷ []

  unfoldable pub image_usages_to_vulkan : (ℕ → Bool) → ℕ → Bool
  image_usages_to_vulkan bits = translate image_usages_to_vulkan_rows bits (λ j. false)

  unfoldable pub buffer_usage_from_vulkan : ℕ → Option BufferUsageBits
  buffer_usage_from_vulkan n =
      switch_on (λ v. 2 ^ buffer_usage_bit v)
        ((VkBufferUsage.transfer_src, BufferUsageBits.transfer_src)
          ∷ (VkBufferUsage.transfer_dst, BufferUsageBits.transfer_dst)
          ∷ (VkBufferUsage.uniform_buffer, BufferUsageBits.uniform_buffer)
          ∷ (VkBufferUsage.storage_buffer, BufferUsageBits.storage_buffer)
          ∷ (VkBufferUsage.index_buffer, BufferUsageBits.index_buffer)
          ∷ (VkBufferUsage.vertex_buffer, BufferUsageBits.vertex_buffer)
          ∷ (VkBufferUsage.indirect_buffer, BufferUsageBits.index_buffer)
          ∷ [])
        none n

  unfoldable pub buffer_usage_to_vulkan : BufferUsageBits → Option ℕ
  buffer_usage_to_vulkan BufferUsageBits.vertex_buffer =
      some (2 ^ buffer_usage_bit VkBufferUsage.vertex_buffer)
  buffer_usage_to_vulkan BufferUsageBits.index_buffer =
      some (2 ^ buffer_usage_bit VkBufferUsage.index_buffer)
  buffer_usage_to_vulkan BufferUsageBits.uniform_buffer =
      some (2 ^ buffer_usage_bit VkBufferUsage.uniform_buffer)
  buffer_usage_to_vulkan BufferUsageBits.storage_buffer =
      some (2 ^ buffer_usage_bit VkBufferUsage.storage_buffer)
  buffer_usage_to_vulkan BufferUsageBits.indirect_buffer =
      some (2 ^ buffer_usage_bit VkBufferUsage.indirect_buffer)
  buffer_usage_to_vulkan BufferUsageBits.transfer_src =
      some (2 ^ buffer_usage_bit VkBufferUsage.transfer_src)
  buffer_usage_to_vulkan BufferUsageBits.transfer_dst =
      some (2 ^ buffer_usage_bit VkBufferUsage.transfer_dst)
  buffer_usage_to_vulkan BufferUsageBits.undefined = none

  abbrev pub buffer_usages_from_vulkan_rows : List (ℕ × ℕ)
  buffer_usages_from_vulkan_rows =
      (buffer_usage_bit VkBufferUsage.vertex_buffer, buffer_use_vertex_buffer_bit)
      ∷ (buffer_usage_bit VkBufferUsage.index_buffer, buffer_use_index_buffer_bit)
      ∷ (buffer_usage_bit VkBufferUsage.uniform_buffer, buffer_use_uniform_buffer_bit)
      ∷ (buffer_usage_bit VkBufferUsage.storage_buffer, buffer_use_storage_buffer_bit)
      ∷ (buffer_usage_bit VkBufferUsage.indirect_buffer, buffer_use_indirect_buffer_bit)
      ∷ (buffer_usage_bit VkBufferUsage.transfer_src, buffer_use_transfer_src_bit)
      ∷ (buffer_usage_bit VkBufferUsage.transfer_dst, buffer_use_transfer_dst_bit)
      ∷ []

  -- `result` is not initialised: its bits are an argument.
  unfoldable pub buffer_usages_from_vulkan : (ℕ → Bool) → (ℕ → Bool) → ℕ → Bool
  buffer_usages_from_vulkan result bits = translate buffer_usages_from_vulkan_rows bits result

  abbrev pub buffer_usages_to_vulkan_rows : List (ℕ × ℕ)
  buffer_usages_to_vulkan_rows =
      (buffer_use_vertex_buffer_bit, buffer_usage_bit VkBufferUsage.vertex_buffer)
      ∷ (buffer_use_index_buffer_bit, buffer_usage_bit VkBufferUsage.index_buffer)
      ∷ (buffer_use_uniform_buffer_bit, buffer_usage_bit VkBufferUsage.uniform_buffer)
      ∷ (buffer_use_storage_buffer_bit, buffer_usage_bit VkBufferUsage.storage_buffer)
      ∷ (buffer_use_indirect_buffer_bit, buffer_usage_bit VkBufferUsage.indirect_buffer)
      ∷ (buffer_use_transfer_src_bit, buffer_usage_bit VkBufferUsage.transfer_src)
      ∷ (buffer_use_transfer_dst_bit, buffer_usage_bit VkBufferUsage.transfer_dst)
      ∷ []

  unfoldable pub buffer_usages_to_vulkan : (ℕ → Bool) → ℕ → Bool
  buffer_usages_to_vulkan bits = translate buffer_usages_to_vulkan_rows bits (λ j. false)
