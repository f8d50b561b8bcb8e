-- ===== src/Rhi/Vulkan/Queue.antt =====
-- ecs/rhi/vulkan/defs.cpp: the kinds of queues and the stages of shaders.
use engi_cs.Base.{ℕ, ◌^◌, Option, none, some, List, [], ◌∷◌, Bool, false}
use engi_cs.Rhi.Vulkan.Headers.{VkQueue, VkStage, Vulkan}
use engi_cs.Rhi.Vulkan.Enums.{QueueTypeBits, ShaderTypeBits, queue_type_bit, shader_type_bit}
use engi_cs.Rhi.Vulkan.Table.{switch_on, translate}

module _ (vulkan : Vulkan) where
  open vulkan use {queue_bit, stage_bit}

  unfoldable pub queue_to_vulkan : QueueTypeBits → Option ℕ
  queue_to_vulkan QueueTypeBits.direct = some (2 ^ queue_bit VkQueue.graphics)
  queue_to_vulkan QueueTypeBits.compute = some (2 ^ queue_bit VkQueue.compute)
  queue_to_vulkan QueueTypeBits.transfer = some (2 ^ queue_bit VkQueue.transfer)
  queue_to_vulkan QueueTypeBits.present = some (2 ^ queue_bit VkQueue.graphics)

  unfoldable pub queue_from_vulkan : ℕ → Option QueueTypeBits
  queue_from_vulkan n =
      switch_on (λ v. 2 ^ queue_bit v)
        ((VkQueue.graphics, QueueTypeBits.direct)
          ∷ (VkQueue.compute, QueueTypeBits.compute)
          ∷ (VkQueue.transfer, QueueTypeBits.transfer)
          ∷ [])
        none n

  abbrev pub queues_to_vulkan_rows : List (ℕ × ℕ)
  queues_to_vulkan_rows =
      (queue_type_bit QueueTypeBits.direct, queue_bit VkQueue.graphics)
      ∷ (queue_type_bit QueueTypeBits.compute, queue_bit VkQueue.compute)
      ∷ (queue_type_bit QueueTypeBits.transfer, queue_bit VkQueue.transfer)
      ∷ (queue_type_bit QueueTypeBits.present, queue_bit VkQueue.graphics)
      ∷ []

  unfoldable pub queues_to_vulkan : (ℕ → Bool) → ℕ → Bool
  queues_to_vulkan bits = translate queues_to_vulkan_rows bits (λ j. false)

  abbrev pub queues_from_vulkan_rows : List (ℕ × ℕ)
  queues_from_vulkan_rows =
      (queue_bit VkQueue.graphics, queue_type_bit QueueTypeBits.direct)
      ∷ (queue_bit VkQueue.compute, queue_type_bit QueueTypeBits.compute)
      ∷ (queue_bit VkQueue.transfer, queue_type_bit QueueTypeBits.transfer)
      ∷ []

  -- `result` is not initialised: its bits are an argument.
  unfoldable pub queues_from_vulkan : (ℕ → Bool) → (ℕ → Bool) → ℕ → Bool
  queues_from_vulkan result bits = translate queues_from_vulkan_rows bits result

  unfoldable pub shader_to_vulkan : ShaderTypeBits → Option ℕ
  shader_to_vulkan ShaderTypeBits.vertex = some (2 ^ stage_bit VkStage.vertex)
  shader_to_vulkan ShaderTypeBits.fragment = some (2 ^ stage_bit VkStage.fragment)
  shader_to_vulkan ShaderTypeBits.compute = some (2 ^ stage_bit VkStage.compute)
  shader_to_vulkan ShaderTypeBits.geometry = some (2 ^ stage_bit VkStage.geometry)
  shader_to_vulkan ShaderTypeBits.tessellation_control =
      some (2 ^ stage_bit VkStage.tessellation_control)
  shader_to_vulkan ShaderTypeBits.tessellation_evaluation =
      some (2 ^ stage_bit VkStage.tessellation_evaluation)

  unfoldable pub shader_from_vulkan : ℕ → Option ShaderTypeBits
  shader_from_vulkan n =
      switch_on (λ v. 2 ^ stage_bit v)
        ((VkStage.vertex, ShaderTypeBits.vertex)
          ∷ (VkStage.tessellation_control, ShaderTypeBits.tessellation_control)
          ∷ (VkStage.tessellation_evaluation, ShaderTypeBits.tessellation_evaluation)
          ∷ (VkStage.geometry, ShaderTypeBits.geometry)
          ∷ (VkStage.fragment, ShaderTypeBits.fragment)
          ∷ (VkStage.compute, ShaderTypeBits.compute)
          ∷ [])
        none n

  abbrev pub shaders_to_vulkan_rows : List (ℕ × ℕ)
  shaders_to_vulkan_rows =
      (shader_type_bit ShaderTypeBits.vertex, stage_bit VkStage.vertex)
      ∷ (shader_type_bit ShaderTypeBits.fragment, stage_bit VkStage.fragment)
      ∷ (shader_type_bit ShaderTypeBits.compute, stage_bit VkStage.compute)
      ∷ (shader_type_bit ShaderTypeBits.geometry, stage_bit VkStage.geometry)
      ∷ (
        shader_type_bit ShaderTypeBits.tessellation_control,
        stage_bit VkStage.tessellation_control,
      )
      ∷ (
        shader_type_bit ShaderTypeBits.tessellation_evaluation,
        stage_bit VkStage.tessellation_evaluation,
      )
      ∷ []

  unfoldable pub shaders_to_vulkan : (ℕ → Bool) → ℕ → Bool
  shaders_to_vulkan bits = translate shaders_to_vulkan_rows bits (λ j. false)

  abbrev pub shaders_from_vulkan_rows : List (ℕ × ℕ)
  shaders_from_vulkan_rows =
      (stage_bit VkStage.vertex, shader_type_bit ShaderTypeBits.vertex)
      ∷ (stage_bit VkStage.fragment, shader_type_bit ShaderTypeBits.fragment)
      ∷ (stage_bit VkStage.compute, shader_type_bit ShaderTypeBits.compute)
      ∷ (stage_bit VkStage.geometry, shader_type_bit ShaderTypeBits.geometry)
      ∷ (
        stage_bit VkStage.tessellation_control,
        shader_type_bit ShaderTypeBits.tessellation_control,
      )
      ∷ (
        stage_bit VkStage.tessellation_evaluation,
        shader_type_bit ShaderTypeBits.tessellation_evaluation,
      )
      ∷ []

  -- `result` is not initialised: its bits are an argument.
  unfoldable pub shaders_from_vulkan : (ℕ → Bool) → (ℕ → Bool) → ℕ → Bool
  shaders_from_vulkan result bits = translate shaders_from_vulkan_rows bits result
