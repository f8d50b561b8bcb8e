-- ===== src/Rhi.antt =====
-- ecs/rhi: the interface to the graphics API.
pub mod Defs
pub mod Attachment
pub mod RenderPass
pub mod Vulkan
mod Tests
