-- ===== src/Rhi/Vulkan.antt =====
-- ecs/rhi/vulkan/defs.cpp: the conversions between the engine's enumerations and Vulkan's.
pub mod Headers
pub mod Enums
pub mod Table
pub mod Queue
pub mod Usage
pub mod Format
pub mod View
pub mod Attachments
pub mod SwapChain
pub mod Documented
pub mod Values
pub mod Flags
pub mod FormatSize
pub mod Context
pub mod Passes
