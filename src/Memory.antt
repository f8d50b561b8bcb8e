-- ===== src/Memory.antt =====
-- ecs/core/memory: allocators.
pub mod Stack
mod Tests
