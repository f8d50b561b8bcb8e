-- ===== src/Platform.antt =====
-- ecs/platform: windows, messages and the message loop.
pub mod Win32
pub mod Key
pub mod Events
pub mod MessageLoop
mod Tests
