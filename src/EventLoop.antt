-- ===== src/EventLoop.antt =====
-- ecs/concurrency/run_loop/event_loop.h and event_loop.cpp: the timer of an event loop. What the
-- loop itself does, posts and runs, is asio's.
pub mod Timer
pub mod Waits
pub mod Owners
mod Tests
