-- ===== src/Pool.antt =====
-- ecs/concurrency/run_loop and ecs/concurrency/threadpool.
pub mod TaskQueue
pub mod WorkerLoop
pub mod Asio
pub mod Config
pub mod Threadpool
mod Tests
