-- ===== src/Lib.antt =====
-- engiCs is a game engine in C++23. This library models the parts that carry its own logic, with
-- theorems about them.
--
-- The parts. A work-stealing deque (ecs/concurrency/container/deque.cpp) is the queue of each worker
-- thread. The workers of a pool (ecs/concurrency/run_loop/worker_loop.cpp) take tasks from their own
-- deque, from a shared queue and from each other's deques; the pool
-- (ecs/concurrency/threadpool) sends a task to them or to an event loop by a configuration.
-- The rendering interface (ecs/rhi) records render passes and describes images and buffers, and its
-- Vulkan back end (ecs/rhi/vulkan) converts the descriptions, picks a
-- device with its queues, describes render passes to it and sets up a swap chain. The platform
-- layer (ecs/platform) turns messages of Windows into events and back, and its message loop
-- dispatches a message to the listeners of the events that name it. Beside them stand a timer on an
-- event loop (ecs/concurrency/run_loop), a signal and an emitter with lock-free lists of callbacks, a
-- value of any small type inside a buffer, and an allocator inside a buffer (ecs/core), and the masks
-- of the fast and the slow cores of the machine (ecs/concurrency/utils).
--
-- The files.
--   Base        numbers, tests, lists, and C++ integers, shared by all
--   ErrorCode   ecs/core/error_code.h and error_code.cpp
--   Deque       `WSQImpl` between whole calls: initialize, deallocate, move_from, move_assign, push,
--               pop, steal and empty are the functions of these names. Window: the tasks as a window
--               of a circular buffer; Refine: the deque as a bounded list; Moves: what a move leaves.
--               Threads: the same functions cut at their accesses of shared memory, as steps of one
--               owner and any number of thieves; Inv, OwnerStep and ThiefStep: the invariant; Linear:
--               a schedule against a bounded queue; Conserve: the counts of tasks, both where all
--               threads see one memory. Weak: the same steps with the stores of the owner in a
--               buffer; Fenced: where none waits; Twice: where one does
--   Pool        TaskQueue and Asio: what the pool takes from two libraries. WorkerLoop: `PostTask`,
--               a pass of the loop in `Run`, the wait and `Shutdown`; Held, Conserve, Find, Wakeup:
--               where tasks are, and who is woken. Config: `PostConfig`. Threadpool: `PostTask`,
--               `GetAnyThreadToken`, the operation state's `start` and `BindThreadStartsOnThreadPool`;
--               Copies, Tokens, Bound: their theorems
--   Signal      `Signal` of ecs/core/utils/single.h; Threads: Add and Remove cut at their accesses of
--               shared members; Atomic, Calls: what threads together and a call alone make of it
--   Memory      Stack: `AlignedStackPmr` of ecs/core/memory/memory.h; Layout: where objects stand;
--               Allocate, Move: its theorems
--   Rhi         Defs: enumerations. Attachment: `AttachmentDesc`. RenderPass: `RenderPassBuilder`,
--               one function per member; NameMap, Invariant, Chain: its theorems. Vulkan: Headers is
--               what the code takes from the Vulkan headers, Enums the engine's enumerations, Queue,
--               Usage, Format, View and Attachments the conversions, Table their two shapes,
--               Documented, Values and Flags the ways there and back; SwapChain: what
--               `VkSwapChain::Create` chooses from what a surface offers, and Choices its theorems;
--               FormatSize: `FormatSize`, its switch in the parts Small, Medium and Large;
--               Context: how `VkContext` picks a device and its queues; Choice, Buffers, Creation and
--               Devices: the queue of a type of work, from `GetQueueIndex` up to `CreateCommandBuffer`,
--               and the first call of `Initialize`;
--               Passes: the description that `VkRenderPass::DeviceCreate` gives to Vulkan; Reads and
--               Described: what Vulkan reads in it
--   Platform    Win32: what the code takes from Windows. Key: `Key` and `GetKeyFromWParam`. Events:
--               `EventConverter`; Window, Mouse and Keyboard its specialisations; RoundTrip, KeyTrip
--               and Registered their theorems. MessageLoop: `On`, `SetHandler` (handle_by) and
--               `dispatch` over Containers, the maps of Boost, which FunctionMaps fills, and
--               Schedulers; Window: `WindowProc`, `PoolEvent`, `Post`; Tasks and Run: `PostTask` and
--               `Run`; Invariant, Dispatch, Delivery, History, Calls and Posted: who hears of a
--               message
--   EventLoop   Timer: the waits of `Timer` of ecs/concurrency/run_loop/event_loop.cpp, on a timer of
--               asio; Waits: its theorems; Owners: the constructor, destructor and moves of `Timer`
--   SsoAny      `SsoAny` of ecs/core/utils/sso_any.h on a memory of objects; Sound: what variables
--               hold; Lifetimes: what is destroyed
--   Emitter     `TypeEmitter` of ecs/core/utils/emitter.h and its tokens; Ordered: its theorems
--   Processors  `GetCoreMask` of ecs/concurrency/utils/processor_info.cpp; Ordered: its lists on sorted
--               processors; Masks: the same by the cores of the machine
--
-- How code is read. A pointer, a handle and a task are numbers, with 0 for null where the code tests
-- for it. A 64-bit counter wraps by `% 2 ^ 64`, an index of 32 bits by `% 2 ^ 32`, and an `int` is an
-- integer. `none` as the result of a call is a fault: a read through a null buffer, an assertion that
-- fails or undefined behaviour. Flags of 8 or 32 bits are functions from the numbers of their bits.
-- A variable that is not initialised is an argument. A loop runs over a list, and an execution of many
-- threads is a list of events; only `Run` of the message loop has fuel, one for its turns and one for
-- the tasks of a turn, of which Run shows that they are enough where each task posts finitely many.
--
-- Assumed. The shared queue and the event loop keep what they are given. Windows and Vulkan have their
-- documented numbers. The maps of the message loop, the timer of asio, `std::lower_bound` and
-- `std::ranges::sort` do what is documented of them.
-- The memory of the deque is one with a buffer for the stores of the owner, as on x86; the release and
-- acquire orders of C++ allow more than that. Its counters stay below 2 ^ 64. The memory of a signal is
-- sequentially consistent: it is one atomic pointer. A call of a deque by a worker of the pool is one
-- step. The first value of a result that `FromVulkan` does not initialise is an argument.
--
-- Not modelled: input and output, the calls of Windows and Vulkan, third-party containers, the string
-- and logging code, and the pipelines of Vulkan.
pub mod Base
pub mod ErrorCode
pub mod Deque
pub mod Pool
pub mod Signal
pub mod Memory
pub mod Rhi
pub mod Platform
pub mod Emitter
pub mod EventLoop
pub mod Processors
pub mod SsoAny
