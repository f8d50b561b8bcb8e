-- ===== src/Rhi/Vulkan/Context.antt =====
-- ecs/rhi/vulkan/context.cpp and context.h: how `VkContext` picks a device and the queue for a type of
-- work. A device, a queue and a pool are numbers; the flags of a queue are given by their 8 bits.
pub mod Choice
pub mod Buffers
pub mod Creation
pub mod Devices
mod Tests
use engi_cs.Rhi.Vulkan.Headers.{Vulkan}
use engi_cs.Rhi.Vulkan.Queue.{queues_from_vulkan}
use engi_cs.Base.{
  map, ℕ, zero, suc, ◌+◌, ◌-◌, ◌%◌, ◌^◌, Bool, true, false, not, ◌&&◌, ◌||◌, Option, none, some,
  List, [], ◌∷◌, ◌++◌, ◌==◌, ltb, leb, if◌then◌else◌, get_elem?, length, update,
}

abbrev pub Flags : Type 0
Flags = ℕ → Bool

-- All of the first bits, and the number of those that are set.
abbrev pub all_bits : ℕ → Flags → Bool
all_bits zero bits = true
all_bits (suc n) bits = bits n && all_bits n bits

abbrev pub popcount : ℕ → Flags → ℕ
popcount zero bits = 0
popcount (suc n) bits = (if bits n then 1 else 0) + popcount n bits

-- `(flags & required) == required` and the number of bits in `flags & ~required`.
unfoldable pub covers : (flags required : Flags) → Bool
covers flags required = all_bits 8 (λ j. not (required j) || flags j)

unfoldable pub extra : (flags required : Flags) → ℕ
extra flags required = popcount 8 (λ j. flags j && not (required j))

-- The loop of `GetQueueIndex`, over `m_queueIndices`.
unfoldable pub search : List (Flags × ℕ) → Flags → (result count : ℕ) → ℕ
search [] required result count = result
search ((flags, index) ∷ es) required result count =
    let better = covers flags required && ltb (extra flags required) count in
    let rest =
      search es required (if better then index else result)
        (if better then extra flags required else count) in
    if covers flags required && extra flags required == 0 then index else rest

abbrev pub no_index : ℕ
no_index = 2 ^ 32 - 1

unfoldable pub get_queue_index : List (Flags × ℕ) → Flags → ℕ
unfolding search
get_queue_index entries required = search entries required no_index (2 ^ 31 - 1)

-- `QueueInfo`: the number of a queue family and its flags.
pub record QueueInfo : Type 0 where
  pub index : ℕ
  pub flags : Flags

-- What Vulkan says of a device: `getProperties`, and the flags of its queue families.
pub record Device : Type 0 where
  pub handle : ℕ
  pub is_discrete : Bool
  pub api_version : ℕ
  pub families : List Flags

abbrev pub present_bit : ℕ
present_bit = 3

-- The test for the surface in `findQueueFamilies`. It asks the member `m_physicalDevice`, not the
-- device that it is given; `physical` has the answers of that member, and is none while it is null.
-- A result none is a fault: the call of a null device.
unfoldable pub with_present :
    (surface : Bool) → (physical : Option (ℕ → Bool)) → ℕ → Flags → Option Flags
with_present false physical i flags = some flags
with_present true none i flags = none
with_present true (some supports) i flags =
    some (if supports i then update flags present_bit true else flags)

unfoldable pub find_queue_families :
    (surface : Bool) → (physical : Option (ℕ → Bool)) → ℕ → List Flags → Option (List QueueInfo)
unfolding with_present
find_queue_families surface physical i [] = some []
find_queue_families surface physical i (flags ∷ fs) = elim (with_present surface physical i flags) [
  | none ↦ none
  | some flags' ↦ elim (find_queue_families surface physical (i + 1) fs) [
    | none ↦ none
    | some infos ↦ some (record { index = i; flags = flags' } ∷ infos)
  ]
]

abbrev pub found_flags : List QueueInfo → Flags
found_flags [] j = false
found_flags (q ∷ qs) j = q.flags j || found_flags qs j

-- All of direct, compute, transfer and present.
unfoldable pub is_complete : List QueueInfo → Bool
is_complete qs = all_bits 4 (found_flags qs)

-- What a call comes to: a value, its own error `eErrorDeviceLost`, another error of Vulkan, or a
-- fault.
pub data Outcome {ℓ} (A : Type ℓ) : Type ℓ where
  done : A → Outcome A
  device_lost : Outcome A
  refused : Outcome A
  fault : Outcome A

-- The device that `PickPhysicalDevice` picks, with its queue families. Their flags are converted by
-- `FromVulkan`, whose result starts as the uninitialised `result`.
module _ (vulkan : Vulkan) (result : Flags) where
  unfoldable pub pick_physical_device :
      (version : ℕ)
      → (surface : Bool) → (physical : Option (ℕ → Bool)) → List Device
      → Outcome (Device × List QueueInfo)
  unfolding find_queue_families is_complete
  pick_physical_device version surface physical [] = device_lost
  pick_physical_device version surface physical (d ∷ ds) =
      let converted = map (queues_from_vulkan vulkan result) d.families in
      let rest = pick_physical_device version surface physical ds in
      if not d.is_discrete
      then rest
      else if ltb d.api_version version
      then rest
      else elim (find_queue_families surface physical 0 converted) [
        | none ↦ fault
        | some q ↦ if not (is_complete q) then rest else done (d, q)
      ]

-- `m_queues`, `m_queueIndices` and `m_cmdPools`.
pub record Context : Type 0 where
  pub queues : List ℕ
  pub queue_indices : List (Flags × ℕ)
  pub cmd_pools : List ℕ

abbrev pub new_context : Context
new_context = record { queues = []; queue_indices = []; cmd_pools = [] }

-- `getQueue` and `createCommandPool` of the device are given by the number of a family.
module _ (get_family_queue : ℕ → ℕ) where
  unfoldable pub create_queues : List QueueInfo → Context → Context
  create_queues [] c = c
  create_queues (info ∷ infos) c =
      let queues = c.queues ++ (get_family_queue info.index ∷ []) in
      create_queues infos (record c {
        queues = queues;
        queue_indices = c.queue_indices ++ ((info.flags, (length queues - 1) % 2 ^ 32) ∷ []);
      })

module _ (create_command_pool : ℕ → Option ℕ) where
  -- The pools for the queues from number `i` on; none where Vulkan fails.
  unfoldable pub pools_from : ℕ → List ℕ → Option (List ℕ)
  pools_from i [] = some []
  pools_from i (q ∷ qs) = elim (create_command_pool i) [
    | none ↦ none
    | some pool ↦ elim (pools_from (i + 1) qs) [ none ↦ none | some pools ↦ some (pool ∷ pools) ]
  ]

  unfoldable pub create_command_pools : Context → Option Context
  unfolding pools_from
  create_command_pools c = elim (pools_from 0 c.queues) [
    | none ↦ none
    | some pools ↦ some (record c { cmd_pools = c.cmd_pools ++ pools })
  ]

-- `GetQueue` reads `m_queues` with no check; none is a read out of its range.
unfoldable pub get_queue : Context → Flags → Option ℕ
unfolding get_queue_index
get_queue c type = get_elem? c.queues (get_queue_index c.queue_indices type)

-- The pool and the queue of the command buffer that `CreateCommandBuffer` makes.
pub data Created : Type 0 where
  invalid_queue_type : Created
  command_buffer : (pool queue : Option ℕ) → Created

unfoldable pub create_command_buffer : Context → Flags → Created
unfolding get_queue_index
create_command_buffer c type =
    let index = get_queue_index c.queue_indices type in
    if leb (length c.cmd_pools) index
    then invalid_queue_type
    else command_buffer (get_elem? c.cmd_pools index) (get_elem? c.queues index)

-- `Initialize`, with Vulkan's `createDevice`, by the number of a device, and `getQueue` and
-- `createCommandPool`, by the number of the new device and of a family.
unfoldable pub initialize :
    (vulkan : Vulkan) (result : Flags) (create_device : ℕ → Option ℕ) (get_family_queue : ℕ → ℕ → ℕ)
    (create_command_pool : ℕ → ℕ → Option ℕ) (version : ℕ) (surface : Bool)
    (physical : Option (ℕ → Bool))
    → List Device
    → Outcome Context
unfolding pick_physical_device create_queues create_command_pools
initialize vulkan result create_device get_family_queue create_command_pool version surface physical
      ds =
    elim (pick_physical_device vulkan result version surface physical ds) [
      | device_lost ↦ device_lost
      | refused ↦ refused
      | fault ↦ fault
      | done (d, infos) ↦ elim (create_device d.handle) [
        | none ↦ refused
        | some device ↦
            elim (create_command_pools (create_command_pool device)
              (create_queues (get_family_queue device) infos new_context)) [
                | none ↦ refused
                | some c ↦ done c
              ]
      ]
    ]
