-- ===== src/Rhi/Vulkan/Context/Tests.antt =====
-- ecs/rhi/vulkan/context.cpp: the picking of devices and queues, run on a device with three families.

use engi_cs.Rhi.Vulkan.Headers.{documented}
use engi_cs.Base.{
  Bool, true, false, ℕ, ◌+◌, ◌%◌, ◌/◌, ◌^◌, ◌≡◌, ◌==◌, refl, ◌⊎◌, Option, none, some, List, [], ◌∷◌,
  arith,
}
use engi_cs.Rhi.Vulkan.Context.{
  Device, QueueInfo, with_present, Outcome, device_lost, fault, Flags, get_queue_index, search,
  covers, extra, find_queue_families, Context, new_context, create_queues, pools_from,
  create_command_pools, create_command_buffer, get_queue, invalid_queue_type, initialize,
}
use engi_cs.Rhi.Vulkan.Context.Devices.{In, Asked, AllUnasked, initialize_fails}
use engi_cs.Rhi.Vulkan.Context.Creation.{NoQueue, QueueOf, create_command_buffer_lem}

-- The flags of a number below 2 ^ 8.
abbrev bits : ℕ → Flags
bits n j = (n / 2 ^ j) % 2 == 1

-- A family for all work, one for transfers, and one for transfers and compute.
abbrev families : List Flags
families = bits 7 ∷ bits 4 ∷ bits 6 ∷ []

abbrev get_family_queue : ℕ → ℕ
get_family_queue i = 100 + i

abbrev create_command_pool : ℕ → Option ℕ
create_command_pool i = some (200 + i)

abbrev context : Context
context = record {
  queues = 100 ∷ 101 ∷ 102 ∷ [];
  queue_indices = (bits 7, 0) ∷ (bits 4, 1) ∷ (bits 6, 2) ∷ [];
  cmd_pools = 200 ∷ 201 ∷ 202 ∷ [];
}

abbrev infos : List QueueInfo
infos =
    record { index = 0; flags = bits 7 }
    ∷ record { index = 1; flags = bits 4 }
    ∷ record { index = 2; flags = bits 6 }
    ∷ []

finds : find_queue_families false none 0 families ≡ some infos
unfolding find_queue_families with_present
finds = refl

is_initialized :
    create_command_pools create_command_pool (create_queues get_family_queue infos new_context)
    ≡ some context
unfolding create_command_pools create_queues pools_from
is_initialized = refl

-- Compute alone is best done by the third family.
compute_queue : get_queue context (bits 2) ≡ some 102
unfolding get_queue get_queue_index search covers extra
compute_queue = refl

-- No family presents.
no_present : create_command_buffer context (bits 8) ≡ invalid_queue_type
unfolding create_command_buffer get_queue_index search covers extra
no_present = refl

create_command_buffer_lem_example :
    NoQueue infos context (bits 2)
    ⊎ ((r : ℕ) × QueueOf get_family_queue create_command_pool infos context (bits 2) r)
create_command_buffer_lem_example =
    create_command_buffer_lem get_family_queue create_command_pool false none families infos context
      (bits 2) (omega arith) finds is_initialized

abbrev create_device : ℕ → Option ℕ
create_device handle = some (handle + 10)

-- The first device is not discrete.
abbrev devices : List Device
devices =
    record { handle = 0; is_discrete = false; api_version = 4; families = families }
    ∷ record { handle = 1; is_discrete = true; api_version = 4; families = families }
    ∷ []

abbrev outcome : Outcome Context
outcome =
    initialize documented (bits 0) create_device (λ device. get_family_queue)
      (λ device. create_command_pool) 3 true none devices

initialize_fails_example :
    ((outcome ≡ device_lost) × ((◌≡◌ {A = Bool} true false) ⊎ AllUnasked 3 devices))
    ⊎ ((outcome ≡ fault) × (◌≡◌ {A = Bool} true true) × ((d : Device) × In d devices × Asked 3 d))
initialize_fails_example =
    initialize_fails documented (bits 0) create_device (λ device. get_family_queue)
      (λ device. create_command_pool) 3 true devices refl
