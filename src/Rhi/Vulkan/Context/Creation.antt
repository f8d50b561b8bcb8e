-- ===== src/Rhi/Vulkan/Context/Creation.antt =====
-- ecs/rhi/vulkan/context.cpp: the queues and the command buffers of a context that is initialized.
use mathlib.Core.Path.{subst}
use engi_cs.Base.{
  ℕ, ◌+◌, ◌≡◌, ◌<◌, refl, sym, ap, ◌∙◌, Bool, true, false, ◌⊎◌, inl, inr, Option, none, some, List,
  leb, get_elem?, length, arith,
}
use engi_cs.Rhi.Vulkan.Context.{
  Flags, covers, no_index, get_queue_index, find_queue_families, QueueInfo, Context, new_context,
  create_queues, create_command_pools, get_queue, invalid_queue_type, command_buffer,
  create_command_buffer,
}
use engi_cs.Rhi.Vulkan.Context.Choice.{All, Best, get_queue_index_lem}
use engi_cs.Rhi.Vulkan.Context.Buffers.{
  numbered, present, absent, index_in_range, Indexed, find_queue_families-Indexed, queues_of,
  length-queues_of, get_elem?-queues_of, create_queues_lem, PoolsFor, create_command_pools_lem,
}

-- The context after `CreateQueues` and `CreateCommandPool`.
initialized :
    (get_family_queue : ℕ → ℕ) (create_command_pool : ℕ → Option ℕ) (infos : List QueueInfo)
    (c : Context)
    → Indexed 0 infos
    → length infos < no_index
    → create_command_pools create_command_pool (create_queues get_family_queue infos new_context)
      ≡ some c
    → (c.queues ≡ queues_of get_family_queue 0 infos)
      × (c.queue_indices ≡ numbered 0 infos)
      × PoolsFor create_command_pool 0 (queues_of get_family_queue 0 infos) c.cmd_pools
initialized gfq ccp infos c ix fewer e =
    let (queues, indices, pools) =
      create_queues_lem gfq infos new_context 0 refl (omega arith) ix in
    let (queues', indices', pools') =
      create_command_pools_lem ccp (create_queues gfq infos new_context) c e pools in
    (
      queues' ∙ queues,
      indices' ∙ indices,
      subst (λ qs. PoolsFor ccp 0 qs c.cmd_pools) queues pools',
    )

created :
    (c : Context) (required : Flags) (r pool queue : ℕ)
    → get_queue_index c.queue_indices required ≡ r
    → r < length c.cmd_pools
    → get_elem? c.cmd_pools r ≡ some pool
    → get_elem? c.queues r ≡ some queue
    → (create_command_buffer c required ≡ command_buffer (some pool) (some queue))
      × (get_queue c required ≡ some queue)
unfolding create_command_buffer get_queue
created c required r pool queue i less p q =
    let leb_false : leb (length c.cmd_pools) r ≡ false = ground arith in
    (rw (i, leb_false, p, q) refl, rw (i, q) refl)

refused :
    (c : Context) (required : Flags)
    → get_queue_index c.queue_indices required ≡ no_index
    → length c.cmd_pools < no_index
    → length c.queues < no_index
    → (create_command_buffer c required ≡ invalid_queue_type) × (get_queue c required ≡ none)
unfolding create_command_buffer get_queue
refused c required i less less' =
    let leb_true : leb (length c.cmd_pools) no_index ≡ true = ground arith in
    (rw (i, leb_true) refl, ap (get_elem? c.queues) i ∙ absent c.queues no_index (omega arith))

-- The context has no queue for the type of work: `CreateCommandBuffer` says so, and `GetQueue` reads
-- out of range.
abbrev pub NoQueue : (infos : List QueueInfo) → Context → Flags → Type 0
NoQueue infos c required =
    All (λ e. covers e.0 required ≡ false) (numbered 0 infos)
    × (create_command_buffer c required ≡ invalid_queue_type)
    × (get_queue c required ≡ none)

-- The queue for the type of work is that of the family `r`, which is best for it; the pool of the
-- command buffer is the one made for this family.
abbrev pub QueueOf :
    (ℕ → ℕ) → (ℕ → Option ℕ) → (infos : List QueueInfo) → Context → Flags → (r : ℕ) → Type 0
QueueOf get_family_queue create_command_pool infos c required r =
    Best required r (numbered 0 infos) (numbered 0 infos)
    × ((pool : ℕ) × (create_command_pool r ≡ some pool)
        × (create_command_buffer c required
            ≡ command_buffer (some pool) (some (get_family_queue r)))
        × (get_queue c required ≡ some (get_family_queue r)))

-- After `CreateQueues` and `CreateCommandPool` have run on a new context with the families that
-- `findQueueFamilies` finds, fewer than the largest 32-bit number, the queue and the command buffer for
-- a type of work are those of a family that covers its flags, and no family that covers them has fewer
-- other flags; the pool of the command buffer was made for the family of its queue. If no family covers
-- the flags, `CreateCommandBuffer` gives its error and `GetQueue` reads out of the range of `m_queues`.
pub create_command_buffer_lem :
    (get_family_queue : ℕ → ℕ) (create_command_pool : ℕ → Option ℕ) (surface : Bool)
    (physical : Option (ℕ → Bool)) (fs : List Flags) (infos : List QueueInfo) (c : Context)
    (required : Flags)
    → length fs < no_index
    → find_queue_families surface physical 0 fs ≡ some infos
    → create_command_pools create_command_pool (create_queues get_family_queue infos new_context)
      ≡ some c
    → NoQueue infos c required
      ⊎ ((r : ℕ) × QueueOf get_family_queue create_command_pool infos c required r)
create_command_buffer_lem gfq ccp surface physical fs infos c required fewer families e =
    let (indexed, len) = find_queue_families-Indexed surface physical 0 fs infos families in
    let (queues, indices, (more, at)) = initialized gfq ccp infos c indexed (omega arith) e in
    let queues_len : length c.queues ≡ length infos =
      ap (λ qs. length qs) queues ∙ length-queues_of gfq 0 infos in
    let pools_len : length c.cmd_pools ≡ length infos = more ∙ length-queues_of gfq 0 infos in
    let index = get_queue_index (numbered 0 infos) required in
    let at_index : get_queue_index c.queue_indices required ≡ index =
      ap (λ es. get_queue_index es required) indices in
    elim (get_queue_index_lem (numbered 0 infos) required) [
      | inl (nowhere, uncovered) ↦
          let (error, out_of_range) =
            refused c required (at_index ∙ nowhere) (omega arith) (omega arith) in
          inl (uncovered, error, out_of_range)
      | inr best ↦
          let less : index < length infos =
            omega (arith, index_in_range required index 0 _ infos best) in
          let from_zero : 0 + index ≡ index = omega arith in
          let (pool, found) = present c.cmd_pools index (omega arith) in
          let queue : get_elem? c.queues index ≡ some (gfq index) =
            ap (λ qs. get_elem? qs index) queues
            ∙ get_elem?-queues_of gfq 0 infos index less
            ∙ ap (λ n. some (gfq n)) from_zero in
          let (buffer, got) =
            created c required index pool (gfq index) at_index (omega arith) found queue in
          inr (
            index,
            (best, (pool, sym (at index (omega arith) ∙ ap ccp from_zero) ∙ found, buffer, got)),
          )
    ]
