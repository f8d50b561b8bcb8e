-- ===== src/Rhi/Vulkan/Context/Devices.antt =====
-- ecs/rhi/vulkan/context.cpp: the first call of `Initialize`, while `m_physicalDevice` is null.
use mathlib.Core.Path.{subst}
use engi_cs.Base.{
  ℕ, ◌+◌, ◌≡◌, ◌<◌, ◌≤◌, refl, sym, ◌∙◌, Bool, true, false, ◌⊎◌, inl, inr, Option, none, some, List,
  [], ◌∷◌, map, ltb, length, Bool-cases, arith,
}
use engi_cs.Rhi.Vulkan.Headers.{Vulkan}
use engi_cs.Rhi.Vulkan.Queue.{queues_from_vulkan, queues_from_vulkan_rows}
use engi_cs.Rhi.Vulkan.Table.{translate_lem}
use engi_cs.Rhi.Vulkan.Context.{
  Flags, present_bit, with_present, find_queue_families, found_flags, is_complete, QueueInfo,
  Device, Outcome, device_lost, fault, pick_physical_device, initialize,
}

-- The device is one of these.
abbrev pub In : Device → List Device → Type 0
In d [] = ⊥
In d (x ∷ xs) = (x ≡ d) ⊎ In d xs

-- `findQueueFamilies` runs for the device and finds a family.
abbrev pub Asked : (version : ℕ) → Device → Type 0
Asked version d = (d.is_discrete ≡ true) × (version ≤ d.api_version) × (0 < length d.families)

-- It does not run for the device, or it finds none.
abbrev pub Unasked : (version : ℕ) → Device → Type 0
Unasked version d = (d.is_discrete ≡ false) ⊎ ((d.api_version < version) ⊎ (length d.families ≡ 0))

abbrev pub AllUnasked : (version : ℕ) → List Device → Type 0
AllUnasked version [] = Unit {0}
AllUnasked version (d ∷ ds) = Unasked version d × AllUnasked version ds

module _ (vulkan : Vulkan) (result : Flags) (clear : result present_bit ≡ false) where
  -- `FromVulkan` does not set the bit for presenting.
  no_present : (bits : Flags) → queues_from_vulkan vulkan result bits present_bit ≡ false
  unfolding queues_from_vulkan
  no_present bits =
      translate_lem (queues_from_vulkan_rows vulkan) bits result present_bit ∙ ground (arith, clear)

  -- Without a surface no family presents.
  none_presents :
      (physical : Option (ℕ → Bool)) (k : ℕ) (fs : List Flags)
      → (infos : List QueueInfo) × (find_queue_families false physical k
            (map (queues_from_vulkan vulkan result) fs)
          ≡ some infos)
        × (found_flags infos present_bit ≡ false)
  unfolding find_queue_families with_present
  none_presents physical k [] = ([], refl, refl)
  none_presents physical k (f ∷ fs) =
      let (infos, run, lacks) = none_presents physical (k + 1) fs in
      (
        record { index = k; flags = queues_from_vulkan vulkan result f } ∷ infos,
        rw (find_queue_families, run) refl,
        ground (arith, no_present f, lacks),
      )

  incomplete :
      (infos : List QueueInfo) → found_flags infos present_bit ≡ false → is_complete infos ≡ false
  unfolding is_complete
  incomplete infos lacks = rw lacks refl

  module _ (version : ℕ) where
    -- What `PickPhysicalDevice` comes to: its error, or a fault if there is a surface and a device
    -- for which it is asked.
    abbrev Fails : Bool → List Device → Outcome (Device × List QueueInfo) → Type 0
    Fails surface ds o =
        ((o ≡ device_lost) × ((surface ≡ false) ⊎ AllUnasked version ds))
        ⊎ ((o ≡ fault) × (surface ≡ true) × ((d : Device) × In d ds × Asked version d))

    -- A device that is passed over leaves the outcome to the others.
    passed :
        (surface : Bool) (d : Device) (ds : List Device) (o : Outcome (Device × List QueueInfo))
        → (surface ≡ false) ⊎ Unasked version d
        → Fails surface ds o
        → Fails surface (d ∷ ds) o
    passed surface d ds o why (inr (e, s, (x, is_in, asked))) = inr (e, s, (x, inr is_in, asked))
    passed surface d ds o why (inl (e, inl s)) = inl (e, inl s)
    passed surface d ds o (inl s) (inl (e, inr all)) = inl (e, inl s)
    passed surface d ds o (inr u) (inl (e, inr all)) = inl (e, inr (u, all))

    pick_without :
        (physical : Option (ℕ → Bool)) (ds : List Device)
        → pick_physical_device vulkan result version false physical ds ≡ device_lost
    unfolding pick_physical_device
    pick_without physical [] = refl
    pick_without physical (d ∷ ds) =
        let (infos, run, lacks) = none_presents physical 0 d.families in
        ground (arith, pick_without physical ds, run, incomplete infos lacks)

    -- With a surface, the first family of a device is a fault.
    asked_faults :
        (fs : List Flags)
        → 0 < length fs
        → find_queue_families true none 0 (map (queues_from_vulkan vulkan result) fs) ≡ none
    unfolding find_queue_families with_present
    asked_faults [] some_families = absurd (omega arith)
    asked_faults (f ∷ fs) some_families = refl

    no_families :
        (fs : List Flags)
        → length fs ≡ 0
        → find_queue_families true none 0 (map (queues_from_vulkan vulkan result) fs) ≡ some []
    unfolding find_queue_families
    no_families [] empty = refl
    no_families (f ∷ fs) empty = absurd (omega arith)

    -- The outcome for one device more.
    pick_past :
        (d : Device) (ds : List Device)
        → Unasked version d
        → pick_physical_device vulkan result version true none (d ∷ ds)
          ≡ pick_physical_device vulkan result version true none ds
    unfolding pick_physical_device
    pick_past d ds (inl other) = ground (arith, other)
    pick_past d ds (inr (inl old)) = ground (arith, old)
    pick_past d ds (inr (inr empty)) =
        ground (arith, no_families d.families empty, incomplete [] refl)

    pick_fault :
        (d : Device) (ds : List Device)
        → Asked version d
        → pick_physical_device vulkan result version true none (d ∷ ds) ≡ fault
    unfolding pick_physical_device
    pick_fault d ds (discrete, recent, some_families) =
        ground (arith, discrete, recent, asked_faults d.families some_families)

    decide_on : (d : Device) → Asked version d ⊎ Unasked version d
    decide_on d = elim (Bool-cases d.is_discrete) [
      | inr other ↦ inr (inl other)
      | inl discrete ↦ elim (Bool-cases (ltb d.api_version version)) [
        | inl old ↦ inr (inr (inl (ground (arith, old))))
        | inr recent ↦ elim (Bool-cases (ltb 0 (length d.families))) [
          | inl more ↦ inl (discrete, ground (arith, recent), ground (arith, more))
          | inr empty ↦ inr (inr (inr (ground (arith, empty))))
        ]
      ]
    ]

    pick_with :
        (ds : List Device) → Fails true ds (pick_physical_device vulkan result version true none ds)
    unfolding pick_physical_device
    pick_with [] = inl (refl, inr tt)
    pick_with (d ∷ ds) = elim (decide_on d) [
      | inl asked ↦ inr (pick_fault d ds asked, refl, (d, inl refl, asked))
      | inr not_asked ↦
          subst (Fails true (d ∷ ds)) (sym (pick_past d ds not_asked))
            (passed true d ds _ (inr not_asked) (pick_with ds))
    ]

    picks :
        (surface : Bool) (ds : List Device)
        → Fails surface ds (pick_physical_device vulkan result version surface none ds)
    picks true ds = pick_with ds
    picks false ds = inl (pick_without none ds, inl refl)

-- The first call of `Initialize` never succeeds, while `m_physicalDevice` is null, if the result that
-- `FromVulkan` does not initialise has no bit for presenting. It is a fault if there is a surface and
-- some device is discrete, has the version required and has a family: `findQueueFamilies` asks the null
-- device for support of the surface. Otherwise it gives `eErrorDeviceLost`: without a surface no
-- family is ever one that presents, whatever the devices are.
pub initialize_fails :
    (vulkan : Vulkan) (result : Flags) (create_device : ℕ → Option ℕ) (get_family_queue : ℕ → ℕ → ℕ)
    (create_command_pool : ℕ → ℕ → Option ℕ) (version : ℕ) (surface : Bool) (ds : List Device)
    → result present_bit ≡ false
    → let o =
        initialize vulkan result create_device get_family_queue create_command_pool version surface
          none ds in
      ((o ≡ device_lost) × ((surface ≡ false) ⊎ AllUnasked version ds))
      ⊎ ((o ≡ fault) × (surface ≡ true) × ((d : Device) × In d ds × Asked version d))
unfolding initialize
initialize_fails vulkan result cd gfq ccp version surface ds clear =
    elim (picks vulkan result clear version surface ds) [
      | inl (lost, why) ↦ inl (rw (initialize, lost) refl, why)
      | inr (faults, with_surface, asked) ↦ inr (rw (initialize, faults) refl, with_surface, asked)
    ]
