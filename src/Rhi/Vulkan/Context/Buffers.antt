-- ===== src/Rhi/Vulkan/Context/Buffers.antt =====
-- ecs/rhi/vulkan/context.cpp: the queues and pools of command buffers.
use mathlib.Core.Path.{subst}
use mathlib.Core.Option.{some-injective}
use engi_cs.Base.{
  ℕ, zero, suc, ◌+◌, ◌-◌, ◌%◌, ◌^◌, ◌≡◌, ◌<◌, ◌≤◌, refl, sym, ap, ◌∙◌, Bool, inl, inr, Option, none,
  some, List, [], ◌∷◌, ◌++◌, append_assoc, append-nil, get_elem?, length, length-append,
  Option-cases, arith,
}
use engi_cs.Rhi.Vulkan.Context.{
  Flags, with_present, find_queue_families, QueueInfo, Context, create_queues, pools_from,
  create_command_pools,
}
use engi_cs.Rhi.Vulkan.Context.Choice.{Entries, Best}

-- The entries of some queue infos, numbered from `k` on.
abbrev pub numbered : ℕ → List QueueInfo → Entries
numbered k [] = []
numbered k (info ∷ infos) = (info.flags, k) ∷ numbered (k + 1) infos

pub present : (ls : List ℕ) (k : ℕ) → k < length ls → (x : ℕ) × (get_elem? ls k ≡ some x)
present [] k h = absurd (omega arith)
present (x ∷ xs) zero h = (x, refl)
present (x ∷ xs) (suc k) h = present xs k (omega arith)

pub absent : (ls : List ℕ) (k : ℕ) → length ls ≤ k → get_elem? ls k ≡ none
absent [] k h = refl
absent (x ∷ xs) zero h = absurd (omega arith)
absent (x ∷ xs) (suc k) h = absent xs k (omega arith)

-- The index of an entry is a number of the queue infos.
pub index_in_range :
    (required : Flags) (r k : ℕ) (all : Entries) (infos : List QueueInfo)
    → Best required r all (numbered k infos)
    → r < k + length infos
index_in_range required r k all [] h = absurd h
index_in_range required r k all (info ∷ infos) (inl (same, c, least)) = omega arith
index_in_range required r k all (info ∷ infos) (inr h) =
    omega (arith, index_in_range required r (k + 1) all infos h)

-- The index of each info is its number.
abbrev pub Indexed : ℕ → List QueueInfo → Type 0
Indexed k [] = Unit {0}
Indexed k (info ∷ infos) = (info.index ≡ k) × Indexed (k + 1) infos

pub find_queue_families-Indexed :
    (surface : Bool) (physical : Option (ℕ → Bool)) (k : ℕ) (fs : List Flags)
    (infos : List QueueInfo)
    → find_queue_families surface physical k fs ≡ some infos
    → Indexed k infos × (length infos ≡ length fs)
unfolding find_queue_families
find_queue_families-Indexed surface physical k [] infos e =
    subst (λ is. Indexed k is × (length is ≡ 0)) (some-injective _ _ e) (tt, refl)
find_queue_families-Indexed surface physical k (f ∷ fs) infos e =
    elim (Option-cases (with_present surface physical k f)) [
      | inl n ↦ absurd (ground (arith, e, n))
      | inr (flags, f') ↦ elim (Option-cases (find_queue_families surface physical (k + 1) fs)) [
        | inl n ↦ absurd (ground (arith, e, f', n))
        | inr (rest, r) ↦
            let (indexed, len) = find_queue_families-Indexed surface physical (k + 1) fs rest r in
            let same : (record { index = k; flags = flags } ∷ rest) ≡ infos =
              some-injective _ _ (ground (arith, e, f', r)) in
            subst (λ is. Indexed k is × (length is ≡ suc (length fs))) same
              ((refl, indexed), ap suc len)
      ]
    ]

module _ (get_family_queue : ℕ → ℕ) where
  -- The queues of some families, numbered from `k` on.
  abbrev pub queues_of : ℕ → List QueueInfo → List ℕ
  queues_of k [] = []
  queues_of k (info ∷ infos) = get_family_queue k ∷ queues_of (k + 1) infos

  pub length-queues_of :
      (k : ℕ) (infos : List QueueInfo) → length (queues_of k infos) ≡ length infos
  length-queues_of k [] = refl
  length-queues_of k (info ∷ infos) = ap suc (length-queues_of (k + 1) infos)

  pub get_elem?-queues_of :
      (k : ℕ) (infos : List QueueInfo) (i : ℕ)
      → i < length infos
      → get_elem? (queues_of k infos) i ≡ some (get_family_queue (k + i))
  get_elem?-queues_of k [] i h = absurd (omega arith)
  get_elem?-queues_of k (info ∷ infos) zero h = ap (λ n. some (get_family_queue n)) (omega arith)
  get_elem?-queues_of k (info ∷ infos) (suc i) h =
      get_elem?-queues_of (k + 1) infos i (omega arith)
      ∙ ap (λ n. some (get_family_queue n)) (omega arith)

  pub create_queues_lem :
      (infos : List QueueInfo) (c : Context) (k : ℕ)
      → length c.queues ≡ k
      → k + length infos ≤ 2 ^ 32
      → Indexed k infos
      → let c' = create_queues get_family_queue infos c in
        (c'.queues ≡ c.queues ++ queues_of k infos)
        × (c'.queue_indices ≡ c.queue_indices ++ numbered k infos)
        × (c'.cmd_pools ≡ c.cmd_pools)
  unfolding create_queues
  create_queues_lem [] c k e le ix =
      (sym (append-nil c.queues), sym (append-nil c.queue_indices), refl)
  create_queues_lem (info ∷ infos) c k e le (at, ix) =
      let queues = c.queues ++ (get_family_queue info.index ∷ []) in
      let longer = length-append c.queues (get_family_queue info.index ∷ []) in
      let next : length queues ≡ k + 1 = omega (arith, longer) in
      let last : (length queues - 1) % 2 ^ 32 ≡ k = omega arith in
      let after : Context = record c {
        queues = queues;
        queue_indices = c.queue_indices ++ ((info.flags, (length queues - 1) % 2 ^ 32) ∷ []);
      } in
      let (later, indices, pools) = create_queues_lem infos after (k + 1) next (omega arith) ix in
      (
        later
            ∙ append_assoc c.queues (get_family_queue info.index ∷ []) (queues_of (k + 1) infos)
            ∙ ap (λ n. c.queues ++ (get_family_queue n ∷ queues_of (k + 1) infos)) at,
        indices
            ∙ append_assoc c.queue_indices ((info.flags, (length queues - 1) % 2 ^ 32) ∷ [])
                (numbered (k + 1) infos)
            ∙ ap (λ n. c.queue_indices ++ ((info.flags, n) ∷ numbered (k + 1) infos)) last,
        pools,
      )

-- The pools are as many as the queues, each made for the family with the number of its queue.
abbrev pub PoolsFor : (ℕ → Option ℕ) → ℕ → (qs pools : List ℕ) → Type 0
PoolsFor create i qs pools =
    (length pools ≡ length qs) × ((k : ℕ) → k < length pools → get_elem? pools k ≡ create (i + k))

PoolsFor-cons :
    (create : ℕ → Option ℕ) (i q p : ℕ) (qs ps : List ℕ)
    → create i ≡ some p
    → PoolsFor create (i + 1) qs ps
    → PoolsFor create i (q ∷ qs) (p ∷ ps)
PoolsFor-cons create i q p qs ps s (len, at) = (
  ap suc len,
  elim [
    | zero ↦ λ h. sym s ∙ ap create (omega arith)
    | suc k ↦ λ h. at k (omega arith) ∙ ap create (omega arith)
  ],
)

module _ (create_command_pool : ℕ → Option ℕ) where
  pools_from_lem :
      (i : ℕ) (qs pools : List ℕ)
      → pools_from create_command_pool i qs ≡ some pools
      → PoolsFor create_command_pool i qs pools
  unfolding pools_from
  pools_from_lem i [] pools e =
      subst (PoolsFor create_command_pool i []) (some-injective _ _ e)
        (refl, λ k h. absurd (omega arith))
  pools_from_lem i (q ∷ qs) pools e = elim (Option-cases (create_command_pool i)) [
    | inl n ↦ absurd (ground (arith, e, n))
    | inr (p, s) ↦ elim (Option-cases (pools_from create_command_pool (i + 1) qs)) [
      | inl n ↦ absurd (ground (arith, e, s, n))
      | inr (ps, r) ↦
          let same : (p ∷ ps) ≡ pools = some-injective _ _ (ground (arith, e, s, r)) in
          subst (PoolsFor create_command_pool i (q ∷ qs)) same
            (PoolsFor-cons create_command_pool i q p qs ps s (pools_from_lem (i + 1) qs ps r))
    ]
  ]

  pub create_command_pools_lem :
      (c c' : Context)
      → create_command_pools create_command_pool c ≡ some c'
      → c.cmd_pools ≡ []
      → (c'.queues ≡ c.queues)
        × (c'.queue_indices ≡ c.queue_indices)
        × PoolsFor create_command_pool 0 c.queues c'.cmd_pools
  unfolding create_command_pools
  create_command_pools_lem c c' e empty =
      elim (Option-cases (pools_from create_command_pool 0 c.queues)) [
        | inl n ↦ absurd (ground (arith, e, n))
        | inr (ps, r) ↦
            let same : record c { cmd_pools = c.cmd_pools ++ ps } ≡ c' =
              some-injective _ _ (ground (arith, e, r)) in
            let pools : ps ≡ c'.cmd_pools =
              sym (ap (λ ls. ls ++ ps) empty) ∙ ap (λ d. d.cmd_pools) same in
            (
              sym (ap (λ d. d.queues) same),
              sym (ap (λ d. d.queue_indices) same),
              subst (PoolsFor create_command_pool 0 c.queues) pools
                  (pools_from_lem 0 c.queues ps r),
            )
      ]
