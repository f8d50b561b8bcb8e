-- ===== src/Rhi/Vulkan/Passes/Reads.antt =====
-- ecs/rhi/vulkan/render_pass.cpp: what Vulkan reads in the description of a render pass.
use mathlib.Core.Path.{subst}
use engi_cs.Base.{
  suc, zero, ◌⊎◌, ℕ, ◌+◌, ◌≡◌, ◌<◌, ◌≤◌, refl, sym, ap, ◌∙◌, true, Option, none, some, List, [],
  ◌∷◌, ◌++◌, append-nil, append_assoc, ◌==◌, ltb, length, length-append, get_elem?,
  get_elem?-append_left, get_elem?-append_length, Bool-cases, inl, inr, arith,
}
use engi_cs.Rhi.Defs.{ImageLayout}
use engi_cs.Rhi.RenderPass.{AttachmentRef, SubpassDesc, unused_attachment}
use engi_cs.Rhi.Vulkan.Headers.{Vulkan}
use engi_cs.Rhi.Vulkan.Attachments.{layout_to_vulkan}
use engi_cs.Rhi.Vulkan.Passes.{
  Reference, Subpass, DepthRefs, emplace_back, read, read_refs, set_color, set_input, set_resolve,
  reference_of, push_refs, push_depth, fill,
}

module _ {ℓ} {A : Type ℓ} where
  abbrev pub take : ℕ → List A → List A
  take zero xs = []
  take (suc n) [] = []
  take (suc n) (x ∷ xs) = x ∷ take n xs

module _ (vulkan : Vulkan) where
  -- Every layout has a number of Vulkan.
  pub layout_number : (l : ImageLayout) → (n : ℕ) × (layout_to_vulkan vulkan l ≡ some n)
  unfolding layout_to_vulkan
  layout_number ImageLayout.undefined = (_, refl)
  layout_number ImageLayout.common = (_, refl)
  layout_number ImageLayout.unordered_access = (_, refl)
  layout_number ImageLayout.uninitialized = (_, refl)
  layout_number ImageLayout.render_target = (_, refl)
  layout_number ImageLayout.depth_stencil_write = (_, refl)
  layout_number ImageLayout.depth_stencil_read = (_, refl)
  layout_number ImageLayout.shader_resource = (_, refl)
  layout_number ImageLayout.copy_source = (_, refl)
  layout_number ImageLayout.copy_destination = (_, refl)
  layout_number ImageLayout.present = (_, refl)
  layout_number ImageLayout.resolve_source = (_, refl)
  layout_number ImageLayout.resolve_destination = (_, refl)

  abbrev pub Refers : AttachmentRef → Reference → Type 0
  Refers r ref =
      (ref.attachment ≡ r.attachment_index) × (layout_to_vulkan vulkan r.layout ≡ some ref.layout)

  abbrev pub AllRefer : List AttachmentRef → List Reference → Type 0
  AllRefer [] [] = Unit {0}
  AllRefer [] (ref ∷ refs) = ⊥
  AllRefer (r ∷ rs) [] = ⊥
  AllRefer (r ∷ rs) (ref ∷ refs) = Refers r ref × AllRefer rs refs

  reference_of_lem :
      (r : AttachmentRef) → (ref : Reference) × (reference_of vulkan r ≡ some ref) × Refers r ref
  unfolding reference_of
  reference_of_lem r =
      let (n, e) = layout_number r.layout in
      (record { attachment = r.attachment_index; layout = n }, rw e refl, (refl, e))

  push_refs_lem :
      (rs : List AttachmentRef)
      → (refs : List Reference) × (push_refs vulkan rs ≡ some refs) × AllRefer rs refs
  unfolding push_refs
  push_refs_lem [] = ([], refl, tt)
  push_refs_lem (r ∷ rs) =
      let (ref, e, same) = reference_of_lem r in
      let (refs, e', all) = push_refs_lem rs in (ref ∷ refs, rw (e, e') refl, (same, all))

  read_refs_lem :
      (n : ℕ) (rs : List AttachmentRef) (refs : List Reference)
      → AllRefer rs refs
      → ((n ≤ length rs)
          × ((got : List Reference) × (read_refs n refs ≡ some got) × AllRefer (take n rs) got))
        ⊎ ((length rs < n) × (read_refs n refs ≡ none))
  unfolding read_refs
  read_refs_lem zero rs refs all = inl (omega arith, ([], refl, tt))
  read_refs_lem (suc n) [] [] all = inr (omega arith, refl)
  read_refs_lem (suc n) [] (ref ∷ refs) all = absurd all
  read_refs_lem (suc n) (r ∷ rs) [] all = absurd all
  read_refs_lem (suc n) (r ∷ rs) (ref ∷ refs) (same, all) = elim (read_refs_lem n rs refs all) [
    | inl (fits, (got, run, reads)) ↦
        inl (omega arith, (ref ∷ got, rw (read_refs, run) refl, (same, reads)))
    | inr (short, run) ↦ inr (omega arith, rw (read_refs, run) refl)
  ]

  read_all : (refs : List Reference) → read_refs (length refs) refs ≡ some refs
  unfolding read_refs
  read_all [] = refl
  read_all (r ∷ refs) = rw (read_refs, read_all refs) refl

  AllRefer-length :
      (rs : List AttachmentRef) (refs : List Reference) → AllRefer rs refs → length refs ≡ length rs
  AllRefer-length [] [] all = refl
  AllRefer-length [] (ref ∷ refs) all = absurd all
  AllRefer-length (r ∷ rs) [] all = absurd all
  AllRefer-length (r ∷ rs) (ref ∷ refs) (same, all) = ap suc (AllRefer-length rs refs all)

  -- What Vulkan reads as the color attachments: as many as there are resolve attachments, or a read
  -- out of range if there are more of these.
  abbrev pub ColorsRead : SubpassDesc → List Reference → (count : ℕ) → Type 0
  ColorsRead s color count =
      let n = length s.resolve_attachments in
      ((n ≤ length s.color_attachments)
        × ((got : List Reference) × (read_refs count color ≡ some got)
            × AllRefer (take n s.color_attachments) got))
      ⊎ ((length s.color_attachments < n) × (read_refs count color ≡ none))

  abbrev pub ResolvesRead : SubpassDesc → Subpass → Type 0
  ResolvesRead s v =
      (got : List Reference) × (read_refs v.color_count v.resolve ≡ some got)
      × AllRefer s.resolve_attachments got

  -- What Vulkan reads as the depth attachment of a subpass.
  abbrev pub DepthReads : AttachmentRef → Option (ℕ × ℕ) → DepthRefs → Type 0
  DepthReads r none d = r.attachment_index ≡ unused_attachment
  DepthReads r (some p) d = (ref : Reference) × (read d p ≡ some ref) × Refers r ref

  abbrev pub AllRead : List SubpassDesc → List Subpass → DepthRefs → Type 0
  AllRead [] [] d = Unit {0}
  AllRead [] (v ∷ vs) d = ⊥
  AllRead (s ∷ ss) [] d = ⊥
  AllRead (s ∷ ss) (v ∷ vs) d =
      ColorsRead s v.color v.color_count
      × AllRefer s.input_attachments v.input
      × ResolvesRead s v
      × DepthReads s.depth_stencil v.depth d
      × AllRead ss vs d

  -- A vector with the references of another in front, in the same block.
  abbrev pub Extends : DepthRefs → DepthRefs → Type 0
  Extends d d' = (d'.block ≡ d.block) × ((more : List Reference) × (d'.refs ≡ d.refs ++ more))

  Extends-trans : (d d' d'' : DepthRefs) → Extends d d' → Extends d' d'' → Extends d d''
  Extends-trans d d' d'' (same, (more, e)) (same', (more', e')) = (
    same' ∙ same,
    (more ++ more', e' ∙ ap (λ rs. rs ++ more') e ∙ append_assoc d.refs more more'),
  )

  -- A pointer to the last reference reads the same in a vector that extends this one.
  read_last :
      (d d' : DepthRefs) (ref : Reference) (refs : List Reference)
      → d.refs ≡ refs ++ (ref ∷ [])
      → Extends d d'
      → read d' (d.block, length refs) ≡ some ref
  unfolding read
  read_last d d' ref refs e (same, (more, e')) =
      let here : (d.block == d'.block) ≡ true = ground (arith, same) in
      let shorter : length refs < length (refs ++ (ref ∷ [])) =
        omega (arith, length-append refs (ref ∷ [])) in
      rw here (
        ap (λ rs. get_elem? rs (length refs)) (e' ∙ ap (λ rs. rs ++ more) e)
        ∙ get_elem?-append_left (refs ++ (ref ∷ [])) more (length refs) shorter
        ∙ get_elem?-append_length refs ref)

  -- With room for a reference the pointer stays good in each vector that extends the new one.
  push_depth_lem :
      (r : AttachmentRef) (d : DepthRefs)
      → length d.refs < d.capacity
      → (depth : Option (ℕ × ℕ)) × (d' : DepthRefs) × (push_depth vulkan r d ≡ some (depth, d'))
        × Extends d d'
        × (length d'.refs ≤ length d.refs + 1)
        × (d'.capacity ≡ d.capacity)
        × ((d'' : DepthRefs) → Extends d' d'' → DepthReads r depth d'')
  unfolding push_depth emplace_back
  push_depth_lem r d room = elim (Bool-cases (r.attachment_index == unused_attachment)) [
    | inl unused ↦ (
      none,
      d,
      rw unused refl,
      (refl, ([], sym (append-nil d.refs))),
      omega arith,
      refl,
      λ d'' ext. ground (arith, unused),
    )
    | inr used ↦
        let (ref, e, same) = reference_of_lem r in
        let has_room : ltb (length d.refs) d.capacity ≡ true = ground (arith, room) in
        let d' : DepthRefs = record d { refs = d.refs ++ (ref ∷ []) } in
        (
          some (d.block, length d.refs),
          d',
          rw (used, e, has_room) refl,
          (refl, (ref ∷ [], refl)),
          omega (arith, length-append d.refs (ref ∷ [])),
          refl,
          λ d'' ext. (ref, read_last d' d'' ref d.refs refl ext, same),
        )
  ]

  pub fill_lem :
      (ss : List SubpassDesc) (d : DepthRefs)
      → length d.refs + length ss ≤ d.capacity
      → (vs : List Subpass) × (d' : DepthRefs) × (fill vulkan ss d ≡ some (vs, d'))
        × Extends d d'
        × ((d'' : DepthRefs) → Extends d' d'' → AllRead ss vs d'')
  unfolding fill set_color set_input set_resolve
  fill_lem [] d room = ([], d, refl, (refl, ([], sym (append-nil d.refs))), λ d'' ext. tt)
  fill_lem (s ∷ ss) d room =
      let (color, color_run, colors) = push_refs_lem s.color_attachments in
      let (input, input_run, inputs) = push_refs_lem s.input_attachments in
      let (resolve, resolve_run, resolves) = push_refs_lem s.resolve_attachments in
      let (depth, d₁, depth_run, ext₁, longer, same, reads) =
        push_depth_lem s.depth_stencil d (omega arith) in
      let (vs, d₂, rest_run, ext₂, rest) = fill_lem ss d₁ (omega arith) in
      let v : Subpass = record {
        color = color;
        color_count = length resolve;
        input = input;
        resolve = resolve;
        depth = depth;
      } in
      let count : length s.resolve_attachments ≡ length resolve =
        sym (AllRefer-length s.resolve_attachments resolve resolves) in
      (
        v ∷ vs,
        d₂,
        rw (color_run, input_run, resolve_run, depth_run, rest_run) refl,
        Extends-trans d d₁ d₂ ext₁ ext₂,
        λ d'' ext. (
          subst (λ n. ColorsRead s color n) count
              (read_refs_lem (length s.resolve_attachments) s.color_attachments color colors),
          inputs,
          (resolve, read_all resolve, resolves),
          reads d'' (Extends-trans d₁ d₂ d'' ext₂ ext),
          rest d'' ext,
        ),
      )
