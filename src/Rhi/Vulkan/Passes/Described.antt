-- ===== src/Rhi/Vulkan/Passes/Described.antt =====
-- ecs/rhi/vulkan/render_pass.cpp: the whole description of a render pass.
use engi_cs.Base.{ℕ, ◌≡◌, refl, sym, Option, none, some, List, [], ◌∷◌, append-nil, length, arith}
use engi_cs.Rhi.Defs.{LoadOp, StoreOp, AttachmentType}
use engi_cs.Rhi.Attachment.{Floats, AttachmentDesc}
use engi_cs.Rhi.RenderPass.{CreateInfo}
use engi_cs.Rhi.Vulkan.Headers.{Vulkan}
use engi_cs.Rhi.Vulkan.Enums.{PixelFormat}
use engi_cs.Rhi.Vulkan.Format.{pixel_format_to_vulkan}
use engi_cs.Rhi.Vulkan.Attachments.{layout_to_vulkan, load_op_to_vulkan, store_op_to_vulkan}
use engi_cs.Rhi.Vulkan.Passes.{
  Attachment, DepthRefs, Description, stencil_of, attachment_of, attachments_of, describe,
}
use engi_cs.Rhi.Vulkan.Passes.Reads.{layout_number, AllRead, fill_lem}

module _ (vulkan : Vulkan) where
  load_op_number : (l : LoadOp) → (n : ℕ) × (load_op_to_vulkan vulkan l ≡ some n)
  unfolding load_op_to_vulkan
  load_op_number LoadOp.load = (_, refl)
  load_op_number LoadOp.clear = (_, refl)
  load_op_number LoadOp.discard = (_, refl)
  load_op_number LoadOp.undefined = (_, refl)

  store_op_number : (s : StoreOp) → (n : ℕ) × (store_op_to_vulkan vulkan s ≡ some n)
  unfolding store_op_to_vulkan
  store_op_number StoreOp.store = (_, refl)
  store_op_number StoreOp.discard = (_, refl)
  store_op_number StoreOp.undefined = (_, refl)

  -- The operations for the stencil: those of the attachment if it has a stencil, and else Vulkan's
  -- defaults.
  abbrev pub StencilFits : AttachmentType → LoadOp → StoreOp → Option (ℕ × ℕ) → Type 0
  StencilFits AttachmentType.color l s v = v ≡ none
  StencilFits AttachmentType.depth l s v = v ≡ none
  StencilFits AttachmentType.depth_stencil l s v =
      (load : ℕ) × (store : ℕ) × (load_op_to_vulkan vulkan l ≡ some load)
      × (store_op_to_vulkan vulkan s ≡ some store)
      × (v ≡ some (load, store))

  stencil_of_lem :
      (t : AttachmentType) (l : LoadOp) (s : StoreOp)
      → (v : Option (ℕ × ℕ)) × (stencil_of vulkan t
            (load_op_to_vulkan vulkan l)
            (store_op_to_vulkan vulkan s)
          ≡ some v)
        × StencilFits t l s v
  unfolding stencil_of
  stencil_of_lem AttachmentType.color l s = (none, refl, refl)
  stencil_of_lem AttachmentType.depth l s = (none, refl, refl)
  stencil_of_lem AttachmentType.depth_stencil l s =
      let (load, load_run) = load_op_number l in
      let (store, store_run) = store_op_number s in
      (some (load, store), rw (load_run, store_run) refl, (load, store, load_run, store_run, refl))

  module _ (fl : Floats) (image_format : ℕ → Option PixelFormat) where
    -- The texture of an attachment is an image with a format that has a number of Vulkan.
    abbrev pub Known : AttachmentDesc fl → Type 0
    Known a =
        (f : PixelFormat) × (n : ℕ) × (image_format a.texture ≡ some f)
        × (pixel_format_to_vulkan vulkan f ≡ some n)

    abbrev pub AllKnown : List (AttachmentDesc fl) → Type 0
    AllKnown [] = Unit {0}
    AllKnown (a ∷ more) = Known a × AllKnown more

    -- An attachment of the description has the layouts, the format of the image and the operations
    -- of an attachment of the pass.
    abbrev pub Fits : AttachmentDesc fl → Attachment → Type 0
    Fits a v =
        (layout_to_vulkan vulkan a.initial_layout ≡ some v.initial_layout)
        × (layout_to_vulkan vulkan a.final_layout ≡ some v.final_layout)
        × ((f : PixelFormat) × (image_format a.texture ≡ some f)
            × (pixel_format_to_vulkan vulkan f ≡ some v.format))
        × (load_op_to_vulkan vulkan a.load_op ≡ some v.load_op)
        × (store_op_to_vulkan vulkan a.store_op ≡ some v.store_op)
        × StencilFits a.type a.stencil_load_op a.stencil_store_op v.stencil

    abbrev pub AllFit : List (AttachmentDesc fl) → List Attachment → Type 0
    AllFit [] [] = Unit {0}
    AllFit [] (v ∷ vs) = ⊥
    AllFit (a ∷ more) [] = ⊥
    AllFit (a ∷ more) (v ∷ vs) = Fits a v × AllFit more vs

    attachment_of_lem :
        (a : AttachmentDesc fl)
        → Known a
        → (v : Attachment) × (attachment_of vulkan fl image_format a ≡ some v) × Fits a v
    unfolding attachment_of
    attachment_of_lem a (f, n, image, pixels) =
        let (initial, i) = layout_number vulkan a.initial_layout in
        let (final, o) = layout_number vulkan a.final_layout in
        let (load, l) = load_op_number a.load_op in
        let (store, s) = store_op_number a.store_op in
        let (stencil, st, fits) = stencil_of_lem a.type a.stencil_load_op a.stencil_store_op in
        (
          record {
            initial_layout = initial;
            final_layout = final;
            format = n;
            load_op = load;
            store_op = store;
            stencil = stencil;
          },
          rw (i, o, image, pixels, l, s, st) refl,
          (i, o, (f, image, pixels), l, s, fits),
        )

    attachments_of_lem :
        (more : List (AttachmentDesc fl))
        → AllKnown more
        → (vs : List Attachment) × (attachments_of vulkan fl image_format more ≡ some vs)
          × AllFit more vs
    unfolding attachments_of
    attachments_of_lem [] known = ([], refl, tt)
    attachments_of_lem (a ∷ more) (known, all) =
        let (v, run, fits) = attachment_of_lem a known in
        let (vs, runs, all_fit) = attachments_of_lem more all in
        (v ∷ vs, rw (run, runs) refl, (fits, all_fit))

    -- If the textures of all attachments of a pass are images with formats of Vulkan,
    -- `VkRenderPass::DeviceCreate` gives Vulkan a description with one attachment for each, with its
    -- layouts, format and operations, and with one subpass for each subpass of the pass, in their order.
    -- There Vulkan reads the input and resolve attachments of the subpass, and a depth attachment
    -- through a pointer that is still good, which is null only where it is unused. Of the color
    -- attachments it reads just as many as there are resolve attachments, the first ones, or out of
    -- range if there are fewer: all of them where each is resolved, and none in a subpass that resolves
    -- nothing. The description has no dependencies, whatever the pass has.
    pub describe_lem :
        (info : CreateInfo fl)
        → AllKnown info.attachments
        → (v : Description) × (describe vulkan fl image_format info ≡ some v)
          × AllFit info.attachments v.attachments
          × AllRead vulkan info.subpasses v.subpasses v.depth_refs
          × (v.dependencies ≡ [])
    unfolding describe
    describe_lem info known =
        let d : DepthRefs = record { refs = []; capacity = length info.subpasses; block = 0 } in
        let (attachments, converted, fits) = attachments_of_lem info.attachments known in
        let (vs, d', run, ext, reads) = fill_lem vulkan info.subpasses d (omega arith) in
        (
          record { attachments = attachments; subpasses = vs; depth_refs = d'; dependencies = [] },
          rw (converted, run) refl,
          fits,
          reads d' (refl, ([], sym (append-nil d'.refs))),
          refl,
        )
