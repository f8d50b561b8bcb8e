-- ===== src/Rhi/Vulkan/Passes.antt =====
-- ecs/rhi/vulkan/render_pass.cpp: the description of a render pass that `VkRenderPass::DeviceCreate`
-- gives to Vulkan. A pointer into the vector of depth references has the number of the block that
-- the vector had when it was taken, and an index.
pub mod Reads
pub mod Described
mod Tests
use engi_cs.Base.{
  ℕ, zero, suc, ◌+◌, ◌*◌, ◌^◌, ◌≡◌, Bool, true, false, Option, none, some, List, [], ◌∷◌, ◌++◌,
  ◌==◌, ltb, if◌then◌else◌, length, get_elem?,
}
use engi_cs.Rhi.Defs.{AttachmentType}
use engi_cs.Rhi.Attachment.{Floats, AttachmentDesc}
use engi_cs.Rhi.RenderPass.{AttachmentRef, SubpassDesc, Dependency, CreateInfo, unused_attachment}
use engi_cs.Rhi.Vulkan.Headers.{Vulkan}
use engi_cs.Rhi.Vulkan.Enums.{PixelFormat}
use engi_cs.Rhi.Vulkan.Format.{pixel_format_to_vulkan}
use engi_cs.Rhi.Vulkan.Attachments.{load_op_to_vulkan, store_op_to_vulkan, layout_to_vulkan}

infixl 5 ◌>>=◌
abbrev pub ◌>>=◌ {ℓ κ} : {A : Type ℓ} {B : Type κ} → Option A → (A → Option B) → Option B
none >>= f = none
some a >>= f = f a

pub record Reference : Type 0 where
  pub attachment : ℕ
  pub layout : ℕ

-- `stencil` is none where the operations for the stencil keep Vulkan's defaults.
pub record Attachment : Type 0 where
  pub initial_layout : ℕ
  pub final_layout : ℕ
  pub format : ℕ
  pub load_op : ℕ
  pub store_op : ℕ
  pub stencil : Option (ℕ × ℕ)

-- `color` and `resolve` are what `pColorAttachments` and `pResolveAttachments` point to; both have
-- the one length `color_count`.
pub record Subpass : Type 0 where
  pub color : List Reference
  pub color_count : ℕ
  pub input : List Reference
  pub resolve : List Reference
  pub depth : Option (ℕ × ℕ)

abbrev pub new_subpass : Subpass
new_subpass = record { color = []; color_count = 0; input = []; resolve = []; depth = none }

-- `setColorAttachments`, `setInputAttachments` and `setResolveAttachments`.
unfoldable pub set_color : List Reference → Subpass → Subpass
set_color refs v = record v { color = refs; color_count = length refs }

unfoldable pub set_input : List Reference → Subpass → Subpass
set_input refs v = record v { input = refs }

unfoldable pub set_resolve : List Reference → Subpass → Subpass
set_resolve refs v = record v { resolve = refs; color_count = length refs }

-- What Vulkan reads through a pointer to some references with a length; none is a read behind the
-- last one.
unfoldable pub read_refs : ℕ → List Reference → Option (List Reference)
read_refs zero refs = some []
read_refs (suc n) [] = none
read_refs (suc n) (r ∷ refs) = elim (read_refs n refs) [ none ↦ none | some rest ↦ some (r ∷ rest) ]

pub record DepthRefs : Type 0 where
  pub refs : List Reference
  pub capacity : ℕ
  pub block : ℕ

-- `emplace_back`: a vector that is full moves to another block.
unfoldable pub emplace_back : DepthRefs → Reference → DepthRefs
emplace_back d r =
    if ltb (length d.refs) d.capacity
    then record d { refs = d.refs ++ (r ∷ []) }
    else record { refs = d.refs ++ (r ∷ []); capacity = 2 * d.capacity + 1; block = d.block + 1 }

-- What Vulkan reads through a pointer; none is a read of a block that is gone.
unfoldable pub read : DepthRefs → ℕ × ℕ → Option Reference
read d p = if p.0 == d.block then get_elem? d.refs p.1 else none

pub record Description : Type 0 where
  pub attachments : List Attachment
  pub subpasses : List Subpass
  pub depth_refs : DepthRefs
  pub dependencies : List Dependency

module _ (vulkan : Vulkan) where
  unfoldable pub reference_of : AttachmentRef → Option Reference
  reference_of r = layout_to_vulkan vulkan r.layout >>= λ layout.
      some (record { attachment = r.attachment_index; layout = layout })

  unfoldable pub push_refs : List AttachmentRef → Option (List Reference)
  unfolding reference_of
  push_refs [] = some []
  push_refs (r ∷ rs) = reference_of r >>= λ ref. push_refs rs >>= λ refs. some (ref ∷ refs)

  unfoldable pub push_depth : AttachmentRef → DepthRefs → Option (Option (ℕ × ℕ) × DepthRefs)
  unfolding emplace_back reference_of
  push_depth r d =
      if r.attachment_index == unused_attachment
      then some (none, d)
      else reference_of r >>= λ ref.
          let d' = emplace_back d ref in some (some (d'.block, length d.refs), d')

  unfoldable pub fill : List SubpassDesc → DepthRefs → Option (List Subpass × DepthRefs)
  unfolding push_refs push_depth set_color set_input set_resolve
  fill [] d = some ([], d)
  fill (s ∷ ss) d = push_refs s.color_attachments >>= λ color.
      push_refs s.input_attachments >>= λ input. push_refs s.resolve_attachments >>= λ resolve.
      push_depth s.depth_stencil d >>= λ (depth, d'). fill ss d' >>= λ (subpasses, d'').
      let v = set_resolve resolve (set_input input (set_color color new_subpass)) in
      some (record v { depth = depth } ∷ subpasses, d'')

  unfoldable pub stencil_of : AttachmentType → Option ℕ → Option ℕ → Option (Option (ℕ × ℕ))
  stencil_of AttachmentType.color load store = some none
  stencil_of AttachmentType.depth load store = some none
  stencil_of AttachmentType.depth_stencil load store =
      load >>= λ l. store >>= λ s. some (some (l, s))

  -- `image_format` is the format of the image at a texture, and none for a null texture.
  module _ (fl : Floats) (image_format : ℕ → Option PixelFormat) where
    unfoldable pub attachment_of : AttachmentDesc fl → Option Attachment
    unfolding stencil_of
    attachment_of a = layout_to_vulkan vulkan a.initial_layout >>= λ initial.
        layout_to_vulkan vulkan a.final_layout >>= λ final. image_format a.texture >>= λ pixels.
        pixel_format_to_vulkan vulkan pixels >>= λ format.
        load_op_to_vulkan vulkan a.load_op >>= λ load.
        store_op_to_vulkan vulkan a.store_op >>= λ store.
        stencil_of a.type (load_op_to_vulkan vulkan a.stencil_load_op)
          (store_op_to_vulkan vulkan a.stencil_store_op)
        >>= λ stencil. some (record {
          initial_layout = initial;
          final_layout = final;
          format = format;
          load_op = load;
          store_op = store;
          stencil = stencil;
        })

    unfoldable pub attachments_of : List (AttachmentDesc fl) → Option (List Attachment)
    unfolding attachment_of
    attachments_of [] = some []
    attachments_of (a ∷ more) =
        attachment_of a >>= λ first. attachments_of more >>= λ rest. some (first ∷ rest)

    -- The description that `createRenderPass` gets. The dependencies of `tInfo` are not given to it.
    unfoldable pub describe : CreateInfo fl → Option Description
    unfolding attachments_of fill
    describe info = attachments_of info.attachments >>= λ attachments.
        fill info.subpasses (record { refs = []; capacity = length info.subpasses; block = 0 })
        >>= λ (subpasses, depth_refs). some (record {
          attachments = attachments;
          subpasses = subpasses;
          depth_refs = depth_refs;
          dependencies = [];
        })
