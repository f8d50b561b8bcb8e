-- ===== src/Rhi/RenderPass.antt =====
-- `RenderPassBuilder` of ecs/rhi/render_pass.h and render_pass.cpp.
pub mod NameMap
pub mod Invariant
pub mod Chain
use Prim.Native.String.{String}
use engi_cs.Base.{
  ℕ, zero, suc, ◌+◌, ◌-◌, ◌%◌, ◌^◌, Bool, true, false, Option, none, some, List, [], ◌∷◌, ◌++◌,
  length, ltb, ◌==◌, if◌then◌else◌,
}
use engi_cs.Rhi.Defs.{ImageLayout, LoadOp, StoreOp, ImageAspect}
use engi_cs.Rhi.Attachment.{
  Floats, AttachmentDesc, color_attachment, depth_attachment, depth_stencil_attachment,
}
use engi_cs.Rhi.RenderPass.NameMap.{Names, find, insert}

-- A call returns, throws `std::invalid_argument`, or fails an assertion.
pub data Outcome {ℓ} (A : Type ℓ) : Type ℓ where
  done : A → Outcome A
  thrown : Outcome A
  aborted : Outcome A

infixl 5 ◌>>=◌
abbrev pub ◌>>=◌ {ℓ κ} : {A : Type ℓ} {B : Type κ} → Outcome A → (A → Outcome B) → Outcome B
done a >>= f = f a
thrown >>= f = thrown
aborted >>= f = aborted

abbrev pub u32 : ℕ → ℕ
u32 n = n % 2 ^ 32

-- `UNUSED_ATTACHMENT` and `EXTERNAL_SUBPASS`, which are `~0u`.
abbrev pub unused_attachment : ℕ
unused_attachment = 2 ^ 32 - 1

abbrev pub external_subpass : ℕ
external_subpass = 2 ^ 32 - 1

pub record AttachmentRef : Type 0 where
  pub attachment_index : ℕ
  pub layout : ImageLayout

pub record SubpassDesc : Type 0 where
  pub color_attachments : List AttachmentRef
  pub input_attachments : List AttachmentRef
  pub resolve_attachments : List AttachmentRef
  pub depth_stencil : AttachmentRef

pub record Dependency : Type 0 where
  pub src_subpass : ℕ
  pub dst_subpass : ℕ
  pub src_layout : ImageLayout
  pub dst_layout : ImageLayout
  pub aspect : ImageAspect

abbrev pub fresh_subpass : SubpassDesc
fresh_subpass = record {
  color_attachments = [];
  input_attachments = [];
  resolve_attachments = [];
  depth_stencil = record { attachment_index = unused_attachment; layout = ImageLayout.undefined };
}

-- The lists of references that `Add…AttachmentRef` fill, and the one that `Set…` overwrites.
pub data RefKind : Type 0 where
  as_color as_input as_resolve as_depth_stencil : RefKind

abbrev add_ref : RefKind → AttachmentRef → SubpassDesc → SubpassDesc
add_ref as_color r s = record s { color_attachments = s.color_attachments ++ (r ∷ []) }
add_ref as_input r s = record s { input_attachments = s.input_attachments ++ (r ∷ []) }
add_ref as_resolve r s = record s { resolve_attachments = s.resolve_attachments ++ (r ∷ []) }
add_ref as_depth_stencil r s = record s { depth_stencil = r }

module _ (fl : Floats) where
  pub record CreateInfo : Type 0 where
    pub attachments : List (AttachmentDesc fl)
    pub subpasses : List SubpassDesc
    pub dependencies : List Dependency

  pub record Builder : Type 0 where
    pub attachments : List (AttachmentDesc fl)
    pub subpasses : List SubpassDesc
    pub dependencies : List Dependency
    pub active : Option SubpassDesc
    pub names : Names

  abbrev pub new_builder : Builder
  new_builder = record {
    attachments = [];
    subpasses = [];
    dependencies = [];
    active = none;
    names = [];
  }

  -- `AddAttachment` without a name.
  unfoldable pub add_unnamed : Builder → AttachmentDesc fl → ℕ × Builder
  add_unnamed b desc =
      let attachments = b.attachments ++ (desc ∷ []) in
      (u32 (length attachments - 1), record b { attachments = attachments })

  -- `AddAttachment` with a name, which throws if the name is taken.
  unfoldable pub add_attachment : Builder → String → AttachmentDesc fl → Outcome (ℕ × Builder)
  add_attachment b name desc = elim (find name b.names) [
    | some _ ↦ thrown
    | none ↦
        let idx = u32 (length b.attachments) in
        done (
          idx,
          record b { attachments = b.attachments ++ (desc ∷ []); names = insert name idx b.names },
        )
  ]

  unfoldable pub add_color_attachment :
      Builder
      → String
      → ℕ
      → ImageLayout
      → ImageLayout
      → LoadOp
      → StoreOp
      → (r g b a : fl.Float) → Outcome (ℕ × Builder)
  add_color_attachment bd name texture init final load_as store_as r g b a =
      add_attachment bd name (color_attachment fl texture init final load_as store_as r g b a)

  unfoldable pub add_depth_attachment :
      Builder
      → String
      → ℕ
      → ImageLayout
      → ImageLayout
      → LoadOp
      → StoreOp
      → fl.Float
      → Outcome (ℕ × Builder)
  add_depth_attachment bd name texture init final load_as store_as depth =
      add_attachment bd name (depth_attachment fl texture init final load_as store_as depth)

  unfoldable pub add_depth_stencil_attachment :
      Builder
      → String
      → ℕ
      → ImageLayout
      → ImageLayout
      → LoadOp
      → StoreOp
      → fl.Float
      → ℕ
      → Outcome (ℕ × Builder)
  add_depth_stencil_attachment bd name texture init final load_as store_as depth stencil =
      add_attachment bd name
        (depth_stencil_attachment fl texture init final load_as store_as depth stencil)

  unfoldable pub begin_subpass : Builder → Outcome Builder
  begin_subpass b = elim b.active [
    | some _ ↦ aborted
    | none ↦ done (record b { active = some fresh_subpass })
  ]

  -- `Add…AttachmentRef` and `SetDepthStencilAttachmentRef` by index.
  unfoldable pub ref_by_index : Builder → RefKind → ℕ → ImageLayout → Outcome Builder
  ref_by_index b kind idx layout = elim b.active [
    | none ↦ aborted
    | some s ↦ done (record b {
      active = some (add_ref kind (record { attachment_index = idx; layout = layout }) s);
    })
  ]

  unfoldable pub resolve_attachment_index : Builder → String → Outcome ℕ
  resolve_attachment_index b name = elim (find name b.names) [
    | none ↦ aborted
    | some idx ↦ done idx
  ]

  -- The same by name.
  unfoldable pub ref_by_name : Builder → RefKind → String → ImageLayout → Outcome Builder
  unfolding resolve_attachment_index
  ref_by_name b kind name layout = do
    idx ← resolve_attachment_index b name
    ref_by_index b kind idx layout

  abbrev resolves_fit : SubpassDesc → Bool
  resolves_fit s =
      if length s.resolve_attachments == 0
      then true
      else length s.resolve_attachments == length s.color_attachments

  unfoldable pub end_subpass : Builder → Outcome Builder
  end_subpass b = elim b.active [
    | none ↦ aborted
    | some s ↦
        if resolves_fit s
        then done (record b { subpasses = b.subpasses ++ (s ∷ []); active = none })
        else aborted
  ]

  unfoldable pub add_dependency : Builder → Dependency → Builder
  add_dependency b d = record b { dependencies = b.dependencies ++ (d ∷ []) }

  unfoldable pub add_chain : Builder → ImageLayout → ImageLayout → ImageAspect → Builder
  unfolding add_dependency
  add_chain b src dst aspect =
      if ltb (length b.subpasses) 2
      then b
      else add_dependency b (record {
        src_subpass = u32 (length b.subpasses - 2);
        dst_subpass = u32 (length b.subpasses - 1);
        src_layout = src;
        dst_layout = dst;
        aspect = aspect;
      })

  unfoldable pub add_external_first : Builder → ImageLayout → ImageAspect → Builder
  unfolding add_dependency
  add_external_first b initial aspect =
      if length b.subpasses == 0
      then b
      else add_dependency b (record {
        src_subpass = external_subpass;
        dst_subpass = 0;
        src_layout = ImageLayout.undefined;
        dst_layout = initial;
        aspect = aspect;
      })

  unfoldable pub add_last_external : Builder → ImageLayout → ImageAspect → Builder
  unfolding add_dependency
  add_last_external b final aspect =
      if length b.subpasses == 0
      then b
      else add_dependency b (record {
        src_subpass = u32 (length b.subpasses - 1);
        dst_subpass = external_subpass;
        src_layout = final;
        dst_layout = ImageLayout.undefined;
        aspect = aspect;
      })

  -- `Build`: what it returns, and the builder that it leaves.
  unfoldable pub build : Builder → Outcome (CreateInfo × Builder)
  build b = elim b.active [
    | some _ ↦ aborted
    | none ↦ done (
      record {
        attachments = b.attachments;
        subpasses = b.subpasses;
        dependencies = b.dependencies;
      },
      new_builder,
    )
  ]
