-- ===== src/Rhi/Attachment.antt =====
-- `AttachmentDesc` of ecs/rhi/render_pass.h and render_pass.cpp.
use engi_cs.Base.{
  ℕ, ◌≡◌, ◌↔◌, refl, sym, ◌∙◌, Bool, true, false, Option, none, some, ◌==◌, ◌&&◌, if◌then◌else◌,
  Bool-cases, inl, inr, arith, ==_iff,
}
use engi_cs.Rhi.Defs.{
  ImageLayout, LoadOp, StoreOp, AttachmentType, layout_value, load_op_value, store_op_value,
  attachment_type_value,
}

-- `float`, with the test `std::abs(a - b) <= epsilon` at the default `epsilon`.
pub record Floats : Type 1 where
  pub Float : Type 0
  pub zero_float : Float
  pub near : Float → Float → Bool
  pub near_self : (a : Float) → near a a ≡ true

same_layout : (i j : ImageLayout) → ((layout_value i == layout_value j) ≡ true) ↔ (i ≡ j)
same_layout i j = (λ h. ground arith, λ e. rw e ((==_iff _ _).1 refl))

same_load_op : (i j : LoadOp) → ((load_op_value i == load_op_value j) ≡ true) ↔ (i ≡ j)
same_load_op i j = (λ h. ground arith, λ e. rw e ((==_iff _ _).1 refl))

same_store_op : (i j : StoreOp) → ((store_op_value i == store_op_value j) ≡ true) ↔ (i ≡ j)
same_store_op i j = (λ h. ground arith, λ e. rw e ((==_iff _ _).1 refl))

all_true :
    (a b c d e : Bool)
    → ((a && true && b && c && d && e) ≡ true)
      ↔ ((a ≡ true) × (b ≡ true) × (c ≡ true) × (d ≡ true) × (e ≡ true))
all_true a b c d e = (λ h. ground arith, λ h. ground arith)

module _ (fl : Floats) where
  open fl use {Float, zero_float, near}

  -- `union ClearValue`, by the member that was written.
  pub data ClearValue : Type 0 where
    color : (r g b a : Float) → ClearValue
    depth_stencil : (depth : Float) (stencil : ℕ) → ClearValue

  -- `texture` is a pointer, as a number.
  pub record AttachmentDesc : Type 0 where
    pub texture : ℕ
    pub type : AttachmentType
    pub initial_layout : ImageLayout
    pub final_layout : ImageLayout
    pub load_op : LoadOp
    pub store_op : StoreOp
    pub stencil_load_op : LoadOp
    pub stencil_store_op : StoreOp
    pub clear_value : ClearValue

  abbrev pub desc_of :
      ℕ
      → AttachmentType
      → ImageLayout
      → ImageLayout
      → LoadOp
      → StoreOp
      → ClearValue
      → AttachmentDesc
  desc_of texture type init final load_as store_as clear = record {
    texture = texture;
    type = type;
    initial_layout = init;
    final_layout = final;
    load_op = load_as;
    store_op = store_as;
    stencil_load_op = LoadOp.undefined;
    stencil_store_op = StoreOp.undefined;
    clear_value = clear;
  }

  unfoldable pub color_attachment :
      ℕ → ImageLayout → ImageLayout → LoadOp → StoreOp → (r g b a : Float) → AttachmentDesc
  color_attachment texture init final load_as store_as r g b a =
      desc_of texture AttachmentType.color init final load_as store_as (color r g b a)

  unfoldable pub depth_attachment :
      ℕ → ImageLayout → ImageLayout → LoadOp → StoreOp → Float → AttachmentDesc
  depth_attachment texture init final load_as store_as depth =
      desc_of texture AttachmentType.depth init final load_as store_as (depth_stencil depth 0)

  -- The type is `Depth` here too.
  unfoldable pub depth_stencil_attachment :
      ℕ → ImageLayout → ImageLayout → LoadOp → StoreOp → Float → ℕ → AttachmentDesc
  depth_stencil_attachment texture init final load_as store_as depth stencil =
      desc_of texture AttachmentType.depth init final load_as store_as (depth_stencil depth stencil)

  -- `clearValueEquals`; `none` is a read of the member that was not written.
  unfoldable pub clear_value_equals : AttachmentType → ClearValue → ClearValue → Option Bool
  clear_value_equals AttachmentType.color (color r g b a) (color r' g' b' a') =
      some (near r r' && near g g' && near b b' && near a a')
  clear_value_equals AttachmentType.depth (depth_stencil d s) (depth_stencil d' s') =
      some (near d d')
  clear_value_equals AttachmentType.depth_stencil (depth_stencil d s) (depth_stencil d' s') =
      some (near d d' && s == s')
  clear_value_equals _ _ _ = none

  -- The fields that `operator==` compares before the clear values.
  abbrev pub same_fields : AttachmentDesc → AttachmentDesc → Bool
  same_fields x y =
      x.texture == y.texture
      && attachment_type_value x.type == attachment_type_value y.type
      && layout_value x.initial_layout == layout_value y.initial_layout
      && layout_value x.final_layout == layout_value y.final_layout
      && load_op_value x.load_op == load_op_value y.load_op
      && store_op_value x.store_op == store_op_value y.store_op

  -- `operator==`
  unfoldable pub equals : AttachmentDesc → AttachmentDesc → Option Bool
  equals x y =
      if same_fields x y then clear_value_equals x.type x.clear_value y.clear_value else some false

  -- `operator==` of two depth-stencil attachments that agree in all but their clear stencil says
  -- that they are equal, whatever the clear stencils are.
  pub equals_ignores_stencil :
      (texture : ℕ) (init final : ImageLayout) (l : LoadOp) (s : StoreOp) (depth : Float) (n n' : ℕ)
      → equals
          (depth_stencil_attachment texture init final l s depth n)
          (depth_stencil_attachment texture init final l s depth n')
        ≡ some true
  unfolding equals depth_stencil_attachment clear_value_equals
  equals_ignores_stencil texture init final l s depth n n' = ground (arith, fl.near_self depth)

  -- `operator==` of two colour attachments never reads a member that was not written. It says that
  -- they are equal exactly if they have the same texture, layouts and operations, and each clear
  -- component of one is near that of the other.
  pub equals_color_iff :
      (t t' : ℕ) (i f i' f' : ImageLayout) (l l' : LoadOp) (s s' : StoreOp)
      (r g b a r' g' b' a' : Float)
      → let x = color_attachment t i f l s r g b a in
        let y = color_attachment t' i' f' l' s' r' g' b' a' in
        (e : Bool) × (equals x y ≡ some e)
        × ((e ≡ true)
            ↔ (t ≡ t')
              × (i ≡ i')
              × (f ≡ f')
              × (l ≡ l')
              × (s ≡ s')
              × ((near r r' && near g g' && near b b' && near a a') ≡ true))
  unfolding equals color_attachment clear_value_equals
  equals_color_iff t t' i f i' f' l l' s s' r g b a r' g' b' a' =
      let x = color_attachment t i f l s r g b a in
      let y = color_attachment t' i' f' l' s' r' g' b' a' in
      let n = near r r' && near g g' && near b b' && near a a' in
      let fields =
        all_true (t == t') (layout_value i == layout_value i') (layout_value f == layout_value f')
          (load_op_value l == load_op_value l') (store_op_value s == store_op_value s') in
      elim (Bool-cases (same_fields x y)) [
        | inl same ↦
            let (e₁, e₂, e₃, e₄, e₅) = fields.0 same in
            (
              n,
              rw same refl,
              (
                λ h. (
                  (==_iff t t').0 e₁,
                  (same_layout i i').0 e₂,
                  (same_layout f f').0 e₃,
                  (same_load_op l l').0 e₄,
                  (same_store_op s s').0 e₅,
                  h,
                ),
                λ h. h.5,
              ),
            )
        | inr other ↦ (
          false,
          rw other refl,
          (
            λ h. cc,
            λ (e₁, e₂, e₃, e₄, e₅, _).
                let same : same_fields x y ≡ true = fields.1 (
                  (==_iff t t').1 e₁,
                  (same_layout i i').1 e₂,
                  (same_layout f f').1 e₃,
                  (same_load_op l l').1 e₄,
                  (same_store_op s s').1 e₅,
                ) in
                sym other ∙ same,
          ),
        )
      ]
