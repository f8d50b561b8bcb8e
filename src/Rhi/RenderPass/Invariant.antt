-- ===== src/Rhi/RenderPass/Invariant.antt =====
-- The names of attachments, and what each call of the builder makes of them.
use Prim.Native.String.{String}
use text.Mathlib.Text.{◌==◌ as str_eq}
use text.Mathlib.TextEquality.{eq_iff}
use engi_cs.Base.{
  ℕ, ◌+◌, ◌-◌, ◌%◌, ◌^◌, ◌≡◌, ◌≢◌, ◌<◌, refl, true, false, none, some, [], ◌∷◌, ◌++◌, length,
  length-append, get_elem?, get_elem?-append_left, get_elem?-append_length, arith,
}
use engi_cs.Rhi.Attachment.{Floats, AttachmentDesc}
use engi_cs.Rhi.RenderPass.NameMap.{find, insert, find-insert, find-insert_self}
use engi_cs.Rhi.RenderPass.{
  done, thrown, aborted, Builder, CreateInfo, new_builder, add_unnamed, add_attachment,
  resolve_attachment_index, build,
}

module _ (fl : Floats) where
  -- Names lead to attachments, different names to different ones.
  pub record IsValid (b : Builder fl) : Type 0 where
    pub resolved : (k : String) (i : ℕ) → find k b.names ≡ some i → i < length b.attachments
    pub distinct :
        (k j : String) (i : ℕ)
        → find k b.names ≡ some i
        → find j b.names ≡ some i
        → str_eq k j ≡ true

  module _ (b : Builder fl) (v : IsValid b) (few : length b.attachments < 2 ^ 32)
      (desc : AttachmentDesc fl) where
    abbrev added : String → Builder fl
    added name = record b {
      attachments = b.attachments ++ (desc ∷ []);
      names = insert name (length b.attachments) b.names;
    }

    added-IsValid : (name : String) → find name b.names ≡ none → IsValid (added name)
    added-IsValid name fresh = record {
      resolved = λ k i h. ground (
        arith,
        find-insert name k (length b.attachments) b.names,
        v.resolved k i,
        length-append b.attachments (desc ∷ []),
      );
      distinct = λ k j i hk hj. ground (
        arith,
        find-insert name k (length b.attachments) b.names,
        find-insert name j (length b.attachments) b.names,
        eq_iff k j,
        eq_iff name k,
        eq_iff name j,
        v.resolved k i,
        v.resolved j i,
        v.distinct k j i,
      );
    }

    -- Of a valid builder with less than 2 ^ 32 attachments: `AddAttachment` with a new name returns the index at which the attachment now stands, and by
    -- which the name is found; every other name and every other attachment is as before, and the
    -- builder is valid again. With a name that is taken it throws.
    pub add_attachment_lem :
        (name : String)
        → ((i : ℕ) → find name b.names ≡ some i → add_attachment fl b name desc ≡ thrown)
          × (find name b.names ≡ none
              → (idx : ℕ) × (b' : Builder fl) × (add_attachment fl b name desc ≡ done (idx, b'))
                × (get_elem? b'.attachments idx ≡ some desc)
                × (resolve_attachment_index fl b' name ≡ done idx)
                × ((j : String) → str_eq name j ≡ false → find j b'.names ≡ find j b.names)
                × ((i : ℕ) → i < idx → get_elem? b'.attachments i ≡ get_elem? b.attachments i)
                × IsValid b')
    unfolding add_attachment resolve_attachment_index
    add_attachment_lem name = (
      λ i taken. rw (taken, add_attachment) refl,
      λ fresh. (
        length b.attachments,
        added name,
        rw (fresh, add_attachment) (ground arith),
        get_elem?-append_length b.attachments desc,
        rw (find-insert_self name (length b.attachments) b.names, resolve_attachment_index) refl,
        λ j other. rw (find-insert, other) refl,
        λ i h. get_elem?-append_left b.attachments (desc ∷ []) i h,
        added-IsValid name fresh,
      ),
    )

  -- `AddAttachment` without a name, to a valid builder with room for a 32-bit index, returns the
  -- number of attachments before it, at which the attachment now stands; the names are as before,
  -- and the builder is valid again.
  pub add_unnamed_lem :
      (b : Builder fl) (desc : AttachmentDesc fl)
      → IsValid b
      → length b.attachments + 1 < 2 ^ 32
      → let (idx, b') = add_unnamed fl b desc in
        (idx ≡ length b.attachments)
        × (get_elem? b'.attachments idx ≡ some desc)
        × ((j : String) → find j b'.names ≡ find j b.names)
        × IsValid b'
  unfolding add_unnamed
  add_unnamed_lem b desc v few = (
    at,
    rw at (get_elem?-append_length b.attachments desc),
    λ j. refl,
    record {
      resolved = λ k i h. omega (arith, v.resolved k i h, length-append b.attachments (desc ∷ []));
      distinct = v.distinct;
    },
  )
    where
      at : (length (b.attachments ++ (desc ∷ [])) - 1) % 2 ^ 32 ≡ length b.attachments
      at = omega (arith, length-append b.attachments (desc ∷ []))

  new_builder-IsValid : IsValid (new_builder fl)
  unfolding find
  new_builder-IsValid = record { resolved = λ k i h. cc; distinct = λ k j i h. cc }

  -- `Build` of a builder with no open subpass returns everything recorded, in order, and leaves a
  -- builder that is valid and empty: a second `Build` returns nothing. With an open subpass it
  -- fails its assertion.
  pub build_lem :
      (b : Builder fl)
      → (b.active ≢ none → build fl b ≡ aborted)
        × (b.active ≡ none
            → (info : CreateInfo fl) × (b' : Builder fl) × (build fl b ≡ done (info, b'))
              × (info.attachments ≡ b.attachments)
              × (info.subpasses ≡ b.subpasses)
              × (info.dependencies ≡ b.dependencies)
              × IsValid b'
              × (b' ≡ new_builder fl))
  unfolding build
  build_lem b = (
    λ h. ground arith,
    λ closed. (
      record {
        attachments = b.attachments;
        subpasses = b.subpasses;
        dependencies = b.dependencies;
      },
      new_builder fl,
      rw closed refl,
      refl,
      refl,
      refl,
      new_builder-IsValid,
      refl,
    ),
  )
