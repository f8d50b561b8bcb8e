-- ===== src/Rhi/Tests.antt =====
-- Attachments, render passes and conversions to Vulkan at concrete inputs, with natural numbers
-- for `float` and equality for nearness.
use engi_cs.Base.{
  ℕ, ◌^◌, ◌<◌, ◌≡◌, refl, Bool, true, false, ◌&&◌, ◌||◌, ltb, none, some, List, [], ◌∷◌, map,
  length, get_elem?, ◌==◌, ==_iff, arith, ◌≤◌, ◌⊎◌, inr, ◌-◌,
}
use Prim.Native.String.{String}
use text.Mathlib.TextEquality.{eq_iff}
use text.Mathlib.Text.{◌==◌ as str_eq}
use engi_cs.Rhi.Defs.{ImageLayout, LoadOp, StoreOp, ImageAspect}
use engi_cs.Rhi.Attachment.{Floats, AttachmentDesc, color_attachment}
use engi_cs.Rhi.RenderPass.{
  done, thrown, ◌>>=◌, Builder, CreateInfo, AttachmentRef, new_builder, add_attachment,
  resolve_attachment_index, build,
}
use engi_cs.Rhi.RenderPass.NameMap.{find, insert, find-insert}
use engi_cs.Rhi.RenderPass.Invariant
use engi_cs.Rhi.RenderPass.Invariant.{add_attachment_lem, add_unnamed_lem, build_lem}
use engi_cs.Rhi.RenderPass.Chain.{record_passes, pass_of, chain, build-record_passes}
use engi_cs.Rhi.Vulkan.Format.{pixel_format_from_vulkan}
use engi_cs.Rhi.Vulkan.SwapChain.{
  Capabilities, choose_extent, choose_image_count, has_pair, preferred, choose_surface_format,
}
use engi_cs.Rhi.Vulkan.SwapChain.Choices.{IsSensible, choices_fit, preferred_aborts}
use engi_cs.Rhi.Vulkan.Headers.{documented}
use engi_cs.Rhi.Vulkan.Enums.{
  QueueTypeBits, ShaderTypeBits, ImageUsageBits, BufferUsageBits, VertexFormat, ImageViewType,
  SwizzleMapping,
}
use engi_cs.Rhi.Vulkan.Queue.{
  queue_to_vulkan, queue_from_vulkan, shader_to_vulkan, shader_from_vulkan, shaders_to_vulkan,
  shaders_from_vulkan,
}
use engi_cs.Rhi.Vulkan.Usage.{
  image_usage_to_vulkan, image_usage_from_vulkan, buffer_usage_to_vulkan, buffer_usage_from_vulkan,
  image_usages_to_vulkan, image_usages_from_vulkan, buffer_usages_to_vulkan,
  buffer_usages_from_vulkan,
}
use engi_cs.Rhi.Vulkan.Format.{vertex_format_to_vulkan, vertex_format_from_vulkan}
use engi_cs.Rhi.Vulkan.View.{
  view_type_to_vulkan, view_type_from_vulkan, aspect_to_vulkan, aspect_from_vulkan,
  swizzle_to_vulkan, swizzle_from_vulkan, samples_to_vulkan, samples_from_vulkan,
}
use engi_cs.Rhi.Vulkan.Attachments.{
  load_op_to_vulkan, load_op_from_vulkan, store_op_to_vulkan, store_op_from_vulkan,
}
use engi_cs.Rhi.Vulkan.Documented.{round_trip, queue_read_back, buffer_read_back, image_read_back}
use engi_cs.Rhi.Vulkan.Values.{values_round_trip, uses_read_back, samples_round_trip}
use engi_cs.Rhi.Vulkan.Flags.{flags_round_trip}

near_self : (a : ℕ) → (a == a) ≡ true
near_self a = (==_iff a a).1 refl

abbrev exact : Floats
exact = record { Float = ℕ; zero_float = 0; near = ◌==◌; near_self = near_self }

-- a colour attachment, and a builder that has it under a name
abbrev screen : AttachmentDesc exact
screen =
    color_attachment exact 1 ImageLayout.undefined ImageLayout.present LoadOp.clear StoreOp.store 0
      0 0 1

abbrev one_named : Builder exact
one_named = record (new_builder exact) { attachments = screen ∷ []; names = insert "screen" 0 [] }

one_named-IsValid : Invariant.IsValid exact one_named
unfolding find
one_named-IsValid = record {
  resolved = λ k i h. ground (arith, find-insert "screen" k 0 []);
  distinct = λ k j i hk hj. ground (
    arith,
    find-insert "screen" k 0 [],
    find-insert "screen" j 0 [],
    eq_iff k j,
    eq_iff "screen" k,
    eq_iff "screen" j,
  );
}

few : length one_named.attachments < 2 ^ 32
few = omega arith

add_attachment_lem_example :
    ((i : ℕ)
      → find "shadow" one_named.names ≡ some i
      → add_attachment exact one_named "shadow" screen ≡ thrown)
    × (find "shadow" one_named.names ≡ none
        → (idx : ℕ) × (b' : Builder exact) × (add_attachment exact one_named "shadow" screen
            ≡ done (idx, b'))
          × (get_elem? b'.attachments idx ≡ some screen)
          × (resolve_attachment_index exact b' "shadow" ≡ done idx)
          × ((j : String) → str_eq "shadow" j ≡ false → find j b'.names ≡ find j one_named.names)
          × ((i : ℕ) → i < idx → get_elem? b'.attachments i ≡ get_elem? one_named.attachments i)
          × Invariant.IsValid exact b')
add_attachment_lem_example =
    add_attachment_lem exact one_named one_named-IsValid few screen "shadow"

-- a pass that draws to attachments 0 and 1, and one that draws to attachment 1
abbrev to_both : List AttachmentRef
to_both =
    record { attachment_index = 0; layout = ImageLayout.render_target }
    ∷ record { attachment_index = 1; layout = ImageLayout.render_target }
    ∷ []

abbrev to_second : List AttachmentRef
to_second = record { attachment_index = 1; layout = ImageLayout.shader_resource } ∷ []

build-record_passes_example :
    (info : CreateInfo exact) × ((record_passes exact ImageLayout.render_target
          ImageLayout.shader_resource ImageAspect.color
          (new_builder exact)
          (to_both ∷ to_second ∷ to_both ∷ [])
        >>= build exact)
      ≡ done (info, new_builder exact))
    × (info.subpasses
        ≡ map
            (pass_of exact ImageLayout.render_target ImageLayout.shader_resource ImageAspect.color)
            (to_both ∷ to_second ∷ to_both ∷ []))
    × (info.dependencies
        ≡ chain exact ImageLayout.render_target ImageLayout.shader_resource ImageAspect.color 0 2)
build-record_passes_example =
    build-record_passes exact ImageLayout.render_target ImageLayout.shader_resource
      ImageAspect.color to_both (to_second ∷ to_both ∷ []) (omega arith)

values_round_trip_example :
    ((x : ShaderTypeBits)
      → round_trip (shader_to_vulkan documented) (shader_from_vulkan documented) x ≡ some x)
    × ((x : VertexFormat)
        → round_trip (vertex_format_to_vulkan documented) (vertex_format_from_vulkan documented) x
          ≡ some x)
    × ((x : ImageViewType)
        → round_trip (view_type_to_vulkan documented) (view_type_from_vulkan documented) x ≡ some x)
    × ((x : ImageAspect)
        → round_trip (aspect_to_vulkan documented) (aspect_from_vulkan documented) x ≡ some x)
    × ((x : SwizzleMapping)
        → round_trip (swizzle_to_vulkan documented) (swizzle_from_vulkan documented) x ≡ some x)
    × ((x : LoadOp)
        → round_trip (load_op_to_vulkan documented) (load_op_from_vulkan documented) x ≡ some x)
    × ((x : StoreOp)
        → round_trip (store_op_to_vulkan documented) (store_op_from_vulkan documented) x ≡ some x)
values_round_trip_example = values_round_trip documented refl

uses_read_back_example :
    ((x : QueueTypeBits)
      → round_trip (queue_to_vulkan documented) (queue_from_vulkan documented) x
        ≡ some (queue_read_back x))
    × ((x : ImageUsageBits)
        → round_trip (image_usage_to_vulkan documented) (image_usage_from_vulkan documented) x
          ≡ some (image_read_back x))
    × ((x : BufferUsageBits)
        → round_trip (buffer_usage_to_vulkan documented) (buffer_usage_from_vulkan documented) x
          ≡ buffer_read_back x)
uses_read_back_example = uses_read_back documented refl

samples_round_trip_run : samples_to_vulkan (samples_from_vulkan 8) ≡ 8
samples_round_trip_run = samples_round_trip 8 (omega arith)

-- flags: the first and the fourth, and what a result may have held before
abbrev first_and_fourth : ℕ → Bool
first_and_fourth j = j == 0 || j == 3

abbrev left_over : ℕ → Bool
left_over j = j == 1

flags_round_trip_example :
    (shaders_from_vulkan documented left_over (shaders_to_vulkan documented first_and_fourth) 3
      ≡ (left_over 3 || (ltb 3 6 && first_and_fourth 3)))
    × (image_usages_from_vulkan documented left_over
          (image_usages_to_vulkan documented first_and_fourth)
          3
        ≡ (left_over 3 || (ltb 3 6 && first_and_fourth 3)))
    × (buffer_usages_from_vulkan documented left_over
          (buffer_usages_to_vulkan documented first_and_fourth)
          3
        ≡ (left_over 3 || (ltb 3 7 && first_and_fourth 3)))
flags_round_trip_example = flags_round_trip documented refl left_over first_and_fourth 3

-- a surface of any size up to 4096 by 4096, with two or three images
abbrev window_limits : Capabilities
window_limits = record {
  current_width = 2 ^ 32 - 1;
  current_height = 2 ^ 32 - 1;
  min_width = 1;
  min_height = 1;
  max_width = 4096;
  max_height = 4096;
  min_image_count = 2;
  max_image_count = 3;
}

window_limits-IsSensible : IsSensible window_limits
window_limits-IsSensible = record {
  widths = omega arith;
  heights = omega arith;
  counts = inr (omega arith);
  small = omega arith;
}

choices_fit_example :
    let (w, h) = choose_extent window_limits 5000 720 in
    let n = choose_image_count window_limits in
    ((1 ≤ w) × (w ≤ 4096))
    × ((1 ≤ h) × (h ≤ 4096))
    × (((5000 < 1) ⊎ (4096 < 5000)) ⊎ (w ≡ 5000))
    × (((720 < 1) ⊎ (4096 < 720)) ⊎ (h ≡ 720))
    × (2 ≤ n)
    × ((◌≡◌ {A = ℕ} 3 0) ⊎ (n ≤ 3))
    × (((n ≡ 3) × ((◌≡◌ {A = ℕ} 3 0) ⊎ (2 < 3))) ⊎ ((n ≡ 3) × (◌≡◌ {A = ℕ} 3 2)))
choices_fit_example = choices_fit window_limits 5000 720 window_limits-IsSensible refl

-- a surface that offers R8G8B8A8_UNORM and B8G8R8A8_SRGB
abbrev offers : List (ℕ × ℕ)
offers = (37, 0) ∷ (50, 0) ∷ []

offers-preferred : has_pair (preferred documented) offers ≡ true
unfolding has_pair
offers-preferred = refl

preferred_aborts_run :
    (choose_surface_format documented offers ≡ some (preferred documented))
    × (pixel_format_from_vulkan documented (preferred documented).0 ≡ none)
preferred_aborts_run = preferred_aborts documented offers refl offers-preferred
