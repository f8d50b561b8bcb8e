-- ===== src/Rhi/Vulkan/Passes/Tests.antt =====
-- ecs/rhi/vulkan/render_pass.cpp: a render pass of two subpasses, of which the first writes depth.
use engi_cs.Base.{ℕ, ◌≡◌, ◌==◌, ==_iff, refl, true, Option, none, some, [], ◌∷◌}
use engi_cs.Rhi.Defs.{ImageLayout, LoadOp, StoreOp, ImageAspect}
use engi_cs.Rhi.Attachment.{Floats, AttachmentDesc, color_attachment}
use engi_cs.Rhi.RenderPass.{AttachmentRef, CreateInfo, fresh_subpass}
use engi_cs.Rhi.Vulkan.Headers.{documented}
use engi_cs.Rhi.Vulkan.Enums.{PixelFormat}
use engi_cs.Rhi.Vulkan.Format.{pixel_format_to_vulkan}
use engi_cs.Rhi.Vulkan.Passes.{
  set_resolve, set_color, new_subpass, Description, emplace_back, read, describe,
}
use engi_cs.Rhi.Vulkan.Passes.Reads.{AllRead}
use engi_cs.Rhi.Vulkan.Passes.Described.{AllKnown, AllFit, describe_lem}

near_self : (a : ℕ) → (a == a) ≡ true
near_self a = (==_iff a a).1 refl

abbrev exact : Floats
exact = record { Float = ℕ; zero_float = 0; near = ◌==◌; near_self = near_self }

abbrev screen : AttachmentDesc exact
screen =
    color_attachment exact 1 ImageLayout.undefined ImageLayout.present LoadOp.clear StoreOp.store 0
      0 0 1

abbrev to_screen : AttachmentRef
to_screen = record { attachment_index = 0; layout = ImageLayout.render_target }

abbrev pass : CreateInfo exact
pass = record {
  attachments = screen ∷ screen ∷ [];
  subpasses =
      record fresh_subpass {
        color_attachments = to_screen ∷ [];
        depth_stencil = record { attachment_index = 1; layout = ImageLayout.depth_stencil_write };
      }
      ∷ record fresh_subpass { color_attachments = to_screen ∷ [] }
      ∷ [];
  dependencies =
      record {
        src_subpass = 0;
        dst_subpass = 1;
        src_layout = ImageLayout.render_target;
        dst_layout = ImageLayout.render_target;
        aspect = ImageAspect.color;
      }
      ∷ [];
}

abbrev image_format : ℕ → Option PixelFormat
image_format texture = some PixelFormat.b8g8r8a8_unorm

known : AllKnown documented exact image_format pass.attachments
unfolding pixel_format_to_vulkan
known = (
  (PixelFormat.b8g8r8a8_unorm, 44, refl, refl),
  ((PixelFormat.b8g8r8a8_unorm, 44, refl, refl), tt),
)

-- A pointer into a vector that has grown since reads nothing.
dangles :
    read
      (emplace_back
        (record { refs = []; capacity = 0; block = 0 })
        (record { attachment = 0; layout = 0 }))
      (0, 0)
    ≡ none
unfolding read emplace_back
dangles = refl

-- A subpass with one color attachment and none to resolve: Vulkan reads no color.
unread :
    (set_resolve []
      (set_color (record { attachment = 0; layout = 2 } ∷ []) new_subpass)).color_count
    ≡ 0
unfolding set_resolve set_color
unread = refl

describe_lem_example :
    (v : Description) × (describe documented exact image_format pass ≡ some v)
    × AllFit documented exact image_format pass.attachments v.attachments
    × AllRead documented pass.subpasses v.subpasses v.depth_refs
    × (v.dependencies ≡ [])
describe_lem_example = describe_lem documented exact image_format pass known
