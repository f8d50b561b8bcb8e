-- ===== src/Rhi/RenderPass/Chain.antt =====
-- A client that records subpasses in turn, each chained to the one before.
use engi_cs.Base.{
  ℕ, zero, suc, ◌+◌, ◌^◌, ◌≡◌, ◌<◌, refl, sym, ap, ap₂, ◌∙◌, none, some, List, [], ◌∷◌, ◌++◌,
  append-nil, append_assoc, map, length, length-append, arith,
}
use engi_cs.Rhi.Defs.{ImageLayout, ImageAspect}
use engi_cs.Rhi.Attachment.{Floats}
use engi_cs.Rhi.RenderPass.{
  Outcome, done, ◌>>=◌, Builder, CreateInfo, AttachmentRef, SubpassDesc, Dependency, new_builder,
  fresh_subpass, begin_subpass, as_color, ref_by_index, end_subpass, add_chain, build,
}

module _ (fl : Floats) (src dst : ImageLayout) (aspect : ImageAspect) where
  add_colors : Builder fl → List AttachmentRef → Outcome (Builder fl)
  add_colors b [] = done b
  add_colors b (r ∷ rs) = do
    b' ← ref_by_index fl b as_color r.attachment_index r.layout
    add_colors b' rs

  -- `BeginSubpass`, colour references, `EndSubpass`, `AddSubpassChainDependency`.
  pub record_pass : Builder fl → List AttachmentRef → Outcome (Builder fl)
  unfolding add_colors
  record_pass b colors = do
    opened ← begin_subpass fl b
    filled ← add_colors opened colors
    closed ← end_subpass fl filled
    done (add_chain fl closed src dst aspect)

  pub record_passes : Builder fl → List (List AttachmentRef) → Outcome (Builder fl)
  record_passes b [] = done b
  record_passes b (p ∷ ps) = do b' ← record_pass b p; record_passes b' ps

  abbrev pub pass_of : List AttachmentRef → SubpassDesc
  pass_of colors = record fresh_subpass { color_attachments = colors }

  -- dependencies of each of `k` subpasses after subpass `i` on the one before it
  abbrev pub chain : ℕ → ℕ → List Dependency
  chain i zero = []
  chain i (suc k) =
      record {
        src_subpass = i;
        dst_subpass = i + 1;
        src_layout = src;
        dst_layout = dst;
        aspect = aspect;
      }
      ∷ chain (i + 1) k

  add_colors_lem :
      (b : Builder fl) (colors : List AttachmentRef) (s : SubpassDesc)
      → add_colors (record b { active = some s }) colors
        ≡ done (record b {
          active = some (record s { color_attachments = s.color_attachments ++ colors });
        })
  unfolding add_colors ref_by_index
  add_colors_lem b [] s = rw append-nil refl
  add_colors_lem b (r ∷ rs) s =
      add_colors_lem b rs (record s { color_attachments = s.color_attachments ++ (r ∷ []) })
      ∙ rw append_assoc refl

  -- the builder after one more subpass was closed
  abbrev closed_pass : Builder fl → List AttachmentRef → Builder fl
  closed_pass b colors = record b {
    subpasses = b.subpasses ++ (pass_of colors ∷ []);
    active = none;
  }

  record_pass_lem :
      (b : Builder fl) (colors : List AttachmentRef)
      → record_pass (record b { active = none }) colors
        ≡ done (add_chain fl (closed_pass b colors) src dst aspect)
  unfolding record_pass begin_subpass end_subpass
  record_pass_lem b colors = rw (add_colors_lem b colors fresh_subpass) refl

  -- The first subpass gets no dependency, a later one that on its predecessor.
  chained :
      (b : Builder fl) (colors : List AttachmentRef) (n : ℕ)
      → length b.subpasses ≡ suc n
      → suc n < 2 ^ 32
      → add_chain fl (closed_pass b colors) src dst aspect
        ≡ record (closed_pass b colors) { dependencies = b.dependencies ++ chain n 1 }
  unfolding add_chain
  chained b colors n count few = ground (arith, length-append b.subpasses (pass_of colors ∷ []))

  record_passes_lem :
      (ps : List (List AttachmentRef)) (b : Builder fl) (n : ℕ)
      → length b.subpasses ≡ suc n
      → suc n + length ps < 2 ^ 32
      → record_passes (record b { active = none }) ps
        ≡ done (record b {
          subpasses = b.subpasses ++ map pass_of ps;
          dependencies = b.dependencies ++ chain n (length ps);
          active = none;
        })
  unfolding record_passes
  record_passes_lem [] b n count few =
      ap₂ (λ x y. done (record b { subpasses = x; dependencies = y; active = none }))
        (sym (append-nil b.subpasses)) (sym (append-nil b.dependencies))
  record_passes_lem (p ∷ ps) b n count few =
      rw (record_pass_lem b p, chained b p n count (omega arith))
        (record_passes_lem ps
            (record b {
              subpasses = b.subpasses ++ (pass_of p ∷ []);
              dependencies = b.dependencies ++ chain n 1;
            })
            (suc n) (omega (arith, length-append b.subpasses (pass_of p ∷ []))) (omega arith)
          ∙ ap₂ (λ x y. done (record b { subpasses = x; dependencies = y; active = none }))
              (append_assoc b.subpasses (pass_of p ∷ []) (map pass_of ps))
              (append_assoc b.dependencies (chain n 1) (chain (suc n) (length ps))
                ∙ ap (λ k. b.dependencies ++ (chain n 1 ++ chain k (length ps))) next))
    where
      next : suc n ≡ n + 1
      next = omega arith

  -- From a new builder, recording the subpasses `p ∷ ps` one after the other, each with its colour
  -- references and chained to the one before, and then building, returns these subpasses in order
  -- and a dependency of each subpass but the first on its predecessor.
  pub build-record_passes :
      (p : List AttachmentRef) (ps : List (List AttachmentRef))
      → 1 + length ps < 2 ^ 32
      → (info : CreateInfo fl) × ((record_passes (new_builder fl) (p ∷ ps) >>= build fl)
          ≡ done (info, new_builder fl))
        × (info.subpasses ≡ map pass_of (p ∷ ps))
        × (info.dependencies ≡ chain 0 (length ps))
  unfolding record_passes add_chain build
  build-record_passes p ps few = (
    record {
      attachments = [];
      subpasses = map pass_of (p ∷ ps);
      dependencies = chain 0 (length ps);
    },
    rw (record_pass_lem (new_builder fl) p)
        (rw (record_passes_lem ps (closed_pass (new_builder fl) p) 0 refl (omega arith)) refl),
    refl,
    refl,
  )
