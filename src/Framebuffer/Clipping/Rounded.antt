-- ===== src/Framebuffer/Clipping/Rounded.antt =====
-- Rounded rectangles, filled circles and gradients of src/core/framebuffer.c draw in the clip.
use de_mo_d.Prelude.{if◌then◌else◌, ◌&&◌, on_branches}
use de_mo_d.Prelude.{ℤ, pos, ◌+ℤ◌, ◌-ℤ◌, ◌*ℤ◌, ltb_ℤ, leb_ℤ}
use de_mo_d.Framebuffer.{
  DmColor, DmRect, dm_rect_intersect, dm_rect_inset, DmFramebuffer, for_below, dm_fb_hline,
  dm_fb_vline,
}
use de_mo_d.Framebuffer.Floats.{Floats}
use de_mo_d.Framebuffer.Rounded.{
  scanline_inset, fill_rounded_scanline, fit_radius, dm_fb_fill_rounded_rect, border_spans,
  stroke_scanline, dm_fb_stroke_rounded_rect, dm_fb_fill_circle, dm_color_lerp, share,
  dm_fb_fill_rect_gradient_v, dm_fb_fill_rect_gradient_h,
}
use de_mo_d.Framebuffer.Clipping.Rows.{
  dm_fb_hline-Clipped, dm_fb_vline-Clipped, dm_fb_fill_rect-Clipped, dm_fb_stroke_rect-Clipped,
}
use de_mo_d.Framebuffer.Loops.{for_below-keeps}
use de_mo_d.Framebuffer.Clipping.{Shape, Clipped}

module _ (F : Floats) (s : Shape) (old : DmFramebuffer) where
  open F use {of_int, to_int, root}

  -- A loop whose rounds draw in the clip.
  pub loop-Clipped :
      (lo hi : ℤ) (f : ℤ → DmFramebuffer → DmFramebuffer)
      → ((i : ℤ) (fb : DmFramebuffer) → Clipped s old fb → Clipped s old (f i fb))
      → (fb : DmFramebuffer) → Clipped s old fb
      → Clipped s old (for_below lo hi f fb)
  loop-Clipped lo hi f h = for_below-keeps (Clipped s old) lo hi f (λ i fb _ _. h i fb)

  hline :
      (x1 x2 y : ℤ) (c : DmColor) (fb : DmFramebuffer)
      → Clipped s old fb
      → Clipped s old (dm_fb_hline fb x1 x2 y c)
  hline x1 x2 y c fb = dm_fb_hline-Clipped s old fb x1 x2 y c

  pub dm_fb_fill_rounded_rect-Clipped :
      (fb : DmFramebuffer) (r : DmRect) (radius : ℤ) (c : DmColor)
      → Clipped s old fb
      → Clipped s old (dm_fb_fill_rounded_rect F fb r radius c)
  unfolding dm_fb_fill_rounded_rect fill_rounded_scanline
  dm_fb_fill_rounded_rect-Clipped fb r radius c k =
      let rad = fit_radius F r radius in
      let clipped = dm_rect_intersect r fb.clip in
      on_branches (Clipped s old) (leb_ℤ radius (pos 0))
        (λ _. dm_fb_fill_rect-Clipped s old fb r c k)
        (λ _.
          loop-Clipped clipped.y (clipped.y +ℤ clipped.h)
            (λ y fb. fill_rounded_scanline F fb r rad y c)
            (λ y fb.
              let inset = scanline_inset F rad r.h (y -ℤ r.y) in
              hline (r.x +ℤ inset) (r.x +ℤ r.w -ℤ pos 1 -ℤ inset) y c fb)
            fb k)

  border_spans-Clipped :
      (ox1 ox2 ix1 ix2 y : ℤ) (c : DmColor) (fb : DmFramebuffer)
      → Clipped s old fb
      → Clipped s old (border_spans F ox1 ox2 ix1 ix2 y c fb)
  unfolding border_spans
  border_spans-Clipped ox1 ox2 ix1 ix2 y c fb k =
      let left : DmFramebuffer =
        if ltb_ℤ ox1 ix1 then dm_fb_hline fb ox1 (ix1 -ℤ pos 1) y c else fb in
      let kept : Clipped s old left =
        on_branches (Clipped s old) (ltb_ℤ ox1 ix1) (λ _. hline ox1 (ix1 -ℤ pos 1) y c fb k)
          (λ _. k) in
      on_branches (Clipped s old) (ltb_ℤ ix2 ox2) (λ _. hline (ix2 +ℤ pos 1) ox2 y c left kept)
        (λ _. kept)

  stroke_scanline-Clipped :
      (r inner : DmRect) (radius inner_rad : ℤ) (c : DmColor) (y : ℤ) (fb : DmFramebuffer)
      → Clipped s old fb
      → Clipped s old (stroke_scanline F r inner radius inner_rad c y fb)
  unfolding stroke_scanline
  stroke_scanline-Clipped r inner radius inner_rad c y fb k =
      let outer_inset = scanline_inset F radius r.h (y -ℤ r.y) in
      let ox1 = r.x +ℤ outer_inset in
      let ox2 = r.x +ℤ r.w -ℤ pos 1 -ℤ outer_inset in
      let rel_y = y -ℤ inner.y in
      let in_inner =
        leb_ℤ (pos 0) rel_y
        && ltb_ℤ rel_y inner.h
        && ltb_ℤ (pos 0) inner.w
        && ltb_ℤ (pos 0) inner.h in
      let inset =
        if in_inner && ltb_ℤ (pos 0) inner_rad
        then scanline_inset F inner_rad inner.h rel_y
        else pos 0 in
      on_branches (Clipped s old) in_inner
        (λ _.
          border_spans-Clipped ox1 ox2 (inner.x +ℤ inset) (inner.x +ℤ inner.w -ℤ pos 1 -ℤ inset) y c
            fb k)
        (λ _. hline ox1 ox2 y c fb k)

  pub dm_fb_stroke_rounded_rect-Clipped :
      (fb : DmFramebuffer) (r : DmRect) (radius : ℤ) (c : DmColor) (thickness : ℤ)
      → Clipped s old fb
      → Clipped s old (dm_fb_stroke_rounded_rect F fb r radius c thickness)
  unfolding dm_fb_stroke_rounded_rect
  dm_fb_stroke_rounded_rect-Clipped fb r radius c thickness k =
      let rad = fit_radius F r radius in
      let inner_rad = if ltb_ℤ (rad -ℤ thickness) (pos 0) then pos 0 else rad -ℤ thickness in
      let inner = dm_rect_inset r thickness thickness in
      let clipped = dm_rect_intersect r fb.clip in
      on_branches (Clipped s old) (leb_ℤ radius (pos 0))
        (λ _. dm_fb_stroke_rect-Clipped s old fb r c thickness k)
        (λ _.
          loop-Clipped clipped.y (clipped.y +ℤ clipped.h)
            (stroke_scanline F r inner rad inner_rad c)
            (stroke_scanline-Clipped r inner rad inner_rad c) fb k)

  pub dm_fb_fill_circle-Clipped :
      (fb : DmFramebuffer) (cx cy radius : ℤ) (c : DmColor)
      → Clipped s old fb
      → Clipped s old (dm_fb_fill_circle F fb cx cy radius c)
  unfolding dm_fb_fill_circle
  dm_fb_fill_circle-Clipped fb cx cy radius c =
      let half_w : ℤ → ℤ = λ y. to_int (root (of_int (radius *ℤ radius -ℤ y *ℤ y))) in
      loop-Clipped (pos 0 -ℤ radius) (radius +ℤ pos 1)
        (λ y fb. dm_fb_hline fb (cx -ℤ half_w y) (cx +ℤ half_w y) (cy +ℤ y) c)
        (λ y. hline (cx -ℤ half_w y) (cx +ℤ half_w y) (cy +ℤ y) c) fb

  pub dm_fb_fill_rect_gradient_v-Clipped :
      (fb : DmFramebuffer) (r : DmRect) (top bottom : DmColor)
      → Clipped s old fb
      → Clipped s old (dm_fb_fill_rect_gradient_v F fb r top bottom)
  unfolding dm_fb_fill_rect_gradient_v
  dm_fb_fill_rect_gradient_v-Clipped fb r top bottom =
      let clipped = dm_rect_intersect r fb.clip in
      let right = clipped.x +ℤ clipped.w -ℤ pos 1 in
      let colour : ℤ → DmColor = λ y. dm_color_lerp F top bottom (share F y r.y r.h) in
      loop-Clipped clipped.y (clipped.y +ℤ clipped.h)
        (λ y fb. dm_fb_hline fb clipped.x right y (colour y))
        (λ y. hline clipped.x right y (colour y)) fb

  pub dm_fb_fill_rect_gradient_h-Clipped :
      (fb : DmFramebuffer) (r : DmRect) (left right : DmColor)
      → Clipped s old fb
      → Clipped s old (dm_fb_fill_rect_gradient_h F fb r left right)
  unfolding dm_fb_fill_rect_gradient_h
  dm_fb_fill_rect_gradient_h-Clipped fb r left right =
      let clipped = dm_rect_intersect r fb.clip in
      let bottom = clipped.y +ℤ clipped.h -ℤ pos 1 in
      let colour : ℤ → DmColor = λ x. dm_color_lerp F left right (share F x r.x r.w) in
      loop-Clipped clipped.x (clipped.x +ℤ clipped.w)
        (λ x fb. dm_fb_vline fb x clipped.y bottom (colour x))
        (λ x fb. dm_fb_vline-Clipped s old fb x clipped.y bottom (colour x)) fb
