-- ===== src/Framebuffer/Rounded.antt =====
-- Rounded rectangles, filled circles and gradients of src/core/framebuffer.c.
use de_mo_d.Prelude.{ℕ, if◌then◌else◌, ◌&&◌}
use de_mo_d.Prelude.{ℤ, pos, ◌+ℤ◌, ◌-ℤ◌, ◌*ℤ◌, ltb_ℤ, leb_ℤ, tdiv}
use de_mo_d.Framebuffer.{
  DmColor, DmRect, dm_rect_intersect, dm_rect_inset, DmFramebuffer, for_below, for_to, rounds_up,
  dm_fb_hline, dm_fb_vline, dm_fb_fill_rect, dm_fb_stroke_rect,
}
use de_mo_d.Framebuffer.Floats.{Floats}

module _ (F : Floats) where
  open F use {Float, of_int, to_int, to_byte, add, sub, mul, div, root, at_most, literal}

  -- `rad - (int)sqrtf((float)(rad * rad - dy * dy))`
  unfoldable pub arc_inset : ℤ → ℤ → ℤ
  arc_inset rad dy = rad -ℤ to_int (root (of_int (rad *ℤ rad -ℤ dy *ℤ dy)))

  -- The inset of a scanline of a rectangle of height `h`, `rel_y` below its top.
  unfoldable pub scanline_inset : ℤ → ℤ → ℤ → ℤ
  unfolding arc_inset
  scanline_inset rad h rel_y =
      if ltb_ℤ rel_y rad
      then arc_inset rad (rad -ℤ rel_y -ℤ pos 1)
      else if leb_ℤ (h -ℤ rad) rel_y
      then arc_inset rad (rel_y -ℤ (h -ℤ rad))
      else pos 0

  unfoldable pub fill_rounded_scanline : DmFramebuffer → DmRect → ℤ → ℤ → DmColor → DmFramebuffer
  unfolding scanline_inset dm_fb_hline
  fill_rounded_scanline fb r rad y c =
      let x_inset = scanline_inset rad r.h (y -ℤ r.y) in
      dm_fb_hline fb (r.x +ℤ x_inset) (r.x +ℤ r.w -ℤ pos 1 -ℤ x_inset) y c

  -- `radius` is at most half of each side.
  unfoldable pub fit_radius : DmRect → ℤ → ℤ
  fit_radius r radius =
      let by_width = if ltb_ℤ (tdiv r.w 2) radius then tdiv r.w 2 else radius in
      if ltb_ℤ (tdiv r.h 2) by_width then tdiv r.h 2 else by_width

  unfoldable pub dm_fb_fill_rounded_rect : DmFramebuffer → DmRect → ℤ → DmColor → DmFramebuffer
  unfolding dm_fb_fill_rect fit_radius dm_rect_intersect fill_rounded_scanline rounds_up
  dm_fb_fill_rounded_rect fb r radius c =
      let rad = fit_radius r radius in
      let clipped = dm_rect_intersect r fb.clip in
      if leb_ℤ radius (pos 0)
      then dm_fb_fill_rect fb r c
      else for_below clipped.y (clipped.y +ℤ clipped.h) (λ y fb. fill_rounded_scanline fb r rad y c)
          fb

  -- A scanline that meets the inside: the spans left and right of it.
  unfoldable pub border_spans : ℤ → ℤ → ℤ → ℤ → ℤ → DmColor → DmFramebuffer → DmFramebuffer
  unfolding dm_fb_hline
  border_spans ox1 ox2 ix1 ix2 y c fb =
      let left = if ltb_ℤ ox1 ix1 then dm_fb_hline fb ox1 (ix1 -ℤ pos 1) y c else fb in
      if ltb_ℤ ix2 ox2 then dm_fb_hline left (ix2 +ℤ pos 1) ox2 y c else left

  -- A round of `dm_fb_stroke_rounded_rect`.
  unfoldable pub stroke_scanline :
      DmRect → DmRect → ℤ → ℤ → DmColor → ℤ → DmFramebuffer → DmFramebuffer
  unfolding scanline_inset border_spans dm_fb_hline
  stroke_scanline r inner radius inner_rad c y fb =
      let outer_inset = scanline_inset radius r.h (y -ℤ r.y) in
      let ox1 = r.x +ℤ outer_inset in
      let ox2 = r.x +ℤ r.w -ℤ pos 1 -ℤ outer_inset in
      let inner_rel_y = y -ℤ inner.y in
      let in_inner =
        leb_ℤ (pos 0) inner_rel_y
        && ltb_ℤ inner_rel_y inner.h
        && ltb_ℤ (pos 0) inner.w
        && ltb_ℤ (pos 0) inner.h in
      let inner_inset =
        if in_inner && ltb_ℤ (pos 0) inner_rad
        then scanline_inset inner_rad inner.h inner_rel_y
        else pos 0 in
      let ix1 = inner.x +ℤ inner_inset in
      let ix2 = inner.x +ℤ inner.w -ℤ pos 1 -ℤ inner_inset in
      if in_inner then border_spans ox1 ox2 ix1 ix2 y c fb else dm_fb_hline fb ox1 ox2 y c

  unfoldable pub dm_fb_stroke_rounded_rect :
      DmFramebuffer → DmRect → ℤ → DmColor → ℤ → DmFramebuffer
  unfolding dm_fb_stroke_rect fit_radius dm_rect_inset dm_rect_intersect stroke_scanline rounds_up
  dm_fb_stroke_rounded_rect fb r radius c thickness =
      let rad = fit_radius r radius in
      let inner_rad = if ltb_ℤ (rad -ℤ thickness) (pos 0) then pos 0 else rad -ℤ thickness in
      let inner = dm_rect_inset r thickness thickness in
      let clipped = dm_rect_intersect r fb.clip in
      if leb_ℤ radius (pos 0)
      then dm_fb_stroke_rect fb r c thickness
      else for_below clipped.y (clipped.y +ℤ clipped.h) (stroke_scanline r inner rad inner_rad c) fb

  unfoldable pub dm_fb_fill_circle : DmFramebuffer → ℤ → ℤ → ℤ → DmColor → DmFramebuffer
  unfolding dm_fb_hline rounds_up
  dm_fb_fill_circle fb cx cy radius c =
      let half_w : ℤ → ℤ = λ y. to_int (root (of_int (radius *ℤ radius -ℤ y *ℤ y))) in
      for_to (pos 0 -ℤ radius) radius
        (λ y fb. dm_fb_hline fb (cx -ℤ half_w y) (cx +ℤ half_w y) (cy +ℤ y) c) fb

  -- `(uint8_t)(a + (b - a) * t)`
  lerp_byte : ℕ → ℕ → Float → ℕ
  lerp_byte a b t = to_byte (add (of_int (pos a)) (mul (of_int (pos b -ℤ pos a)) t))

  unfoldable pub dm_color_lerp : DmColor → DmColor → Float → DmColor
  unfolding lerp_byte
  dm_color_lerp a b t =
      if at_most t (literal 0 1) then a else if at_most (literal 10 1) t then b else record {
        r = lerp_byte a.r b.r t;
        g = lerp_byte a.g b.g t;
        b = lerp_byte a.b b.b t;
        a = lerp_byte a.a b.a t;
      }

  -- `(float)(i - from) / (float)(n > 1 ? n - 1 : 1)`
  pub share : ℤ → ℤ → ℤ → Float
  share i from n = div (of_int (i -ℤ from)) (of_int (if ltb_ℤ (pos 1) n then n -ℤ pos 1 else pos 1))

  unfoldable pub dm_fb_fill_rect_gradient_v :
      DmFramebuffer → DmRect → DmColor → DmColor → DmFramebuffer
  unfolding dm_rect_intersect dm_color_lerp share dm_fb_hline rounds_up
  dm_fb_fill_rect_gradient_v fb r top bottom =
      let clipped = dm_rect_intersect r fb.clip in
      for_below clipped.y (clipped.y +ℤ clipped.h)
        (λ y fb.
          dm_fb_hline fb clipped.x (clipped.x +ℤ clipped.w -ℤ pos 1) y
            (dm_color_lerp top bottom (share y r.y r.h)))
        fb

  unfoldable pub dm_fb_fill_rect_gradient_h :
      DmFramebuffer → DmRect → DmColor → DmColor → DmFramebuffer
  unfolding dm_rect_intersect dm_color_lerp share dm_fb_vline rounds_up
  dm_fb_fill_rect_gradient_h fb r left right =
      let clipped = dm_rect_intersect r fb.clip in
      for_below clipped.x (clipped.x +ℤ clipped.w)
        (λ x fb.
          dm_fb_vline fb x clipped.y (clipped.y +ℤ clipped.h -ℤ pos 1)
            (dm_color_lerp left right (share x r.x r.w)))
        fb
