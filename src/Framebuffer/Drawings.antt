-- ===== src/Framebuffer/Drawings.antt =====
-- Every drawing of src/core/framebuffer.c ends, and leaves what is outside of the clip.
use de_mo_d.Prelude.{
  some, ap, ◌∙◌, ℤ, ◌+ℤ◌, ◌*ℤ◌, pos, ◌≤ℤ◌, ◌<ℤ◌, true, false, ◌≡◌, index_injective, int_laws,
}
use de_mo_d.Framebuffer.{DmFramebuffer, pixel, dm_rect_contains}
use de_mo_d.Framebuffer.Floats.{Floats}
use de_mo_d.Framebuffer.Sessions.{
  Drawing, draw, put_pixel, hline, vline, line, fill_rect, stroke_rect, fill_rounded_rect,
  stroke_rounded_rect, fill_circle, stroke_circle, fill_rect_gradient_v, fill_rect_gradient_h, blit,
  blit_rect, blit_alpha, blit_scaled, warp_barrel, fill_triangle, stroke_triangle,
  fill_triangle_gradient, sierpinski, sierpinski_glow, thick_line, arrow, bezier, arrow_bezier,
}
use de_mo_d.Framebuffer.Regions.{contains→Inside}
use de_mo_d.Framebuffer.Clipping.{shape, Shape, IsFramed, Clipped, Clipped-refl}
use de_mo_d.Framebuffer.Clipping.Rows.{
  dm_fb_hline-Clipped, dm_fb_vline-Clipped, dm_fb_fill_rect-Clipped, dm_fb_stroke_rect-Clipped,
}
use de_mo_d.Framebuffer.Clipping.{dm_fb_put_pixel-Clipped}
use de_mo_d.Framebuffer.Clipping.Lines.{
  Drawn, Drawn-some, dm_fb_line-Drawn, dm_fb_stroke_circle-Drawn, dm_fb_stroke_triangle-Drawn,
}
use de_mo_d.Framebuffer.Clipping.Rounded.{
  dm_fb_fill_rounded_rect-Clipped, dm_fb_stroke_rounded_rect-Clipped, dm_fb_fill_circle-Clipped,
  dm_fb_fill_rect_gradient_v-Clipped, dm_fb_fill_rect_gradient_h-Clipped,
}
use de_mo_d.Framebuffer.Clipping.Blits.{
  dm_fb_blit-Clipped, dm_fb_blit_rect-Clipped, dm_fb_blit_alpha-Clipped,
}
use de_mo_d.Framebuffer.Clipping.Scaled.{dm_fb_blit_scaled-Clipped, dm_fb_warp_barrel-Clipped}
use de_mo_d.Framebuffer.Clipping.Triangles.{
  dm_fb_fill_triangle-Clipped, dm_fb_fill_triangle_gradient-Clipped, dm_fb_sierpinski-Drawn,
  dm_fb_sierpinski_glow-Drawn,
}
use de_mo_d.Framebuffer.Clipping.Curves.{
  dm_fb_thick_line-Drawn, dm_fb_arrow-Drawn, dm_fb_bezier-Drawn, dm_fb_arrow_bezier-Drawn,
}

-- A drawing ends, and changes the memory at the pixels of the clip at most.
pub draw-Drawn :
    (F : Floats) (s : Shape) (old : DmFramebuffer) (d : Drawing F) (fb : DmFramebuffer)
    → Clipped s old fb
    → Drawn s old (draw F d fb)
unfolding draw
draw-Drawn F s old (put_pixel x y c) fb kept =
    Drawn-some s old _ (dm_fb_put_pixel-Clipped s old fb x y c kept)
draw-Drawn F s old (hline x1 x2 y c) fb kept =
    Drawn-some s old _ (dm_fb_hline-Clipped s old fb x1 x2 y c kept)
draw-Drawn F s old (vline x y1 y2 c) fb kept =
    Drawn-some s old _ (dm_fb_vline-Clipped s old fb x y1 y2 c kept)
draw-Drawn F s old (line x0 y0 x1 y1 c) fb kept = dm_fb_line-Drawn s old fb x0 y0 x1 y1 c kept
draw-Drawn F s old (fill_rect r c) fb kept =
    Drawn-some s old _ (dm_fb_fill_rect-Clipped s old fb r c kept)
draw-Drawn F s old (stroke_rect r c t) fb kept =
    Drawn-some s old _ (dm_fb_stroke_rect-Clipped s old fb r c t kept)
draw-Drawn F s old (fill_rounded_rect r radius c) fb kept =
    Drawn-some s old _ (dm_fb_fill_rounded_rect-Clipped F s old fb r radius c kept)
draw-Drawn F s old (stroke_rounded_rect r radius c t) fb kept =
    Drawn-some s old _ (dm_fb_stroke_rounded_rect-Clipped F s old fb r radius c t kept)
draw-Drawn F s old (fill_circle cx cy radius c) fb kept =
    Drawn-some s old _ (dm_fb_fill_circle-Clipped F s old fb cx cy radius c kept)
draw-Drawn F s old (stroke_circle cx cy radius c) fb kept =
    dm_fb_stroke_circle-Drawn s old fb cx cy radius c kept
draw-Drawn F s old (fill_rect_gradient_v r top bottom) fb kept =
    Drawn-some s old _ (dm_fb_fill_rect_gradient_v-Clipped F s old fb r top bottom kept)
draw-Drawn F s old (fill_rect_gradient_h r left right) fb kept =
    Drawn-some s old _ (dm_fb_fill_rect_gradient_h-Clipped F s old fb r left right kept)
draw-Drawn F s old (blit src dx dy) fb kept =
    Drawn-some s old _ (dm_fb_blit-Clipped s old fb src dx dy kept)
draw-Drawn F s old (blit_rect src sr dx dy) fb kept =
    Drawn-some s old _ (dm_fb_blit_rect-Clipped s old fb src sr dx dy kept)
draw-Drawn F s old (blit_alpha src dx dy alpha) fb kept =
    Drawn-some s old _ (dm_fb_blit_alpha-Clipped s old fb src dx dy alpha kept)
draw-Drawn F s old (blit_scaled src dr fit alpha) fb kept =
    Drawn-some s old _ (dm_fb_blit_scaled-Clipped F s old fb src dr fit alpha kept)
draw-Drawn F s old (warp_barrel src dr k1 k2 alpha) fb kept =
    Drawn-some s old _ (dm_fb_warp_barrel-Clipped F s old fb src dr k1 k2 alpha kept)
draw-Drawn F s old (fill_triangle x0 y0 x1 y1 x2 y2 c) fb kept =
    Drawn-some s old _ (dm_fb_fill_triangle-Clipped F s old fb x0 y0 x1 y1 x2 y2 c kept)
draw-Drawn F s old (stroke_triangle x0 y0 x1 y1 x2 y2 c) fb kept =
    dm_fb_stroke_triangle-Drawn s old fb x0 y0 x1 y1 x2 y2 c kept
draw-Drawn F s old (fill_triangle_gradient v c0 c1 c2) fb kept =
    Drawn-some s old _ (dm_fb_fill_triangle_gradient-Clipped F s old fb v c0 c1 c2 kept)
draw-Drawn F s old (sierpinski v0 v1 v2 depth fill stroke) fb kept =
    dm_fb_sierpinski-Drawn F s old fb v0 v1 v2 depth fill stroke kept
draw-Drawn F s old (sierpinski_glow v0 v1 v2 depth fill stroke glow radius) fb kept =
    dm_fb_sierpinski_glow-Drawn F s old fb v0 v1 v2 depth fill stroke glow radius kept
draw-Drawn F s old (thick_line p q thickness c) fb kept =
    dm_fb_thick_line-Drawn F s old fb p q thickness c kept
draw-Drawn F s old (arrow p q head_size thickness c) fb kept =
    dm_fb_arrow-Drawn F s old fb p q head_size thickness c kept
draw-Drawn F s old (bezier k segments c) fb kept = dm_fb_bezier-Drawn F s old fb k segments c kept
draw-Drawn F s old (arrow_bezier k segments head_size thickness c) fb kept =
    dm_fb_arrow_bezier-Drawn F s old fb k segments head_size thickness c kept

-- A drawing on a framebuffer whose clip is inside of its frame ends. The framebuffer keeps its size,
-- its stride and its clip, and each pixel outside of the clip has the colour that it had.
pub draw_leaves_rest :
    (F : Floats) (d : Drawing F) (fb : DmFramebuffer)
    → IsFramed (shape fb)
    → (fb' : DmFramebuffer) × (draw F d fb ≡ some fb')
      × (shape fb' ≡ shape fb)
      × ((x y : ℤ)
          → pos 0 ≤ℤ x
          → x <ℤ fb.stride
          → dm_rect_contains fb.clip x y ≡ false
          → pixel fb' x y ≡ pixel fb x y)
unfolding pixel Drawn
draw_leaves_rest F d fb framed =
    let (fb', e, k) = draw-Drawn F (shape fb) fb d fb (Clipped-refl fb) in
    (
      fb',
      e,
      k.same,
      λ x y lo hi out.
          ap (λ n. fb'.pixels (y *ℤ n +ℤ x)) (ap (λ t. t.stride) k.same)
          ∙ k.untouched (y *ℤ fb.stride +ℤ x)
              (λ x' y' inside e. elsewhere x y x' y' lo hi out inside e),
    )
  where
    elsewhere :
        (x y x' y' : ℤ)
        → pos 0 ≤ℤ x
        → x <ℤ fb.stride
        → dm_rect_contains fb.clip x y ≡ false
        → dm_rect_contains fb.clip x' y' ≡ true
        → y *ℤ fb.stride +ℤ x ≡ y' *ℤ fb.stride +ℤ x'
        → ⊥
    elsewhere x y x' y' lo hi out inside e =
        let i = contains→Inside fb.clip x' y' inside in
        let (ex, ey) =
          index_injective x y x' y' fb.stride lo hi (omega (int_laws, i.left, framed.left))
            (omega (int_laws, i.right, framed.right, framed.wide)) e in
        cc (out, inside, ex, ey)
