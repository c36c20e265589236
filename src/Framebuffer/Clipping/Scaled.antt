-- ===== src/Framebuffer/Clipping/Scaled.antt =====
-- `dm_fb_blit_scaled` and `dm_fb_warp_barrel` of src/core/framebuffer.c draw in the clip: the area of
-- their loops is the meet of their rectangle and the clip.
use mathlib.Core.Path.{subst}
use de_mo_d.Prelude.{ℕ, ◌==◌, if◌then◌else◌, true, ◌||◌, on_branches, ◌≡◌, Option, none, some}
use de_mo_d.Prelude.{ℤ, pos, ◌+ℤ◌, ◌-ℤ◌, ltb_ℤ, leb_ℤ, int_laws}
use de_mo_d.Framebuffer.{
  dm_color_unpack, DmRect, dm_rect_contains, dm_rect_intersect, DmFramebuffer, pixel,
}
use de_mo_d.Framebuffer.Blits.{faded}
use de_mo_d.Framebuffer.Floats.{Floats}
use de_mo_d.Framebuffer.Scaled.{
  copy_pixel, DmFitMode, Placing, placing, scaled_row, scaled_rows, scaled_at, dm_fb_blit_scaled,
  Lens, bent, warp_pixel, dm_fb_warp_barrel,
}
use de_mo_d.Framebuffer.Regions.{intersect_Inside, Inside, Inside→contains}
use de_mo_d.Framebuffer.Loops.{for_below-keeps}
use de_mo_d.Framebuffer.Clipping.{Shape, Clipped, set_pixel-Clipped, blend_at-Clipped}

module _ (F : Floats) (s : Shape) (old : DmFramebuffer) where
  open F use {Float, of_int, mul, div, add, sub, literal, at_most}

  copy_pixel-Clipped :
      (alpha sp : ℕ) (x y : ℤ) (fb : DmFramebuffer)
      → dm_rect_contains s.clip x y ≡ true
      → Clipped s old fb
      → Clipped s old (copy_pixel alpha sp x y fb)
  unfolding copy_pixel
  copy_pixel-Clipped alpha sp x y fb inside k =
      on_branches (Clipped s old) (alpha == 255) (λ _. set_pixel-Clipped s old x y sp fb inside k)
        (λ _. blend_at-Clipped s old (faded alpha (dm_color_unpack sp)) x y fb inside k)

  -- A pixel of the area.
  in_area :
      (fb : DmFramebuffer) (r : DmRect) (x y : ℤ)
      → Clipped s old fb
      → Inside (dm_rect_intersect r fb.clip) x y
      → dm_rect_contains s.clip x y ≡ true
  in_area fb r x y k i =
      subst (λ t. dm_rect_contains t.clip x y ≡ true) k.same
        (Inside→contains fb.clip x y ((intersect_Inside r fb.clip x y i).1))

  scaled_rows-Clipped :
      (src : DmFramebuffer) (alpha : ℕ) (area : DmRect) (p : Placing F) (fb : DmFramebuffer)
      → ((x y : ℤ) → Inside area x y → dm_rect_contains s.clip x y ≡ true)
      → Clipped s old fb
      → Clipped s old (scaled_rows F src alpha area p fb)
  unfolding scaled_rows scaled_row
  scaled_rows-Clipped src alpha area p fb inside k =
      for_below-keeps {S = DmFramebuffer × ℤ} (λ t. Clipped s old t.0) (pos 0) area.h _
        (λ y t lo hi k.
          for_below-keeps {S = DmFramebuffer × ℤ} (λ t. Clipped s old t.0) (pos 0) area.w _
            (λ x t lo' hi' k.
              copy_pixel-Clipped alpha _ (area.x +ℤ x) (area.y +ℤ y) t.0
                (inside (area.x +ℤ x) (area.y +ℤ y) (record {
                  left = omega int_laws;
                  right = omega int_laws;
                  top = omega int_laws;
                  bottom = omega int_laws;
                }))
                k)
            _ k)
        _ k

  scaled_at-Clipped :
      (src : DmFramebuffer) (alpha : ℕ) (p : Option (Placing F)) (fb : DmFramebuffer)
      → Clipped s old fb
      → Clipped s old (scaled_at F src alpha p fb)
  unfolding scaled_at
  scaled_at-Clipped src alpha none fb k = k
  scaled_at-Clipped src alpha (some p) fb k =
      let area = dm_rect_intersect p.ddr fb.clip in
      on_branches (Clipped s old) (leb_ℤ area.w (pos 0) || leb_ℤ area.h (pos 0)) (λ _. k)
        (λ _. scaled_rows-Clipped src alpha area p fb (λ x y. in_area fb p.ddr x y k) k)

  pub dm_fb_blit_scaled-Clipped :
      (fb src : DmFramebuffer) (dr : DmRect) (fit : DmFitMode) (alpha : ℕ)
      → Clipped s old fb
      → Clipped s old (dm_fb_blit_scaled F fb src dr fit alpha)
  unfolding dm_fb_blit_scaled
  dm_fb_blit_scaled-Clipped fb src dr fit alpha k =
      on_branches (Clipped s old) (leb_ℤ src.width (pos 0) || leb_ℤ src.height (pos 0)) (λ _. k)
        (λ _.
          on_branches (Clipped s old) (leb_ℤ dr.w (pos 0) || leb_ℤ dr.h (pos 0)) (λ _. k)
            (λ _. scaled_at-Clipped src alpha (placing F fit src dr) fb k))

  warp_pixel-Clipped :
      (src : DmFramebuffer) (dr : DmRect) (l : Lens F) (alpha : ℕ) (y x : ℤ) (fb : DmFramebuffer)
      → dm_rect_contains s.clip x y ≡ true
      → Clipped s old fb
      → Clipped s old (warp_pixel F src dr l alpha y x fb)
  unfolding warp_pixel
  warp_pixel-Clipped src dr l alpha y x fb inside k =
      let nx = mul (sub (of_int (x -ℤ dr.x)) l.cx) l.inv in
      let ny = mul (sub (of_int (y -ℤ dr.y)) l.cy) l.inv in
      let r2 = add (mul nx nx) (mul ny ny) in
      let f = add (add (literal 10 1) (mul l.k1 r2)) (mul (mul l.k2 r2) r2) in
      let slx = bent F l.cx (x -ℤ dr.x) f in
      let sly = bent F l.cy (y -ℤ dr.y) f in
      on_branches (Clipped s old)
        (ltb_ℤ slx (pos 0) || leb_ℤ src.width slx || ltb_ℤ sly (pos 0) || leb_ℤ src.height sly)
        (λ _. k) (λ _. copy_pixel-Clipped alpha (pixel src slx sly) x y fb inside k)

  pub dm_fb_warp_barrel-Clipped :
      (fb src : DmFramebuffer) (dr : DmRect) (k1 k2 : Float) (alpha : ℕ)
      → Clipped s old fb
      → Clipped s old (dm_fb_warp_barrel F fb src dr k1 k2 alpha)
  unfolding dm_fb_warp_barrel
  dm_fb_warp_barrel-Clipped fb src dr k1 k2 alpha k =
      let norm = mul (of_int (if ltb_ℤ dr.h dr.w then dr.h else dr.w)) (literal 5 1) in
      let area = dm_rect_intersect dr fb.clip in
      on_branches (Clipped s old) (leb_ℤ dr.w (pos 0) || leb_ℤ dr.h (pos 0)) (λ _. k)
        (λ _.
          on_branches (Clipped s old) (at_most norm (literal 0 1)) (λ _. k)
            (λ _.
              on_branches (Clipped s old) (leb_ℤ area.w (pos 0) || leb_ℤ area.h (pos 0)) (λ _. k)
                (λ _.
                  for_below-keeps (Clipped s old) area.y (area.y +ℤ area.h) _
                    (λ y t lo hi k'.
                      for_below-keeps (Clipped s old) area.x (area.x +ℤ area.w) _
                        (λ x t lo' hi'. warp_pixel-Clipped src dr _ alpha y x t (
                          in_area fb dr x y k
                            (record { left = lo'; right = hi'; top = lo; bottom = hi })))
                        t k')
                    fb k)))
