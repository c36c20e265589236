-- ===== src/Framebuffer/Clipping/Blits.antt =====
-- `dm_fb_blit`, `dm_fb_blit_rect` and `dm_fb_blit_alpha` of src/core/framebuffer.c draw in the clip.
use mathlib.Core.Path.{subst}
use de_mo_d.Prelude.{ℕ, true, false, ◌≡◌, on_branches, leb_ℤ→lt, ltb_ℤ→le}
use de_mo_d.Prelude.{ℤ, pos, ◌+ℤ◌, ◌≤ℤ◌, ◌<ℤ◌, ltb_ℤ, leb_ℤ}
use de_mo_d.Framebuffer.{
  DmColor, DmRect, dm_rect_contains, dm_rect_intersect, rect, DmFramebuffer, pixel, for_below,
  dm_color_unpack,
}
use de_mo_d.Framebuffer.Blits.{
  off_rows, off_columns, blit_pixel, blit_row, dm_fb_blit_rect, dm_fb_blit, dm_fb_blit_alpha, faded,
}
use de_mo_d.Framebuffer.Regions.{Inside→contains, neither}
use de_mo_d.Framebuffer.Loops.{for_below-keeps}
use de_mo_d.Framebuffer.Clipping.{Shape, Clipped, blend_at-Clipped}

pub on_rows : (r : DmRect) (y : ℤ) → off_rows r y ≡ false → (r.y ≤ℤ y) × (y <ℤ r.y +ℤ r.h)
on_rows r y h =
    let (a, b) = neither (ltb_ℤ y r.y) (leb_ℤ (r.y +ℤ r.h) y) h in
    (ltb_ℤ→le y r.y a, leb_ℤ→lt (r.y +ℤ r.h) y b)

pub on_columns : (r : DmRect) (x : ℤ) → off_columns r x ≡ false → (r.x ≤ℤ x) × (x <ℤ r.x +ℤ r.w)
on_columns r x h =
    let (a, b) = neither (ltb_ℤ x r.x) (leb_ℤ (r.x +ℤ r.w) x) h in
    (ltb_ℤ→le x r.x a, leb_ℤ→lt (r.x +ℤ r.w) x b)

-- Both tests passed: the pixel is in the rectangle.
on_both :
    (r : DmRect) (x y : ℤ)
    → off_columns r x ≡ false
    → off_rows r y ≡ false
    → dm_rect_contains r x y ≡ true
on_both r x y hx hy =
    let (left, right) = on_columns r x hx in
    let (top, bottom) = on_rows r y hy in
    Inside→contains r x y (record { left = left; right = right; top = top; bottom = bottom })

module _ (s : Shape) (old : DmFramebuffer) where
  blit_row-Clipped :
      (w : ℤ) (colour : ℤ → DmColor) (dx y : ℤ) (fb : DmFramebuffer)
      → Clipped s old fb
      → Clipped s old (blit_row w colour dx y fb)
  unfolding blit_row blit_pixel
  blit_row-Clipped w colour dx y fb k =
      let same = k.same in
      on_branches (Clipped s old) (off_rows fb.clip y) (λ _. k)
        (λ rows.
          for_below-keeps (Clipped s old) (pos 0) w (λ x. blit_pixel (colour x) (dx +ℤ x) y)
            (λ x fb lo hi k.
              on_branches (Clipped s old) (off_columns fb.clip (dx +ℤ x)) (λ _. k)
                (λ columns.
                  blend_at-Clipped s old (colour x) (dx +ℤ x) y fb
                    (on_both s.clip (dx +ℤ x) y
                      (subst (λ t. off_columns t.clip (dx +ℤ x) ≡ false) k.same columns)
                      (subst (λ t. off_rows t.clip y ≡ false) same rows))
                    k))
            fb k)

  rows-Clipped :
      (w h : ℤ) (colour : ℤ → ℤ → DmColor) (dx dy : ℤ) (fb : DmFramebuffer)
      → Clipped s old fb
      → Clipped s old (for_below (pos 0) h (λ y. blit_row w (colour y) dx (dy +ℤ y)) fb)
  rows-Clipped w h colour dx dy =
      for_below-keeps (Clipped s old) (pos 0) h (λ y. blit_row w (colour y) dx (dy +ℤ y))
        (λ y fb lo hi. blit_row-Clipped w (colour y) dx (dy +ℤ y) fb)

  pub dm_fb_blit_rect-Clipped :
      (fb src : DmFramebuffer) (sr : DmRect) (dx dy : ℤ)
      → Clipped s old fb
      → Clipped s old (dm_fb_blit_rect fb src sr dx dy)
  unfolding dm_fb_blit_rect
  dm_fb_blit_rect-Clipped fb src sr dx dy =
      let part = dm_rect_intersect sr (rect (pos 0) (pos 0) src.width src.height) in
      rows-Clipped part.w part.h (λ y x. dm_color_unpack (pixel src (part.x +ℤ x) (part.y +ℤ y))) dx
        dy fb

  pub dm_fb_blit-Clipped :
      (fb src : DmFramebuffer) (dx dy : ℤ)
      → Clipped s old fb
      → Clipped s old (dm_fb_blit fb src dx dy)
  unfolding dm_fb_blit
  dm_fb_blit-Clipped fb src dx dy =
      dm_fb_blit_rect-Clipped fb src (rect (pos 0) (pos 0) src.width src.height) dx dy

  pub dm_fb_blit_alpha-Clipped :
      (fb src : DmFramebuffer) (dx dy : ℤ) (alpha : ℕ)
      → Clipped s old fb
      → Clipped s old (dm_fb_blit_alpha fb src dx dy alpha)
  unfolding dm_fb_blit_alpha
  dm_fb_blit_alpha-Clipped fb src dx dy alpha =
      rows-Clipped src.width src.height (λ y x. faded alpha (dm_color_unpack (pixel src x y))) dx dy
        fb
