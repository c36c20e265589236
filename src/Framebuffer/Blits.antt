-- ===== src/Framebuffer/Blits.antt =====
-- `dm_fb_blit`, `dm_fb_blit_rect` and `dm_fb_blit_alpha` of src/core/framebuffer.c. The source is
-- another framebuffer than the destination.
use de_mo_d.Prelude.{ℕ, ◌*◌, ◌/◌, ◌%◌, if◌then◌else◌, Bool, ◌||◌}
use de_mo_d.Prelude.{ℤ, pos, ◌+ℤ◌, ltb_ℤ, leb_ℤ}
use de_mo_d.Framebuffer.{
  DmColor, dm_color_unpack, DmRect, rect, dm_rect_intersect, DmFramebuffer, pixel, blend_at,
  for_below, rounds_up,
}

-- The tests that skip a row or a column.
abbrev pub off_rows : DmRect → ℤ → Bool
off_rows r y = ltb_ℤ y r.y || leb_ℤ (r.y +ℤ r.h) y

abbrev pub off_columns : DmRect → ℤ → Bool
off_columns r x = ltb_ℤ x r.x || leb_ℤ (r.x +ℤ r.w) x

-- A pixel of the destination, unless its column is off the clip.
unfoldable pub blit_pixel : DmColor → ℤ → ℤ → DmFramebuffer → DmFramebuffer
unfolding blend_at
blit_pixel sc dst_x dst_y dst =
    if off_columns dst.clip dst_x then dst else blend_at sc dst_x dst_y dst

-- A row of `w` pixels, with the colour for each.
unfoldable pub blit_row : ℤ → (ℤ → DmColor) → ℤ → ℤ → DmFramebuffer → DmFramebuffer
unfolding blit_pixel rounds_up
blit_row w colour dx dst_y dst =
    let row = for_below (pos 0) w (λ x. blit_pixel (colour x) (dx +ℤ x) dst_y) dst in
    if off_rows dst.clip dst_y then dst else row

unfoldable pub dm_fb_blit_rect : DmFramebuffer → DmFramebuffer → DmRect → ℤ → ℤ → DmFramebuffer
unfolding dm_rect_intersect pixel dm_color_unpack blit_row
dm_fb_blit_rect dst src sr dx dy =
    let part = dm_rect_intersect sr (rect (pos 0) (pos 0) src.width src.height) in
    for_below (pos 0) part.h
      (λ y.
        blit_row part.w (λ x. dm_color_unpack (pixel src (part.x +ℤ x) (part.y +ℤ y))) dx (dy +ℤ y))
      dst

unfoldable pub dm_fb_blit : DmFramebuffer → DmFramebuffer → ℤ → ℤ → DmFramebuffer
unfolding dm_fb_blit_rect
dm_fb_blit dst src dx dy = dm_fb_blit_rect dst src (rect (pos 0) (pos 0) src.width src.height) dx dy

-- `sc.a = (uint8_t)((sc.a * alpha) / 255)`
abbrev pub faded : ℕ → DmColor → DmColor
faded alpha c = record c { a = c.a * alpha / 255 % 256 }

unfoldable pub dm_fb_blit_alpha : DmFramebuffer → DmFramebuffer → ℤ → ℤ → ℕ → DmFramebuffer
unfolding pixel dm_color_unpack blit_row
dm_fb_blit_alpha dst src dx dy alpha =
    for_below (pos 0) src.height
      (λ y. blit_row src.width (λ x. faded alpha (dm_color_unpack (pixel src x y))) dx (dy +ℤ y))
      dst
