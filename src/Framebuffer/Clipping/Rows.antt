-- ===== src/Framebuffer/Clipping/Rows.antt =====
-- Lines along an axis and rectangles of src/core/framebuffer.c draw in the clip.
use mathlib.Core.Path.{subst}
use de_mo_d.Prelude.{ltb_ℤ→le, leb_ℤ→lt}
use de_mo_d.Prelude.{◌==◌, if◌then◌else◌, true, ◌||◌, on_branches, arith}
use de_mo_d.Prelude.{◌≡◌}
use de_mo_d.Prelude.{ℤ, pos, ◌+ℤ◌, ◌-ℤ◌, ◌≤ℤ◌, ◌<ℤ◌, ltb_ℤ, leb_ℤ, int_laws}
use de_mo_d.Framebuffer.{
  DmColor, dm_color_pack, DmRect, dm_rect_contains, DmFramebuffer, set_pixel, blend_at, row_run,
  hline_sorted, dm_fb_hline, column_run, vline_sorted, dm_fb_vline, dm_rect_intersect,
  dm_fb_fill_rect, stroke_ring, dm_fb_stroke_rect,
}
use de_mo_d.Framebuffer.Loops.{for_below-keeps}
use de_mo_d.Framebuffer.Regions.{Inside→contains, neither}
use de_mo_d.Framebuffer.Clipping.{Shape, Clipped, set_pixel-Clipped, blend_at-Clipped}

module _ (s : Shape) (old : DmFramebuffer) where
  -- A test that the clip of the framebuffer at hand passes or not, read with the shape's clip.
  moved : (fb : DmFramebuffer) (P : DmRect → Type 0) → Clipped s old fb → P fb.clip → P s.clip
  moved fb P k p = subst (λ t. P t.clip) k.same p

  pub row_run-Clipped :
      (c : DmColor) (x1 x2 y : ℤ) (fb : DmFramebuffer)
      → s.clip.x ≤ℤ x1
      → x2 <ℤ s.clip.x +ℤ s.clip.w
      → s.clip.y ≤ℤ y
      → y <ℤ s.clip.y +ℤ s.clip.h
      → Clipped s old fb
      → Clipped s old (row_run c x1 x2 y fb)
  unfolding row_run
  row_run-Clipped c x1 x2 y fb hl hr ht hb k =
      on_branches (Clipped s old) (c.a == 255)
        (λ _.
          for_below-keeps (Clipped s old) x1 (x2 +ℤ pos 1)
            (λ x fb. set_pixel fb x y (dm_color_pack c))
            (λ x fb lo hi k. set_pixel-Clipped s old x y (dm_color_pack c) fb (inside x lo hi) k) fb
            k)
        (λ _.
          for_below-keeps (Clipped s old) x1 (x2 +ℤ pos 1) (λ x. blend_at c x y)
            (λ x fb lo hi k. blend_at-Clipped s old c x y fb (inside x lo hi) k) fb k)
    where
      inside : (x : ℤ) → x1 ≤ℤ x → x <ℤ x2 +ℤ pos 1 → dm_rect_contains s.clip x y ≡ true
      inside x lo hi =
          Inside→contains s.clip x y
            (record { left = omega arith; right = omega int_laws; top = ht; bottom = hb })

  pub column_run-Clipped :
      (c : DmColor) (x y1 y2 : ℤ) (fb : DmFramebuffer)
      → s.clip.x ≤ℤ x
      → x <ℤ s.clip.x +ℤ s.clip.w
      → s.clip.y ≤ℤ y1
      → y2 <ℤ s.clip.y +ℤ s.clip.h
      → Clipped s old fb
      → Clipped s old (column_run c x y1 y2 fb)
  unfolding column_run
  column_run-Clipped c x y1 y2 fb hl hr ht hb k =
      on_branches (Clipped s old) (c.a == 255)
        (λ _.
          for_below-keeps (Clipped s old) y1 (y2 +ℤ pos 1)
            (λ y fb. set_pixel fb x y (dm_color_pack c))
            (λ y fb lo hi k. set_pixel-Clipped s old x y (dm_color_pack c) fb (inside y lo hi) k) fb
            k)
        (λ _.
          for_below-keeps (Clipped s old) y1 (y2 +ℤ pos 1) (λ y. blend_at c x y)
            (λ y fb lo hi k. blend_at-Clipped s old c x y fb (inside y lo hi) k) fb k)
    where
      inside : (y : ℤ) → y1 ≤ℤ y → y <ℤ y2 +ℤ pos 1 → dm_rect_contains s.clip x y ≡ true
      inside y lo hi =
          Inside→contains s.clip x y
            (record { left = hl; right = hr; top = omega arith; bottom = omega int_laws })

  hline_sorted-Clipped :
      (fb : DmFramebuffer) (x1 x2 y : ℤ) (c : DmColor)
      → s.clip.y ≤ℤ y
      → y <ℤ s.clip.y +ℤ s.clip.h
      → Clipped s old fb
      → Clipped s old (hline_sorted fb x1 x2 y c)
  unfolding hline_sorted
  hline_sorted-Clipped fb x1 x2 y c ht hb k =
      on_branches (Clipped s old) (ltb_ℤ hi lo) (λ _. k)
        (λ _.
          row_run-Clipped c lo hi y fb (moved fb (λ r. r.x ≤ℤ lo) k low)
            (moved fb (λ r. hi <ℤ r.x +ℤ r.w) k high) ht hb k)
    where
      lo : ℤ
      lo = if ltb_ℤ x1 fb.clip.x then fb.clip.x else x1

      hi : ℤ
      hi = if leb_ℤ (fb.clip.x +ℤ fb.clip.w) x2 then fb.clip.x +ℤ fb.clip.w -ℤ pos 1 else x2

      low : fb.clip.x ≤ℤ lo
      low =
          on_branches (λ v. fb.clip.x ≤ℤ v) (ltb_ℤ x1 fb.clip.x) (λ _. omega arith)
            (λ e. ltb_ℤ→le x1 fb.clip.x e)

      high : hi <ℤ fb.clip.x +ℤ fb.clip.w
      high =
          on_branches (λ v. v <ℤ fb.clip.x +ℤ fb.clip.w) (leb_ℤ (fb.clip.x +ℤ fb.clip.w) x2)
            (λ _. omega int_laws) (λ e. leb_ℤ→lt (fb.clip.x +ℤ fb.clip.w) x2 e)

  vline_sorted-Clipped :
      (fb : DmFramebuffer) (x y1 y2 : ℤ) (c : DmColor)
      → s.clip.x ≤ℤ x
      → x <ℤ s.clip.x +ℤ s.clip.w
      → Clipped s old fb
      → Clipped s old (vline_sorted fb x y1 y2 c)
  unfolding vline_sorted
  vline_sorted-Clipped fb x y1 y2 c hl hr k =
      on_branches (Clipped s old) (ltb_ℤ hi lo) (λ _. k)
        (λ _.
          column_run-Clipped c x lo hi fb hl hr (moved fb (λ r. r.y ≤ℤ lo) k low)
            (moved fb (λ r. hi <ℤ r.y +ℤ r.h) k high) k)
    where
      lo : ℤ
      lo = if ltb_ℤ y1 fb.clip.y then fb.clip.y else y1

      hi : ℤ
      hi = if leb_ℤ (fb.clip.y +ℤ fb.clip.h) y2 then fb.clip.y +ℤ fb.clip.h -ℤ pos 1 else y2

      low : fb.clip.y ≤ℤ lo
      low =
          on_branches (λ v. fb.clip.y ≤ℤ v) (ltb_ℤ y1 fb.clip.y) (λ _. omega arith)
            (λ e. ltb_ℤ→le y1 fb.clip.y e)

      high : hi <ℤ fb.clip.y +ℤ fb.clip.h
      high =
          on_branches (λ v. v <ℤ fb.clip.y +ℤ fb.clip.h) (leb_ℤ (fb.clip.y +ℤ fb.clip.h) y2)
            (λ _. omega int_laws) (λ e. leb_ℤ→lt (fb.clip.y +ℤ fb.clip.h) y2 e)

  pub dm_fb_hline-Clipped :
      (fb : DmFramebuffer) (x1 x2 y : ℤ) (c : DmColor)
      → Clipped s old fb
      → Clipped s old (dm_fb_hline fb x1 x2 y c)
  unfolding dm_fb_hline
  dm_fb_hline-Clipped fb x1 x2 y c k =
      on_branches (Clipped s old) (ltb_ℤ y fb.clip.y || leb_ℤ (fb.clip.y +ℤ fb.clip.h) y) (λ _. k)
        (λ rows.
          let (above, below) =
            neither (ltb_ℤ y fb.clip.y) (leb_ℤ (fb.clip.y +ℤ fb.clip.h) y) rows in
          let ht = moved fb (λ r. r.y ≤ℤ y) k (ltb_ℤ→le y fb.clip.y above) in
          let hb = moved fb (λ r. y <ℤ r.y +ℤ r.h) k (leb_ℤ→lt (fb.clip.y +ℤ fb.clip.h) y below) in
          on_branches (Clipped s old) (ltb_ℤ x2 x1) (λ _. hline_sorted-Clipped fb x2 x1 y c ht hb k)
            (λ _. hline_sorted-Clipped fb x1 x2 y c ht hb k))

  pub dm_fb_vline-Clipped :
      (fb : DmFramebuffer) (x y1 y2 : ℤ) (c : DmColor)
      → Clipped s old fb
      → Clipped s old (dm_fb_vline fb x y1 y2 c)
  unfolding dm_fb_vline
  dm_fb_vline-Clipped fb x y1 y2 c k =
      on_branches (Clipped s old) (ltb_ℤ x fb.clip.x || leb_ℤ (fb.clip.x +ℤ fb.clip.w) x) (λ _. k)
        (λ columns.
          let (before, after) =
            neither (ltb_ℤ x fb.clip.x) (leb_ℤ (fb.clip.x +ℤ fb.clip.w) x) columns in
          let hl = moved fb (λ r. r.x ≤ℤ x) k (ltb_ℤ→le x fb.clip.x before) in
          let hr = moved fb (λ r. x <ℤ r.x +ℤ r.w) k (leb_ℤ→lt (fb.clip.x +ℤ fb.clip.w) x after) in
          on_branches (Clipped s old) (ltb_ℤ y2 y1) (λ _. vline_sorted-Clipped fb x y2 y1 c hl hr k)
            (λ _. vline_sorted-Clipped fb x y1 y2 c hl hr k))

  pub dm_fb_fill_rect-Clipped :
      (fb : DmFramebuffer) (r : DmRect) (c : DmColor)
      → Clipped s old fb
      → Clipped s old (dm_fb_fill_rect fb r c)
  unfolding dm_fb_fill_rect
  dm_fb_fill_rect-Clipped fb r c k =
      let clipped = dm_rect_intersect r fb.clip in
      on_branches (Clipped s old) (leb_ℤ clipped.w (pos 0) || leb_ℤ clipped.h (pos 0)) (λ _. k)
        (λ _.
          for_below-keeps (Clipped s old) clipped.y (clipped.y +ℤ clipped.h)
            (λ y fb. dm_fb_hline fb clipped.x (clipped.x +ℤ clipped.w -ℤ pos 1) y c)
            (λ y fb lo hi. dm_fb_hline-Clipped fb clipped.x (clipped.x +ℤ clipped.w -ℤ pos 1) y c)
            fb k)

  stroke_ring-Clipped :
      (r : DmRect) (c : DmColor) (i : ℤ) (fb : DmFramebuffer)
      → Clipped s old fb
      → Clipped s old (stroke_ring r c i fb)
  unfolding stroke_ring
  stroke_ring-Clipped r c i fb k =
      let right = r.x +ℤ r.w -ℤ pos 1 in
      let bottom = r.y +ℤ r.h -ℤ pos 1 in
      dm_fb_vline-Clipped _ (right -ℤ i) r.y bottom c (
        dm_fb_vline-Clipped _ (r.x +ℤ i) r.y bottom c (
          dm_fb_hline-Clipped _ r.x right (bottom -ℤ i) c
            (dm_fb_hline-Clipped fb r.x right (r.y +ℤ i) c k)))

  pub dm_fb_stroke_rect-Clipped :
      (fb : DmFramebuffer) (r : DmRect) (c : DmColor) (t : ℤ)
      → Clipped s old fb
      → Clipped s old (dm_fb_stroke_rect fb r c t)
  unfolding dm_fb_stroke_rect
  dm_fb_stroke_rect-Clipped fb r c t k =
      for_below-keeps (Clipped s old) (pos 0) t (stroke_ring r c)
        (λ i fb lo hi. stroke_ring-Clipped r c i fb) fb k
