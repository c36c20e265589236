-- ===== src/Framebuffer/Clipping/Triangles.antt =====
-- Filled triangles and the Sierpinski fractal of src/core/framebuffer.c: they end, and draw in the
-- clip.
use de_mo_d.Prelude.{ℕ, zero, suc, if◌then◌else◌, ◌&&◌, on_branches}
use de_mo_d.Prelude.{ℤ, pos, pos_part, ◌+ℤ◌, ◌-ℤ◌, ◌*ℤ◌, ltb_ℤ, eqb_ℤ}
use de_mo_d.Framebuffer.{DmColor, DmFramebuffer, min_ℤ, max_ℤ}
use de_mo_d.Framebuffer.Lines.{◌>>=◌}
use de_mo_d.Framebuffer.Blits.{off_rows, off_columns}
use de_mo_d.Framebuffer.Floats.{Floats}
use de_mo_d.Framebuffer.Triangles.{
  Vertex, at, Vertices, sort_vertices, edge_x, triangle_row, dm_fb_fill_triangle, weights, clamp,
  mixed_color, gradient_pixel, dm_fb_fill_triangle_gradient, middle, sierpinski_recurse,
  dm_fb_sierpinski, glow_pass, glow_passes, dm_fb_sierpinski_glow,
}
use de_mo_d.Framebuffer.Clipping.Rows.{dm_fb_hline-Clipped}
use de_mo_d.Framebuffer.Clipping.{Shape, Clipped, dm_fb_put_pixel-Clipped}
use de_mo_d.Framebuffer.Clipping.Lines.{Drawn, Drawn-some, Drawn-bind, dm_fb_stroke_triangle-Drawn}
use de_mo_d.Framebuffer.Clipping.Rounded.{loop-Clipped}

module _ (F : Floats) (s : Shape) (old : DmFramebuffer) where
  open F use {Float, of_int, minus, fabs, less, at_most, literal}

  triangle_row-Clipped :
      (v : Vertices) (c : DmColor) (y : ℤ) (fb : DmFramebuffer)
      → Clipped s old fb
      → Clipped s old (triangle_row F v c y fb)
  unfolding triangle_row
  triangle_row-Clipped v c y fb k =
      let xa = edge_x F v.v0 v.v2 y in
      let upper = if eqb_ℤ v.v1.y v.v0.y then v.v0.x else edge_x F v.v0 v.v1 y in
      let lower = if eqb_ℤ v.v2.y v.v1.y then v.v1.x else edge_x F v.v1 v.v2 y in
      let xb = if ltb_ℤ y v.v1.y then upper else lower in
      on_branches (Clipped s old) (ltb_ℤ xb xa) (λ _. dm_fb_hline-Clipped s old fb xb xa y c k)
        (λ _. dm_fb_hline-Clipped s old fb xa xb y c k)

  pub dm_fb_fill_triangle-Clipped :
      (fb : DmFramebuffer) (x0 y0 x1 y1 x2 y2 : ℤ) (c : DmColor)
      → Clipped s old fb
      → Clipped s old (dm_fb_fill_triangle F fb x0 y0 x1 y1 x2 y2 c)
  unfolding dm_fb_fill_triangle
  dm_fb_fill_triangle-Clipped fb x0 y0 x1 y1 x2 y2 c k =
      let v = sort_vertices (record { v0 = at x0 y0; v1 = at x1 y1; v2 = at x2 y2 }) in
      on_branches (Clipped s old) (eqb_ℤ v.v0.y v.v2.y) (λ _. k)
        (λ _.
          loop-Clipped F s old v.v0.y (v.v2.y +ℤ pos 1) (triangle_row F v c)
            (triangle_row-Clipped v c) fb k)

  gradient_pixel-Clipped :
      (v : Vertices) (denom : Float) (c0 c1 c2 : DmColor) (y x : ℤ) (fb : DmFramebuffer)
      → Clipped s old fb
      → Clipped s old (gradient_pixel F v denom c0 c1 c2 y x fb)
  unfolding gradient_pixel
  gradient_pixel-Clipped v denom c0 c1 c2 y x fb k =
      let w = weights F v denom x y in
      let near = minus (literal 1 2) in
      let c =
        mixed_color F c0 c1 c2
          (record { w0 = clamp F w.w0; w1 = clamp F w.w1; w2 = clamp F w.w2 }) in
      on_branches (Clipped s old) (off_columns fb.clip x) (λ _. k)
        (λ _.
          on_branches (Clipped s old) (at_most near w.w0 && at_most near w.w1 && at_most near w.w2)
            (λ _. dm_fb_put_pixel-Clipped s old fb x y c k) (λ _. k))

  pub dm_fb_fill_triangle_gradient-Clipped :
      (fb : DmFramebuffer) (v : Vertices) (c0 c1 c2 : DmColor)
      → Clipped s old fb
      → Clipped s old (dm_fb_fill_triangle_gradient F fb v c0 c1 c2)
  unfolding dm_fb_fill_triangle_gradient
  dm_fb_fill_triangle_gradient-Clipped fb v c0 c1 c2 k =
      let min_y = min_ℤ (min_ℤ v.v0.y v.v1.y) v.v2.y in
      let max_y = max_ℤ (max_ℤ v.v0.y v.v1.y) v.v2.y in
      let min_x = min_ℤ (min_ℤ v.v0.x v.v1.x) v.v2.x in
      let max_x = max_ℤ (max_ℤ v.v0.x v.v1.x) v.v2.x in
      let denom =
        of_int
          ((v.v1.y -ℤ v.v2.y) *ℤ (v.v0.x -ℤ v.v2.x) +ℤ (v.v2.x -ℤ v.v1.x) *ℤ (v.v0.y -ℤ v.v2.y)) in
      on_branches (Clipped s old) (less (fabs denom) (literal 1 3)) (λ _. k)
        (λ _.
          loop-Clipped F s old min_y (max_y +ℤ pos 1) _
            (λ y fb k.
              on_branches (Clipped s old) (off_rows fb.clip y) (λ _. k)
                (λ _.
                  loop-Clipped F s old min_x (max_x +ℤ pos 1) (gradient_pixel F v denom c0 c1 c2 y)
                    (gradient_pixel-Clipped v denom c0 c1 c2 y) fb k))
            fb k)

  sierpinski_recurse-Drawn :
      (depth : ℕ) (a b c : Vertex) (fill stroke : DmColor) (fb : DmFramebuffer)
      → Clipped s old fb
      → Drawn s old (sierpinski_recurse F depth a b c fill stroke fb)
  unfolding sierpinski_recurse
  sierpinski_recurse-Drawn zero a b c fill stroke fb k =
      dm_fb_stroke_triangle-Drawn s old (dm_fb_fill_triangle F fb a.x a.y b.x b.y c.x c.y fill) a.x
        a.y b.x b.y c.x c.y stroke (dm_fb_fill_triangle-Clipped fb a.x a.y b.x b.y c.x c.y fill k)
  sierpinski_recurse-Drawn (suc depth) a b c fill stroke fb k =
      let ab = middle F a b in
      let bc = middle F b c in
      let ca = middle F c a in
      Drawn-bind s old
        (sierpinski_recurse F depth a ab ca fill stroke fb
          >>= sierpinski_recurse F depth ab b bc fill stroke)
        (sierpinski_recurse F depth ca bc c fill stroke)
        (Drawn-bind s old (sierpinski_recurse F depth a ab ca fill stroke fb)
          (sierpinski_recurse F depth ab b bc fill stroke)
          (sierpinski_recurse-Drawn depth a ab ca fill stroke fb k)
          (sierpinski_recurse-Drawn depth ab b bc fill stroke))
        (sierpinski_recurse-Drawn depth ca bc c fill stroke)

  pub dm_fb_sierpinski-Drawn :
      (fb : DmFramebuffer) (a b c : Vertex) (depth : ℤ) (fill stroke : DmColor)
      → Clipped s old fb
      → Drawn s old (dm_fb_sierpinski F fb a b c depth fill stroke)
  unfolding dm_fb_sierpinski
  dm_fb_sierpinski-Drawn fb a b c depth fill stroke =
      sierpinski_recurse-Drawn (pos_part (if ltb_ℤ (pos 8) depth then pos 8 else depth)) a b c fill
        stroke fb

  glow_passes-Drawn :
      (g : ℕ) (a b c : Vertex) (glow : DmColor) (radius : ℤ) (fb : DmFramebuffer)
      → Clipped s old fb
      → Drawn s old (glow_passes F g a b c glow radius fb)
  unfolding glow_passes glow_pass
  glow_passes-Drawn zero a b c glow radius fb k = Drawn-some s old fb k
  glow_passes-Drawn (suc g) a b c glow radius fb k =
      Drawn-bind s old (glow_pass F a b c glow radius (pos (suc g)) fb)
        (glow_passes F g a b c glow radius) (dm_fb_stroke_triangle-Drawn s old fb _ _ _ _ _ _ _ k)
        (glow_passes-Drawn g a b c glow radius)

  pub dm_fb_sierpinski_glow-Drawn :
      (fb : DmFramebuffer) (a b c : Vertex) (depth : ℤ) (fill stroke glow : DmColor)
      (glow_radius : ℤ)
      → Clipped s old fb
      → Drawn s old (dm_fb_sierpinski_glow F fb a b c depth fill stroke glow glow_radius)
  unfolding dm_fb_sierpinski_glow
  dm_fb_sierpinski_glow-Drawn fb a b c depth fill stroke glow glow_radius k =
      Drawn-bind s old (glow_passes F (pos_part glow_radius) a b c glow glow_radius fb)
        (λ fb'. dm_fb_sierpinski F fb' a b c depth fill stroke)
        (glow_passes-Drawn (pos_part glow_radius) a b c glow glow_radius fb k)
        (λ fb'. dm_fb_sierpinski-Drawn fb' a b c depth fill stroke)
