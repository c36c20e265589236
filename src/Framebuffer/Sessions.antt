-- ===== src/Framebuffer/Sessions.antt =====
-- What a client does with a framebuffer of src/core/framebuffer.c: drawings, which the clip bounds, and
-- the commands that change the clip or clear the frame.
use mathlib.Core.List.{List, [], ◌∷◌}
use de_mo_d.Prelude.{ℕ, ℤ, Option, some}
use de_mo_d.Framebuffer.{
  DmColor, DmRect, DmFramebuffer, dm_fb_clear, dm_fb_clip_push, dm_fb_clip_reset, dm_fb_put_pixel,
  dm_fb_hline, dm_fb_vline, dm_fb_fill_rect, dm_fb_stroke_rect,
}
use de_mo_d.Framebuffer.Lines.{◌>>=◌, dm_fb_line, dm_fb_stroke_circle, dm_fb_stroke_triangle}
use de_mo_d.Framebuffer.Rounded.{
  dm_fb_fill_rounded_rect, dm_fb_stroke_rounded_rect, dm_fb_fill_circle, dm_fb_fill_rect_gradient_v,
  dm_fb_fill_rect_gradient_h,
}
use de_mo_d.Framebuffer.Blits.{dm_fb_blit, dm_fb_blit_rect, dm_fb_blit_alpha}
use de_mo_d.Framebuffer.Scaled.{DmFitMode, dm_fb_blit_scaled, dm_fb_warp_barrel}
use de_mo_d.Framebuffer.Triangles.{
  Vertex, Vertices, dm_fb_fill_triangle, dm_fb_fill_triangle_gradient, dm_fb_sierpinski,
  dm_fb_sierpinski_glow,
}
use de_mo_d.Framebuffer.Curves.{
  Curve, dm_fb_thick_line, dm_fb_arrow, dm_fb_bezier, dm_fb_arrow_bezier,
}
use de_mo_d.Framebuffer.Floats.{Floats}

module _ (F : Floats) where
  open F use {Float}

  -- A drawing with its arguments, named for its function.
  pub data Drawing : Type 0 where
    put_pixel : (x y : ℤ) (c : DmColor) → Drawing
    hline : (x1 x2 y : ℤ) (c : DmColor) → Drawing
    vline : (x y1 y2 : ℤ) (c : DmColor) → Drawing
    line : (x0 y0 x1 y1 : ℤ) (c : DmColor) → Drawing
    fill_rect : (r : DmRect) (c : DmColor) → Drawing
    stroke_rect : (r : DmRect) (c : DmColor) (t : ℤ) → Drawing
    fill_rounded_rect : (r : DmRect) (radius : ℤ) (c : DmColor) → Drawing
    stroke_rounded_rect : (r : DmRect) (radius : ℤ) (c : DmColor) (t : ℤ) → Drawing
    fill_circle : (cx cy radius : ℤ) (c : DmColor) → Drawing
    stroke_circle : (cx cy radius : ℤ) (c : DmColor) → Drawing
    fill_rect_gradient_v : (r : DmRect) (top bottom : DmColor) → Drawing
    fill_rect_gradient_h : (r : DmRect) (left right : DmColor) → Drawing
    blit : (src : DmFramebuffer) (dx dy : ℤ) → Drawing
    blit_rect : (src : DmFramebuffer) (sr : DmRect) (dx dy : ℤ) → Drawing
    blit_alpha : (src : DmFramebuffer) (dx dy : ℤ) (alpha : ℕ) → Drawing
    blit_scaled : (src : DmFramebuffer) (dr : DmRect) (fit : DmFitMode) (alpha : ℕ) → Drawing
    warp_barrel : (src : DmFramebuffer) (dr : DmRect) (k1 k2 : Float) (alpha : ℕ) → Drawing
    fill_triangle : (x0 y0 x1 y1 x2 y2 : ℤ) (c : DmColor) → Drawing
    stroke_triangle : (x0 y0 x1 y1 x2 y2 : ℤ) (c : DmColor) → Drawing
    fill_triangle_gradient : (v : Vertices) (c0 c1 c2 : DmColor) → Drawing
    sierpinski : (v0 v1 v2 : Vertex) (depth : ℤ) (fill stroke : DmColor) → Drawing
    sierpinski_glow :
        (v0 v1 v2 : Vertex) (depth : ℤ) (fill stroke glow : DmColor) (radius : ℤ) → Drawing
    thick_line : (p q : Vertex) (thickness : ℤ) (c : DmColor) → Drawing
    arrow : (p q : Vertex) (head_size thickness : ℤ) (c : DmColor) → Drawing
    bezier : (k : Curve F) (segments : ℤ) (c : DmColor) → Drawing
    arrow_bezier : (k : Curve F) (segments head_size thickness : ℤ) (c : DmColor) → Drawing

  -- Drawings that cannot run out of rounds give a framebuffer at once.
  unfoldable pub draw : Drawing → DmFramebuffer → Option DmFramebuffer
  unfolding dm_fb_put_pixel dm_fb_hline dm_fb_vline dm_fb_line dm_fb_fill_rect dm_fb_stroke_rect
      dm_fb_fill_rounded_rect dm_fb_stroke_rounded_rect dm_fb_fill_circle dm_fb_stroke_circle
      dm_fb_fill_rect_gradient_v dm_fb_fill_rect_gradient_h dm_fb_blit dm_fb_blit_rect
      dm_fb_blit_alpha dm_fb_blit_scaled dm_fb_warp_barrel dm_fb_fill_triangle dm_fb_stroke_triangle
      dm_fb_fill_triangle_gradient dm_fb_sierpinski dm_fb_sierpinski_glow dm_fb_thick_line
      dm_fb_arrow dm_fb_bezier dm_fb_arrow_bezier
  draw (put_pixel x y c) fb = some (dm_fb_put_pixel fb x y c)
  draw (hline x1 x2 y c) fb = some (dm_fb_hline fb x1 x2 y c)
  draw (vline x y1 y2 c) fb = some (dm_fb_vline fb x y1 y2 c)
  draw (line x0 y0 x1 y1 c) fb = dm_fb_line fb x0 y0 x1 y1 c
  draw (fill_rect r c) fb = some (dm_fb_fill_rect fb r c)
  draw (stroke_rect r c t) fb = some (dm_fb_stroke_rect fb r c t)
  draw (fill_rounded_rect r radius c) fb = some (dm_fb_fill_rounded_rect F fb r radius c)
  draw (stroke_rounded_rect r radius c t) fb = some (dm_fb_stroke_rounded_rect F fb r radius c t)
  draw (fill_circle cx cy radius c) fb = some (dm_fb_fill_circle F fb cx cy radius c)
  draw (stroke_circle cx cy radius c) fb = dm_fb_stroke_circle fb cx cy radius c
  draw (fill_rect_gradient_v r top bottom) fb = some (dm_fb_fill_rect_gradient_v F fb r top bottom)
  draw (fill_rect_gradient_h r left right) fb = some (dm_fb_fill_rect_gradient_h F fb r left right)
  draw (blit src dx dy) fb = some (dm_fb_blit fb src dx dy)
  draw (blit_rect src sr dx dy) fb = some (dm_fb_blit_rect fb src sr dx dy)
  draw (blit_alpha src dx dy alpha) fb = some (dm_fb_blit_alpha fb src dx dy alpha)
  draw (blit_scaled src dr fit alpha) fb = some (dm_fb_blit_scaled F fb src dr fit alpha)
  draw (warp_barrel src dr k1 k2 alpha) fb = some (dm_fb_warp_barrel F fb src dr k1 k2 alpha)
  draw (fill_triangle x0 y0 x1 y1 x2 y2 c) fb = some (dm_fb_fill_triangle F fb x0 y0 x1 y1 x2 y2 c)
  draw (stroke_triangle x0 y0 x1 y1 x2 y2 c) fb = dm_fb_stroke_triangle fb x0 y0 x1 y1 x2 y2 c
  draw (fill_triangle_gradient v c0 c1 c2) fb = some (dm_fb_fill_triangle_gradient F fb v c0 c1 c2)
  draw (sierpinski v0 v1 v2 depth fill stroke) fb = dm_fb_sierpinski F fb v0 v1 v2 depth fill stroke
  draw (sierpinski_glow v0 v1 v2 depth fill stroke glow radius) fb =
      dm_fb_sierpinski_glow F fb v0 v1 v2 depth fill stroke glow radius
  draw (thick_line p q thickness c) fb = dm_fb_thick_line F fb p q thickness c
  draw (arrow p q head_size thickness c) fb = dm_fb_arrow F fb p q head_size thickness c
  draw (bezier k segments c) fb = dm_fb_bezier F fb k segments c
  draw (arrow_bezier k segments head_size thickness c) fb =
      dm_fb_arrow_bezier F fb k segments head_size thickness c

  pub data Command : Type 0 where
    drawing : Drawing → Command
    clear : DmColor → Command
    clip_push : DmRect → Command
    clip_reset : Command

  unfoldable pub step : Command → DmFramebuffer → Option DmFramebuffer
  unfolding draw dm_fb_clear dm_fb_clip_push dm_fb_clip_reset
  step (drawing d) fb = draw d fb
  step (clear c) fb = some (dm_fb_clear fb c)
  step (clip_push r) fb = some (dm_fb_clip_push fb r)
  step clip_reset fb = some (dm_fb_clip_reset fb)

  unfoldable pub run : List Command → DmFramebuffer → Option DmFramebuffer
  unfolding step
  run [] fb = some fb
  run (c ∷ cs) fb = step c fb >>= run cs
