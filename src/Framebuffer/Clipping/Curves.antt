-- ===== src/Framebuffer/Clipping/Curves.antt =====
-- Thick lines, arrows and Bézier curves of src/core/framebuffer.c: they end, and draw in the clip.
use mathlib.Core.Path.{subst}
use de_mo_d.Prelude.{if◌then◌else◌, ◌≡◌, refl, sym, ap, on_branches, Option, some}
use de_mo_d.Prelude.{ℤ, pos, ◌+ℤ◌, ◌-ℤ◌, leb_ℤ, tdiv}
use de_mo_d.Framebuffer.{DmColor, DmFramebuffer}
use de_mo_d.Framebuffer.Lines.{◌>>=◌, dm_fb_line}
use de_mo_d.Framebuffer.Floats.{Floats}
use de_mo_d.Framebuffer.Triangles.{Vertex}
use de_mo_d.Framebuffer.Curves.{
  Point, length_of, offset_line, dm_fb_thick_line, arrow_head, dm_fb_arrow, Curve, curve_point,
  Trace, cut, next_trace, segment, curve_loop, dm_fb_bezier, dm_fb_arrow_bezier,
}
use de_mo_d.Framebuffer.Loops.{for_below-keeps}
use de_mo_d.Framebuffer.Clipping.{Shape, Clipped}
use de_mo_d.Framebuffer.Clipping.Lines.{Drawn, Drawn-some, Drawn-bind, dm_fb_line-Drawn}
use de_mo_d.Framebuffer.Clipping.Triangles.{dm_fb_fill_triangle-Clipped}

module _ (F : Floats) (s : Shape) (old : DmFramebuffer) where
  open F use {Float, of_int, to_int, add, sub, mul, minus, div, less, literal}

  pub dm_fb_thick_line-Drawn :
      (fb : DmFramebuffer) (p q : Vertex) (thickness : ℤ) (c : DmColor)
      → Clipped s old fb
      → Drawn s old (dm_fb_thick_line F fb p q thickness c)
  unfolding dm_fb_thick_line offset_line
  dm_fb_thick_line-Drawn fb p q thickness c k =
      let d : Point F = record { x = of_int (q.x -ℤ p.x); y = of_int (q.y -ℤ p.y) } in
      let len = length_of F d in
      let n : Point F = record { x = div (minus d.y) len; y = div d.x len } in
      let half = tdiv thickness 2 in
      on_branches (Drawn s old) (leb_ℤ thickness (pos 1))
        (λ _. dm_fb_line-Drawn s old fb p.x p.y q.x q.y c k)
        (λ _.
          on_branches (Drawn s old) (less len (literal 1 3)) (λ _. Drawn-some s old fb k)
            (λ _.
              for_below-keeps (Drawn s old) (pos 0 -ℤ half) (half +ℤ pos 1)
                (λ i drawn. drawn >>= offset_line F p q n c i)
                (λ i drawn lo hi k.
                  Drawn-bind s old drawn (offset_line F p q n c i) k
                    (λ fb. dm_fb_line-Drawn s old fb _ _ _ _ c))
                (some fb) (Drawn-some s old fb k)))

  arrow_head-Clipped :
      (q : Vertex) (d : Point F) (head_size : ℤ) (c : DmColor) (fb : DmFramebuffer)
      → Clipped s old fb
      → Clipped s old (arrow_head F q d head_size c fb)
  unfolding arrow_head
  arrow_head-Clipped q d head_size c fb =
      let size = of_int head_size in
      let hx = sub (of_int q.x) (mul d.x size) in
      let hy = sub (of_int q.y) (mul d.y size) in
      let across_x = mul (mul (minus d.y) size) (literal 5 1) in
      let across_y = mul (mul d.x size) (literal 5 1) in
      dm_fb_fill_triangle-Clipped F s old fb q.x q.y (to_int (add hx across_x))
        (to_int (add hy across_y)) (to_int (sub hx across_x)) (to_int (sub hy across_y)) c

  pub dm_fb_arrow-Drawn :
      (fb : DmFramebuffer) (p q : Vertex) (head_size thickness : ℤ) (c : DmColor)
      → Clipped s old fb
      → Drawn s old (dm_fb_arrow F fb p q head_size thickness c)
  unfolding dm_fb_arrow
  dm_fb_arrow-Drawn fb p q head_size thickness c k =
      let d : Point F = record { x = of_int (q.x -ℤ p.x); y = of_int (q.y -ℤ p.y) } in
      let len = length_of F d in
      let u : Point F = record { x = div d.x len; y = div d.y len } in
      Drawn-bind s old (dm_fb_thick_line F fb p q thickness c) _
        (dm_fb_thick_line-Drawn fb p q thickness c k)
        (λ shaft k.
          Drawn-some s old
            (if less len (literal 1 3) then shaft else arrow_head F q u head_size c shaft)
            (on_branches (Clipped s old) (less len (literal 1 3)) (λ _. k)
              (λ _. arrow_head-Clipped q u head_size c shaft k)))

  -- A curve up to some segment, in the clip.
  Traced : Option (Trace F) → Type 0
  Traced r = (t : Trace F) × (r ≡ some t) × Clipped s old t.frame

  curve_loop-Traced :
      (draw : DmFramebuffer → Vertex → Vertex → Option DmFramebuffer)
      → ((fb : DmFramebuffer) (p q : Vertex) → Clipped s old fb → Drawn s old (draw fb p q))
      → (k : Curve F) (segments : ℤ) (fb : DmFramebuffer) → Clipped s old fb
      → Traced (curve_loop F draw k segments fb)
  unfolding curve_loop Traced
  curve_loop-Traced draw draws k segments fb c =
      for_below-keeps Traced (pos 1) (segments +ℤ pos 1) (λ i r. r >>= segment F draw k segments i)
        (λ i r lo hi (t, e, c).
          subst (λ r. Traced (r >>= segment F draw k segments i)) (sym e) (one_more t i c))
        _ (_, refl, c)
    where
      one_more :
          (t : Trace F) (i : ℤ) → Clipped s old t.frame → Traced (segment F draw k segments i t)
      one_more t i c =
          unfold segment Traced Drawn in
          let n = curve_point F k segments i in
          let (fb, e, c') = draws t.frame (cut F t.last) (cut F n) c in
          (next_trace F t n fb, ap (λ r. r >>= λ fb. some (next_trace F t n fb)) e, c')

  pub dm_fb_bezier-Drawn :
      (fb : DmFramebuffer) (k : Curve F) (segments : ℤ) (c : DmColor)
      → Clipped s old fb
      → Drawn s old (dm_fb_bezier F fb k segments c)
  unfolding dm_fb_bezier Drawn Traced
  dm_fb_bezier-Drawn fb k segments c h =
      let (t, e, h') =
        curve_loop-Traced (λ fb p q. dm_fb_line fb p.x p.y q.x q.y c)
          (λ fb p q. dm_fb_line-Drawn s old fb p.x p.y q.x q.y c) k segments fb h in
      (t.frame, ap (λ r. r >>= λ t. some t.frame) e, h')

  pub dm_fb_arrow_bezier-Drawn :
      (fb : DmFramebuffer) (k : Curve F) (segments head_size thickness : ℤ) (c : DmColor)
      → Clipped s old fb
      → Drawn s old (dm_fb_arrow_bezier F fb k segments head_size thickness c)
  unfolding dm_fb_arrow_bezier Drawn Traced
  dm_fb_arrow_bezier-Drawn fb k segments head_size thickness c h =
      let (t, e, h') =
        curve_loop-Traced (λ fb p q. dm_fb_thick_line F fb p q thickness c)
          (λ fb p q. dm_fb_thick_line-Drawn fb p q thickness c) k segments fb h in
      subst (λ r. Drawn s old (r >>= headed)) (sym e)
        (Drawn-some s old (tipped t) (
          on_branches (Clipped s old) (less (literal 1 3) (length_of F t.heading))
            (λ _. arrow_head-Clipped k.p1 (unit t) head_size c t.frame h') (λ _. h')))
    where
      unit : Trace F → Point F
      unit t = record {
        x = div t.heading.x (length_of F t.heading);
        y = div t.heading.y (length_of F t.heading);
      }

      tipped : Trace F → DmFramebuffer
      tipped t =
          if less (literal 1 3) (length_of F t.heading)
          then arrow_head F k.p1 (unit t) head_size c t.frame
          else t.frame

      headed : Trace F → Option DmFramebuffer
      headed t = some (tipped t)
