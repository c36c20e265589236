-- ===== src/Framebuffer/Curves.antt =====
-- Thick lines, arrows and Bézier curves of src/core/framebuffer.c.
use de_mo_d.Prelude.{if◌then◌else◌, Option, some}
use de_mo_d.Prelude.{ℤ, pos, ◌+ℤ◌, ◌-ℤ◌, leb_ℤ, tdiv}
use de_mo_d.Framebuffer.{DmColor, DmFramebuffer, for_to, rounds_up}
use de_mo_d.Framebuffer.Lines.{◌>>=◌, dm_fb_line}
use de_mo_d.Framebuffer.Triangles.{Vertex, at, dm_fb_fill_triangle}
use de_mo_d.Framebuffer.Floats.{Floats}

module _ (F : Floats) where
  open F use {Float, of_int, to_int, add, sub, mul, div, minus, root, less, literal}

  -- A point, or a direction.
  pub record Point : Type 0 where
    pub x : Float
    pub y : Float

  unfoldable pub length_of : Point → Float
  length_of d = root (add (mul d.x d.x) (mul d.y d.y))

  -- A line moved by `i` steps across its direction.
  unfoldable pub offset_line :
      Vertex → Vertex → Point → DmColor → ℤ → DmFramebuffer → Option DmFramebuffer
  unfolding dm_fb_line
  offset_line p q n c i fb =
      let ox = to_int (mul n.x (of_int i)) in
      let oy = to_int (mul n.y (of_int i)) in
      dm_fb_line fb (p.x +ℤ ox) (p.y +ℤ oy) (q.x +ℤ ox) (q.y +ℤ oy) c

  unfoldable pub dm_fb_thick_line :
      DmFramebuffer → Vertex → Vertex → ℤ → DmColor → Option DmFramebuffer
  unfolding dm_fb_line length_of offset_line rounds_up
  dm_fb_thick_line fb p q thickness c =
      let d : Point = record { x = of_int (q.x -ℤ p.x); y = of_int (q.y -ℤ p.y) } in
      let len = length_of d in
      let n : Point = record { x = div (minus d.y) len; y = div d.x len } in
      let half = tdiv thickness 2 in
      if leb_ℤ thickness (pos 1)
      then dm_fb_line fb p.x p.y q.x q.y c
      else if less len (literal 1 3)
      then some fb
      else for_to (pos 0 -ℤ half) half (λ i drawn. drawn >>= offset_line p q n c i) (some fb)

  -- The head at `q` of an arrow whose direction `d` has the length 1.
  unfoldable pub arrow_head : Vertex → Point → ℤ → DmColor → DmFramebuffer → DmFramebuffer
  unfolding dm_fb_fill_triangle
  arrow_head q d head_size c fb =
      let size = of_int head_size in
      let hx = sub (of_int q.x) (mul d.x size) in
      let hy = sub (of_int q.y) (mul d.y size) in
      let across_x = mul (mul (minus d.y) size) (literal 5 1) in
      let across_y = mul (mul d.x size) (literal 5 1) in
      dm_fb_fill_triangle F fb q.x q.y (to_int (add hx across_x)) (to_int (add hy across_y))
        (to_int (sub hx across_x)) (to_int (sub hy across_y)) c

  unfoldable pub dm_fb_arrow :
      DmFramebuffer → Vertex → Vertex → ℤ → ℤ → DmColor → Option DmFramebuffer
  unfolding dm_fb_thick_line length_of arrow_head
  dm_fb_arrow fb p q head_size thickness c = do
    let d : Point = record { x = of_int (q.x -ℤ p.x); y = of_int (q.y -ℤ p.y) }
    let len = length_of d
    shaft ← dm_fb_thick_line fb p q thickness c
    some (
        if less len (literal 1 3)
        then shaft
        else arrow_head q (record { x = div d.x len; y = div d.y len }) head_size c shaft)

  -- The ends and the control points of a curve.
  pub record Curve : Type 0 where
    pub p0 : Vertex
    pub c0 : Vertex
    pub c1 : Vertex
    pub p1 : Vertex

  -- One coordinate of the curve at `t`.
  unfoldable pub bezier_at : Float → ℤ → ℤ → ℤ → ℤ → Float
  bezier_at t a0 b0 b1 a1 =
      let it = sub (literal 10 1) t in
      let it2 = mul it it in
      let it3 = mul it2 it in
      let t2 = mul t t in
      let t3 = mul t2 t in
      let three = of_int (pos 3) in
      add
        (add (add (mul it3 (of_int a0)) (mul (mul (mul three it2) t) (of_int b0)))
          (mul (mul (mul three it) t2) (of_int b1)))
        (mul t3 (of_int a1))

  unfoldable pub curve_point : Curve → ℤ → ℤ → Point
  unfolding bezier_at
  curve_point k segments i =
      let t = div (of_int i) (of_int segments) in
      record {
        x = bezier_at t k.p0.x k.c0.x k.c1.x k.p1.x;
        y = bezier_at t k.p0.y k.c0.y k.c1.y k.p1.y;
      }

  -- Where a curve stands: the last point, the last direction and the framebuffer.
  pub record Trace : Type 0 where
    pub last : Point
    pub heading : Point
    pub frame : DmFramebuffer

  -- `(int)px` and `(int)py`
  pub cut : Point → Vertex
  cut p = at (to_int p.x) (to_int p.y)

  pub next_trace : Trace → Point → DmFramebuffer → Trace
  next_trace s n fb = record {
    last = n;
    heading = record { x = sub n.x s.last.x; y = sub n.y s.last.y };
    frame = fb;
  }

  -- A segment, drawn by `draw`.
  unfoldable pub segment :
      (DmFramebuffer → Vertex → Vertex → Option DmFramebuffer)
      → Curve
      → ℤ
      → ℤ
      → Trace
      → Option Trace
  unfolding curve_point cut next_trace
  segment draw k segments i s = do
    let n = curve_point k segments i
    fb ← draw s.frame (cut s.last) (cut n)
    some (next_trace s n fb)

  unfoldable pub curve_loop :
      (DmFramebuffer → Vertex → Vertex → Option DmFramebuffer)
      → Curve
      → ℤ
      → DmFramebuffer
      → Option Trace
  unfolding segment rounds_up
  curve_loop draw k segments fb =
      let start : Trace = record {
        last = record { x = of_int k.p0.x; y = of_int k.p0.y };
        heading = record { x = of_int (pos 0); y = of_int (pos 0) };
        frame = fb;
      } in
      for_to (pos 1) segments (λ i s. s >>= segment draw k segments i) (some start)

  unfoldable pub dm_fb_bezier : DmFramebuffer → Curve → ℤ → DmColor → Option DmFramebuffer
  unfolding dm_fb_line curve_loop
  dm_fb_bezier fb k segments c = do
    s ← curve_loop (λ fb p q. dm_fb_line fb p.x p.y q.x q.y c) k segments fb
    some s.frame

  unfoldable pub dm_fb_arrow_bezier :
      DmFramebuffer → Curve → ℤ → ℤ → ℤ → DmColor → Option DmFramebuffer
  unfolding dm_fb_thick_line curve_loop length_of arrow_head
  dm_fb_arrow_bezier fb k segments head_size thickness c = do
    s ← curve_loop (λ fb p q. dm_fb_thick_line fb p q thickness c) k segments fb
    let len = length_of s.heading
    some (
        if less (literal 1 3) len
        then arrow_head k.p1 (record { x = div s.heading.x len; y = div s.heading.y len }) head_size
            c s.frame
        else s.frame)
