-- ===== src/Framebuffer/Triangles.antt =====
-- Filled triangles and the Sierpinski fractal of src/core/framebuffer.c.
use de_mo_d.Prelude.{ℕ, zero, suc, if◌then◌else◌, ◌&&◌, Option, some}
use de_mo_d.Prelude.{ℤ, pos, pos_part, ◌+ℤ◌, ◌-ℤ◌, ◌*ℤ◌, ltb_ℤ, eqb_ℤ, tdiv}
use de_mo_d.Framebuffer.{
  DmColor, DmFramebuffer, for_to, rounds_up, min_ℤ, max_ℤ, dm_fb_hline, dm_fb_put_pixel,
}
use de_mo_d.Framebuffer.Lines.{◌>>=◌, dm_fb_stroke_triangle}
use de_mo_d.Framebuffer.Blits.{off_rows, off_columns}
use de_mo_d.Framebuffer.Floats.{Floats}

-- A vertex.
pub record Vertex : Type 0 where
  pub x : ℤ
  pub y : ℤ

abbrev pub at : ℤ → ℤ → Vertex
at x y = record { x = x; y = y }

-- `vx` and `vy`
pub record Vertices : Type 0 where
  pub v0 : Vertex
  pub v1 : Vertex
  pub v2 : Vertex

-- The rounds (0, 1), (0, 2) and (1, 2) of the loops that sort by `y`.
abbrev swap_01 : Vertices → Vertices
swap_01 v = if ltb_ℤ v.v1.y v.v0.y then record { v0 = v.v1; v1 = v.v0; v2 = v.v2 } else v

abbrev swap_02 : Vertices → Vertices
swap_02 v = if ltb_ℤ v.v2.y v.v0.y then record { v0 = v.v2; v1 = v.v1; v2 = v.v0 } else v

abbrev swap_12 : Vertices → Vertices
swap_12 v = if ltb_ℤ v.v2.y v.v1.y then record { v0 = v.v0; v1 = v.v2; v2 = v.v1 } else v

unfoldable pub sort_vertices : Vertices → Vertices
sort_vertices v = swap_12 (swap_02 (swap_01 v))

module _ (F : Floats) where
  open F use {
    Float, of_int, to_int, to_byte, add, sub, mul, div, minus, fabs, less, at_most, literal,
  }

  -- `a.x + (int)(t * (b.x - a.x))` for the part `t` of the way in `y`.
  unfoldable pub edge_x : Vertex → Vertex → ℤ → ℤ
  edge_x a b y =
      a.x +ℤ to_int (mul (div (of_int (y -ℤ a.y)) (of_int (b.y -ℤ a.y))) (of_int (b.x -ℤ a.x)))

  -- A scanline.
  unfoldable pub triangle_row : Vertices → DmColor → ℤ → DmFramebuffer → DmFramebuffer
  unfolding edge_x dm_fb_hline
  triangle_row v c y fb =
      let xa = edge_x v.v0 v.v2 y in
      let upper = if eqb_ℤ v.v1.y v.v0.y then v.v0.x else edge_x v.v0 v.v1 y in
      let lower = if eqb_ℤ v.v2.y v.v1.y then v.v1.x else edge_x v.v1 v.v2 y in
      let xb = if ltb_ℤ y v.v1.y then upper else lower in
      if ltb_ℤ xb xa then dm_fb_hline fb xb xa y c else dm_fb_hline fb xa xb y c

  unfoldable pub dm_fb_fill_triangle :
      DmFramebuffer → ℤ → ℤ → ℤ → ℤ → ℤ → ℤ → DmColor → DmFramebuffer
  unfolding sort_vertices triangle_row rounds_up
  dm_fb_fill_triangle fb x0 y0 x1 y1 x2 y2 c =
      let v = sort_vertices (record { v0 = at x0 y0; v1 = at x1 y1; v2 = at x2 y2 }) in
      if eqb_ℤ v.v0.y v.v2.y then fb else for_to v.v0.y v.v2.y (triangle_row v c) fb

  -- The weights of the three corners.
  pub record Weights : Type 0 where
    pub w0 : Float
    pub w1 : Float
    pub w2 : Float

  -- `if (w < 0) w = 0`
  pub clamp : Float → Float
  clamp w = if less w (of_int (pos 0)) then of_int (pos 0) else w

  channel : ℕ → ℕ → ℕ → Weights → ℕ
  channel a b c w = to_byte (
      add (add (mul (of_int (pos a)) w.w0) (mul (of_int (pos b)) w.w1)) (mul (of_int (pos c)) w.w2))

  unfoldable pub mixed_color : DmColor → DmColor → DmColor → Weights → DmColor
  unfolding channel
  mixed_color c0 c1 c2 w = record {
    r = channel c0.r c1.r c2.r w;
    g = channel c0.g c1.g c2.g w;
    b = channel c0.b c1.b c2.b w;
    a = channel c0.a c1.a c2.a w;
  }

  unfoldable pub weights : Vertices → Float → ℤ → ℤ → Weights
  weights v denom x y =
      let w0 =
        div (of_int ((v.v1.y -ℤ v.v2.y) *ℤ (x -ℤ v.v2.x) +ℤ (v.v2.x -ℤ v.v1.x) *ℤ (y -ℤ v.v2.y)))
          denom in
      let w1 =
        div (of_int ((v.v2.y -ℤ v.v0.y) *ℤ (x -ℤ v.v2.x) +ℤ (v.v0.x -ℤ v.v2.x) *ℤ (y -ℤ v.v2.y)))
          denom in
      record { w0 = w0; w1 = w1; w2 = sub (sub (literal 10 1) w0) w1 }

  -- A pixel of `dm_fb_fill_triangle_gradient`.
  unfoldable pub gradient_pixel :
      Vertices → Float → DmColor → DmColor → DmColor → ℤ → ℤ → DmFramebuffer → DmFramebuffer
  unfolding weights mixed_color clamp dm_fb_put_pixel
  gradient_pixel v denom c0 c1 c2 y x fb =
      let w = weights v denom x y in
      let near = minus (literal 1 2) in
      let c = mixed_color c0 c1 c2 (record { w0 = clamp w.w0; w1 = clamp w.w1; w2 = clamp w.w2 }) in
      if off_columns fb.clip x
      then fb
      else if at_most near w.w0 && at_most near w.w1 && at_most near w.w2
      then dm_fb_put_pixel fb x y c
      else fb

  unfoldable pub dm_fb_fill_triangle_gradient :
      DmFramebuffer → Vertices → DmColor → DmColor → DmColor → DmFramebuffer
  unfolding gradient_pixel rounds_up
  dm_fb_fill_triangle_gradient fb v c0 c1 c2 =
      let min_y = min_ℤ (min_ℤ v.v0.y v.v1.y) v.v2.y in
      let max_y = max_ℤ (max_ℤ v.v0.y v.v1.y) v.v2.y in
      let min_x = min_ℤ (min_ℤ v.v0.x v.v1.x) v.v2.x in
      let max_x = max_ℤ (max_ℤ v.v0.x v.v1.x) v.v2.x in
      let denom =
        of_int
          ((v.v1.y -ℤ v.v2.y) *ℤ (v.v0.x -ℤ v.v2.x) +ℤ (v.v2.x -ℤ v.v1.x) *ℤ (v.v0.y -ℤ v.v2.y)) in
      let row : ℤ → DmFramebuffer → DmFramebuffer = λ y fb.
        if off_rows fb.clip y
        then fb
        else for_to min_x max_x (gradient_pixel v denom c0 c1 c2 y) fb in
      if less (fabs denom) (literal 1 3) then fb else for_to min_y max_y row fb

  -- The corners of a triangle, moved to the middles of its sides where the fractal wants it.
  abbrev pub middle : Vertex → Vertex → Vertex
  middle a b = at (tdiv (a.x +ℤ b.x) 2) (tdiv (a.y +ℤ b.y) 2)

  unfoldable pub sierpinski_recurse :
      ℕ → Vertex → Vertex → Vertex → DmColor → DmColor → DmFramebuffer → Option DmFramebuffer
  unfolding dm_fb_fill_triangle dm_fb_stroke_triangle
  sierpinski_recurse zero a b c fill stroke fb =
      dm_fb_stroke_triangle (dm_fb_fill_triangle fb a.x a.y b.x b.y c.x c.y fill) a.x a.y b.x b.y
        c.x c.y stroke
  sierpinski_recurse (suc depth) a b c fill stroke fb =
      sierpinski_recurse depth a (middle a b) (middle c a) fill stroke fb
      >>= sierpinski_recurse depth (middle a b) b (middle b c) fill stroke
      >>= sierpinski_recurse depth (middle c a) (middle b c) c fill stroke

  unfoldable pub dm_fb_sierpinski :
      DmFramebuffer → Vertex → Vertex → Vertex → ℤ → DmColor → DmColor → Option DmFramebuffer
  unfolding sierpinski_recurse
  dm_fb_sierpinski fb a b c depth fill stroke =
      sierpinski_recurse (pos_part (if ltb_ℤ (pos 8) depth then pos 8 else depth)) a b c fill stroke
        fb

  -- A vertex moved away from the middle of the triangle.
  glow_vertex : Vertex → Float → Vertex → Vertex
  glow_vertex m scale v =
      at (m.x +ℤ to_int (mul (of_int (v.x -ℤ m.x)) scale))
        (m.y +ℤ to_int (mul (of_int (v.y -ℤ m.y)) scale))

  -- A pass of the glow, `g` of `radius`.
  unfoldable pub glow_pass :
      Vertex → Vertex → Vertex → DmColor → ℤ → ℤ → DmFramebuffer → Option DmFramebuffer
  unfolding glow_vertex dm_fb_stroke_triangle
  glow_pass a b c glow radius g fb =
      let alpha_t = sub (literal 10 1) (div (of_int g) (of_int (radius +ℤ pos 1))) in
      let gc : DmColor = record glow {
        a = to_byte (mul (mul (of_int (pos glow.a)) alpha_t) (literal 3 1));
      } in
      let m = at (tdiv (a.x +ℤ b.x +ℤ c.x) 3) (tdiv (a.y +ℤ b.y +ℤ c.y) 3) in
      let scale = add (literal 10 1) (mul (of_int g) (literal 8 3)) in
      let a' = glow_vertex m scale a in
      let b' = glow_vertex m scale b in
      let c' = glow_vertex m scale c in dm_fb_stroke_triangle fb a'.x a'.y b'.x b'.y c'.x c'.y gc

  -- The passes from the `g`-th down to the first.
  unfoldable pub glow_passes :
      ℕ → Vertex → Vertex → Vertex → DmColor → ℤ → DmFramebuffer → Option DmFramebuffer
  unfolding glow_pass
  glow_passes zero a b c glow radius fb = some fb
  glow_passes (suc g) a b c glow radius fb =
      glow_pass a b c glow radius (pos (suc g)) fb >>= glow_passes g a b c glow radius

  unfoldable pub dm_fb_sierpinski_glow :
      DmFramebuffer
      → Vertex
      → Vertex
      → Vertex
      → ℤ
      → DmColor
      → DmColor
      → DmColor
      → ℤ
      → Option DmFramebuffer
  unfolding glow_passes dm_fb_sierpinski
  dm_fb_sierpinski_glow fb a b c depth fill stroke glow glow_radius = do
    fb' ← glow_passes (pos_part glow_radius) a b c glow glow_radius fb
    dm_fb_sierpinski fb' a b c depth fill stroke
