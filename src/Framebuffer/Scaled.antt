-- ===== src/Framebuffer/Scaled.antt =====
-- `dm_fb_blit_scaled` and `dm_fb_warp_barrel` of src/core/framebuffer.c. The 64-bit coordinates with 16
-- bits behind the point are integers.
use de_mo_d.Prelude.{ℕ, ◌/◌, ◌==◌, if◌then◌else◌, ◌||◌, Option, none, some}
use de_mo_d.Prelude.{ℤ, pos, negsuc, ◌+ℤ◌, ◌-ℤ◌, ltb_ℤ, leb_ℤ}
use de_mo_d.Framebuffer.{
  dm_color_unpack, DmRect, rect, dm_rect_intersect, DmFramebuffer, pixel, set_pixel, blend_at,
  for_below, rounds_up,
}
use de_mo_d.Framebuffer.Blits.{faded}
use de_mo_d.Framebuffer.Floats.{Floats}

-- `DmFitMode`
pub data DmFitMode : Type 0 where
  fit_stretch : DmFitMode
  fit_contain : DmFitMode
  fit_cover : DmFitMode

-- `v >> 16`
unfoldable pub shift_16 : ℤ → ℤ
shift_16 (pos n) = pos (n / 65536)
shift_16 (negsuc n) = negsuc (n / 65536)

-- `if (i < 0) i = 0; else if (i >= n) i = n - 1;`
unfoldable pub clamp_index : ℤ → ℤ → ℤ
clamp_index n i = if ltb_ℤ i (pos 0) then pos 0 else if leb_ℤ n i then n -ℤ pos 1 else i

-- A pixel of the source, copied or blended.
unfoldable pub copy_pixel : ℕ → ℕ → ℤ → ℤ → DmFramebuffer → DmFramebuffer
unfolding set_pixel blend_at dm_color_unpack
copy_pixel alpha sp x y dst =
    if alpha == 255
    then set_pixel dst x y sp
    else blend_at (faded alpha (dm_color_unpack sp)) x y dst

module _ (F : Floats) where
  open F use {Float, of_int, to_int, add, sub, mul, div, minus, less, at_most, literal}

  -- Where the source is drawn, the step in the source for a pixel, and the source's place at the
  -- corner.
  pub record Placing : Type 0 where
    pub ddr : DmRect
    pub step_fx : Float
    pub step_fy : Float
    pub src_x_at : Float
    pub src_y_at : Float

  pub zero_f : Float
  zero_f = literal 0 1

  pub half_f : Float
  half_f = literal 5 1

  -- Drawn with the scale `s`.
  unfoldable pub placed : DmFitMode → DmFramebuffer → DmRect → Float → Placing
  unfolding zero_f half_f
  placed fit src dr s =
      let step = div (literal 10 1) s in
      let scaled_w = mul (of_int src.width) s in
      let scaled_h = mul (of_int src.height) s in
      let off_x = mul (sub (of_int dr.w) scaled_w) half_f in
      let off_y = mul (sub (of_int dr.h) scaled_h) half_f in
      let inside =
        rect (dr.x +ℤ to_int (add off_x half_f)) (dr.y +ℤ to_int (add off_y half_f))
          (to_int (add scaled_w half_f)) (to_int (add scaled_h half_f)) in
      let contained : Placing = record {
        ddr = inside;
        step_fx = step;
        step_fy = step;
        src_x_at = zero_f;
        src_y_at = zero_f;
      } in
      let covering : Placing = record {
        ddr = dr;
        step_fx = step;
        step_fy = step;
        src_x_at = div (minus off_x) s;
        src_y_at = div (minus off_y) s;
      } in
      elim fit [ fit_contain ↦ contained | _ ↦ covering ]

  -- The scale for `DM_FIT_CONTAIN` and `DM_FIT_COVER`, and nothing for one that is not positive.
  unfoldable pub fitted : DmFitMode → DmFramebuffer → DmRect → Option Placing
  unfolding placed zero_f
  fitted fit src dr =
      let sx = div (of_int dr.w) (of_int src.width) in
      let sy = div (of_int dr.h) (of_int src.height) in
      let larger = if less sy sx then sx else sy in
      let smaller = if less sx sy then sx else sy in
      let s : Float = elim fit [ fit_cover ↦ larger | _ ↦ smaller ] in
      if at_most s zero_f then none else some (placed fit src dr s)

  unfoldable pub placing : DmFitMode → DmFramebuffer → DmRect → Option Placing
  unfolding fitted zero_f
  placing fit_stretch src dr = some (record {
    ddr = dr;
    step_fx = div (of_int src.width) (of_int dr.w);
    step_fy = div (of_int src.height) (of_int dr.h);
    src_x_at = zero_f;
    src_y_at = zero_f;
  })
  placing fit src dr = fitted fit src dr

  -- `(int)(f * 65536.0f + 0.5f)`
  pub fixed : Float → ℤ
  fixed f = to_int (add (mul f (literal 655360 1)) (literal 5 1))

  -- A row of `w` pixels from `x0` on; the state has the source's coordinate.
  unfoldable pub scaled_row :
      DmFramebuffer → ℕ → ℤ → ℤ → ℤ → ℤ → ℤ → ℤ → DmFramebuffer → DmFramebuffer
  unfolding shift_16 clamp_index pixel copy_pixel rounds_up
  scaled_row src alpha x0 w step_x sx_start sy dst_y dst =
      (for_below {S = DmFramebuffer × ℤ} (pos 0) w
        (λ x s. (
          copy_pixel alpha (pixel src (clamp_index src.width (shift_16 s.1)) sy) (x0 +ℤ x) dst_y
              s.0,
          s.1 +ℤ step_x,
        ))
        (dst, sx_start)).0

  -- The rows of the area.
  unfoldable pub scaled_rows : DmFramebuffer → ℕ → DmRect → Placing → DmFramebuffer → DmFramebuffer
  unfolding shift_16 clamp_index fixed scaled_row rounds_up
  scaled_rows src alpha area p dst =
      let step_x = fixed p.step_fx in
      let step_y = fixed p.step_fy in
      let sx_start = fixed (add p.src_x_at (mul (of_int (area.x -ℤ p.ddr.x)) p.step_fx)) in
      let sy_start = fixed (add p.src_y_at (mul (of_int (area.y -ℤ p.ddr.y)) p.step_fy)) in
      (for_below {S = DmFramebuffer × ℤ} (pos 0) area.h
        (λ y s. (
          scaled_row src alpha area.x area.w step_x sx_start (clamp_index src.height (shift_16 s.1))
              (area.y +ℤ y) s.0,
          s.1 +ℤ step_y,
        ))
        (dst, sy_start)).0

  unfoldable pub scaled_at : DmFramebuffer → ℕ → Option Placing → DmFramebuffer → DmFramebuffer
  unfolding dm_rect_intersect scaled_rows
  scaled_at src alpha none dst = dst
  scaled_at src alpha (some p) dst =
      let area = dm_rect_intersect p.ddr dst.clip in
      if leb_ℤ area.w (pos 0) || leb_ℤ area.h (pos 0) then dst else scaled_rows src alpha area p dst

  unfoldable pub dm_fb_blit_scaled :
      DmFramebuffer → DmFramebuffer → DmRect → DmFitMode → ℕ → DmFramebuffer
  unfolding placing scaled_at
  dm_fb_blit_scaled dst src dr fit alpha =
      if leb_ℤ src.width (pos 0) || leb_ℤ src.height (pos 0)
      then dst
      else if leb_ℤ dr.w (pos 0) || leb_ℤ dr.h (pos 0)
      then dst
      else scaled_at src alpha (placing fit src dr) dst

  -- What stays the same in the loops of `dm_fb_warp_barrel`.
  pub record Lens : Type 0 where
    pub cx : Float
    pub cy : Float
    pub inv : Float
    pub k1 : Float
    pub k2 : Float

  -- `(int)(c + (float)((x - from) - c) * f + 0.5f)`
  pub bent : Float → ℤ → Float → ℤ
  bent c d f = to_int (add (add c (mul (sub (of_int d) c) f)) (literal 5 1))

  -- A pixel of `dm_fb_warp_barrel`.
  unfoldable pub warp_pixel :
      DmFramebuffer → DmRect → Lens → ℕ → ℤ → ℤ → DmFramebuffer → DmFramebuffer
  unfolding bent pixel copy_pixel
  warp_pixel src dr l alpha y x dst =
      let ny = mul (sub (of_int (y -ℤ dr.y)) l.cy) l.inv in
      let nx = mul (sub (of_int (x -ℤ dr.x)) l.cx) l.inv in
      let r2 = add (mul nx nx) (mul ny ny) in
      let f = add (add (literal 10 1) (mul l.k1 r2)) (mul (mul l.k2 r2) r2) in
      let slx = bent l.cx (x -ℤ dr.x) f in
      let sly = bent l.cy (y -ℤ dr.y) f in
      if ltb_ℤ slx (pos 0) || leb_ℤ src.width slx || ltb_ℤ sly (pos 0) || leb_ℤ src.height sly
      then dst
      else copy_pixel alpha (pixel src slx sly) x y dst

  unfoldable pub dm_fb_warp_barrel :
      DmFramebuffer → DmFramebuffer → DmRect → Float → Float → ℕ → DmFramebuffer
  unfolding half_f zero_f dm_rect_intersect warp_pixel rounds_up
  dm_fb_warp_barrel dst src dr k1 k2 alpha =
      let norm = mul (of_int (if ltb_ℤ dr.h dr.w then dr.h else dr.w)) half_f in
      let lens : Lens = record {
        cx = mul (of_int dr.w) half_f;
        cy = mul (of_int dr.h) half_f;
        inv = div (literal 10 1) norm;
        k1 = k1;
        k2 = k2;
      } in
      let area = dm_rect_intersect dr dst.clip in
      let row : ℤ → DmFramebuffer → DmFramebuffer =
        λ y dst. for_below area.x (area.x +ℤ area.w) (warp_pixel src dr lens alpha y) dst in
      if leb_ℤ dr.w (pos 0) || leb_ℤ dr.h (pos 0)
      then dst
      else if at_most norm zero_f
      then dst
      else if leb_ℤ area.w (pos 0) || leb_ℤ area.h (pos 0)
      then dst
      else for_below area.y (area.y +ℤ area.h) row dst
