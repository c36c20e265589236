-- ===== src/Framebuffer/Tests.antt =====
-- Drawings on small frames.
use mathlib.Core.List.{List, [], ◌∷◌}
use de_mo_d.Prelude.{ℕ, false, ◌&&◌, if◌then◌else◌, arith, ◌≡◌, refl, some}
use de_mo_d.Prelude.{ℤ, pos, pos_part, ◌+ℤ◌, ◌-ℤ◌, ◌*ℤ◌, ◌≤ℤ◌, ◌<ℤ◌, ltb_ℤ, leb_ℤ, int_laws}
use de_mo_d.Framebuffer.{
  DmColor, rect, dm_rect_contains, DmFramebuffer, frame_of, pixel, blend_pixel, dm_color_pack,
  dm_fb_fill_rect, dm_fb_clear,
}
use de_mo_d.Framebuffer.Floats.{Floats}
use de_mo_d.Framebuffer.Sessions.{
  draw, line, fill_circle, Command, drawing, clear, clip_push, clip_reset, run,
}
use de_mo_d.Framebuffer.Clipping.{shape, IsFramed}
use de_mo_d.Framebuffer.Drawings.{draw_leaves_rest}
use de_mo_d.Framebuffer.Memory.{Kept, run-Kept}
use de_mo_d.Framebuffer.Painting.{dm_fb_fill_rect-pixel}
use de_mo_d.Framebuffer.Clearing.{dm_fb_clear-pixels}

-- Integers in place of floating-point numbers.
abbrev whole_floats : Floats
whole_floats = record {
  Float = ℤ;
  of_int = λ n. n;
  to_int = λ n. n;
  to_byte = λ n. pos_part n;
  add = λ a b. a +ℤ b;
  sub = λ a b. a -ℤ b;
  mul = λ a b. a *ℤ b;
  div = λ a b. a;
  minus = λ a. pos 0 -ℤ a;
  fabs = λ a. if ltb_ℤ a (pos 0) then pos 0 -ℤ a else a;
  root = λ a. pos (pos_part a);
  less = ltb_ℤ;
  at_most = leb_ℤ;
  literal = λ digits places. pos digits;
}

abbrev red : DmColor
red = record { r = 255; g = 0; b = 0; a = 255 }

abbrev shade : DmColor
shade = record { r = 0; g = 0; b = 100; a = 128 }

-- A frame of 3 columns and 2 rows with rows of 4 pixels in memory, and a clip of its last two columns.
abbrev small : DmFramebuffer
small = record (frame_of (λ i. 7) (pos 3) (pos 2) (pos 4) false) {
  clip = rect (pos 1) (pos 0) (pos 2) (pos 2);
}

small-IsFramed : IsFramed (shape small)
small-IsFramed = record {
  across = omega arith;
  down = omega arith;
  left = omega arith;
  right = omega int_laws;
  top = omega arith;
  bottom = omega int_laws;
  wide = omega arith;
}

-- A row of the frame, and the pixel after it.
abbrev row_of : DmFramebuffer → List ℕ
row_of fb =
    pixel fb (pos 0) (pos 0)
    ∷ pixel fb (pos 1) (pos 0)
    ∷ pixel fb (pos 2) (pos 0)
    ∷ pixel fb (pos 3) (pos 0)
    ∷ []

filled_row :
    row_of (dm_fb_fill_rect small (rect (pos 0) (pos 0) (pos 9) (pos 1)) red)
    ≡ 7 ∷ 4294901760 ∷ 4294901760 ∷ 7 ∷ []
unfolding dm_fb_fill_rect pixel ◌+ℤ◌ ◌-ℤ◌ ◌*ℤ◌
filled_row = refl

draw_leaves_rest_example :
    (fb' : DmFramebuffer) × (draw whole_floats (line (pos 0) (pos 0) (pos 2) (pos 1) red) small
      ≡ some fb')
    × (shape fb' ≡ shape small)
    × ((x y : ℤ)
        → pos 0 ≤ℤ x
        → x <ℤ small.stride
        → dm_rect_contains small.clip x y ≡ false
        → pixel fb' x y ≡ pixel small x y)
draw_leaves_rest_example =
    draw_leaves_rest whole_floats (line (pos 0) (pos 0) (pos 2) (pos 1) red) small small-IsFramed

-- A session that draws in part of the frame, and then clears it.
abbrev session : List (Command whole_floats)
session =
    clip_push (rect (pos 2) (pos 1) (pos 5) (pos 5))
    ∷ drawing (fill_circle (pos 1) (pos 1) (pos 1) shade)
    ∷ clip_reset
    ∷ clear red
    ∷ []

run-Kept_example :
    (fb' : DmFramebuffer) × (run whole_floats session small ≡ some fb') × Kept small fb'
run-Kept_example = run-Kept whole_floats session small small-IsFramed

dm_fb_fill_rect-pixel_example :
    pixel (dm_fb_fill_rect small (rect (pos 0) (pos 1) (pos 3) (pos 4)) shade) (pos 2) (pos 1) ≡ (
      if dm_rect_contains (rect (pos 0) (pos 1) (pos 3) (pos 4)) (pos 2) (pos 1)
        && dm_rect_contains small.clip (pos 2) (pos 1)
      then blend_pixel (pixel small (pos 2) (pos 1)) shade
      else pixel small (pos 2) (pos 1))
dm_fb_fill_rect-pixel_example =
    dm_fb_fill_rect-pixel small (rect (pos 0) (pos 1) (pos 3) (pos 4)) shade (pos 2) (pos 1)
      small-IsFramed (omega arith) (omega arith)

dm_fb_clear-pixels_example : (dm_fb_clear small red).pixels (pos 3) ≡ (
    if leb_ℤ (pos 0) (pos 3) && ltb_ℤ (pos 3) (small.width *ℤ small.height)
    then dm_color_pack red
    else small.pixels (pos 3))
dm_fb_clear-pixels_example = dm_fb_clear-pixels small red (pos 3) (omega arith) (omega arith)
