-- ===== src/Framebuffer/Lines.antt =====
-- The operations of src/core/framebuffer.c that walk: `dm_fb_line`, `dm_fb_stroke_circle` and
-- `dm_fb_stroke_triangle`. `none` is a loop that runs out of rounds.
use de_mo_d.Prelude.{ℕ, zero, suc, ◌+◌, if◌then◌else◌, ◌&&◌, Option, none, some}
use de_mo_d.Prelude.{ℤ, pos, pos_part, neg_part, ◌+ℤ◌, ◌-ℤ◌, ◌*ℤ◌, ltb_ℤ, leb_ℤ, eqb_ℤ}
use de_mo_d.Framebuffer.{DmColor, DmFramebuffer, dm_fb_put_pixel}

infixl 40 ◌>>=◌
abbrev pub ◌>>=◌ : {A B : Type 0} → Option A → (A → Option B) → Option B
none >>= f = none
some a >>= f = f a

-- `abs`
abbrev pub abs_ℤ : ℤ → ℤ
abs_ℤ a = if ltb_ℤ a (pos 0) then pos 0 -ℤ a else a

-- What stays the same in the loop of `dm_fb_line`.
pub record Course : Type 0 where
  pub dx : ℤ
  pub dy : ℤ
  pub sx : ℤ
  pub sy : ℤ
  pub x1 : ℤ
  pub y1 : ℤ

unfoldable pub line_loop : ℕ → Course → DmColor → ℤ → ℤ → ℤ → DmFramebuffer → Option DmFramebuffer
unfolding dm_fb_put_pixel
line_loop zero k c x y err fb = none
line_loop (suc n) k c x y err fb =
    let fb' = dm_fb_put_pixel fb x y c in
    let e2 = pos 2 *ℤ err in
    let in_x = leb_ℤ k.dy e2 in
    let in_y = leb_ℤ e2 k.dx in
    let err' = if in_x then err +ℤ k.dy else err in
    let rest =
      line_loop n k c (if in_x then x +ℤ k.sx else x) (if in_y then y +ℤ k.sy else y)
        (if in_y then err' +ℤ k.dx else err') fb' in
    if eqb_ℤ x k.x1 && eqb_ℤ y k.y1 then some fb' else rest

abbrev pub course : ℤ → ℤ → ℤ → ℤ → Course
course x0 y0 x1 y1 = record {
  dx = abs_ℤ (x1 -ℤ x0);
  dy = pos 0 -ℤ abs_ℤ (y1 -ℤ y0);
  sx = if ltb_ℤ x0 x1 then pos 1 else pos 0 -ℤ pos 1;
  sy = if ltb_ℤ y0 y1 then pos 1 else pos 0 -ℤ pos 1;
  x1 = x1;
  y1 = y1;
}

-- A round takes a step in one of the directions at least, and the last one takes none.
unfoldable pub line_rounds : Course → ℕ
line_rounds k = pos_part k.dx + neg_part k.dy + 1

unfoldable pub dm_fb_line : DmFramebuffer → ℤ → ℤ → ℤ → ℤ → DmColor → Option DmFramebuffer
unfolding line_loop line_rounds
dm_fb_line fb x0 y0 x1 y1 c =
    let k = course x0 y0 x1 y1 in line_loop (line_rounds k) k c x0 y0 (k.dx +ℤ k.dy) fb

-- The eight pixels of a round of `dm_fb_stroke_circle`.
unfoldable pub eight_pixels : ℤ → ℤ → ℤ → ℤ → DmColor → DmFramebuffer → DmFramebuffer
unfolding dm_fb_put_pixel
eight_pixels cx cy x y c fb =
    let fb1 = dm_fb_put_pixel fb (cx +ℤ x) (cy +ℤ y) c in
    let fb2 = dm_fb_put_pixel fb1 (cx -ℤ x) (cy +ℤ y) c in
    let fb3 = dm_fb_put_pixel fb2 (cx +ℤ x) (cy -ℤ y) c in
    let fb4 = dm_fb_put_pixel fb3 (cx -ℤ x) (cy -ℤ y) c in
    let fb5 = dm_fb_put_pixel fb4 (cx +ℤ y) (cy +ℤ x) c in
    let fb6 = dm_fb_put_pixel fb5 (cx -ℤ y) (cy +ℤ x) c in
    let fb7 = dm_fb_put_pixel fb6 (cx +ℤ y) (cy -ℤ x) c in dm_fb_put_pixel fb7 (cx -ℤ y) (cy -ℤ x) c

unfoldable pub circle_loop : ℕ → ℤ → ℤ → DmColor → ℤ → ℤ → ℤ → DmFramebuffer → Option DmFramebuffer
unfolding eight_pixels
circle_loop zero cx cy c x y err fb = none
circle_loop (suc n) cx cy c x y err fb =
    let fb' = eight_pixels cx cy x y c fb in
    let y' = y +ℤ pos 1 in
    let x' = if ltb_ℤ err (pos 0) then x else x -ℤ pos 1 in
    let err' =
      if ltb_ℤ err (pos 0)
      then err +ℤ (pos 2 *ℤ y' +ℤ pos 1)
      else err +ℤ (pos 2 *ℤ (y' -ℤ x') +ℤ pos 1) in
    let rest = circle_loop n cx cy c x' y' err' fb' in if leb_ℤ y x then rest else some fb

-- Each round makes `y` greater, from 0, and `x` no greater, from the radius.
unfoldable pub dm_fb_stroke_circle : DmFramebuffer → ℤ → ℤ → ℤ → DmColor → Option DmFramebuffer
unfolding circle_loop
dm_fb_stroke_circle fb cx cy radius c =
    circle_loop (pos_part radius + 2) cx cy c radius (pos 0) (pos 1 -ℤ radius) fb

unfoldable pub dm_fb_stroke_triangle :
    DmFramebuffer → ℤ → ℤ → ℤ → ℤ → ℤ → ℤ → DmColor → Option DmFramebuffer
unfolding dm_fb_line
dm_fb_stroke_triangle fb x0 y0 x1 y1 x2 y2 c = do
  fb1 ← dm_fb_line fb x0 y0 x1 y1 c
  fb2 ← dm_fb_line fb1 x1 y1 x2 y2 c
  dm_fb_line fb2 x2 y2 x0 y0 c
