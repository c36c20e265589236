-- ===== src/Framebuffer/Clipping/Lines.antt =====
-- `dm_fb_line`, `dm_fb_stroke_circle` and `dm_fb_stroke_triangle` of src/core/framebuffer.c: their loops
-- end, and what they draw is in the clip.
use mathlib.Core.Path.{subst}
use de_mo_d.Prelude.{
  ℕ, zero, suc, ◌+◌, ◌<◌, if◌then◌else◌, false, ◌&&◌, on_branches, arith, Option, some, ◌≡◌, refl,
  sym, leb_ℤ→le,
}
use de_mo_d.Prelude.{
  ℤ, pos, pos_part, neg_part, ◌+ℤ◌, ◌-ℤ◌, ◌*ℤ◌, ◌<ℤ◌, ltb_ℤ, leb_ℤ, eqb_ℤ, int_laws,
}
use de_mo_d.Framebuffer.{DmColor, DmFramebuffer, dm_fb_put_pixel}
use de_mo_d.Framebuffer.Lines.{
  ◌>>=◌, Course, line_loop, course, line_rounds, dm_fb_line, eight_pixels, circle_loop,
  dm_fb_stroke_circle, dm_fb_stroke_triangle,
}
use de_mo_d.Framebuffer.Clipping.Way.{Way, next-Way, start-Way, Toward-zero}
use de_mo_d.Framebuffer.Clipping.{Shape, Clipped, dm_fb_put_pixel-Clipped}

-- A drawing that ends, and leaves the pixels outside of the clip.
unfoldable pub Drawn : Shape → DmFramebuffer → Option DmFramebuffer → Type 0
Drawn s old r = (fb : DmFramebuffer) × (r ≡ some fb) × Clipped s old fb

pub Drawn-some : (s : Shape) (old fb : DmFramebuffer) → Clipped s old fb → Drawn s old (some fb)
unfolding Drawn
Drawn-some s old fb k = (fb, refl, k)

pub Drawn-bind :
    (s : Shape) (old : DmFramebuffer) (r : Option DmFramebuffer)
    (f : DmFramebuffer → Option DmFramebuffer)
    → Drawn s old r
    → ((fb : DmFramebuffer) → Clipped s old fb → Drawn s old (f fb))
    → Drawn s old (r >>= f)
unfolding Drawn
Drawn-bind s old r f (fb, e, k) h = subst (λ r. Drawn s old (r >>= f)) (sym e) (h fb k)

line_loop-Drawn :
    (s : Shape) (old : DmFramebuffer) (k : Course) (c : DmColor) (n a b : ℕ) (x y err : ℤ)
    (fb : DmFramebuffer)
    → a + b < n
    → Way k a b x y err
    → Clipped s old fb
    → Drawn s old (line_loop n k c x y err fb)
unfolding line_loop
line_loop-Drawn s old k c zero a b x y err fb l w h = absurd (omega arith)
line_loop-Drawn s old k c (suc n) a b x y err fb l w h =
    let drawn = dm_fb_put_pixel-Clipped s old fb x y c h in
    on_branches (Drawn s old) (eqb_ℤ x k.x1 && eqb_ℤ y k.y1)
      (λ _. Drawn-some s old (dm_fb_put_pixel fb x y c) drawn)
      (λ going.
        let (a', b', l', w') =
          next-Way k a b x y err (leb_ℤ k.dy (pos 2 *ℤ err)) (leb_ℤ (pos 2 *ℤ err) k.dx) refl refl w
            (steps_left k a b x y err w going) in
        line_loop-Drawn s old k c n a' b' _ _ _ (dm_fb_put_pixel fb x y c) (omega arith) w' drawn)
  where
    steps_left :
        (k : Course) (a b : ℕ) (x y err : ℤ)
        → Way k a b x y err
        → (eqb_ℤ x k.x1 && eqb_ℤ y k.y1) ≡ false
        → 0 < a + b
    steps_left k (suc a) b x y err w h = omega arith
    steps_left k zero (suc b) x y err w h = omega arith
    steps_left k zero zero x y err w h = absurd (
        ground (arith, h, Toward-zero x k.sx k.x1 w.horizontal, Toward-zero y k.sy k.y1 w.vertical))

pub dm_fb_line-Drawn :
    (s : Shape) (old fb : DmFramebuffer) (x0 y0 x1 y1 : ℤ) (c : DmColor)
    → Clipped s old fb
    → Drawn s old (dm_fb_line fb x0 y0 x1 y1 c)
unfolding dm_fb_line line_rounds
dm_fb_line-Drawn s old fb x0 y0 x1 y1 c h =
    let k : Course = course x0 y0 x1 y1 in
    line_loop-Drawn s old k c (line_rounds k) (pos_part k.dx) (neg_part k.dy) x0 y0 (k.dx +ℤ k.dy)
      fb (omega arith) (start-Way x0 y0 x1 y1) h

eight_pixels-Clipped :
    (s : Shape) (old : DmFramebuffer) (cx cy x y : ℤ) (c : DmColor) (fb : DmFramebuffer)
    → Clipped s old fb
    → Clipped s old (eight_pixels cx cy x y c fb)
unfolding eight_pixels
eight_pixels-Clipped s old cx cy x y c fb h = put (cx -ℤ y) (cy -ℤ x) _ (
    put (cx +ℤ y) (cy -ℤ x) _ (
      put (cx -ℤ y) (cy +ℤ x) _ (
        put (cx +ℤ y) (cy +ℤ x) _ (
          put (cx -ℤ x) (cy -ℤ y) _ (
            put (cx +ℤ x) (cy -ℤ y) _
              (put (cx -ℤ x) (cy +ℤ y) _ (put (cx +ℤ x) (cy +ℤ y) fb h)))))))
  where
    put :
        (px py : ℤ) (fb : DmFramebuffer)
        → Clipped s old fb
        → Clipped s old (dm_fb_put_pixel fb px py c)
    put px py fb h = dm_fb_put_pixel-Clipped s old fb px py c h

-- `y` comes past `x` within the rounds.
circle_loop-Drawn :
    (s : Shape) (old : DmFramebuffer) (cx cy : ℤ) (c : DmColor) (n : ℕ) (x y err : ℤ)
    (fb : DmFramebuffer)
    → 0 < n
    → x +ℤ pos 1 <ℤ y +ℤ pos n
    → Clipped s old fb
    → Drawn s old (circle_loop n cx cy c x y err fb)
unfolding circle_loop
circle_loop-Drawn s old cx cy c zero x y err fb l l' h = absurd (omega arith)
circle_loop-Drawn s old cx cy c (suc n) x y err fb l l' h =
    on_branches (Drawn s old) (leb_ℤ y x)
      (λ e.
        circle_loop-Drawn s old cx cy c n (if ltb_ℤ err (pos 0) then x else x -ℤ pos 1) (y +ℤ pos 1)
          _ (eight_pixels cx cy x y c fb) (omega (int_laws, leb_ℤ→le y x e))
          (on_branches (λ x'. x' +ℤ pos 1 <ℤ y +ℤ pos 1 +ℤ pos n) (ltb_ℤ err (pos 0))
            (λ _. omega int_laws) (λ _. omega int_laws))
          (eight_pixels-Clipped s old cx cy x y c fb h))
      (λ _. Drawn-some s old fb h)

pub dm_fb_stroke_circle-Drawn :
    (s : Shape) (old fb : DmFramebuffer) (cx cy radius : ℤ) (c : DmColor)
    → Clipped s old fb
    → Drawn s old (dm_fb_stroke_circle fb cx cy radius c)
unfolding dm_fb_stroke_circle
dm_fb_stroke_circle-Drawn s old fb cx cy radius c h =
    circle_loop-Drawn s old cx cy c (pos_part radius + 2) radius (pos 0) (pos 1 -ℤ radius) fb
      (omega arith) (omega int_laws) h

pub dm_fb_stroke_triangle-Drawn :
    (s : Shape) (old fb : DmFramebuffer) (x0 y0 x1 y1 x2 y2 : ℤ) (c : DmColor)
    → Clipped s old fb
    → Drawn s old (dm_fb_stroke_triangle fb x0 y0 x1 y1 x2 y2 c)
unfolding dm_fb_stroke_triangle
dm_fb_stroke_triangle-Drawn s old fb x0 y0 x1 y1 x2 y2 c h =
    Drawn-bind s old _ _ (dm_fb_line-Drawn s old fb x0 y0 x1 y1 c h) (λ fb1 h1.
      Drawn-bind s old _ _ (dm_fb_line-Drawn s old fb1 x1 y1 x2 y2 c h1)
        (λ fb2 h2. dm_fb_line-Drawn s old fb2 x2 y2 x0 y0 c h2))
