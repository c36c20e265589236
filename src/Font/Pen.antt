-- ===== src/Font/Pen.antt =====
-- The texts that src/core/font.c draws: they end, stay in the clip, and are as wide as the source
-- measures them.
use Prim.Native.Nat.{bit_and}
use mathlib.Core.Option.{some_inj}
use native.Mathlib.Nat.{add-mul}
use de_mo_d.Prelude.{
  ℕ, zero, suc, ◌+◌, ◌/◌, ◌^◌, ◌==◌, ◌≤◌, ◌<◌, false, Option, none, some, List, length, drop,
  on_branches, arith, ◌≡◌, sym, ap, ◌∙◌, inl, inr, Bool-cases, if_true, if_false,
}
use de_mo_d.Prelude.{tdiv, [], ◌∷◌, neg_part, *ℤ_parts, eq_of_parts, ◌≤ℤ◌}
use de_mo_d.Prelude.{ℤ, pos, pos_part, ◌+ℤ◌, ◌-ℤ◌, ◌*ℤ◌, ltb_ℤ, eqb_ℤ, int_laws}
use de_mo_d.Framebuffer.{DmColor, DmRect, rect, DmFramebuffer}
use de_mo_d.Framebuffer.Lines.{◌>>=◌}
use de_mo_d.Framebuffer.Clipping.Rows.{dm_fb_fill_rect-Clipped}
use de_mo_d.Framebuffer.Loops.{for_below-keeps}
use de_mo_d.Framebuffer.Clipping.{Shape, shape, Clipped, Clipped-refl, dm_fb_put_pixel-Clipped}
use de_mo_d.Font.{dm_utf8_decode, Ext, FontHost, DmFont, width_loop, dm_font_text_width_n}
use de_mo_d.Font.Pictures.{IsReady, picture-Pictured}
use de_mo_d.Font.Drawing.{
  Picture, blank, tofu, bitmap, bytes_per_row, draw_tofu, draw_block, draw_byte, draw_bitmap,
  draw_picture, picture_width, Pen, move_pen, draw_cp_scaled, text_loop, dm_fb_draw_text_scaled,
  dm_fb_draw_text, draw_measured, dm_fb_draw_text_centered,
}

module _ (s : Shape) (old : DmFramebuffer) where
  draw_tofu-Clipped :
      (f : DmFont) (x y : ℤ) (fg : DmColor) (scale : ℤ) (fb : DmFramebuffer)
      → Clipped s old fb
      → Clipped s old (draw_tofu f x y fg scale fb)
  unfolding draw_tofu
  draw_tofu-Clipped f x y fg scale fb k = dm_fb_fill_rect-Clipped s old _ _ fg (
      dm_fb_fill_rect-Clipped s old _ _ fg
        (dm_fb_fill_rect-Clipped s old _ _ fg (dm_fb_fill_rect-Clipped s old fb _ fg k)))

  draw_byte-Clipped :
      (fg : DmColor) (scale : ℤ) (bits : ℕ) (bx y : ℤ) (fb : DmFramebuffer)
      → Clipped s old fb
      → Clipped s old (draw_byte fg scale bits bx y fb)
  unfolding draw_byte draw_block
  draw_byte-Clipped fg scale bits bx y fb k =
      on_branches (Clipped s old) (bits == 0) (λ _. k)
        (λ _.
          for_below-keeps (Clipped s old) (pos 0) (pos 8) _
            (λ col fb lo hi k.
              let x = bx +ℤ col *ℤ scale in
              on_branches (Clipped s old) (bit_and bits (128 / 2 ^ pos_part col) == 0) (λ _. k)
                (λ _.
                  on_branches (Clipped s old) (eqb_ℤ scale (pos 1))
                    (λ _. dm_fb_put_pixel-Clipped s old fb x y fg k)
                    (λ _. dm_fb_fill_rect-Clipped s old fb (rect x y scale scale) fg k)))
            fb k)

  draw_picture-Clipped :
      (f : DmFont) (v : Picture) (x y : ℤ) (fg : DmColor) (scale : ℤ) (fb : DmFramebuffer)
      → Clipped s old fb
      → Clipped s old (draw_picture f v x y fg scale fb)
  unfolding draw_picture draw_bitmap
  draw_picture-Clipped f blank x y fg scale fb k = k
  draw_picture-Clipped f tofu x y fg scale fb k = draw_tofu-Clipped f x y fg scale fb k
  draw_picture-Clipped f (bitmap fw glyph) x y fg scale fb k =
      for_below-keeps (Clipped s old) (pos 0) (pos f.glyph_h) _
        (λ row fb lo hi k.
          for_below-keeps (Clipped s old) (pos 0) (pos (bytes_per_row fw)) _
            (λ b fb lo hi. draw_byte-Clipped fg scale _ _ _ fb) fb k)
        fb k

length-drop_le : (n : ℕ) (l : List ℕ) → length (drop n l) ≤ length l
length-drop_le zero l = omega arith
length-drop_le (suc n) [] = omega arith
length-drop_le (suc n) (b ∷ l) = omega (arith, length-drop_le n l)

-- A code point that is not the end takes a byte at least.
consumed :
    (text : List ℕ)
    → ((dm_utf8_decode text).1 == 0) ≡ false
    → length (drop (dm_utf8_decode text).1 text) < length text
consumed [] e = unfold dm_utf8_decode in absurd (cc e)
consumed (b ∷ l) e = shorter (dm_utf8_decode (b ∷ l)).1 e
  where
    shorter : (n : ℕ) → (n == 0) ≡ false → length (drop n (b ∷ l)) < length (b ∷ l)
    shorter zero e = absurd (cc e)
    shorter (suc n) e = omega (arith, length-drop_le n l)

steps_add :
    (x : ℤ) (a n : ℕ) (scale : ℤ)
    → x +ℤ pos a *ℤ scale +ℤ pos n *ℤ scale ≡ x +ℤ pos (a + n) *ℤ scale
steps_add x a n scale = eq_of_parts _ _ (
    omega (
      int_laws,
      *ℤ_parts (pos a) scale,
      *ℤ_parts (pos n) scale,
      *ℤ_parts (pos (a + n)) scale,
      add-mul a n (pos_part scale),
      add-mul a n (neg_part scale),
    ))

no_steps : (x scale : ℤ) → x ≡ x +ℤ pos 0 *ℤ scale
no_steps x scale = eq_of_parts _ _ (omega (int_laws, *ℤ_parts (pos 0) scale))

abbrev pen_at : DmFramebuffer → ℤ → Ext → Pen
pen_at fb x g = record { frame = fb; x = x; ext = g }

-- A text in the clip, from `x` on, whose measured width is added to `w`.
Written : Shape → DmFramebuffer → Ext → ℤ → ℤ → ℕ → Option (ℕ × Ext) → Option Pen → Type 0
Written s old g scale x w measured written =
    (fb : DmFramebuffer) × (n : ℕ) × (measured ≡ some (w + n, g))
    × (written ≡ some (pen_at fb (x +ℤ pos n *ℤ scale) g))
    × Clipped s old fb

text_loop-Written :
    (s : Shape) (old : DmFramebuffer) (host : FontHost) (f : DmFont) (g : Ext) (y : ℤ)
    (fg : DmColor) (scale : ℤ)
    → IsReady f g
    → (k : ℕ) (text : List ℕ) (fb : DmFramebuffer) (x : ℤ) (at w : ℕ) → length text < k
    → Clipped s old fb
    → Written s old g scale x w
        (width_loop k host f none g text at w)
        (text_loop k host f y fg scale text (pen_at fb x g))
unfolding Written text_loop width_loop draw_cp_scaled move_pen
text_loop-Written s old host f g y fg scale ready zero text fb x at w l k = absurd (omega arith)
text_loop-Written s old host f g y fg scale ready (suc rounds) text fb x at w l k =
    let cp : ℕ = (dm_utf8_decode text).0 in
    let adv : ℕ = (dm_utf8_decode text).1 in
    elim (Bool-cases (adv == 0)) [
      | inl e ↦ (
        fb,
        0,
        if_true _ _ e ∙ ap (λ u. some (u, g)) (omega arith),
        if_true _ _ e ∙ ap (λ u. some (pen_at fb u g)) (no_steps x scale),
        k,
      )
      | inr e ↦
          (let v = picture-Pictured host f g cp ready in
            let a : ℕ = picture_width f v.shown in
            let (fb', n, m, t, k') =
              text_loop-Written s old host f g y fg scale ready rounds (drop adv text)
                (draw_picture f v.shown x y fg scale fb) (x +ℤ pos a *ℤ scale) (at + adv) (w + a)
                (omega (arith, consumed text e))
                (draw_picture-Clipped s old f v.shown x y fg scale fb k) in
            (
              fb',
              a + n,
              if_false _ _ e
                  ∙ ap (λ q. width_loop rounds host f none q.1 (drop adv text) (at + adv) (w + q.0))
                      v.measured
                  ∙ m
                  ∙ ap (λ u. some (u, g)) (omega arith),
              if_false _ _ e
                  ∙ ap
                      (λ q.
                        move_pen f y fg scale (pen_at fb x g) q
                        >>= text_loop rounds host f y fg scale (drop adv text))
                      v.is_shown
                  ∙ t
                  ∙ ap (λ u. some (pen_at fb' u g)) (steps_add x a n scale),
              k',
            ))
    ]

-- A text of any bytes, drawn with a ready font at a scale of 1 or more: the drawing ends, leaves the
-- memory outside of the clip's pixels, and moves the pen by the width that `dm_font_text_width_n`
-- measures without a limit, times the scale.
pub draw_text_measured :
    (host : FontHost) (f : DmFont) (g : Ext) (fb : DmFramebuffer) (x y : ℤ) (text : List ℕ)
    (fg : DmColor) (scale : ℤ)
    → IsReady f g
    → pos 1 ≤ℤ scale
    → (fb' : DmFramebuffer) × (w : ℕ) × (dm_font_text_width_n host f none g text ≡ some (w, g))
      × (dm_fb_draw_text_scaled host f g fb x y text fg scale
          ≡ some (record { frame = fb'; x = x +ℤ pos w *ℤ scale; ext = g }))
      × Clipped (shape fb) fb fb'
unfolding dm_font_text_width_n dm_fb_draw_text_scaled Written
draw_text_measured host f g fb x y text fg scale ready l =
    let (fb', w, m, t, k) =
      text_loop-Written (shape fb) fb host f g y fg scale ready (suc (length text)) text fb x 0 0
        (omega arith) (Clipped-refl fb) in
    (
      fb',
      w,
      m ∙ ap (λ u. some (u, g)) (omega arith),
      ap (λ n. text_loop (suc (length text)) host f y fg n text (pen_at fb x g))
            (if_false {b = ltb_ℤ scale (pos 1)} _ _ (ground (arith, l)))
          ∙ t,
      k,
    )

-- A text centred in a rectangle, drawn with a ready font: it begins as far from the left edge as the
-- width that is left over says, halved towards zero, ends its measured width further on, and leaves
-- the memory outside of the clip's pixels.
pub draw_text_centred :
    (host : FontHost) (f : DmFont) (g : Ext) (fb : DmFramebuffer) (bounds : DmRect) (text : List ℕ)
    (fg : DmColor)
    → IsReady f g
    → (fb' : DmFramebuffer) × (w : ℕ) × (dm_font_text_width_n host f none g text ≡ some (w, g))
      × (dm_fb_draw_text_centered host f g fb bounds text fg
          ≡ some (record {
            frame = fb';
            x = bounds.x +ℤ tdiv (bounds.w -ℤ pos w) 2 +ℤ pos w;
            ext = g;
          }))
      × Clipped (shape fb) fb fb'
unfolding dm_fb_draw_text_centered draw_measured dm_fb_draw_text
draw_text_centred host f g fb bounds text fg ready =
    let (_, w, m, _, _) =
      draw_text_measured host f g fb bounds.x bounds.y text fg (pos 1) ready (omega arith) in
    let left = bounds.x +ℤ tdiv (bounds.w -ℤ pos w) 2 in
    let (fb', w', m', t, k) =
      draw_text_measured host f g fb left (bounds.y +ℤ tdiv (bounds.h -ℤ pos f.glyph_h) 2) text fg
        (pos 1) ready (omega arith) in
    let same : w' ≡ w = ap fst_of (some_inj.0 (sym m' ∙ m)) in
    (
      fb',
      w,
      m,
      ap (draw_measured host f fb bounds text fg) m
          ∙ t
          ∙ ap (λ u. some (pen_at fb' u g))
              (eq_of_parts _ _ (omega (int_laws, *ℤ_parts (pos w') (pos 1), same))),
      k,
    )
  where
    fst_of : ℕ × Ext → ℕ
    fst_of q = q.0
