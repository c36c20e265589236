-- ===== src/Font/Drawing.antt =====
-- The drawing of src/core/font.c, on the framebuffer of src/core/framebuffer.c. `none` is a read outside
-- of a bitmap or of the blob.
use Prim.Native.Nat.{bit_and}
use de_mo_d.Prelude.{
  ℕ, zero, suc, ◌+◌, ◌-◌, ◌*◌, ◌/◌, ◌^◌, ◌==◌, ltb, leb, if◌then◌else◌, Bool, true, false, ◌&&◌,
  Option, none, some, List, length, take, drop,
}
use de_mo_d.Prelude.{ℤ, pos, pos_part, ◌+ℤ◌, ◌-ℤ◌, ◌*ℤ◌, ltb_ℤ, eqb_ℤ, tdiv}
use de_mo_d.Framebuffer.{
  DmColor, DmRect, rect, DmFramebuffer, for_below, rounds_up, dm_fb_put_pixel, dm_fb_fill_rect,
}
use de_mo_d.Framebuffer.Lines.{◌>>=◌}
use de_mo_d.Font.{
  byte_at, dm_utf8_decode, Ext, FontHost, Glyph, missing, found, out_of_bounds, ext_glyph, DmFont,
  dm_font_text_width_n,
}

-- What is drawn for a code point: nothing, a hollow box, or the bytes of the rows.
pub data Picture : Type 0 where
  blank : Picture
  tofu : Picture
  bitmap : Bool → List ℕ → Picture

-- The bytes that a picture has for each row.
abbrev pub bytes_per_row : Bool → ℕ
bytes_per_row true = 2
bytes_per_row false = 1

unfoldable pub read_bitmap : Bool → List ℕ → ℕ → ℕ → Option Picture
read_bitmap fw b off n =
    if leb (off + n) (length b) then some (bitmap fw (take n (drop off b))) else none

unfoldable pub picture_of : DmFont → Ext → Glyph → Option Picture
unfolding read_bitmap
picture_of f g missing = some tofu
picture_of f g out_of_bounds = none
picture_of f g (found fw at) = read_bitmap fw g.content at (f.glyph_h * bytes_per_row fw)

-- The choice of a glyph in `draw_cp_scaled`.
unfoldable pub picture : FontHost → DmFont → Ext → ℕ → Option Picture × Ext
unfolding read_bitmap ext_glyph picture_of
picture host f g cp =
    let idx = cp - f.first_cp in
    let in_table = leb f.first_cp cp && ltb idx f.num_glyphs in
    let (r, g') = ext_glyph host g cp in
    let ascii : Option Picture =
      if in_table then read_bitmap false f.bits (idx * f.glyph_h) f.glyph_h else some blank in
    if ltb cp 128 then (ascii, g) else (picture_of f g' r, g')

-- The hollow box.
unfoldable pub draw_tofu : DmFont → ℤ → ℤ → DmColor → ℤ → DmFramebuffer → DmFramebuffer
unfolding dm_fb_fill_rect
draw_tofu f x y fg scale fb =
    let w = pos f.glyph_w *ℤ scale in
    let h = pos f.glyph_h *ℤ scale in
    let r = rect (x +ℤ scale) (y +ℤ pos 2 *ℤ scale) (w -ℤ pos 2 *ℤ scale) (h -ℤ pos 5 *ℤ scale) in
    let fb1 = dm_fb_fill_rect fb (rect r.x r.y r.w scale) fg in
    let fb2 = dm_fb_fill_rect fb1 (rect r.x (r.y +ℤ r.h -ℤ scale) r.w scale) fg in
    let fb3 = dm_fb_fill_rect fb2 (rect r.x r.y scale r.h) fg in
    dm_fb_fill_rect fb3 (rect (r.x +ℤ r.w -ℤ scale) r.y scale r.h) fg

-- A pixel of a glyph.
unfoldable pub draw_block : DmColor → ℤ → ℤ → ℤ → DmFramebuffer → DmFramebuffer
unfolding dm_fb_put_pixel dm_fb_fill_rect
draw_block fg scale x y fb =
    if eqb_ℤ scale (pos 1)
    then dm_fb_put_pixel fb x y fg
    else dm_fb_fill_rect fb (rect x y scale scale) fg

-- Eight columns of a row.
unfoldable pub draw_byte : DmColor → ℤ → ℕ → ℤ → ℤ → DmFramebuffer → DmFramebuffer
unfolding draw_block rounds_up
draw_byte fg scale bits bx y fb =
    let column : ℤ → DmFramebuffer → DmFramebuffer = λ col fb.
      if bit_and bits (128 / 2 ^ pos_part col) == 0
      then fb
      else draw_block fg scale (bx +ℤ col *ℤ scale) y fb in
    let columns = for_below (pos 0) (pos 8) column fb in if bits == 0 then fb else columns

unfoldable pub draw_bitmap :
    DmFont → Bool → List ℕ → ℤ → ℤ → DmColor → ℤ → DmFramebuffer → DmFramebuffer
unfolding draw_byte rounds_up
draw_bitmap f fw glyph x y fg scale fb =
    let bpr = bytes_per_row fw in
    for_below (pos 0) (pos f.glyph_h)
      (λ row. for_below (pos 0) (pos bpr) (λ b.
        draw_byte fg scale (byte_at glyph (pos_part row * bpr + pos_part b))
          (x +ℤ b *ℤ pos 8 *ℤ scale) (y +ℤ row *ℤ scale)))
      fb

unfoldable pub draw_picture : DmFont → Picture → ℤ → ℤ → DmColor → ℤ → DmFramebuffer → DmFramebuffer
unfolding draw_tofu draw_bitmap
draw_picture f blank x y fg scale fb = fb
draw_picture f tofu x y fg scale fb = draw_tofu f x y fg scale fb
draw_picture f (bitmap fw glyph) x y fg scale fb = draw_bitmap f fw glyph x y fg scale fb

-- The advance of a picture at scale 1.
unfoldable pub picture_width : DmFont → Picture → ℕ
picture_width f (bitmap fw glyph) = f.glyph_w * bytes_per_row fw
picture_width f p = f.glyph_w

-- A text being drawn: where its next code point goes, and the blob.
pub record Pen : Type 0 where
  pub frame : DmFramebuffer
  pub x : ℤ
  pub ext : Ext

unfoldable pub move_pen : DmFont → ℤ → DmColor → ℤ → Pen → Option Picture × Ext → Option Pen
unfolding draw_picture picture_width
move_pen f y fg scale p (none, g) = none
move_pen f y fg scale p (some v, g) = some (record {
  frame = draw_picture f v p.x y fg scale p.frame;
  x = p.x +ℤ pos (picture_width f v) *ℤ scale;
  ext = g;
})

-- `draw_cp_scaled`, with the step of the pen by its result.
unfoldable pub draw_cp_scaled : FontHost → DmFont → ℤ → ℕ → DmColor → ℤ → Pen → Option Pen
unfolding picture move_pen
draw_cp_scaled host f y cp fg scale p = move_pen f y fg scale p (picture host f p.ext cp)

-- The character is an `unsigned char`.
unfoldable pub dm_fb_draw_char :
    FontHost → DmFont → Ext → DmFramebuffer → ℤ → ℤ → ℕ → DmColor → Option Pen
unfolding draw_cp_scaled
dm_fb_draw_char host f g fb x y ch fg =
    draw_cp_scaled host f y ch fg (pos 1) (record { frame = fb; x = x; ext = g })

-- The loop of `dm_fb_draw_text_scaled`; a round consumes a byte, and the last one sees the zero.
unfoldable pub text_loop : ℕ → FontHost → DmFont → ℤ → DmColor → ℤ → List ℕ → Pen → Option Pen
unfolding dm_utf8_decode draw_cp_scaled
text_loop zero host f y fg scale s p = none
text_loop (suc k) host f y fg scale s p =
    let (cp, adv) = dm_utf8_decode s in
    let rest : Pen → Option Pen = text_loop k host f y fg scale (drop adv s) in
    if adv == 0 then some p else (draw_cp_scaled host f y cp fg scale p >>= rest)

unfoldable pub dm_fb_draw_text_scaled :
    FontHost → DmFont → Ext → DmFramebuffer → ℤ → ℤ → List ℕ → DmColor → ℤ → Option Pen
unfolding text_loop
dm_fb_draw_text_scaled host f g fb x y text fg scale =
    text_loop (suc (length text)) host f y fg (if ltb_ℤ scale (pos 1) then pos 1 else scale) text
      (record { frame = fb; x = x; ext = g })

unfoldable pub dm_fb_draw_text :
    FontHost → DmFont → Ext → DmFramebuffer → ℤ → ℤ → List ℕ → DmColor → Option Pen
unfolding dm_fb_draw_text_scaled
dm_fb_draw_text host f g fb x y text fg = dm_fb_draw_text_scaled host f g fb x y text fg (pos 1)

-- Drawn at the place for the measured width.
unfoldable pub draw_measured :
    FontHost → DmFont → DmFramebuffer → DmRect → List ℕ → DmColor → Option (ℕ × Ext) → Option Pen
unfolding dm_fb_draw_text
draw_measured host f fb bounds text fg none = none
draw_measured host f fb bounds text fg (some (tw, g)) =
    dm_fb_draw_text host f g fb (bounds.x +ℤ tdiv (bounds.w -ℤ pos tw) 2)
      (bounds.y +ℤ tdiv (bounds.h -ℤ pos f.glyph_h) 2) text fg

unfoldable pub dm_fb_draw_text_centered :
    FontHost → DmFont → Ext → DmFramebuffer → DmRect → List ℕ → DmColor → Option Pen
unfolding dm_font_text_width_n draw_measured
dm_fb_draw_text_centered host f g fb bounds text fg =
    draw_measured host f fb bounds text fg (dm_font_text_width_n host f none g text)
