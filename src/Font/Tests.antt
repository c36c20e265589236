-- ===== src/Font/Tests.antt =====
-- Runs of the decoder, the measures and the glyph lookup of src/core/font.c.
use de_mo_d.Prelude.{zero, suc, ◌≤◌}
use de_mo_d.Prelude.{
  ℕ, ◌^◌, ◌+◌, arith, length, ◌≡◌, refl, none, some, List, [], ◌∷◌, ◌++◌, ◌⊎◌, inl, ◌↔◌,
}
use de_mo_d.Font.{
  dm_utf8_decode, is_tail, decode_three, dm_utf8_len, dm_font_text_width_n, Ext, FontHost, DmFont,
  dm_font_load_ext, ext_glyph, out_of_bounds, invalid, unavailable, le32,
}
use de_mo_d.Prelude.{true, pos, ◌+ℤ◌, ◌-ℤ◌, ◌*ℤ◌, tdiv}
use de_mo_d.Framebuffer.{DmColor, DmFramebuffer, frame_of, rect}
use de_mo_d.Framebuffer.Clipping.{Clipped, shape}
use de_mo_d.Font.{lookup_glyph}
use de_mo_d.Font.Drawing.{picture_of, dm_fb_draw_text_scaled, dm_fb_draw_text_centered}
use de_mo_d.Font.Pictures.{IsReady}
use de_mo_d.Font.Pen.{draw_text_measured, draw_text_centred}
use de_mo_d.Font.Utf8.{encode, dm_utf8_decode-encode}
use de_mo_d.Font.Text.{encode_all, advances, text_measures}
use de_mo_d.Font.Forms.{IsRead}
use de_mo_d.Font.Strict.{dm_utf8_decode_strict}
use de_mo_d.Font.Blob.{page_of, InBlob, dm_font_load_ext-IsBlob, ext_glyph-out_of_bounds}

-- The Euro sign, then an "A".
euro_decodes : dm_utf8_decode (226 ∷ 130 ∷ 172 ∷ 65 ∷ []) ≡ (8364, 3)
unfolding dm_utf8_decode decode_three is_tail
euro_decodes = refl

-- A surrogate is refused.
surrogate_is_invalid : dm_utf8_decode (237 ∷ 160 ∷ 128 ∷ []) ≡ invalid
unfolding dm_utf8_decode decode_three is_tail
surrogate_is_invalid = refl

dm_utf8_decode-encode_example :
    dm_utf8_decode (encode 8364 ++ 65 ∷ []) ≡ (8364, length (encode 8364))
dm_utf8_decode-encode_example =
    dm_utf8_decode-encode 8364 (65 ∷ []) (omega arith, inl (omega arith), omega arith)

dm_utf8_decode_strict_example :
    (dm_utf8_decode (195 ∷ 169 ∷ []) ≡ invalid)
    ⊎ IsRead (dm_utf8_decode (195 ∷ 169 ∷ [])) (195 ∷ 169 ∷ [])
dm_utf8_decode_strict_example =
    dm_utf8_decode_strict (195 ∷ 169 ∷ []) (omega arith, (omega arith, tt)) (omega arith)

abbrev three : List ℕ
three = 72 ∷ 233 ∷ 8364 ∷ []

abbrev bare : Ext
bare = record { content = []; heap_base = 0; heap_size = 0; state = unavailable }

abbrev nothing : FontHost
nothing = record { demod_font = none; home = none; file = λ p. none }

abbrev eight : DmFont
eight = record { bits = []; first_cp = 32; num_glyphs = 0; glyph_w = 8; glyph_h = 16 }

text_measures_example :
    (dm_utf8_len (encode_all three) ≡ some (length three))
    × (dm_font_text_width_n nothing eight none bare (encode_all three)
        ≡ some (advances nothing eight bare three 0))
text_measures_example = text_measures nothing eight bare three (
  (omega arith, inl (omega arith), omega arith),
  (
    (omega arith, inl (omega arith), omega arith),
    ((omega arith, inl (omega arith), omega arith), tt),
  ),
)

abbrev copies : ℕ → ℕ → List ℕ
copies zero x = []
copies (suc n) x = x ∷ copies n x

-- A blob whose first table sends every page to offset 2^32 - 1.
abbrev corrupt : List ℕ
corrupt = 68 ∷ 77 ∷ 70 ∷ 49 ∷ 1 ∷ 16 ∷ (copies 10 0 ++ copies 1024 255)

ext_glyph-out_of_bounds_example :
    (((ext_glyph nothing (dm_font_load_ext (some corrupt) bare).1 233).0 ≡ out_of_bounds)
      ↔ (2 ^ 32 ≤ page_of (dm_font_load_ext (some corrupt) bare).1 233 + 1024))
    × InBlob
        (dm_font_load_ext (some corrupt) bare).1
        (ext_glyph nothing (dm_font_load_ext (some corrupt) bare).1 233).0
ext_glyph-out_of_bounds_example =
    ext_glyph-out_of_bounds nothing (dm_font_load_ext (some corrupt) bare).1 233
      (dm_font_load_ext-IsBlob corrupt bare (unfold dm_font_load_ext in refl)) (omega arith)
      (unfold dm_font_load_ext le32 in omega arith) (unfold dm_font_load_ext in omega arith)

-- A font of one glyph with two rows.
abbrev letter : DmFont
letter = record { bits = 129 ∷ 24 ∷ []; first_cp = 65; num_glyphs = 1; glyph_w = 8; glyph_h = 2 }

letter-IsReady : IsReady letter bare
letter-IsReady = record {
  tried = λ e. absurd (cc e);
  whole_table = omega arith;
  whole_glyphs = λ cp e. unfold picture_of lookup_glyph in absurd (cc e);
}

abbrev ink : DmColor
ink = record { r = 1; g = 2; b = 3; a = 255 }

abbrev canvas : DmFramebuffer
canvas = frame_of (λ i. 0) (pos 20) (pos 4) (pos 20) true

-- "A", a two-byte code point that has no glyph, and a control character.
abbrev mixed : List ℕ
mixed = 65 ∷ 195 ∷ 169 ∷ 10 ∷ []

draw_text_measured_example :
    (fb' : DmFramebuffer) × (w : ℕ) × (dm_font_text_width_n nothing letter none bare mixed
      ≡ some (w, bare))
    × (dm_fb_draw_text_scaled nothing letter bare canvas (pos 1) (pos 0) mixed ink (pos 2)
        ≡ some (record { frame = fb'; x = pos 1 +ℤ pos w *ℤ pos 2; ext = bare }))
    × Clipped (shape canvas) canvas fb'
draw_text_measured_example =
    draw_text_measured nothing letter bare canvas (pos 1) (pos 0) mixed ink (pos 2) letter-IsReady
      (omega arith)

draw_text_centred_example :
    (fb' : DmFramebuffer) × (w : ℕ) × (dm_font_text_width_n nothing letter none bare mixed
      ≡ some (w, bare))
    × (dm_fb_draw_text_centered nothing letter bare canvas
          (rect (pos 0) (pos 0) (pos 20) (pos 4))
          mixed
          ink
        ≡ some (record { frame = fb'; x = pos 0 +ℤ tdiv (pos 20 -ℤ pos w) 2 +ℤ pos w; ext = bare }))
    × Clipped (shape canvas) canvas fb'
draw_text_centred_example =
    draw_text_centred nothing letter bare canvas (rect (pos 0) (pos 0) (pos 20) (pos 4)) mixed ink
      letter-IsReady
