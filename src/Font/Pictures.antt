-- ===== src/Font/Pictures.antt =====
-- With a ready font, src/core/font.c has a picture for each code point, as wide as it measures it.
use mathlib.Core.Option.{some_inj}
use native.Mathlib.Nat.{mul-le-mul_right, add-mul}
use de_mo_d.Prelude.{
  ℕ, suc, ◌+◌, ◌-◌, ◌*◌, ◌≤◌, ltb, leb, if◌then◌else◌, Bool, true, false, ◌&&◌, none, some, List,
  length, take, drop, on_branches, arith, ◌≡◌, ◌≢◌, refl, ap, ◌∙◌, inl, inr, Option-cases,
  Bool-cases, if_true, if_false, &&-both, ltb→lt,
}
use de_mo_d.Prelude.{&&-both, ltb→lt}
use de_mo_d.Font.{
  Ext, FontHost, BlobState, untried, loaded, unavailable, Glyph, missing, found, out_of_bounds,
  autoload_in, ext_autoload, lookup_glyph, ext_glyph, DmFont, advance_of, dm_font_cp_advance,
}
use de_mo_d.Font.Drawing.{
  Picture, blank, bitmap, bytes_per_row, read_bitmap, picture_of, picture, picture_width,
}

-- The blob has been tried, the font's bitmap holds its glyphs, and so does the blob those that it
-- names.
pub record IsReady (f : DmFont) (g : Ext) : Type 0 where
  pub tried : g.state ≢ untried
  pub whole_table : f.num_glyphs * f.glyph_h ≤ length f.bits
  pub whole_glyphs : (cp : ℕ) → picture_of f g (lookup_glyph g cp) ≢ none

autoload_in_tried :
    (st : BlobState) (host : FontHost) (g : Ext) → st ≢ untried → autoload_in st host g ≡ g
unfolding autoload_in
autoload_in_tried untried host g h = absurd (h refl)
autoload_in_tried loaded host g h = refl
autoload_in_tried unavailable host g h = refl

-- The glyph that a ready font answers for a code point, and the blob as it was.
ext_glyph_tried :
    (host : FontHost) (g : Ext) (cp : ℕ)
    → g.state ≢ untried
    → ext_glyph host g cp ≡ (if ltb 65535 cp then missing else lookup_glyph g cp, g)
unfolding ext_glyph ext_autoload
ext_glyph_tried host g cp h =
    ap (λ e. if ltb 65535 cp then (missing, g) else (lookup_glyph e cp, e))
      (autoload_in_tried g.state host g h)
    ∙ if_pair (ltb 65535 cp) missing (lookup_glyph g cp) g
  where
    if_pair :
        (c : Bool) (a b : Glyph) (g : Ext)
        → ◌≡◌ {A = Glyph × Ext} (if c then (a, g) else (b, g)) (if c then a else b, g)
    if_pair true a b g = refl
    if_pair false a b g = refl

-- Each code point has a picture, whose width is the measured advance.
pub record Pictured (host : FontHost) (f : DmFont) (g : Ext) (cp : ℕ) : Type 0 where
  pub shown : Picture
  pub is_shown : picture host f g cp ≡ (some shown, g)
  pub measured : dm_font_cp_advance host f g cp ≡ (picture_width f shown, g)

read_bitmap-some :
    (fw : Bool) (b : List ℕ) (off n : ℕ)
    → off + n ≤ length b
    → read_bitmap fw b off n ≡ some (bitmap fw (take n (drop off b)))
unfolding read_bitmap
read_bitmap-some fw b off n h = if_true {b = leb (off + n) (length b)} _ _ (ground (arith, h))

read_bitmap-width :
    (f : DmFont) (fw : Bool) (b : List ℕ) (off n : ℕ) (v : Picture)
    → read_bitmap fw b off n ≡ some v
    → f.glyph_w * bytes_per_row fw ≡ picture_width f v
unfolding read_bitmap picture_width
read_bitmap-width f fw b off n v =
    on_branches (λ o. o ≡ some v → f.glyph_w * bytes_per_row fw ≡ picture_width f v)
      (leb (off + n) (length b)) (λ _ e. ap (picture_width f) (some_inj.0 e)) (λ _ e. absurd (cc e))

advance_of-picture_of :
    (f : DmFont) (g : Ext) (r : Glyph) (v : Picture)
    → picture_of f g r ≡ some v
    → advance_of f r ≡ picture_width f v
unfolding advance_of picture_of
advance_of-picture_of f g missing v e = unfold picture_width in ap (picture_width f) (some_inj.0 e)
advance_of-picture_of f g out_of_bounds v e = absurd (cc e)
advance_of-picture_of f g (found true at) v e =
    read_bitmap-width f true g.content at (f.glyph_h * 2) v e
advance_of-picture_of f g (found false at) v e =
    omega (arith, read_bitmap-width f false g.content at (f.glyph_h * 1) v e)

pub picture-Pictured :
    (host : FontHost) (f : DmFont) (g : Ext) (cp : ℕ) → IsReady f g → Pictured host f g cp
unfolding picture dm_font_cp_advance picture_width
picture-Pictured host f g cp ready = elim (Bool-cases (ltb cp 128)) [
  | inl e ↦ elim (Bool-cases (leb f.first_cp cp && ltb (cp - f.first_cp) f.num_glyphs)) [
    | inl i ↦ record {
      shown = bitmap false (take f.glyph_h (drop ((cp - f.first_cp) * f.glyph_h) f.bits));
      is_shown =
          if_true _ _ e
          ∙ ap (λ o. (o, g))
              (if_true _ _ i
                ∙ read_bitmap-some false f.bits ((cp - f.first_cp) * f.glyph_h) f.glyph_h
                    (in_table i));
      measured = if_true _ _ e ∙ ap (λ w. (w, g)) (omega arith);
    }
    | inr o ↦ record {
      shown = blank;
      is_shown = if_true _ _ e ∙ ap (λ o. (o, g)) (if_false _ _ o);
      measured = if_true _ _ e;
    }
  ]
  | inr e ↦ elim (Option-cases (picture_of f g r)) [
    | inl n ↦ absurd (
        on_branches (λ r. picture_of f g r ≡ none → ⊥) (ltb 65535 cp)
          (λ _ n. unfold picture_of in cc n) (λ _ n. ready.whole_glyphs cp n) n)
    | inr (v, ev) ↦ record {
      shown = v;
      is_shown =
          if_false _ _ e
          ∙ ap (λ q. (picture_of f q.1 q.0, q.1)) (ext_glyph_tried host g cp ready.tried)
          ∙ ap (λ o. (o, g)) ev;
      measured =
          if_false _ _ e
          ∙ ap (λ q. (advance_of f q.0, q.1)) (ext_glyph_tried host g cp ready.tried)
          ∙ ap (λ w. (w, g)) (advance_of-picture_of f g r v ev);
    }
  ]
]
  where
    r : Glyph
    r = if ltb 65535 cp then missing else lookup_glyph g cp

    in_table :
        (leb f.first_cp cp && ltb (cp - f.first_cp) f.num_glyphs) ≡ true
        → (cp - f.first_cp) * f.glyph_h + f.glyph_h ≤ length f.bits
    in_table i =
        let (_, l) = &&-both (leb f.first_cp cp) (ltb (cp - f.first_cp) f.num_glyphs) i in
        omega (
          arith,
          ready.whole_table,
          mul-le-mul_right {m = suc (cp - f.first_cp)} {n = f.num_glyphs} f.glyph_h
              (ltb→lt (cp - f.first_cp) f.num_glyphs l),
          add-mul 1 (cp - f.first_cp) f.glyph_h,
        )
