-- ===== src/Framebuffer/Clipping.antt =====
-- The operations of src/core/framebuffer.c change nothing outside of the clip.
pub mod Rows
pub mod Way
pub mod Lines
pub mod Blits
pub mod Rounded
pub mod Scaled
pub mod Triangles
pub mod Curves
use mathlib.Core.Path.{subst}
use de_mo_d.Prelude.{leb_ℤ→le, ltb_ℤ→lt, le→leb_ℤ, lt→ltb_ℤ, ltb_ℤ→le, leb_ℤ→lt, below_count}
use de_mo_d.Prelude.{
  ℕ, zero, suc, ◌+◌, ◌<◌, ◌==◌, if◌then◌else◌, Bool, true, false, ◌&&◌, ◌||◌, Bool-cases,
  on_branches, if_true, if_false, arith,
}
use de_mo_d.Prelude.{◌≡◌, ◌≢◌, refl, sym, ap, ◌∙◌, inl, inr}
use de_mo_d.Prelude.{
  ℤ, pos, pos_part, ◌+ℤ◌, ◌-ℤ◌, ◌*ℤ◌, ◌≤ℤ◌, ◌<ℤ◌, ◌=ℤ◌, neg_part, ltb_ℤ, leb_ℤ, eqb_ℤ, int_laws,
  eqb_ℤ→eq, index_injective,
}
use de_mo_d.Framebuffer.{
  DmColor, dm_color_pack, DmRect, dm_rect_contains, DmFramebuffer, store, rounds_up, for_below,
  for_to, set_pixel, pixel, blend_pixel, blend_at, dm_fb_put_pixel, row_run, hline_sorted,
  dm_fb_hline, column_run, vline_sorted, dm_fb_vline, dm_rect_intersect, dm_fb_fill_rect,
  stroke_ring, dm_fb_stroke_rect, max_ℤ, min_ℤ,
}
use de_mo_d.Framebuffer.Regions.{
  Inside, contains→Inside, Inside→contains, neither, max_above, min_below, intersect_Inside,
  Inside-intersect,
}

-- A frame, less its pixels.
pub record Shape : Type 0 where
  pub width : ℤ
  pub height : ℤ
  pub stride : ℤ
  pub clip : DmRect
  pub owns_buffer : Bool

abbrev pub shape : DmFramebuffer → Shape
shape fb = record {
  width = fb.width;
  height = fb.height;
  stride = fb.stride;
  clip = fb.clip;
  owns_buffer = fb.owns_buffer;
}

-- The clip is inside the frame, and a row is inside its stride.
pub record IsFramed (s : Shape) : Type 0 where
  pub across : pos 0 ≤ℤ s.width
  pub down : pos 0 ≤ℤ s.height
  pub left : pos 0 ≤ℤ s.clip.x
  pub right : s.clip.x +ℤ s.clip.w ≤ℤ s.width
  pub top : pos 0 ≤ℤ s.clip.y
  pub bottom : s.clip.y +ℤ s.clip.h ≤ℤ s.height
  pub wide : s.width ≤ℤ s.stride

-- `fb` is `old` with other pixels in the clip of the shape `s`: the memory at an index that no pixel of
-- the clip has is the same.
pub record Clipped (s : Shape) (old fb : DmFramebuffer) : Type 0 where
  pub same : shape fb ≡ s
  pub untouched :
      (i : ℤ)
      → ((x y : ℤ) → dm_rect_contains s.clip x y ≡ true → i ≢ y *ℤ s.stride +ℤ x)
      → fb.pixels i ≡ old.pixels i

pub Clipped-refl : (fb : DmFramebuffer) → Clipped (shape fb) fb fb
Clipped-refl fb = record { same = refl; untouched = λ i out. refl }

-- Operations on a framebuffer of a shape.
module _ (s : Shape) (old : DmFramebuffer) where
  pub set_pixel-Clipped :
      (x y : ℤ) (v : ℕ) (fb : DmFramebuffer)
      → dm_rect_contains s.clip x y ≡ true
      → Clipped s old fb
      → Clipped s old (set_pixel fb x y v)
  unfolding set_pixel
  set_pixel-Clipped x y v fb inside k = record {
    same = k.same;
    untouched = λ i out.
        on_branches (λ u. u ≡ old.pixels i) (eqb_ℤ i (y *ℤ fb.stride +ℤ x))
          (λ e. absurd (
            out x y inside (
              eqb_ℤ→eq i (y *ℤ fb.stride +ℤ x) e
              ∙ ap (λ t. y *ℤ t +ℤ x) (ap (λ t. t.stride) k.same))))
          (λ _. k.untouched i out);
  }

  pub blend_at-Clipped :
      (c : DmColor) (x y : ℤ) (fb : DmFramebuffer)
      → dm_rect_contains s.clip x y ≡ true
      → Clipped s old fb
      → Clipped s old (blend_at c x y fb)
  unfolding blend_at
  blend_at-Clipped c x y fb inside k =
      set_pixel-Clipped x y (blend_pixel (pixel fb x y) c) fb inside k

  pub dm_fb_put_pixel-Clipped :
      (fb : DmFramebuffer) (x y : ℤ) (c : DmColor)
      → Clipped s old fb
      → Clipped s old (dm_fb_put_pixel fb x y c)
  unfolding dm_fb_put_pixel
  dm_fb_put_pixel-Clipped fb x y c k =
      on_branches (Clipped s old) (dm_rect_contains fb.clip x y)
        (λ inside.
          blend_at-Clipped c x y fb (subst (λ t. dm_rect_contains t.clip x y ≡ true) k.same inside)
            k)
        (λ _. k)
