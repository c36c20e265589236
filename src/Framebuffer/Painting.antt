-- ===== src/Framebuffer/Painting.antt =====
-- `dm_fb_hline` and `dm_fb_fill_rect` of src/core/framebuffer.c paint what they name, each pixel once.
use mathlib.Core.Path.{subst}
use de_mo_d.Prelude.{
  Bool, true, false, ◌&&◌, ◌||◌, if◌then◌else◌, on_branches, arith, ◌≡◌, refl, sym, ap, ◌∙◌, ◌⊎◌,
  inl, inr, if_true, if_false,
}
use de_mo_d.Prelude.{
  ℤ, pos, pos_part, neg_part, ◌+ℤ◌, ◌-ℤ◌, ◌*ℤ◌, ◌≤ℤ◌, ◌<ℤ◌, ◌=ℤ◌, ltb_ℤ, leb_ℤ, int_laws, ltb_ℤ→lt,
  ltb_ℤ→le, leb_ℤ→lt, leb_ℤ→le,
}
use de_mo_d.Prelude.{Bool-cases, &&-both}
use de_mo_d.Framebuffer.{
  DmColor, DmRect, dm_rect_contains, dm_rect_intersect, DmFramebuffer, for_below, pixel,
  blend_pixel, row_run, hline_sorted, dm_fb_hline, dm_fb_fill_rect,
}
use de_mo_d.Framebuffer.Painted.{Painted, Painted-start, Painted-same, row_run-Painted}
use de_mo_d.Framebuffer.Regions.{
  intersect_Inside, Inside-intersect, Inside, contains→Inside, Inside→contains, neither,
}
use de_mo_d.Framebuffer.Loops.{for_below-counts}
use de_mo_d.Framebuffer.Clipping.{shape, IsFramed}

-- A row in the clip is not clamped.
hline-in_clip :
    (fb : DmFramebuffer) (x1 x2 y : ℤ) (c : DmColor)
    → fb.clip.x ≤ℤ x1
    → x1 ≤ℤ x2
    → x2 <ℤ fb.clip.x +ℤ fb.clip.w
    → fb.clip.y ≤ℤ y
    → y <ℤ fb.clip.y +ℤ fb.clip.h
    → dm_fb_hline fb x1 x2 y c ≡ row_run c x1 x2 y fb
unfolding dm_fb_hline hline_sorted
hline-in_clip fb x1 x2 y c l m h t b =
    on_branches (λ r. r ≡ row_run c x1 x2 y fb)
      (ltb_ℤ y fb.clip.y || leb_ℤ (fb.clip.y +ℤ fb.clip.h) y)
      (λ e. absurd (ground (arith, t, b, e)))
      (λ _.
        on_branches (λ r. r ≡ row_run c x1 x2 y fb) (ltb_ℤ x2 x1)
          (λ e. absurd (omega (arith, m, ltb_ℤ→lt x2 x1 e)))
          (λ _.
            on_branches (λ r. r ≡ row_run c x1 x2 y fb) (ltb_ℤ hi lo)
              (λ e. absurd (
                omega (
                  arith,
                  m,
                  ltb_ℤ→lt hi lo e,
                  ap pos_part lo_same,
                  ap neg_part lo_same,
                  ap pos_part hi_same,
                  ap neg_part hi_same,
                )))
              (λ _. ap (λ u. row_run c u hi y fb) lo_same ∙ ap (λ u. row_run c x1 u y fb) hi_same)))
  where
    lo : ℤ
    lo = if ltb_ℤ x1 fb.clip.x then fb.clip.x else x1

    hi : ℤ
    hi = if leb_ℤ (fb.clip.x +ℤ fb.clip.w) x2 then fb.clip.x +ℤ fb.clip.w -ℤ pos 1 else x2

    lo_same : lo ≡ x1
    lo_same =
        on_branches (λ u. u ≡ x1) (ltb_ℤ x1 fb.clip.x)
          (λ e. absurd (omega (arith, l, ltb_ℤ→lt x1 fb.clip.x e))) (λ _. refl)

    hi_same : hi ≡ x2
    hi_same =
        on_branches (λ u. u ≡ x2) (leb_ℤ (fb.clip.x +ℤ fb.clip.w) x2)
          (λ e. absurd (omega (arith, h, leb_ℤ→le (fb.clip.x +ℤ fb.clip.w) x2 e))) (λ _. refl)

-- `dm_fb_fill_rect` paints the meet of the rectangle and the clip.
fill_rect-Painted :
    (fb : DmFramebuffer) (r : DmRect) (c : DmColor)
    → IsFramed (shape fb)
    → Painted (shape fb) fb c (Inside (dm_rect_intersect r fb.clip)) (dm_fb_fill_rect fb r c)
unfolding dm_fb_fill_rect
fill_rect-Painted fb r c framed =
    on_branches (Painted (shape fb) fb c (Inside m)) (leb_ℤ m.w (pos 0) || leb_ℤ m.h (pos 0))
      (λ empty.
        Painted-start (shape fb) fb c refl (Inside m)
          (λ x y i. no_room x y i.left i.right i.top i.bottom empty))
      (λ full.
        let (w, h) = neither (leb_ℤ m.w (pos 0)) (leb_ℤ m.h (pos 0)) full in
        all_rows (leb_ℤ→lt m.w (pos 0) w) (leb_ℤ→lt m.h (pos 0) h))
  where
    m : DmRect
    m = dm_rect_intersect r fb.clip

    right : ℤ
    right = m.x +ℤ m.w -ℤ pos 1

    -- The rows before row `j`.
    Rows : ℤ → ℤ → ℤ → Type 0
    Rows j x y = (m.x ≤ℤ x) × (x ≤ℤ right) × (m.y ≤ℤ y) × (y <ℤ j)

    no_room :
        (x y : ℤ)
        → m.x ≤ℤ x
        → x <ℤ m.x +ℤ m.w
        → m.y ≤ℤ y
        → y <ℤ m.y +ℤ m.h
        → (leb_ℤ m.w (pos 0) || leb_ℤ m.h (pos 0)) ≡ true
        → ⊥
    no_room x y l r t b e = elim (Bool-cases (leb_ℤ m.w (pos 0))) [
      | inl w ↦ omega (int_laws, leb_ℤ→le m.w (pos 0) w)
      | inr w ↦ elim (Bool-cases (leb_ℤ m.h (pos 0))) [
        | inl h ↦ omega (int_laws, leb_ℤ→le m.h (pos 0) h)
        | inr h ↦ cc (e, ap (λ p. p || leb_ℤ m.h (pos 0)) w, h)
      ]
    ]

    -- A pixel of the meet, in the clip of what is drawn so far.
    in_clip :
        (now : DmFramebuffer) (x y : ℤ) → shape now ≡ shape fb → Inside m x y → Inside now.clip x y
    in_clip now x y e i =
        subst (λ t. Inside t.clip x y) (sym e) ((intersect_Inside r fb.clip x y i).1)

    next_row :
        (y : ℤ) (now : DmFramebuffer)
        → pos 0 <ℤ m.w
        → m.y ≤ℤ y
        → y <ℤ m.y +ℤ m.h
        → Painted (shape fb) fb c (Rows y) now
        → Painted (shape fb) fb c (Rows (y +ℤ pos 1)) (dm_fb_hline now m.x right y c)
    next_row y now w lo hi k =
        let first : Inside m m.x y = record {
          left = omega arith;
          right = omega (int_laws, w);
          top = lo;
          bottom = hi;
        } in
        let last : Inside m right y = record {
          left = omega (int_laws, w);
          right = omega int_laws;
          top = lo;
          bottom = hi;
        } in
        let a = in_clip now m.x y k.same first in
        let b = in_clip now right y k.same last in
        let l = in_clip fb m.x y refl first in
        let h = in_clip fb right y refl last in
        subst (Painted (shape fb) fb c (Rows (y +ℤ pos 1)))
          (sym
            (hline-in_clip now m.x right y c a.left (omega (int_laws, w)) b.right a.top a.bottom))
          (Painted-same (shape fb) fb c
            (λ x y'. Rows y x y' ⊎ ((y' =ℤ y) × (m.x ≤ℤ x) × (x ≤ℤ right))) (Rows (y +ℤ pos 1))
            (row_run c m.x right y now)
            (λ x y' p. elim p [
              | inl (p, q, t, b) ↦ (p, q, t, omega int_laws)
              | inr (e, p, q) ↦ (p, q, omega (arith, lo, e), omega (int_laws, e))
            ])
            (λ x y' (p, q, t, b). elim (Bool-cases (ltb_ℤ y' y)) [
              | inl e ↦ inl (p, q, t, ltb_ℤ→lt y' y e)
              | inr e ↦ inr (omega (int_laws, b, ltb_ℤ→le y' y e), p, q)
            ])
            (row_run-Painted (shape fb) fb c (Rows y) now m.x right y
              (omega (arith, l.left, framed.left))
              (omega (arith, h.right, framed.right, framed.wide)) (omega (int_laws, w))
              (λ x y' e (p, q, t, b). omega (arith, e, b)) k))

    all_rows :
        pos 0 <ℤ m.w
        → pos 0 <ℤ m.h
        → Painted
            (shape fb)
            fb
            c
            (Inside m)
            (for_below m.y (m.y +ℤ m.h) (λ y fb. dm_fb_hline fb m.x right y c) fb)
    all_rows w h =
        Painted-same (shape fb) fb c (Rows (m.y +ℤ m.h)) (Inside m)
          (for_below m.y (m.y +ℤ m.h) (λ y fb. dm_fb_hline fb m.x right y c) fb)
          (λ x y (p, q, t, b). record {
            left = p;
            right = omega (int_laws, q);
            top = t;
            bottom = b;
          })
          (λ x y i. (i.left, omega (int_laws, i.right), i.top, i.bottom))
          (for_below-counts (λ j. Painted (shape fb) fb c (Rows j)) m.y (m.y +ℤ m.h)
            (λ y fb. dm_fb_hline fb m.x right y c) (λ y now lo hi k. next_row y now w lo hi k) fb
            (omega (int_laws, h))
            (Painted-start (shape fb) fb c refl (Rows m.y)
              (λ x y (p, q, t, b). omega (arith, t, b))))

-- On a framebuffer whose clip is inside of its frame, `dm_fb_fill_rect` blends the colour over each
-- pixel that is in the rectangle and in the clip, once, also where it takes the way for opaque
-- colours. Each other pixel of the rows is as before.
pub dm_fb_fill_rect-pixel :
    (fb : DmFramebuffer) (r : DmRect) (c : DmColor) (x y : ℤ)
    → IsFramed (shape fb)
    → pos 0 ≤ℤ x
    → x <ℤ fb.stride
    → pixel (dm_fb_fill_rect fb r c) x y ≡ (
        if dm_rect_contains r x y && dm_rect_contains fb.clip x y
        then blend_pixel (pixel fb x y) c
        else pixel fb x y)
unfolding pixel
dm_fb_fill_rect-pixel fb r c x y framed lo hi =
    let k = fill_rect-Painted fb r c framed in
    let stride : (dm_fb_fill_rect fb r c).stride ≡ fb.stride = ap (λ t. t.stride) k.same in
    ap (λ n. (dm_fb_fill_rect fb r c).pixels (y *ℤ n +ℤ x)) stride
    ∙ (elim (Bool-cases (dm_rect_contains r x y && dm_rect_contains fb.clip x y)) [
      | inl e ↦
          k.painted x y lo hi (
            let (a, b) = &&-both (dm_rect_contains r x y) (dm_rect_contains fb.clip x y) e in
            Inside-intersect r fb.clip x y (contains→Inside r x y a)
              (contains→Inside fb.clip x y b))
          ∙ sym (if_true _ _ e)
      | inr e ↦
          k.others x y lo hi (λ i.
            let (a, b) = intersect_Inside r fb.clip x y i in
            neither_both (Inside→contains r x y a) (Inside→contains fb.clip x y b) e)
          ∙ sym (if_false _ _ e)
    ])
  where
    neither_both : {p q : Bool} → p ≡ true → q ≡ true → (p && q) ≡ false → ⊥
    neither_both {p = p} {q = q} a b e = ground (arith, a, b, e)
