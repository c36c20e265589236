-- ===== src/Framebuffer/Painted.antt =====
-- Which pixels src/core/framebuffer.c has painted, one more at a time and by rows.
use mathlib.Core.Path.{subst}
use de_mo_d.Prelude.{
  ℕ, true, false, on_branches, arith, ◌==◌, ◌≡◌, refl, sym, ap, ◌∙◌, ◌⊎◌, inl, inr, if_true,
}
use de_mo_d.Prelude.{
  ℤ, pos, ◌+ℤ◌, ◌*ℤ◌, ◌≤ℤ◌, ◌<ℤ◌, ◌=ℤ◌, ltb_ℤ, eqb_ℤ, eqb_ℤ→eq, eqb_ℤ_refl, int_laws,
  index_injective, ltb_ℤ→lt, ltb_ℤ→le,
}
use de_mo_d.Prelude.{Bool-cases, eq_of_parts}
use de_mo_d.Framebuffer.{
  DmColor, dm_color_pack, DmFramebuffer, for_to, pixel, set_pixel, blend_pixel, blend_at, row_run,
}
use de_mo_d.Framebuffer.Loops.{for_below-counts}
use de_mo_d.Framebuffer.Clipping.{shape, Shape}

-- `fb` is `old` with the pixels of the region `P` blended with `c`.
pub record Painted (s : Shape) (old : DmFramebuffer) (c : DmColor) (P : ℤ → ℤ → Type 0)
    (fb : DmFramebuffer) : Type 0 where
  pub same : shape fb ≡ s
  pub painted :
      (x y : ℤ)
      → pos 0 ≤ℤ x
      → x <ℤ s.stride
      → P x y
      → fb.pixels (y *ℤ s.stride +ℤ x) ≡ blend_pixel (old.pixels (y *ℤ s.stride +ℤ x)) c
  pub others :
      (x y : ℤ)
      → pos 0 ≤ℤ x
      → x <ℤ s.stride
      → (P x y → ⊥)
      → fb.pixels (y *ℤ s.stride +ℤ x) ≡ old.pixels (y *ℤ s.stride +ℤ x)

module _ (s : Shape) (old : DmFramebuffer) (c : DmColor) where
  pub Painted-start :
      shape old ≡ s → (P : ℤ → ℤ → Type 0) → ((x y : ℤ) → P x y → ⊥) → Painted s old c P old
  Painted-start e P none = record {
    same = e;
    painted = λ x y lo hi p. absurd (none x y p);
    others = λ x y lo hi out. refl;
  }

  -- A region with the same points.
  pub Painted-same :
      (P Q : ℤ → ℤ → Type 0) (fb : DmFramebuffer)
      → ((x y : ℤ) → P x y → Q x y)
      → ((x y : ℤ) → Q x y → P x y)
      → Painted s old c P fb
      → Painted s old c Q fb
  Painted-same P Q fb to from k = record {
    same = k.same;
    painted = λ x y lo hi q. k.painted x y lo hi (from x y q);
    others = λ x y lo hi out. k.others x y lo hi (λ p. out (to x y p));
  }

  -- One more pixel.
  Painted-more :
      (P Q : ℤ → ℤ → Type 0) (fb : DmFramebuffer) (a b : ℤ) (v : ℕ)
      → pos 0 ≤ℤ a
      → a <ℤ s.stride
      → (P a b → ⊥)
      → Q a b
      → ((x y : ℤ) → P x y → Q x y)
      → ((x y : ℤ) → Q x y → P x y ⊎ ((x =ℤ a) × (y =ℤ b)))
      → v ≡ blend_pixel (pixel fb a b) c
      → Painted s old c P fb
      → Painted s old c Q (set_pixel fb a b v)
  unfolding set_pixel pixel
  Painted-more P Q fb a b v la ha fresh now more only e k = record {
    same = k.same;
    painted = λ x y lo hi q.
        on_branches (λ u. u ≡ blend_pixel (old.pixels (y *ℤ s.stride +ℤ x)) c)
          (eqb_ℤ (y *ℤ s.stride +ℤ x) (b *ℤ fb.stride +ℤ a))
          (λ h. let (ex, ey) = hit x y lo hi h in here x y ex ey)
          (λ h. elim (only x y q) [
            | inl p ↦ k.painted x y lo hi p
            | inr (ex, ey) ↦ absurd (missed x y ex ey h)
          ]);
    others = λ x y lo hi out.
        on_branches (λ u. u ≡ old.pixels (y *ℤ s.stride +ℤ x))
          (eqb_ℤ (y *ℤ s.stride +ℤ x) (b *ℤ fb.stride +ℤ a))
          (λ h.
            let (ex, ey) = hit x y lo hi h in
            absurd (out (subst (λ u. Q u y) (sym ex) (subst (λ u. Q a u) (sym ey) now))))
          (λ h. k.others x y lo hi (λ p. out (more x y p)));
  }
    where
      stride : fb.stride ≡ s.stride
      stride = ap (λ t. t.stride) k.same

      hit :
          (x y : ℤ)
          → pos 0 ≤ℤ x
          → x <ℤ s.stride
          → eqb_ℤ (y *ℤ s.stride +ℤ x) (b *ℤ fb.stride +ℤ a) ≡ true
          → (x ≡ a) × (y ≡ b)
      hit x y lo hi h =
          index_injective x y a b s.stride lo hi la ha
            (eqb_ℤ→eq (y *ℤ s.stride +ℤ x) (b *ℤ fb.stride +ℤ a) h ∙ ap (λ n. b *ℤ n +ℤ a) stride)

      here : (x y : ℤ) → x ≡ a → y ≡ b → v ≡ blend_pixel (old.pixels (y *ℤ s.stride +ℤ x)) c
      here x y ex ey =
          unfold pixel in
          e
          ∙ ap (λ n. blend_pixel (fb.pixels (b *ℤ n +ℤ a)) c) stride
          ∙ ap (λ u. blend_pixel u c) (k.others a b la ha fresh)
          ∙ ap (λ u. blend_pixel (old.pixels (u *ℤ s.stride +ℤ a)) c) (sym ey)
          ∙ ap (λ u. blend_pixel (old.pixels (y *ℤ s.stride +ℤ u)) c) (sym ex)

      missed :
          (x y : ℤ) → x =ℤ a → y =ℤ b → eqb_ℤ (y *ℤ s.stride +ℤ x) (b *ℤ fb.stride +ℤ a) ≡ false → ⊥
      missed x y ex ey h =
          let same : eqb_ℤ (y *ℤ s.stride +ℤ x) (b *ℤ fb.stride +ℤ a) ≡ true =
            ap (λ u. eqb_ℤ u (b *ℤ fb.stride +ℤ a))
              (ap (λ u. u *ℤ s.stride +ℤ x) (eq_of_parts y b ey)
                ∙ ap (λ u. b *ℤ s.stride +ℤ u) (eq_of_parts x a ex)
                ∙ ap (λ n. b *ℤ n +ℤ a) (sym stride))
            ∙ eqb_ℤ_refl (b *ℤ fb.stride +ℤ a) in
          cc (same, h)

  -- A run of a row whose pixels are not in `P` yet.
  pub row_run-Painted :
      (P : ℤ → ℤ → Type 0) (fb : DmFramebuffer) (x1 x2 y : ℤ)
      → pos 0 ≤ℤ x1
      → x2 <ℤ s.stride
      → x1 ≤ℤ x2
      → ((x y' : ℤ) → y' =ℤ y → P x y' → ⊥)
      → Painted s old c P fb
      → Painted s old c
          (λ x y'. P x y' ⊎ ((y' =ℤ y) × (x1 ≤ℤ x) × (x ≤ℤ x2)))
          (row_run c x1 x2 y fb)
  unfolding row_run blend_at
  row_run-Painted P fb x1 x2 y l1 l2 l fresh k =
      on_branches (Painted s old c (λ x y'. P x y' ⊎ ((y' =ℤ y) × (x1 ≤ℤ x) × (x ≤ℤ x2))))
        (c.a == 255) (λ e. whole (λ x fb. dm_color_pack c) (λ x fb. opaque (pixel fb x y) e))
        (λ _. whole (λ x fb. blend_pixel (pixel fb x y) c) (λ x fb. refl))
    where
      -- The region before column `i`.
      Upto : ℤ → ℤ → ℤ → Type 0
      Upto i x y' = P x y' ⊎ ((y' =ℤ y) × (x1 ≤ℤ x) × (x <ℤ i))

      opaque : (v : ℕ) → (c.a == 255) ≡ true → dm_color_pack c ≡ blend_pixel v c
      opaque v e = unfold blend_pixel in sym (if_true _ _ e)

      whole :
          (value : ℤ → DmFramebuffer → ℕ)
          → ((x : ℤ) (fb : DmFramebuffer) → value x fb ≡ blend_pixel (pixel fb x y) c)
          → Painted s old c
              (λ x y'. P x y' ⊎ ((y' =ℤ y) × (x1 ≤ℤ x) × (x ≤ℤ x2)))
              (for_to x1 x2 (λ x fb. set_pixel fb x y (value x fb)) fb)
      whole value e =
          Painted-same (Upto (x2 +ℤ pos 1)) (λ x y'. P x y' ⊎ ((y' =ℤ y) × (x1 ≤ℤ x) × (x ≤ℤ x2)))
            (for_to x1 x2 (λ x fb. set_pixel fb x y (value x fb)) fb)
            (λ x y' p. elim p [ inl p ↦ inl p | inr (q, l, h) ↦ inr (q, l, omega int_laws) ])
            (λ x y' p. elim p [ inl p ↦ inl p | inr (q, l, h) ↦ inr (q, l, omega int_laws) ])
            (for_below-counts (λ i. Painted s old c (Upto i)) x1 (x2 +ℤ pos 1)
              (λ x fb. set_pixel fb x y (value x fb))
              (λ i fb lo hi k.
                Painted-more (Upto i) (Upto (i +ℤ pos 1)) fb i y (value i fb) (omega arith)
                  (omega int_laws)
                  (λ p. elim p [ inl p ↦ fresh i y refl p | inr (q, l, h) ↦ omega arith ])
                  (inr (refl, lo, omega int_laws))
                  (λ x y' p. elim p [ inl p ↦ inl p | inr (q, l, h) ↦ inr (q, l, omega int_laws) ])
                  (λ x y' p. elim p [
                    | inl p ↦ inl (inl p)
                    | inr (q, l, h) ↦ elim (Bool-cases (ltb_ℤ x i)) [
                      | inl b ↦ inl (inr (q, l, ltb_ℤ→lt x i b))
                      | inr b ↦ inr (omega (int_laws, ltb_ℤ→le x i b), q)
                    ]
                  ])
                  (e i fb) k)
              fb (omega int_laws)
              (Painted-same P (Upto x1) fb (λ x y' p. inl p)
                (λ x y' p. elim p [ inl p ↦ p | inr (q, l, h) ↦ absurd (omega arith) ]) k))
