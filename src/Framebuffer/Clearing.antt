-- ===== src/Framebuffer/Clearing.antt =====
-- `dm_fb_clear` of src/core/framebuffer.c sets the first pixels of the memory.
use de_mo_d.Prelude.{
  ℕ, true, false, ◌&&◌, if◌then◌else◌, on_branches, arith, if_true, if_false, ==→eq, ◌==◌, ◌≡◌,
  refl, sym, ◌∙◌, ◌⊎◌, inl, inr,
}
use de_mo_d.Prelude.{
  ℤ, pos, ◌+ℤ◌, ◌*ℤ◌, ◌≤ℤ◌, ◌<ℤ◌, ltb_ℤ, leb_ℤ, eqb_ℤ, eqb_ℤ→ne, eqb_parts, int_laws,
  size_non_negative, leb_ℤ→le, ltb_ℤ→lt,
}
use de_mo_d.Prelude.{Bool-cases, &&-both}
use de_mo_d.Framebuffer.{DmColor, dm_color_pack, DmFramebuffer, zeroed, store, dm_fb_clear}
use de_mo_d.Framebuffer.Loops.{for_below-counts}
use de_mo_d.Framebuffer.Clipping.{shape}

-- The memory after `dm_fb_clear`, and what its loop has stored before index `i`.
unfoldable pub Cleared : DmFramebuffer → ℕ → ℤ → DmFramebuffer → Type 0
Cleared old v n fb =
    (shape fb ≡ shape old)
    × ((i : ℤ) → pos 0 ≤ℤ i → i <ℤ n → fb.pixels i ≡ v)
    × ((i : ℤ) → (i <ℤ pos 0) ⊎ (n ≤ℤ i) → fb.pixels i ≡ old.pixels i)

store_next :
    (old now : DmFramebuffer) (v : ℕ) (i : ℤ)
    → pos 0 ≤ℤ i
    → Cleared old v i now
    → Cleared old v (i +ℤ pos 1) (record now { pixels = store now.pixels i v })
unfolding Cleared
store_next old now v i from_0 (same, below, rest) = (
  same,
  λ j lo hi.
      on_branches (λ u. u ≡ v) (eqb_ℤ j i) (λ _. refl)
        (λ e. below j lo (omega (int_laws, eqb_ℤ→ne j i e))),
  λ j out.
      on_branches (λ u. u ≡ old.pixels j) (eqb_ℤ j i)
        (λ e. absurd (omega (int_laws, from_0, out, eqb_parts j i e))) (λ e. rest j (wider j out)),
)
  where
    wider : (j : ℤ) → (j <ℤ pos 0) ⊎ (i +ℤ pos 1 ≤ℤ j) → (j <ℤ pos 0) ⊎ (i ≤ℤ j)
    wider j (inl l) = inl l
    wider j (inr l) = inr (omega int_laws)

pub dm_fb_clear-Cleared :
    (fb : DmFramebuffer) (c : DmColor)
    → pos 0 ≤ℤ fb.width *ℤ fb.height
    → Cleared fb (dm_color_pack c) (fb.width *ℤ fb.height) (dm_fb_clear fb c)
unfolding dm_fb_clear Cleared zeroed
dm_fb_clear-Cleared fb c l =
    on_branches (Cleared fb v n) (v == 0)
      (λ e. (
        refl,
        λ i lo hi. if_true _ _ (on i lo hi) ∙ sym (==→eq v 0 e),
        λ i out. if_false _ _ (off i out),
      ))
      (λ _.
        for_below-counts (Cleared fb v) (pos 0) n
          (λ i fb. record fb { pixels = store fb.pixels i v })
          (λ i now lo hi k. store_next fb now v i lo k) fb l
          (refl, (λ i lo hi. absurd (omega arith)), λ i out. refl))
  where
    v : ℕ
    v = dm_color_pack c

    n : ℤ
    n = fb.width *ℤ fb.height

    on : (i : ℤ) → pos 0 ≤ℤ i → i <ℤ n → (leb_ℤ (pos 0) i && ltb_ℤ i n) ≡ true
    on i lo hi = ground (arith, lo, hi)

    off : (i : ℤ) → (i <ℤ pos 0) ⊎ (n ≤ℤ i) → (leb_ℤ (pos 0) i && ltb_ℤ i n) ≡ false
    off i out = ground (arith, out)

-- For sizes that are not negative, `dm_fb_clear` sets the first `width * height` pixels of the memory
-- to the packed colour, by either way, and no others.
pub dm_fb_clear-pixels :
    (fb : DmFramebuffer) (c : DmColor) (i : ℤ)
    → pos 0 ≤ℤ fb.width
    → pos 0 ≤ℤ fb.height
    → (dm_fb_clear fb c).pixels i ≡ (
        if leb_ℤ (pos 0) i && ltb_ℤ i (fb.width *ℤ fb.height) then dm_color_pack c else fb.pixels i)
unfolding Cleared
dm_fb_clear-pixels fb c i lw lh =
    let (_, set, rest) = dm_fb_clear-Cleared fb c (size_non_negative fb.width fb.height lw lh) in
    elim (Bool-cases (leb_ℤ (pos 0) i && ltb_ℤ i (fb.width *ℤ fb.height))) [
      | inl e ↦
          (let (a, b) = &&-both (leb_ℤ (pos 0) i) (ltb_ℤ i (fb.width *ℤ fb.height)) e in
            set i (leb_ℤ→le (pos 0) i a) (ltb_ℤ→lt i (fb.width *ℤ fb.height) b))
          ∙ sym (if_true _ _ e)
      | inr e ↦ rest i (out e) ∙ sym (if_false _ _ e)
    ]
  where
    out :
        (leb_ℤ (pos 0) i && ltb_ℤ i (fb.width *ℤ fb.height)) ≡ false
        → (i <ℤ pos 0) ⊎ (fb.width *ℤ fb.height ≤ℤ i)
    out e = ground (arith, e)
