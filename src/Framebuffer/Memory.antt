-- ===== src/Framebuffer/Memory.antt =====
-- Sessions of commands of src/core/framebuffer.c stay in the memory of the frame.
use mathlib.Core.Path.{subst}
use mathlib.Core.List.{List, [], ◌∷◌}
use de_mo_d.Prelude.{◌||◌, on_branches, arith, some, ◌≡◌, refl, sym, ap, ◌∙◌, ◌⊎◌, inl, inr}
use de_mo_d.Prelude.{
  ℤ, pos, ◌+ℤ◌, ◌*ℤ◌, ◌≤ℤ◌, ◌<ℤ◌, leb_ℤ, int_laws, index_below, size_mono, size_non_negative,
}
use de_mo_d.Framebuffer.{
  DmColor, DmRect, min_ℤ, max_ℤ, dm_rect_intersect, DmFramebuffer, dm_fb_clear, dm_fb_clip_push,
  dm_fb_clip_reset,
}
use de_mo_d.Framebuffer.Lines.{◌>>=◌}
use de_mo_d.Framebuffer.Floats.{Floats}
use de_mo_d.Framebuffer.Sessions.{Command, drawing, clear, clip_push, clip_reset, step, run}
use de_mo_d.Framebuffer.Regions.{contains→Inside, Inside, max_above, min_below}
use de_mo_d.Framebuffer.Clipping.{shape, IsFramed, Clipped, Clipped-refl}
use de_mo_d.Framebuffer.Clipping.Lines.{Drawn}
use de_mo_d.Framebuffer.Clearing.{Cleared, dm_fb_clear-Cleared}
use de_mo_d.Framebuffer.Drawings.{draw-Drawn}

-- `fb` is `old` with another clip in the frame and other pixels in the memory of the frame.
pub record Kept (old fb : DmFramebuffer) : Type 0 where
  pub same_width : fb.width ≡ old.width
  pub same_height : fb.height ≡ old.height
  pub same_stride : fb.stride ≡ old.stride
  pub framed : IsFramed (shape fb)
  pub outside :
      (i : ℤ) → (i <ℤ pos 0) ⊎ (old.height *ℤ old.stride ≤ℤ i) → fb.pixels i ≡ old.pixels i

Kept-refl : (fb : DmFramebuffer) → IsFramed (shape fb) → Kept fb fb
Kept-refl fb framed = record {
  same_width = refl;
  same_height = refl;
  same_stride = refl;
  framed = framed;
  outside = λ i out. refl;
}

Kept-trans : (a b c : DmFramebuffer) → Kept a b → Kept b c → Kept a c
Kept-trans a b c p q = record {
  same_width = q.same_width ∙ p.same_width;
  same_height = q.same_height ∙ p.same_height;
  same_stride = q.same_stride ∙ p.same_stride;
  framed = q.framed;
  outside = λ i out.
      q.outside i (
        subst (λ n. (i <ℤ pos 0) ⊎ (n ≤ℤ i))
          (ap (λ h. h *ℤ a.stride) (sym p.same_height)
            ∙ ap (λ n. b.height *ℤ n) (sym p.same_stride))
          out)
      ∙ p.outside i out;
}

-- What a drawing leaves has the memory around the frame.
Clipped→Kept :
    (old fb : DmFramebuffer) → IsFramed (shape old) → Clipped (shape old) old fb → Kept old fb
Clipped→Kept old fb framed k = record {
  same_width = ap (λ s. s.width) k.same;
  same_height = ap (λ s. s.height) k.same;
  same_stride = ap (λ s. s.stride) k.same;
  framed = subst IsFramed (sym k.same) framed;
  outside = λ i out.
      k.untouched i (λ x y inside e. off i x y out (contains→Inside old.clip x y inside) e);
}
  where
    off :
        (i x y : ℤ)
        → (i <ℤ pos 0) ⊎ (old.height *ℤ old.stride ≤ℤ i)
        → Inside old.clip x y
        → i ≡ y *ℤ old.stride +ℤ x
        → ⊥
    off i x y out inside e =
        let (low, high) =
          index_below x y old.stride old.height (omega (arith, inside.left, framed.left))
            (omega (arith, inside.right, framed.right, framed.wide))
            (omega (arith, inside.top, framed.top)) (omega (arith, inside.bottom, framed.bottom)) in
        subst (λ j. (j <ℤ pos 0) ⊎ (old.height *ℤ old.stride ≤ℤ j) → ⊥) (sym e)
          (λ out. omega (arith, low, high, out)) out

dm_fb_clear-Kept :
    (fb : DmFramebuffer) (c : DmColor) → IsFramed (shape fb) → Kept fb (dm_fb_clear fb c)
unfolding Cleared
dm_fb_clear-Kept fb c framed =
    let (same, set, rest) =
      dm_fb_clear-Cleared fb c (size_non_negative fb.width fb.height framed.across framed.down) in
    record {
      same_width = ap (λ s. s.width) same;
      same_height = ap (λ s. s.height) same;
      same_stride = ap (λ s. s.stride) same;
      framed = subst IsFramed (sym same) framed;
      outside = λ i out. rest i (above i out);
    }
  where
    above :
        (i : ℤ)
        → (i <ℤ pos 0) ⊎ (fb.height *ℤ fb.stride ≤ℤ i)
        → (i <ℤ pos 0) ⊎ (fb.width *ℤ fb.height ≤ℤ i)
    above i (inl l) = inl l
    above i (inr l) = inr (
        omega
          (arith, l, size_mono fb.width fb.stride fb.height framed.across framed.wide framed.down))

-- The meet of the clip and a rectangle is in the frame.
dm_fb_clip_push-Kept :
    (fb : DmFramebuffer) (r : DmRect) → IsFramed (shape fb) → Kept fb (dm_fb_clip_push fb r)
unfolding dm_fb_clip_push dm_rect_intersect
dm_fb_clip_push-Kept fb r framed = record {
  same_width = refl;
  same_height = refl;
  same_stride = refl;
  framed =
      on_branches (λ c. IsFramed (shape (record fb { clip = c })))
        (leb_ℤ (min_ℤ (fb.clip.x +ℤ fb.clip.w) (r.x +ℤ r.w)) (max_ℤ fb.clip.x r.x)
          || leb_ℤ (min_ℤ (fb.clip.y +ℤ fb.clip.h) (r.y +ℤ r.h)) (max_ℤ fb.clip.y r.y))
        (λ _. record {
          across = framed.across;
          down = framed.down;
          left = omega arith;
          right = omega (int_laws, framed.across);
          top = omega arith;
          bottom = omega (int_laws, framed.down);
          wide = framed.wide;
        })
        (λ _. record {
          across = framed.across;
          down = framed.down;
          left = omega (arith, framed.left, max_above fb.clip.x r.x);
          right = omega (int_laws, framed.right, min_below (fb.clip.x +ℤ fb.clip.w) (r.x +ℤ r.w));
          top = omega (arith, framed.top, max_above fb.clip.y r.y);
          bottom = omega (int_laws, framed.bottom, min_below (fb.clip.y +ℤ fb.clip.h) (r.y +ℤ r.h));
          wide = framed.wide;
        });
  outside = λ i out. refl;
}

-- A frame with the clip that a new one has.
whole_IsFramed :
    (fb : DmFramebuffer)
    → pos 0 ≤ℤ fb.width
    → pos 0 ≤ℤ fb.height
    → fb.width ≤ℤ fb.stride
    → IsFramed (shape (dm_fb_clip_reset fb))
unfolding dm_fb_clip_reset
whole_IsFramed fb lw lh l = record {
  across = lw;
  down = lh;
  left = omega arith;
  right = omega (int_laws, lw);
  top = omega arith;
  bottom = omega (int_laws, lh);
  wide = l;
}

dm_fb_clip_reset-Kept : (fb : DmFramebuffer) → IsFramed (shape fb) → Kept fb (dm_fb_clip_reset fb)
unfolding dm_fb_clip_reset
dm_fb_clip_reset-Kept fb framed = record {
  same_width = refl;
  same_height = refl;
  same_stride = refl;
  framed = whole_IsFramed fb framed.across framed.down framed.wide;
  outside = λ i out. refl;
}

step-Kept :
    (F : Floats) (c : Command F) (fb : DmFramebuffer)
    → IsFramed (shape fb)
    → (fb' : DmFramebuffer) × (step F c fb ≡ some fb') × Kept fb fb'
unfolding step Drawn
step-Kept F (drawing d) fb framed =
    let (fb', e, k) = draw-Drawn F (shape fb) fb d fb (Clipped-refl fb) in
    (fb', e, Clipped→Kept fb fb' framed k)
step-Kept F (clear c) fb framed = (dm_fb_clear fb c, refl, dm_fb_clear-Kept fb c framed)
step-Kept F (clip_push r) fb framed = (dm_fb_clip_push fb r, refl, dm_fb_clip_push-Kept fb r framed)
step-Kept F clip_reset fb framed = (dm_fb_clip_reset fb, refl, dm_fb_clip_reset-Kept fb framed)

-- A session on a framebuffer whose clip is in its frame ends. The framebuffer keeps its size and its
-- stride, its clip stays in the frame, and the memory below index 0 and from `height * stride` on is
-- as before.
pub run-Kept :
    (F : Floats) (cs : List (Command F)) (fb : DmFramebuffer)
    → IsFramed (shape fb)
    → (fb' : DmFramebuffer) × (run F cs fb ≡ some fb') × Kept fb fb'
unfolding run
run-Kept F [] fb framed = (fb, refl, Kept-refl fb framed)
run-Kept F (c ∷ cs) fb framed =
    let (now, e, k) = step-Kept F c fb framed in
    let (fb', e', k') = run-Kept F cs now k.framed in
    (fb', ap (λ r. r >>= run F cs) e ∙ e', Kept-trans fb now fb' k k')
