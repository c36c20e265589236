-- ===== src/Framebuffer/Clipping/Way.antt =====
-- The walk of `dm_fb_line` in src/core/framebuffer.c: each round steps towards the end, and none past
-- it.
use mathlib.Core.Path.{subst}
use native.Mathlib.Nat.{add-mul, mul_comm}
use de_mo_d.Prelude.{
  ℕ, zero, suc, ◌+◌, ◌*◌, ◌<◌, if◌then◌else◌, Bool, true, false, arith, ◌≡◌, refl, sym, ◌⊎◌, inl,
  inr, Bool-cases, leb_ℤ→le, leb_ℤ→lt, ltb_ℤ→lt, ltb_ℤ→le,
}
use de_mo_d.Prelude.{
  ℤ, pos, negsuc, pos_part, neg_part, ◌+ℤ◌, ◌-ℤ◌, ◌*ℤ◌, ◌≤ℤ◌, ◌<ℤ◌, ◌=ℤ◌, ltb_ℤ, leb_ℤ, int_laws,
  *ℤ_parts,
}
use de_mo_d.Framebuffer.Lines.{abs_ℤ, Course, course}

-- `to` is `a` steps of `step`, which is 1 or -1, away from `from`.
pub Toward : ℤ → ℤ → ℤ → ℕ → Type 0
Toward from step to a =
    ((step =ℤ pos 1) × (from +ℤ pos a =ℤ to)) ⊎ ((step =ℤ pos 0 -ℤ pos 1) × (to +ℤ pos a =ℤ from))

-- A point of the line from which `a` steps in `x` and `b` in `y` are left.
pub record Way (k : Course) (a b : ℕ) (x y err : ℤ) : Type 0 where
  pub horizontal : Toward x k.sx k.x1 a
  pub vertical : Toward y k.sy k.y1 b
  pub short_x : pos a ≤ℤ k.dx
  pub short_y : pos b +ℤ k.dy ≤ℤ pos 0
  pub balance :
      err +ℤ pos (b * pos_part k.dx) +ℤ pos (neg_part k.dy) =ℤ pos (a * neg_part k.dy) +ℤ k.dx
  pub across : neg_part k.dx ≡ 0
  pub down : pos_part k.dy ≡ 0

Toward-next :
    (from step to : ℤ) (a : ℕ) → Toward from step to (suc a) → Toward (from +ℤ step) step to a
unfolding Toward
Toward-next from step to a (inl (e, h)) = inl (e, omega int_laws)
Toward-next from step to a (inr (e, h)) = inr (e, omega int_laws)

pub Toward-zero : (from step to : ℤ) → Toward from step to 0 → from =ℤ to
unfolding Toward
Toward-zero from step to (inl (e, h)) = omega int_laws
Toward-zero from step to (inr (e, h)) = omega int_laws

step_x :
    (k : Course) (a b : ℕ) (x y err : ℤ)
    → Way k (suc a) b x y err
    → Way k a b (x +ℤ k.sx) y (err +ℤ k.dy)
step_x k a b x y err w = record {
  horizontal = Toward-next x k.sx k.x1 a w.horizontal;
  vertical = w.vertical;
  short_x = omega (int_laws, w.short_x);
  short_y = w.short_y;
  balance = omega (int_laws, w.balance, w.across, w.down, add-mul 1 a (neg_part k.dy));
  across = w.across;
  down = w.down;
}

step_y :
    (k : Course) (a b : ℕ) (x y err : ℤ)
    → Way k a (suc b) x y err
    → Way k a b x (y +ℤ k.sy) (err +ℤ k.dx)
step_y k a b x y err w = record {
  horizontal = w.horizontal;
  vertical = Toward-next y k.sy k.y1 b w.vertical;
  short_x = w.short_x;
  short_y = omega (int_laws, w.short_y);
  balance = omega (int_laws, w.balance, w.across, w.down, add-mul 1 b (pos_part k.dx));
  across = w.across;
  down = w.down;
}

-- No step goes past the end, and there is a step in each round.
no_step_x :
    (k : Course) (b : ℕ) (x y err : ℤ)
    → Way k 0 (suc b) x y err
    → leb_ℤ k.dy (pos 2 *ℤ err) ≡ true
    → ⊥
no_step_x k b x y err w h = omega (
  int_laws,
  w.balance,
  w.across,
  w.down,
  w.short_y,
  add-mul 1 b (pos_part k.dx),
  *ℤ_parts (pos 2) err,
  leb_ℤ→le k.dy (pos 2 *ℤ err) h,
)

no_step_y :
    (k : Course) (a : ℕ) (x y err : ℤ)
    → Way k (suc a) 0 x y err
    → leb_ℤ (pos 2 *ℤ err) k.dx ≡ true
    → ⊥
no_step_y k a x y err w h = omega (
  int_laws,
  w.balance,
  w.across,
  w.down,
  w.short_x,
  add-mul 1 a (neg_part k.dy),
  *ℤ_parts (pos 2) err,
  leb_ℤ→le (pos 2 *ℤ err) k.dx h,
)

some_step :
    (k : Course) (a b : ℕ) (x y err : ℤ)
    → Way k a b x y err
    → leb_ℤ k.dy (pos 2 *ℤ err) ≡ false
    → leb_ℤ (pos 2 *ℤ err) k.dx ≡ false
    → ⊥
some_step k a b x y err w h h' =
    omega
      (int_laws, w.across, w.down, leb_ℤ→lt k.dy (pos 2 *ℤ err) h, leb_ℤ→lt (pos 2 *ℤ err) k.dx h')

-- The tests of a round, for the steps that are left.
pub next-Way :
    (k : Course) (a b : ℕ) (x y err : ℤ) (p q : Bool)
    → leb_ℤ k.dy (pos 2 *ℤ err) ≡ p
    → leb_ℤ (pos 2 *ℤ err) k.dx ≡ q
    → Way k a b x y err
    → 0 < a + b
    → (a' : ℕ) × (b' : ℕ) × (a' + b' < a + b)
      × Way k a' b'
          (if p then x +ℤ k.sx else x)
          (if q then y +ℤ k.sy else y)
          (if q then (if p then err +ℤ k.dy else err) +ℤ k.dx else if p then err +ℤ k.dy else err)
next-Way k zero zero x y err p q hp hq w l = absurd (omega arith)
next-Way k zero (suc b) x y err true q hp hq w l = absurd (no_step_x k b x y err w hp)
next-Way k (suc a) zero x y err p true hp hq w l = absurd (no_step_y k a x y err w hq)
next-Way k (suc a) zero x y err true false hp hq w l =
    (a, zero, omega arith, step_x k a zero x y err w)
next-Way k (suc a) (suc b) x y err true true hp hq w l =
    (a, b, omega arith, step_y k a b (x +ℤ k.sx) y (err +ℤ k.dy) (step_x k a (suc b) x y err w))
next-Way k (suc a) (suc b) x y err true false hp hq w l =
    (a, suc b, omega arith, step_x k a (suc b) x y err w)
next-Way k a (suc b) x y err false true hp hq w l = (a, b, omega arith, step_y k a b x y err w)
next-Way k a b x y err false false hp hq w l = absurd (some_step k a b x y err w hp hq)

-- An absolute value has no negative part, and its opposite no positive one.
abs_parts : (a : ℤ) → neg_part (abs_ℤ a) ≡ 0
unfolding ◌-ℤ◌
abs_parts (pos n) = ground arith
abs_parts (negsuc n) = ground arith

opposite_parts :
    (a : ℤ) → neg_part a ≡ 0 → (neg_part (pos 0 -ℤ a) ≡ pos_part a) × (pos_part (pos 0 -ℤ a) ≡ 0)
unfolding ◌-ℤ◌
opposite_parts (pos n) h = ground arith
opposite_parts (negsuc n) h = absurd (omega arith)

abs_upwards : (a : ℤ) → pos 0 ≤ℤ a → pos (pos_part (abs_ℤ a)) =ℤ a
unfolding ◌-ℤ◌
abs_upwards (pos n) h = ground arith
abs_upwards (negsuc n) h = absurd (omega arith)

abs_downwards : (a : ℤ) → a ≤ℤ pos 0 → pos (pos_part (abs_ℤ a)) =ℤ pos 0 -ℤ a
unfolding ◌-ℤ◌
abs_downwards (pos n) h = ground arith
abs_downwards (negsuc n) h = ground arith

-- The distance between two coordinates is covered by steps in the direction that the source takes.
Toward-start :
    (from to : ℤ)
    → Toward from
        (if ltb_ℤ from to then pos 1 else pos 0 -ℤ pos 1)
        to
        (pos_part (abs_ℤ (to -ℤ from)))
unfolding Toward
Toward-start from to = elim (Bool-cases (ltb_ℤ from to)) [
  | inl e ↦
      subst (λ p. Toward from (if p then pos 1 else pos 0 -ℤ pos 1) to d) (sym e)
        (inl (refl, right (ltb_ℤ→lt from to e)))
  | inr e ↦
      subst (λ p. Toward from (if p then pos 1 else pos 0 -ℤ pos 1) to d) (sym e)
        (inr (refl, left (ltb_ℤ→le from to e)))
]
  where
    d : ℕ
    d = pos_part (abs_ℤ (to -ℤ from))

    right : from <ℤ to → from +ℤ pos d =ℤ to
    right l = omega (int_laws, abs_upwards (to -ℤ from) (omega int_laws))

    left : to ≤ℤ from → to +ℤ pos d =ℤ from
    left l = omega (int_laws, abs_downwards (to -ℤ from) (omega int_laws))

pub start-Way :
    (x0 y0 x1 y1 : ℤ)
    → let k = course x0 y0 x1 y1 in Way k (pos_part k.dx) (neg_part k.dy) x0 y0 (k.dx +ℤ k.dy)
start-Way x0 y0 x1 y1 =
    let k : Course = course x0 y0 x1 y1 in
    let (up, none_down) = opposite_parts (abs_ℤ (y1 -ℤ y0)) (abs_parts (y1 -ℤ y0)) in
    let flat = abs_parts (x1 -ℤ x0) in
    record {
      horizontal = Toward-start x0 x1;
      vertical = subst (Toward y0 k.sy y1) (sym up) (Toward-start y0 y1);
      short_x = omega (arith, flat);
      short_y = omega (int_laws, none_down);
      balance = omega (int_laws, mul_comm (pos_part k.dx) (neg_part k.dy));
      across = flat;
      down = none_down;
    }
