-- ===== src/Framebuffer/Regions.antt =====
-- The rectangles of include/demod/framebuffer.h: what they contain, and what their meet does.
use de_mo_d.Prelude.{leb_ℤ→le, ltb_ℤ→lt, le→leb_ℤ, lt→ltb_ℤ, ltb_ℤ→le}
use de_mo_d.Prelude.{Bool, true, false, ◌&&◌, ◌||◌, on_branches, arith}
use de_mo_d.Prelude.{◌≡◌}
use de_mo_d.Prelude.{ℤ, ◌+ℤ◌, ◌≤ℤ◌, ◌<ℤ◌, ltb_ℤ, leb_ℤ, int_laws}
use de_mo_d.Framebuffer.{DmRect, dm_rect_contains, dm_rect_intersect, max_ℤ, min_ℤ}

-- What `dm_rect_contains` tests.
pub record Inside (r : DmRect) (x y : ℤ) : Type 0 where
  pub left : r.x ≤ℤ x
  pub right : x <ℤ r.x +ℤ r.w
  pub top : r.y ≤ℤ y
  pub bottom : y <ℤ r.y +ℤ r.h

four_tests :
    (p q r t : Bool) → (p && q && r && t) ≡ true → (p ≡ true) × (q ≡ true) × (r ≡ true) × (t ≡ true)
four_tests p q r t h = ground arith

all_four : (p q r t : Bool) → p ≡ true → q ≡ true → r ≡ true → t ≡ true → (p && q && r && t) ≡ true
all_four p q r t hp hq hr ht = ground arith

pub contains→Inside : (r : DmRect) (x y : ℤ) → dm_rect_contains r x y ≡ true → Inside r x y
unfolding dm_rect_contains
contains→Inside r x y h =
    let (a, b, c, d) =
      four_tests (leb_ℤ r.x x) (ltb_ℤ x (r.x +ℤ r.w)) (leb_ℤ r.y y) (ltb_ℤ y (r.y +ℤ r.h)) h in
    record {
      left = leb_ℤ→le r.x x a;
      right = ltb_ℤ→lt x (r.x +ℤ r.w) b;
      top = leb_ℤ→le r.y y c;
      bottom = ltb_ℤ→lt y (r.y +ℤ r.h) d;
    }

pub Inside→contains : (r : DmRect) (x y : ℤ) → Inside r x y → dm_rect_contains r x y ≡ true
unfolding dm_rect_contains
Inside→contains r x y h =
    all_four (leb_ℤ r.x x) (ltb_ℤ x (r.x +ℤ r.w)) (leb_ℤ r.y y) (ltb_ℤ y (r.y +ℤ r.h))
      (le→leb_ℤ r.x x h.left) (lt→ltb_ℤ x (r.x +ℤ r.w) h.right) (le→leb_ℤ r.y y h.top)
      (lt→ltb_ℤ y (r.y +ℤ r.h) h.bottom)

pub neither : (p q : Bool) → (p || q) ≡ false → (p ≡ false) × (q ≡ false)
neither p q h = ground arith

pub max_above : (a b : ℤ) → (a ≤ℤ max_ℤ a b) × (b ≤ℤ max_ℤ a b)
max_above a b =
    on_branches (λ m. (a ≤ℤ m) × (b ≤ℤ m)) (ltb_ℤ b a)
      (λ h. (omega arith, omega (arith, ltb_ℤ→lt b a h))) (λ h. (ltb_ℤ→le b a h, omega arith))

pub min_below : (a b : ℤ) → (min_ℤ a b ≤ℤ a) × (min_ℤ a b ≤ℤ b)
min_below a b =
    on_branches (λ m. (m ≤ℤ a) × (m ≤ℤ b)) (ltb_ℤ a b)
      (λ h. (omega arith, omega (arith, ltb_ℤ→lt a b h))) (λ h. (ltb_ℤ→le a b h, omega arith))

-- What is in the meet of two rectangles is in both.
pub intersect_Inside :
    (a b : DmRect) (x y : ℤ) → Inside (dm_rect_intersect a b) x y → Inside a x y × Inside b x y
unfolding dm_rect_intersect
intersect_Inside a b x y =
    on_branches (λ r. Inside r x y → Inside a x y × Inside b x y) (leb_ℤ x2 x1 || leb_ℤ y2 y1)
      (λ _ i. absurd (omega (int_laws, i.left, i.right)))
      (λ _ i. (
        record {
          left = omega (arith, i.left, max_above a.x b.x);
          right = omega (int_laws, i.right, min_below (a.x +ℤ a.w) (b.x +ℤ b.w));
          top = omega (arith, i.top, max_above a.y b.y);
          bottom = omega (int_laws, i.bottom, min_below (a.y +ℤ a.h) (b.y +ℤ b.h));
        },
        record {
          left = omega (arith, i.left, max_above a.x b.x);
          right = omega (int_laws, i.right, min_below (a.x +ℤ a.w) (b.x +ℤ b.w));
          top = omega (arith, i.top, max_above a.y b.y);
          bottom = omega (int_laws, i.bottom, min_below (a.y +ℤ a.h) (b.y +ℤ b.h));
        },
      ))
  where
    x1 : ℤ
    x1 = max_ℤ a.x b.x

    y1 : ℤ
    y1 = max_ℤ a.y b.y

    x2 : ℤ
    x2 = min_ℤ (a.x +ℤ a.w) (b.x +ℤ b.w)

    y2 : ℤ
    y2 = min_ℤ (a.y +ℤ a.h) (b.y +ℤ b.h)

range_open : (a b x : ℤ) → a ≤ℤ x → x <ℤ b → leb_ℤ b a ≡ false
range_open a b x l h = ground arith

none_true : {p q : Bool} → p ≡ false → q ≡ false → (p || q) ≡ true → ⊥
none_true {p = p} {q = q} a b e = ground (arith, a, b, e)

-- What is in two rectangles is in their meet.
pub Inside-intersect :
    (a b : DmRect) (x y : ℤ) → Inside a x y → Inside b x y → Inside (dm_rect_intersect a b) x y
unfolding dm_rect_intersect
Inside-intersect a b x y i j =
    on_branches (λ r. Inside r x y) (leb_ℤ x2 x1 || leb_ℤ y2 y1)
      (λ e.
        absurd (none_true (range_open x1 x2 x x_low x_high) (range_open y1 y2 y y_low y_high) e))
      (λ _. record {
        left = x_low;
        right = omega (int_laws, x_high);
        top = y_low;
        bottom = omega (int_laws, y_high);
      })
  where
    x1 : ℤ
    x1 = max_ℤ a.x b.x

    y1 : ℤ
    y1 = max_ℤ a.y b.y

    x2 : ℤ
    x2 = min_ℤ (a.x +ℤ a.w) (b.x +ℤ b.w)

    y2 : ℤ
    y2 = min_ℤ (a.y +ℤ a.h) (b.y +ℤ b.h)

    x_low : x1 ≤ℤ x
    x_low = on_branches (λ m. m ≤ℤ x) (ltb_ℤ b.x a.x) (λ _. i.left) (λ _. j.left)

    y_low : y1 ≤ℤ y
    y_low = on_branches (λ m. m ≤ℤ y) (ltb_ℤ b.y a.y) (λ _. i.top) (λ _. j.top)

    x_high : x <ℤ x2
    x_high =
        on_branches (λ m. x <ℤ m) (ltb_ℤ (a.x +ℤ a.w) (b.x +ℤ b.w)) (λ _. i.right) (λ _. j.right)

    y_high : y <ℤ y2
    y_high =
        on_branches (λ m. y <ℤ m) (ltb_ℤ (a.y +ℤ a.h) (b.y +ℤ b.h)) (λ _. i.bottom) (λ _. j.bottom)
