-- ===== src/Prelude/Int.antt =====
-- Signed integers. Sums and orders go through the two parts of an integer, which are numbers.
use Prim.Native.Nat.{ℕ, suc, ◌+◌, ◌-◌, ◌*◌, ◌/◌, ◌%◌, ◌≤◌, ◌<◌}
use mathlib.Core.Path.{◌≡◌, refl, sym, ap, ◌∙◌}
use mathlib.Core.Logic.{◌⊎◌}
use mathlib.Core.Bool.{Bool, true, false}
use native.Mathlib.Nat.{
  mul-le-mul_right, eq_of_mul-eq-mul_right, mul-add-mod_self_left, mod-eq_of_lt, mul_comm, add-mul,
}
use native.Mathlib.Omega.{arith}
use de_mo_d.Prelude.Tests.{ltb, leb, ◌==◌, if◌then◌else◌}

-- `negsuc n` is -(n + 1).
pub data ℤ : Type 0 where
  pos : ℕ → ℤ
  negsuc : ℕ → ℤ

abbrev pub pos_part : ℤ → ℕ
pos_part (pos n) = n
pos_part (negsuc n) = 0

abbrev pub neg_part : ℤ → ℕ
neg_part (pos n) = 0
neg_part (negsuc n) = suc n

-- a - b, as an integer.
abbrev pub sub_ℕ : ℕ → ℕ → ℤ
sub_ℕ a b = if leb b a then pos (a - b) else negsuc (b - a - 1)

infixl 65 ◌+ℤ◌ ◌-ℤ◌
infixl 70 ◌*ℤ◌
infix 50 ◌≤ℤ◌ ◌<ℤ◌ ◌=ℤ◌
unfoldable pub ◌+ℤ◌ : ℤ → ℤ → ℤ
a +ℤ b = sub_ℕ (pos_part a + pos_part b) (neg_part a + neg_part b)

unfoldable pub ◌-ℤ◌ : ℤ → ℤ → ℤ
a -ℤ b = sub_ℕ (pos_part a + neg_part b) (neg_part a + pos_part b)

unfoldable pub ◌*ℤ◌ : ℤ → ℤ → ℤ
a *ℤ b =
    sub_ℕ (pos_part a * pos_part b + neg_part a * neg_part b)
      (pos_part a * neg_part b + neg_part a * pos_part b)

-- C's division by a positive number rounds towards zero.
unfoldable pub tdiv : ℤ → ℕ → ℤ
tdiv (pos n) d = pos (n / d)
tdiv (negsuc n) d = sub_ℕ 0 (suc n / d)

abbrev pub ◌≤ℤ◌ : ℤ → ℤ → Type 0
a ≤ℤ b = pos_part a + neg_part b ≤ pos_part b + neg_part a

abbrev pub ◌<ℤ◌ : ℤ → ℤ → Type 0
a <ℤ b = pos_part a + neg_part b < pos_part b + neg_part a

-- Two integers that are equal, as an equation of numbers.
abbrev pub ◌=ℤ◌ : ℤ → ℤ → Type 0
a =ℤ b = pos_part a + neg_part b ≡ pos_part b + neg_part a

abbrev pub ltb_ℤ : ℤ → ℤ → Bool
ltb_ℤ a b = ltb (pos_part a + neg_part b) (pos_part b + neg_part a)

abbrev pub leb_ℤ : ℤ → ℤ → Bool
leb_ℤ a b = leb (pos_part a + neg_part b) (pos_part b + neg_part a)

abbrev pub eqb_ℤ : ℤ → ℤ → Bool
eqb_ℤ a b = pos_part a + neg_part b == pos_part b + neg_part a

pub +ℤ_parts :
    (a b : ℤ)
    → pos_part (a +ℤ b) + neg_part a + neg_part b ≡ neg_part (a +ℤ b) + pos_part a + pos_part b
unfolding ◌+ℤ◌
+ℤ_parts a b = ground arith

pub -ℤ_parts :
    (a b : ℤ)
    → pos_part (a -ℤ b) + neg_part a + pos_part b ≡ neg_part (a -ℤ b) + pos_part a + neg_part b
unfolding ◌-ℤ◌
-ℤ_parts a b = ground arith

pub *ℤ_parts :
    (a b : ℤ)
    → pos_part (a *ℤ b) + (pos_part a * neg_part b + neg_part a * pos_part b)
      ≡ neg_part (a *ℤ b) + (pos_part a * pos_part b + neg_part a * neg_part b)
unfolding ◌*ℤ◌
*ℤ_parts a b =
    parts (pos_part a * pos_part b + neg_part a * neg_part b)
      (pos_part a * neg_part b + neg_part a * pos_part b)
  where
    parts : (m n : ℕ) → pos_part (sub_ℕ m n) + n ≡ neg_part (sub_ℕ m n) + m
    parts m n = ground arith

pub eq_of_parts : (a b : ℤ) → pos_part a + neg_part b ≡ pos_part b + neg_part a → a ≡ b
eq_of_parts a b h = ground arith

pub ruleset int_laws = (arith, +ℤ_parts, -ℤ_parts, eq_of_parts)

pub eqb_ℤ→eq : (a b : ℤ) → eqb_ℤ a b ≡ true → a ≡ b
eqb_ℤ→eq a b h = eq_of_parts a b (same (pos_part a + neg_part b) (pos_part b + neg_part a) h)
  where
    same : (m n : ℕ) → (m == n) ≡ true → m ≡ n
    same m n h = ground arith

pub eqb_ℤ_refl : (a : ℤ) → eqb_ℤ a a ≡ true
eqb_ℤ_refl a = ground arith

pub eqb_parts : (a b : ℤ) → eqb_ℤ a b ≡ true → a =ℤ b
eqb_parts a b h = ground arith

pub eqb_ℤ→ne : (a b : ℤ) → eqb_ℤ a b ≡ false → (a <ℤ b) ⊎ (b <ℤ a)
eqb_ℤ→ne a b h = ground arith

pub ltb_ℤ→lt : (a b : ℤ) → ltb_ℤ a b ≡ true → a <ℤ b
ltb_ℤ→lt a b h = ground arith

pub ltb_ℤ→le : (a b : ℤ) → ltb_ℤ a b ≡ false → b ≤ℤ a
ltb_ℤ→le a b h = ground arith

pub leb_ℤ→le : (a b : ℤ) → leb_ℤ a b ≡ true → a ≤ℤ b
leb_ℤ→le a b h = ground arith

pub leb_ℤ→lt : (a b : ℤ) → leb_ℤ a b ≡ false → b <ℤ a
leb_ℤ→lt a b h = ground arith

pub lt→ltb_ℤ : (a b : ℤ) → a <ℤ b → ltb_ℤ a b ≡ true
lt→ltb_ℤ a b h = ground arith

pub le→leb_ℤ : (a b : ℤ) → a ≤ℤ b → leb_ℤ a b ≡ true
le→leb_ℤ a b h = ground arith

row_column : (x y x' y' n : ℕ) → x < n → x' < n → y * n + x ≡ y' * n + x' → (x ≡ x') × (y ≡ y')
row_column x y x' y' n h h' e =
    (same, eq_of_mul-eq-mul_right n (omega arith) y y' (omega (arith, same)))
  where
    column : (x y : ℕ) → x < n → (y * n + x) % n ≡ x
    column x y h =
        ap (λ t. t % n) (omega (arith, mul_comm n y)) ∙ mul-add-mod_self_left n y x ∙ mod-eq_of_lt h

    same : x ≡ x'
    same = sym (column x y h) ∙ ap (λ t. t % n) e ∙ column x' y' h'

-- The rows of a matrix do not overlap: an index stands for one column and one row.
pub index_injective :
    (x y x' y' s : ℤ)
    → pos 0 ≤ℤ x
    → x <ℤ s
    → pos 0 ≤ℤ x'
    → x' <ℤ s
    → y *ℤ s +ℤ x ≡ y' *ℤ s +ℤ x'
    → (x ≡ x') × (y ≡ y')
index_injective (pos x) y (pos x') y' (pos n) lo hi lo' hi' e =
    let (ex, ey) =
      row_column x (pos_part y + neg_part y') x' (pos_part y' + neg_part y) n (omega arith)
        (omega arith) (flat e) in
    (ap pos ex, eq_of_parts y y' ey)
  where
    flat :
        y *ℤ pos n +ℤ pos x ≡ y' *ℤ pos n +ℤ pos x'
        → (pos_part y + neg_part y') * n + x ≡ (pos_part y' + neg_part y) * n + x'
    flat e = grind (
      arith,
      *ℤ_parts y (pos n),
      *ℤ_parts y' (pos n),
      +ℤ_parts (y *ℤ pos n) (pos x),
      +ℤ_parts (y' *ℤ pos n) (pos x'),
      ap pos_part e,
      ap neg_part e,
    )
index_injective (negsuc x) y x' y' s lo hi lo' hi' e = absurd (omega arith)
index_injective (pos x) y (negsuc x') y' s lo hi lo' hi' e = absurd (omega arith)
index_injective (pos x) y (pos x') y' (negsuc n) lo hi lo' hi' e = absurd (omega arith)

-- The rounds of a loop that counts from `lo` to `hi` stay below `hi`.
pub below_count : (lo hi : ℤ) (k : ℕ) → k < pos_part (hi -ℤ lo) → lo +ℤ pos k <ℤ hi
below_count lo hi k h = omega (int_laws, one_part (hi -ℤ lo) (omega arith))
  where
    one_part : (a : ℤ) → 0 < pos_part a → neg_part a ≡ 0
    one_part (pos n) h = refl
    one_part (negsuc n) h = absurd (omega arith)

product_parts : (m n : ℕ) → (pos_part (pos m *ℤ pos n) ≡ m * n) × (neg_part (pos m *ℤ pos n) ≡ 0)
unfolding ◌*ℤ◌
product_parts m n = ground arith

-- The index of a place in a matrix of `h` rows is below the number of places.
pub index_below :
    (x y s h : ℤ)
    → pos 0 ≤ℤ x
    → x <ℤ s
    → pos 0 ≤ℤ y
    → y <ℤ h
    → (pos 0 ≤ℤ y *ℤ s +ℤ x) × (y *ℤ s +ℤ x <ℤ h *ℤ s)
index_below (pos x) (pos y) (pos s) (pos h) lx hx ly hy =
    let (p, p0) = product_parts y s in
    let (q, q0) = product_parts h s in
    let m = mul-le-mul_right {m = suc y} {n = h} s (omega arith) in
    (omega (int_laws, p0), omega (int_laws, p, p0, q, q0, m, add-mul 1 y s))
index_below (negsuc x) y s h lx hx ly hy = absurd (omega arith)
index_below (pos x) (negsuc y) s h lx hx ly hy = absurd (omega arith)
index_below (pos x) (pos y) (negsuc s) h lx hx ly hy = absurd (omega arith)
index_below (pos x) (pos y) (pos s) (negsuc h) lx hx ly hy = absurd (omega arith)

-- A product of two sizes grows with the first.
pub size_mono : (w n h : ℤ) → pos 0 ≤ℤ w → w ≤ℤ n → pos 0 ≤ℤ h → w *ℤ h ≤ℤ h *ℤ n
size_mono (pos w) (pos n) (pos h) lw l lh =
    let (p, p0) = product_parts w h in
    let (q, q0) = product_parts h n in
    omega (arith, p, p0, q, q0, mul-le-mul_right {m = w} {n = n} h (omega arith), mul_comm n h)
size_mono (negsuc w) n h lw l lh = absurd (omega arith)
size_mono (pos w) (negsuc n) h lw l lh = absurd (omega arith)
size_mono (pos w) (pos n) (negsuc h) lw l lh = absurd (omega arith)

pub size_non_negative : (w h : ℤ) → pos 0 ≤ℤ w → pos 0 ≤ℤ h → pos 0 ≤ℤ w *ℤ h
size_non_negative (pos w) (pos h) lw lh = let (p, p0) = product_parts w h in omega (arith, p0)
size_non_negative (negsuc w) h lw lh = absurd (omega arith)
size_non_negative (pos w) (negsuc h) lw lh = absurd (omega arith)
