-- ===== src/Framebuffer/Loops.antt =====
-- The loops of src/core/framebuffer.c count up from an integer to another.
use mathlib.Core.Path.{subst}
use de_mo_d.Prelude.{ℕ, zero, suc, ◌<◌, arith, ◌≡◌, refl}
use de_mo_d.Prelude.{
  ℤ, pos, negsuc, pos_part, neg_part, ◌+ℤ◌, ◌-ℤ◌, ◌≤ℤ◌, ◌<ℤ◌, ◌=ℤ◌, int_laws, below_count,
}
use de_mo_d.Framebuffer.{rounds_up, for_below}

-- What every round of a loop keeps, the loop keeps.
pub rounds_up-keeps :
    {S : Type 0} (P : S → Type 0) (n : ℕ) (i : ℤ) (f : ℤ → S → S)
    → ((k : ℕ) (s : S) → k < n → P s → P (f (i +ℤ pos k) s))
    → (s : S) → P s
    → P (rounds_up n i f s)
unfolding rounds_up
rounds_up-keeps P zero i f h s p = p
rounds_up-keeps P (suc n) i f h s p =
    rounds_up-keeps P n (i +ℤ pos 1) f
      (λ k s l p.
        subst (λ j. P (f j s)) {x = i +ℤ pos (suc k)} {y = i +ℤ pos 1 +ℤ pos k} (omega int_laws)
          (h (suc k) s (omega arith) p))
      (f i s)
      (subst (λ j. P (f j s)) {x = i +ℤ pos 0} {y = i} (omega int_laws) (h 0 s (omega arith) p))

pub for_below-keeps :
    {S : Type 0} (P : S → Type 0) (lo hi : ℤ) (f : ℤ → S → S)
    → ((i : ℤ) (s : S) → lo ≤ℤ i → i <ℤ hi → P s → P (f i s))
    → (s : S) → P s
    → P (for_below lo hi f s)
for_below-keeps P lo hi f h =
    rounds_up-keeps P (pos_part (hi -ℤ lo)) lo f
      (λ k s l p. h (lo +ℤ pos k) s (omega int_laws) (below_count lo hi k l) p)

rounds_up-counts :
    {S : Type 0} (P : ℤ → S → Type 0) (lo hi : ℤ) (f : ℤ → S → S)
    → ((i : ℤ) (s : S) → lo ≤ℤ i → i <ℤ hi → P i s → P (i +ℤ pos 1) (f i s))
    → (n : ℕ) (i : ℤ) (s : S) → lo ≤ℤ i
    → i +ℤ pos n =ℤ hi
    → P i s
    → P hi (rounds_up n i f s)
unfolding rounds_up
rounds_up-counts P lo hi f h zero i s l e p = subst (λ j. P j s) {x = i} {y = hi} (omega int_laws) p
rounds_up-counts P lo hi f h (suc n) i s l e p =
    rounds_up-counts P lo hi f h n (i +ℤ pos 1) (f i s) (omega int_laws) (omega int_laws)
      (h i s l (omega int_laws) p)

-- What every round of a loop carries to the next index, the loop carries to its end.
pub for_below-counts :
    {S : Type 0} (P : ℤ → S → Type 0) (lo hi : ℤ) (f : ℤ → S → S)
    → ((i : ℤ) (s : S) → lo ≤ℤ i → i <ℤ hi → P i s → P (i +ℤ pos 1) (f i s))
    → (s : S) → lo ≤ℤ hi
    → P lo s
    → P hi (for_below lo hi f s)
for_below-counts P lo hi f h s l p =
    rounds_up-counts P lo hi f h (pos_part (hi -ℤ lo)) lo s (omega arith)
      (omega (int_laws, non_negative (hi -ℤ lo) (omega int_laws))) p
  where
    non_negative : (a : ℤ) → pos 0 ≤ℤ a → neg_part a ≡ 0
    non_negative (pos n) h = refl
    non_negative (negsuc n) h = absurd (omega arith)
