-- ===== src/Ipc/Spsc/Window.antt =====
-- The samples between two indices of a ring (audio-stack/ipc/include/demod_spsc.h).
use Prim.Native.Nat.{bit_and}
use native.Mathlib.Nat.{two-pow-succ, mod-add-mod, mod-eq_of_lt, mod-eq-sub-mod, mod-mod_of_dvd}
use native.Mathlib.Decide.{dec_lt}
use de_mo_d.Prelude.{ℕ, zero, suc, ◌+◌, ◌-◌, ◌*◌, ◌%◌, ◌^◌, ◌≤◌, ◌<◌, if◌then◌else◌, add64, arith}
use mathlib.Core.Path.{ap₂}
use mathlib.Core.List.{append-nil, append_assoc}
use de_mo_d.Prelude.{
  ne→==, eq→==, ◌≡◌, ◌≢◌, refl, sym, ap, ◌∙◌, List, [], ◌∷◌, ◌++◌, length, bit_and_mask,
}
use de_mo_d.Ipc.Spsc.{store, write_loop, read_loop}

module _ {A : Type 0} (cap : ℕ) where
  -- The `n` samples from index `i` on.
  unfoldable pub window : (ℕ → A) → ℕ → ℕ → List A
  window f i zero = []
  window f i (suc n) = f (i % cap) ∷ window f (i + 1) n

  unfoldable pub store_all : ℕ → List A → (ℕ → A) → ℕ → A
  store_all i [] f = f
  store_all i (x ∷ xs) f = store_all (i + 1) xs (store f (i % cap) x)

-- Fewer than `cap` steps on, the slot is another.
slot_ne : (cap i d : ℕ) → 0 < d → d < cap → (i + d) % cap ≢ i % cap
slot_ne cap i d lo hi e = elim (dec_lt (i % cap + d) cap) [
  | yes p ↦ omega (arith, mod-add-mod i cap d, mod-eq_of_lt p)
  | no p ↦ omega (
    arith,
    mod-add-mod i cap d,
    mod-eq-sub-mod {n = i % cap + d} {m = cap} (omega arith),
    mod-eq_of_lt {n = i % cap + d - cap} {m = cap} (omega arith),
  )
]

module _ {A : Type 0} where
  -- Only the index's slot counts.
  pub window_mod :
      (cap : ℕ) (f : ℕ → A) (i j n : ℕ) → i % cap ≡ j % cap → window cap f i n ≡ window cap f j n
  unfolding window
  window_mod cap f i j zero h = refl
  window_mod cap f i j (suc n) h = ap₂ ◌∷◌ (ap f h) (
      window_mod cap f (i + 1) (j + 1) n
        (sym (mod-add-mod i cap 1) ∙ ap (λ t. (t + 1) % cap) h ∙ mod-add-mod j cap 1))

  pub store_all_mod :
      (cap : ℕ) (xs : List A) (f : ℕ → A) (i j : ℕ)
      → i % cap ≡ j % cap
      → store_all cap i xs f ≡ store_all cap j xs f
  unfolding store_all
  store_all_mod cap [] f i j h = refl
  store_all_mod cap (x ∷ xs) f i j h =
      ap (λ t. store_all cap (i + 1) xs (store f t x)) h
      ∙ store_all_mod cap xs (store f (j % cap) x) (i + 1) (j + 1)
          (sym (mod-add-mod i cap 1) ∙ ap (λ t. (t + 1) % cap) h ∙ mod-add-mod j cap 1)

  -- A store past a window leaves it alone.
  window-store :
      (cap : ℕ) (f : ℕ → A) (i n d j : ℕ) (x : A)
      → j ≡ i + n + d
      → n + d < cap
      → window cap (store f (j % cap) x) i n ≡ window cap f i n
  unfolding window
  window-store cap f i zero d j x e h = refl
  window-store cap f i (suc n) d j x e h =
      ap₂ ◌∷◌ (ap (λ b. if b then x else f (i % cap)) (ne→== (i % cap) (j % cap) apart))
        (window-store cap f (i + 1) n d j x (omega arith) (omega arith))
    where
      apart : i % cap ≢ j % cap
      apart q = slot_ne cap i (suc n + d) (omega arith) h (ap (λ t. t % cap) (omega arith) ∙ sym q)

  window_snoc :
      (cap : ℕ) (f : ℕ → A) (i n : ℕ)
      → window cap f i (suc n) ≡ window cap f i n ++ (f ((i + n) % cap) ∷ [])
  unfolding window
  window_snoc cap f i zero = ap (λ t. f (t % cap) ∷ []) (omega arith)
  window_snoc cap f i (suc n) =
      ap (λ t. f (i % cap) ∷ t) (window_snoc cap f (i + 1) n)
      ∙ ap (λ t. f (i % cap) ∷ (window cap f (i + 1) n ++ (f (t % cap) ∷ []))) (omega arith)

  -- Storing past a window, within the capacity, extends it.
  pub window-store_all :
      (cap : ℕ) (xs : List A) (f : ℕ → A) (i n : ℕ)
      → n + length xs ≤ cap
      → window cap (store_all cap (i + n) xs f) i (n + length xs) ≡ window cap f i n ++ xs
  unfolding store_all
  window-store_all cap [] f i n h = ap (window cap f i) (omega arith) ∙ sym (append-nil _)
  window-store_all cap (x ∷ xs) f i n h =
      ap (λ t. window cap (store_all cap t xs next) i (n + length (x ∷ xs))) {y = i + suc n}
        (omega arith)
      ∙ ap (window cap (store_all cap (i + suc n) xs next) i) {y = suc n + length xs} (omega arith)
      ∙ window-store_all cap xs next i (suc n) (omega arith)
      ∙ ap (λ t. t ++ xs) (window_snoc cap next i n ∙ ap₂ (λ t y. t ++ (y ∷ [])) kept written)
      ∙ append_assoc (window cap f i n) (x ∷ []) xs
    where
      next : ℕ → A
      next = store f ((i + n) % cap) x

      kept : window cap next i n ≡ window cap f i n
      kept = window-store cap f i n 0 (i + n) x (omega arith) (omega arith)

      written : next ((i + n) % cap) ≡ x
      written =
          ap (λ b. if b then x else f ((i + n) % cap)) (eq→== ((i + n) % cap) ((i + n) % cap) refl)

  pub window-append :
      (cap : ℕ) (f : ℕ → A) (i n m : ℕ)
      → window cap f i (n + m) ≡ window cap f i n ++ window cap f (i + n) m
  unfolding window
  window-append cap f i zero m = ap₂ (window cap f) (omega arith) (omega arith)
  window-append cap f i (suc n) m =
      ap (window cap f i) {y = suc (n + m)} (omega arith)
      ∙ ap (λ t. f (i % cap) ∷ t)
          (window-append cap f (i + 1) n m
            ∙ ap (λ t. window cap f (i + 1) n ++ window cap f t m) (omega arith))

  pub length-window : (cap : ℕ) (f : ℕ → A) (i n : ℕ) → length (window cap f i n) ≡ n
  unfolding window
  length-window cap f i zero = refl
  length-window cap f i (suc n) = ap suc (length-window cap f (i + 1) n)

-- `2^64` is a multiple of each smaller power.
pub pow_split : (k d : ℕ) → 2 ^ (k + d) ≡ 2 ^ k * 2 ^ d
pow_split zero d = omega (arith, ap (λ t. 2 ^ t) {x = 0 + d} {y = d} (omega arith))
pow_split (suc k) d = omega (
  arith,
  ap (λ t. 2 ^ t) {x = suc k + d} {y = suc (k + d)} (omega arith),
  two-pow-succ (k + d),
  ap (λ t. t * 2 ^ d) (two-pow-succ k),
  pow_split k d,
)

pub mod_word : (k x : ℕ) → k ≤ 64 → x % 2 ^ 64 % 2 ^ k ≡ x % 2 ^ k
mod_word k x h = mod-mod_of_dvd (2 ^ k) x ∣ (
  2 ^ (64 - k),
  ap (λ t. 2 ^ t) {x = 64} {y = k + (64 - k)} (omega arith) ∙ pow_split k (64 - k),
) ∣₁

module _ {A : Type 0} where
  -- The loops of the code, with their mask and their wrapping index, are those of the window.
  pub write_loop-eq-store_all :
      (k : ℕ) (xs : List A) (f : ℕ → A) (i : ℕ)
      → k ≤ 64
      → write_loop (2 ^ k - 1) i xs f ≡ store_all (2 ^ k) i xs f
  unfolding write_loop store_all
  write_loop-eq-store_all k [] f i h = refl
  write_loop-eq-store_all k (x ∷ xs) f i h =
      write_loop-eq-store_all k xs (store f (bit_and i (2 ^ k - 1)) x) (add64 i 1) h
      ∙ ap (λ t. store_all (2 ^ k) (add64 i 1) xs (store f t x)) (bit_and_mask k i)
      ∙ store_all_mod (2 ^ k) xs (store f (i % 2 ^ k) x) (add64 i 1) (i + 1) (mod_word k (i + 1) h)

  pub read_loop-eq-window :
      (k n : ℕ) (f : ℕ → A) (i : ℕ) → k ≤ 64 → read_loop (2 ^ k - 1) i n f ≡ window (2 ^ k) f i n
  unfolding read_loop window
  read_loop-eq-window k zero f i h = refl
  read_loop-eq-window k (suc n) f i h = ap₂ ◌∷◌ (ap f (bit_and_mask k i)) (
      read_loop-eq-window k n f (add64 i 1) h
      ∙ window_mod (2 ^ k) f (add64 i 1) (i + 1) n (mod_word k (i + 1) h))
