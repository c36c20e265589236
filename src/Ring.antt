-- ===== src/Ring.antt =====
-- The rings of 256 entries that the input readers of src/input keep: an array, the index where the
-- next entry goes, and the index of the oldest. One entry stays free, so at most 255 wait.
use Prim.Native.Nat.{bit_and}
use mathlib.Core.Path.{ap₂}
use de_mo_d.Prelude.{
  ℕ, ◌+◌, ◌-◌, ◌%◌, ◌<◌, ◌==◌, if◌then◌else◌, arith, length, bit_and_mask, true, false,
}
use de_mo_d.Prelude.{◌≡◌, ap, ◌∙◌, List, [], ◌∷◌, ◌++◌}
use de_mo_d.Ipc.Spsc.Window.{
  window, store_all, window-store_all, window-append, window_mod, length-window,
}

-- `f[i] = x`
abbrev pub put : {A : Type 0} → (ℕ → A) → ℕ → A → ℕ → A
put f i x j = if j == i then x else f j

-- `(i + 1) & (256 - 1)`
abbrev pub next_index : ℕ → ℕ
next_index i = bit_and (i + 1) 255

abbrev pub waiting : ℕ → ℕ → ℕ
waiting head tail = (head + 256 - tail) % 256

-- The entries, the oldest first.
unfoldable pub entries : {A : Type 0} → (ℕ → A) → ℕ → ℕ → List A
entries q head tail = window 256 q tail (waiting head tail)

pub next_lem : (x : ℕ) → next_index x ≡ (x + 1) % 256
next_lem x = bit_and_mask 8 (x + 1)

module _ {A : Type 0} (q : ℕ → A) (head tail : ℕ) (below : head < 256) (below' : tail < 256) where
  pub entries_full : (next_index head == tail) ≡ true → (length (entries q head tail) == 255) ≡ true
  unfolding entries
  entries_full full = ground (arith, next_lem head, length-window 256 q tail (waiting head tail))

  pub entries_fits :
      (next_index head == tail) ≡ false → (length (entries q head tail) == 255) ≡ false
  unfolding entries
  entries_fits fits = ground (arith, next_lem head, length-window 256 q tail (waiting head tail))

  pub entries_room : length (entries q head tail) < 255 → (next_index head == tail) ≡ false
  unfolding entries
  entries_room room = ground (arith, next_lem head, length-window 256 q tail (waiting head tail))

  pub entries-put :
      (x : A)
      → (next_index head == tail) ≡ false
      → entries (put q head x) (next_index head) tail ≡ entries q head tail ++ (x ∷ [])
  unfolding entries store_all
  entries-put x fits =
      ap (λ f. window 256 f tail ((next_index head + 256 - tail) % 256))
        (ap (λ i. put q i x) {x = head} {y = (tail + waiting head tail) % 256} (omega arith))
      ∙ ap (window 256 (put q ((tail + waiting head tail) % 256) x) tail)
          {x = (next_index head + 256 - tail) % 256} {y = waiting head tail + 1}
          (ground (arith, next_lem head))
      ∙ window-store_all 256 (x ∷ []) q tail (waiting head tail) (omega arith)

  pub entries_front :
      (tail == head) ≡ false → entries q head tail ≡ q tail ∷ entries q head (next_index tail)
  unfolding entries window
  entries_front some_there =
      ap (window 256 q tail) {x = waiting head tail} {y = 1 + left} (ground (arith, next_lem tail))
      ∙ window-append 256 q tail 1 left
      ∙ ap₂ ◌++◌ (ap (λ i. q i ∷ []) {x = tail % 256} {y = tail} (omega arith))
          (window_mod 256 q (tail + 1) (next_index tail) left (omega (arith, next_lem tail)))
    where
      left : ℕ
      left = (head + 256 - next_index tail) % 256

pub entries_empty : {A : Type 0} (q : ℕ → A) (i : ℕ) → i < 256 → entries q i i ≡ []
unfolding entries window
entries_empty q i h = ap (window 256 q i) {x = waiting i i} {y = 0} (omega arith)
