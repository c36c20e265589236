-- ===== src/Prelude/Loops.antt =====
-- Counted loops `for (i = k; i < k + n; i++)`, and the lists that their rounds make.
use Prim.Native.Nat.{ℕ, zero, suc, ◌+◌, ◌≤◌, ◌<◌}
use mathlib.Core.Path.{◌≡◌, ◌∙◌, ap, sym}
use mathlib.Core.List.{List, [], ◌∷◌, ◌++◌}
use mathlib.Core.Logic.{◌⊎◌, inl, inr}
use mathlib.Core.Bool.{Bool, true, ◌&&◌}
use native.Mathlib.Omega.{arith}
use native.Mathlib.Decide.{ℕ_discrete}

-- `n` rounds from `i` on; a round is given the index and the state.
unfoldable pub loop {ℓ} : {S : Type ℓ} → ℕ → ℕ → (ℕ → S → S) → S → S
loop zero i f s = s
loop (suc n) i f s = loop n (suc i) f (f i s)

-- `g i ++ g (i + 1) ++ ...`, `n` parts.
unfoldable pub gather {ℓ} : {A : Type ℓ} → ℕ → ℕ → (ℕ → List A) → List A
gather zero i g = []
gather (suc n) i g = g i ++ gather n (suc i) g

-- Membership by recursion on the list.
abbrev pub In : {A : Type 0} → A → List A → Type 0
In x [] = ⊥
In x (y ∷ ys) = (x ≡ y) ⊎ In x ys

module _ {A : Type 0} where
  pub In-append_left : (x : A) (xs ys : List A) → In x xs → In x (xs ++ ys)
  In-append_left x [] ys h = absurd h
  In-append_left x (y ∷ xs) ys (inl e) = inl e
  In-append_left x (y ∷ xs) ys (inr h) = inr (In-append_left x xs ys h)

  pub In-append_right : (x : A) (xs ys : List A) → In x ys → In x (xs ++ ys)
  In-append_right x [] ys h = h
  In-append_right x (y ∷ xs) ys h = inr (In-append_right x xs ys h)

  pub In-append_cases : (x : A) (xs ys : List A) → In x (xs ++ ys) → In x xs ⊎ In x ys
  In-append_cases x [] ys h = inr h
  In-append_cases x (y ∷ xs) ys (inl e) = inl (inl e)
  In-append_cases x (y ∷ xs) ys (inr h) = elim (In-append_cases x xs ys h) [
    | inl a ↦ inl (inr a)
    | inr b ↦ inr b
  ]

  pub In-gather :
      (x : A) (n i j : ℕ) (g : ℕ → List A) → i ≤ j → j < i + n → In x (g j) → In x (gather n i g)
  unfolding gather
  In-gather x zero i j g lo hi h = absurd (omega arith)
  In-gather x (suc n) i j g lo hi h = elim (ℕ_discrete i j) [
    | yes e ↦ In-append_left x (g i) (gather n (suc i) g) (rw e h)
    | no ne ↦
        In-append_right x (g i) (gather n (suc i) g)
          (In-gather x n (suc i) j g (omega arith) (omega arith) h)
  ]

  pub In-gather_inv :
      (x : A) (n i : ℕ) (g : ℕ → List A)
      → In x (gather n i g)
      → (j : ℕ) × (i ≤ j) × (j < i + n) × In x (g j)
  unfolding gather
  In-gather_inv x zero i g h = absurd h
  In-gather_inv x (suc n) i g h = elim (In-append_cases x (g i) (gather n (suc i) g) h) [
    | inl a ↦ (i, omega arith, omega arith, a)
    | inr b ↦
        (let (j, lo, hi, d) = In-gather_inv x n (suc i) g b in (j, omega arith, omega arith, d))
  ]

-- A loop whose rounds run lists is a run of the gathered list.
pub loop-gather {ℓ κ} :
    {A : Type ℓ} {S : Type κ} (run : List A → S → S)
    → ((s : S) → run [] s ≡ s)
    → ((xs ys : List A) (s : S) → run (xs ++ ys) s ≡ run ys (run xs s))
    → (n i : ℕ) (f : ℕ → S → S) (g : ℕ → List A) (s : S) → ((j : ℕ) (s : S) → f j s ≡ run (g j) s)
    → loop n i f s ≡ run (gather n i g) s
unfolding loop gather
loop-gather run run_nil run_append zero i f g s h = sym (run_nil s)
loop-gather run run_nil run_append (suc n) i f g s h =
    ap (loop n (suc i) f) (h i s)
    ∙ loop-gather run run_nil run_append n (suc i) f g (run (g i) s) h
    ∙ sym (run_append (g i) (gather n (suc i) g) s)

-- All numbers below `n` pass.
unfoldable pub every : ℕ → (ℕ → Bool) → Bool
every zero p = true
every (suc n) p = p n && every n p

pub every_sound : (n : ℕ) (p : ℕ → Bool) (x : ℕ) → every n p ≡ true → x < n → p x ≡ true
unfolding every
every_sound zero p x h l = absurd (omega arith)
every_sound (suc n) p x h l = ground (arith, every_sound n p x)
