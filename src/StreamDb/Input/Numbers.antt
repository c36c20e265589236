-- ===== src/StreamDb/Input/Numbers.antt =====
-- The numbers and byte strings of a file of src/db/streamdb.c, written and read back.
use native.Mathlib.Nat.{pow-succ'}
use de_mo_d.Prelude.{
  ℕ, zero, suc, ◌/◌, ◌^◌, ◌<◌, arith, length, length-append, take, drop, some, List, [], ◌∷◌, ◌++◌,
  ◌≡◌, refl, sym, ap, ◌∙◌, if_false, ltb,
}
use mathlib.Core.Path.{ap₂}
use de_mo_d.StreamDb.Types.{Counts}
use de_mo_d.StreamDb.Serialize.{le_bytes}
use de_mo_d.StreamDb.Input.{Load, pure, >>=-some, le_value, fread, fread_number}

pub le_value-le_bytes : (n x : ℕ) → x < 256 ^ n → le_value (le_bytes n x) ≡ x
unfolding le_value le_bytes
le_value-le_bytes zero x h = omega arith
le_value-le_bytes (suc n) x h =
    omega (arith, le_value-le_bytes n (x / 256) (omega (arith, pow-succ' 256 n)))

length-le_bytes : (n x : ℕ) → length (le_bytes n x) ≡ n
unfolding le_bytes
length-le_bytes zero x = refl
length-le_bytes (suc n) x = ap suc (length-le_bytes n (x / 256))

take-append : (xs ys : List ℕ) → take (length xs) (xs ++ ys) ≡ xs
take-append [] ys = refl
take-append (x ∷ xs) ys = ap (λ t. x ∷ t) (take-append xs ys)

drop-append : (xs ys : List ℕ) → drop (length xs) (xs ++ ys) ≡ ys
drop-append [] ys = refl
drop-append (x ∷ xs) ys = drop-append xs ys

-- A file whose rest is `input`, and an allocator that never fails.
abbrev pub file : List ℕ → Counts → Load
file input c = record { input = input; counts = c; mem = [] }

pub fread-append :
    (n : ℕ) (xs ys : List ℕ) (c : Counts)
    → length xs ≡ n
    → fread n (file (xs ++ ys) c) ≡ (some xs, file ys c)
unfolding fread
fread-append n xs ys c h =
    ap (λ k. fread k (file (xs ++ ys) c)) (sym h)
    ∙ if_false {b = ltb (length (xs ++ ys)) (length xs)} _ _ (ground (arith, length-append xs ys))
    ∙ ap₂ (λ a b. (some a, file b c)) (take-append xs ys) (drop-append xs ys)

pub fread_number-append :
    (n x : ℕ) (ys : List ℕ) (c : Counts)
    → x < 256 ^ n
    → fread_number n (file (le_bytes n x ++ ys) c) ≡ (some x, file ys c)
unfolding fread_number
fread_number-append n x ys c h =
    >>=-some (fread n) (λ bs. pure (le_value bs)) _
      (fread-append n (le_bytes n x) ys c (length-le_bytes n x))
    ∙ ap (λ t. (some t, file ys c)) (le_value-le_bytes n x h)
