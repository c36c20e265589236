-- ===== src/Qbits/ZigZag.antt =====
-- The zig-zag map of quanta/include/qbits.h.
use Prim.Native.Nat.{bit_xor}
use de_mo_d.Prelude.{ℕ, ◌+◌, ◌-◌, ◌*◌, ◌/◌, ◌%◌, ◌^◌, ◌≤◌, ◌<◌, ◌==◌, ltb, if◌then◌else◌}
use de_mo_d.Prelude.{
  ◌≡◌, ◌∙◌, sym, ap, ◌⊎◌, inl, inr, arith, bit_xor-zero, bit_xor-ones, if_true, if_false, eq→==,
  ne→==,
}
use de_mo_d.Qbits.{zz_enc, zz_dec}

zz_enc_nonnegative : (v : ℕ) → v < 2 ^ 31 → zz_enc v ≡ 2 * v
unfolding zz_enc
zz_enc_nonnegative v h =
    ap (bit_xor (v * 2 % 2 ^ 32)) (if_true {b = ltb v (2 ^ 31)} _ _ (ground arith))
    ∙ bit_xor-zero (v * 2 % 2 ^ 32)
    ∙ omega arith

zz_enc_negative : (v : ℕ) → 2 ^ 31 ≤ v → v < 2 ^ 32 → zz_enc v ≡ 2 * (2 ^ 32 - v) - 1
unfolding zz_enc
zz_enc_negative v l h =
    ap (bit_xor (v * 2 % 2 ^ 32)) (if_false {b = ltb v (2 ^ 31)} _ _ (ground arith))
    ∙ omega (arith, bit_xor-ones 32 (v * 2 % 2 ^ 32) (omega arith))

zz_dec_even : (u : ℕ) → zz_dec (2 * u) ≡ u
unfolding zz_dec
zz_dec_even u =
    ap (bit_xor (2 * u / 2)) (if_true {b = 2 * u % 2 == 0} _ _ (eq→== (2 * u % 2) 0 (omega arith)))
    ∙ bit_xor-zero (2 * u / 2)
    ∙ omega arith

zz_dec_odd : (u : ℕ) → u < 2 ^ 31 → zz_dec (2 * u + 1) ≡ 2 ^ 32 - 1 - u
unfolding zz_dec
zz_dec_odd u h =
    ap (bit_xor ((2 * u + 1) / 2))
      (if_false {b = (2 * u + 1) % 2 == 0} _ _ (ne→== ((2 * u + 1) % 2) 0 (λ e. omega arith)))
    ∙ omega (arith, bit_xor-ones 32 ((2 * u + 1) / 2) (omega arith))

-- The zig-zag map takes every number of 32 bits, read with its sign, to its place in the order 0, -1, 1,
-- -2 and so on, and `zz_dec` leads back from it.
pub zz_dec-zz_enc :
    (v : ℕ)
    → v < 2 ^ 32
    → (zz_enc v ≡ (if ltb v (2 ^ 31) then 2 * v else 2 * (2 ^ 32 - v) - 1))
      × (zz_dec (zz_enc v) ≡ v)
zz_dec-zz_enc v h = elim (signs v) [
  | inl l ↦ (
    zz_enc_nonnegative v l ∙ sym (if_true {b = ltb v (2 ^ 31)} _ _ (ground arith)),
    ap zz_dec (zz_enc_nonnegative v l) ∙ zz_dec_even v,
  )
  | inr l ↦ (
    zz_enc_negative v l h ∙ sym (if_false {b = ltb v (2 ^ 31)} _ _ (ground arith)),
    ap zz_dec (zz_enc_negative v l h)
        ∙ ap zz_dec {x = 2 * (2 ^ 32 - v) - 1} {y = 2 * (2 ^ 32 - 1 - v) + 1} (omega arith)
        ∙ zz_dec_odd (2 ^ 32 - 1 - v) (omega arith)
        ∙ omega arith,
  )
]
  where
    signs : (v : ℕ) → (v < 2 ^ 31) ⊎ (2 ^ 31 ≤ v)
    signs v = ground arith
