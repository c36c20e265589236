-- ===== src/Font/Strict.antt =====
-- What the decoder of src/core/font.c accepts.
use Prim.Native.Nat.{bit_and}
use mathlib.Core.Path.{subst}
use de_mo_d.Prelude.{on_branches, &&-both, ne→==, ℕ, ◌+◌, ◌-◌, ◌<◌, ◌==◌, ltb, if◌then◌else◌}
use de_mo_d.Prelude.{Bool, true, ◌&&◌, List, [], ◌∷◌, ◌++◌, Bytes}
use de_mo_d.Prelude.{length, every, if_false, ltb→lt, arith}
use de_mo_d.Prelude.{◌≡◌, refl, sym, ap, ◌⊎◌, inl, inr}
use de_mo_d.Font.{byte_at, invalid, is_tail, decode_two, decode_three, decode_four, dm_utf8_decode}
use de_mo_d.Font.Utf8.{encode_one}
use de_mo_d.Font.Forms.{
  IsRead, IsSound, lead_inv, tail_front, pair_accepted, triple_accepted, quad_accepted,
}

one_byte : (b : ℕ) (s : List ℕ) → 0 < b → b < 128 → IsSound (b ∷ s) (b, if b == 0 then 0 else 1)
one_byte b s pos h =
    subst (λ n. IsSound (b ∷ s) (b, n)) (sym (if_false {b = b == 0} 0 1 (ne→== b 0 (omega arith))))
      (inr (
        (pos, inl (omega arith), omega arith),
        sym (ap (λ e. e ++ s) (encode_one b h)),
        sym (ap length (encode_one b h)),
      ))

pair_read :
    (b : ℕ) (s : List ℕ)
    → b < 256
    → Bytes s
    → (bit_and b 224 == 192) ≡ true
    → is_tail (byte_at s 0) ≡ true
    → IsSound (b ∷ s) (decode_two b (byte_at s 0))
pair_read b s hb hs lead t =
    let (lo, hi) = lead_inv 224 192 224 b (unfold every in refl) hb lead in
    let tail = tail_front s hs t in
    subst (λ s. IsSound (b ∷ s) (decode_two b (byte_at s 0))) (sym tail.front)
      (subst (λ b. IsSound (b ∷ (128 + tail.y) ∷ tail.rest) (decode_two b (128 + tail.y)))
        {x = 192 + (b - 192)} {y = b} (omega arith)
        (pair_accepted (b - 192) tail.y tail.rest (omega arith) tail.small))

triple_read :
    (b : ℕ) (s : List ℕ)
    → b < 256
    → Bytes s
    → (bit_and b 240 == 224) ≡ true
    → is_tail (byte_at s 0) ≡ true
    → is_tail (byte_at s 1) ≡ true
    → IsSound (b ∷ s) (decode_three b (byte_at s 0) (byte_at s 1))
triple_read b s hb hs lead t0 t1 =
    let (lo, hi) = lead_inv 240 224 240 b (unfold every in refl) hb lead in
    let first = tail_front s hs t0 in
    let second =
      tail_front first.rest first.others
        (subst (λ s. is_tail (byte_at s 1) ≡ true) first.front t1) in
    subst (λ s. IsSound (b ∷ s) (decode_three b (byte_at s 0) (byte_at s 1))) (sym first.front)
      (subst (λ r. IsSound (b ∷ (128 + first.y) ∷ r) (decode_three b (128 + first.y) (byte_at r 0)))
        (sym second.front)
        (subst
          (λ b.
            IsSound (b ∷ (128 + first.y) ∷ (128 + second.y) ∷ second.rest)
              (decode_three b (128 + first.y) (128 + second.y)))
          {x = 224 + (b - 224)} {y = b} (omega arith)
          (triple_accepted (b - 224) first.y second.y second.rest (omega arith) first.small
            second.small)))

quad_read :
    (b : ℕ) (s : List ℕ)
    → b < 256
    → Bytes s
    → (bit_and b 248 == 240) ≡ true
    → is_tail (byte_at s 0) ≡ true
    → is_tail (byte_at s 1) ≡ true
    → is_tail (byte_at s 2) ≡ true
    → IsSound (b ∷ s) (decode_four b (byte_at s 0) (byte_at s 1) (byte_at s 2))
quad_read b s hb hs lead t0 t1 t2 =
    let (lo, hi) = lead_inv 248 240 248 b (unfold every in refl) hb lead in
    let first = tail_front s hs t0 in
    let second =
      tail_front first.rest first.others
        (subst (λ s. is_tail (byte_at s 1) ≡ true) first.front t1) in
    let third = tail_front second.rest second.others (
      subst (λ r. is_tail (byte_at r 1) ≡ true) second.front
        (subst (λ s. is_tail (byte_at s 2) ≡ true) first.front t2)) in
    subst (λ s. IsSound (b ∷ s) (decode_four b (byte_at s 0) (byte_at s 1) (byte_at s 2)))
      (sym first.front)
      (subst
        (λ r.
          IsSound (b ∷ (128 + first.y) ∷ r)
            (decode_four b (128 + first.y) (byte_at r 0) (byte_at r 1)))
        (sym second.front)
        (subst
          (λ q.
            IsSound (b ∷ (128 + first.y) ∷ (128 + second.y) ∷ q)
              (decode_four b (128 + first.y) (128 + second.y) (byte_at q 0)))
          (sym third.front)
          (subst
            (λ b.
              IsSound (b ∷ (128 + first.y) ∷ (128 + second.y) ∷ (128 + third.y) ∷ third.rest)
                (decode_four b (128 + first.y) (128 + second.y) (128 + third.y)))
            {x = 240 + (b - 240)} {y = b} (omega arith)
            (quad_accepted (b - 240) first.y second.y third.y third.rest (omega arith) first.small
              second.small third.small))))

-- At the bytes of a string that is not at its end, the decoder either yields U+FFFD and one byte, or
-- a code point that is a scalar value and whose shortest encoding stands at the front of the string,
-- with the number of its bytes: no surrogate, no overlong form and no value past 0x10FFFF.
pub dm_utf8_decode_strict :
    (s : List ℕ)
    → Bytes s
    → 0 < byte_at s 0
    → (dm_utf8_decode s ≡ invalid) ⊎ IsRead (dm_utf8_decode s) s
unfolding dm_utf8_decode
dm_utf8_decode_strict [] hs pos = absurd (omega arith)
dm_utf8_decode_strict (b ∷ s) (hb, hs) pos =
    on_branches P (ltb b 128) (λ one. one_byte b s pos (ltb→lt b 128 one))
      (λ _.
        on_branches P (bit_and b 224 == 192 && is_tail (byte_at s 0))
          (λ h. let (lead, t) = &&-both _ _ h in pair_read b s hb hs lead t)
          (λ _.
            on_branches P (bit_and b 240 == 224 && is_tail (byte_at s 0) && is_tail (byte_at s 1))
              (λ h. let (lead, t, t1) = three_tests _ _ _ h in triple_read b s hb hs lead t t1)
              (λ _.
                on_branches P
                  (bit_and b 248 == 240
                    && is_tail (byte_at s 0)
                    && is_tail (byte_at s 1)
                    && is_tail (byte_at s 2))
                  (λ h.
                    let (lead, t, t1, t2) = four_tests _ _ _ _ h in
                    quad_read b s hb hs lead t t1 t2)
                  (λ _. inl refl))))
  where
    P : ℕ × ℕ → Type 0
    P = IsSound (b ∷ s)

    three_tests : (p q r : Bool) → (p && q && r) ≡ true → (p ≡ true) × (q ≡ true) × (r ≡ true)
    three_tests p q r h = ground arith

    four_tests :
        (p q r t : Bool)
        → (p && q && r && t) ≡ true
        → (p ≡ true) × (q ≡ true) × (r ≡ true) × (t ≡ true)
    four_tests p q r t h = ground arith
