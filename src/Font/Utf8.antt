-- ===== src/Font/Utf8.antt =====
-- The decoder of src/core/font.c against the encoding of RFC 3629.
use Prim.Native.Nat.{bit_and, bit_or}
use de_mo_d.Prelude.{ℕ, ◌+◌, ◌*◌, ◌/◌, ◌%◌, ◌^◌, ◌≤◌, ◌<◌, ◌==◌, ltb, if◌then◌else◌}
use de_mo_d.Prelude.{true, not, ◌&&◌, List, [], ◌∷◌, ◌++◌}
use de_mo_d.Prelude.{length, every, every_sound, bit_and_mask, bit_or-shift, arith}
use mathlib.Core.Path.{subst}
use de_mo_d.Prelude.{◌≡◌, refl, sym, ap, ◌∙◌, ◌⊎◌, inl, inr}
use de_mo_d.Font.{is_tail, decode_two, decode_three, decode_four, dm_utf8_decode}

-- The bytes of a code point.
unfoldable pub encode : ℕ → List ℕ
encode c =
    if ltb c 128
    then c ∷ []
    else if ltb c 2048
    then (192 + c / 64) ∷ (128 + c % 64) ∷ []
    else if ltb c 65536
    then (224 + c / 4096) ∷ (128 + c / 64 % 64) ∷ (128 + c % 64) ∷ []
    else (240 + c / 262144) ∷ (128 + c / 4096 % 64) ∷ (128 + c / 64 % 64) ∷ (128 + c % 64) ∷ []

-- A Unicode scalar value other than zero, which ends a string.
abbrev pub IsScalar : ℕ → Type 0
IsScalar c = (0 < c) × (c < 55296 ⊎ 57343 < c) × (c < 1114112)

tail_true : (y : ℕ) → y < 64 → is_tail (128 + y) ≡ true
unfolding is_tail
tail_true y h = every_sound 64 (λ y. is_tail (128 + y)) y (unfold every in refl) h

tail_bits : (y : ℕ) → y < 64 → bit_and (128 + y) 63 ≡ y
tail_bits y h = omega (arith, bit_and_mask 6 (128 + y))

lead_two : (x : ℕ) → x < 32 → (bit_and (192 + x) 224 == 192) ≡ true
lead_two x h = every_sound 32 (λ x. bit_and (192 + x) 224 == 192) x (unfold every in refl) h

lead_three :
    (x : ℕ) → x < 16 → (not (bit_and (224 + x) 224 == 192) && bit_and (224 + x) 240 == 224) ≡ true
lead_three x h =
    every_sound 16 (λ x. not (bit_and (224 + x) 224 == 192) && bit_and (224 + x) 240 == 224) x
      (unfold every in refl) h

lead_four :
    (x : ℕ)
    → x < 8
    → (not (bit_and (240 + x) 224 == 192)
        && not (bit_and (240 + x) 240 == 224)
        && bit_and (240 + x) 248 == 240)
      ≡ true
lead_four x h =
    every_sound 8
      (λ x.
        not (bit_and (240 + x) 224 == 192)
        && not (bit_and (240 + x) 240 == 224)
        && bit_and (240 + x) 248 == 240)
      x (unfold every in refl) h

pub two_value :
    (x y : ℕ)
    → x < 32
    → y < 64
    → bit_or (bit_and (192 + x) 31 * 2 ^ 6) (bit_and (128 + y) 63) ≡ x * 64 + y
two_value x y hx hy =
    ap (λ r. bit_or (r * 2 ^ 6) (bit_and (128 + y) 63)) {x = bit_and (192 + x) 31} {y = x}
      (omega (arith, bit_and_mask 5 (192 + x)))
    ∙ ap (bit_or (x * 2 ^ 6)) (tail_bits y hy)
    ∙ bit_or-shift 6 x y hy

pub le_or_lt : (a b : ℕ) → (a ≤ b) ⊎ (b < a)
le_or_lt a b = ground arith

decode-one : (c : ℕ) (rest : List ℕ) → 0 < c → c < 128 → dm_utf8_decode (c ∷ rest) ≡ (c, 1)
unfolding dm_utf8_decode
decode-one c rest pos h = ground arith

decode-two :
    (x y : ℕ) (rest : List ℕ)
    → x < 32
    → y < 64
    → 128 ≤ x * 64 + y
    → dm_utf8_decode ((192 + x) ∷ (128 + y) ∷ rest) ≡ (x * 64 + y, 2)
unfolding dm_utf8_decode decode_two
decode-two x y rest hx hy h = ground (arith, two_value x y hx hy, lead_two x hx, tail_true y hy)

pub three_value :
    (x y z : ℕ)
    → x < 16
    → y < 64
    → z < 64
    → bit_or
        (bit_or (bit_and (224 + x) 15 * 2 ^ 12) (bit_and (128 + y) 63 * 2 ^ 6))
        (bit_and (128 + z) 63)
      ≡ x * 4096 + y * 64 + z
three_value x y z hx hy hz =
    ap (λ r. bit_or (bit_or (r * 2 ^ 12) (bit_and (128 + y) 63 * 2 ^ 6)) (bit_and (128 + z) 63))
      {x = bit_and (224 + x) 15} {y = x} (omega (arith, bit_and_mask 4 (224 + x)))
    ∙ ap (λ r. bit_or (bit_or (x * 2 ^ 12) (r * 2 ^ 6)) (bit_and (128 + z) 63)) (tail_bits y hy)
    ∙ ap (bit_or (bit_or (x * 2 ^ 12) (y * 2 ^ 6))) (tail_bits z hz)
    ∙ ap (λ r. bit_or r z) {y = (x * 64 + y) * 2 ^ 6}
        (bit_or-shift 12 x (y * 2 ^ 6) (omega arith) ∙ omega arith)
    ∙ bit_or-shift 6 (x * 64 + y) z hz
    ∙ omega arith

pub four_value :
    (x y z w : ℕ)
    → x < 8
    → y < 64
    → z < 64
    → w < 64
    → bit_or
        (bit_or
          (bit_or (bit_and (240 + x) 7 * 2 ^ 18) (bit_and (128 + y) 63 * 2 ^ 12))
          (bit_and (128 + z) 63 * 2 ^ 6))
        (bit_and (128 + w) 63)
      ≡ x * 262144 + y * 4096 + z * 64 + w
four_value x y z w hx hy hz hw =
    ap
      (λ r.
        bit_or
          (bit_or (bit_or (r * 2 ^ 18) (bit_and (128 + y) 63 * 2 ^ 12))
            (bit_and (128 + z) 63 * 2 ^ 6))
          (bit_and (128 + w) 63))
      {x = bit_and (240 + x) 7} {y = x} (omega (arith, bit_and_mask 3 (240 + x)))
    ∙ ap
        (λ r.
          bit_or (bit_or (bit_or (x * 2 ^ 18) (r * 2 ^ 12)) (bit_and (128 + z) 63 * 2 ^ 6))
            (bit_and (128 + w) 63))
        (tail_bits y hy)
    ∙ ap
        (λ r. bit_or (bit_or (bit_or (x * 2 ^ 18) (y * 2 ^ 12)) (r * 2 ^ 6)) (bit_and (128 + w) 63))
        (tail_bits z hz)
    ∙ ap (bit_or (bit_or (bit_or (x * 2 ^ 18) (y * 2 ^ 12)) (z * 2 ^ 6))) (tail_bits w hw)
    ∙ ap (λ r. bit_or (bit_or r (z * 2 ^ 6)) w) {y = (x * 64 + y) * 2 ^ 12}
        (bit_or-shift 18 x (y * 2 ^ 12) (omega arith) ∙ omega arith)
    ∙ ap (λ r. bit_or r w) {y = (x * 4096 + y * 64 + z) * 2 ^ 6}
        (bit_or-shift 12 (x * 64 + y) (z * 2 ^ 6) (omega arith) ∙ omega arith)
    ∙ bit_or-shift 6 (x * 4096 + y * 64 + z) w hw
    ∙ omega arith

decode-three :
    (x y z : ℕ) (rest : List ℕ)
    → x < 16
    → y < 64
    → z < 64
    → 2048 ≤ x * 4096 + y * 64 + z
    → (x * 4096 + y * 64 + z < 55296 ⊎ 57343 < x * 4096 + y * 64 + z)
    → dm_utf8_decode ((224 + x) ∷ (128 + y) ∷ (128 + z) ∷ rest) ≡ (x * 4096 + y * 64 + z, 3)
unfolding dm_utf8_decode decode_three
decode-three x y z rest hx hy hz h g =
    ground (arith, three_value x y z hx hy hz, lead_three x hx, tail_true y hy, tail_true z hz)

decode-four :
    (x y z w : ℕ) (rest : List ℕ)
    → x < 8
    → y < 64
    → z < 64
    → w < 64
    → 65536 ≤ x * 262144 + y * 4096 + z * 64 + w
    → x * 262144 + y * 4096 + z * 64 + w < 1114112
    → dm_utf8_decode ((240 + x) ∷ (128 + y) ∷ (128 + z) ∷ (128 + w) ∷ rest)
      ≡ (x * 262144 + y * 4096 + z * 64 + w, 4)
unfolding dm_utf8_decode decode_four
decode-four x y z w rest hx hy hz hw h g = ground (
  arith,
  four_value x y z w hx hy hz hw,
  lead_four x hx,
  tail_true y hy,
  tail_true z hz,
  tail_true w hw,
)

pub encode_one : (c : ℕ) → c < 128 → encode c ≡ c ∷ []
unfolding encode
encode_one c h = ground arith

pub encode_two : (c : ℕ) → 128 ≤ c → c < 2048 → encode c ≡ (192 + c / 64) ∷ (128 + c % 64) ∷ []
unfolding encode
encode_two c l h = ground arith

pub encode_three :
    (c : ℕ)
    → 2048 ≤ c
    → c < 65536
    → encode c ≡ (224 + c / 4096) ∷ (128 + c / 64 % 64) ∷ (128 + c % 64) ∷ []
unfolding encode
encode_three c l h = ground arith

pub encode_four :
    (c : ℕ)
    → 65536 ≤ c
    → encode c
      ≡ (240 + c / 262144) ∷ (128 + c / 4096 % 64) ∷ (128 + c / 64 % 64) ∷ (128 + c % 64) ∷ []
unfolding encode
encode_four c l = ground arith

abbrev Reads : ℕ → List ℕ → List ℕ → Type 0
Reads c rest bytes = dm_utf8_decode (bytes ++ rest) ≡ (c, length bytes)

-- The bytes of a code point decode to it, whatever follows them, and all of them are consumed.
pub dm_utf8_decode-encode :
    (c : ℕ) (rest : List ℕ)
    → IsScalar c
    → dm_utf8_decode (encode c ++ rest) ≡ (c, length (encode c))
dm_utf8_decode-encode c rest (pos, gap, top) = elim (le_or_lt 128 c) [
  | inr one ↦ subst (Reads c rest) (sym (encode_one c one)) (decode-one c rest pos one)
  | inl l1 ↦ elim (le_or_lt 2048 c) [
    | inr two ↦ subst (Reads c rest) (sym (encode_two c l1 two)) (
        decode-two (c / 64) (c % 64) rest (omega arith) (omega arith) (omega arith)
        ∙ ap (λ r. (r, 2)) (omega arith))
    | inl l2 ↦ elim (le_or_lt 65536 c) [
      | inr three ↦ subst (Reads c rest) (sym (encode_three c l2 three)) (
          decode-three (c / 4096) (c / 64 % 64) (c % 64) rest (omega arith) (omega arith)
            (omega arith) (omega (arith, three_parts c)) (subst Gap (three_parts c) gap)
          ∙ ap (λ r. (r, 3)) (sym (three_parts c)))
      | inl l3 ↦ subst (Reads c rest) (sym (encode_four c l3)) (
          decode-four (c / 262144) (c / 4096 % 64) (c / 64 % 64) (c % 64) rest (omega arith)
            (omega arith) (omega arith) (omega arith) (omega (arith, four_parts c))
            (omega (arith, four_parts c))
          ∙ ap (λ r. (r, 4)) (sym (four_parts c)))
    ]
  ]
]
  where
    Gap : ℕ → Type 0
    Gap c = c < 55296 ⊎ 57343 < c

    three_parts : (c : ℕ) → c ≡ c / 4096 * 4096 + c / 64 % 64 * 64 + c % 64
    three_parts c = omega arith

    four_parts :
        (c : ℕ) → c ≡ c / 262144 * 262144 + c / 4096 % 64 * 4096 + c / 64 % 64 * 64 + c % 64
    four_parts c = omega arith
