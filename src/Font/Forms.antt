-- ===== src/Font/Forms.antt =====
-- The forms of two, three and four bytes that the decoder of src/core/font.c accepts.
use Prim.Native.Nat.{bit_and}
use mathlib.Core.Path.{subst}
use de_mo_d.Prelude.{ℕ, ◌+◌, ◌-◌, ◌*◌, ◌/◌, ◌%◌, ◌≤◌, ◌<◌, ◌==◌, ltb, leb}
use de_mo_d.Prelude.{true, not, ◌&&◌, ◌||◌, List, [], ◌∷◌, ◌++◌, Bytes}
use de_mo_d.Prelude.{length, drop, every, every_sound, arith}
use de_mo_d.Prelude.{◌≡◌, refl, sym, ap, ◌∙◌, ◌⊎◌, inl, inr}
use de_mo_d.Font.{byte_at, invalid, is_tail, decode_two, decode_three, decode_four}
use de_mo_d.Font.Utf8.{
  encode, IsScalar, le_or_lt, encode_two, encode_three, encode_four, two_value, three_value,
  four_value,
}

-- A result of the decoder at the bytes `s`: a code point whose bytes are at the front of `s`, and as
-- many bytes as it has.
abbrev pub IsRead : ℕ × ℕ → List ℕ → Type 0
IsRead r s = IsScalar r.0 × (s ≡ encode r.0 ++ drop r.1 s) × (r.1 ≡ length (encode r.0))

abbrev pub IsSound : List ℕ → ℕ × ℕ → Type 0
IsSound s r = (r ≡ invalid) ⊎ IsRead r s

is_tail_inv : (b : ℕ) → b < 256 → is_tail b ≡ true → (128 ≤ b) × (b < 192)
unfolding is_tail
is_tail_inv b h t = ground (
  arith,
  every_sound 256 (λ b. not (is_tail b) || (leb 128 b && ltb b 192)) b (unfold every in refl) h,
)

pub lead_inv :
    (mask lead top : ℕ) (b : ℕ)
    → every 256 (λ b. not (bit_and b mask == lead) || (leb lead b && ltb b top)) ≡ true
    → b < 256
    → (bit_and b mask == lead) ≡ true
    → (lead ≤ b) × (b < top)
lead_inv mask lead top b all h t = ground (
  arith,
  every_sound 256 (λ b. not (bit_and b mask == lead) || (leb lead b && ltb b top)) b all h,
)

-- A continuation byte at the front.
pub record TailByte (s : List ℕ) : Type 0 where
  pub y : ℕ
  pub rest : List ℕ
  pub front : s ≡ (128 + y) ∷ rest
  pub small : y < 64
  pub others : Bytes rest

pub tail_front : (s : List ℕ) → Bytes s → is_tail (byte_at s 0) ≡ true → TailByte s
tail_front [] h t = absurd (unfold is_tail in ground arith)
tail_front (b ∷ s) (hb, hs) t =
    let (lo, hi) = is_tail_inv b hb t in
    record {
      y = b - 128;
      rest = s;
      front = ap (λ v. v ∷ s) (omega arith);
      small = omega arith;
      others = hs;
    }

pub pair_accepted :
    (x y : ℕ) (rest : List ℕ)
    → x < 32
    → y < 64
    → IsSound ((192 + x) ∷ (128 + y) ∷ rest) (decode_two (192 + x) (128 + y))
pair_accepted x y rest hx hy = elim (le_or_lt 128 (x * 64 + y)) [
  | inl l ↦ subst (IsSound _) (sym (good l)) (
      inr (
        (omega arith, inl (omega arith), omega arith),
        sym (ap (λ e. e ++ rest) (bytes l)),
        sym (ap length (bytes l)),
      ))
  | inr l ↦ inl (bad l)
]
  where
    good : 128 ≤ x * 64 + y → decode_two (192 + x) (128 + y) ≡ (x * 64 + y, 2)
    good l = unfold decode_two in ground (arith, two_value x y hx hy)

    bad : x * 64 + y < 128 → decode_two (192 + x) (128 + y) ≡ invalid
    bad l = unfold decode_two in ground (arith, two_value x y hx hy)

    bytes : 128 ≤ x * 64 + y → encode (x * 64 + y) ≡ (192 + x) ∷ (128 + y) ∷ []
    bytes l =
        encode_two (x * 64 + y) l (omega arith)
        ∙ ap (λ a. (192 + a) ∷ (128 + (x * 64 + y) % 64) ∷ []) (omega arith)
        ∙ ap (λ b. (192 + x) ∷ (128 + b) ∷ []) (omega arith)

pub triple_accepted :
    (x y z : ℕ) (rest : List ℕ)
    → x < 16
    → y < 64
    → z < 64
    → IsSound
        ((224 + x) ∷ (128 + y) ∷ (128 + z) ∷ rest)
        (decode_three (224 + x) (128 + y) (128 + z))
triple_accepted x y z rest hx hy hz = elim (choose (x * 4096 + y * 64 + z)) [
  | inl (l, gap) ↦ subst (IsSound _) (sym (good l gap)) (
      inr (
        (omega arith, gap, omega arith),
        sym (ap (λ e. e ++ rest) (bytes l)),
        sym (ap length (bytes l)),
      ))
  | inr l ↦ inl (bad l)
]
  where
    choose :
        (v : ℕ) → ((2048 ≤ v) × (v < 55296 ⊎ 57343 < v)) ⊎ (v < 2048 ⊎ ((55296 ≤ v) × (v ≤ 57343)))
    choose v = ground arith

    good :
        2048 ≤ x * 4096 + y * 64 + z
        → (x * 4096 + y * 64 + z < 55296 ⊎ 57343 < x * 4096 + y * 64 + z)
        → decode_three (224 + x) (128 + y) (128 + z) ≡ (x * 4096 + y * 64 + z, 3)
    good l gap = unfold decode_three in ground (arith, three_value x y z hx hy hz)

    bad :
        (x * 4096 + y * 64 + z < 2048
          ⊎ ((55296 ≤ x * 4096 + y * 64 + z) × (x * 4096 + y * 64 + z ≤ 57343)))
        → decode_three (224 + x) (128 + y) (128 + z) ≡ invalid
    bad l = unfold decode_three in ground (arith, three_value x y z hx hy hz)

    bytes :
        2048 ≤ x * 4096 + y * 64 + z
        → encode (x * 4096 + y * 64 + z) ≡ (224 + x) ∷ (128 + y) ∷ (128 + z) ∷ []
    bytes l =
        encode_three (x * 4096 + y * 64 + z) l (omega arith)
        ∙ ap
            (λ a.
              (224 + a)
              ∷ (128 + (x * 4096 + y * 64 + z) / 64 % 64)
              ∷ (128 + (x * 4096 + y * 64 + z) % 64)
              ∷ [])
            (omega arith)
        ∙ ap (λ b. (224 + x) ∷ (128 + b) ∷ (128 + (x * 4096 + y * 64 + z) % 64) ∷ []) (omega arith)
        ∙ ap (λ c. (224 + x) ∷ (128 + y) ∷ (128 + c) ∷ []) (omega arith)

pub quad_accepted :
    (x y z w : ℕ) (rest : List ℕ)
    → x < 8
    → y < 64
    → z < 64
    → w < 64
    → IsSound
        ((240 + x) ∷ (128 + y) ∷ (128 + z) ∷ (128 + w) ∷ rest)
        (decode_four (240 + x) (128 + y) (128 + z) (128 + w))
quad_accepted x y z w rest hx hy hz hw = elim (choose v) [
  | inl (l, top) ↦ subst (IsSound _) (sym (good l top)) (
      inr (
        (omega arith, inr (omega arith), omega arith),
        sym (ap (λ e. e ++ rest) (bytes l)),
        sym (ap length (bytes l)),
      ))
  | inr l ↦ inl (bad l)
]
  where
    v : ℕ
    v = x * 262144 + y * 4096 + z * 64 + w

    choose : (v : ℕ) → ((65536 ≤ v) × (v < 1114112)) ⊎ (v < 65536 ⊎ 1114112 ≤ v)
    choose v = ground arith

    good : 65536 ≤ v → v < 1114112 → decode_four (240 + x) (128 + y) (128 + z) (128 + w) ≡ (v, 4)
    good l top = unfold decode_four in ground (arith, four_value x y z w hx hy hz hw)

    bad : (v < 65536 ⊎ 1114112 ≤ v) → decode_four (240 + x) (128 + y) (128 + z) (128 + w) ≡ invalid
    bad l = unfold decode_four in ground (arith, four_value x y z w hx hy hz hw)

    bytes : 65536 ≤ v → encode v ≡ (240 + x) ∷ (128 + y) ∷ (128 + z) ∷ (128 + w) ∷ []
    bytes l =
        encode_four v l
        ∙ ap (λ a. (240 + a) ∷ (128 + v / 4096 % 64) ∷ (128 + v / 64 % 64) ∷ (128 + v % 64) ∷ [])
            (omega arith)
        ∙ ap (λ a. (240 + x) ∷ (128 + a) ∷ (128 + v / 64 % 64) ∷ (128 + v % 64) ∷ []) (omega arith)
        ∙ ap (λ a. (240 + x) ∷ (128 + y) ∷ (128 + a) ∷ (128 + v % 64) ∷ []) (omega arith)
        ∙ ap (λ a. (240 + x) ∷ (128 + y) ∷ (128 + z) ∷ (128 + a) ∷ []) (omega arith)
