-- ===== src/Qbits/Rice.antt =====
-- The Rice code of quanta/include/qbits.h, and the columns of quanta/src/pack.c, written and read.
use Prim.Native.Nat.{bit_or}
use mathlib.Core.Path.{subst}
use native.Mathlib.Nat.{
  two-pow-succ, add-mul-mod_self_left, mod-eq_of_lt, div-add-mod, one-le-pow, le-mul_of_pos_right,
  mul-le-mul_right,
}
use de_mo_d.Prelude.{ℕ, zero, suc, ◌+◌, ◌*◌, ◌/◌, ◌%◌, ◌^◌, ◌≤◌, ◌<◌, ◌==◌, ltb, leb, if◌then◌else◌}
use de_mo_d.Prelude.{
  true, List, [], ◌∷◌, ◌++◌, All-append, Bool-cases, arith, on_branches, if_true, if_false, eq→==,
  ne→==, bit_or-shift, some,
}
use de_mo_d.Prelude.{◌≡◌, ◌≢◌, refl, sym, ap, ◌∙◌, inl, inr}
use de_mo_d.Qbits.{read_raw}
use de_mo_d.Qbits.{
  BitW, bw_put1, bw_putn, put_ones, rice_put, BitR, br_get1, getn_loop, br_getn, rice_loop,
}
use de_mo_d.Qbits.Reader.{
  put_bits, Bits, put_bits-append, bits_of, bits_of-Bits, bw_putn-bits_of, Over, br_get1-Over,
}

mod_double : (x m : ℕ) → 0 < m → x % (m + m) ≡ x / m % 2 * m + x % m
mod_double x m h =
    ap (λ t. t % (m + m)) split
    ∙ add-mul-mod_self_left (x / m % 2 * m + x % m) (m + m) (x / m / 2)
    ∙ mod-eq_of_lt (below (x / m % 2) (omega arith) (omega arith))
  where
    below : (b : ℕ) → b < 2 → x % m < m → b * m + x % m < m + m
    below zero h k = omega arith
    below (suc zero) h k = omega arith
    below (suc (suc b)) h k = absurd (omega arith)

    split : x ≡ x / m % 2 * m + x % m + (m + m) * (x / m / 2)
    split =
        sym (div-add-mod x m) ∙ ap (λ q. m * q + x % m) (sym (div-add-mod (x / m) 2)) ∙ grind arith

-- A value read so far, and the bits of `x` that follow.
getn_loop-bits_of :
    (n v x : ℕ) (r : BitR) (rest : List ℕ)
    → Over r (bits_of x n ++ rest)
    → (v + 1) * 2 ^ n ≤ 2 ^ 32
    → ((getn_loop n v r).0 ≡ v * 2 ^ n + x % 2 ^ n) × Over (getn_loop n v r).1 rest
unfolding getn_loop bits_of
getn_loop-bits_of zero v x r rest o h = (omega arith, o)
getn_loop-bits_of (suc n) v x r rest o h =
    let got = br_get1-Over r (x / 2 ^ n % 2) (bits_of x n ++ rest) o in
    let v' : ℕ = bit_or (v * 2 % 2 ^ 32) (br_get1 r).0 in
    let small = fits in
    let e =
      ap (λ b. bit_or (v * 2 % 2 ^ 32) b) got.0
      ∙ ap (λ t. bit_or t (x / 2 ^ n % 2)) (mod-eq_of_lt small)
      ∙ bit_or-shift 1 v (x / 2 ^ n % 2) (omega arith) in
    let (value, left) = getn_loop-bits_of n v' x (br_get1 r).1 rest got.1 (room v' e) in
    (value ∙ ap (λ t. t * 2 ^ n + x % 2 ^ n) e ∙ joined, left)
  where
    scaled : (v + 1) * 2 * 2 ^ n ≤ 2 ^ 32
    scaled = grind (arith, two-pow-succ n)

    fits : v * 2 < 2 ^ 32
    fits = omega (arith, le-mul_of_pos_right ((v + 1) * 2) (one-le-pow n 2 (omega arith)), scaled)

    room : (v' : ℕ) → v' ≡ v * 2 + x / 2 ^ n % 2 → (v' + 1) * 2 ^ n ≤ 2 ^ 32
    room v' e =
        omega (arith, mul-le-mul_right {m = v' + 1} {n = (v + 1) * 2} (2 ^ n) (omega arith), scaled)

    joined : (v * 2 + x / 2 ^ n % 2) * 2 ^ n + x % 2 ^ n ≡ v * 2 ^ suc n + x % 2 ^ suc n
    joined = grind (
      arith,
      mod_double x (2 ^ n) (one-le-pow n 2 (omega arith)),
      two-pow-succ n,
      ap (λ m. x % m) (two-pow-succ n),
    )

pub br_getn-bits_of :
    (n x : ℕ) (r : BitR) (rest : List ℕ)
    → 2 ^ n ≤ 2 ^ 32
    → Over r (bits_of x n ++ rest)
    → ((br_getn r n).0 ≡ x % 2 ^ n) × Over (br_getn r n).1 rest
unfolding br_getn
br_getn-bits_of n x r rest h o =
    let (value, left) = getn_loop-bits_of n 0 x r rest o (omega arith) in
    (value ∙ omega arith, left)

unfoldable pub ones : ℕ → List ℕ
ones zero = []
ones (suc n) = 1 ∷ ones n

ones-Bits : (n : ℕ) → Bits (ones n)
unfolding ones
ones-Bits zero = tt
ones-Bits (suc n) = (omega arith, ones-Bits n)

put_ones-ones : (n : ℕ) (w : BitW) → put_ones n w ≡ put_bits w (ones n)
unfolding put_ones ones put_bits
put_ones-ones zero w = refl
put_ones-ones (suc n) w = put_ones-ones n (bw_put1 w 1)

-- The code of a number.
unfoldable pub rice_bits : ℕ → ℕ → List ℕ
unfolding ones bits_of
rice_bits v k =
    if ltb 47 (v / 2 ^ k)
    then ones 48 ++ (0 ∷ bits_of v 32)
    else ones (v / 2 ^ k) ++ (0 ∷ bits_of (v % 2 ^ k) k)

pub rice_bits-Bits : (v k : ℕ) → Bits (rice_bits v k)
unfolding rice_bits
rice_bits-Bits v k =
    on_branches Bits (ltb 47 (v / 2 ^ k))
      (λ _.
        All-append (λ b. b < 2) (ones 48) (0 ∷ bits_of v 32) (ones-Bits 48)
          (omega arith, bits_of-Bits v 32))
      (λ _.
        All-append (λ b. b < 2) (ones (v / 2 ^ k)) (0 ∷ bits_of (v % 2 ^ k) k)
          (ones-Bits (v / 2 ^ k)) (omega arith, bits_of-Bits (v % 2 ^ k) k))

unary :
    (w : BitW) (q v n : ℕ)
    → bw_putn (bw_put1 (put_ones q w) 0) v n ≡ put_bits w (ones q ++ (0 ∷ bits_of v n))
unfolding put_bits
unary w q v n =
    ap (λ u. bw_putn (bw_put1 u 0) v n) (put_ones-ones q w)
    ∙ bw_putn-bits_of (bw_put1 (put_bits w (ones q)) 0) v n
    ∙ sym (put_bits-append w (ones q) (0 ∷ bits_of v n))

pub rice_put-rice_bits : (w : BitW) (v k : ℕ) → rice_put w v k ≡ put_bits w (rice_bits v k)
unfolding rice_put rice_bits
rice_put-rice_bits w v k = elim (Bool-cases (ltb 47 (v / 2 ^ k))) [
  | inl many ↦
      if_true {b = ltb 47 (v / 2 ^ k)} _ _ many
      ∙ unary w 48 v 32
      ∙ ap (put_bits w) (sym (if_true {b = ltb 47 (v / 2 ^ k)} _ _ many))
  | inr few ↦
      if_false {b = ltb 47 (v / 2 ^ k)} _ _ few
      ∙ unary w (v / 2 ^ k) (v % 2 ^ k) k
      ∙ ap (put_bits w) (sym (if_false {b = ltb 47 (v / 2 ^ k)} _ _ few))
]

-- The loop of `rice_get` yields `v` and leaves the reader in front of `rest`.
pub record Reads (n q : ℕ) (r : BitR) (k v : ℕ) (rest : List ℕ) : Type 0 where
  pub after : BitR
  pub result : rice_loop n q r k ≡ some (v, after)
  pub left : Over after rest

-- A round that sees a one, and not the 48th.
rice_loop-one :
    (n q : ℕ) (r : BitR) (k v : ℕ) (bs rest : List ℕ)
    → Over r (1 ∷ bs)
    → q + 1 < 48
    → Reads n (q + 1) (br_get1 r).1 k v rest
    → Reads (suc n) q r k v rest
unfolding rice_loop
rice_loop-one n q r k v bs rest o few next = record {
  after = next.after;
  result =
      if_false {b = (br_get1 r).0 == 0} _ _
        (ne→== (br_get1 r).0 0 (is_one (br_get1-Over r 1 bs o).0))
      ∙ if_false {b = leb 48 (q + 1)} _ _ (ground arith)
      ∙ next.result;
  left = next.left;
}
  where
    is_one : {x : ℕ} → x ≡ 1 → x ≢ 0
    is_one e z = omega arith

pub rice_loop-short :
    (n q m x : ℕ) (r : BitR) (k : ℕ) (rest : List ℕ)
    → Over r (ones m ++ (0 ∷ (bits_of x k ++ rest)))
    → q + m < 48
    → m < n
    → 2 ^ k ≤ 2 ^ 32
    → Reads n q r k (bit_or ((q + m) * 2 ^ k % 2 ^ 32) (x % 2 ^ k)) rest
unfolding ones
rice_loop-short zero q m x r k rest o few fuel h = absurd (omega arith)
rice_loop-short (suc n) q zero x r k rest o few fuel h =
    let got = br_get1-Over r 0 (bits_of x k ++ rest) o in
    let (value, left) = br_getn-bits_of k x (br_get1 r).1 rest h got.1 in
    record {
      after = (br_getn (br_get1 r).1 k).1;
      result =
          stopped (eq→== (br_get1 r).0 0 got.0)
          ∙ ap (λ low. some (bit_or (q * 2 ^ k % 2 ^ 32) low, (br_getn (br_get1 r).1 k).1)) value
          ∙ ap (λ p. some (bit_or (p * 2 ^ k % 2 ^ 32) (x % 2 ^ k), (br_getn (br_get1 r).1 k).1))
              (omega arith);
      left = left;
    }
  where
    stopped :
        ((br_get1 r).0 == 0) ≡ true
        → rice_loop (suc n) q r k
          ≡ some
              (bit_or (q * 2 ^ k % 2 ^ 32) (br_getn (br_get1 r).1 k).0, (br_getn (br_get1 r).1 k).1)
    stopped e = unfold rice_loop in if_true {b = (br_get1 r).0 == 0} _ _ e
rice_loop-short (suc n) q (suc m) x r k rest o few fuel h =
    rice_loop-one n q r k _ (ones m ++ (0 ∷ (bits_of x k ++ rest))) rest o (omega arith) (
      subst (λ t. Reads n (q + 1) (br_get1 r).1 k (bit_or (t * 2 ^ k % 2 ^ 32) (x % 2 ^ k)) rest)
        (omega arith)
        (rice_loop-short n (q + 1) m x (br_get1 r).1 k rest
          (br_get1-Over r 1 (ones m ++ (0 ∷ (bits_of x k ++ rest))) o).1 (omega arith) (omega arith)
          h))

-- The 48th one is in front.
rice_loop-last :
    (n q x : ℕ) (r : BitR) (k : ℕ) (rest : List ℕ)
    → Over r (1 ∷ 0 ∷ (bits_of x 32 ++ rest))
    → q + 1 ≡ 48
    → Reads (suc n) q r k (x % 2 ^ 32) rest
unfolding rice_loop read_raw
rice_loop-last n q x r k rest o all =
    let first = br_get1-Over r 1 (0 ∷ (bits_of x 32 ++ rest)) o in
    let second = br_get1-Over (br_get1 r).1 0 (bits_of x 32 ++ rest) first.1 in
    let (value, left) =
      br_getn-bits_of 32 x (br_get1 (br_get1 r).1).1 rest (omega arith) second.1 in
    record {
      after = (br_getn (br_get1 (br_get1 r).1).1 32).1;
      result =
          if_false {b = (br_get1 r).0 == 0} _ _ (ne→== (br_get1 r).0 0 (is_one first.0))
          ∙ if_true {b = leb 48 (q + 1)} _ _ (ground arith)
          ∙ ap (λ v. some (v, (br_getn (br_get1 (br_get1 r).1).1 32).1)) value;
      left = left;
    }
  where
    is_one : {x : ℕ} → x ≡ 1 → x ≢ 0
    is_one e z = omega arith

pub rice_loop-long :
    (n q m x : ℕ) (r : BitR) (k : ℕ) (rest : List ℕ)
    → Over r (1 ∷ (ones m ++ (0 ∷ (bits_of x 32 ++ rest))))
    → q + m + 1 ≡ 48
    → m < n
    → Reads n q r k (x % 2 ^ 32) rest
unfolding ones
rice_loop-long zero q m x r k rest o all fuel = absurd (omega arith)
rice_loop-long (suc n) q zero x r k rest o all fuel = rice_loop-last n q x r k rest o (omega arith)
rice_loop-long (suc n) q (suc m) x r k rest o all fuel =
    rice_loop-one n q r k _ (1 ∷ (ones m ++ (0 ∷ (bits_of x 32 ++ rest)))) rest o (omega arith) (
      rice_loop-long n (q + 1) m x (br_get1 r).1 k rest
        (br_get1-Over r 1 (1 ∷ (ones m ++ (0 ∷ (bits_of x 32 ++ rest)))) o).1 (omega arith)
        (omega arith))
