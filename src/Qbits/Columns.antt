-- ===== src/Qbits/Columns.antt =====
-- Columns of numbers, `put_col` and `get_col` of quanta/src/pack.c, written one after the other and read
-- back.
use Prim.Native.Nat.{bit_or}
use mathlib.Core.Path.{subst}
use mathlib.Core.List.{append_assoc}
use native.Mathlib.Nat.{mod-eq_of_lt, div-add-mod, div-mul-le_self, one-le-pow}
use de_mo_d.Prelude.{ℕ, zero, suc, ◌+◌, ◌-◌, ◌*◌, ◌/◌, ◌%◌, ◌^◌, ◌≤◌, ◌<◌, ltb, leb}
use de_mo_d.Prelude.{
  true, List, [], ◌∷◌, ◌++◌, length, All, All-append, arith, on_branches, ltb→le, bit_or-shift,
  Option, some, every, every_sound,
}
use de_mo_d.Prelude.{◌≡◌, refl, sym, ap, ◌∙◌}
use de_mo_d.Qbits.{
  ◌>>=◌, rice_loop, BitW, BitR, br_getn, rice_get, block_bits, best_loop, rice_best_k, put_each,
  put_col, get_each, get_col,
}
use de_mo_d.Qbits.Reader.{
  put_bits, Bits, put_bits-append, bits_of, bits_of-Bits, bw_putn-bits_of, Over,
}
use de_mo_d.Qbits.Rice.{
  br_getn-bits_of, ones, rice_bits, rice_bits-Bits, rice_put-rice_bits, Reads, rice_loop-short,
  rice_loop-long,
}

-- A 32-bit word.
abbrev pub IsWord : ℕ → Type 0
IsWord v = v < 2 ^ 32

power_lem : (k : ℕ) → k < 25 → 2 ^ k ≤ 2 ^ 32
power_lem k h = le (every_sound 25 (λ k. leb (2 ^ k) (2 ^ 32)) k (unfold every in refl) h)
  where
    le : leb (2 ^ k) (2 ^ 32) ≡ true → 2 ^ k ≤ 2 ^ 32
    le e = ground arith

-- The parts of a number, put together again.
joined_lem :
    (k v : ℕ) → v < 2 ^ 32 → bit_or ((0 + v / 2 ^ k) * 2 ^ k % 2 ^ 32) (v % 2 ^ k % 2 ^ k) ≡ v
joined_lem k v h =
    ap (λ q. bit_or (q * 2 ^ k % 2 ^ 32) (v % 2 ^ k % 2 ^ k)) {x = 0 + v / 2 ^ k} {y = v / 2 ^ k}
      (omega arith)
    ∙ ap (λ t. bit_or t (v % 2 ^ k % 2 ^ k))
        (mod-eq_of_lt (omega (arith, div-mul-le_self v (2 ^ k))))
    ∙ ap (bit_or (v / 2 ^ k * 2 ^ k)) (mod-eq_of_lt small)
    ∙ bit_or-shift k (v / 2 ^ k) (v % 2 ^ k) small
    ∙ grind (arith, div-add-mod v (2 ^ k))
  where
    small : v % 2 ^ k < 2 ^ k
    small = omega (arith, one-le-pow k 2 (omega arith))

rice_get-rice_bits :
    (v k : ℕ) (r : BitR) (rest : List ℕ)
    → IsWord v
    → k < 25
    → Over r (rice_bits v k ++ rest)
    → Reads 48 0 r k v rest
unfolding rice_bits
rice_get-rice_bits v k r rest h hk =
    on_branches (λ bs. Over r (bs ++ rest) → Reads 48 0 r k v rest) (ltb 47 (v / 2 ^ k))
      (λ many o.
        subst (λ x. Reads 48 0 r k x rest) (mod-eq_of_lt h)
          (rice_loop-long 48 0 47 v r k rest
            (subst (Over r) (append_assoc (ones 48) (0 ∷ bits_of v 32) rest) o) (omega arith)
            (omega arith)))
      (λ few o.
        subst (λ x. Reads 48 0 r k x rest) (joined_lem k v h)
          (rice_loop-short 48 0 (v / 2 ^ k) (v % 2 ^ k) r k rest
            (subst (Over r) (append_assoc (ones (v / 2 ^ k)) (0 ∷ bits_of (v % 2 ^ k) k) rest) o)
            (omega (arith, ltb→le _ _ few)) (omega (arith, ltb→le _ _ few)) (power_lem k hk)))

best_loop_bound :
    (n k : ℕ) (vs : List ℕ) (best bk : ℕ) → k + n ≤ 25 → bk < 25 → best_loop n k vs best bk < 25
unfolding best_loop
best_loop_bound zero k vs best bk h hb = hb
best_loop_bound (suc n) k vs best bk h hb =
    on_branches (λ x. x < 25) (ltb (block_bits k vs) best)
      (λ _. best_loop_bound n (k + 1) vs (block_bits k vs) k (omega arith) (omega arith))
      (λ _. best_loop_bound n (k + 1) vs best bk (omega arith) hb)

rice_best_k_bound : (vs : List ℕ) → rice_best_k vs < 25
unfolding rice_best_k
rice_best_k_bound vs = best_loop_bound 25 0 vs (2 ^ 64 - 1) 0 (omega arith) (omega arith)

unfoldable pub each_bits : List ℕ → ℕ → List ℕ
unfolding rice_bits
each_bits [] k = []
each_bits (v ∷ vs) k = rice_bits v k ++ each_bits vs k

each_bits-Bits : (vs : List ℕ) (k : ℕ) → Bits (each_bits vs k)
unfolding each_bits
each_bits-Bits [] k = tt
each_bits-Bits (v ∷ vs) k =
    All-append (λ b. b < 2) (rice_bits v k) (each_bits vs k) (rice_bits-Bits v k)
      (each_bits-Bits vs k)

put_each-each_bits :
    (w : BitW) (vs : List ℕ) (k : ℕ) → put_each w vs k ≡ put_bits w (each_bits vs k)
unfolding put_each each_bits
put_each-each_bits w [] k = unfold put_bits in refl
put_each-each_bits w (v ∷ vs) k =
    ap (λ u. put_each u vs k) (rice_put-rice_bits w v k)
    ∙ put_each-each_bits (put_bits w (rice_bits v k)) vs k
    ∙ sym (put_bits-append w (rice_bits v k) (each_bits vs k))

-- The bits of a column.
unfoldable pub col_bits : List ℕ → List ℕ
unfolding each_bits bits_of
col_bits vs = bits_of (rice_best_k vs) 5 ++ each_bits vs (rice_best_k vs)

pub col_bits-Bits : (vs : List ℕ) → Bits (col_bits vs)
unfolding col_bits
col_bits-Bits vs =
    All-append (λ b. b < 2) (bits_of (rice_best_k vs) 5) (each_bits vs (rice_best_k vs))
      (bits_of-Bits (rice_best_k vs) 5) (each_bits-Bits vs (rice_best_k vs))

pub put_col-col_bits : (w : BitW) (vs : List ℕ) → put_col w vs ≡ put_bits w (col_bits vs)
unfolding put_col col_bits
put_col-col_bits w vs =
    ap (λ u. put_each u vs (rice_best_k vs)) (bw_putn-bits_of w (rice_best_k vs) 5)
    ∙ put_each-each_bits (put_bits w (bits_of (rice_best_k vs) 5)) vs (rice_best_k vs)
    ∙ sym (put_bits-append w (bits_of (rice_best_k vs) 5) (each_bits vs (rice_best_k vs)))

-- The values that a read yields, and where it leaves the reader.
pub record Yields (result : Option (List ℕ × BitR)) (vs rest : List ℕ) : Type 0 where
  pub after : BitR
  pub yields : result ≡ some (vs, after)
  pub left : Over after rest

get_each-each_bits :
    (vs : List ℕ) (k : ℕ) (r : BitR) (rest : List ℕ)
    → All IsWord vs
    → k < 25
    → Over r (each_bits vs k ++ rest)
    → Yields (get_each (length vs) r k) vs rest
unfolding each_bits get_each
get_each-each_bits [] k r rest h hk o = record { after = r; yields = refl; left = o }
get_each-each_bits (v ∷ vs) k r rest (hv, hs) hk o =
    let first =
      rice_get-rice_bits v k r (each_bits vs k ++ rest) hv hk
        (subst (Over r) (append_assoc (rice_bits v k) (each_bits vs k) rest) o) in
    let more = get_each-each_bits vs k first.after rest hs hk first.left in
    record {
      after = more.after;
      yields =
          ap (λ o. o >>= λ p. get_each (length vs) p.1 k >>= λ s. some (p.0 ∷ s.0, s.1))
            (got first.after first.result)
          ∙ ap (λ o. o >>= λ s. some (v ∷ s.0, s.1)) more.yields;
      left = more.left;
    }
  where
    got : (after : BitR) → rice_loop 48 0 r k ≡ some (v, after) → rice_get r k ≡ some (v, after)
    got after e = unfold rice_get in e

pub get_col-col_bits :
    (vs : List ℕ) (r : BitR) (rest : List ℕ)
    → All IsWord vs
    → Over r (col_bits vs ++ rest)
    → Yields (get_col r (length vs)) vs rest
unfolding col_bits get_col
get_col-col_bits vs r rest h o =
    let k : ℕ = rice_best_k vs in
    let (value, left) =
      br_getn-bits_of 5 k r (each_bits vs k ++ rest) (omega arith)
        (subst (Over r) (append_assoc (bits_of k 5) (each_bits vs k) rest) o) in
    let more = get_each-each_bits vs k (br_getn r 5).1 rest h (rice_best_k_bound vs) left in
    record {
      after = more.after;
      yields =
          ap (get_each (length vs) (br_getn r 5).1)
            (value ∙ mod-eq_of_lt (omega (arith, rice_best_k_bound vs)))
          ∙ more.yields;
      left = more.left;
    }
