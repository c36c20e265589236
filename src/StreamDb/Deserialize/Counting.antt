-- ===== src/StreamDb/Deserialize/Counting.antt =====
-- The counters of `struct StreamDB` after `deserialize_trie` (src/db/streamdb.c).
use de_mo_d.Prelude.{
  ℕ, zero, suc, ◌+◌, ◌%◌, ◌^◌, ◌<◌, arith, ◌≡◌, refl, sym, ap, Option, none, some, List, loop,
}
use mathlib.Core.Path.{subst}
use de_mo_d.StreamDb.Types.{Trie, null, node, Counts}
use de_mo_d.StreamDb.Measure.{
  measure, sum_below, own_node, own_key, own_bytes, nodes_in, keys_in, bytes_in, Balanced,
}
use de_mo_d.StreamDb.Serialize.Encoding.{total}
use de_mo_d.StreamDb.Deserialize.Loading.{Storable, GoodEntry, counted, own_counts, add_node}

-- The counters move by these numbers.
record Adds (c c' : Counts) (x y z : ℕ) : Type 0 where
  nodes : c'.node_count % 2 ^ 64 ≡ (c.node_count + x) % 2 ^ 64
  keys : c'.key_count % 2 ^ 64 ≡ (c.key_count + y) % 2 ^ 64
  bytes : c'.total_size % 2 ^ 64 ≡ (c.total_size + z) % 2 ^ 64
  nodes_fit : c.node_count < 2 ^ 64 → c'.node_count < 2 ^ 64
  keys_fit : c.key_count < 2 ^ 64 → c'.key_count < 2 ^ 64
  bytes_fit : c.total_size < 2 ^ 64 → c'.total_size < 2 ^ 64

own_counts-Adds :
    (v : Option (List ℕ)) (s e : ℕ) (c : Counts)
    → GoodEntry v s e
    → Adds c (own_counts v s (add_node c)) 1 (own_key v s e) (own_bytes v s e)
own_counts-Adds none s e c h = ground arith
own_counts-Adds (some v) s e c h = ground arith

Adds-trans :
    {c c1 c2 : Counts} {x y z x1 y1 z1 : ℕ}
    → Adds c c1 x y z
    → Adds c1 c2 x1 y1 z1
    → Adds c c2 (x + x1) (y + y1) (z + z1)
Adds-trans p q = record {
  nodes = omega (arith, p.nodes, q.nodes);
  keys = omega (arith, p.keys, q.keys);
  bytes = omega (arith, p.bytes, q.bytes);
  nodes_fit = λ h. q.nodes_fit (p.nodes_fit h);
  keys_fit = λ h. q.keys_fit (p.keys_fit h);
  bytes_fit = λ h. q.bytes_fit (p.bytes_fit h);
}

Adds-refl : (c : Counts) → Adds c c 0 0 0
Adds-refl c = record {
  nodes = omega arith;
  keys = omega arith;
  bytes = omega arith;
  nodes_fit = λ h. h;
  keys_fit = λ h. h;
  bytes_fit = λ h. h;
}

loop-Adds :
    (n i : ℕ) (f : ℕ → Counts → Counts) (x y z : ℕ → ℕ) (c : Counts)
    → ((j : ℕ) (d : Counts) → Adds d (f j d) (x j) (y j) (z j))
    → Adds c (loop n i f c) (total n i x) (total n i y) (total n i z)
unfolding loop
loop-Adds zero i f x y z c h = Adds-refl c
loop-Adds (suc n) i f x y z c h = Adds-trans (h i c) (loop-Adds n (suc i) f x y z (f i c) h)

total-sum_below : (n i : ℕ) (g : ℕ → ℕ) → total n i g + sum_below i g ≡ sum_below (i + n) g
unfolding sum_below
total-sum_below zero i g = omega (arith, ap (λ k. sum_below k g) {x = i + 0} {y = i} (omega arith))
total-sum_below (suc n) i g = omega (
  arith,
  total-sum_below n (suc i) g,
  ap (λ k. sum_below k g) {x = i + suc n} {y = suc i + n} (omega arith),
)

sum_below_zero : (g : ℕ → ℕ) → sum_below 0 g ≡ 0
unfolding sum_below
sum_below_zero g = refl

subst₃ : (P : ℕ → ℕ → ℕ → Type 0) {a b c x y z : ℕ} → a ≡ x → b ≡ y → c ≡ z → P a b c → P x y z
subst₃ P {a} {b} {c} {x} {y} {z} p q r h =
    subst (P x y) r (subst (λ t. P x t c) q (subst (λ t. P t b c) p h))

null_measure : (w : Option (List ℕ) → ℕ → ℕ → ℕ) → measure w null ≡ 0
unfolding measure
null_measure w = refl

measure-total :
    (w : Option (List ℕ) → ℕ → ℕ → ℕ) (ch : ℕ → Trie) (v : Option (List ℕ)) (s e : ℕ)
    → w v s e + total 256 0 (λ i. measure w (ch i)) ≡ measure w (node ch v s e)
unfolding measure
measure-total w ch v s e =
    omega
      (arith, total-sum_below 256 0 (λ i. measure w (ch i)), sum_below_zero (λ i. measure w (ch i)))

counted-Adds :
    (t : Trie) (c : Counts)
    → Storable t
    → Adds c (counted t c) (nodes_in t) (keys_in t) (bytes_in t)
unfolding counted
counted-Adds null c h =
    subst₃ (Adds c c) (sym (null_measure own_node)) (sym (null_measure own_key))
      (sym (null_measure own_bytes)) (Adds-refl c)
counted-Adds (node ch v s e) c h =
    subst₃ (Adds c (counted (node ch v s e) c)) (measure-total own_node ch v s e)
      (measure-total own_key ch v s e) (measure-total own_bytes ch v s e)
      (Adds-trans (own_counts-Adds v s e c h.0) (
        loop-Adds 256 0 (λ i d. counted (ch i) d) (λ i. nodes_in (ch i)) (λ i. keys_in (ch i))
          (λ i. bytes_in (ch i)) (own_counts v s (add_node c))
          (λ j d. counted-Adds (ch j) d (h.1 j))))

-- A trie that is read counts its nodes, keys and bytes.
pub counted-Balanced : (t : Trie) (c : Counts) → Storable t → Balanced c null (counted t c) t
counted-Balanced t c h =
    let p = counted-Adds t c h in
    record {
      nodes = omega (arith, p.nodes, null_measure own_node);
      keys = omega (arith, p.keys, null_measure own_key);
      bytes = omega (arith, p.bytes, null_measure own_bytes);
      nodes_fit = p.nodes_fit;
      keys_fit = p.keys_fit;
      bytes_fit = p.bytes_fit;
    }
