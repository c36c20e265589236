-- ===== src/StreamDb/Measure.antt =====
-- What the three counters of `struct StreamDB` (src/db/streamdb.c) should say: the nodes, keys and
-- value bytes of a trie.
use de_mo_d.Prelude.{ℕ, zero, suc, ◌+◌, ◌%◌, ◌^◌, ◌≤◌, ◌<◌, ◌==◌, if◌then◌else◌, arith}
use de_mo_d.Prelude.{◌≡◌, refl, Option, none, some, List}
use de_mo_d.StreamDb.Types.{Trie, null, node, set_child, Counts}

unfoldable pub sum_below : ℕ → (ℕ → ℕ) → ℕ
sum_below zero f = 0
sum_below (suc n) f = sum_below n f + f n

-- The sum of a weight over all nodes. The weight reads a node's value, size and `is_end`.
unfoldable pub measure : (Option (List ℕ) → ℕ → ℕ → ℕ) → Trie → ℕ
measure w null = 0
measure w (node ch v s e) = w v s e + sum_below 256 (λ i. measure w (ch i))

abbrev pub own_node : Option (List ℕ) → ℕ → ℕ → ℕ
own_node v s e = 1

abbrev pub own_key : Option (List ℕ) → ℕ → ℕ → ℕ
own_key v s e = if e == 0 then 0 else 1

abbrev pub own_bytes : Option (List ℕ) → ℕ → ℕ → ℕ
own_bytes none s e = 0
own_bytes (some v) s e = if e == 0 then 0 else s

abbrev pub nodes_in : Trie → ℕ
nodes_in = measure own_node

abbrev pub keys_in : Trie → ℕ
keys_in = measure own_key

abbrev pub bytes_in : Trie → ℕ
bytes_in = measure own_bytes

module _ (f : Trie → ℕ) (ch : ℕ → Trie) (b : ℕ) (t : Trie) where
  sum_below-set_child_out :
      (n : ℕ) → n ≤ b → sum_below n (λ i. f (set_child ch b t i)) ≡ sum_below n (λ i. f (ch i))
  unfolding sum_below
  sum_below-set_child_out zero h = refl
  sum_below-set_child_out (suc n) h = ground (arith, sum_below-set_child_out n)

  sum_below-set_child :
      (n : ℕ)
      → b < n
      → sum_below n (λ i. f (set_child ch b t i)) + f (ch b) ≡ sum_below n (λ i. f (ch i)) + f t
  unfolding sum_below
  sum_below-set_child zero h = absurd (omega arith)
  sum_below-set_child (suc n) h = ground (arith, sum_below-set_child n, sum_below-set_child_out n)

-- Replacing the child at a byte changes a measure by the difference of the two children.
pub measure-set_child :
    (w : Option (List ℕ) → ℕ → ℕ → ℕ) (ch : ℕ → Trie) (b : ℕ) (t : Trie) (v : Option (List ℕ))
    (s e : ℕ)
    → b < 256
    → measure w (node (set_child ch b t) v s e) + measure w (ch b)
      ≡ measure w (node ch v s e) + measure w t
unfolding measure
measure-set_child w ch b t v s e h = omega (arith, sum_below-set_child (measure w) ch b t 256 h)

-- From `c` beside `t` to `c'` beside `t'`, each counter moves by as much as the trie, as `size_t`
-- arithmetic goes.
pub record Balanced (c : Counts) (t : Trie) (c' : Counts) (t' : Trie) : Type 0 where
  pub nodes : (c'.node_count + nodes_in t) % 2 ^ 64 ≡ (c.node_count + nodes_in t') % 2 ^ 64
  pub keys : (c'.key_count + keys_in t) % 2 ^ 64 ≡ (c.key_count + keys_in t') % 2 ^ 64
  pub bytes : (c'.total_size + bytes_in t) % 2 ^ 64 ≡ (c.total_size + bytes_in t') % 2 ^ 64
  pub nodes_fit : c.node_count < 2 ^ 64 → c'.node_count < 2 ^ 64
  pub keys_fit : c.key_count < 2 ^ 64 → c'.key_count < 2 ^ 64
  pub bytes_fit : c.total_size < 2 ^ 64 → c'.total_size < 2 ^ 64

pub Balanced-refl : (c : Counts) (t : Trie) → Balanced c t c t
Balanced-refl c t = record {
  nodes = refl;
  keys = refl;
  bytes = refl;
  nodes_fit = λ h. h;
  keys_fit = λ h. h;
  bytes_fit = λ h. h;
}

pub Balanced-trans :
    {c : Counts} {t : Trie} {c1 : Counts} {t1 : Trie} {c2 : Counts} {t2 : Trie}
    → Balanced c t c1 t1
    → Balanced c1 t1 c2 t2
    → Balanced c t c2 t2
Balanced-trans p q = record {
  nodes = omega (arith, p.nodes, q.nodes);
  keys = omega (arith, p.keys, q.keys);
  bytes = omega (arith, p.bytes, q.bytes);
  nodes_fit = λ h. q.nodes_fit (p.nodes_fit h);
  keys_fit = λ h. q.keys_fit (p.keys_fit h);
  bytes_fit = λ h. q.bytes_fit (p.bytes_fit h);
}

pub Balanced-set_child :
    {c : Counts} {c' : Counts} (ch : ℕ → Trie) (b : ℕ) (t : Trie) (v : Option (List ℕ)) (s e : ℕ)
    → b < 256
    → Balanced c (ch b) c' t
    → Balanced c (node ch v s e) c' (node (set_child ch b t) v s e)
Balanced-set_child ch b t v s e h p = record {
  nodes = omega (arith, p.nodes, measure-set_child own_node ch b t v s e h);
  keys = omega (arith, p.keys, measure-set_child own_key ch b t v s e h);
  bytes = omega (arith, p.bytes, measure-set_child own_bytes ch b t v s e h);
  nodes_fit = p.nodes_fit;
  keys_fit = p.keys_fit;
  bytes_fit = p.bytes_fit;
}

-- The counters say what the trie holds, as `size_t` values: modulo 2 ^ 64.
pub record Counted (c : Counts) (t : Trie) : Type 0 where
  pub nodes : c.node_count ≡ nodes_in t % 2 ^ 64
  pub keys : c.key_count ≡ keys_in t % 2 ^ 64
  pub bytes : c.total_size ≡ bytes_in t % 2 ^ 64

pub Counted-Balanced :
    {c : Counts} {t : Trie} {c' : Counts} {t' : Trie}
    → Counted c t
    → Balanced c t c' t'
    → Counted c' t'
Counted-Balanced p q = record {
  nodes = omega (arith, p.nodes, q.nodes, q.nodes_fit (omega (arith, p.nodes)));
  keys = omega (arith, p.keys, q.keys, q.keys_fit (omega (arith, p.keys)));
  bytes = omega (arith, p.bytes, q.bytes, q.bytes_fit (omega (arith, p.bytes)));
}
