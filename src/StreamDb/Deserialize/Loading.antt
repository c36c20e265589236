-- ===== src/StreamDb/Deserialize/Loading.antt =====
-- What `deserialize_trie` (src/db/streamdb.c) reads of one node, and the children that it has read.
use mathlib.Core.List.{append-nil, append_assoc}
use mathlib.Core.Path.{fun_ext}
use native.Mathlib.Decide.{ℕ_discrete, dec_lt}
use de_mo_d.Prelude.{
  ℕ, zero, suc, ◌+◌, ◌^◌, ◌≤◌, ◌<◌, ◌==◌, ltb, if◌then◌else◌, arith, length, take, take-length,
  add64, loop, not, ◌&&◌,
}
use de_mo_d.Prelude.{◌≡◌, refl, sym, ap, ◌∙◌, inl, inr, false, Bool-cases, if_true, if_false}
use de_mo_d.Prelude.{Option, none, some, List, [], ◌∷◌, ◌++◌}
use de_mo_d.StreamDb.Types.{Trie, null, node, set_child, Counts}
use de_mo_d.StreamDb.Find.{not_null}
use de_mo_d.StreamDb.Serialize.{le_bytes, value_chunk, count_children, header_of}
use de_mo_d.StreamDb.Serialize.Encoding.{joined}
use de_mo_d.StreamDb.Input.{Load, M, ◌>>=◌, ◌>>◌, pure, >>=-some, continue, fread, fread_number}
use de_mo_d.StreamDb.Input.Numbers.{file, fread-append, fread_number-append}
use de_mo_d.StreamDb.Deserialize.{NodeData, add_key, count_key}
use de_mo_d.StreamDb.Deserialize.{allocate, read_value, read_node}

-- What a node of a valid database holds: a buffer of the recorded size, which is not 0, or none.
abbrev pub GoodEntry : Option (List ℕ) → ℕ → ℕ → Type 0
GoodEntry none s e = (e ≡ 0) × (s < 2 ^ 64)
GoodEntry (some v) s e = (0 < e) × (e < 2 ^ 32) × (length v ≡ s) × (0 < s) × (s < 2 ^ 64)

-- All nodes are good, and only bytes have children.
abbrev pub Storable : Trie → Type 0
Storable null = Unit {0}
Storable (node ch v s e) =
    GoodEntry v s e × ((i : ℕ) → Storable (ch i)) × ((i : ℕ) → 256 ≤ i → ch i ≡ null)

-- The counters after a node's data and after a trie.
abbrev pub own_counts : Option (List ℕ) → ℕ → Counts → Counts
own_counts none s c = c
own_counts (some v) s c = add_key s c

abbrev pub add_node : Counts → Counts
add_node c = record c { node_count = add64 c.node_count 1 }

unfoldable pub counted : Trie → Counts → Counts
counted null c = c
counted (node ch v s e) c = loop 256 0 (λ i d. counted (ch i) d) (own_counts v s (add_node c))

abbrev pub data_of : Option (List ℕ) → ℕ → ℕ → ℕ → NodeData
data_of v s e n = record { value = v; value_size = s; is_end = e; child_count = n }

abbrev if_key : ℕ → M (Option (List ℕ))
if_key s = do allocate; bs ← fread s; count_key s; pure (some bs)

read_value-good :
    (v : List ℕ) (s e : ℕ) (rest : List ℕ) (c : Counts)
    → GoodEntry (some v) s e
    → read_value e s (file (v ++ rest) c) ≡ (some (some v), file rest (add_key s c))
unfolding read_value allocate
read_value-good v s e rest c (pos, fits, len, some_there, s_fits) =
    ap (λ (m : M (Option (List ℕ))). m (file (v ++ rest) c)) {y = if_key s}
      (if_true {b = not (e == 0) && ltb 0 s} (if_key s) (pure {A = Option (List ℕ)} none)
        (ground arith))
    ∙ >>=-some (fread s) (λ bs. count_key s >> pure (some bs)) _ (fread-append s v rest c len)

read_value-none : (s : ℕ) (l : Load) → read_value 0 s l ≡ (some none, l)
unfolding read_value
read_value-none s l = refl

pub count_children_le : (m j : ℕ) (ch : ℕ → Trie) → count_children m j ch ≤ m
unfolding count_children
count_children_le zero j ch = omega arith
count_children_le (suc m) j ch = ground (arith, count_children_le m (suc j) ch)

-- The four reads of a node's data, one after the other.
read_node-fields :
    (v : Option (List ℕ)) (s e n : ℕ) (bytes rest : List ℕ) (c c' : Counts)
    → e < 2 ^ 32
    → s < 2 ^ 64
    → n < 2 ^ 32
    → read_value e s (file (bytes ++ (le_bytes 4 n ++ rest)) c)
      ≡ (some v, file (le_bytes 4 n ++ rest) c')
    → read_node (file (le_bytes 4 e ++ (le_bytes 8 s ++ (bytes ++ (le_bytes 4 n ++ rest)))) c)
      ≡ (some (data_of v s e n), file rest c')
unfolding read_node
read_node-fields v s e n bytes rest c c' he hs hn value =
    let rest2 = bytes ++ (le_bytes 4 n ++ rest) in
    ap (λ r. continue r λ e'. fread_number 8 >>= after_size e')
      (fread_number-append 4 e (le_bytes 8 s ++ rest2) c (omega (arith, he)))
    ∙ ap (λ r. continue r (after_size e)) (fread_number-append 8 s rest2 c (omega (arith, hs)))
    ∙ ap (λ r. continue r (after_value e s)) value
    ∙ ap (λ r. continue r λ n'. pure (data_of v s e n'))
        (fread_number-append 4 n rest c' (omega (arith, hn)))
  where
    after_value : ℕ → ℕ → Option (List ℕ) → M NodeData
    after_value e' s' v' = fread_number 4 >>= λ n'. pure (data_of v' s' e' n')

    after_size : ℕ → ℕ → M NodeData
    after_size e' s' = read_value e' s' >>= after_value e' s'

value_chunk-good : (v : List ℕ) (s e : ℕ) → 0 < e → length v ≡ s → value_chunk (some v) s e ≡ v ∷ []
unfolding value_chunk
value_chunk-good v s e pos len =
    if_false {b = e == 0} [] (take s v ∷ []) (ground arith)
    ∙ ap (λ k. take k v ∷ []) (sym len)
    ∙ ap (λ t. t ∷ []) (take-length v)

pub null_of : (t : Trie) → not_null t ≡ false → t ≡ null
unfolding not_null
null_of null h = refl
null_of (node ch v s e) h = cc h

pub read_node-header :
    (v : Option (List ℕ)) (s e n : ℕ) (rest : List ℕ) (c : Counts)
    → GoodEntry v s e
    → n < 2 ^ 32
    → read_node (file (joined (header_of v s e n) ++ rest) c)
      ≡ (some (data_of v s e n), file rest (own_counts v s c))
unfolding header_of value_chunk
read_node-header none s e n rest c (he, hs) hn =
    ap (λ t. read_node (file t c)) {y = le_bytes 4 e ++ (le_bytes 8 s ++ (le_bytes 4 n ++ rest))}
      (simp (append_assoc, append-nil))
    ∙ read_node-fields none s e n [] rest c c (omega (arith, he)) hs hn
        (ap (λ t. read_value t s (file (le_bytes 4 n ++ rest) c)) he ∙ read_value-none s _)
read_node-header (some v) s e n rest c (pos, he, len, some_there, hs) hn =
    ap
      (λ t.
        read_node
          (file (joined (le_bytes 4 e ∷ le_bytes 8 s ∷ (t ++ (le_bytes 4 n ∷ []))) ++ rest) c))
      (value_chunk-good v s e pos len)
    ∙ ap (λ t. read_node (file t c))
        {y = le_bytes 4 e ++ (le_bytes 8 s ++ (v ++ (le_bytes 4 n ++ rest)))}
        (simp (append_assoc, append-nil))
    ∙ read_node-fields (some v) s e n v rest c (add_key s c) he hs hn
        (read_value-good v s e (le_bytes 4 n ++ rest) c (pos, he, len, some_there, hs))

-- The children below byte `j`.
abbrev pub upto : ℕ → (ℕ → Trie) → ℕ → Trie
upto j ch i = if ltb i j then ch i else null

pub upto_all : (ch : ℕ → Trie) → ((i : ℕ) → 256 ≤ i → ch i ≡ null) → upto 256 ch ≡ ch
upto_all ch h = fun_ext λ i. ground (arith, h i)

pub upto_none : (ch : ℕ → Trie) → (λ (i : ℕ). null) ≡ upto 0 ch
upto_none ch = fun_ext λ i. ground arith

pub upto_null : (ch : ℕ → Trie) (j : ℕ) → not_null (ch j) ≡ false → upto j ch ≡ upto (suc j) ch
upto_null ch j h = fun_ext λ i. ground (arith, null_of (ch j) h)

pub upto_child : (ch : ℕ → Trie) (j : ℕ) → set_child (upto j ch) j (ch j) ≡ upto (suc j) ch
upto_child ch j = fun_ext λ i. ground arith

pub set_child-set_child :
    (ch : ℕ → Trie) (j : ℕ) (a b : Trie) → set_child (set_child ch j a) j b ≡ set_child ch j b
set_child-set_child ch j a b = fun_ext λ i. ground arith

count_zero :
    (m j i : ℕ) (ch : ℕ → Trie) → count_children m j ch ≡ 0 → j ≤ i → i < j + m → ch i ≡ null
unfolding count_children
count_zero zero j i ch h lo hi = absurd (omega arith)
count_zero (suc m) j i ch h lo hi = elim (Bool-cases (not_null (ch j))) [
  | inl there ↦ absurd (omega (arith, ap {B = ℕ} (λ b. if b then 1 else 0) there))
  | inr missing ↦ elim (ℕ_discrete i j) [
    | yes e ↦ rw e (null_of (ch j) missing)
    | no ne ↦ count_zero m (suc j) i ch (omega arith) (omega arith) (omega arith)
  ]
]

-- A node whose child count is 0 has no children at all.
pub no_children :
    (ch : ℕ → Trie)
    → count_children 256 0 ch ≡ 0
    → ((i : ℕ) → 256 ≤ i → ch i ≡ null)
    → ch ≡ (λ i. null)
no_children ch h only = fun_ext λ i. elim (dec_lt i 256) [
  | yes p ↦ count_zero 256 0 i ch h (omega arith) (omega arith)
  | no p ↦ only i (omega arith)
]
