-- ===== src/StreamDb/Delete/Balance.antt =====
-- The counters of `struct StreamDB` after `remove_helper` (src/db/streamdb.c).
use de_mo_d.Prelude.{ℕ, ◌<◌, arith, Bytes}
use de_mo_d.Prelude.{
  ◌≡◌, refl, zero, suc, sub64, Bool, true, false, Option, none, some, List, [], ◌∷◌,
}
use de_mo_d.StreamDb.Types.{Trie, null, node, set_child, Counts}
use de_mo_d.StreamDb.Find.{lookup, not_null}
use de_mo_d.StreamDb.Find.Laws.{lookup-cons}
use de_mo_d.StreamDb.Measure.{measure, own_node, own_key, own_bytes}
use de_mo_d.StreamDb.Measure.{Balanced, Balanced-refl, Balanced-set_child, sum_below}
use de_mo_d.StreamDb.Delete.Lookup.{none_from_sound}
use de_mo_d.StreamDb.Delete.{has_no_children, prune, clear_end, remove_helper}

-- What `*removed_size` holds after the removal of what a lookup found.
abbrev pub removed_of : Option (Option (List ℕ) × ℕ) → ℕ → ℕ
removed_of none r = r
removed_of (some (v, s)) r = s

-- The bytes that a found entry holds.
abbrev pub bytes_of : Option (Option (List ℕ) × ℕ) → ℕ
bytes_of none = 0
bytes_of (some (none, s)) = 0
bytes_of (some (some v, s)) = s

abbrev pub found : Option (Option (List ℕ) × ℕ) → ℕ
found none = 0
found (some x) = 1

-- `*removed_size` is the `value_size` of the entry at the path.
pub removed_lem :
    (p : List ℕ) (is_root : Bool) (t : Trie) (r : ℕ) (c : Counts)
    → (remove_helper p is_root t r c).1 ≡ removed_of (lookup p t) r
unfolding remove_helper
removed_lem p is_root null r c = unfold lookup in refl
removed_lem [] is_root (node ch v s e) r c = unfold lookup in ground arith
removed_lem (b ∷ p) is_root (node ch v s e) r c = rw lookup-cons (removed_lem p false (ch b) r c)

sum_below_zero : (n : ℕ) (f : ℕ → ℕ) → ((i : ℕ) → i < n → f i ≡ 0) → sum_below n f ≡ 0
unfolding sum_below
sum_below_zero zero f h = refl
sum_below_zero (suc n) f h =
    omega (arith, sum_below_zero n f (λ i l. h i (omega arith)), h n (omega arith))

measure-null_child :
    (w : Option (List ℕ) → ℕ → ℕ → ℕ) (t : Trie) → not_null t ≡ false → measure w t ≡ 0
unfolding measure not_null
measure-null_child w null h = refl
measure-null_child w (node ch v s e) h = ground arith

-- Without children a node measures its own weight.
measure_childless :
    (w : Option (List ℕ) → ℕ → ℕ → ℕ) (ch : ℕ → Trie) (v : Option (List ℕ)) (s e : ℕ)
    → has_no_children ch ≡ true
    → measure w (node ch v s e) ≡ w v s e
unfolding measure has_no_children
measure_childless w ch v s e h = omega (
  arith,
  sum_below_zero 256 (λ i. measure w (ch i))
      λ i l. measure-null_child w (ch i) (none_from_sound 256 0 i ch h (omega arith) (omega arith)),
)

measure-null : (w : Option (List ℕ) → ℕ → ℕ → ℕ) → measure w null ≡ 0
unfolding measure
measure-null w = refl

own_bytes_zero : (v : Option (List ℕ)) (s e : ℕ) → e ≡ 0 → own_bytes v s e ≡ 0
own_bytes_zero none s e h = refl
own_bytes_zero (some v) s e h = ground arith

-- A node that is pruned leaves the key and byte counters as they are.
prune-Balanced :
    (is_root : Bool) (t : Trie) (c : Counts)
    → Balanced c t (prune is_root t c).1 (prune is_root t c).0
unfolding prune
prune-Balanced is_root null c = Balanced-refl c null
prune-Balanced is_root (node ch v s e) c = ground (
  arith,
  measure_childless own_node ch v s e,
  measure_childless own_key ch v s e,
  measure_childless own_bytes ch v s e,
  measure-null own_node,
  measure-null own_key,
  measure-null own_bytes,
  own_bytes_zero v s e,
)

-- `total_size -= n`
abbrev pub drop_bytes : Counts → ℕ → Counts
drop_bytes c n = record c { total_size = sub64 c.total_size n }

drop_bytes_trans :
    {c : Counts} {t : Trie} {c1 : Counts} {t1 : Trie} {c2 : Counts} {t2 : Trie} (n : ℕ)
    → Balanced c t (drop_bytes c1 n) t1
    → Balanced c1 t1 c2 t2
    → Balanced c t (drop_bytes c2 n) t2
drop_bytes_trans n p q = record {
  nodes = omega (arith, p.nodes, q.nodes);
  keys = omega (arith, p.keys, q.keys);
  bytes = omega (arith, p.bytes, q.bytes);
  nodes_fit = λ h. q.nodes_fit (p.nodes_fit h);
  keys_fit = λ h. q.keys_fit (p.keys_fit h);
  bytes_fit = λ h. omega arith;
}

clear_end-Balanced :
    (ch : ℕ → Trie) (v : Option (List ℕ)) (s e r : ℕ) (c : Counts)
    → let (t, r1, c1) = clear_end (node ch v s e) r c in
      Balanced c (node ch v s e) (drop_bytes c1 (bytes_of (lookup [] (node ch v s e)))) t
unfolding clear_end lookup measure
clear_end-Balanced ch none s e r c = ground arith
clear_end-Balanced ch (some v) s e r c = ground arith

-- With the found bytes taken off the total, the counters move by as much as the trie.
pub remove-Balanced :
    (p : List ℕ) (is_root : Bool) (t : Trie) (r : ℕ) (c : Counts)
    → Bytes p
    → let (t', r', c') = remove_helper p is_root t r c in
      Balanced c t (drop_bytes c' (bytes_of (lookup p t))) t'
unfolding remove_helper
remove-Balanced p is_root null r c h = unfold lookup in ground arith
remove-Balanced [] is_root (node ch v s e) r c h =
    let (t, r1, c1) = clear_end (node ch v s e) r c in
    drop_bytes_trans (bytes_of (lookup [] (node ch v s e))) (clear_end-Balanced ch v s e r c)
      (prune-Balanced is_root t c1)
remove-Balanced (b ∷ p) is_root (node ch v s e) r c h =
    let (child, r1, c1) = remove_helper p false (ch b) r c in
    drop_bytes_trans (bytes_of (lookup (b ∷ p) (node ch v s e)))
      (rw lookup-cons
        (Balanced-set_child ch b child v s e h.0 (remove-Balanced p false (ch b) r c h.1)))
      (prune-Balanced is_root (node (set_child ch b child) v s e) c1)
