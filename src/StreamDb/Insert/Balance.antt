-- ===== src/StreamDb/Insert/Balance.antt =====
-- The counters of `struct StreamDB` after `insert_at` (src/db/streamdb.c, `streamdb_insert`).
use de_mo_d.Prelude.{ℕ, arith, Bytes}
use de_mo_d.Prelude.{◌≡◌, refl, none, some, List, [], ◌∷◌}
use de_mo_d.StreamDb.Types.{Trie, null, node, empty_node, Counts, Mem, create_node}
use de_mo_d.StreamDb.Measure.{measure, sum_below, nodes_in, keys_in, bytes_in}
use de_mo_d.StreamDb.Measure.{Balanced, Balanced-refl, Balanced-trans, Balanced-set_child}
use de_mo_d.StreamDb.Insert.{set_value, child_or_new, insert_at}

-- An empty node counts one node, no key and no byte.
empty_node_measures :
    (nodes_in empty_node ≡ 1) × (keys_in empty_node ≡ 0) × (bytes_in empty_node ≡ 0)
unfolding measure sum_below
empty_node_measures = (refl, refl, refl)

pub null_measures : (nodes_in null ≡ 0) × (keys_in null ≡ 0) × (bytes_in null ≡ 0)
unfolding measure
null_measures = (refl, refl, refl)

child_or_new-Balanced :
    (t : Trie) (c : Counts) (m : Mem) → Balanced c t (child_or_new t c m).1 (child_or_new t c m).0
unfolding child_or_new create_node
child_or_new-Balanced (node ch v s e) c m = Balanced-refl c (node ch v s e)
child_or_new-Balanced null c m = ground (arith, empty_node_measures, null_measures)

set_value-Balanced :
    (value : List ℕ) (t : Trie) (c : Counts) (m : Mem)
    → Balanced c t (set_value value t c m).2 (set_value value t c m).1
unfolding set_value measure
set_value-Balanced value null c m = Balanced-refl c null
set_value-Balanced value (node ch none s e) c m = ground arith
set_value-Balanced value (node ch (some v) s e) c m = ground arith

-- Every insertion of a byte string, failed ones too, moves the counters by as much as the trie.
pub insert_at-Balanced :
    (p value : List ℕ) (t : Trie) (c : Counts) (m : Mem)
    → Bytes p
    → Balanced c t (insert_at p value t c m).2 (insert_at p value t c m).1
unfolding insert_at
insert_at-Balanced p value null c m h = Balanced-refl c null
insert_at-Balanced [] value (node ch v s e) c m h = set_value-Balanced value (node ch v s e) c m
insert_at-Balanced (b ∷ p) value (node ch v s e) c m h =
    let (child, c1, m1) = child_or_new (ch b) c m in
    Balanced-set_child ch b _ v s e h.0 (
      Balanced-trans (child_or_new-Balanced (ch b) c m)
        (insert_at-Balanced p value child c1 m1 h.1))
