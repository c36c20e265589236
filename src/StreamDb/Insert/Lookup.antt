-- ===== src/StreamDb/Insert/Lookup.antt =====
-- What the walks find after `insert_at` (src/db/streamdb.c, `streamdb_insert`).
use de_mo_d.Prelude.{ℕ, length, arith}
use de_mo_d.Prelude.{◌≡◌, ◌≢◌, refl, some, List, [], ◌∷◌}
use de_mo_d.StreamDb.Types.{ok, Trie, null, node, Counts, Mem, create_node}
use de_mo_d.StreamDb.Find.Laws.{lookup-set_child, lookup-cons}
use de_mo_d.StreamDb.Find.{lookup}
use de_mo_d.StreamDb.Insert.{child_or_new, insert_at}

-- A new child reads like the null pointer that it replaces.
pub lookup-child_or_new :
    (q : List ℕ) (t : Trie) (c : Counts) (m : Mem) → lookup q (child_or_new t c m).0 ≡ lookup q t
unfolding lookup child_or_new create_node
lookup-child_or_new q (node ch v s e) c m = refl
lookup-child_or_new [] null c m = ground arith
lookup-child_or_new (b ∷ q) null c m = ground arith

-- Other paths read as before, whether the insertion succeeds or not.
pub lookup-insert_at_ne :
    (p q value : List ℕ) (t : Trie) (c : Counts) (m : Mem)
    → q ≢ p
    → lookup q (insert_at p value t c m).1 ≡ lookup q t
unfolding insert_at
lookup-insert_at_ne p q value null c m ne = refl
lookup-insert_at_ne [] [] value (node ch v s e) c m ne = absurd (ne refl)
lookup-insert_at_ne [] (x ∷ q) value (node ch v s e) c m ne = unfold lookup in ground arith
lookup-insert_at_ne (b ∷ p) [] value (node ch v s e) c m ne = unfold lookup in ground arith
lookup-insert_at_ne (b ∷ p) (x ∷ q) value (node ch v s e) c m ne =
    let (child, c1, m1) = child_or_new (ch b) c m in
    ground (
      arith,
      lookup-set_child x b q ch (insert_at p value child c1 m1).1 v s e,
      lookup-cons x q ch v s e,
      lookup-child_or_new q (ch b) c m,
      lookup-insert_at_ne p q value child c1 m1,
    )

-- The inserted path reads back the value, when the status is `ok`.
pub lookup-insert_at_self :
    (p value : List ℕ) (t : Trie) (c : Counts) (m : Mem)
    → (insert_at p value t c m).0 ≡ ok
    → lookup p (insert_at p value t c m).1 ≡ some (some value, length value)
unfolding insert_at
lookup-insert_at_self p value null c m h = ground arith
lookup-insert_at_self [] value (node ch v s e) c m h = unfold lookup in ground arith
lookup-insert_at_self (b ∷ p) value (node ch v s e) c m h =
    let (child, c1, m1) = child_or_new (ch b) c m in
    ground (
      arith,
      lookup-set_child b b p ch (insert_at p value child c1 m1).1 v s e,
      lookup-insert_at_self p value child c1 m1,
    )
