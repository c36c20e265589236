-- ===== src/StreamDb/Insert.antt =====
-- `streamdb_insert` of src/db/streamdb.c.
pub mod Lookup
pub mod Balance
use de_mo_d.Prelude.{ℕ, ◌==◌, if◌then◌else◌, add64, sub64, length}
use de_mo_d.Prelude.{Bool, true, false, ◌||◌, Option, none, some, List, [], ◌∷◌}
use de_mo_d.StreamDb.Types.{Status, ok, invalid_arg, no_memory, Trie, null, node, set_child}
use de_mo_d.StreamDb.Types.{Counts, Mem, malloc, create_node, Db}
use de_mo_d.StreamDb.Find.{bad_len}
use de_mo_d.StreamDb.Keys.{path_of}

-- `if (current->is_end && current->value) total_size -= value_size`
unfoldable pub release_value : Option (List ℕ) → ℕ → ℕ → Counts → Counts
release_value none s e c = c
release_value (some v) s e c = if e == 0 then c else record c { total_size = sub64 c.total_size s }

-- "Update value at leaf": the old buffer is freed before the new one is allocated.
unfoldable pub set_value : List ℕ → Trie → Counts → Mem → Status × Trie × Counts × Mem
unfolding malloc release_value
set_value value null c m = (no_memory, null, c, m)
set_value value (node ch v s e) c m =
    let is_new_key = e == 0 in
    let c1 = release_value v s e c in
    let (fine, m') = malloc m in
    if fine
    then (
      ok,
      node ch (some value) (length value) 1,
      record {
        total_size = add64 c1.total_size (length value);
        key_count = if is_new_key then add64 c1.key_count 1 else c1.key_count;
        node_count = c1.node_count;
      },
      m',
    )
    else (no_memory, node ch none s e, c1, m')

-- `if (!current->children[c]) current->children[c] = create_node(db)`
unfoldable pub child_or_new : Trie → Counts → Mem → Trie × Counts × Mem
unfolding create_node
child_or_new null c m = create_node c m
child_or_new (node ch v s e) c m = (node ch v s e, c, m)

-- The loop over the path and the update at its end. `null` is the child that could not be made.
unfoldable pub insert_at : List ℕ → List ℕ → Trie → Counts → Mem → Status × Trie × Counts × Mem
unfolding set_value child_or_new
insert_at p value null c m = (no_memory, null, c, m)
insert_at [] value (node ch v s e) c m = set_value value (node ch v s e) c m
insert_at (b ∷ p) value (node ch v s e) c m =
    let (child, c1, m1) = child_or_new (ch b) c m in
    let (status, t, c2, m2) = insert_at p value child c1 m1 in
    (status, node (set_child ch b t) v s e, c2, m2)

unfoldable pub is_ok : Status → Bool
is_ok ok = true
is_ok s = false

-- `none` for `key` or `value` is a null pointer.
unfoldable pub insert : Db → Option (List ℕ) → Option (List ℕ) → Mem → Status × Db × Mem
unfolding is_ok
insert db none value m = (invalid_arg, db, m)
insert db (some key) none m = (invalid_arg, db, m)
insert db (some key) (some value) m =
    if bad_len key || length value == 0
    then (invalid_arg, db, m)
    else (let (status, root, counts, m') = insert_at (path_of key) value db.root db.counts m in
        (status, record db { root = root; counts = counts; dirty = db.dirty || is_ok status }, m'))
