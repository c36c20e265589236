-- ===== src/StreamDb/Delete.antt =====
-- `has_no_children`, `free_node`, `remove_helper` and `streamdb_delete` of src/db/streamdb.c.
pub mod Lookup
pub mod Balance
use de_mo_d.Prelude.{ℕ, zero, suc, ltb, ◌==◌, if◌then◌else◌, sub64}
use de_mo_d.Prelude.{Bool, true, false, not, ◌&&◌, Option, none, some, List, [], ◌∷◌}
use de_mo_d.StreamDb.Types.{Status, ok, not_found, invalid_arg, Trie, null, node, set_child}
use de_mo_d.StreamDb.Types.{Counts, Mem, create_node, Db}
use de_mo_d.StreamDb.Find.{bad_len, not_null}
use de_mo_d.StreamDb.Keys.{path_of}

-- The loop `for (i = ...; i < MAX_CHILDREN; i++)` with `n` rounds left.
unfoldable pub none_from : ℕ → ℕ → (ℕ → Trie) → Bool
unfolding not_null
none_from zero i ch = true
none_from (suc n) i ch =
    let rest = none_from n (suc i) ch in if not_null (ch i) then false else rest

unfoldable pub has_no_children : (ℕ → Trie) → Bool
unfolding none_from
has_no_children ch = none_from 256 0 ch

-- `free_node` on a node: the counter goes down.
unfoldable pub free_node : Counts → Counts
free_node c = record c { node_count = sub64 c.node_count 1 }

-- "Never delete the root node"
unfoldable pub prune : Bool → Trie → Counts → Trie × Counts
unfolding free_node
prune is_root null c = (null, c)
prune is_root (node ch v s e) c =
    if has_no_children ch && e == 0 && not is_root then (null, free_node c) else (node ch v s e, c)

-- `if (node->is_end) { ... }` at the end of the path. The number is `*removed_size`.
unfoldable pub clear_end : Trie → ℕ → Counts → Trie × ℕ × Counts
clear_end null removed c = (null, removed, c)
clear_end (node ch v s e) removed c =
    if e == 0
    then (node ch v s e, removed, c)
    else (node ch none 0 0, s, record c { key_count = sub64 c.key_count 1 })

unfoldable pub remove_helper : List ℕ → Bool → Trie → ℕ → Counts → Trie × ℕ × Counts
unfolding prune clear_end
remove_helper p is_root null removed c = (null, removed, c)
remove_helper [] is_root (node ch v s e) removed c =
    let (t, removed', c1) = clear_end (node ch v s e) removed c in
    let (t', c2) = prune is_root t c1 in (t', removed', c2)
remove_helper (b ∷ p) is_root (node ch v s e) removed c =
    let (child, removed', c1) = remove_helper p false (ch b) removed c in
    let (t', c2) = prune is_root (node (set_child ch b child) v s e) c1 in (t', removed', c2)

-- "Ensure root is never NULL"
unfoldable pub ensure_root : Trie → Counts → Mem → Trie × Counts × Mem
unfolding create_node
ensure_root null c m = create_node c m
ensure_root (node ch v s e) c m = (node ch v s e, c, m)

unfoldable pub delete : Db → Option (List ℕ) → Mem → Status × Db × Mem
unfolding ensure_root
delete db none m = (invalid_arg, db, m)
delete db (some key) m =
    if bad_len key
    then (invalid_arg, db, m)
    else (let (t, removed, c) = remove_helper (path_of key) true db.root 0 db.counts in
        let (root, c1, m') = ensure_root t c m in
        if ltb 0 removed
        then (
          ok,
          record db {
            root = root;
            counts = record c1 { total_size = sub64 c1.total_size removed };
            dirty = true;
          },
          m',
        )
        else (not_found, record db { root = root; counts = c1 }, m'))
