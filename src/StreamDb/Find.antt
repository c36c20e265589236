-- ===== src/StreamDb/Find.antt =====
-- `internal_find`, `streamdb_get` and `streamdb_exists` of src/db/streamdb.c.
pub mod Laws
use de_mo_d.Prelude.{ℕ, ◌==◌, ltb, if◌then◌else◌, length, take}
use de_mo_d.Prelude.{Bool, true, false, ◌||◌, Option, none, some, List, [], ◌∷◌}
use de_mo_d.StreamDb.Types.{Trie, null, node, Mem, malloc, Db, max_key_len}
use de_mo_d.StreamDb.Keys.{path_of}

-- The walk of `internal_find` down a path, and its test of `is_end`.
unfoldable pub find_node : List ℕ → Trie → Trie
find_node p null = null
find_node [] (node ch v s e) = if e == 0 then null else node ch v s e
find_node (b ∷ p) (node ch v s e) = find_node p (ch b)

-- `key_len == 0 || key_len > STREAMDB_MAX_KEY_LEN`
abbrev pub bad_len : List ℕ → Bool
bad_len key = length key == 0 || ltb max_key_len (length key)

unfoldable pub internal_find : Trie → List ℕ → Trie
internal_find root key = if bad_len key then null else find_node (path_of key) root

-- What `streamdb_get` copies out of the node that it found: the buffer and `*value_size`.
unfoldable pub copy_value : Trie → Mem → Option (List ℕ) × ℕ × Mem
unfolding malloc
copy_value null m = (none, 0, m)
copy_value (node ch none s e) m = (none, 0, m)
copy_value (node ch (some v) s e) m =
    let (fine, m') = malloc m in if fine then (some (take s v), s, m') else (none, 0, m')

-- `none` for a key is a null pointer.
unfoldable pub get : Db → Option (List ℕ) → Mem → Option (List ℕ) × ℕ × Mem
unfolding copy_value internal_find
get db none m = (none, 0, m)
get db (some key) m =
    if length key == 0 then (none, 0, m) else copy_value (internal_find db.root key) m

unfoldable pub not_null : Trie → Bool
not_null null = false
not_null (node ch v s e) = true

unfoldable pub exists : Db → Option (List ℕ) → Bool
unfolding not_null internal_find
exists db none = false
exists db (some key) = if length key == 0 then false else not_null (internal_find db.root key)

-- The buffer and the size that the walk finds at a path: what `get` and `exists` read.
unfoldable pub stored : Trie → Option (Option (List ℕ) × ℕ)
stored null = none
stored (node ch v s e) = some (v, s)

unfoldable pub lookup : List ℕ → Trie → Option (Option (List ℕ) × ℕ)
unfolding find_node stored
lookup p t = stored (find_node p t)
