-- ===== src/StreamDb/Types.antt =====
-- The data of src/db/streamdb.c: status codes, trie nodes, the database record, and the
-- allocator that its operations call.
use de_mo_d.Prelude.{ℕ, add64, ◌==◌, if◌then◌else◌}
use de_mo_d.Prelude.{Bool, true, Option, none, List, [], ◌∷◌}

-- `StreamDBStatus`
pub data Status : Type 0 where
  ok error not_found invalid_arg no_memory io_error not_supported : Status

-- `TrieNode *`. `null` is the null pointer; a node has the array `children` (indexed by a byte),
-- the buffer that `value` points to (`none` for a null pointer), `value_size` and `is_end`, an
-- `int` that the code tests against 0.
pub data Trie : Type 0 where
  null : Trie
  node : (ℕ → Trie) → Option (List ℕ) → ℕ → ℕ → Trie

-- `children[c] = t`
abbrev pub set_child : (ℕ → Trie) → ℕ → Trie → ℕ → Trie
set_child ch c t i = if i == c then t else ch i

-- The three counters of `struct StreamDB`, `size_t` each.
pub record Counts : Type 0 where
  pub total_size : ℕ
  pub key_count : ℕ
  pub node_count : ℕ

-- The results of the coming calls of `malloc` and `calloc`: a failure is `false`, and after the
-- end of the list all calls succeed.
abbrev pub Mem : Type 0
Mem = List Bool

unfoldable pub malloc : Mem → Bool × Mem
malloc [] = (true, [])
malloc (b ∷ m) = (b, m)

-- A node as `calloc` leaves it.
abbrev pub empty_node : Trie
empty_node = node (λ _. null) none 0 0

unfoldable pub create_node : Counts → Mem → Trie × Counts × Mem
unfolding malloc
create_node c m =
    let (fine, m') = malloc m in
    if fine then (empty_node, record c { node_count = add64 c.node_count 1 }, m') else (null, c, m')

-- `struct StreamDB`, less the mutex, the condition variable and the thread handle.
pub record Db : Type 0 where
  pub root : Trie
  pub counts : Counts
  pub file_path : Option (List ℕ)
  pub is_file_backend : Bool
  pub dirty : Bool
  pub running : Bool
  pub shutdown_requested : Bool
  pub auto_flush_interval_ms : ℕ
  pub thread_started : Bool

-- STREAMDB_MAX_KEY_LEN
abbrev pub max_key_len : ℕ
max_key_len = 1024
