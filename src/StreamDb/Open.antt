-- ===== src/StreamDb/Open.antt =====
-- `streamdb_init_with_config`, `streamdb_shutdown`, `streamdb_free`, `streamdb_get_stats` and a round
-- of `auto_flush_thread` of src/db/streamdb.c. An `int` is its bit pattern of 32 bits.
pub mod Reopen
pub mod Durable
pub mod Kept
pub mod Steps
mod Tests
use mathlib.Core.Option
use de_mo_d.Prelude.{
  ℕ, ◌==◌, if◌then◌else◌, Bool, true, false, not, ◌&&◌, ◌||◌, Option, none, some, List, [], ◌∷◌,
}
use de_mo_d.StreamDb.Types.{
  Status, ok, Trie, null, node, empty_node, Counts, Mem, malloc, create_node, Db,
}
use de_mo_d.StreamDb.Insert.{is_ok}
use de_mo_d.StreamDb.Delete.{free_node}
use de_mo_d.StreamDb.Find.{not_null}
use de_mo_d.StreamDb.Input.{Load, fread, fread_number}
use de_mo_d.StreamDb.Deserialize.{deserialize_trie, positive}
use de_mo_d.StreamDb.Flush.{Disk, magic, version, no_path, internal_flush}

-- STREAMDB_DEFAULT_FLUSH_INTERVAL_MS
abbrev pub default_flush_interval_ms : ℕ
default_flush_interval_ms = 5000

-- `memcmp(a, b, n) == 0` for lists of the same length.
unfoldable pub same_bytes : List ℕ → List ℕ → Bool
same_bytes [] [] = true
same_bytes (x ∷ xs) (y ∷ ys) = x == y && same_bytes xs ys
same_bytes xs ys = false

-- What becomes of the database when `deserialize_trie` returns.
unfoldable pub adopt : Db → Option Trie × Load → Db × Mem
unfolding free_node
adopt db (none, l) = (record db { counts = l.counts }, l.mem)
adopt db (some t, l) = (record db { root = t; counts = free_node l.counts; dirty = false }, l.mem)

-- The version and the trie, after the magic number.
unfoldable pub load_version : Db → Option ℕ × Load → Option (Db × Mem)
unfolding deserialize_trie adopt
load_version db (none, l) = some (db, l.mem)
load_version db (some v, l) =
    if v == version then Option.map (adopt db) (deserialize_trie l) else some (db, l.mem)

-- "Check magic number"
unfoldable pub has_magic : Option (List ℕ) → Bool
unfolding same_bytes
has_magic none = false
has_magic (some bytes) = same_bytes bytes magic

-- "Load from file if exists", with the file's content.
unfoldable pub load_file : Db → List ℕ → Mem → Option (Db × Mem)
unfolding fread fread_number has_magic load_version
load_file db content m =
    let whole : Load = record { input = content; counts = db.counts; mem = m } in
    let (bytes, after) = fread 4 whole in
    if has_magic bytes
    then load_version db (fread_number 4 after)
    else Option.map (adopt db) (deserialize_trie whole)

-- What the system answers to `mutex_init`, `condvar_init`, `fopen` (with the content, or `none`) and
-- `thread_create`.
pub record Host : Type 0 where
  pub mutex_fine : Bool
  pub condvar_fine : Bool
  pub file : Option (List ℕ)
  pub thread_fine : Bool

-- `file_path ? strdup(file_path) : NULL`
unfoldable pub copy_path : Option (List ℕ) → Mem → Option (List ℕ) × Mem
unfolding malloc
copy_path none m = (none, m)
copy_path (some p) m = let (fine, m') = malloc m in (if fine then some p else none, m')

-- The record before the file is read.
abbrev pub new_db : Trie → Counts → Option (List ℕ) → Bool → ℕ → Db
new_db root c path backed flush_ms = record {
  root = root;
  counts = record c { total_size = 0; key_count = 0 };
  file_path = path;
  is_file_backend = backed;
  dirty = false;
  running = true;
  shutdown_requested = false;
  auto_flush_interval_ms = if positive flush_ms then flush_ms else default_flush_interval_ms;
  thread_started = false;
}

-- "Start auto-flush thread"
abbrev pub start_thread : Host → ℕ → Db → Db
start_thread host flush_ms db = record db { thread_started = positive flush_ms && host.thread_fine }

-- The end of `streamdb_init_with_config`: the file and the thread.
unfoldable pub open_backend : Host → ℕ → Db → Mem → Option (Db × Mem)
unfolding load_file no_path
open_backend host flush_ms db m =
    let opened : Option (Db × Mem) = elim host.file [
      | none ↦ some (db, m)
      | some content ↦ load_file db content m
    ] in
    if not db.is_file_backend || no_path db.file_path
    then some (db, m)
    else Option.map (λ r. (start_thread host flush_ms r.0, r.1)) opened

unfoldable pub has_path : Option (List ℕ) → Bool
unfolding no_path
has_path path = not (no_path path)

unfoldable pub flush_interval : Option ℕ → ℕ
flush_interval none = default_flush_interval_ms
flush_interval (some ms) = ms

-- `streamdb_init_with_config`; the inner `none` is a null pointer.
unfoldable pub init_with_config : Option (List ℕ) → Option ℕ → Host → Mem → Option (Option Db × Mem)
unfolding malloc create_node not_null copy_path has_path flush_interval open_backend
init_with_config file_path config host m =
    let (fine, m1) = malloc m in
    let (root, c, m2) = create_node (record { total_size = 0; key_count = 0; node_count = 0 }) m1 in
    let (path, m3) = copy_path file_path m2 in
    let flush_ms = flush_interval config in
    let db = new_db root c path (has_path file_path) flush_ms in
    if not fine
    then some (none, m1)
    else if not (not_null root)
    then some (none, m2)
    else if not host.mutex_fine || not host.condvar_fine
    then some (none, m3)
    else Option.map (λ r. (some r.0, r.1)) (open_backend host flush_ms db m3)

unfoldable pub shutdown : Db → Db
shutdown db = record db { shutdown_requested = true }

-- A round of `auto_flush_thread` after its wait; it ends the thread where the Boolean is false.
unfoldable pub auto_flush_round : ℕ → Db → Disk → Mem → Option (Bool × Db × Disk × Mem)
unfolding is_ok
auto_flush_round n db disk m =
    let flushed =
      Option.map (λ r. (true, if is_ok r.0 then record db { dirty = false } else db, r.1, r.2))
        (internal_flush n db disk m) in
    if db.shutdown_requested
    then some (false, db, disk, m)
    else if db.dirty
    then flushed
    else some (true, db, disk, m)

-- `streamdb_free` once the thread is joined: the disk that it leaves.
unfoldable pub free : ℕ → Db → Disk → Mem → Option (Disk × Mem)
unfolding internal_flush
free n db disk m =
    let flushed = Option.map (λ r. (r.1, r.2)) (internal_flush n db disk m) in
    if db.is_file_backend && db.dirty then flushed else some (disk, m)

-- `StreamDBStats`
pub record StreamDbStats : Type 0 where
  pub total_size : ℕ
  pub key_count : ℕ
  pub node_count : ℕ
  pub is_dirty : Bool
  pub is_file_backend : Bool

unfoldable pub get_stats : Db → StreamDbStats
get_stats db = record {
  total_size = db.counts.total_size;
  key_count = db.counts.key_count;
  node_count = db.counts.node_count;
  is_dirty = db.dirty;
  is_file_backend = db.is_file_backend;
}
