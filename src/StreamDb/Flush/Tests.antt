-- ===== src/StreamDb/Flush/Tests.antt =====
-- Runs of `streamdb_flush` (src/db/streamdb.c) on a database with one key.
use mathlib.Core.Path.{subst}
use de_mo_d.Prelude.{
  arith, length, ◌≢◌, ℕ, ◌+◌, ◌≡◌, refl, true, false, none, some, List, [], ◌∷◌, ◌++◌,
}
use de_mo_d.StreamDb.Types.{Status, ok, empty_node, create_node, Db, Mem}
use de_mo_d.StreamDb.Keys.{read_back}
use de_mo_d.StreamDb.Find.{not_null}
use de_mo_d.StreamDb.Insert.{insert, insert_at, is_ok}
use de_mo_d.StreamDb.Depth.{Operation, inserting, deleting, apply_all, apply_all-Fits}
use de_mo_d.StreamDb.Serialize.{serialize_trie, le_bytes, serialize_stack_size}
use de_mo_d.StreamDb.Serialize.Encoding.{encode, rounds, Fits, done, serialize_trie_lem}
use de_mo_d.StreamDb.Flush.{Disk, magic, version, closed_file, flush}
use de_mo_d.StreamDb.Flush.Durable.{IsBacked, posix, flush_lem, header, flush_unchecked_header}
use de_mo_d.StreamDb.Flush.Refused.{flush_failure}

abbrev path : List ℕ
path = 47 ∷ 100 ∷ 98 ∷ []

-- A database with a file and no keys.
abbrev blank : Db
blank = record {
  root = empty_node;
  counts = record { total_size = 0; key_count = 0; node_count = 1 };
  file_path = some path;
  is_file_backend = true;
  dirty = false;
  running = true;
  shutdown_requested = false;
  auto_flush_interval_ms = 5000;
  thread_started = true;
}

abbrev operations : List Operation
operations =
    inserting (some (97 ∷ 98 ∷ [])) (some (7 ∷ 8 ∷ 9 ∷ [])) [] ∷ deleting (some (97 ∷ [])) [] ∷ []

apply_all-Fits_example : Fits serialize_stack_size (apply_all operations blank).root
apply_all-Fits_example = apply_all-Fits operations blank (λ i. tt)

abbrev filled : Db
filled = apply_all (inserting (some (97 ∷ 98 ∷ [])) (some (7 ∷ 8 ∷ 9 ∷ [])) [] ∷ []) blank

filled-IsBacked : IsBacked filled
unfolding insert insert_at create_node read_back not_null
filled-IsBacked = record {
  backend = refl;
  path = (path, refl);
  rooted = refl;
  levels =
      apply_all-Fits (inserting (some (97 ∷ 98 ∷ [])) (some (7 ∷ 8 ∷ 9 ∷ [])) [] ∷ []) blank
        (λ i. tt);
}

serialize_trie_lem_example :
    serialize_trie (rounds filled.root + 2) filled.root (done (5 ∷ [])) []
    ≡ some (true, done ((5 ∷ []) ++ encode filled.root), [])
serialize_trie_lem_example =
    serialize_trie_lem filled.root 2 (5 ∷ []) filled-IsBacked.rooted filled-IsBacked.levels

-- A system on which the disk is full once two writes are done, no file is renamed and none removed.
abbrev full_disk : Disk
full_disk = record {
  file = some path;
  pid = 49 ∷ 50 ∷ [];
  windows = false;
  opens = true;
  writes = true ∷ true ∷ false ∷ [];
  close_cut = some 3;
  deletes = true;
  renames = false;
  removes = false;
}

some-injective : {x y : List ℕ} → some x ≡ some y → x ≡ y
some-injective h = cc h

flush_lem_example :
    flush (rounds filled.root + 0) filled (posix full_disk none true [] none true) []
    ≡ some (
      ok,
      record filled { dirty = false },
      posix full_disk (some (magic ++ le_bytes 4 version ++ encode filled.root)) true [] none true,
      [],
    )
flush_lem_example = flush_lem full_disk filled none 0 filled-IsBacked

flush_unchecked_header_example :
    flush
      (rounds filled.root + 0)
      filled
      (posix full_disk (some path) true (false ∷ true ∷ []) (some 9) true)
      []
    ≡ some (
      ok,
      record filled { dirty = false },
      posix full_disk
          (some (closed_file (some 9) (header false true ++ encode filled.root)))
          true
          []
          (some 9)
          true,
      [],
    )
flush_unchecked_header_example =
    flush_unchecked_header full_disk filled (some path) 0 false true (some 9) filled-IsBacked

flush_failure_example :
    (r : Status × Db × Disk × Mem) × (flush (rounds filled.root + 0) filled full_disk [] ≡ some r)
    × (is_ok r.0 ≡ false → (r.2.file ≡ full_disk.file) × (r.1 ≡ filled))
unfolding insert
flush_failure_example =
    flush_failure 0 filled full_disk [] filled-IsBacked.levels refl
      (λ p h. subst (λ q. length q ≢ 1099) (some-injective h) (λ e. omega (arith, e)))
