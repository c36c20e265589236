-- ===== src/StreamDb/Open/Tests.antt =====
-- Runs of `streamdb_init_with_config`, of the loader and of the flushing thread (src/db/streamdb.c)
-- on small databases.
use mathlib.Core.Path.{subst}
use de_mo_d.Prelude.{
  ℕ, ◌+◌, arith, length, ◌≢◌, ◌≡◌, refl, sym, true, false, none, some, Option, List, [], ◌∷◌, ◌++◌,
  loop,
}
use de_mo_d.StreamDb.Types.{empty_node, create_node, Trie, Db}
use de_mo_d.StreamDb.Keys.{read_back}
use de_mo_d.StreamDb.Find.{not_null}
use de_mo_d.StreamDb.Find.Laws.{lookup-empty_node}
use de_mo_d.StreamDb.Measure.{measure, sum_below}
use de_mo_d.StreamDb.Insert.{insert, insert_at}
use de_mo_d.StreamDb.Stored.{empty_node-Storable}
use de_mo_d.StreamDb.Serialize.Encoding.{encode, rounds}
use de_mo_d.StreamDb.Input.{Load, fread, fread_number}
use de_mo_d.StreamDb.Input.Numbers.{file}
use de_mo_d.StreamDb.Deserialize.{
  deserialize_trie, load_loop, load_root, root_data, give_up, make_node, read_node, read_value,
  allocate, free_node_recursive, root_of, root_over,
}
use de_mo_d.StreamDb.Deserialize.Loading.{counted}
use de_mo_d.StreamDb.Deserialize.Total.{deserialize_trie_total}
use de_mo_d.StreamDb.Deserialize.RoundTrip.{deserialize_trie-encode}
use de_mo_d.StreamDb.Flush.{Disk}
use de_mo_d.StreamDb.Flush.Durable.{fine_disk, quiet, IsApart}
use de_mo_d.StreamDb.Flush.Refused.{is_target-apart}
use de_mo_d.StreamDb.Contract.{IsKey, IsValid, SoundEntry, view}
use de_mo_d.StreamDb.Open.{
  load_file, init_with_config, free, adopt, load_version, has_magic, same_bytes,
}
use de_mo_d.StreamDb.Open.Reopen.{saved, fine_host}
use de_mo_d.StreamDb.Open.Durable.{IsOpen, IsOpen-IsBacked, init_with_config-free}
use de_mo_d.StreamDb.Open.Kept.{State, IsDurable, insert-IsOpen, insert_fields}
use de_mo_d.StreamDb.Open.Steps.{
  Reach, here, next, inserting, flushing, turning, Reach-saved, auto_flush_round_lem,
}

abbrev path : List ℕ
path = 47 ∷ 100 ∷ []

-- A file-backed database with no keys and a change that is not saved.
abbrev blank : Db
blank = record {
  root = empty_node;
  counts = record { total_size = 0; key_count = 0; node_count = 1 };
  file_path = some path;
  is_file_backend = true;
  dirty = true;
  running = true;
  shutdown_requested = false;
  auto_flush_interval_ms = 5000;
  thread_started = true;
}

blank-IsOpen : IsOpen blank
blank-IsOpen = record {
  valid = record {
    rooted = unfold not_null in refl;
    counted = unfold measure sum_below in record { nodes = refl; keys = refl; bytes = refl };
    sound = λ p h. subst SoundEntry (sym (lookup-empty_node p)) tt;
  };
  backend = refl;
  path = (path, refl);
  shallow = λ i. tt;
  storable = empty_node-Storable;
}

abbrev system : Disk
system = record {
  file = none;
  pid = 49 ∷ [];
  windows = false;
  opens = true;
  writes = [];
  close_cut = none;
  deletes = true;
  renames = true;
  removes = true;
}

some-injective : {x y : List ℕ} → some x ≡ some y → x ≡ y
some-injective h = cc h

blank-IsApart : IsApart blank.file_path
blank-IsApart = λ p h. subst (λ q. length q ≢ 1099) (some-injective h) (λ e. omega (arith, e))

abbrev cat : List ℕ
cat = 99 ∷ 97 ∷ 116 ∷ []

abbrev purr : List ℕ
purr = 1 ∷ 2 ∷ []

cat-IsKey : IsKey cat
cat-IsKey = record {
  nonempty = omega arith;
  short = omega arith;
  bytes = (omega arith, (omega arith, (omega arith, tt)));
}

abbrev filled : Db
filled = (insert blank (some cat) (some purr) []).1

filled-IsOpen : IsOpen filled
filled-IsOpen = insert-IsOpen blank purr blank-IsOpen cat-IsKey (omega arith) (omega arith)

init_with_config-free_example :
    (content : List ℕ) × (free (rounds filled.root + 0) filled (fine_disk system none) []
      ≡ some (fine_disk system (some content), []))
    × (db' : Db) × (init_with_config (some path) (some 100) (fine_host content) []
        ≡ some (some db', []))
    × IsValid db'
    × ((key : List ℕ) → IsKey key → view db' key ≡ view filled key)
init_with_config-free_example =
    init_with_config-free system filled none path (some 100) 0 filled-IsOpen
      (unfold insert insert_at create_node read_back in refl)

deserialize_trie-encode_example :
    deserialize_trie (file (encode filled.root ++ (7 ∷ [])) blank.counts)
    ≡ some (some filled.root, file (7 ∷ []) (counted filled.root blank.counts))
deserialize_trie-encode_example =
    deserialize_trie-encode filled.root (7 ∷ []) blank.counts filled-IsOpen.valid.rooted
      filled-IsOpen.storable (IsOpen-IsBacked filled-IsOpen).levels

-- Two bytes are no trie.
deserialize_trie_total_example :
    (r : Option Trie × Load) × (deserialize_trie (file (1 ∷ 2 ∷ []) blank.counts) ≡ some r)
deserialize_trie_total_example = deserialize_trie_total (file (1 ∷ 2 ∷ []) blank.counts)

-- A file that ends after the root's value: the load fails, and the counters keep what it had read.
abbrev cut_off : List ℕ
cut_off = 83 ∷ 84 ∷ 68 ∷ 66 ∷ 2 ∷ 0 ∷ 0 ∷ 0 ∷ 1 ∷ 0 ∷ 0 ∷ 0 ∷ 1 ∷ 0 ∷ 0 ∷ 0 ∷ 0 ∷ 0 ∷ 0 ∷ 0 ∷ 9 ∷ []

cut_off_counts :
    load_file blank cut_off []
    ≡ some (record blank { counts = record { total_size = 1; key_count = 1; node_count = 1 } }, [])
unfolding load_file fread fread_number load_version has_magic same_bytes adopt deserialize_trie
    load_loop load_root root_data make_node read_node read_value allocate give_up
    free_node_recursive root_of root_over create_node not_null loop
cut_off_counts = refl

-- An insertion, a disk that refuses for a while, and a round of the thread.
abbrev start : State
start = record { db = blank; disk = quiet system none true true }

start-IsDurable : IsDurable start
start-IsDurable = record { open_db = blank-IsOpen; apart = blank-IsApart; clean = λ e. cc e }

abbrev end : State
end = record {
  db = record filled { dirty = false };
  disk = quiet system (some (saved filled.root)) true true;
}

start_reaches_end : Reach start end
unfolding insert insert_at create_node read_back
start_reaches_end =
    let (more, e) =
      auto_flush_round_lem filled system none true true 0 (IsOpen-IsBacked filled-IsOpen) (
        is_target-apart filled.file_path system.pid (
          subst IsApart (sym (insert_fields blank purr cat-IsKey (omega arith)).1)
            blank-IsApart)) in
    next
      (next
        (next
          (next here (
            inserting blank (quiet system none true true) cat purr cat-IsKey (omega arith)
              (omega arith)))
          (turning filled (quiet system none true true) false true))
        (turning filled (quiet system none false true) true true))
      (flushing filled system none true true 0 (more, end.db, end.disk, []) e)

Reach-saved_example :
    (content : List ℕ) × (end.disk.file ≡ some content)
    × (db' : Db) × (init_with_config (some path) none (fine_host content) [] ≡ some (some db', []))
    × IsValid db'
    × ((key : List ℕ) → IsKey key → view db' key ≡ view end.db key)
Reach-saved_example = Reach-saved path none start-IsDurable start_reaches_end refl
