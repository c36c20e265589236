-- ===== src/StreamDb/Open/Reopen.antt =====
-- Opening the file that a flush wrote (src/db/streamdb.c).
use mathlib.Core.Option
use mathlib.Core.Path.{subst}
use mathlib.Core.List.{append-nil}
use de_mo_d.Prelude.{
  ℕ, ◌==◌, if◌then◌else◌, arith, true, false, if_true, eq→==, ◌≡◌, refl, sym, ap, ◌∙◌, Option, none,
  some, List, [], ◌∷◌, ◌++◌,
}
use de_mo_d.StreamDb.Types.{Trie, node, null, empty_node, Counts, Mem, malloc, create_node, Db}
use de_mo_d.StreamDb.Find.{not_null, lookup, find_node, stored}
use de_mo_d.StreamDb.Contract.{IsValid, SoundEntry}
use de_mo_d.StreamDb.Depth.{either}
use de_mo_d.StreamDb.Insert.Balance.{null_measures}
use de_mo_d.StreamDb.Delete.{free_node}
use de_mo_d.StreamDb.Measure.{Counted}
use de_mo_d.StreamDb.Serialize.{le_bytes}
use de_mo_d.StreamDb.Serialize.Encoding.{encode, Fits}
use de_mo_d.StreamDb.Input.{Load, fread_number}
use de_mo_d.StreamDb.Input.Numbers.{file, fread-append, fread_number-append}
use de_mo_d.StreamDb.Deserialize.{deserialize_trie}
use de_mo_d.StreamDb.Deserialize.Loading.{Storable, counted}
use de_mo_d.StreamDb.Deserialize.RoundTrip.{deserialize_trie-encode}
use de_mo_d.StreamDb.Deserialize.Counting.{counted-Balanced}
use de_mo_d.StreamDb.Flush.{magic, version, no_path}
use de_mo_d.StreamDb.Open.{
  Host, adopt, load_version, has_magic, same_bytes, load_file, new_db, start_thread, open_backend,
  copy_path, has_path, init_with_config, flush_interval,
}

-- What a flush writes for a trie.
abbrev pub saved : Trie → List ℕ
saved t = magic ++ (le_bytes 4 version ++ encode t)

-- Reading it back replaces the root, and counts the trie instead of the empty root.
load_file-saved :
    (db : Db) (t : Trie)
    → not_null t ≡ true
    → Storable t
    → Fits 4096 t
    → load_file db (saved t) []
      ≡ some (record db { root = t; counts = free_node (counted t db.counts); dirty = false }, [])
unfolding load_file load_version has_magic same_bytes adopt
load_file-saved db t there good fits =
    let body = le_bytes 4 version ++ encode t in
    let whole : Load = file (saved t) db.counts in
    ap
      (λ (r : Option (List ℕ) × Load).
        if has_magic r.0
        then load_version db (fread_number 4 r.1)
        else Option.map (adopt db) (deserialize_trie whole))
      (fread-append 4 magic body db.counts refl)
    ∙ ap (load_version db) (fread_number-append 4 version (encode t) db.counts (omega arith))
    ∙ ap (λ input. Option.map (adopt db) (deserialize_trie (file input db.counts)))
        (sym (append-nil (encode t)))
    ∙ ap (Option.map (adopt db)) (deserialize_trie-encode t [] db.counts there good fits)

-- The counters of a database whose empty root gave way to a trie that was read.
counted-Counted :
    (t : Trie) (c : Counts)
    → Storable t
    → c.node_count ≡ 1
    → c.key_count ≡ 0
    → c.total_size ≡ 0
    → Counted (free_node (counted t c)) t
unfolding free_node
counted-Counted t c good nodes keys bytes =
    let b = counted-Balanced t c good in
    record {
      nodes = omega (arith, b.nodes, null_measures.0, b.nodes_fit (omega arith));
      keys = omega (arith, b.keys, null_measures.1, b.keys_fit (omega arith));
      bytes = omega (arith, b.bytes, null_measures.2, b.bytes_fit (omega arith));
    }

Storable-SoundEntry : (p : List ℕ) (t : Trie) → Storable t → SoundEntry (lookup p t)
unfolding lookup find_node stored
Storable-SoundEntry p null h = tt
Storable-SoundEntry [] (node ch none s e) h =
    subst (λ t. SoundEntry (stored t))
      (sym (if_true {b = e == 0} null (node ch none s e) (eq→== e 0 h.0.0))) tt
Storable-SoundEntry [] (node ch (some v) s e) h =
    either (λ t. SoundEntry (stored t)) (e == 0) tt (sym h.0.2, h.0.3)
Storable-SoundEntry (b ∷ p) (node ch v s e) h = Storable-SoundEntry p (ch b) (h.1 b)

-- `init` of the path and the interval `ms` on a host on which all succeeds and the file has this content.
abbrev pub fine_host : List ℕ → Host
fine_host content = record {
  mutex_fine = true;
  condvar_fine = true;
  file = some content;
  thread_fine = true;
}

-- Opening what a flush wrote for a trie gives a valid, clean database with that trie.
pub init_with_config-saved :
    (t : Trie) (path : List ℕ) (config : Option ℕ)
    → not_null t ≡ true
    → Storable t
    → Fits 4096 t
    → (db : Db) × (init_with_config (some path) config (fine_host (saved t)) []
        ≡ some (some db, []))
      × (db.root ≡ t)
      × (db.dirty ≡ false)
      × IsValid db
unfolding init_with_config create_node malloc not_null copy_path has_path no_path open_backend
init_with_config-saved t path config there good fits =
    let c0 : Counts = record { total_size = 0; key_count = 0; node_count = 1 } in
    let empty_db = new_db empty_node c0 (some path) true (flush_interval config) in
    (
      start_thread (fine_host (saved t)) (flush_interval config)
          (record empty_db { root = t; counts = free_node (counted t c0) }),
      ap
          (λ (o : Option (Db × Mem)).
            Option.map (λ (r : Db × Mem). (some r.0, r.1))
              (Option.map
                (λ (r : Db × Mem).
                  (start_thread (fine_host (saved t)) (flush_interval config) r.0, r.1))
                o))
          (load_file-saved empty_db t there good fits),
      refl,
      refl,
      record {
        rooted = there;
        counted = counted-Counted t c0 good refl refl refl;
        sound = λ p h. Storable-SoundEntry p t good;
      },
    )
