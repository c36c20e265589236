-- ===== src/StreamDb/Open/Steps.antt =====
-- The database and its file under the steps of the callers and of the thread that flushes
-- (src/db/streamdb.c).
use mathlib.Core.Option
use de_mo_d.Prelude.{
  ℕ, ◌+◌, ◌^◌, ◌<◌, arith, length, if◌then◌else◌, Bool, true, false, ◌&&◌, ◌||◌, ◌≡◌, refl, sym, ap,
  ◌∙◌, inl, inr, Option, some, List, [],
}
use mathlib.Core.Path.{subst}
use de_mo_d.StreamDb.Types.{Status, Mem, Db, ok, io_error, not_found}
use de_mo_d.StreamDb.Find.{lookup}
use de_mo_d.StreamDb.Keys.{path_of}
use de_mo_d.StreamDb.Insert.{insert, is_ok}
use de_mo_d.StreamDb.Delete.{delete}
use de_mo_d.StreamDb.Serialize.Encoding.{rounds}
use de_mo_d.StreamDb.Flush.{Disk, is_target}
use de_mo_d.StreamDb.Flush.Refused.{is_target-apart}
use de_mo_d.StreamDb.Flush.Durable.{IsBacked, IsApart, quiet}
use de_mo_d.StreamDb.Contract.{IsKey, IsValid, view, view_lem, value_of}
use de_mo_d.StreamDb.Open.{shutdown, init_with_config, auto_flush_round}
use de_mo_d.StreamDb.Open.Reopen.{saved, fine_host, init_with_config-saved}
use de_mo_d.StreamDb.Open.Durable.{IsOpen, IsOpen-IsBacked}
use de_mo_d.StreamDb.Depth.{either}
use de_mo_d.StreamDb.Contract.Insert.{insert_succeeds}
use de_mo_d.StreamDb.Contract.Delete.{delete_status}
use de_mo_d.StreamDb.Flush.Durable.{internal_flush_cases}
use de_mo_d.StreamDb.Open.Kept.{
  insert_fields, delete_fields, same_db, delete-IsOpen, view-delete_missing, same_view, Saved-same,
  State, IsDurable, insert-IsOpen,
}

-- A critical section of a caller or of the thread in which every allocation succeeds; `turning` is the
-- system, which refuses to open or to rename files, or stops refusing.
pub data Step : State → State → Type 0 where
  inserting :
      (db : Db) (disk : Disk) (key value : List ℕ)
      → IsKey key
      → 0 < length value
      → length value < 2 ^ 64
      → Step
          (record { db = db; disk = disk })
          (record { db = (insert db (some key) (some value) []).1; disk = disk })
  deleting :
      (db : Db) (disk : Disk) (key : List ℕ)
      → IsKey key
      → Step
          (record { db = db; disk = disk })
          (record { db = (delete db (some key) []).1; disk = disk })
  flushing :
      (db : Db) (base : Disk) (content : Option (List ℕ)) (a b : Bool) (n : ℕ)
      (r : Bool × Db × Disk × Mem)
      → auto_flush_round (rounds db.root + n) db (quiet base content a b) [] ≡ some r
      → Step (record { db = db; disk = quiet base content a b }) (record { db = r.1; disk = r.2 })
  stopping :
      (db : Db) (disk : Disk)
      → Step (record { db = db; disk = disk }) (record { db = shutdown db; disk = disk })
  turning :
      (db : Db) (disk : Disk) (a b : Bool)
      → Step
          (record { db = db; disk = disk })
          (record { db = db; disk = record disk { opens = a; renames = b } })

pub data Reach (s : State) : State → Type 0 where
  here : Reach s s
  next : {t u : State} → Reach s t → Step t u → Reach s u

-- Where a round of the thread leaves the state.
abbrev pub after_round : Bool → Bool → Bool → Db → Disk → Option (List ℕ) → Bool → Bool → Db × Disk
after_round stop dirty fine db base content a b =
    if stop
    then (db, quiet base content a b)
    else if dirty
    then (if fine
        then (record db { dirty = false }, quiet base (some (saved db.root)) a b)
        else (db, quiet base content a b))
    else (db, quiet base content a b)

-- A round of the thread, given what the flush returns.
abbrev concluded :
    Bool → Bool → Db → Disk → Option (Status × Disk × Mem) → Option (Bool × Db × Disk × Mem)
concluded stop dirty db disk flushed =
    if stop
    then some (false, db, disk, [])
    else if dirty
    then Option.map
        (λ (r : Status × Disk × Mem).
          (true, if is_ok r.0 then record db { dirty = false } else db, r.1, r.2))
        flushed
    else some (true, db, disk, [])

concluded_lem :
    (stop dirty fine : Bool) (db : Db) (base : Disk) (content : Option (List ℕ)) (a b : Bool)
    → (more : Bool) × (concluded stop dirty db (quiet base content a b) (
          some (
            if fine then ok else io_error,
            quiet base (if fine then some (saved db.root) else content) a b,
            [],
          ))
        ≡ (let (db', disk') = after_round stop dirty fine db base content a b in
            some (more, db', disk', [])))
unfolding is_ok
concluded_lem true dirty fine db base content a b = (false, refl)
concluded_lem false false fine db base content a b = (true, refl)
concluded_lem false true true db base content a b = (true, refl)
concluded_lem false true false db base content a b = (true, refl)

pub auto_flush_round_lem :
    (db : Db) (base : Disk) (content : Option (List ℕ)) (a b : Bool) (n : ℕ)
    → IsBacked db
    → is_target db.file_path base.pid ≡ false
    → (more : Bool) × (auto_flush_round (rounds db.root + n) db (quiet base content a b) [] ≡ (
        let (db', disk') =
          after_round db.shutdown_requested db.dirty (a && b) db base content a b in
        some (more, db', disk', [])))
unfolding auto_flush_round
auto_flush_round_lem db base content a b n h apart =
    let (more, e) = concluded_lem db.shutdown_requested db.dirty (a && b) db base content a b in
    (
      more,
      ap (concluded db.shutdown_requested db.dirty db (quiet base content a b))
            (internal_flush_cases base db content n a b h apart)
          ∙ e,
    )

round-IsDurable :
    (stop dirty fine : Bool) (db : Db) (base : Disk) (content : Option (List ℕ)) (a b : Bool)
    → IsDurable (record { db = db; disk = quiet base content a b })
    → let (db', disk') = after_round stop dirty fine db base content a b in
      IsDurable (record { db = db'; disk = disk' })
round-IsDurable stop dirty fine db base content a b i =
    let P = λ (x : Db × Disk). IsDurable (record { db = x.0; disk = x.1 }) in
    either P stop i (either P dirty (either P fine flushed i) i)
  where
    o : IsOpen db
    o = i.open_db

    flushed :
        IsDurable (record {
          db = record db { dirty = false };
          disk = quiet base (some (saved db.root)) a b;
        })
    flushed = record {
      open_db = same_db o refl refl refl refl;
      apart = i.apart;
      clean = λ e. record {
        trie = db.root;
        held = refl;
        rooted = o.valid.rooted;
        levels = (IsOpen-IsBacked o).levels;
        storable = o.storable;
        same = λ key k. sym (view_lem (record db { dirty = false }) k);
      };
    }

dirty_after : (d : Bool) {r : Status} → r ≡ ok → (d || is_ok r) ≡ false → ⊥
unfolding is_ok
dirty_after true h e = cc e
dirty_after false h e = ground arith

deleted_dirty : (d : Bool) {r : Status} → r ≡ ok → (if is_ok r then true else d) ≡ false → ⊥
unfolding is_ok
deleted_dirty d h e = ground arith

missed_dirty :
    (d : Bool) {r : Status} → r ≡ not_found → (if is_ok r then true else d) ≡ false → d ≡ false
unfolding is_ok
missed_dirty d h e = ground arith

some-injective : {x y : Bool × Db × Disk × Mem} → some x ≡ some y → x ≡ y
some-injective h = cc h

-- Each critical section keeps a clean database saved.
pub Step-IsDurable : {s t : State} → Step s t → IsDurable s → IsDurable t
unfolding shutdown
Step-IsDurable (inserting db disk key value k pos fits) i =
    let (backend, path, dirty) = insert_fields db value k pos in
    record {
      open_db = insert-IsOpen db value i.open_db k pos fits;
      apart = subst IsApart (sym path) i.apart;
      clean = λ e. absurd (
          dirty_after db.dirty (insert_succeeds db value i.open_db.valid.rooted k pos)
            (sym dirty ∙ e));
    }
Step-IsDurable (deleting db disk key k) i = record {
  open_db = delete-IsOpen db i.open_db k;
  apart = subst IsApart (sym (delete_fields db k).1) i.apart;
  clean = λ e. elim (delete_status db [] i.open_db.valid k) [
    | inl (gone, held) ↦ absurd (deleted_dirty db.dirty gone (sym (delete_fields db k).2 ∙ e))
    | inr (kept, missing) ↦
        Saved-same (i.clean (missed_dirty db.dirty kept (sym (delete_fields db k).2 ∙ e)))
          (λ j kj. view-delete_missing db i.open_db.valid.rooted k kj missing)
  ];
}
Step-IsDurable (flushing db base content a b n r ran) i =
    let (more, e) =
      auto_flush_round_lem db base content a b n (IsOpen-IsBacked i.open_db)
        (is_target-apart db.file_path base.pid i.apart) in
    subst (λ (x : Bool × Db × Disk × Mem). IsDurable (record { db = x.1; disk = x.2 }))
      (some-injective (sym e ∙ ran))
      (round-IsDurable db.shutdown_requested db.dirty (a && b) db base content a b i)
Step-IsDurable (stopping db disk) i = record {
  open_db = same_db i.open_db refl refl refl refl;
  apart = i.apart;
  clean = λ e. Saved-same (i.clean e) (λ key k. same_view db (shutdown db) k refl);
}
Step-IsDurable (turning db disk a b) i = record {
  open_db = i.open_db;
  apart = i.apart;
  clean = λ e.
      let s = i.clean e in
      record {
        trie = s.trie;
        held = s.held;
        rooted = s.rooted;
        levels = s.levels;
        storable = s.storable;
        same = s.same;
      };
}

Reach-IsDurable : {s t : State} → IsDurable s → Reach s t → IsDurable t
Reach-IsDurable h here = h
Reach-IsDurable h (next r st) = Step-IsDurable st (Reach-IsDurable h r)

-- Start on a POSIX system with a valid database with a file, that has unsaved changes or is saved,
-- with a path that is not 1099 bytes long and a trie of at most 1025 levels, in which each node with
-- `is_end` (of 32 bits) has a value of its size, of 1 byte to 2 ^ 64 - 1, each other node has none and a
-- size below 2 ^ 64, and only the indices 0 to 255 have children. Take any interleaving of insertions
-- of such values at keys of a legal length, deletions at such keys, rounds of the thread (in the rounds
-- of the root or more) and shutdown requests, in which all allocations and writes succeed and the
-- system may only refuse to open or to rename files. (A failed overwrite would lose a value and leave
-- the database clean.) If the database is then clean, opening its file, where all calls and allocations
-- succeed, gives a valid database with the same map.
pub Reach-saved :
    {s t : State} (path : List ℕ) (config : Option ℕ)
    → IsDurable s
    → Reach s t
    → t.db.dirty ≡ false
    → (content : List ℕ) × (t.disk.file ≡ some content)
      × (db' : Db) × (init_with_config (some path) config (fine_host content) []
          ≡ some (some db', []))
      × IsValid db'
      × ((key : List ℕ) → IsKey key → view db' key ≡ view t.db key)
Reach-saved {s} {t} path config h reach clean =
    let kept = (Reach-IsDurable h reach).clean clean in
    let (db', opened, same_root, tidy, valid) =
      init_with_config-saved kept.trie path config kept.rooted kept.storable kept.levels in
    (
      saved kept.trie,
      kept.held,
      db',
      opened,
      valid,
      λ key k.
          view_lem db' k ∙ ap (λ t. value_of (lookup (path_of key) t)) same_root ∙ kept.same key k,
    )
