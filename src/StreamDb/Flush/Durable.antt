-- ===== src/StreamDb/Flush/Durable.antt =====
-- What `streamdb_flush` (src/db/streamdb.c) leaves on disk.
use mathlib.Core.Option
use de_mo_d.Prelude.{
  ℕ, ◌+◌, if◌then◌else◌, Bool, true, false, not, ◌&&◌, ◌≡◌, ◌≢◌, ◌∙◌, ap, refl, List, [], ◌∷◌, ◌++◌,
}
use de_mo_d.Prelude.{Option, none, some, length}
use de_mo_d.StreamDb.Types.{Status, ok, io_error, not_supported, Db, Mem}
use de_mo_d.StreamDb.Insert.{is_ok}
use de_mo_d.StreamDb.Find.{not_null}
use de_mo_d.StreamDb.Serialize.{le_bytes, fwrite, serialize_trie}
use de_mo_d.StreamDb.Serialize.Encoding.{encode, rounds, Fits, done, serialize_trie_lem}
use de_mo_d.StreamDb.Flush.{
  Disk, magic, version, closed_file, is_target, internal_flush, finish_flush, flush,
}

-- A file-backed database with a path and a root.
pub record IsBacked (db : Db) : Type 0 where
  pub backend : db.is_file_backend ≡ true
  pub path : (p : List ℕ) × (db.file_path ≡ some p)
  pub rooted : not_null db.root ≡ true
  pub levels : Fits 4096 db.root

-- A POSIX system, which is like `disk` in all that is not listed.
abbrev pub posix : Disk → Option (List ℕ) → Bool → List Bool → Option ℕ → Bool → Disk
posix disk content opened written cut renamed = record disk {
  file = content;
  windows = false;
  opens = opened;
  writes = written;
  close_cut = cut;
  renames = renamed;
}

-- A POSIX system with the content at the path, that loses no bytes, and may refuse to open or to
-- rename files.
abbrev pub quiet : Disk → Option (List ℕ) → Bool → Bool → Disk
quiet disk content a b = posix disk content a [] none b

-- One on which everything succeeds.
abbrev pub fine_disk : Disk → Option (List ℕ) → Disk
fine_disk disk content = quiet disk content true true

-- The end of a flush whose rename succeeds, over the temporary file or another.
finish_flush-renamed :
    (same : Bool) (disk : Disk) (before : Option (List ℕ)) (ws : List Bool) (cut : Option ℕ)
    (w : List ℕ) (db : Db) (n : ℕ)
    → IsBacked db
    → Option.map
        (finish_flush same (posix disk before true ws cut true))
        (serialize_trie (rounds db.root + n) db.root (done w) [])
      ≡ some (ok, posix disk (some (closed_file cut (w ++ encode db.root))) true [] cut true, [])
unfolding finish_flush
finish_flush-renamed true disk before ws cut w db n h =
    rw (serialize_trie_lem db.root n w h.rooted h.levels) refl
finish_flush-renamed false disk before ws cut w db n h =
    rw (serialize_trie_lem db.root n w h.rooted h.levels) refl

pub internal_flush_lem :
    (disk : Disk) (db : Db) (before : Option (List ℕ)) (n : ℕ)
    → IsBacked db
    → internal_flush (rounds db.root + n) db (fine_disk disk before) []
      ≡ some (ok, fine_disk disk (some (magic ++ le_bytes 4 version ++ encode db.root)), [])
unfolding internal_flush fwrite closed_file
internal_flush_lem disk db before n h =
    rw h.path.1 (
      rw h.backend
        (finish_flush-renamed _ disk before [] none (magic ++ le_bytes 4 version) db n h))

-- The temporary file is not the file at the path.
abbrev pub IsApart : Option (List ℕ) → Type 0
IsApart x = (path : List ℕ) → x ≡ some path → length path ≢ 1099

-- The same where the temporary file may not open, or may not be renamed.
pub internal_flush_cases :
    (disk : Disk) (db : Db) (before : Option (List ℕ)) (n : ℕ) (a b : Bool)
    → IsBacked db
    → is_target db.file_path disk.pid ≡ false
    → internal_flush (rounds db.root + n) db (quiet disk before a b) []
      ≡ some (
        if a && b then ok else io_error,
        quiet disk
            (if a && b then some (magic ++ le_bytes 4 version ++ encode db.root) else before)
            a
            b,
        [],
      )
unfolding internal_flush finish_flush fwrite
internal_flush_cases disk db before n true true h apart = internal_flush_lem disk db before n h
internal_flush_cases disk db before n true false h apart = rw apart (
    rw h.path.1 (
      rw h.backend
        (rw (serialize_trie_lem db.root n (magic ++ le_bytes 4 version) h.rooted h.levels) refl)))
internal_flush_cases disk db before n false b h apart = rw h.path.1 (rw h.backend refl)

-- `streamdb_flush`, given what `internal_flush` returns.
abbrev reported : Db → Disk → Mem → Option (Status × Disk × Mem) → Option (Status × Db × Disk × Mem)
reported db disk m x =
    if not db.is_file_backend
    then some (not_supported, db, disk, m)
    else Option.map (λ r. (r.0, if is_ok r.0 then record db { dirty = false } else db, r.1, r.2)) x

-- For a file-backed database with a path and a root of at most 4096 levels: with memory, on a POSIX
-- system, with a temporary file that opens, takes the trie and is closed without a loss, a rename
-- that succeeds, and the rounds of the root or more, a flush returns ok, clears the dirty flag and
-- puts the magic number, the version and the encoding of the trie into the file.
pub flush_lem :
    (disk : Disk) (db : Db) (before : Option (List ℕ)) (n : ℕ)
    → IsBacked db
    → flush (rounds db.root + n) db (posix disk before true [] none true) []
      ≡ some (
        ok,
        record db { dirty = false },
        posix disk (some (magic ++ le_bytes 4 version ++ encode db.root)) true [] none true,
        [],
      )
unfolding flush is_ok
flush_lem disk db before n h =
    ap (reported db (posix disk before true [] none true) [])
      (internal_flush_lem disk db before n h)
    ∙ rw h.backend refl

-- What reaches the temporary file of the magic number and the version, if the calls that write them
-- return `a` and `b`.
abbrev pub header : Bool → Bool → List ℕ
header a b = (if a then magic else []) ++ (if b then le_bytes 4 version else [])

internal_flush_unchecked :
    (disk : Disk) (db : Db) (before : Option (List ℕ)) (n : ℕ) (a b : Bool) (cut : Option ℕ)
    → IsBacked db
    → internal_flush (rounds db.root + n) db (posix disk before true (a ∷ b ∷ []) cut true) []
      ≡ some (
        ok,
        posix disk (some (closed_file cut (header a b ++ encode db.root))) true [] cut true,
        [],
      )
unfolding internal_flush fwrite
internal_flush_unchecked disk db before n true true cut h =
    rw h.path.1 (rw h.backend (finish_flush-renamed _ disk before [] cut (header true true) db n h))
internal_flush_unchecked disk db before n true false cut h =
    rw h.path.1
      (rw h.backend (finish_flush-renamed _ disk before [] cut (header true false) db n h))
internal_flush_unchecked disk db before n false true cut h =
    rw h.path.1
      (rw h.backend (finish_flush-renamed _ disk before [] cut (header false true) db n h))
internal_flush_unchecked disk db before n false false cut h =
    rw h.path.1
      (rw h.backend (finish_flush-renamed _ disk before [] cut (header false false) db n h))

-- For a file-backed database with a path and a root of at most 4096 levels: on a POSIX system, with
-- memory, a temporary file that opens and takes the trie, a rename that succeeds, and the rounds of
-- the root or more, a flush looks neither at the results of the first two writes nor at that of
-- `fclose`. Whether they fail or not, it returns ok, clears the dirty flag and replaces the file, and
-- the file lacks what the two did not write, and the end that `fclose` lost.
pub flush_unchecked_header :
    (disk : Disk) (db : Db) (before : Option (List ℕ)) (n : ℕ) (a b : Bool) (cut : Option ℕ)
    → IsBacked db
    → flush (rounds db.root + n) db (posix disk before true (a ∷ b ∷ []) cut true) []
      ≡ some (
        ok,
        record db { dirty = false },
        posix disk (some (closed_file cut (header a b ++ encode db.root))) true [] cut true,
        [],
      )
unfolding flush is_ok
flush_unchecked_header disk db before n a b cut h =
    ap (reported db (posix disk before true (a ∷ b ∷ []) cut true) [])
      (internal_flush_unchecked disk db before n a b cut h)
    ∙ rw h.backend refl
