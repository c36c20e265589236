-- ===== src/StreamDb/Flush.antt =====
-- `internal_flush` and `streamdb_flush` of src/db/streamdb.c.
pub mod Durable
pub mod Refused
mod Tests
use mathlib.Core.Option
use de_mo_d.Prelude.{
  ℕ, ◌==◌, if◌then◌else◌, take, ◌++◌, Bool, true, false, not, ◌&&◌, ◌||◌, Option, none, some, List,
  [], ◌∷◌,
}
use de_mo_d.StreamDb.Types.{Status, ok, io_error, not_supported, Mem, Db}
use de_mo_d.StreamDb.Insert.{is_ok}
use de_mo_d.StreamDb.Serialize.{le_bytes, Out, fwrite, serialize_trie}

-- The system: the content at `file_path`, the digits of `get_pid`, whether STREAMDB_WINDOWS is defined,
-- and what the coming calls of `fopen`, `fwrite`, `fclose`, `DeleteFileA`, `rename` and `remove` do. A
-- Boolean is true for success, and a call that fails has no effect, but that an `fclose` that fails
-- (`some k`) has brought only the first `k` bytes of what was written into the file.
pub record Disk : Type 0 where
  pub file : Option (List ℕ)
  pub pid : List ℕ
  pub windows : Bool
  pub opens : Bool
  pub writes : List Bool
  pub close_cut : Option ℕ
  pub deletes : Bool
  pub renames : Bool
  pub removes : Bool

-- "STDB"
abbrev pub magic : List ℕ
magic = 83 ∷ 84 ∷ 68 ∷ 66 ∷ []

abbrev pub version : ℕ
version = 2

-- `snprintf(temp_path, sizeof(temp_path), "%s.%d.tmp", db->file_path, get_pid())`, which keeps 1099
-- bytes.
abbrev pub temp_path : List ℕ → List ℕ → List ℕ
temp_path path pid = take 1099 (path ++ ((46 ∷ pid) ++ (46 ∷ 116 ∷ 109 ∷ 112 ∷ [])))

-- Two paths with the same bytes name the same file; all others are taken to name different files.
unfoldable pub same_path : List ℕ → List ℕ → Bool
same_path [] [] = true
same_path (x ∷ xs) (y ∷ ys) = x == y && same_path xs ys
same_path xs ys = false

-- Whether the temporary file is the file at `file_path` itself.
unfoldable pub is_target : Option (List ℕ) → List ℕ → Bool
unfolding same_path
is_target none pid = false
is_target (some path) pid = same_path (temp_path path pid) path

-- What is in the temporary file once it is closed.
unfoldable pub closed_file : Option ℕ → List ℕ → List ℕ
closed_file none written = written
closed_file (some k) written = take k written

-- What is at `file_path` after `remove(temp_path)`: `target` if the two are one file, else `other`.
abbrev after_remove : Bool → Disk → Option (List ℕ) → Option (List ℕ) → Option (List ℕ)
after_remove same disk target other =
    if same then (if disk.removes then none else target) else other

-- The end of `internal_flush`: the deletion, the rename, or the removal of the temporary file. A
-- rename needs the temporary file, which the deletion took if it is the file at `file_path`.
unfoldable pub finish_flush : Bool → Disk → Bool × Out × Mem → Status × Disk × Mem
unfolding closed_file
finish_flush same disk (success, o, m) =
    let temp = closed_file disk.close_cut o.written in
    let deleted = disk.windows && disk.deletes in
    let target : Option (List ℕ) = if deleted then none else some temp in
    let other : Option (List ℕ) = if deleted then none else disk.file in
    let failed : Option (List ℕ) → Status × Disk × Mem =
      λ file. (io_error, record disk { file = file; writes = o.outcomes }, m) in
    if success
    then (if disk.renames && not (same && deleted)
        then (ok, record disk { file = some temp; writes = o.outcomes }, m)
        else failed (after_remove same disk target other))
    else failed (after_remove same disk (some temp) disk.file)

unfoldable pub no_path : Option (List ℕ) → Bool
no_path none = true
no_path (some path) = false

-- The serializer runs in at most `n` rounds.
unfoldable pub internal_flush : ℕ → Db → Disk → Mem → Option (Status × Disk × Mem)
unfolding fwrite serialize_trie finish_flush no_path is_target
internal_flush n db disk m =
    let same = is_target db.file_path disk.pid in
    let (fine, o) = fwrite magic (record { written = []; outcomes = disk.writes }) in
    let (fine2, o2) = fwrite (le_bytes 4 version) o in
    let flushed = Option.map (finish_flush same disk) (serialize_trie n db.root o2 m) in
    if not db.is_file_backend || no_path db.file_path
    then some (not_supported, disk, m)
    else if not disk.opens
    then some (io_error, disk, m)
    else flushed

unfoldable pub flush : ℕ → Db → Disk → Mem → Option (Status × Db × Disk × Mem)
unfolding internal_flush is_ok
flush n db disk m =
    let flushed =
      Option.map (λ r. (r.0, if is_ok r.0 then record db { dirty = false } else db, r.1, r.2))
        (internal_flush n db disk m) in
    if not db.is_file_backend then some (not_supported, db, disk, m) else flushed
