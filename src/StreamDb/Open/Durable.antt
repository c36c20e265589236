-- ===== src/StreamDb/Open/Durable.antt =====
-- The file and the database of src/db/streamdb.c: closing and opening, and the steps of the callers
-- and of the thread that flushes.
use mathlib.Core.Option
use de_mo_d.Prelude.{
  ℕ, ◌+◌, arith, if◌then◌else◌, Bool, true, ◌&&◌, ◌≡◌, sym, ap, ◌∙◌, Option, some, List, [],
}
use de_mo_d.StreamDb.Types.{Status, Mem, Db}
use de_mo_d.StreamDb.Find.{lookup}
use de_mo_d.StreamDb.Keys.{path_of}
use de_mo_d.StreamDb.Depth.{IsShallow, Fits-add}
use de_mo_d.StreamDb.Serialize.Encoding.{rounds}
use de_mo_d.StreamDb.Deserialize.Loading.{Storable}
use de_mo_d.StreamDb.Flush.{Disk, internal_flush}
use de_mo_d.StreamDb.Flush.Durable.{IsBacked, fine_disk, internal_flush_lem}
use de_mo_d.StreamDb.Contract.{IsKey, IsValid, view, view_lem, value_of}
use de_mo_d.StreamDb.Open.{init_with_config, free}
use de_mo_d.StreamDb.Open.Reopen.{saved, fine_host, init_with_config-saved}

-- A valid database with a file, in the form that a file can hold.
pub record IsOpen (db : Db) : Type 0 where
  pub valid : IsValid db
  pub backend : db.is_file_backend ≡ true
  pub path : (p : List ℕ) × (db.file_path ≡ some p)
  pub shallow : IsShallow db
  pub storable : Storable db.root

pub IsOpen-IsBacked : {db : Db} → IsOpen db → IsBacked db
IsOpen-IsBacked {db} o = record {
  backend = o.backend;
  path = o.path;
  rooted = o.valid.rooted;
  levels = Fits-add 1025 3071 db.root o.shallow;
}

-- Take a valid database with a file and a path, unsaved changes and a trie of at most 1025 levels,
-- in which each node with `is_end` (of 32 bits) has a value of its size, of 1 byte to 2 ^ 64 - 1, each
-- other node has none and a size below 2 ^ 64, and only the indices 0 to 255 have children. Closing it
-- in the rounds of the root or more and opening its file again, on a POSIX system on which all calls
-- and allocations succeed, gives a valid database with the same map. (A failed overwrite leaves a node
-- with `is_end` and no value.)
pub init_with_config-free :
    (disk : Disk) (db : Db) (before : Option (List ℕ)) (path : List ℕ) (config : Option ℕ) (n : ℕ)
    → IsOpen db
    → db.dirty ≡ true
    → (content : List ℕ) × (free (rounds db.root + n) db (fine_disk disk before) []
        ≡ some (fine_disk disk (some content), []))
      × (db' : Db) × (init_with_config (some path) config (fine_host content) []
          ≡ some (some db', []))
      × IsValid db'
      × ((key : List ℕ) → IsKey key → view db' key ≡ view db key)
unfolding free
init_with_config-free disk db before path config n o dirty =
    let (db', opened, same_root, clean, valid) =
      init_with_config-saved db.root path config o.valid.rooted o.storable
        (Fits-add 1025 3071 db.root o.shallow) in
    (
      saved db.root,
      ap
            (λ (b : Bool).
              if b
              then Option.map (λ (r : Status × Disk × Mem). (r.1, r.2))
                  (internal_flush (rounds db.root + n) db (fine_disk disk before) [])
              else some (fine_disk disk before, []))
            {x = db.is_file_backend && db.dirty} {y = true} (ground (arith, o.backend))
          ∙ ap (Option.map (λ (r : Status × Disk × Mem). (r.1, r.2)))
              (internal_flush_lem disk db before n (IsOpen-IsBacked o)),
      db',
      opened,
      valid,
      λ key k.
          view_lem db' k
          ∙ ap (λ t. value_of (lookup (path_of key) t)) same_root
          ∙ sym (view_lem db k),
    )
