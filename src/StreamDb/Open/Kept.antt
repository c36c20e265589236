-- ===== src/StreamDb/Open/Kept.antt =====
-- What the operations of src/db/streamdb.c keep of an open database and of its file.
use de_mo_d.Prelude.{
  ℕ, ◌^◌, ◌<◌, arith, length, if◌then◌else◌, true, false, ◌||◌, ◌≡◌, sym, ap, ◌∙◌, none, some, List,
  [],
}
use mathlib.Core.Path.{subst, subst₂}
use de_mo_d.StreamDb.Types.{Trie, Db}
use de_mo_d.StreamDb.Find.{not_null, lookup}
use de_mo_d.StreamDb.Keys.{path_of}
use de_mo_d.StreamDb.Insert.{insert, is_ok}
use de_mo_d.StreamDb.Depth.{insert-IsShallow, delete-IsShallow}
use de_mo_d.StreamDb.Delete.{delete}
use de_mo_d.StreamDb.Serialize.Encoding.{Fits}
use de_mo_d.StreamDb.Deserialize.Loading.{Storable}
use de_mo_d.StreamDb.Flush.{Disk}
use de_mo_d.StreamDb.Flush.Durable.{IsApart}
use de_mo_d.StreamDb.Contract.{IsKey, SoundEntry, view, view_lem, value_of}
use de_mo_d.StreamDb.Measure.{Counted}
use de_mo_d.StreamDb.Open.Reopen.{saved}
use de_mo_d.StreamDb.Open.Durable.{IsOpen}
use de_mo_d.StreamDb.Stored.{insert-Storable, delete-Storable}
use de_mo_d.StreamDb.Contract.{key_discrete}
use de_mo_d.StreamDb.Contract.Insert.{insert-IsValid, insert_succeeds}
use de_mo_d.StreamDb.Contract.Delete.{delete-IsValid, view-delete_self, view-delete_ne}

-- The database and the disk.
pub record State : Type 0 where
  pub db : Db
  pub disk : Disk

-- The file holds a trie with the map of the database.
pub record Saved (db : Db) (disk : Disk) : Type 0 where
  pub trie : Trie
  pub held : disk.file ≡ some (saved trie)
  pub rooted : not_null trie ≡ true
  pub levels : Fits 4096 trie
  pub storable : Storable trie
  pub same : (key : List ℕ) → IsKey key → value_of (lookup (path_of key) trie) ≡ view db key

-- A clean database is saved, and its temporary file is another file.
pub record IsDurable (s : State) : Type 0 where
  pub open_db : IsOpen s.db
  pub apart : IsApart s.db.file_path
  pub clean : s.db.dirty ≡ false → Saved s.db s.disk

pub insert_fields :
    (db : Db) {key : List ℕ} (value : List ℕ)
    → IsKey key
    → 0 < length value
    → ((insert db (some key) (some value) []).1.is_file_backend ≡ db.is_file_backend)
      × ((insert db (some key) (some value) []).1.file_path ≡ db.file_path)
      × ((insert db (some key) (some value) []).1.dirty
          ≡ db.dirty || is_ok (insert db (some key) (some value) []).0)
unfolding insert
insert_fields db value k h = ground arith

pub delete_fields :
    (db : Db) {key : List ℕ}
    → IsKey key
    → ((delete db (some key) []).1.is_file_backend ≡ db.is_file_backend)
      × ((delete db (some key) []).1.file_path ≡ db.file_path)
      × ((delete db (some key) []).1.dirty
          ≡ (if is_ok (delete db (some key) []).0 then true else db.dirty))
unfolding delete is_ok
delete_fields db k = ground arith

-- A change that leaves the map, the trie and the path alone.
pub same_db :
    {db db' : Db}
    → IsOpen db
    → db'.root ≡ db.root
    → db'.counts ≡ db.counts
    → db'.is_file_backend ≡ db.is_file_backend
    → db'.file_path ≡ db.file_path
    → IsOpen db'
same_db {db} {db'} o root counts backend path = record {
  valid = record {
    rooted = ap not_null root ∙ o.valid.rooted;
    counted = subst₂ Counted (sym counts) (sym root) o.valid.counted;
    sound = λ p h. subst (λ t. SoundEntry (lookup p t)) (sym root) (o.valid.sound p h);
  };
  backend = backend ∙ o.backend;
  path = (o.path.0, path ∙ o.path.1);
  shallow = subst (Fits 1025) (sym root) o.shallow;
  storable = subst Storable (sym root) o.storable;
}

pub insert-IsOpen :
    (db : Db) {key : List ℕ} (value : List ℕ)
    → IsOpen db
    → IsKey key
    → 0 < length value
    → length value < 2 ^ 64
    → IsOpen (insert db (some key) (some value) []).1
insert-IsOpen db {key} value o k pos fits =
    let (backend, path, dirty) = insert_fields db value k pos in
    record {
      valid =
          insert-IsValid db value [] o.valid k pos (insert_succeeds db value o.valid.rooted k pos);
      backend = backend ∙ o.backend;
      path = (o.path.0, path ∙ o.path.1);
      shallow = insert-IsShallow db (some key) (some value) [] o.shallow;
      storable = insert-Storable db value k pos fits o.storable;
    }

pub delete-IsOpen :
    (db : Db) {key : List ℕ} → IsOpen db → IsKey key → IsOpen (delete db (some key) []).1
delete-IsOpen db {key} o k =
    let (backend, path, dirty) = delete_fields db k in
    record {
      valid = delete-IsValid db [] o.valid k;
      backend = backend ∙ o.backend;
      path = (o.path.0, path ∙ o.path.1);
      shallow = delete-IsShallow db (some key) [] o.shallow;
      storable = delete-Storable db [] o.valid.rooted k o.storable;
    }

-- A deletion of a key that is not there leaves the map alone.
pub view-delete_missing :
    (db : Db) {key j : List ℕ}
    → not_null db.root ≡ true
    → IsKey key
    → IsKey j
    → view db key ≡ none
    → view (delete db (some key) []).1 j ≡ view db j
view-delete_missing db {key} {j} r k kj missing = elim (key_discrete j key) [
  | yes p ↦
      subst (λ i. view (delete db (some key) []).1 i ≡ view db i) (sym p)
        (view-delete_self db [] r k ∙ sym missing)
  | no p ↦ view-delete_ne db [] r k kj p
]

pub same_view :
    (db db' : Db) {key : List ℕ} → IsKey key → db'.root ≡ db.root → view db' key ≡ view db key
same_view db db' {key} k root =
    view_lem db' k ∙ ap (λ t. value_of (lookup (path_of key) t)) root ∙ sym (view_lem db k)

pub Saved-same :
    {db db' : Db} {disk : Disk}
    → Saved db disk
    → ((key : List ℕ) → IsKey key → view db' key ≡ view db key)
    → Saved db' disk
Saved-same s h = record {
  trie = s.trie;
  held = s.held;
  rooted = s.rooted;
  levels = s.levels;
  storable = s.storable;
  same = λ key k. s.same key k ∙ sym (h key k);
}
