-- ===== src/StreamDb/Contract.antt =====
-- What the database of src/db/streamdb.c promises: a valid database is a finite map from byte
-- strings to byte strings, and its operations are those of a map.
pub mod Insert
pub mod Delete
pub mod Read
pub mod Failure
use mathlib.Core.Logic.{ite, if_pos, if_neg}
use de_mo_d.Prelude.{
  ℕ, ◌%◌, ◌^◌, ◌≤◌, ◌<◌, ◌==◌, ltb, arith, length, Bytes, if◌then◌else◌, take-length, take,
}
use de_mo_d.Prelude.{◌≡◌, ◌≢◌, refl, sym, ap, ◌∙◌, Bool, true, false, Bool-cases, inl, inr, ◌||◌}
use de_mo_d.Prelude.{Option, none, some, List, [], ◌∷◌}
use native.Mathlib.Decide.{ℕ_discrete}
use de_mo_d.StreamDb.Types.{Status, ok, not_found, invalid_arg, no_memory, Trie, Mem, Counts, Db}
use de_mo_d.StreamDb.Types.{max_key_len, malloc}
use de_mo_d.StreamDb.Keys.{path_of, path_of-injective, path_of-Bytes}
use de_mo_d.StreamDb.Find.{
  lookup, find_node, stored, internal_find, copy_value, get, exists, bad_len, not_null,
}
use de_mo_d.StreamDb.Measure.{Counted}
use de_mo_d.StreamDb.Insert.{insert, insert_at}
use de_mo_d.StreamDb.Insert.Lookup.{lookup-insert_at_self, lookup-insert_at_ne}
use de_mo_d.StreamDb.Insert.Balance.{insert_at-Balanced}

-- A key that the operations accept.
pub record IsKey (key : List ℕ) : Type 0 where
  pub nonempty : 0 < length key
  pub short : length key ≤ max_key_len
  pub bytes : Bytes key

-- An entry with its buffer, whose length is the recorded size and is not 0.
abbrev pub SoundEntry : Option (Option (List ℕ) × ℕ) → Type 0
SoundEntry none = Unit {0}
SoundEntry (some (none, s)) = ⊥
SoundEntry (some (some v, s)) = (s ≡ length v) × (0 < s)

pub record IsValid (db : Db) : Type 0 where
  pub rooted : not_null db.root ≡ true
  pub counted : Counted db.counts db.root
  pub sound : (p : List ℕ) → Bytes p → SoundEntry (lookup p db.root)

-- The map that a database holds: what `streamdb_get` returns when its allocation succeeds.
abbrev pub view : Db → List ℕ → Option (List ℕ)
view db key = (get db (some key) []).0

pub key_discrete : Discrete (List ℕ)
key_discrete = hlevel ℕ_discrete

-- A map changed at one key.
abbrev pub update : (List ℕ → Option (List ℕ)) → List ℕ → Option (List ℕ) → List ℕ → Option (List ℕ)
update f key w j = ite (key_discrete j key) w (f j)

-- What a lookup shows of its entry.
abbrev pub value_of : Option (Option (List ℕ) × ℕ) → Option (List ℕ)
value_of none = none
value_of (some (none, s)) = none
value_of (some (some v, s)) = some (take s v)

pub good_len : {key : List ℕ} → IsKey key → bad_len key ≡ false
good_len k = ground arith

copy_value_lem : (t : Trie) → (copy_value t []).0 ≡ value_of (stored t)
unfolding copy_value stored
copy_value_lem Trie.null = refl
copy_value_lem (Trie.node ch none s e) = refl
copy_value_lem (Trie.node ch (some v) s e) = refl

-- A view is a lookup of the key's path.
pub view_lem :
    (db : Db) {key : List ℕ} → IsKey key → view db key ≡ value_of (lookup (path_of key) db.root)
unfolding get internal_find lookup
view_lem db {key} k = ground (arith, good_len k, copy_value_lem (find_node (path_of key) db.root))
