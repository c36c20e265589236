-- ===== src/StreamDb/Contract/Read.antt =====
-- `streamdb_exists` and `streamdb_get` (src/db/streamdb.c) on a valid database, and the arguments
-- that all operations refuse.
use mathlib.Core.Path.{subst₂}
use de_mo_d.Prelude.{ℕ, arith, length, take}
use de_mo_d.Prelude.{◌≡◌, refl, sym, Bool, true, false}
use de_mo_d.Prelude.{◌⊎◌, inl, inr, take-length, Option, none, some, List, [], ◌∷◌}
use de_mo_d.StreamDb.Types.{invalid_arg, Trie, null, node, Mem, Db}
use de_mo_d.StreamDb.Keys.{path_of, path_of-Bytes}
use de_mo_d.StreamDb.Find.{
  lookup, find_node, stored, internal_find, copy_value, get, exists, bad_len, not_null,
}
use de_mo_d.StreamDb.Insert.{insert}
use de_mo_d.StreamDb.Delete.{delete}
use de_mo_d.StreamDb.Contract.{IsKey, IsValid, SoundEntry, view, view_lem, value_of, good_len}

abbrev pub is_some {ℓ} : {A : Type ℓ} → Option A → Bool
is_some none = false
is_some (some a) = true

pub not_null-stored : (t : Trie) → not_null t ≡ is_some (stored t)
unfolding not_null stored
not_null-stored null = refl
not_null-stored (node ch v s e) = refl

sound_value : (x : Option (Option (List ℕ) × ℕ)) → SoundEntry x → is_some x ≡ is_some (value_of x)
sound_value none h = refl
sound_value (some (none, s)) h = absurd h
sound_value (some (some v, s)) h = refl

-- In a valid database a key exists exactly when it has a value.
pub exists-eq-view :
    (db : Db) {key : List ℕ} → IsValid db → IsKey key → exists db (some key) ≡ is_some (view db key)
unfolding exists lookup
exists-eq-view db {key} v k = ground (
  arith,
  good_len k,
  not_null-stored (find_node (path_of key) db.root),
  view_lem db k,
  sound_value (lookup (path_of key) db.root) (v.sound (path_of key) (path_of-Bytes key k.bytes)),
)

-- The outcomes of `get`, beside the value that a lookup shows.
abbrev pub Fetched : Option (List ℕ) → Option (List ℕ) × ℕ × Mem → Type 0
Fetched w r =
    ((r.0 ≡ none) × (r.1 ≡ 0)) ⊎ ((v : List ℕ) × (r.0 ≡ some v) × (r.1 ≡ length v) × (w ≡ some v))

copy_value-Fetched :
    (t : Trie) (m : Mem) → SoundEntry (stored t) → Fetched (value_of (stored t)) (copy_value t m)
unfolding copy_value stored
copy_value-Fetched null m h = inl (refl, refl)
copy_value-Fetched (node ch none s e) m h = absurd h
copy_value-Fetched (node ch (some v) s e) [] h = inr (v, whole, h.0, whole)
  where
    whole : some (take s v) ≡ some v
    whole = ground (arith, take-length v)
copy_value-Fetched (node ch (some v) s e) (true ∷ m) h = inr (v, whole, h.0, whole)
  where
    whole : some (take s v) ≡ some v
    whole = ground (arith, take-length v)
copy_value-Fetched (node ch (some v) s e) (false ∷ m) h = inl (refl, refl)

get_lem :
    (db : Db) {key : List ℕ} (m : Mem)
    → IsKey key
    → get db (some key) m ≡ copy_value (find_node (path_of key) db.root) m
unfolding get internal_find
get_lem db m k = ground (arith, good_len k)

-- `streamdb_get` returns no buffer and size 0, or the whole value of the map with its length.
pub get-Fetched :
    (db : Db) {key : List ℕ} (m : Mem)
    → IsValid db
    → IsKey key
    → Fetched (view db key) (get db (some key) m)
unfolding lookup
get-Fetched db {key} m v k = subst₂ Fetched (sym (view_lem db k)) (sym (get_lem db m k)) (
    copy_value-Fetched (find_node (path_of key) db.root) m
      (v.sound (path_of key) (path_of-Bytes key k.bytes)))

-- A key of length 0 or above the limit changes nothing and finds nothing.
pub refused :
    (db : Db) (key : List ℕ) (value : Option (List ℕ)) (m : Mem)
    → bad_len key ≡ true
    → (insert db (some key) value m ≡ (invalid_arg, db, m))
      × (delete db (some key) m ≡ (invalid_arg, db, m))
      × (exists db (some key) ≡ false)
      × (view db key ≡ none)
unfolding insert delete exists get internal_find copy_value not_null
refused db key none m h = ground arith
refused db key (some value) m h = ground arith
