-- ===== src/StreamDb/Contract/Failure.antt =====
-- `streamdb_insert` (src/db/streamdb.c) when `malloc` fails on a key that has a value.
use de_mo_d.Prelude.{ℕ, ◌<◌, arith, length, ◌≡◌, refl, sym, ◌∙◌, ◌≢◌}
use de_mo_d.Prelude.{true, false, Option, none, some, List, [], ◌∷◌}
use de_mo_d.StreamDb.Types.{no_memory, Trie, null, node, Counts, Mem, Db}
use de_mo_d.StreamDb.Keys.{path_of}
use de_mo_d.StreamDb.Find.{lookup, find_node, internal_find, exists}
use de_mo_d.StreamDb.Find.Laws.{lookup-set_child, lookup-cons}
use de_mo_d.StreamDb.Insert.{insert, insert_at, child_or_new}
use de_mo_d.StreamDb.Contract.{IsKey, view, view_lem, value_of, good_len}
use de_mo_d.StreamDb.Contract.Insert.{insert_lem}
use de_mo_d.StreamDb.Contract.Read.{not_null-stored}

child_or_new_found :
    (p : List ℕ) (t : Trie) (c : Counts) (m : Mem)
    → lookup p t ≢ none
    → child_or_new t c m ≡ (t, c, m)
unfolding child_or_new
child_or_new_found p null c m h = absurd (h (unfold lookup in refl))
child_or_new_found p (node ch v s e) c m h = refl

-- On a path that is there, the one allocation is that of the value, and the old one is gone.
overwrite_fails :
    (p value : List ℕ) (t : Trie) (c : Counts) (x : Option (List ℕ) × ℕ)
    → lookup p t ≡ some x
    → ((insert_at p value t c (false ∷ [])).0 ≡ no_memory)
      × (lookup p (insert_at p value t c (false ∷ [])).1 ≡ some (none, x.1))
unfolding insert_at
overwrite_fails p value null c x h = unfold lookup in cc h
overwrite_fails [] value (node ch v s e) c x h = unfold lookup in ground arith
overwrite_fails (b ∷ p) value (node ch v s e) c x h = ground (
  arith,
  lookup-cons b p ch v s e,
  child_or_new_found p (ch b) c (false ∷ []),
  overwrite_fails p value (ch b) c x,
  lookup-set_child b b p ch (insert_at p value (ch b) c (false ∷ [])).1 v s e,
)

stored_of_value :
    (x : Option (Option (List ℕ) × ℕ)) {old : List ℕ}
    → value_of x ≡ some old
    → (y : Option (List ℕ) × ℕ) × (x ≡ some y)
stored_of_value none h = cc h
stored_of_value (some (none, s)) h = cc h
stored_of_value (some (some v, s)) h = ((some v, s), refl)

-- Overwriting a key while `malloc` fails loses its old value: the key still exists, and `get` finds
-- nothing.
pub insert_overwrite_failure :
    (db : Db) {key : List ℕ} (value : List ℕ) {old : List ℕ}
    → IsKey key
    → 0 < length value
    → view db key ≡ some old
    → ((insert db (some key) (some value) (false ∷ [])).0 ≡ no_memory)
      × (exists (insert db (some key) (some value) (false ∷ [])).1 (some key) ≡ true)
      × (view (insert db (some key) (some value) (false ∷ [])).1 key ≡ none)
unfolding exists lookup internal_find
insert_overwrite_failure db {key} value k h e =
    let (x, at_path) = stored_of_value (lookup (path_of key) db.root) (sym (view_lem db k) ∙ e) in
    ground (
      arith,
      good_len k,
      insert_lem db value (false ∷ []) k h,
      overwrite_fails (path_of key) value db.root db.counts x at_path,
      view_lem (insert db (some key) (some value) (false ∷ [])).1 k,
      not_null-stored
          (find_node (path_of key) (insert db (some key) (some value) (false ∷ [])).1.root),
    )
