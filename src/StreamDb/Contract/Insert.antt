-- ===== src/StreamDb/Contract/Insert.antt =====
-- `streamdb_insert` (src/db/streamdb.c) against the map that a database holds.
use mathlib.Core.Path.{subst, subst₂}
use mathlib.Core.Logic.{if_pos, if_neg}
use de_mo_d.Prelude.{ℕ, ◌<◌, arith, length, Bytes, take-length}
use de_mo_d.Prelude.{◌≡◌, ◌≢◌, refl, sym, ap, ◌∙◌, true}
use de_mo_d.Prelude.{some, List, [], ◌∷◌}
use de_mo_d.StreamDb.Types.{ok, Trie, null, node, Mem, Counts, Db}
use de_mo_d.StreamDb.Types.{create_node}
use de_mo_d.StreamDb.Keys.{path_of, path_of-injective, path_of-Bytes}
use de_mo_d.StreamDb.Find.{lookup, not_null}
use de_mo_d.StreamDb.Measure.{Counted, Counted-Balanced}
use de_mo_d.StreamDb.Insert.{insert, insert_at, child_or_new}
use de_mo_d.StreamDb.Insert.Lookup.{lookup-insert_at_self, lookup-insert_at_ne}
use de_mo_d.StreamDb.Insert.Balance.{insert_at-Balanced}
use de_mo_d.StreamDb.Contract.{
  IsKey, IsValid, SoundEntry, view, view_lem, key_discrete, update, value_of, good_len,
}

-- `insert` on arguments that it accepts is the walk from the root.
pub insert_lem :
    (db : Db) {key : List ℕ} (value : List ℕ) (m : Mem)
    → IsKey key
    → 0 < length value
    → let (status, root, counts, m') = insert_at (path_of key) value db.root db.counts m in
      ((insert db (some key) (some value) m).0 ≡ status)
      × ((insert db (some key) (some value) m).1.root ≡ root)
      × ((insert db (some key) (some value) m).1.counts ≡ counts)
unfolding insert
insert_lem db value m k h = ground (arith, good_len k)

-- Every key but the inserted one keeps its value, also when the insertion runs out of memory.
pub view-insert_ne :
    (db : Db) {key j : List ℕ} (value : List ℕ) (m : Mem)
    → IsKey key
    → IsKey j
    → 0 < length value
    → j ≢ key
    → view (insert db (some key) (some value) m).1 j ≡ view db j
view-insert_ne db {key} {j} value m k kj h ne =
    view_lem (insert db (some key) (some value) m).1 kj
    ∙ ap (λ t. value_of (lookup (path_of j) t)) (insert_lem db value m k h).1
    ∙ ap value_of (
        lookup-insert_at_ne (path_of key) (path_of j) value db.root db.counts m
          (λ e. ne (path_of-injective j key e)))
    ∙ sym (view_lem db kj)

pub view-insert_self :
    (db : Db) {key : List ℕ} (value : List ℕ) (m : Mem)
    → IsKey key
    → 0 < length value
    → (insert db (some key) (some value) m).0 ≡ ok
    → view (insert db (some key) (some value) m).1 key ≡ some value
view-insert_self db {key} value m k h e =
    view_lem (insert db (some key) (some value) m).1 k
    ∙ ap (λ t. value_of (lookup (path_of key) t)) (insert_lem db value m k h).1
    ∙ ap value_of (
        lookup-insert_at_self (path_of key) value db.root db.counts m
          (sym (insert_lem db value m k h).0 ∙ e))
    ∙ ap some (take-length value)

-- A successful insertion is the update of the map at its key.
pub view-insert :
    (db : Db) {key j : List ℕ} (value : List ℕ) (m : Mem)
    → IsKey key
    → IsKey j
    → 0 < length value
    → (insert db (some key) (some value) m).0 ≡ ok
    → view (insert db (some key) (some value) m).1 j ≡ update (view db) key (some value) j
view-insert db {key} {j} value m k kj h e = elim (key_discrete j key) [
  | yes p ↦ rw (if_pos _ p) (rw p (view-insert_self db value m k h e))
  | no p ↦ rw (if_neg _ p) (view-insert_ne db value m k kj h p)
]

child_or_new-no_fail :
    (t : Trie) (c : Counts)
    → (not_null (child_or_new t c []).0 ≡ true) × ((child_or_new t c []).2 ≡ [])
unfolding child_or_new create_node not_null
child_or_new-no_fail null c = (refl, refl)
child_or_new-no_fail (node ch v s e) c = (refl, refl)

insert_at-no_fail :
    (p value : List ℕ) (t : Trie) (c : Counts)
    → not_null t ≡ true
    → (insert_at p value t c []).0 ≡ ok
unfolding insert_at
insert_at-no_fail p value null c h = unfold not_null in cc h
insert_at-no_fail [] value (node ch v s e) c h = refl
insert_at-no_fail (b ∷ p) value (node ch v s e) c h =
    let (fine, empty) = child_or_new-no_fail (ch b) c in
    ap (λ m. (insert_at p value (child_or_new (ch b) c []).0 (child_or_new (ch b) c []).1 m).0)
      empty
    ∙ insert_at-no_fail p value (child_or_new (ch b) c []).0 (child_or_new (ch b) c []).1 fine

-- With a root and enough memory, an insertion of acceptable arguments succeeds.
pub insert_succeeds :
    (db : Db) {key : List ℕ} (value : List ℕ)
    → not_null db.root ≡ true
    → IsKey key
    → 0 < length value
    → (insert db (some key) (some value) []).0 ≡ ok
insert_succeeds db {key} value r k h =
    (insert_lem db value [] k h).0 ∙ insert_at-no_fail (path_of key) value db.root db.counts r

not_null-insert_at :
    (p value : List ℕ) (t : Trie) (c : Counts) (m : Mem)
    → not_null (insert_at p value t c m).1 ≡ not_null t
unfolding insert_at not_null
not_null-insert_at p value null c m = refl
not_null-insert_at [] value (node ch v s e) c m = ground arith
not_null-insert_at (b ∷ p) value (node ch v s e) c m = refl

-- A successful insertion keeps the invariant.
pub insert-IsValid :
    (db : Db) {key : List ℕ} (value : List ℕ) (m : Mem)
    → IsValid db
    → IsKey key
    → 0 < length value
    → (insert db (some key) (some value) m).0 ≡ ok
    → IsValid (insert db (some key) (some value) m).1
insert-IsValid db {key} value m v k h e = record {
  rooted =
      ap not_null shape.1 ∙ not_null-insert_at (path_of key) value db.root db.counts m ∙ v.rooted;
  counted = subst₂ Counted (sym shape.2) (sym shape.1) (
      Counted-Balanced v.counted
        (insert_at-Balanced (path_of key) value db.root db.counts m (path_of-Bytes key k.bytes)));
  sound = λ p hp. subst (λ t. SoundEntry (lookup p t)) (sym shape.1) (entry p hp);
}
  where
    shape :
        let (status, root, counts, m') = insert_at (path_of key) value db.root db.counts m in
        ((insert db (some key) (some value) m).0 ≡ status)
        × ((insert db (some key) (some value) m).1.root ≡ root)
        × ((insert db (some key) (some value) m).1.counts ≡ counts)
    shape = insert_lem db value m k h

    entry :
        (p : List ℕ)
        → Bytes p
        → SoundEntry (lookup p (insert_at (path_of key) value db.root db.counts m).1)
    entry p hp = elim (key_discrete p (path_of key)) [
      | yes q ↦
          subst SoundEntry
            (sym (
              ap (λ r. lookup r (insert_at (path_of key) value db.root db.counts m).1) q
              ∙ lookup-insert_at_self (path_of key) value db.root db.counts m (sym shape.0 ∙ e)))
            (refl, h)
      | no n ↦
          subst SoundEntry (sym (lookup-insert_at_ne (path_of key) p value db.root db.counts m n))
            (v.sound p hp)
    ]
