-- ===== src/StreamDb/Contract/Delete.antt =====
-- `streamdb_delete` (src/db/streamdb.c) against the map that a database holds.
use mathlib.Core.Path.{subst, subst₂}
use mathlib.Core.Logic.{if_pos, if_neg}
use de_mo_d.Prelude.{ℕ, ◌^◌, ◌<◌, ltb, arith, Bytes, if◌then◌else◌}
use de_mo_d.Prelude.{◌≡◌, ◌≢◌, ◌⊎◌, refl, sym, ap, ◌∙◌, Bool, true, false, Bool-cases, inl, inr}
use de_mo_d.Prelude.{ltb→le, Option, none, some, List, [], ◌∷◌}
use de_mo_d.StreamDb.Types.{ok, not_found, Trie, null, node, set_child, Mem, Counts, Db}
use de_mo_d.StreamDb.Keys.{path_of, path_of-injective, path_of-Bytes}
use de_mo_d.StreamDb.Find.{lookup, not_null}
use de_mo_d.StreamDb.Measure.{Counted, Counted-Balanced}
use de_mo_d.StreamDb.Delete.{delete, remove_helper, prune, clear_end, ensure_root}
use de_mo_d.StreamDb.Delete.Lookup.{lookup-remove_self, lookup-remove_ne}
use de_mo_d.StreamDb.Delete.Balance.{remove-Balanced, removed_lem, removed_of, bytes_of, drop_bytes}
use de_mo_d.StreamDb.Contract.{
  IsKey, IsValid, SoundEntry, view, view_lem, key_discrete, update, value_of, good_len,
}

not_null-prune_root : (t : Trie) (c : Counts) → not_null (prune true t c).0 ≡ not_null t
unfolding prune not_null
not_null-prune_root null c = refl
not_null-prune_root (node ch v s e) c = ground arith

-- "Never delete the root node"
not_null-remove_root :
    (p : List ℕ) (t : Trie) (r : ℕ) (c : Counts)
    → not_null (remove_helper p true t r c).0 ≡ not_null t
unfolding remove_helper
not_null-remove_root p null r c = refl
not_null-remove_root [] (node ch v s e) r c =
    let (t, r1, c1) = clear_end (node ch v s e) r c in
    not_null-prune_root t c1 ∙ unfold not_null in ground arith
not_null-remove_root (b ∷ p) (node ch v s e) r c =
    let (child, r1, c1) = remove_helper p false (ch b) r c in
    not_null-prune_root (node (set_child ch b child) v s e) c1 ∙ unfold not_null in refl

ensure_root_lem :
    (t : Trie) (c : Counts) (m : Mem) → not_null t ≡ true → ensure_root t c m ≡ (t, c, m)
unfolding ensure_root
ensure_root_lem null c m h = unfold not_null in cc h
ensure_root_lem (node ch v s e) c m h = refl

-- `delete` on an acceptable key of a database with a root is the removal from the root.
pub delete_lem :
    (db : Db) {key : List ℕ} (m : Mem)
    → not_null db.root ≡ true
    → IsKey key
    → let (t, removed, c) = remove_helper (path_of key) true db.root 0 db.counts in
      ((delete db (some key) m).0 ≡ (if ltb 0 removed then ok else not_found))
      × ((delete db (some key) m).1.root ≡ t)
      × ((delete db (some key) m).1.counts ≡ (if ltb 0 removed then drop_bytes c removed else c))
unfolding delete
delete_lem db {key} m r k =
    let (t, removed, c) = remove_helper (path_of key) true db.root 0 db.counts in
    ground (
      arith,
      good_len k,
      ensure_root_lem t c m,
      not_null-remove_root (path_of key) db.root 0 db.counts,
    )

pub view-delete_ne :
    (db : Db) {key j : List ℕ} (m : Mem)
    → not_null db.root ≡ true
    → IsKey key
    → IsKey j
    → j ≢ key
    → view (delete db (some key) m).1 j ≡ view db j
view-delete_ne db {key} {j} m r k kj ne =
    view_lem (delete db (some key) m).1 kj
    ∙ ap (λ t. value_of (lookup (path_of j) t)) (delete_lem db m r k).1
    ∙ ap value_of (
        lookup-remove_ne (path_of key) (path_of j) true db.root 0 db.counts
          (path_of-Bytes j kj.bytes) (λ e. ne (path_of-injective j key e)))
    ∙ sym (view_lem db kj)

pub view-delete_self :
    (db : Db) {key : List ℕ} (m : Mem)
    → not_null db.root ≡ true
    → IsKey key
    → view (delete db (some key) m).1 key ≡ none
view-delete_self db {key} m r k =
    view_lem (delete db (some key) m).1 k
    ∙ ap (λ t. value_of (lookup (path_of key) t)) (delete_lem db m r k).1
    ∙ ap value_of
        (lookup-remove_self (path_of key) true db.root 0 db.counts (path_of-Bytes key k.bytes))

-- After a deletion, found or not, the map lacks the key and is otherwise as before.
pub view-delete :
    (db : Db) {key j : List ℕ} (m : Mem)
    → not_null db.root ≡ true
    → IsKey key
    → IsKey j
    → view (delete db (some key) m).1 j ≡ update (view db) key none j
view-delete db {key} {j} m r k kj = elim (key_discrete j key) [
  | yes p ↦ rw (if_pos _ p) (rw p (view-delete_self db m r k))
  | no p ↦ rw (if_neg _ p) (view-delete_ne db m r k kj p)
]

-- In a sound trie the removed size is 0 exactly where nothing is found.
removed_cases :
    (x : Option (Option (List ℕ) × ℕ))
    → SoundEntry x
    → ((ltb 0 (removed_of x 0) ≡ true) × (value_of x ≢ none))
      ⊎ ((ltb 0 (removed_of x 0) ≡ false) × (value_of x ≡ none))
removed_cases none h = inr (refl, refl)
removed_cases (some (none, s)) h = absurd h
removed_cases (some (some v, s)) h = inl (ground arith, λ e. cc e)

bytes_of-eq-removed_of :
    (x : Option (Option (List ℕ) × ℕ)) → SoundEntry x → bytes_of x ≡ removed_of x 0
bytes_of-eq-removed_of none h = refl
bytes_of-eq-removed_of (some (none, s)) h = absurd h
bytes_of-eq-removed_of (some (some v, s)) h = refl

-- A valid database reports `ok` exactly for the keys that it holds, `not_found` for the others.
pub delete_status :
    (db : Db) {key : List ℕ} (m : Mem)
    → IsValid db
    → IsKey key
    → (((delete db (some key) m).0 ≡ ok) × (view db key ≢ none))
      ⊎ (((delete db (some key) m).0 ≡ not_found) × (view db key ≡ none))
delete_status db {key} m v k =
    elim (removed_cases (lookup (path_of key) db.root)
      (v.sound (path_of key) (path_of-Bytes key k.bytes))) [
        | inl (yes_removed, held) ↦
            inl (status ∙ rw yes_removed, λ e. held (sym (view_lem db k) ∙ e))
        | inr (none_removed, missing) ↦ inr (status ∙ rw none_removed, view_lem db k ∙ missing)
      ]
  where
    status :
        (delete db (some key) m).0
        ≡ (if ltb 0 (removed_of (lookup (path_of key) db.root) 0) then ok else not_found)
    status =
        (delete_lem db m v.rooted k).0
        ∙ ap (λ n. if ltb 0 n then ok else not_found)
            (removed_lem (path_of key) true db.root 0 db.counts)

total_size-prune :
    (is_root : Bool) (t : Trie) (c : Counts) → (prune is_root t c).1.total_size ≡ c.total_size
unfolding prune
total_size-prune is_root null c = refl
total_size-prune is_root (node ch v s e) c = ground arith

-- `remove_helper` leaves `total_size` to its caller.
total_size-remove :
    (p : List ℕ) (is_root : Bool) (t : Trie) (r : ℕ) (c : Counts)
    → (remove_helper p is_root t r c).2.total_size ≡ c.total_size
unfolding remove_helper
total_size-remove p is_root null r c = refl
total_size-remove [] is_root (node ch v s e) r c =
    let (t, r1, c1) = clear_end (node ch v s e) r c in total_size-prune is_root t c1 ∙ ground arith
total_size-remove (b ∷ p) is_root (node ch v s e) r c =
    let (child, r1, c1) = remove_helper p false (ch b) r c in
    total_size-prune is_root (node (set_child ch b child) v s e) c1
    ∙ total_size-remove p false (ch b) r c

-- Taking off what was removed, if anything was, is what `delete` does to the counters.
Counted-removed :
    (c : Counts) (t : Trie) (n : ℕ)
    → c.total_size < 2 ^ 64
    → Counted (drop_bytes c n) t
    → Counted (if ltb 0 n then drop_bytes c n else c) t
Counted-removed c t n fits p = elim (Bool-cases (ltb 0 n)) [
  | inl more ↦ rw more p
  | inr zero_removed ↦ rw zero_removed (record {
    nodes = p.nodes;
    keys = p.keys;
    bytes = omega (arith, p.bytes, ltb→le 0 n zero_removed);
  })
]

-- A deletion, of a key that is there or not, keeps the invariant.
pub delete-IsValid :
    (db : Db) {key : List ℕ} (m : Mem) → IsValid db → IsKey key → IsValid (delete db (some key) m).1
delete-IsValid db {key} m v k = record {
  rooted = ap not_null shape.1 ∙ not_null-remove_root (path_of key) db.root 0 db.counts ∙ v.rooted;
  counted = subst₂ Counted (sym shape.2) (sym shape.1) (
      Counted-removed c t removed
        (omega (arith, total_size-remove (path_of key) true db.root 0 db.counts, v.counted.bytes))
        (subst (λ n. Counted (drop_bytes c n) t) agree
          (Counted-Balanced v.counted
            (remove-Balanced (path_of key) true db.root 0 db.counts (path_of-Bytes key k.bytes)))));
  sound = λ p hp. subst (λ r. SoundEntry (lookup p r)) (sym shape.1) (entry p hp);
}
  where
    t : Trie
    t = (remove_helper (path_of key) true db.root 0 db.counts).0

    removed : ℕ
    removed = (remove_helper (path_of key) true db.root 0 db.counts).1

    c : Counts
    c = (remove_helper (path_of key) true db.root 0 db.counts).2

    shape :
        ((delete db (some key) m).0 ≡ (if ltb 0 removed then ok else not_found))
        × ((delete db (some key) m).1.root ≡ t)
        × ((delete db (some key) m).1.counts ≡ (if ltb 0 removed then drop_bytes c removed else c))
    shape = delete_lem db m v.rooted k

    agree : bytes_of (lookup (path_of key) db.root) ≡ removed
    agree =
        bytes_of-eq-removed_of (lookup (path_of key) db.root)
          (v.sound (path_of key) (path_of-Bytes key k.bytes))
        ∙ sym (removed_lem (path_of key) true db.root 0 db.counts)

    entry : (p : List ℕ) → Bytes p → SoundEntry (lookup p t)
    entry p hp = elim (key_discrete p (path_of key)) [
      | yes q ↦
          subst SoundEntry
            (sym (
              ap (λ r. lookup r t) q
              ∙ lookup-remove_self (path_of key) true db.root 0 db.counts
                  (path_of-Bytes key k.bytes)))
            tt
      | no n ↦
          subst SoundEntry (sym (lookup-remove_ne (path_of key) p true db.root 0 db.counts hp n))
            (v.sound p hp)
    ]
