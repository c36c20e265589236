-- ===== src/StreamDb/Stored.antt =====
-- The operations of src/db/streamdb.c leave tries that a file can hold, when allocations succeed.
use de_mo_d.Prelude.{
  ℕ, ◌^◌, ◌<◌, ◌==◌, arith, length, Bytes, Bool, true, false, ◌&&◌, not, ◌≡◌, ◌≢◌, refl, sym,
}
use de_mo_d.Prelude.{Option, some, List, [], ◌∷◌}
use mathlib.Core.Path.{subst}
use de_mo_d.StreamDb.Types.{
  Trie, null, node, set_child, empty_node, Counts, Mem, malloc, create_node, Db,
}
use de_mo_d.StreamDb.Keys.{path_of, path_of-Bytes}
use de_mo_d.StreamDb.Find.{not_null}
use de_mo_d.StreamDb.Insert.{set_value, child_or_new, insert_at, insert}
use de_mo_d.StreamDb.Delete.{has_no_children, prune, clear_end, remove_helper, delete}
use de_mo_d.StreamDb.Depth.{either}
use de_mo_d.StreamDb.Contract.{IsKey}
use de_mo_d.StreamDb.Contract.Insert.{insert_lem}
use de_mo_d.StreamDb.Contract.Delete.{delete_lem}
use de_mo_d.StreamDb.Deserialize.Loading.{Storable}

cons-ne-nil : {x : Bool} {m : Mem} → x ∷ m ≢ []
cons-ne-nil h = cc h

pub empty_node-Storable : Storable empty_node
empty_node-Storable = ((refl, omega arith), (λ i. tt), λ i h. refl)

set_child-Storable :
    (ch : ℕ → Trie) (v : Option (List ℕ)) (s e b : ℕ) (t : Trie)
    → Storable (node ch v s e)
    → Storable t
    → b < 256
    → Storable (node (set_child ch b t) v s e)
set_child-Storable ch v s e b t h ht lt =
    (h.0, (λ i. either Storable (i == b) ht (h.1 i)), λ i hi. ground (arith, h.2 i))

child_or_new-Storable :
    (t : Trie) (c : Counts)
    → Storable t
    → Storable (child_or_new t c []).0 × ((child_or_new t c []).2 ≡ [])
unfolding child_or_new create_node malloc
child_or_new-Storable null c h = (empty_node-Storable, refl)
child_or_new-Storable (node ch v s e) c h = (h, refl)

insert_at-Storable :
    (p value : List ℕ) (t : Trie) (c : Counts) (m : Mem)
    → Bytes p
    → 0 < length value
    → length value < 2 ^ 64
    → m ≡ []
    → Storable t
    → Storable (insert_at p value t c m).1
unfolding insert_at set_value malloc
insert_at-Storable p value null c m hp pos fits em h = tt
insert_at-Storable [] value (node ch v s e) c (x ∷ m) hp pos fits em h = absurd (cons-ne-nil em)
insert_at-Storable [] value (node ch v s e) c [] hp pos fits em h =
    ((omega arith, omega arith, refl, pos, fits), h.1, h.2)
insert_at-Storable (b ∷ p) value (node ch v s e) c (x ∷ m) hp pos fits em h =
    absurd (cons-ne-nil em)
insert_at-Storable (b ∷ p) value (node ch v s e) c [] hp pos fits em h =
    let made = child_or_new (ch b) c [] in
    let (good, no_failure) = child_or_new-Storable (ch b) c (h.1 b) in
    set_child-Storable ch v s e b (insert_at p value made.0 made.1 made.2).1 h
      (insert_at-Storable p value made.0 made.1 made.2 hp.1 pos fits no_failure good) hp.0

pub insert-Storable :
    (db : Db) {key : List ℕ} (value : List ℕ)
    → IsKey key
    → 0 < length value
    → length value < 2 ^ 64
    → Storable db.root
    → Storable (insert db (some key) (some value) []).1.root
insert-Storable db {key} value k pos fits h =
    subst Storable (sym (insert_lem db value [] k pos).1) (
      insert_at-Storable (path_of key) value db.root db.counts [] (path_of-Bytes key k.bytes) pos
        fits refl h)

prune-Storable :
    (is_root : Bool) (t : Trie) (c : Counts) → Storable t → Storable (prune is_root t c).0
unfolding prune
prune-Storable is_root null c h = h
prune-Storable is_root (node ch v s e) c h =
    either (λ (r : Trie × Counts). Storable r.0) (has_no_children ch && e == 0 && not is_root) tt h

clear_end-Storable :
    (t : Trie) (removed : ℕ) (c : Counts) → Storable t → Storable (clear_end t removed c).0
unfolding clear_end
clear_end-Storable null removed c h = h
clear_end-Storable (node ch v s e) removed c h =
    either (λ (r : Trie × ℕ × Counts). Storable r.0) (e == 0) h ((refl, omega arith), h.1, h.2)

remove_helper-Storable :
    (p : List ℕ) (is_root : Bool) (t : Trie) (removed : ℕ) (c : Counts)
    → Bytes p
    → Storable t
    → Storable (remove_helper p is_root t removed c).0
unfolding remove_helper
remove_helper-Storable p is_root null removed c hp h = h
remove_helper-Storable [] is_root (node ch v s e) removed c hp h =
    let r = clear_end (node ch v s e) removed c in
    prune-Storable is_root r.0 r.2 (clear_end-Storable (node ch v s e) removed c h)
remove_helper-Storable (b ∷ p) is_root (node ch v s e) removed c hp h =
    let r = remove_helper p false (ch b) removed c in
    prune-Storable is_root (node (set_child ch b r.0) v s e) r.2 (
      set_child-Storable ch v s e b r.0 h
        (remove_helper-Storable p false (ch b) removed c hp.1 (h.1 b)) hp.0)

pub delete-Storable :
    (db : Db) {key : List ℕ} (m : Mem)
    → not_null db.root ≡ true
    → IsKey key
    → Storable db.root
    → Storable (delete db (some key) m).1.root
delete-Storable db {key} m r k h =
    subst Storable (sym (delete_lem db m r k).1)
      (remove_helper-Storable (path_of key) true db.root 0 db.counts (path_of-Bytes key k.bytes) h)
