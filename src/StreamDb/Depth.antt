-- ===== src/StreamDb/Depth.antt =====
-- The depth of the tries of src/db/streamdb.c: no operation makes one deeper than a key is long.
use de_mo_d.Prelude.{
  ℕ, zero, suc, ◌+◌, ◌≤◌, ◌==◌, ltb, if◌then◌else◌, arith, length, Bool, true, false, ◌&&◌, ◌||◌,
  not, ◌≡◌,
}
use de_mo_d.Prelude.{
  Option, none, some, List, [], ◌∷◌, Bool-cases, inl, inr, if_true, if_false, sym,
}
use mathlib.Core.Path.{subst}
use de_mo_d.StreamDb.Types.{
  Status, Trie, null, node, set_child, Counts, Mem, malloc, create_node, Db,
}
use de_mo_d.StreamDb.Keys.{path_of, length-path_of}
use de_mo_d.StreamDb.Find.{bad_len}
use de_mo_d.StreamDb.Insert.{set_value, child_or_new, insert_at, insert}
use de_mo_d.StreamDb.Delete.{has_no_children, prune, clear_end, remove_helper, ensure_root, delete}
use de_mo_d.StreamDb.Serialize.{serialize_stack_size}
use de_mo_d.StreamDb.Serialize.Encoding.{Fits}

pub either : {A : Type 0} (P : A → Type 0) (c : Bool) {x y : A} → P x → P y → P (if c then x else y)
either P true px py = px
either P false px py = py

Fits-set_child :
    (d : ℕ) (ch : ℕ → Trie) (b : ℕ) (t : Trie)
    → ((i : ℕ) → Fits d (ch i))
    → Fits d t
    → (i : ℕ) → Fits d (set_child ch b t i)
Fits-set_child d ch b t h ht i = either (Fits d) (i == b) ht (h i)

create_node-Fits : (d : ℕ) (c : Counts) (m : Mem) → Fits (suc d) (create_node c m).0
unfolding create_node malloc
create_node-Fits d c [] = λ i. tt
create_node-Fits d c (true ∷ m) = λ i. tt
create_node-Fits d c (false ∷ m) = tt

child_or_new-Fits :
    (d : ℕ) (t : Trie) (c : Counts) (m : Mem) → Fits (suc d) t → Fits (suc d) (child_or_new t c m).0
unfolding child_or_new
child_or_new-Fits d null c m h = create_node-Fits d c m
child_or_new-Fits d (node ch v s e) c m h = h

set_value-Fits :
    (d : ℕ) (value : List ℕ) (t : Trie) (c : Counts) (m : Mem)
    → Fits d t
    → Fits d (set_value value t c m).1
unfolding set_value malloc
set_value-Fits d value null c m h = h
set_value-Fits zero value (node ch v s e) c m h = absurd h
set_value-Fits (suc d) value (node ch v s e) c [] h = h
set_value-Fits (suc d) value (node ch v s e) c (true ∷ m) h = h
set_value-Fits (suc d) value (node ch v s e) c (false ∷ m) h = h

insert_at-Fits :
    (d : ℕ) (p value : List ℕ) (t : Trie) (c : Counts) (m : Mem)
    → suc (length p) ≤ d
    → Fits d t
    → Fits d (insert_at p value t c m).1
unfolding insert_at
insert_at-Fits d p value null c m l h = tt
insert_at-Fits zero p value (node ch v s e) c m l h = absurd h
insert_at-Fits (suc d) [] value (node ch v s e) c m l h =
    set_value-Fits (suc d) value (node ch v s e) c m h
insert_at-Fits (suc zero) (b ∷ p) value (node ch v s e) c m l h = absurd (omega arith)
insert_at-Fits (suc (suc d)) (b ∷ p) value (node ch v s e) c m l h =
    let made = child_or_new (ch b) c m in
    Fits-set_child (suc d) ch b _ h (
      insert_at-Fits (suc d) p value made.0 made.1 made.2 (omega arith)
        (child_or_new-Fits d (ch b) c m (h b)))

prune-Fits :
    (d : ℕ) (is_root : Bool) (t : Trie) (c : Counts) → Fits d t → Fits d (prune is_root t c).0
unfolding prune
prune-Fits d is_root null c h = h
prune-Fits zero is_root (node ch v s e) c h = absurd h
prune-Fits (suc d) is_root (node ch v s e) c h =
    either (λ (r : Trie × Counts). Fits (suc d) r.0) (has_no_children ch && e == 0 && not is_root)
      tt h

clear_end-Fits :
    (d : ℕ) (t : Trie) (removed : ℕ) (c : Counts) → Fits d t → Fits d (clear_end t removed c).0
unfolding clear_end
clear_end-Fits d null removed c h = h
clear_end-Fits zero (node ch v s e) removed c h = absurd h
clear_end-Fits (suc d) (node ch v s e) removed c h =
    either (λ (r : Trie × ℕ × Counts). Fits (suc d) r.0) (e == 0) h h

remove_helper-Fits :
    (d : ℕ) (p : List ℕ) (is_root : Bool) (t : Trie) (removed : ℕ) (c : Counts)
    → Fits d t
    → Fits d (remove_helper p is_root t removed c).0
unfolding remove_helper
remove_helper-Fits d p is_root null removed c h = h
remove_helper-Fits zero p is_root (node ch v s e) removed c h = absurd h
remove_helper-Fits (suc d) [] is_root (node ch v s e) removed c h =
    let r = clear_end (node ch v s e) removed c in
    prune-Fits (suc d) is_root r.0 r.2 (clear_end-Fits (suc d) (node ch v s e) removed c h)
remove_helper-Fits (suc d) (b ∷ p) is_root (node ch v s e) removed c h =
    let r = remove_helper p false (ch b) removed c in
    prune-Fits (suc d) is_root (node (set_child ch b r.0) v s e) r.2
      (Fits-set_child d ch b r.0 h (remove_helper-Fits d p false (ch b) removed c (h b)))

length-path_of_short :
    (key : List ℕ) (b : Bool) → bad_len key || b ≡ false → suc (length (path_of key)) ≤ 1025
length-path_of_short key b h = ground (arith, length-path_of key)

-- Room for the path of the longest key and the root.
abbrev pub IsShallow : Db → Type 0
IsShallow db = Fits 1025 db.root

pub insert-IsShallow :
    (db : Db) (key value : Option (List ℕ)) (m : Mem)
    → IsShallow db
    → IsShallow (insert db key value m).1
unfolding insert
insert-IsShallow db none value m h = h
insert-IsShallow db (some key) none m h = h
insert-IsShallow db (some key) (some value) m h =
    elim (Bool-cases (bad_len key || length value == 0)) [
      | inl bad ↦ subst (λ (r : Status × Db × Mem). IsShallow r.1) (sym (if_true _ _ bad)) h
      | inr fine ↦
          subst (λ (r : Status × Db × Mem). IsShallow r.1) (sym (if_false _ _ fine))
            (insert_at-Fits 1025 (path_of key) value db.root db.counts m
              (length-path_of_short key _ fine) h)
    ]

ensure_root-Fits :
    (d : ℕ) (t : Trie) (c : Counts) (m : Mem) → Fits (suc d) t → Fits (suc d) (ensure_root t c m).0
unfolding ensure_root
ensure_root-Fits d null c m h = create_node-Fits d c m
ensure_root-Fits d (node ch v s e) c m h = h

pub delete-IsShallow :
    (db : Db) (key : Option (List ℕ)) (m : Mem) → IsShallow db → IsShallow (delete db key m).1
unfolding delete
delete-IsShallow db none m h = h
delete-IsShallow db (some key) m h =
    let r = remove_helper (path_of key) true db.root 0 db.counts in
    let deep =
      ensure_root-Fits 1024 r.0 r.2 m
        (remove_helper-Fits 1025 (path_of key) true db.root 0 db.counts h) in
    either (λ (x : Status × Db × Mem). IsShallow x.1) (bad_len key) h
      (either (λ (x : Status × Db × Mem). IsShallow x.1) (ltb 0 r.1) deep deep)

-- The operations that change the trie, each with the results of its allocations.
pub data Operation : Type 0 where
  inserting : Option (List ℕ) → Option (List ℕ) → Mem → Operation
  deleting : Option (List ℕ) → Mem → Operation

abbrev pub apply : Operation → Db → Db
apply (inserting key value m) db = (insert db key value m).1
apply (deleting key m) db = (delete db key m).1

abbrev pub apply_all : List Operation → Db → Db
apply_all [] db = db
apply_all (op ∷ ops) db = apply_all ops (apply op db)

apply_all-IsShallow : (ops : List Operation) (db : Db) → IsShallow db → IsShallow (apply_all ops db)
apply_all-IsShallow [] db h = h
apply_all-IsShallow (inserting key value m ∷ ops) db h =
    apply_all-IsShallow ops (insert db key value m).1 (insert-IsShallow db key value m h)
apply_all-IsShallow (deleting key m ∷ ops) db h =
    apply_all-IsShallow ops (delete db key m).1 (delete-IsShallow db key m h)

pub Fits-add : (d n : ℕ) (t : Trie) → Fits d t → Fits (d + n) t
Fits-add d n null h = tt
Fits-add zero n (node ch v s e) h = absurd h
Fits-add (suc d) n (node ch v s e) h =
    subst (λ k. Fits k (node ch v s e)) {x = suc (d + n)} (omega arith)
      (λ i. Fits-add d n (ch i) (h i))

-- A database of at most 1025 levels fits the serializer's stack of 4096 entries after any insertions
-- and deletions, whatever their arguments and their allocations.
pub apply_all-Fits :
    (ops : List Operation) (db : Db)
    → Fits 1025 db.root
    → Fits serialize_stack_size (apply_all ops db).root
apply_all-Fits ops db h = Fits-add 1025 3071 (apply_all ops db).root (apply_all-IsShallow ops db h)
