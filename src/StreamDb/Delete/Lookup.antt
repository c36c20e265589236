-- ===== src/StreamDb/Delete/Lookup.antt =====
-- What the walks find after `remove_helper` (src/db/streamdb.c).
use de_mo_d.Prelude.{ℕ, zero, suc, ◌+◌, ◌≤◌, ◌<◌, arith, Bytes}
use de_mo_d.Prelude.{◌≡◌, ◌≢◌, refl, ◌∙◌, Bool, true, false}
use de_mo_d.Prelude.{Option, none, List, [], ◌∷◌}
use de_mo_d.StreamDb.Types.{Trie, null, node, set_child, Counts}
use de_mo_d.StreamDb.Find.{lookup, not_null}
use de_mo_d.StreamDb.Find.Laws.{lookup-set_child, lookup-cons}
use de_mo_d.StreamDb.Delete.{none_from, has_no_children, prune, clear_end, remove_helper}

pub none_from_sound :
    (n i j : ℕ) (ch : ℕ → Trie)
    → none_from n i ch ≡ true
    → i ≤ j
    → j < i + n
    → not_null (ch j) ≡ false
unfolding none_from
none_from_sound zero i j ch h lo hi = absurd (omega arith)
none_from_sound (suc n) i j ch h lo hi = ground (arith, none_from_sound n (suc i) j ch)

lookup-null_child : (q : List ℕ) (t : Trie) → not_null t ≡ false → lookup q t ≡ none
unfolding lookup not_null
lookup-null_child q null h = refl
lookup-null_child q (node ch v s e) h = ground arith

lookup-null : (q : List ℕ) → lookup q null ≡ none
unfolding lookup
lookup-null q = refl

-- A node that may be pruned holds nothing.
lookup_childless :
    (q : List ℕ) (ch : ℕ → Trie) (v : Option (List ℕ)) (s e : ℕ)
    → Bytes q
    → has_no_children ch ≡ true
    → e ≡ 0
    → lookup q (node ch v s e) ≡ none
unfolding has_no_children
lookup_childless [] ch v s e hq h z = unfold lookup in ground arith
lookup_childless (b ∷ q) ch v s e hq h z =
    lookup-cons b q ch v s e
    ∙ lookup-null_child q (ch b) (none_from_sound 256 0 b ch h (omega arith) (omega arith))

-- Pruning changes no lookup.
pub lookup-prune :
    (q : List ℕ) (is_root : Bool) (t : Trie) (c : Counts)
    → Bytes q
    → lookup q (prune is_root t c).0 ≡ lookup q t
unfolding prune
lookup-prune q is_root null c h = refl
lookup-prune q is_root (node ch v s e) c h =
    ground (arith, lookup_childless q ch v s e h, lookup-null q)

-- The removed path is gone.
pub lookup-remove_self :
    (p : List ℕ) (is_root : Bool) (t : Trie) (r : ℕ) (c : Counts)
    → Bytes p
    → lookup p (remove_helper p is_root t r c).0 ≡ none
unfolding remove_helper
lookup-remove_self p is_root null r c h = unfold lookup in refl
lookup-remove_self [] is_root (node ch v s e) r c h =
    let (t, r1, c1) = clear_end (node ch v s e) r c in
    lookup-prune [] is_root t c1 h ∙ unfold lookup in ground arith
lookup-remove_self (b ∷ p) is_root (node ch v s e) r c h =
    let (child, r1, c1) = remove_helper p false (ch b) r c in
    ground (
      arith,
      lookup-prune (b ∷ p) is_root (node (set_child ch b child) v s e) c1 h,
      lookup-set_child b b p ch child v s e,
      lookup-remove_self p false (ch b) r c h.1,
    )

-- Every other path reads as before.
pub lookup-remove_ne :
    (p q : List ℕ) (is_root : Bool) (t : Trie) (r : ℕ) (c : Counts)
    → Bytes q
    → q ≢ p
    → lookup q (remove_helper p is_root t r c).0 ≡ lookup q t
unfolding remove_helper
lookup-remove_ne p q is_root null r c h ne = refl
lookup-remove_ne [] [] is_root (node ch v s e) r c h ne = absurd (ne refl)
lookup-remove_ne [] (x ∷ q) is_root (node ch v s e) r c h ne =
    let (t, r1, c1) = clear_end (node ch v s e) r c in
    lookup-prune (x ∷ q) is_root t c1 h ∙ unfold lookup in ground arith
lookup-remove_ne (b ∷ p) [] is_root (node ch v s e) r c h ne =
    let (child, r1, c1) = remove_helper p false (ch b) r c in
    lookup-prune [] is_root (node (set_child ch b child) v s e) c1 h ∙ unfold lookup in ground arith
lookup-remove_ne (b ∷ p) (x ∷ q) is_root (node ch v s e) r c h ne =
    let (child, r1, c1) = remove_helper p false (ch b) r c in
    ground (
      arith,
      lookup-prune (x ∷ q) is_root (node (set_child ch b child) v s e) c1 h,
      lookup-set_child x b q ch child v s e,
      lookup-cons x q ch v s e,
      lookup-remove_ne p q false (ch b) r c h.1,
    )
